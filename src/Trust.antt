-- ===== src/Trust.antt =====
-- scripts/check_trust.py: the trust policy, the classes of the axioms, and the evaluation of a scan.
pub mod Policy
pub mod Safe
pub mod Scan
pub mod Run
pub mod Verdict
pub mod Inventory
mod Tests
