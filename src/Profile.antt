-- ===== src/Profile.antt =====
-- scripts/profile_aggregate.py: the profiles of single modules and of whole builds, and the report on them.
pub mod Seconds
pub mod Cumulative
pub mod Stats
pub mod Summary
pub mod Report
mod Tests
