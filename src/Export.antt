-- ===== src/Export.antt =====
-- scripts/check_ensemble_export.py: the staging of the artifacts that Rust compiles.
pub mod Stage
pub mod RustLog
pub mod Artifacts
mod Tests
