-- ===== src/Build.antt =====
-- scripts/build_semantics.py: the import graph of the build and its classification.
pub mod Graph
pub mod Layers
pub mod Critical
pub mod Sources
pub mod Log
pub mod Report
mod Tests
