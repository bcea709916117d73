-- ===== src/Cache.antt =====
-- scripts/ci: the build-cache scripts `cache_gc.py` and `cache_pick.py`.
pub mod Key
pub mod Entry
pub mod Gc
pub mod Sweep
pub mod Pick
mod Tests
