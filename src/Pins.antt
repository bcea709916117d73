-- ===== src/Pins.antt =====
-- scripts/check_pins.py: the pins of the SP1 crates, of the generated Sail model, and of the Lake packages.
pub mod Sp1
pub mod Sail
pub mod Check
mod Tests
