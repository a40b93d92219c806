-- ===== src/Drivers.antt =====
-- src/drivers: the text screen.
pub mod Screen
