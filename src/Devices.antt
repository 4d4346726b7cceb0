-- ===== src/Devices.antt =====
-- Device drivers: devices.
pub mod Block
pub mod Intq
