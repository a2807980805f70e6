-- ===== src/Devices.antt =====
-- The devices of src/kernel/devices.
pub mod KeyCode
pub mod Keyboard
