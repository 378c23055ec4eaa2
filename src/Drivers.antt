-- ===== src/Drivers.antt =====
-- The device drivers.
pub mod Disk
pub mod Ata
pub mod Keyboard
pub mod Mouse
pub mod Manager
pub mod Intel82540em
