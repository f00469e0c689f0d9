-- ===== src/Device.antt =====
-- internal/device: the controllers of the connected devices.
pub mod Media
pub mod Exif
pub mod MassStorage
pub mod Mtp
pub mod Registry
pub mod Adb
pub mod Service
pub mod Dispatch
