-- ===== src/Tests.antt =====
-- The theorems of the development applied to concrete inputs.
mod Stores
mod Kmz
mod Device
mod Memory
mod Mtp
mod Host
mod Registry
mod Adb
mod Api
mod Images
mod Screen
mod Delivery
mod Usb
