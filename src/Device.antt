-- ===== src/Device.antt =====
-- pkg/device/devices.go: device numbers and the devices of --device.
pub mod Numbers
pub mod Raw
pub mod Nvidia
mod Examples
