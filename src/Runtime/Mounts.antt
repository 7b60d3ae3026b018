-- ===== src/Runtime/Mounts.antt =====
-- pkg/runtime/fs.go: the mounts, devices and sysctls of a container, and the change of the root.
pub mod Options
pub mod Single
pub mod Nodes
pub mod Sysctl
pub mod Covers
pub mod Prepare
pub mod Confined
pub mod Made
mod Examples
