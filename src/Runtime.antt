-- ===== src/Runtime.antt =====
-- pkg/runtime: paths of the container's file system, clone flags, the cgroup and the life cycle.
pub mod SecureJoin
pub mod Cgroups
pub mod Lifecycle
pub mod Namespaces
pub mod Launch
pub mod Mounts
pub mod Handshake
pub mod IdMaps
pub mod Init
