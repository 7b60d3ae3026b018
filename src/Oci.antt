-- ===== src/Oci.antt =====
-- pkg/oci: the runtime-spec types, paths, the rootfs of a bundle, and the generated defaults.
pub mod Spec
pub mod Path
pub mod Profile
pub mod Defaults
pub mod Rootfs
