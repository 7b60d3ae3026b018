-- ===== src/Security/Syscalls.antt =====
-- The generated tables of pkg/security, one module for each architecture.
pub mod Arch
pub mod Amd64
pub mod Arm64
pub mod Arm
