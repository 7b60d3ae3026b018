-- ===== src/Security.antt =====
-- pkg/security: seccomp and capabilities.
pub mod Syscalls
pub mod Seccomp
pub mod Capabilities
pub mod Install
