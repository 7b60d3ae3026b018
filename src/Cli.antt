-- ===== src/Cli.antt =====
-- cmd/lightpod: what the flags of `run` and `create` make of a config.
pub mod Values
pub mod Volumes
pub mod Flags
pub mod Kept
mod Examples
