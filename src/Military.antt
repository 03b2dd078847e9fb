-- ===== src/Military.antt =====
-- src/military/crypto.rs: the checksums of streams and files, and the shield that keeps secrets off the
-- clipboard.
pub mod Checksums
pub mod Shield
mod Tests
