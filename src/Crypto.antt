-- ===== src/Crypto.antt =====
-- What internal/auth takes from Go's `crypto` and `encoding` packages.
pub mod Base32
pub mod Hex
pub mod Sha1
pub mod Hmac
pub mod Tests
