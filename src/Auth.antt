-- ===== src/Auth.antt =====
-- internal/auth: admin sessions, passwords and one-time codes.
pub mod Sessions
pub mod Totp
pub mod Tests
