-- ===== src/Auth.antt =====
-- internal/auth/auth.go: the capability token of the daemon's interface.
pub mod Token
pub mod Trimmed
pub mod Shared
pub mod Agreed
mod Tests
