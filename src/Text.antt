-- ===== src/Text.antt =====
-- Functions of Go's package strings that several parts use.
pub mod Trim
