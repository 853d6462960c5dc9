-- ===== src/Process.antt =====
-- internal/process/process.go: the supervisor of the services' processes.
pub mod Types
pub mod Manager
pub mod Exit
pub mod Events
pub mod Tree
pub mod EnvFile
pub mod EnvLines
pub mod EnvFileTests
pub mod Descent
pub mod Owned
mod TreeTests
pub mod Quiet
pub mod Table
pub mod Candidate
pub mod Tests
