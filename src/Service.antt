-- ===== src/Service.antt =====
-- internal/service: the operations of the daemon over the registry, the processes and the proxy.
pub mod Names
pub mod SafeNames
pub mod Startup
pub mod Gate
pub mod Closed
pub mod Recover
pub mod Free
pub mod Allowed
pub mod Valid
pub mod Calm
pub mod Crash
pub mod Backoff
pub mod BackoffTests
pub mod World
pub mod Metrics
pub mod MetricsTests
pub mod Undo
pub mod Replace
pub mod Detached
pub mod Restored
pub mod Promoted
pub mod Survives
pub mod Outcomes
pub mod Ports
pub mod Allotted
pub mod Distinct
pub mod Exclusive
pub mod Request
pub mod Deploy
pub mod Rollback
pub mod Archive
mod ArchiveTests
pub mod Failing
pub mod Undone
pub mod Unsaved
pub mod Tests
pub mod RestartTests
pub mod DeployTests
mod RollbackTests
