-- ===== src/Registry.antt =====
-- internal/registry/registry.go: the on-disk service registry.
pub mod Types
pub mod Ports
pub mod Normal
pub mod Store
pub mod Edits
pub mod Methods
pub mod Calls
pub mod Drafts
pub mod Invariant
pub mod Saved
pub mod Recovery
pub mod Frame
pub mod Lifecycle
pub mod Archival
pub mod History
pub mod Used
pub mod Tests
pub mod RecoveryTests
