-- ===== src/Proxy.antt =====
-- internal/proxy/proxy.go: the stable ports and what stands behind them.
pub mod Types
pub mod Keys
pub mod Listeners
pub mod Address
pub mod Exposure
mod ExposureTests
pub mod Routes
pub mod Closing
pub mod Swap
pub mod Rollback
pub mod Removal
pub mod Unswap
pub mod Tests
