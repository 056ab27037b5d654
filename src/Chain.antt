-- ===== src/Chain.antt =====
-- internal/chain: how the monitor reaches the nodes of the network.
pub mod Pool
pub mod Failover
pub mod Rotation
pub mod Pages
pub mod Paging
pub mod Collected
pub mod Socket
pub mod Session
pub mod Reconnect
pub mod Lifecycle
pub mod Retries
pub mod Waits
pub mod Dials
mod Tests
