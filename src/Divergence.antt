-- ===== src/Divergence.antt =====
-- internal/divergence: the live detector of vote splits, the archive of observed rounds that bounds
-- it, and the snapshots of that archive.
pub mod Types
pub mod Report
pub mod Archive
pub mod Votes
pub mod Validators
pub mod Tracker
pub mod Resolve
pub mod Find
pub mod Resend
pub mod Idempotence
pub mod Split
pub mod Bounds
pub mod Evidence
pub mod Balance
pub mod Groups
pub mod Snapshot
pub mod Revision
pub mod Versions
pub mod Freshness
pub mod Unchanged
pub mod Settled
pub mod VoteLimits
pub mod VoteBounds
pub mod Runs
pub mod History
pub mod Tests
pub mod SnapshotTests
