-- ===== src/Core.antt =====
-- internal/core: the transitions that every consensus input shares, the handlers of the
-- orchestrator, and the comparison of application hashes across endpoints.
pub mod Transitions
pub mod Notices
pub mod Handlers
pub mod Votes
pub mod Replies
pub mod Pollers
pub mod Inputs
pub mod Invariant
pub mod Preserved
pub mod Validity
pub mod Soundness
pub mod Comparison
pub mod Offers
pub mod Agreement
pub mod Tests
