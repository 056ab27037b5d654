-- ===== src/Web.antt =====
-- internal/web: the outgoing queue of a websocket client, the cache of round reports and the address
-- that a request is counted for.
pub mod Queue
pub mod Cache
pub mod Reports
pub mod Budget
pub mod Tests
