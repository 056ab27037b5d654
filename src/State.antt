-- ===== src/State.antt =====
-- internal/state: the monitoring state, and the mode that its health reports.
pub mod Types
pub mod Health
pub mod Tests
