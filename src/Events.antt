-- ===== src/Events.antt =====
-- internal/events: the in-process bus.
pub mod Bus
pub mod Delivery
pub mod Tests
