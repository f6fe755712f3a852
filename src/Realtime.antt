-- ===== src/Realtime.antt =====
-- The synthetic real-time layer (src/synthetic_realtime): events, clocks, the bounded store,
-- event-time windows and the feature families. Instants and durations are integers of
-- microseconds.
pub mod Event
pub mod Clock
pub mod Store
pub mod Windows
pub mod Features
mod Tests
