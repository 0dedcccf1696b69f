-- ===== src/Router.antt =====
-- src/trip.c: the router. `State` has its states, `Change` is `_trip_set_state` with what calls it back.
pub mod State
pub mod Change
pub mod Setup
pub mod Action
pub mod Hub
pub mod Segment
pub mod Listen
pub mod Opening
pub mod Closing
pub mod Queueing
pub mod Polling
mod Tests
