-- ===== src/Connection.antt =====
-- src/conn.c: the state machine of a connection. `State` has the data, `Timing` the deadlines and the
-- growing delays, `Change` is `_tripc_set_state` and what calls it, `Parse` and `Read` take a packet
-- in, `Send` writes one.
pub mod State
pub mod Timing
pub mod Change
pub mod Parse
pub mod Read
pub mod Send
mod Tests
