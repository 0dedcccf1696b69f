-- ===== src/Lib.antt =====
-- A verification library for libtrp, a library of connections over datagrams with encrypted packets.
--
-- The program's parts. A router (src/trip.c) owns the sockets, a map of connections (src/connmap.c), a
-- queue of those that have something to send (src/sendq.c), one of those that wait for an address
-- (src/resolveq.c), and timers (src/timerwheel.c); it is a state machine whose packet interface may call it
-- back. Each datagram goes through its filter. A connection (src/conn.c) is a state machine that the router
-- drives: it hands it the body of a packet (`_tripc_read`), asks it for the next packet (`_tripc_send`),
-- and calls it back when its timer fires. It keeps a map of its streams (src/streammap.c) and two queues of
-- messages, which the streams (src/stream.c) fill. Packets are written and read by a byte codec driven by
-- format strings (src/pack.c). The router may be driven by a loop over epoll (src/trip_poll.c), and have a
-- UDP interface (src/packet.c). Small helpers are in src/util.c.
--
-- What models which part.
-- - Util: src/util.c. `smear` is one line `n |= n >> k` of `near_pwr2_64`; `are_zeros`.
-- - Pack: src/pack.c. Pack.Word has `packi16` to `unpacku64`; Pack.Format the characters of a format as
--   constructors, and the arguments of a variadic call as a list; Pack.Encode is `trip_pack` and
--   `trip_pack_len`, one round of the loop is `step`, and `goto` to the end is `npos`; Pack.Decode is
--   `trip_unpack`, which lists what it stores through its pointers in order; Pack.Fields, Taken, RoundTrip
--   and Length have what plain fields are encoded to, and theorems on whole formats.
-- - Connection: src/conn.c. Connection.State has the structs of src/conn.h, src/connself.h, src/connpeer.h,
--   src/connlim.h, src/ping.h and src/protocol.h; Timing the deadlines and timers; Change
--   `_tripc_set_state`, `_tripc_set_error`, the start of a connection and the callbacks of its timers, with
--   Change.Resending for the resend timers one after the other; Parse the parsers of packets; Read
--   `_tripc_read`; Send `_tripc_send`.
-- - Connmap: src/connmap.c. Connmap.Inv has the invariant and the abstract map `view`; Chain, Place, Init,
--   Add and Del prove what the operations do to both.
-- - Linked: the singly linked lists of src/sendq.c, src/conn.c and src/stream.c over a store of `next`
--   fields; Linked.Laws and Linked.Removal have the list that a chain of pointers goes through.
-- - Sockmap: src/sockmap.c, whose array is the list of its entries.
-- - Sendq: src/sendq.c, with the queue and the flag `insend` of each connection.
-- - Messages: `_tripc_send_add`, `_tripc_send_pick` and `_tripc_send_clear` of src/conn.c, src/messageq.h,
--   and of src/stream.c `trips_send` and the message list of a stream.
-- - Router: src/trip.c. Router.State has the struct of src/trip.h as far as its states use it;
--   Router.Change `_trip_set_state`, `_trip_set_error`, the timer's callback, and `trip_ready`,
--   `trip_unready` and `trip_error`, which a packet interface calls; Router.Hub the connections of a router
--   with `_tripc_init`, `_tripc_set_screen` and `trip_unsign`; Router.Segment `_trip_segment`; Router.Setup
--   `trip_new`, `trip_setopt` and the test of `_trip_verify`; Router.Action `trip_action`, `trip_timeout`,
--   `trip_start` and `trip_stop`; Router.Listen the branch of `_trip_listen` that sends, over the send
--   queue and `_tripc_send`, and Router.Listen.Reading the whole of it; Router.Opening
--   `trip_open_connection`, its timer and `trip_resolve`, over the connection map and the resolve queue;
--   Router.Closing `_trip_close_connection`, `_trip_close`, and of src/conn.c `_tripc_destroy` and the
--   timer for an address; Router.Queueing `_trip_qconnection`, `_trip_unqconnection`,
--   `_trip_send_immediately_cb` and `trip_watch`; Router.Polling `trip_run` of src/trip_poll.c.
-- - Resolveq: src/resolveq.c, with the slots of Connmap, and an abstract map from keys to connections.
-- - Streammap: src/streammap.c and `tripc_open_stream` of src/conn.c, with the array as a list of words.
-- - Wheel: src/timerwheel.c. A callback is a function to the timers that it adds and cancels.
-- - Poll: `next_timeout` of src/trip_poll.c and `triptime_timeout` of src/time.c.
-- - Udp: the check of a port in src/packet.c; Udp.Socket the making of the UDP interface, its bind and its
--   unbind, as the packet interface of Router.Change.
-- - Base: C's widths, shifts and bit operations on natural numbers, and lists.
--
-- How it is modelled. Numbers are natural numbers; each cast or sum of a fixed width that can wrap is
-- written with its modulus. Fields of type `int` are taken as not negative. Undefined behaviour (an access
-- out of bounds, a pointer NULL, an argument of the wrong kind) is a value, `fault` or `none`, so a theorem
-- that a result is reached excludes it. A handler of a connection reads the clock, the success of each
-- allocation, fresh keys and nonces from `Env`, once per handler; what it asks of the router is appended to
-- the list `calls`. The connection map keeps connections as handles, and their `self.id` in a function.
--
-- A list's elements are handles, and a pointer that is NULL is `none`. A packet interface is a function
-- from the router to what it calls back before its `bind` or `unbind` returns; the user's screen is a
-- function of version and route. What happens while `trip_run` polls is a list of rounds, with what
-- `epoll_wait` answers and the clock; where the list is at its end, the run still waits. What the system
-- answers to sockets is a record of functions.
--
-- Bounds. `uvar_len` runs its loop on fuel 8: a number below 2^64 is zero after eight shifts by eight bits.
-- A search through a linked list runs on fuel, for which the length of the list is enough. A change of the
-- router's state nests others by callbacks; fuel 3 is enough where the timer wheel has memory. The send
-- loop runs on fuel; one more than the length of the queue with the limit of packets is enough, since each
-- turn shortens the queue or sends a packet; reading runs on fuel for the packets that wait. What reading
-- does to the connections and to the send queue, through the segments that are read, is a parameter of
-- `listen`. A walk of the timer wheel runs on fuel for each timer and for those that callbacks add. All
-- other loops are structural recursions over a format, a buffer or a count.
--
-- libsodium is not part of the repository: its block sizes and its signature are fields of the record
-- `Sodium`, and `IsSodium` states that the sizes are small and that a signature has its size. How many
-- bytes of a secret key it reads is not modelled.
--
-- Not modelled: the making of the poll and the calls of `epoll_ctl` in src/trip_poll.c, and src/global.c,
-- which only call the system; of src/conn.c and src/stream.c, the public accessors, message ids and what
-- only frees; of src/pack.c, the printing of buffers. Debug output is left out.

pub mod Base
pub mod Util
pub mod Pack
pub mod Connection
pub mod Connmap
pub mod Linked
pub mod Sendq
pub mod Sockmap
pub mod Messages
pub mod Resolveq
pub mod Streammap
pub mod Wheel
pub mod Poll
pub mod Udp
pub mod Router
