-- ===== src/Messages.antt =====
-- src/conn.c (`_tripc_send_add`, `_tripc_send_pick`, `_tripc_send_clear`), src/messageq.h and src/stream.c:
-- the messages that wait to be sent. A message is a handle, its `next` is one field for the queue of the
-- connection and the list of its stream.
pub mod Pick
pub mod Queues
pub mod Streams
pub mod Sending
mod Tests
use mathlib.Core.Option
use libtrp.Base.{
  ℕ, ◌+◌, ◌-◌, ◌^◌, bit_and, Bool, true, false, ◌&&◌, ◌||◌, Option, none, some, u32, ◌==◌, ltb,
  if◌then◌else◌,
}
use libtrp.Linked.{Next, Ends, empty, enqueue, update, seek, Found, missing, behind}

-- `enum _trip_message_q`: the indices 0 and 1 of `sendbeg` and `sendend`.
pub data Which : Type 0 where
  priority whenever : Which

-- `messageq_t`
pub record Messageq : Type 0 where
  pub sendmask : ℕ
  pub sendwhich : ℕ
  pub first : Ends
  pub second : Ends

unfoldable pub queue : Which → Messageq → Ends
queue priority q = q.first
queue whenever q = q.second

unfoldable pub set_queue : Which → Ends → Messageq → Messageq
set_queue priority e q = record q { first = e }
set_queue whenever e q = record q { second = e }

unfoldable pub other : Which → Which
other priority = whenever
other whenever = priority

-- `_tripc_send_add` of a message whose `priority` is `w`.
unfoldable pub send_add : Which → ℕ → Messageq → Next → Messageq × Next
unfolding queue set_queue enqueue
send_add w m q nx = let (e, nx) = enqueue m (queue w q) nx in (set_queue w e q, nx)

-- `_tripc_send_pick`
unfoldable pub send_pick : Messageq → Option ℕ × Messageq
unfolding queue other
send_pick q =
    let sendwhich = bit_and (u32 (q.sendwhich + 1)) q.sendmask in
    let which = if sendwhich == 0 then whenever else priority in
    let picked : Option ℕ = elim (queue which q).head [
      | some m ↦ some m
      | none ↦ (queue (other which) q).head
    ] in
    (picked, record q { sendwhich = sendwhich })

abbrev pub same : Option ℕ → Option ℕ → Bool
same none none = true
same (some p) (some q) = p == q
same none (some q) = false
same (some p) none = false

-- `_tripc_send_clear` of a message whose `priority` is `w`.
unfoldable pub send_clear : Which → ℕ → Messageq → Next → Messageq × Next
unfolding queue set_queue update
send_clear w m q nx =
    let e = queue w q in
    if same (some m) e.head
    then (
      if same e.head e.tail then set_queue w empty q else set_queue w (record e { head = nx m }) q,
      update nx m none,
    )
    else (q, nx)

-- The fields of `struct _trip_stream_s` that sending uses; `hasconn` says whether `connection` is not NULL.
pub record Stream : Type 0 where
  pub hasconn : Bool
  pub flags : ℕ
  pub list : Ends

-- `_trips_msg_add`
unfoldable pub msg_add : ℕ → Stream → Next → Stream × Next
unfolding enqueue
msg_add m s nx = let (e, nx) = enqueue m s.list nx in (record s { list = e }, nx)

-- The end of `_trips_msg_remove` for a message found behind `prev`.
unfoldable pub take_out : Option ℕ → ℕ → Ends → Next → Ends × Next
unfolding update
take_out (some p) m e nx = (
  if same (some m) e.tail then record e { tail = some p } else e,
  update (update nx p (nx m)) m none,
)
take_out none m e nx =
    (if same (some m) e.tail then empty else record e { head = nx m }, update nx m none)

-- `_trips_msg_remove`; `none` is too little fuel.
unfoldable pub msg_remove : ℕ → ℕ → Stream → Next → Option (Stream × Next)
unfolding seek take_out
msg_remove fuel m s nx = elim (seek fuel nx m none s.list.head) [
  | none ↦ none
  | some missing ↦ some (s, nx)
  | some (behind prev) ↦ let (e, nx) = take_out prev m s.list nx in some (record s { list = e }, nx)
]

abbrev pub enotconn : ℕ
enotconn = 107

abbrev pub einval : ℕ
einval = 22

abbrev pub eshutdown : ℕ
eshutdown = 108

abbrev pub ewouldblock : ℕ
ewouldblock = 11

abbrev pub enomem : ℕ
enomem = 12

-- `_trips_priority`: the bit `TRIPS_OPT_PRIORITY` of the flags is the index of the queue.
unfoldable pub priority_of : Stream → Which
priority_of s = if bit_and s.flags 1 == 0 then priority else whenever

-- `len > INT_MAX || len > message_size` and a NULL or empty buffer.
unfoldable pub is_bad : Bool → ℕ → ℕ → Bool
is_bad hasbuf message_size len =
    (if hasbuf then false else true) || (len == 0) || ltb (2 ^ 31 - 1) len || ltb message_size len

-- `trips_send`: the error code, and what it makes of the queue, the stream and the `next` fields. `fresh`
-- is the message that was allocated.
unfoldable pub send :
    Option ℕ → Bool → ℕ → ℕ → Stream → Messageq → Next → ℕ × Stream × Messageq × Next
unfolding send_add msg_add priority_of is_bad
send fresh hasbuf message_size len s q nx =
    if not s.hasconn
    then (enotconn, s, q, nx)
    else if is_bad hasbuf message_size len
    then (einval, s, q, nx)
    else if not (bit_and s.flags 32 == 0)
    then (eshutdown, s, q, nx)
    else if not (bit_and s.flags 80 == 0)
    then (ewouldblock, s, q, nx)
    else elim fresh [
      | none ↦ (enomem, s, q, nx)
      | some m ↦
          let (q, nx) = send_add (priority_of s) m q (update nx m none) in
          let (s, nx) = msg_add m s nx in (0, s, q, nx)
    ]
  where
    not : Bool → Bool
    not true = false
    not false = true
