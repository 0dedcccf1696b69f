-- ===== src/Router/State.antt =====
-- src/trip.h and src/trip.c: what a router keeps for its own states, and what it asks of others.
use libtrp.Base.{ℕ, Bool, Option, List}

-- `enum _tripr_state`
pub data State : Type 0 where
  start bind listen close unbind ended failed : State

-- The bits of `flag`.
pub record Flags : Type 0 where
  pub allow_in : Bool
  pub allow_out : Bool
  pub plain_open : Bool
  pub plain_isig : Bool
  pub plain_osig : Bool
  pub plain_comm : Bool
  pub free_packet : Bool
  pub always_ready : Bool

-- Which of the user's functions are not NULL.
pub record Callbacks : Type 0 where
  pub watch : Bool
  pub timeout : Bool
  pub screen : Bool
  pub connection : Bool
  pub stream : Bool
  pub message : Bool

-- The callbacks of a router's own timers.
pub data Callback : Type 0 where
  router_cb send_immediately_cb stop_cb : Callback

-- What is asked of the timer wheel, the user and the packet interface.
pub data Call : Type 0 where
  set_timeout : ℕ → Callback → Call
  cancel_timeout : Call
  wait : ℕ → Call
  packet_bind packet_unbind : Call
  close_connections : ℕ → Call

-- The part of `struct _trip_router_s` that its states use. `statetimer` says whether that is not NULL,
-- `haspacket` whether there is a packet interface, and `attached` whether its `router` is not NULL.
pub record Router : Type 0 where
  pub state : State
  pub statedeadline : ℕ
  pub statetimer : Bool
  pub error : ℕ
  pub errmsg : Option (List ℕ)
  pub mindeadline : ℕ
  pub timeout_bind : ℕ
  pub timeout_close : ℕ
  pub timeout_unbind : ℕ
  pub flag : Flags
  pub haspacket : Bool
  pub attached : Bool
  pub callbacks : Callbacks
  pub calls : List Call

-- The clock, and whether allocations succeed, during one handler.
pub record Env : Type 0 where
  pub now : ℕ
  pub timer_ok : Bool
  pub message_ok : Bool
  pub packet_ok : Bool

-- What a packet interface calls back before its `bind` or `unbind` returns: nothing, `trip_ready`,
-- `trip_unready` with a code, or `trip_error`.
pub data Reply : Type 0 where
  later ready : Reply
  unready : ℕ → Reply
  fails : ℕ → List ℕ → Reply

-- A packet interface answers as it likes, given the router.
pub record Packet : Type 0 where
  pub bind : Router → Reply
  pub unbind : Router → Reply

-- What a change of state comes to: a router, undefined behaviour, or too little fuel for what it nests.
pub data Run : Type 0 where
  done : Router → Run
  crash too_deep : Run

abbrev pub and_then : Run → (Router → Run) → Run
and_then (done r) k = k r
and_then crash k = crash
and_then too_deep k = too_deep
