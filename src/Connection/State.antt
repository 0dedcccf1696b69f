-- ===== src/Connection/State.antt =====
-- src/conn.h, src/connself.h, src/connpeer.h, src/connlim.h, src/ping.h and src/protocol.h: what a
-- connection keeps. A pointer to a key or a nonce is NULL or its bytes.
use libtrp.Base.{ℕ, Bool, Option, List}

-- `enum _tripc_state`
pub data State : Type 0 where
  start resolve open_sent chal pinging ready ready_ping closing ended failed : State

-- `connlim_t`
pub record Limits : Type 0 where
  pub credit : ℕ
  pub stream : ℕ
  pub message_size : ℕ
  pub message : ℕ

-- `connself_t`, with the statistics that a ping reports
pub record Self : Type 0 where
  pub id : ℕ
  pub sequence : ℕ
  pub opensk : Option (List ℕ)
  pub signsk : Option (List ℕ)
  pub pk : Option (List ℕ)
  pub sk : Option (List ℕ)
  pub nonce : Option (List ℕ)
  pub rtt : ℕ
  pub sent : ℕ
  pub recv : ℕ

-- `connpeer_t`
pub record Peer : Type 0 where
  pub id : ℕ
  pub openpk : Option (List ℕ)
  pub signpk : Option (List ℕ)
  pub pk : Option (List ℕ)
  pub nonce : Option (List ℕ)
  pub seqfloor : ℕ
  pub window : ℕ
  pub lim : Limits

-- `ping_t`
pub record Ping : Type 0 where
  pub nonce : List ℕ
  pub timestamp : ℕ
  pub maxms : ℕ
  pub ms : ℕ
  pub isactive : Bool

-- The callbacks that a connection gives to its timer.
pub data Callback : Type 0 where
  resolve_cb resend_cb ready_ping_cb : Callback

-- What a connection asks of its router.
pub data Call : Type 0 where
  set_timeout : ℕ → Callback → Call
  cancel_timeout enqueue dequeue delete_resolve close_connection : Call

-- `struct _trip_connection_s`, and the calls made so far. `statetimer` says whether it is not NULL.
pub record Conn : Type 0 where
  pub src : ℕ
  pub incoming : Bool
  pub encrypted : Bool
  pub state : State
  pub statedeadline : ℕ
  pub statetimer : Bool
  pub retry : ℕ
  pub maxretry : ℕ
  pub maxstatems : ℕ
  pub growms : ℕ
  pub statems : ℕ
  pub maxresolve : ℕ
  pub error : ℕ
  pub errmsg : Option (List ℕ)
  pub self : Self
  pub peer : Peer
  pub ping : Ping
  pub hassend : Bool
  pub calls : List Call

-- What the surroundings answer during one handler: the clock, whether each allocation succeeds, and
-- fresh keys and nonces.
pub record Env : Type 0 where
  pub now : ℕ
  pub timer_ok : Bool
  pub message_ok : Bool
  pub self_pk_ok : Bool
  pub self_sk_ok : Bool
  pub peer_nonce_ok : Bool
  pub peer_pk_ok : Bool
  pub keypair : List ℕ × List ℕ
  pub random_nonce : List ℕ
  -- what an uninitialised buffer for a nonce holds
  pub garbage : List ℕ

-- `errno` values
abbrev pub einval : ℕ
einval = 22

abbrev pub etime : ℕ
etime = 62

-- `_trip_prefix_t`
pub record Prefix : Type 0 where
  pub encrypted : Bool
  pub control : ℕ
  pub id : ℕ
  pub seq : ℕ

-- `enum _trip_control` and `_TRIP_PREFIX_EMASK`
abbrev pub control_data : ℕ
control_data = 0

abbrev pub control_open : ℕ
control_open = 1

abbrev pub control_chal : ℕ
control_chal = 2

abbrev pub control_ping : ℕ
control_ping = 3

abbrev pub control_disc : ℕ
control_disc = 4

abbrev pub control_max : ℕ
control_max = 5

abbrev pub prefix_emask : ℕ
prefix_emask = 0x80
