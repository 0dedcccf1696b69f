-- ===== src/Router/Hub.antt =====
-- src/trip.c and src/trip.h: the connections of a router, and what a segment meets; with `_tripc_init` and
-- `_tripc_set_screen` of src/conn.c and `trip_unsign` of src/pack.c.
use libtrp.Base.{
  ℕ, ◌-◌, ◌%◌, Bool, false, Option, none, some, List, [], take, drop, ◌==◌, leb, if◌then◌else◌,
}
use libtrp.Pack.Format.{Sodium}
use libtrp.Connection.State
use libtrp.Connection.State.{Conn, Prefix, control_open, control_chal, control_max, prefix_emask}
use libtrp.Connmap.{Connmap}
use libtrp.Router.State.{Flags}

-- The router's connections: the map, the two places for lookup by source, and what each handle stands
-- for; with the flags and the router's key for OPEN.
pub record Hub : Type 0 where
  pub flag : Flags
  pub conn : Connmap
  pub connsrc : Option ℕ × Option ℕ
  pub conns : ℕ → Conn
  pub opensk : Option (List ℕ)

-- What the screen callback answers: `allow`, and the keys.
pub record Screen : Type 0 where
  pub allow : Bool
  pub opensk : Option (List ℕ)
  pub signpk : Option (List ℕ)
  pub signsk : Option (List ℕ)

-- The surroundings during one segment: those of the connection's handlers, the user's screen given the
-- version, the length and the place of the route, memory for a connection and for the map, two random draws, and
-- libsodium's check of a signature (signature, message, key; 0 if it is good).
pub record Outside : Type 0 where
  pub env : State.Env
  pub screen : ℕ → ℕ → ℕ → Screen
  pub fresh : Option ℕ
  pub map_ok : Bool
  pub draws : ℕ × ℕ
  pub verify : List ℕ → List ℕ → List ℕ → ℕ

-- A `return` of `_trip_segment`: with a reason by `_trip_router_reject`, without, or at its end.
pub data Verdict : Type 0 where
  reject : ℕ → Verdict
  ignore taken : Verdict

abbrev pub Result : Type 0
Result = Option (Verdict × Hub)

-- `trip_unsign`: 0 if the signature at the end of the buffer is good.
unfoldable pub unsign : Sodium → Outside → ℕ → List ℕ → Option (List ℕ) → ℕ
unsign sod out len buf none = 22
unsign sod out len buf (some pk) =
    if leb len sod.sign_bytes
    then 22
    else out.verify (take sod.sign_bytes (drop (len - sod.sign_bytes) buf))
        (take (len - sod.sign_bytes) buf) pk

-- `_tripc_init`: all else is zero.
unfoldable pub init_conn : Bool → Conn
init_conn incoming = record {
  src = 0;
  incoming = incoming;
  encrypted = false;
  state = State.start;
  statedeadline = 0;
  statetimer = false;
  retry = 0;
  maxretry = 0;
  maxstatems = 3000;
  growms = 0;
  statems = 100;
  maxresolve = 500;
  error = 0;
  errmsg = none;
  self = record {
    id = 0;
    sequence = 0;
    opensk = none;
    signsk = none;
    pk = none;
    sk = none;
    nonce = none;
    rtt = 0;
    sent = 0;
    recv = 0;
  };
  peer = record {
    id = 0;
    openpk = none;
    signpk = none;
    pk = none;
    nonce = none;
    seqfloor = 0;
    window = 0;
    lim = record { credit = 0; stream = 0; message_size = 0; message = 0 };
  };
  ping = record { nonce = []; timestamp = 0; maxms = 0; ms = 0; isactive = false };
  hassend = false;
  calls = [];
}

-- `_tripc_set_screen`
unfoldable pub set_screen : Screen → Conn → Conn
set_screen s c = record c {
  self = record (c.self) { opensk = s.opensk; signsk = s.signsk };
  peer = record (c.peer) { signpk = s.signpk };
}

abbrev pub ids_of : (ℕ → Conn) → ℕ → ℕ
ids_of conns h = (conns h).self.id

abbrev pub put : (ℕ → Conn) → ℕ → Conn → ℕ → Conn
put conns h c g = if g == h then c else conns g

-- `_trip_router_get_conn_by_src`
unfoldable pub get_conn_by_src : Hub → ℕ → ℕ → Option ℕ
get_conn_by_src hub src peerid =
    let place : Option ℕ = if src % 2 == 0 then hub.connsrc.0 else hub.connsrc.1 in
    elim place [ none ↦ none | some h ↦ if (hub.conns h).peer.id == peerid then some h else none ]
