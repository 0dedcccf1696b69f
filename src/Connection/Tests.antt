-- ===== src/Connection/Tests.antt =====
-- A connection with a timer and a packet due, in each of the states that the theorems ask for.
use libtrp.Base.{ℕ, ◌≡◌, ◌⊎◌, inl, refl, arith, true, false, none, some, [], ◌∷◌, replicate}
use libtrp.Pack.Decode.{trip_unpack, run, step}
use libtrp.Pack.Tests.{sodium, sodium-IsSodium}
use libtrp.Connection.State.{
  State, open_sent, chal, pinging, ready, Conn, Env, Prefix, set_timeout, resend_cb, einval,
}
use libtrp.Connection.Change.{set_state}
use libtrp.Connection.Change.Timers.{Balanced, armed, cancelled, set_state-Balanced}
use libtrp.Connection.Parse.{parse_ping}
use libtrp.Connection.Read.{read}
use libtrp.Connection.Read.Laws.{Moves, IsParsed, parse_ping-refused, read-Moves}
use libtrp.Connection.Send.{send}
use libtrp.Connection.Send.Laws.{IsSent, send-IsSent}

abbrev env : Env
env = record {
  now = 1000;
  timer_ok = true;
  message_ok = true;
  self_pk_ok = true;
  self_sk_ok = true;
  peer_nonce_ok = true;
  peer_pk_ok = true;
  keypair = (replicate 32 1, replicate 32 2);
  random_nonce = replicate 24 3;
  garbage = replicate 24 4;
}

abbrev conn_in : State → Conn
conn_in s = record {
  src = 1;
  incoming = false;
  encrypted = true;
  state = s;
  statedeadline = 900;
  statetimer = true;
  retry = 0;
  maxretry = 0;
  maxstatems = 2000;
  growms = 500;
  statems = 500;
  maxresolve = 5000;
  error = 0;
  errmsg = none;
  self = record {
    id = 8;
    sequence = 41;
    opensk = none;
    signsk = none;
    pk = some (replicate 32 1);
    sk = some (replicate 32 2);
    nonce = some (replicate 24 5);
    rtt = 0;
    sent = 0;
    recv = 0;
  };
  peer = record {
    id = 6;
    openpk = none;
    signpk = none;
    pk = none;
    nonce = some (replicate 24 6);
    seqfloor = 0;
    window = 64;
    lim = record { credit = 1; stream = 1; message_size = 1; message = 1 };
  };
  ping = record { nonce = replicate 24 7; timestamp = 0; maxms = 30000; ms = 250; isactive = true };
  hassend = true;
  calls = set_timeout 500 resend_cb ∷ [];
}

abbrev prefix : Prefix
prefix = record { encrypted = false; control = 3; id = 8; seq = 42 }

balanced : Balanced (conn_in open_sent)
unfolding Balanced armed cancelled
balanced = refl

-- A ping that reaches a connection that is READY.
read_ping : (c : Conn) × (read sodium env prefix 1 (9 ∷ []) (conn_in ready) ≡ some (einval, c))
unfolding read trip_unpack run step
read_ping = (_, refl)

read-Moves_example : Moves ready (read_ping.0).state
read-Moves_example =
    read-Moves sodium env prefix 1 (9 ∷ []) (omega arith) (conn_in ready) (read_ping.0) einval
      (read_ping.1)

-- A connection in CHAL whose peer's OPEN had a nonce of zeroes.
abbrev no_nonce : Conn
no_nonce = let c = conn_in chal in record c { peer = record (c.peer) { nonce = none } }

parse_ping-refused_example :
    (IsParsed no_nonce
      × (no_nonce.peer.nonce ≡ none)
      × (parse_ping sodium env no_nonce 1 (9 ∷ []) prefix ≡ none))
    ⊎ (¬ (IsParsed no_nonce × (no_nonce.peer.nonce ≡ none))
        × (c' : Conn) × (parse_ping sodium env no_nonce 1 (9 ∷ []) prefix ≡ some (einval, c'))
        × (c'.state ≡ chal))
parse_ping-refused_example = parse_ping-refused sodium env no_nonce 1 (9 ∷ []) prefix (omega arith)

set_state-Balanced_example : Balanced (set_state env (conn_in open_sent) pinging)
set_state-Balanced_example = set_state-Balanced env (conn_in open_sent) pinging refl balanced

-- Timers half a second apart.
abbrev at_time : ℕ → Env
at_time n = record env { now = n }

send-IsSent_example :
    IsSent 500 (conn_in open_sent) (send sodium 500 (replicate 500 0) env (conn_in open_sent))
send-IsSent_example =
    send-IsSent sodium env 500 (replicate 500 0) (conn_in open_sent) sodium-IsSodium (omega arith)
      (omega arith) (omega arith) (omega arith) refl (inl refl)
