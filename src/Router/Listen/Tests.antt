-- ===== src/Router/Listen/Tests.antt =====
-- A queue of two connections, a packet that waits, and an interface that blocks.
use libtrp.Base.{
  length-replicate, ℕ, ◌≡◌, refl, arith, true, false, ◌||◌, ◌==◌, if◌then◌else◌, none, some, List,
  [], ◌∷◌, replicate,
}
use libtrp.Pack.Tests.{sodium, sodium-IsSodium}
use libtrp.Connection.State
use libtrp.Linked.Laws.{link, done}
use libtrp.Sendq.{Sendq}
use libtrp.Sendq.Laws.{IsQueue}
use libtrp.Router.Hub.{init_conn}
use libtrp.Router.Listen.{Line, Limits, End, send_all}
use libtrp.Router.Listen.Laws.{Left, send_all-Left}
use libtrp.Router.Listen.Turns.{IsReady}

abbrev env : State.Env
env = record {
  now = 1000;
  timer_ok = true;
  message_ok = true;
  self_pk_ok = true;
  self_sk_ok = true;
  peer_nonce_ok = true;
  peer_pk_ok = true;
  keypair = (replicate 32 1, replicate 32 2);
  random_nonce = replicate 24 3;
  garbage = replicate 24 4;
}

-- An interface that blocks, and writes down the length of a packet.
abbrev limits : Limits (List ℕ)
limits = record {
  buflen = 1200;
  connection_send_count = 2;
  packet_send_count = 4;
  write = λ src n buf w. (11, n ∷ w);
}

abbrev queue : Sendq
queue = record {
  ends = record { head = some 7; tail = some 8 };
  next = λ c. if c == 7 then some 8 else none;
  insend = λ c. (c == 7) || (c == 8);
}

queue-IsQueue : IsQueue queue (7 ∷ 8 ∷ [])
queue-IsQueue = record {
  list = record { links = link 7 (8 ∷ []) refl (link 8 [] refl done); tail = refl };
  flags = λ c. ground arith;
}

-- A packet of 80 bytes waits, and connections 7 and 8 are in the queue.
abbrev line : Line (List ℕ)
line = record {
  sendq = queue;
  conns = λ c. record (init_conn false) { state = State.open_sent; hassend = true };
  buf = replicate 1200 0;
  sendlen = 80;
  sendsrc = 5;
  world = [];
}

line-IsReady : IsReady sodium limits (7 ∷ 8 ∷ []) line
unfolding init_conn
line-IsReady = (omega (arith, length-replicate {A = ℕ} 1200 0), λ c o. (tt, tt))

send_all-Left_example :
    (r : End (List ℕ)) × (send_all sodium env limits 7 line ≡ some r) × Left (7 ∷ 8 ∷ []) r
send_all-Left_example =
    send_all-Left sodium env limits (omega arith) (omega arith) sodium-IsSodium (omega arith) line
      (7 ∷ 8 ∷ []) queue-IsQueue line-IsReady (omega arith)
