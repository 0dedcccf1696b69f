-- ===== src/Router/Closing/Tests.antt =====
-- Connection 7, with the id 8 and the key 1, the first of two in the send queue.
use libtrp.Base.{
  ℕ, zero, suc, ◌%◌, ◌^◌, ◌≡◌, ◌||◌, inr, refl, arith, true, false, none, some, [], ◌∷◌, replicate,
  npos, ◌==◌, if◌then◌else◌,
}
use libtrp.Linked.Laws.{link, done}
use libtrp.Sendq.{Sendq}
use libtrp.Connection.State
use libtrp.Connmap.{Connmap, Ids, taken, vacant}
use libtrp.Connmap.Inv
use libtrp.Connmap.Inv.{taken_at}
use libtrp.Resolveq.{Resolveq}
use libtrp.Streammap
use libtrp.Router.Hub.{init_conn}
use libtrp.Router.Closing.{Holdings, resolve_timeout}
use libtrp.Router.Closing.Gone.{IsHeld, IsGone, resolve_timeout-IsGone}

abbrev env : State.Env
env = record {
  now = 1000;
  timer_ok = true;
  message_ok = true;
  self_pk_ok = true;
  self_sk_ok = true;
  peer_nonce_ok = true;
  peer_pk_ok = true;
  keypair = (replicate 32 1, replicate 32 2);
  random_nonce = replicate 24 3;
  garbage = replicate 24 4;
}

abbrev map : Connmap
map = record { mask = 3; size = 1; cap = 1; hasmap = true; slots = taken 7 ∷ []; free = npos }

abbrev eight : Ids
eight = λ c. 8

map-home : (i c : ℕ) → taken_at map.slots i ≡ some c → eight c % 2 ^ 2 ≡ i
map-home zero c e = refl
map-home (suc i) c e = ground arith

abbrev sendq : Sendq
sendq = record {
  ends = record { head = some 7; tail = some 9 };
  next = λ c. if c == 7 then some 9 else none;
  insend = λ c. (c == 7) || (c == 9);
}

abbrev queue : Resolveq
queue = record { len = 2; size = 1; slots = vacant npos ∷ taken 7 ∷ []; free = 0 }

abbrev holdings : Holdings
holdings = record {
  map = map;
  ids = eight;
  sendq = sendq;
  conns = λ c. init_conn false;
  streams = λ c. Streammap.init 8;
  queue = queue;
  keys = λ c. if c == 7 then some 1 else none;
}

held : IsHeld 7 1 (7 ∷ 9 ∷ []) holdings
held = record {
  map = record {
    k = 2;
    le = omega arith;
    mask = refl;
    j = 0;
    cap = inr (refl, refl, omega arith);
    len = refl;
    chain = [];
    free = Inv.stop;
    rest = refl;
    size = refl;
    home = map-home;
  };
  mapped = refl;
  sendq = record {
    list = record { links = link 7 (9 ∷ []) refl (link 9 [] refl done); tail = refl };
    flags = λ c. ground arith;
  };
  key = refl;
  queue = record {
    len = refl;
    small = omega arith;
    chain = 0 ∷ [];
    free = Inv.link 0 npos [] refl (omega arith) tt Inv.stop;
    rest = refl;
    size = refl;
  };
  resolving = refl;
}

resolve_timeout-IsGone_example :
    (s : Holdings) × (resolve_timeout env 2 7 holdings ≡ some s)
    × IsGone 7 1 (7 ∷ 9 ∷ []) holdings s
resolve_timeout-IsGone_example =
    resolve_timeout-IsGone env 7 1 2 (7 ∷ 9 ∷ []) holdings held (omega arith)
