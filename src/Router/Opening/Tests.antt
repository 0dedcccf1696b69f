-- ===== src/Router/Opening/Tests.antt =====
-- A router without connections on which one is opened.
use libtrp.Base.{
  ◌≡◌, ◌⊎◌, refl, arith, true, false, none, some, [], ◌∷◌, replicate, npos, ◌==◌, if◌then◌else◌,
}
use libtrp.Connection.State
use libtrp.Connection.State.{open_sent}
use libtrp.Connmap
use libtrp.Connmap.{taken, vacant}
use libtrp.Connmap.Inv.{stop, link}
use libtrp.Resolveq
use libtrp.Resolveq.{Resolveq}
use libtrp.Resolveq.Laws.{IsValid, view}
use libtrp.Router.Hub.{Hub, init_conn}
use libtrp.Router.Opening.{
  Opening, Memory, Opened, refused, opened, ebusy, enomem, fail, open_connection, start_opening,
  trip_resolve, on_success, success,
}
use libtrp.Router.Opening.Laws.{IsKept, IsLost, open_connection-IsKept, start_opening-trip_resolve}

abbrev env : State.Env
env = record {
  now = 1000;
  timer_ok = true;
  message_ok = true;
  self_pk_ok = true;
  self_sk_ok = true;
  peer_nonce_ok = true;
  peer_pk_ok = true;
  keypair = (replicate 32 1, replicate 32 2);
  random_nonce = replicate 24 3;
  garbage = replicate 24 4;
}

abbrev hub : Hub
hub = record {
  flag = record {
    allow_in = true;
    allow_out = true;
    plain_open = false;
    plain_isig = false;
    plain_osig = false;
    plain_comm = true;
    free_packet = false;
    always_ready = false;
  };
  conn = record { mask = 0; size = 0; cap = 1; hasmap = true; slots = vacant npos ∷ []; free = 0 };
  connsrc = (none, none);
  conns = λ h. init_conn false;
  opensk = none;
}

abbrev queue : Resolveq
queue = record { len = 2; size = 0; slots = vacant 1 ∷ vacant npos ∷ []; free = 0 }

queue-IsValid : IsValid queue
queue-IsValid = record {
  len = refl;
  small = omega arith;
  chain = 0 ∷ 1 ∷ [];
  free =
      link 0 1 (1 ∷ []) refl (omega arith) (omega arith, tt)
        (link 1 npos [] refl (omega arith) tt stop);
  rest = refl;
  size = refl;
}

abbrev before : Opening
before = record { hub = hub; queue = queue; keys = λ h. none }

-- No memory for the timer.
abbrev memory : Memory
memory = record { fresh = some 7; slot_ok = true; map_ok = true; timer_ok = false; draws = (1, 2) }

-- The connection 7 waits under the key 1.
abbrev waiting : Opening
waiting = record {
  hub = hub;
  queue = record { len = 2; size = 1; slots = vacant npos ∷ taken 7 ∷ []; free = 0 };
  keys = λ h. if h == 7 then some 1 else none;
}

-- What the call leaves.
abbrev after : Opened
after = elim (open_connection env memory before) [ none ↦ refused 0 before | some r ↦ r ]

opens : open_connection env memory before ≡ some after
unfolding open_connection fail Resolveq.put Connmap.add
opens = refl

open_connection-IsKept_example :
    (o : Opening) × (((after ≡ refused ebusy o) × IsLost ebusy 7 o)
      ⊎ ((after ≡ refused enomem o) × IsLost enomem 7 o)
      ⊎ ((after ≡ opened 7 o) × IsKept 7 o))
open_connection-IsKept_example =
    open_connection-IsKept env memory before 7 after queue-IsValid (omega arith) refl refl refl
      opens

waiting_kept : IsKept 7 waiting
unfolding init_conn
waiting_kept = record {
  key = 1;
  kept = refl;
  valid = record {
    len = refl;
    small = omega arith;
    chain = 0 ∷ [];
    free = link 0 npos [] refl (omega arith) tt stop;
    rest = refl;
    size = refl;
  };
  mapped = refl;
  fresh = refl;
  outgoing = refl;
  clean = refl;
}

start_opening-trip_resolve_example :
    let (key, o1) = start_opening env 7 waiting in
    (key ≡ some 1)
    × (o2 : Opening) × (trip_resolve env key 5 0 false o1 ≡ some (success 7 o2))
    × (((on_success env 7 o2).hub.conns 7).state ≡ open_sent)
    × (((on_success env 7 o2).hub.conns 7).hassend ≡ true)
    × (((on_success env 7 o2).hub.conns 7).src ≡ 5)
    × (((on_success env 7 o2).hub.conns 7).error ≡ 0)
    × (view 1 o2.queue ≡ none)
unfolding waiting_kept
start_opening-trip_resolve_example =
    start_opening-trip_resolve env env env 7 5 waiting (omega arith) refl waiting_kept
