-- ===== src/Router/Segment/Tests.antt =====
-- A packet for the one connection of a router, with the id that it has and with another.
use libtrp.Base.{
  ℕ, ◌≡◌, ◌≢◌, ◌≤◌, ◌⊎◌, refl, true, false, none, some, List, [], ◌∷◌, ◌++◌, replicate, npos,
}
use libtrp.Pack.Decode.{trip_unpack, run, step}
use libtrp.Pack.Word.{unpacku64}
use libtrp.Pack.Tests.{sodium}
use libtrp.Connection.State
use libtrp.Connection.State.{Prefix, control_open}
use libtrp.Connection.Read.{read}
use libtrp.Connmap.{Connmap}
use libtrp.Connmap
use libtrp.Router.Hub.{Hub, Outside, reject, taken, init_conn, put}
use libtrp.Router.Segment.{parse_prefix, parsed, segment}
use libtrp.Router.Segment.Laws.{IsOpened, IsReceived, segment-taken}
use libtrp.Router.Segment.Refusals.{IsLate, segment-rejected}

-- The id of which each byte is 7.
abbrev sevens : ℕ
sevens = 0x0707070707070707

abbrev hub_of : ℕ → Hub
hub_of id = record {
  flag = record {
    allow_in = true;
    allow_out = true;
    plain_open = false;
    plain_isig = false;
    plain_osig = false;
    plain_comm = true;
    free_packet = false;
    always_ready = false;
  };
  conn = record {
    mask = 0;
    size = 1;
    cap = 1;
    hasmap = true;
    slots = Connmap.taken 0 ∷ [];
    free = npos;
  };
  connsrc = (none, none);
  conns = λ h. record (init_conn true) { self = record ((init_conn true).self) { id = id } };
  opensk = none;
}

abbrev env : State.Env
env = record {
  now = 1000;
  timer_ok = true;
  message_ok = true;
  self_pk_ok = true;
  self_sk_ok = true;
  peer_nonce_ok = true;
  peer_pk_ok = true;
  keypair = (replicate 32 1, replicate 32 2);
  random_nonce = replicate 24 3;
  garbage = replicate 24 4;
}

abbrev outside : Outside
outside = record {
  env = env;
  screen = λ version n at. record { allow = false; opensk = none; signpk = none; signsk = none };
  fresh = none;
  map_ok = true;
  draws = (1, 2);
  verify = λ s m k. 1;
}

-- Control 0, the id, sequence number 0 in one byte, and room for a signature.
abbrev packet : List ℕ
packet = 0 ∷ (replicate 8 7 ++ replicate 71 0)

abbrev prefix : Prefix
prefix = record { encrypted = false; control = 0; id = sevens; seq = 0 }

prefix_read : parse_prefix sodium 80 packet ≡ parsed prefix 10
unfolding parse_prefix trip_unpack run step unpacku64
prefix_read = refl

arrives :
    segment sodium outside 1 80 packet (hub_of sevens)
    ≡ some (
      taken,
      record (hub_of sevens) { conns = put (hub_of sevens).conns 0 ((hub_of sevens).conns 0) },
    )
unfolding segment trip_unpack run step read unpacku64 Connmap.get
arrives = refl

strays : segment sodium outside 1 80 packet (hub_of 9) ≡ some (reject 88, hub_of 9)
unfolding segment trip_unpack run step unpacku64 Connmap.get
strays = refl

segment-taken_example :
    let hub = hub_of sevens in
    (16 ≤ 80)
    × (p : Prefix) × (end : ℕ) × (parse_prefix sodium 80 packet ≡ parsed p end)
    × (((p.control ≡ control_open) × IsOpened sodium outside 1 80 packet p end hub)
        ⊎ ((p.control ≢ control_open)
            × IsReceived sodium outside 1 80 packet p end hub
                (record hub { conns = put hub.conns 0 (hub.conns 0) })))
segment-taken_example =
    segment-taken sodium outside 1 80 packet (hub_of sevens)
      (record (hub_of sevens) { conns = put (hub_of sevens).conns 0 ((hub_of sevens).conns 0) })
      arrives

segment-rejected_example : IsLate 88 ⊎ (hub_of 9 ≡ hub_of 9)
segment-rejected_example =
    segment-rejected sodium outside 1 80 packet (hub_of 9) (hub_of 9) 88 strays
