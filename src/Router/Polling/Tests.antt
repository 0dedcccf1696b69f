-- ===== src/Router/Polling/Tests.antt =====
-- A router in LISTEN that is polled for 50 ms: a packet, then nothing in time.
use libtrp.Base.{ℕ, refl, arith, true, false, none, some, List, [], ◌∷◌}
use libtrp.Router.State.{listen, later, done, Router}
use libtrp.Router.Action.{Outside}
use libtrp.Router.Polling.{Polling, events, expired, Round, trip_run}
use libtrp.Router.Polling.Laws.{AllSane, Patient, trip_run-Patient}
use libtrp.Router.Polling.Returns.{Tame, TameRounds, Outcome, trip_run-Outcome}

abbrev outside : ℕ → Outside
outside now = record {
  env = record { now = now; timer_ok = true; message_ok = true; packet_ok = true };
  packet = record { bind = λ r. later; unbind = λ r. later };
  heard = none;
  walk = λ r. (done r, none);
}

abbrev listening : Router
listening = record {
  state = listen;
  statedeadline = 0;
  statetimer = false;
  error = 0;
  errmsg = none;
  mindeadline = 5000;
  timeout_bind = 1000;
  timeout_close = 0;
  timeout_unbind = 0;
  flag = record {
    allow_in = true;
    allow_out = true;
    plain_open = false;
    plain_isig = false;
    plain_osig = false;
    plain_comm = false;
    free_packet = false;
    always_ready = false;
  };
  haspacket = true;
  attached = true;
  callbacks = record {
    watch = true;
    timeout = true;
    screen = true;
    connection = true;
    stream = true;
    message = true;
  };
  calls = [];
}

abbrev polled : Polling
polled = record { router = listening; deadline = 5000 }

abbrev rounds : List Round
rounds =
    record { answer = events (outside 1010 ∷ []); now = 1011 }
    ∷ record { answer = expired (outside 1050); now = 1050 }
    ∷ []

rounds-AllSane : AllSane rounds
rounds-AllSane = (tt, omega arith, (tt, omega arith, tt))

outside-Tame : (now : ℕ) → Tame (outside now)
outside-Tame now = record { timer = refl; walk = λ r p. (r, refl, p) }

rounds-TameRounds : TameRounds rounds
rounds-TameRounds = ((outside-Tame 1010, tt), (outside-Tame 1050, tt))

trip_run-Outcome_example : Outcome 1050 rounds (trip_run 3 true (some 50) 1000 1000 polled rounds).1
trip_run-Outcome_example =
    trip_run-Outcome 0 (some 50) 1000 1000 polled rounds rounds-AllSane rounds-TameRounds (λ e. cc)
      (λ e. cc) refl refl

trip_run-Patient_example :
    Patient 1050 1000 rounds (trip_run 3 true (some 50) 1000 1000 polled rounds).0
trip_run-Patient_example =
    trip_run-Patient 3 (some 50) 1000 1000 polled rounds rounds-AllSane (λ e. cc) (λ e. cc)
      (omega arith)
