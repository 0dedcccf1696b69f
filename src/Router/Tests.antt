-- ===== src/Router/Tests.antt =====
-- A router that binds, and one that is unbound at once by its packet interface.
use libtrp.Base.{◌+◌, ◌≡◌, ◌≢◌, ◌⊎◌, inl, refl, arith, true, false, none, [], ◌∷◌}
use libtrp.Router.State.{
  State, start, bind, listen, unbind, ended, failed, Router, Env, Packet, ready, unready, later,
  done, set_timeout, router_cb,
}
use libtrp.Router.Change.{set_state, on_timeout, ready_by, etime}
use libtrp.Router.Change.Laws.{Ends, Reached, set_state-Ends}
use libtrp.Router.Change.Unbind.{unbind_at_once}
use libtrp.Router.Action.{Outside, dispatch}
use libtrp.Router.Action.Laws.{Moves, dispatch-Moves}
use libtrp.Router.Action.Leak.{armed, canceled, bind_again}

abbrev env : Env
env = record { now = 1000; timer_ok = true; message_ok = true; packet_ok = true }

abbrev prompt : Packet
prompt = record { bind = λ r. ready; unbind = λ r. unready 0 }

abbrev router_in : State → Router
router_in s = record {
  state = s;
  statedeadline = 0;
  statetimer = false;
  error = 0;
  errmsg = none;
  mindeadline = 5000;
  timeout_bind = 10000;
  timeout_close = 10000;
  timeout_unbind = 10000;
  flag = record {
    allow_in = true;
    allow_out = true;
    plain_open = false;
    plain_isig = false;
    plain_osig = false;
    plain_comm = false;
    free_packet = false;
    always_ready = false;
  };
  haspacket = true;
  attached = true;
  callbacks = record {
    watch = true;
    timeout = true;
    screen = true;
    connection = true;
    stream = true;
    message = true;
  };
  calls = [];
}

set_state-Ends_example :
    Ends
      (λ r.
        ((start ≡ failed) × (r.state ≡ failed) × (r.error ≡ 0))
        ⊎ ((start ≢ failed) × Reached env prompt bind r.state))
      (set_state env prompt 3 bind (router_in start))
set_state-Ends_example = set_state-Ends env prompt 0 bind (router_in start) refl refl

unbind_at_once_example :
    (r : Router) × (r' : Router) × (set_state env prompt 3 unbind (router_in listen) ≡ done r)
    × (r.state ≡ ended)
    × (r.statetimer ≡ true)
    × (on_timeout env prompt 2 r ≡ done r')
    × (r'.state ≡ failed)
    × (r'.error ≡ etime)
unbind_at_once_example =
    unbind_at_once env prompt 0 (router_in listen) refl refl (λ e. cc) (λ q. refl)

-- A packet interface that answers later, and a timer wheel with nothing due.
abbrev outside : Outside
outside = record {
  env = env;
  packet = record { bind = λ r. later; unbind = λ r. later };
  heard = none;
  walk = λ r. (done r, none);
}

abbrev binding : Router
binding = record (router_in bind) {
  statedeadline = 9000;
  statetimer = true;
  calls = set_timeout 8000 router_cb ∷ [];
}

dispatch-Moves_example : Ends (λ r. Moves bind r.state) (dispatch outside 3 true binding)
dispatch-Moves_example = dispatch-Moves outside 0 refl true binding (inl refl)

bind_again_example :
    (r1 : Router) × (r2 : Router) × (r3 : Router) × (dispatch outside 2 true binding ≡ done r1)
    × (ready_by env (set_state env outside.packet 2) r1 ≡ done r2)
    × (r2.state ≡ listen)
    × (r2.statetimer ≡ false)
    × (armed r2.calls ≡ canceled r2.calls + 1)
    × (on_timeout env outside.packet 2 r2 ≡ done r3)
    × (r3.state ≡ failed)
    × (r3.error ≡ etime)
bind_again_example = bind_again outside 0 refl binding refl refl refl (omega arith) refl
