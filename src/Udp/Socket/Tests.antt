-- ===== src/Udp/Socket/Tests.antt =====
-- A system with one datagram address, whose port is taken.
use libtrp.Base.{ℕ, ◌≡◌, ◌⊎◌, refl, true, false, none, some, Option, [], ◌∷◌}
use libtrp.Router.State.{start, bind, listen, failed, Router, Env, done}
use libtrp.Router.Change.{set_state}
use libtrp.Udp.Socket.{Context, opened, Net, udp_bind, default_port, interface}
use libtrp.Udp.Socket.Laws.{Serves, Fails, listening, failing, set_state-udp_bind}

-- The error of `bind` is EADDRINUSE.
abbrev net : Net
net = record {
  getaddrinfo =
      λ info. some (record { datagram = true; inet = true; protocol = 17; address = 1 } ∷ []);
  getprotobyname = some 17;
  socket = λ a. opened 5;
  bind = λ fd a. 98;
  close = λ fd. 0;
}

abbrev context : Context
context = record { info = default_port; fd = 0 }

abbrev env : Env
env = record { now = 1000; timer_ok = true; message_ok = true; packet_ok = true }

abbrev starting : Router
starting = record {
  state = start;
  statedeadline = 0;
  statetimer = false;
  error = 0;
  errmsg = none;
  mindeadline = 5000;
  timeout_bind = 1000;
  timeout_close = 0;
  timeout_unbind = 0;
  flag = record {
    allow_in = true;
    allow_out = true;
    plain_open = false;
    plain_isig = false;
    plain_osig = false;
    plain_comm = false;
    free_packet = true;
    always_ready = false;
  };
  haspacket = true;
  attached = true;
  callbacks = record {
    watch = true;
    timeout = true;
    screen = true;
    connection = true;
    stream = true;
    message = true;
  };
  calls = [];
}

set_state-udp_bind_example :
    (r : Router) × (set_state env (interface net context) 3 bind starting ≡ done r)
    × (((fd : ℕ) × Serves net context fd
          × (udp_bind net context ≡ listening context fd)
          × (r.state ≡ listen)
          × (r.error ≡ 0))
        ⊎ ((e : ℕ) × (closed : Option ℕ) × Fails net context e closed
            × (udp_bind net context ≡ failing context e closed)
            × (r.state ≡ failed)
            × (r.error ≡ e)))
set_state-udp_bind_example =
    set_state-udp_bind net context (λ a e. cc) env 0 starting refl refl refl
