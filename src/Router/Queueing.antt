-- ===== src/Router/Queueing.antt =====
-- src/trip.c: what puts connections on the send queue and off it, and `trip_watch`.
use mathlib.Core.Option
use libtrp.Base.{ℕ, Bool, true, false, Option, none, some, if◌then◌else◌}
use libtrp.Sendq
use libtrp.Sendq.{Sendq}
use libtrp.Sockmap
use libtrp.Sockmap.{Sockmap}
use libtrp.Router.State.{Router, Env, send_immediately_cb}
use libtrp.Router.Change.{add_timeout}

-- The router, its send queue and the data of its sockets.
pub record Service : Type 0 where
  pub router : Router
  pub sendq : Sendq
  pub sockmap : Sockmap

-- `_trip_set_timeout(r, ms, r, _trip_send_immediately_cb)`, whose result is not used.
unfoldable pub send_after : Env → ℕ → Service → Service
unfolding add_timeout
send_after env ms s = record s { router = (add_timeout env ms send_immediately_cb s.router).1 }

-- `_trip_qconnection`: `r->flag | _TRIPR_FLAG_ALWAYS_READY` is never 0.
unfoldable pub qconnection : Env → ℕ → Service → Service
unfolding send_after
qconnection env c s = send_after env 0 (record s { sendq = Sendq.nq c s.sendq })

-- `_trip_unqconnection`, on fuel.
unfoldable pub unqconnection : ℕ → ℕ → Service → Option Service
unqconnection fuel c s = Option.map (λ q. record s { sendq = q }) (Sendq.del fuel c s.sendq)

-- `_trip_send_immediately_cb`, given what `_trip_listen` left.
unfoldable pub on_send_immediately : Env → Service → Service
unfolding send_after
on_send_immediately env s = if Sendq.has s.sendq then send_after env 1 s else s

-- The descriptor and the events that `trip_watch` is given.
pub data Target : Type 0 where
  timeout : Bool → Target
  socket : ℕ → Target

-- `trip_watch`: the data that the user's function is given, if it is called.
unfoldable pub watch : Env → Target → Service → Option (Option ℕ) × Service
unfolding send_after
watch env (timeout true) s = (
  none,
  record s {
    router = record (s.router) { flag = record (s.router.flag) { always_ready = false } };
  },
)
watch env (timeout false) s =
    let s = record s {
      router = record (s.router) { flag = record (s.router.flag) { always_ready = true } };
    } in
    (none, if Sendq.has s.sendq then send_after env 0 s else s)
watch env (socket fd) s = (some (Sockmap.get fd s.sockmap), s)
