-- ===== src/Router/Opening.antt =====
-- src/trip.c: a connection that the user opens: `trip_open_connection`, the timer that starts it, the answer
-- of the packet interface in `trip_resolve`, and the timers of that.
pub mod Laws
mod Tests
use mathlib.Core.Option
use libtrp.Base.{
  ℕ, Bool, true, false, not, ◌&&◌, ◌||◌, Option, none, some, List, [], ◌==◌, if◌then◌else◌,
}
use libtrp.Connection.State
use libtrp.Connection.State.{Conn}
use libtrp.Connection.Timing.{disarm}
use libtrp.Connection.Change.{set_error, begin, resolved}
use libtrp.Connmap
use libtrp.Resolveq
use libtrp.Resolveq.{Resolveq}
use libtrp.Router.Hub.{Hub, init_conn, ids_of, put}

-- The connections of a router, those that wait for an address, and the `resolvekey` of each, `none` for -1.
pub record Opening : Type 0 where
  pub hub : Hub
  pub queue : Resolveq
  pub keys : ℕ → Option ℕ

-- Memory for a connection, for the two maps and for a timer, and two random draws.
pub record Memory : Type 0 where
  pub fresh : Option ℕ
  pub slot_ok : Bool
  pub map_ok : Bool
  pub timer_ok : Bool
  pub draws : ℕ × ℕ

-- `_tripc_set_error` of a connection that is refused.
unfoldable pub fail : State.Env → ℕ → ℕ → Opening → Opening
unfolding set_error
fail env h e o = record o {
  hub = record (o.hub) { conns = put o.hub.conns h (set_error env (o.hub.conns h) e []) };
}

-- What the user is told by the connection callback, or the timer that was set.
pub data Opened : Type 0 where
  refused : ℕ → Opening → Opened
  opened : ℕ → Opening → Opened

abbrev pub enomem : ℕ
enomem = 12

abbrev pub ebusy : ℕ
ebusy = 16

abbrev pub einval : ℕ
einval = 22

-- The connection with the id that `connmap_add` wrote.
abbrev pub named : (ℕ → Conn) → (ℕ → ℕ) → ℕ → ℕ → Conn
named conns ids h =
    let c = conns h in put conns h (record c { self = record (c.self) { id = ids h } })

-- `trip_open_connection`. A refused connection has failed, and is freed. `none` is undefined behaviour.
unfoldable pub open_connection : State.Env → Memory → Opening → Option Opened
unfolding init_conn fail
open_connection env mem o =
    if not o.hub.flag.allow_out then some (refused einval o) else elim mem.fresh [
      | none ↦ some (refused enomem o)
      | some h ↦ elim (Resolveq.put mem.slot_ok h o.queue) [
        | none ↦ none
        | some (key, queue) ↦
            let keys : ℕ → Option ℕ = λ g. if g == h then key else o.keys g in
            let conns = put o.hub.conns h (init_conn false) in
            let r = Connmap.random mem.draws.0 mem.draws.1 in
            elim (Connmap.add mem.map_ok r h o.hub.conn (ids_of conns)) [
              | none ↦ none
              | some (code, map, ids) ↦
                  let hub = record (o.hub) { conn = map; conns = named conns ids h } in
                  let o' : Opening = record { hub = hub; queue = queue; keys = keys } in
                  some (
                    if not (code == 0)
                    then refused ebusy (fail env h ebusy o')
                    else if mem.timer_ok
                    then opened h o'
                    else refused enomem (fail env h enomem o'))
            ]
      ]
    ]

-- `_trip_open_connection_async_cb`: the connection starts, and the packet interface is given its key.
unfoldable pub start_opening : State.Env → ℕ → Opening → Option ℕ × Opening
unfolding begin
start_opening env h o = (
  o.keys h,
  record o { hub = record (o.hub) { conns = put o.hub.conns h (begin env (o.hub.conns h)) } },
)

-- What `trip_resolve` leaves for later: nothing for a key that is not in use, a success or a failure, by a
-- timer; or, where there is no memory for that, a connection that nothing calls back.
pub data Resolving : Type 0 where
  nothing : Opening → Resolving
  success failure stalled : ℕ → Opening → Resolving

-- `trip_resolve`; `msg` says whether there is a message.
unfoldable pub trip_resolve : State.Env → Option ℕ → ℕ → ℕ → Bool → Opening → Option Resolving
unfolding disarm set_error
trip_resolve env key src err msg o = elim (Resolveq.pop key o.queue) [
  | none ↦ none
  | some (h, queue) ↦
      let c = record (disarm (o.hub.conns h)) { src = src } in
      let with : Conn → Opening = λ c. record {
        hub = record (o.hub) { conns = put o.hub.conns h c };
        queue = queue;
        keys = o.keys;
      } in
      some (
        if h == 0
        then nothing (record o { queue = queue })
        else if (err == 0) && not msg
        then (if env.timer_ok then success h (with c) else stalled h (with c))
        else (let failed = set_error env c err [] in
            if env.timer_ok then failure h (with failed) else stalled h (with failed)))
]

-- `_trip_resolve_delay_success_cb`
unfoldable pub on_success : State.Env → ℕ → Opening → Opening
unfolding resolved
on_success env h o = record o {
  hub = record (o.hub) { conns = put o.hub.conns h (resolved env (o.hub.conns h)) };
}
