-- ===== src/Router/Action.antt =====
-- src/trip.c: `trip_action`, `trip_timeout`, `trip_start` and `trip_stop`. What `_trip_listen` does to the
-- state of a router is the error that it reports, if any; what the callbacks of due timers do, and the
-- deadline of the nearest timer after them, is a function of the router.
pub mod Laws
pub mod Leak
pub mod Keeps
use mathlib.Core.Option
use libtrp.Base.{
  ℕ, ◌+◌, ◌-◌, ◌^◌, ◌%◌, Bool, true, false, not, Option, none, some, List, [], ◌∷◌, u64, ltb, leb,
  ◌==◌, if◌then◌else◌,
}
use libtrp.Poll.{time_end, router_max_timeout, triptime_timeout}
use libtrp.Router.State.{
  State, start, bind, listen, close, unbind, ended, failed, Router, Env, Packet, Run, done,
  and_then, set_timeout, stop_cb, router_cb, wait,
}
use libtrp.Router.Change.{call, etime, add_timeout, arm, set_state, set_error}
use libtrp.Router.Setup.{Opt, packet, setopt, has_required, einval}

-- What the surroundings answer during one action: those of the changes of state, the packet interface, the
-- error of `_trip_listen`, and the walk of the timer wheel.
pub record Outside : Type 0 where
  pub env : Env
  pub packet : Packet
  pub heard : Option ℕ
  pub walk : Router → Run × Option ℕ

-- A message that is not NULL; its text is left out.
abbrev pub some_text : List ℕ
some_text = 63 ∷ []

-- The end of `trip_timeout`: the next deadline, and the wait for it that the user is told.
unfoldable pub next_wait : ℕ → Option ℕ → Router → Router
unfolding call
next_wait now first r =
    let m : ℕ = elim first [ none ↦ time_end | some d ↦ d ] in
    let ms =
      if ltb (u64 (now + router_max_timeout)) m
      then router_max_timeout
      else (m + 2 ^ 64 - now) % 2 ^ 32 in
    call (wait ms) (record r { mindeadline = m })

module _ (out : Outside) (fuel : ℕ) where
  -- `trip_timeout`; it returns the error of the router.
  unfoldable pub timeout : Router → Run
  unfolding next_wait
  timeout r =
      let (walked, first) = out.walk r in and_then walked λ r. done (next_wait out.env.now first r)

  unfoldable pub fail : ℕ → Router → Run
  fail e r = set_error out.env out.packet fuel e some_text r

  -- The case of `START`, with `_trip_fill_missing` and `_trip_verify`.
  unfoldable pub on_start : Router → Run
  unfolding fail
  on_start r =
      let r = if r.haspacket then r else (setopt out.env (packet false) r).1 in
      if not r.haspacket
      then fail einval r
      else if not (has_required r)
      then fail einval r
      else set_state out.env out.packet fuel bind (record r { attached = true })

  -- The case of `BIND`.
  unfoldable pub on_bind : Router → Run
  unfolding fail
  on_bind r =
      if ltb r.statedeadline out.env.now
      then fail etime r
      else done (arm out.env (triptime_timeout r.statedeadline out.env.now) r)

  -- `_trip_listen`
  unfoldable pub hear : Router → Run
  hear r = elim out.heard [ none ↦ done r | some e ↦ set_error out.env out.packet fuel e [] r ]

  -- The step to `s` at the deadline of the state.
  unfoldable pub at_deadline : State → Router → Run
  at_deadline s r =
      if leb r.statedeadline out.env.now then set_state out.env out.packet fuel s r else done r

  -- The switch of `trip_action`; `timed` says whether the descriptor is `TRIP_SOCKET_TIMEOUT`.
  unfoldable pub dispatch : Bool → Router → Run
  unfolding fail on_start on_bind hear at_deadline
  dispatch timed r = elim r.state [
    | start ↦ if timed then on_start r else fail einval r
    | bind ↦ if timed then on_bind r else fail einval r
    | listen ↦ hear r
    | close ↦ and_then (hear r) (at_deadline unbind)
    | unbind ↦ at_deadline ended r
    | ended ↦ done r
    | failed ↦ done r
  ]

  -- `trip_action`; it returns the error of the router.
  unfoldable pub action : Bool → Router → Run
  unfolding timeout dispatch
  action timed r =
      if timed
      then and_then (timeout r) (λ r. if r.error == 0 then dispatch timed r else done r)
      else dispatch timed r

  -- `trip_start`; `none` is `EINVAL`.
  unfoldable pub start_router : Router → Option Run
  unfolding action
  start_router r = elim r.state [
    | ended ↦ some (action true (record r { state = start }))
    | start ↦ some (action true r)
    | _ ↦ none
  ]

  -- `_trip_stop_async_cb`
  unfoldable pub on_stop : Router → Run
  on_stop r = set_state out.env out.packet fuel close r

  -- `trip_stop`; `none` is `EINVAL`.
  unfoldable pub stop_router : Router → Option Run
  unfolding on_stop
  stop_router r =
      let (ok, r') = add_timeout out.env 0 stop_cb r in
      let stopped = if ok then done r' else on_stop r' in
      elim r.state [ start ↦ some stopped | bind ↦ some stopped | listen ↦ some stopped | _ ↦ none ]
