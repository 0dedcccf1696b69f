-- ===== src/Router/Polling.antt =====
-- src/trip_poll.c: `trip_run`. What happens during it is a list of rounds: what `epoll_wait` answers, what
-- the router's actions meet, and the clock afterwards. A descriptor that `epoll_wait` reports is never
-- `TRIP_SOCKET_TIMEOUT`.
pub mod Laws
pub mod Returns
mod Tests
use mathlib.Core.Option
use libtrp.Base.{
  ℕ, ◌+◌, Bool, false, not, ◌&&◌, Option, none, some, List, [], ◌∷◌, length, drop, u64, leb, ◌==◌,
  if◌then◌else◌,
}
use libtrp.Poll.{time_end, next_timeout}
use libtrp.Router.State.{
  State, start, bind, listen, close, unbind, ended, failed, Router, Run, done, Call, set_timeout,
  cancel_timeout, wait, packet_bind, packet_unbind, close_connections,
}
use libtrp.Router.State
use libtrp.Router.Action.{Outside, timeout, action}

-- The router, and `deadline` of its `_trip_poll_t`.
pub record Polling : Type 0 where
  pub router : Router
  pub deadline : ℕ

-- What `epoll_wait` answers: an `errno`, no descriptor in time, or descriptors with events.
pub data Answer : Type 0 where
  error : ℕ → Answer
  expired : Outside → Answer
  events : List Outside → Answer

pub record Round : Type 0 where
  pub answer : Answer
  pub now : ℕ

-- What a round comes to.
pub data Turn : Type 0 where
  going : Polling → Turn
  stopped : ℕ → Polling → Turn
  crash too_deep : Turn

-- How `trip_run` ends: with its code; still in `epoll_wait`; in undefined behaviour; or with too little fuel
-- for the callbacks of a packet interface.
pub data End : Type 0 where
  returned : ℕ → Polling → End
  waits : Polling → End
  crash too_deep : End

-- `_trip_timeout_cb`, for each wait among what the router called.
unfoldable pub heed : ℕ → List Call → ℕ → ℕ
heed now [] deadline = deadline
heed now (wait ms ∷ cs) deadline = heed now cs (u64 (now + ms))
heed now (set_timeout ms cb ∷ cs) deadline = heed now cs deadline
heed now (cancel_timeout ∷ cs) deadline = heed now cs deadline
heed now (packet_bind ∷ cs) deadline = heed now cs deadline
heed now (packet_unbind ∷ cs) deadline = heed now cs deadline
heed now (close_connections ms ∷ cs) deadline = heed now cs deadline

-- The code that `trip_timeout` and `trip_action` return is the error of the router.
unfoldable pub after : Outside → Polling → Run → Turn
unfolding heed
after out s m = elim m [
  | done r ↦
      let new = drop (length s.router.calls) r.calls in
      let s' : Polling = record { router = r; deadline = heed out.env.now new s.deadline } in
      if r.error == 0 then going s' else stopped r.error s'
  | State.crash ↦ crash
  | State.too_deep ↦ too_deep
]

module _ (fuel : ℕ) where
  -- The loop on the descriptors.
  unfoldable pub each : List Outside → Polling → Turn
  unfolding after
  each [] s = going s
  each (out ∷ outs) s = elim (after out s (action out fuel false s.router)) [
    | going s' ↦ each outs s'
    | stopped code s' ↦ stopped code s'
    | crash ↦ crash
    | too_deep ↦ too_deep
  ]

  -- The cases on `nfds`.
  unfoldable pub round : Answer → Polling → Turn
  unfolding each after
  round (error e) s = stopped e s
  round (expired out) s = after out s (timeout out fuel s.router)
  round (events outs) s = each outs s

  -- The loop, with the timeouts that `epoll_wait` is given.
  unfoldable pub poll_loop : ℕ → ℕ → Polling → List Round → List ℕ × End
  unfolding round
  poll_loop deadline now s [] =
      let (t, d) = next_timeout s.deadline deadline now in
      (t ∷ [], waits (record s { deadline = d }))
  poll_loop deadline now s (r ∷ rs) =
      let (t, d) = next_timeout s.deadline deadline now in
      elim (round r.answer (record s { deadline = d })) [
        | going s' ↦
            let rest = poll_loop deadline r.now s' rs in
            if leb deadline r.now && not (deadline == time_end)
            then (t ∷ [], returned 0 s')
            else (t ∷ rest.0, rest.1)
        | stopped code s' ↦ (t ∷ [], returned code s')
        | crash ↦ (t ∷ [], crash)
        | too_deep ↦ (t ∷ [], too_deep)
      ]

abbrev pub einval : ℕ
einval = 22

abbrev pub ehostdown : ℕ
ehostdown = 112

-- `deadline`, for a timeout that is `none` if it is negative.
abbrev pub deadline_of : ℕ → Option ℕ → ℕ
deadline_of now none = time_end
deadline_of now (some ms) = u64 (now + ms)

-- `trip_run`: `polls` says whether there is a `_trip_poll_t`, `now` and `later` are two readings of the clock.
unfoldable pub trip_run : ℕ → Bool → Option ℕ → ℕ → ℕ → Polling → List Round → List ℕ × End
unfolding poll_loop
trip_run fuel polls ms now later s rounds =
    if not polls then ([], returned einval s) else elim s.router.state [
      | ended ↦ ([], returned ehostdown s)
      | failed ↦ ([], returned s.router.error s)
      | _ ↦ poll_loop fuel (deadline_of later ms) now s rounds
    ]
