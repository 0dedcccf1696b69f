-- ===== src/Router/Polling/Laws.antt =====
-- How long `trip_run` waits, and when it returns.
use libtrp.Base.{
  ℕ, ◌+◌, ◌-◌, ◌^◌, ◌≤◌, ◌<◌, ◌≡◌, ◌≢◌, refl, ap, arith, true, false, not, ◌&&◌, ◌⊎◌, inl, inr,
  Bool-cases, Option, List, [], ◌∷◌, leb, ◌==◌, if◌then◌else◌,
}
use libtrp.Poll.{time_end, router_max_timeout, next_timeout}
use libtrp.Poll.Laws.{next_timeout-wait}
use libtrp.Router.State
use libtrp.Router.State.{
  State, start, bind, listen, close, unbind, ended, failed, Router, Run, done,
}
use libtrp.Router.Action.{Outside, timeout, action}
use libtrp.Router.Polling.{
  Polling, Answer, error, expired, events, Round, Turn, going, stopped, crash, too_deep, End,
  returned, waits, after, each, round, poll_loop, deadline_of, trip_run,
}

-- An `errno` that says that there was an error.
abbrev pub Errs : Answer → Type 0
Errs (error e) = e ≢ 0
Errs (expired out) = Unit
Errs (events outs) = Unit

-- Rounds with such an `errno`, if any, and clocks far from their end.
abbrev pub AllSane : List Round → Type 0
AllSane [] = Unit
AllSane (r ∷ rs) = Errs r.answer × (r.now + router_max_timeout < 2 ^ 64) × AllSane rs

-- After no round, and after some round, the deadline is reached.
abbrev pub NotYet : ℕ → List Round → Type 0
NotYet d [] = Unit
NotYet d (r ∷ rs) = (r.now < d) × NotYet d rs

abbrev pub Reached : ℕ → List Round → Type 0
Reached d [] = ⊥
Reached d (r ∷ rs) = (d ≤ r.now) ⊎ Reached d rs

-- How `trip_run` may end for a deadline.
abbrev pub Sound : ℕ → List Round → End → Type 0
Sound d rs (returned code s) =
    (code ≢ 0) ⊎ ((code ≡ 0) × (s.router.error ≡ 0) × (d ≢ time_end) × Reached d rs)
Sound d rs (waits s) = (d ≡ time_end) ⊎ NotYet d rs
Sound d rs crash = Unit
Sound d rs too_deep = Unit

-- Each wait is at most a second and 24 ms, and no longer than to the deadline.
abbrev pub Patient : ℕ → ℕ → List Round → List ℕ → Type 0
Patient d now rs [] = Unit
Patient d now [] (t ∷ ts) = (t ≤ router_max_timeout) × (t ≤ d - now) × (ts ≡ [])
Patient d now (r ∷ rs) (t ∷ ts) = (t ≤ router_max_timeout) × (t ≤ d - now) × Patient d r.now rs ts

-- A round that goes on leaves no error, and one that stops has a code.
abbrev Turned : Turn → Type 0
Turned (going s) = s.router.error ≡ 0
Turned (stopped code s) = code ≢ 0
Turned crash = Unit
Turned too_deep = Unit

after-Turned : (out : Outside) (s : Polling) (m : Run) → Turned (after out s m)
unfolding after
after-Turned out s (done r) = elim (Bool-cases (r.error == 0)) [
  | inl e ↦ rw e (ground arith)
  | inr e ↦ rw e (ground arith)
]
after-Turned out s State.crash = tt
after-Turned out s State.too_deep = tt

module _ (fuel : ℕ) where
  each-Turned : (outs : List Outside) (s : Polling) → s.router.error ≡ 0 → Turned (each fuel outs s)
  unfolding each
  each-Turned [] s e = e
  each-Turned (out ∷ outs) s e =
      by_turn (after out s (action out fuel false s.router))
        (after-Turned out s (action out fuel false s.router)) (λ s e. each-Turned outs s e)
    where
      by_turn :
          (t : Turn)
          → Turned t
          → ((s : Polling) → s.router.error ≡ 0 → Turned (each fuel outs s))
          → Turned (elim t as (λ _. Turn) [
            | going s' ↦ each fuel outs s'
            | stopped code s' ↦ stopped code s'
            | crash ↦ crash
            | too_deep ↦ too_deep
          ])
      by_turn (going s) h rest = rest s h
      by_turn (stopped code s) h rest = h
      by_turn crash h rest = tt
      by_turn too_deep h rest = tt

  round-Turned : (a : Answer) (s : Polling) → Errs a → s.router.error ≡ 0 → Turned (round fuel a s)
  unfolding round
  round-Turned (error n) s e h = e
  round-Turned (expired out) s e h = after-Turned out s (timeout out fuel s.router)
  round-Turned (events outs) s e h = each-Turned outs s h

  -- The loop up to the end of the round `r`.
  abbrev pub closing : ℕ → Round → List Round → ℕ → Turn → List ℕ × End
  closing deadline r rs t turn = elim turn [
    | going s' ↦
        let rest = poll_loop fuel deadline r.now s' rs in
        if leb deadline r.now && not (deadline == time_end)
        then (t ∷ [], returned 0 s')
        else (t ∷ rest.0, rest.1)
    | stopped code s' ↦ (t ∷ [], returned code s')
    | crash ↦ (t ∷ [], crash)
    | too_deep ↦ (t ∷ [], too_deep)
  ]

  later-Sound :
      (d : ℕ) (r : Round) (rs : List Round) (e : End)
      → (r.now < d) ⊎ (d ≡ time_end)
      → Sound d rs e
      → Sound d (r ∷ rs) e
  later-Sound d r rs (returned code s) h g = ground arith
  later-Sound d r rs (waits s) h g = ground arith
  later-Sound d r rs crash h g = tt
  later-Sound d r rs too_deep h g = tt

  poll_loop-Sound :
      (d now : ℕ) (s : Polling) (rs : List Round)
      → AllSane rs
      → s.router.error ≡ 0
      → Sound d rs (poll_loop fuel d now s rs).1
  unfolding poll_loop
  poll_loop-Sound d now s [] sane h = inr tt
  poll_loop-Sound d now s (r ∷ rs) sane h =
      let (t, p) = next_timeout s.deadline d now in
      by_turn (round fuel r.answer (record s { deadline = p }))
        (round-Turned r.answer (record s { deadline = p }) sane.0 h)
        (λ s h. poll_loop-Sound d r.now s rs sane.2 h)
    where
      by_turn :
          (turn : Turn)
          → Turned turn
          → ((s : Polling) → s.router.error ≡ 0 → Sound d rs (poll_loop fuel d r.now s rs).1)
          → Sound d (r ∷ rs) (closing d r rs (next_timeout s.deadline d now).0 turn).1
      by_turn (going s') h rest = elim (Bool-cases (leb d r.now && not (d == time_end))) [
        | inl due ↦ rw due (inr (refl, h, ground (arith, due), inl (ground (arith, due))))
        | inr more ↦
            rw more (
              later-Sound d r rs (poll_loop fuel d r.now s' rs).1 (ground (arith, more))
                (rest s' h))
      ]
      by_turn (stopped code s') h rest = inl h
      by_turn crash h rest = tt
      by_turn too_deep h rest = tt

  poll_loop-Patient :
      (d now : ℕ) (s : Polling) (rs : List Round)
      → AllSane rs
      → now + router_max_timeout < 2 ^ 64
      → Patient d now rs (poll_loop fuel d now s rs).0
  unfolding poll_loop
  poll_loop-Patient d now s [] sane h =
      let e = ap (λ x. x.0) (next_timeout-wait s.deadline d now h) in
      (omega (arith, e), omega (arith, e), refl)
  poll_loop-Patient d now s (r ∷ rs) sane h =
      let (t, p) = next_timeout s.deadline d now in
      let e = ap (λ x. x.0) (next_timeout-wait s.deadline d now h) in
      by_turn (round fuel r.answer (record s { deadline = p })) (omega (arith, e))
        (omega (arith, e)) (λ s. poll_loop-Patient d r.now s rs sane.2 sane.1)
    where
      by_turn :
          (turn : Turn)
          → (next_timeout s.deadline d now).0 ≤ router_max_timeout
          → (next_timeout s.deadline d now).0 ≤ d - now
          → ((s : Polling) → Patient d r.now rs (poll_loop fuel d r.now s rs).0)
          → Patient d now (r ∷ rs) (closing d r rs (next_timeout s.deadline d now).0 turn).0
      by_turn (going s') a b rest = elim (Bool-cases (leb d r.now && not (d == time_end))) [
        | inl due ↦ rw due (a, b, tt)
        | inr more ↦ rw more (a, b, rest s')
      ]
      by_turn (stopped code s') a b rest = (a, b, tt)
      by_turn crash a b rest = (a, b, tt)
      by_turn too_deep a b rest = (a, b, tt)

  -- A router that polls, neither ended nor failed.
  module _ (ms : Option ℕ) (now later : ℕ) (s : Polling) (rs : List Round) (sane : AllSane rs)
      (live : s.router.state ≢ ended) (unfailed : s.router.state ≢ failed) where
    pub trip_run-poll_loop :
        trip_run fuel true ms now later s rs ≡ poll_loop fuel (deadline_of later ms) now s rs
    unfolding trip_run
    trip_run-poll_loop = ground (arith, live, unfailed)

    -- `trip_run` on a router without error that is neither ended nor failed, where the `errno` of `epoll_wait`
    -- is never 0: a return with 0 comes only after a round at whose end the user's deadline is reached, and
    -- leaves no error; it still waits only if no such round has come, or if the timeout is negative.
    pub trip_run-Sound :
        s.router.error ≡ 0
        → Sound (deadline_of later ms) rs (trip_run fuel true ms now later s rs).1
    trip_run-Sound h =
        rw trip_run-poll_loop (poll_loop-Sound (deadline_of later ms) now s rs sane h)

    -- Whatever happens in `trip_run`, with a clock far from its end, each wait of `epoll_wait` is at most 1024
    -- ms, and ends no later than the user's deadline.
    pub trip_run-Patient :
        now + router_max_timeout < 2 ^ 64
        → Patient (deadline_of later ms) now rs (trip_run fuel true ms now later s rs).0
    trip_run-Patient h =
        rw trip_run-poll_loop (poll_loop-Patient (deadline_of later ms) now s rs sane h)
