-- ===== src/Router/Polling/Returns.antt =====
-- That `trip_run` comes to an end of its own, where its surroundings do.
use mathlib.Core.Path.{subst}
use libtrp.Base.{
  ℕ, suc, ◌≡◌, ◌≢◌, refl, arith, true, false, not, ◌&&◌, ◌⊎◌, inl, inr, Bool-cases, Option, List,
  [], ◌∷◌, leb, ◌==◌,
}
use libtrp.Poll.{time_end, next_timeout}
use libtrp.Router.State.{ended, failed, Router, Run, done}
use libtrp.Router.Change.{call}
use libtrp.Router.Action.{Outside, timeout, next_wait, action}
use libtrp.Router.Action.Laws.{dispatch-Moves}
use libtrp.Router.Polling
use libtrp.Router.Polling.{
  Polling, Answer, error, expired, events, Round, Turn, going, stopped, End, returned, waits, after,
  each, round, poll_loop, deadline_of, trip_run,
}
use libtrp.Router.Polling.Laws as Polled
use libtrp.Router.Polling.Laws.{AllSane, NotYet, Sound, closing, trip_run-poll_loop, trip_run-Sound}
use libtrp.Router.Action.Keeps.{Keeps, untimed-Keeps}

-- Surroundings with memory for timers, in which the callbacks of due timers end and keep a packet interface.
pub record Tame (out : Outside) : Type 0 where
  pub timer : out.env.timer_ok ≡ true
  pub walk :
      (r : Router)
      → r.haspacket ≡ true
      → (r' : Router) × ((out.walk r).0 ≡ done r') × (r'.haspacket ≡ true)

abbrev pub AllTame : List Outside → Type 0
AllTame [] = Unit
AllTame (out ∷ outs) = Tame out × AllTame outs

abbrev pub TameAnswer : Answer → Type 0
TameAnswer (error e) = Unit
TameAnswer (expired out) = Tame out
TameAnswer (events outs) = AllTame outs

abbrev pub TameRounds : List Round → Type 0
TameRounds [] = Unit
TameRounds (r ∷ rs) = TameAnswer r.answer × TameRounds rs

-- A run that ends with a packet interface, and a turn that does.
abbrev Served : Run → Type 0
Served m = (r : Router) × (m ≡ done r) × (r.haspacket ≡ true)

abbrev ServedTurn : Turn → Type 0
ServedTurn (going s) = s.router.haspacket ≡ true
ServedTurn (stopped code s) = Unit
ServedTurn Polling.crash = ⊥
ServedTurn Polling.too_deep = ⊥

action-Served :
    (out : Outside) (fuel : ℕ) (r : Router)
    → Tame out
    → r.haspacket ≡ true
    → Served (action out (suc (suc (suc fuel))) false r)
unfolding action
action-Served out fuel r tame p =
    let (r', d, moves) = dispatch-Moves out fuel tame.timer false r (inl p) in
    (r', d, subst Keeps d (untimed-Keeps out (suc (suc (suc fuel))) r p))

timeout-Served :
    (out : Outside) (fuel : ℕ) (r : Router)
    → Tame out
    → r.haspacket ≡ true
    → Served (timeout out fuel r)
unfolding timeout next_wait call
timeout-Served out fuel r tame p =
    let (r', e, q) = tame.walk r p in (next_wait out.env.now (out.walk r).1 r', rw e refl, q)

after-Served : (out : Outside) (s : Polling) (m : Run) → Served m → ServedTurn (after out s m)
unfolding after
after-Served out s m (r, e, p) = rw e (ground (arith, p))

-- It returns, or waits for what the rounds do not tell.
abbrev Completed : End → Type 0
Completed (returned code s) = Unit
Completed (waits s) = Unit
Completed Polling.crash = ⊥
Completed Polling.too_deep = ⊥

-- How `trip_run` ends for a deadline.
abbrev pub Outcome : ℕ → List Round → End → Type 0
Outcome d rs e =
    ((code : ℕ) × (s : Polling) × (e ≡ returned code s)
      × ((code ≢ 0) ⊎ ((code ≡ 0) × (s.router.error ≡ 0) × (d ≢ time_end) × Polled.Reached d rs)))
    ⊎ ((s : Polling) × (e ≡ waits s) × ((d ≡ time_end) ⊎ NotYet d rs))

outcome : (d : ℕ) (rs : List Round) (e : End) → Completed e → Sound d rs e → Outcome d rs e
outcome d rs (returned code s) c h = inl (code, s, refl, h)
outcome d rs (waits s) c h = inr (s, refl, h)
outcome d rs Polling.crash c h = absurd c
outcome d rs Polling.too_deep c h = absurd c

module _ (fuel : ℕ) where
  each-Served :
      (outs : List Outside) (s : Polling)
      → AllTame outs
      → s.router.haspacket ≡ true
      → ServedTurn (each (suc (suc (suc fuel))) outs s)
  unfolding each
  each-Served [] s tame p = p
  each-Served (out ∷ outs) s tame p =
      let m = action out (suc (suc (suc fuel))) false s.router in
      by_turn (after out s m) (after-Served out s m (action-Served out fuel s.router tame.0 p))
        (λ s p. each-Served outs s tame.1 p)
    where
      by_turn :
          (t : Turn)
          → ServedTurn t
          → ((s : Polling)
              → s.router.haspacket ≡ true
              → ServedTurn (each (suc (suc (suc fuel))) outs s))
          → ServedTurn (elim t as (λ _. Turn) [
            | going s' ↦ each (suc (suc (suc fuel))) outs s'
            | stopped code s' ↦ stopped code s'
            | Polling.crash ↦ Polling.crash
            | Polling.too_deep ↦ Polling.too_deep
          ])
      by_turn (going s) h rest = rest s h
      by_turn (stopped code s) h rest = tt
      by_turn Polling.crash h rest = h
      by_turn Polling.too_deep h rest = h

  round-Served :
      (a : Answer) (s : Polling)
      → TameAnswer a
      → s.router.haspacket ≡ true
      → ServedTurn (round (suc (suc (suc fuel))) a s)
  unfolding round
  round-Served (error e) s tame p = tt
  round-Served (expired out) s tame p =
      let f = suc (suc (suc fuel)) in
      after-Served out s (timeout out f s.router) (timeout-Served out f s.router tame p)
  round-Served (events outs) s tame p = each-Served outs s tame p

  poll_loop-Completed :
      (d now : ℕ) (s : Polling) (rs : List Round)
      → TameRounds rs
      → s.router.haspacket ≡ true
      → Completed (poll_loop (suc (suc (suc fuel))) d now s rs).1
  unfolding poll_loop
  poll_loop-Completed d now s [] tame p = tt
  poll_loop-Completed d now s (r ∷ rs) tame p =
      let (t, q) = next_timeout s.deadline d now in
      let s' : Polling = record s { deadline = q } in
      by_turn (round (suc (suc (suc fuel))) r.answer s') (round-Served r.answer s' tame.0 p)
        (λ s p. poll_loop-Completed d r.now s rs tame.1 p)
    where
      by_turn :
          (turn : Turn)
          → ServedTurn turn
          → ((s : Polling)
              → s.router.haspacket ≡ true
              → Completed (poll_loop (suc (suc (suc fuel))) d r.now s rs).1)
          → Completed
              (closing (suc (suc (suc fuel))) d r rs (next_timeout s.deadline d now).0 turn).1
      by_turn (going s') h rest = elim (Bool-cases (leb d r.now && not (d == time_end))) [
        | inl due ↦ rw due tt
        | inr more ↦ rw more (rest s' h)
      ]
      by_turn (stopped code s') h rest = tt
      by_turn Polling.crash h rest = h
      by_turn Polling.too_deep h rest = h

  -- `trip_run` with a poll, on a router with a packet interface and without error, neither ended nor failed,
  -- where there is memory for timers, the callbacks of due timers end and keep a packet interface, clocks are
  -- far from their end, and the `errno` of `epoll_wait` is never 0. Whatever the packet interface calls back,
  -- `trip_run` returns or waits: it returns a code other than 0, or it returns 0 after a round at whose end
  -- the user's deadline is reached, and leaves no error; it waits only if no such round has come, or if the
  -- timeout is negative.
  pub trip_run-Outcome :
      (ms : Option ℕ) (now again : ℕ) (s : Polling) (rs : List Round)
      → AllSane rs
      → TameRounds rs
      → s.router.state ≢ ended
      → s.router.state ≢ failed
      → s.router.haspacket ≡ true
      → s.router.error ≡ 0
      → Outcome (deadline_of again ms) rs (trip_run (suc (suc (suc fuel))) true ms now again s rs).1
  trip_run-Outcome ms now again s rs sane tame live unfailed p h =
      let f = suc (suc (suc fuel)) in
      let d = deadline_of again ms in
      let same = trip_run-poll_loop f ms now again s rs sane live unfailed in
      outcome d rs (trip_run f true ms now again s rs).1
        (rw same (poll_loop-Completed d now s rs tame p))
        (trip_run-Sound f ms now again s rs sane live unfailed h)
