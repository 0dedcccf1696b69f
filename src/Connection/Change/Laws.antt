-- ===== src/Connection/Change/Laws.antt =====
-- What `_tripc_set_state` leaves, in every state that it is asked for.
use libtrp.Base.{
  ℕ, ◌+◌, ◌/◌, ◌≤◌, ◌<◌, ◌≡◌, ◌≢◌, arith, true, ◌⊎◌, inl, inr, none, some, if◌then◌else◌, List, [],
  ◌∷◌, ◌++◌, min,
}
use mathlib.Core.List.{append_assoc}
use native.Mathlib.Decide.{dec_lt}
use libtrp.Connection.State.{
  State, start, failed, Conn, Env, resend_cb, set_timeout, enqueue, etime, close_connection,
}
use libtrp.Connection.Timing.{get_growth}
use libtrp.Connection.Change.{mk_keys, set_state, set_error, on_resend_timeout}

mk_keys-state :
    (env : Env) (c : Conn) → ((mk_keys env c).state ≡ c.state) × ((mk_keys env c).error ≡ c.error)
unfolding mk_keys
mk_keys-state env c = ground arith

-- The connection is in the state that was asked for, also behind an error, and keeps its error code.
pub set_state-state :
    (env : Env) (c : Conn) (s : State)
    → ((set_state env c s).state ≡ s) × ((set_state env c s).error ≡ c.error)
unfolding set_state
set_state-state env c start = ground arith
set_state-state env c _ = ground (arith)

pub set_error-state :
    (env : Env) (c : Conn) (eval : ℕ) (msg : List ℕ) → (set_error env c eval msg).state ≡ failed
unfolding set_error
set_error-state env c eval msg = ground (arith)

-- An error fails the connection with the code given, and changes nothing where it has failed before:
-- the first error is the one that is kept. The message is lost where there is no memory for it.
pub set_error_lem :
    (env : Env) (c : Conn) (eval : ℕ) (msg : List ℕ)
    → let c' = set_error env c eval msg in
      (c'.state ≡ failed)
      × (c.state ≡ failed → c' ≡ c)
      × (c.state ≢ failed
          → (c'.error ≡ eval)
            × (c'.errmsg ≡ (if env.message_ok then some msg else none))
            × (c'.calls ≡ c.calls))
unfolding set_error
set_error_lem env c eval msg = (set_error-state env c eval msg, ground arith, ground arith)

-- The delay that is used, and the next: half as long again, never beyond the limit, and never shorter
-- than the one before where that was within the limit. Only the retry counter changes besides.
pub get_growth_bounds :
    (c : Conn)
    → let (ms, c') = get_growth c in
      (ms ≡ c.growms)
      × (c'.growms ≡ min (c.growms + c.growms / 2) c.maxstatems)
      × (c.growms ≤ c.maxstatems → (ms ≤ c'.growms) × (c'.growms ≤ c.maxstatems))
      × (c' ≡ record c { growms = c'.growms; retry = c.retry + 1 })
unfolding get_growth
get_growth_bounds c = ground arith

set_error_closed :
    (env : Env) (c : Conn)
    → c.statedeadline < env.now
    → let c' = on_resend_timeout env c in
      (c'.state ≡ failed)
      × ((c.state ≡ failed × (c'.error ≡ c.error)) ⊎ (c.state ≢ failed × (c'.error ≡ etime)))
      × (c'.calls ≡ c.calls ++ (close_connection ∷ []))
unfolding on_resend_timeout
set_error_closed env c p = ground (arith)

-- When a resend timer fires: past the deadline the connection fails with ETIME, unless it has failed
-- before, and is closed, with no new timer and nothing queued; up to the deadline it keeps its state,
-- is queued to send and armed again with the current delay.
on_resend_timeout_lem :
    (env : Env) (c : Conn)
    → let c' = on_resend_timeout env c in
      ((c.statedeadline < env.now)
        × (c'.state ≡ failed)
        × ((c.state ≡ failed × (c'.error ≡ c.error)) ⊎ (c.state ≢ failed × (c'.error ≡ etime)))
        × (c'.calls ≡ c.calls ++ (close_connection ∷ [])))
      ⊎ ((env.now ≤ c.statedeadline)
          × (c'.state ≡ c.state)
          × (c'.hassend ≡ true)
          × (c'.statetimer ≡ env.timer_ok)
          × (c'.growms ≡ min (c.growms + c.growms / 2) c.maxstatems)
          × (c'.calls ≡ c.calls ++ (enqueue ∷ set_timeout c.growms resend_cb ∷ [])))
unfolding on_resend_timeout
on_resend_timeout_lem env c = elim (dec_lt c.statedeadline env.now) [
  | yes p ↦ let (a, b, d) = set_error_closed env c p in inl (p, a, b, d)
  | no p ↦ inr (
    omega arith,
    ground arith,
    ground arith,
    ground arith,
    ground arith,
    ground (arith, append_assoc c.calls (enqueue ∷ []) (set_timeout c.growms resend_cb ∷ [])),
  )
]
