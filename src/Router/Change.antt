-- ===== src/Router/Change.antt =====
-- src/trip.c: `_trip_set_state`, `_trip_set_error` and the calls of a packet interface. A packet interface
-- may call back before it returns, so a change of state can nest others: the depth is bounded by fuel.
pub mod Laws
pub mod Unbind
use mathlib.Core.Option
use libtrp.Base.{
  ℕ, zero, suc, ◌+◌, Bool, true, false, not, ◌&&◌, Option, none, some, List, [], ◌∷◌, ◌++◌, u64,
  ltb, ◌==◌, if◌then◌else◌,
}
use libtrp.Router.State.{
  State, start, bind, listen, close, unbind, ended, failed, Router, Env, Packet, Reply, later,
  ready, unready, fails, Call, Callback, set_timeout, cancel_timeout, wait, packet_bind,
  packet_unbind, close_connections, router_cb, Run, done, crash, too_deep, and_then,
}

abbrev pub etime : ℕ
etime = 62

unfoldable pub call : Call → Router → Router
call a r = record r { calls = r.calls ++ (a ∷ []) }

-- `_trip_set_timeout`: whether the timer was added. A nearer deadline is passed on to the user.
unfoldable pub add_timeout : Env → ℕ → Callback → Router → Bool × Router
unfolding call
add_timeout env ms cb r =
    let r = call (set_timeout ms cb) r in
    if env.timer_ok
    then (true, if ltb (u64 (env.now + ms)) r.mindeadline then call (wait ms) r else r)
    else (false, r)

-- The state's own timer.
unfoldable pub arm : Env → ℕ → Router → Router
unfolding add_timeout
arm env ms r = let (ok, r) = add_timeout env ms router_cb r in record r { statetimer = ok }

-- `_trip_timeout_cancel_state`
unfoldable pub disarm : Router → Router
unfolding call
disarm r = if r.statetimer then record (call cancel_timeout r) { statetimer = false } else r

abbrev pub is_failed : State → Bool
is_failed failed = true
is_failed _ = false

abbrev pub is_bind : State → Bool
is_bind bind = true
is_bind _ = false

-- The first switch of `_trip_set_state`: the state to enter, and the router.
unfoldable pub on_leave : Env → State → Router → State × Router
unfolding disarm
on_leave env s r = elim r.state [
  | bind ↦ (s, disarm (record r { statedeadline = env.now }))
  | close ↦ (s, disarm (record r { statedeadline = env.now }))
  | unbind ↦ (s, disarm (record r { statedeadline = env.now }))
  | failed ↦ (failed, r)
  | start ↦ (s, r)
  | listen ↦ (s, r)
  | ended ↦ (s, r)
]

-- What goes through `r->packet`.
unfoldable pub needs_packet : Router → Run → Run
needs_packet r m = if r.haspacket then m else crash

-- The functions that a packet interface calls back, on a function that changes the state.
module _ (env : Env) (go : State → Router → Run) where
  -- `_trip_set_error` and `trip_error`
  unfoldable pub set_error_by : ℕ → List ℕ → Router → Run
  set_error_by e msg r =
      if is_failed r.state
      then done r
      else go failed (record r { error = e; errmsg = if env.message_ok then some msg else none })

  -- `trip_ready`
  unfoldable pub ready_by : Router → Run
  ready_by r = if is_bind r.state then go listen r else go failed r

  -- `trip_unready`
  unfoldable pub unready_by : ℕ → Router → Run
  unfolding set_error_by
  unready_by e r = if e == 0 then go ended r else set_error_by e [] r

  unfoldable pub react : Reply → Router → Run
  unfolding set_error_by ready_by unready_by
  react later r = done r
  react ready r = ready_by r
  react (unready e) r = unready_by e r
  react (fails e msg) r = set_error_by e msg r

module _ (env : Env) (packet : Packet) where
  -- The second switch.
  unfoldable pub on_enter : (State → Router → Run) → State → Router → Run
  unfolding arm call react needs_packet
  on_enter go start r = done r
  on_enter go bind r =
      let r =
        arm env r.timeout_bind (record r { statedeadline = u64 (env.now + r.timeout_bind) }) in
      let r = call packet_bind r in needs_packet r (react env go (packet.bind r) r)
  on_enter go listen r = done (record r { statedeadline = 0 })
  on_enter go close r =
      let r = call (close_connections r.timeout_close) r in
      done (arm env r.timeout_close (record r { statedeadline = u64 (env.now + r.timeout_close) }))
  on_enter go unbind r =
      let r = call packet_unbind (call (close_connections 0) r) in
      needs_packet r (
        and_then (react env go (packet.unbind r) r) λ r. done (
          arm env r.timeout_unbind (record r { statedeadline = u64 (env.now + r.timeout_unbind) })))
  on_enter go ended r = done r
  on_enter go failed r =
      if not r.haspacket
      then crash
      else if r.attached && not r.statetimer
      then (let r = call packet_unbind (arm env r.timeout_unbind r) in
          react env go (packet.unbind r) r)
      else done r

  -- `_trip_set_state`, with fuel for the changes that it nests.
  unfoldable pub set_state : ℕ → State → Router → Run
  unfolding on_leave on_enter
  set_state zero s r = too_deep
  set_state (suc fuel) s r =
      let (s, r) = on_leave env s r in on_enter (set_state fuel) s (record r { state = s })

  -- `_trip_set_error`
  unfoldable pub set_error : ℕ → ℕ → List ℕ → Router → Run
  unfolding set_error_by
  set_error fuel e msg r = set_error_by env (set_state fuel) e msg r

  -- `_trip_timeout_router_cb`
  unfoldable pub on_timeout : ℕ → Router → Run
  unfolding set_error
  on_timeout fuel r =
      let r = record r { statetimer = false } in
      if is_failed r.state then done r else set_error fuel etime [] r
