-- ===== src/Connection/Change/Timers.antt =====
-- The timer of a connection: `_tripc_set_state` cancels the one that runs before it arms another.
use libtrp.Base.{ℕ, ◌+◌, ◌≡◌, ◌∙◌, arith, true, false, List, [], ◌∷◌, ◌++◌, if◌then◌else◌}
use libtrp.Connection.State.{
  State, resolve, open_sent, chal, pinging, ready, closing, Conn, Env, Call, Callback, resend_cb,
  set_timeout, cancel_timeout, enqueue,
}
use libtrp.Connection.Timing.{get_growth, set_growth, arm, disarm, set_send, set_deadline, call}
use libtrp.Connection.Change.{mk_keys, generate_ping, arm_growth, on_leave, on_enter, set_state}

-- Timers armed and cancelled by a list of calls.
unfoldable pub armed : List Call → ℕ
armed [] = 0
armed (set_timeout _ _ ∷ rest) = armed rest + 1
armed (_ ∷ rest) = armed rest

unfoldable pub cancelled : List Call → ℕ
cancelled [] = 0
cancelled (cancel_timeout ∷ rest) = cancelled rest + 1
cancelled (_ ∷ rest) = cancelled rest

-- Of the timers armed all are cancelled but one, and that one exactly when `statetimer` is not NULL.
unfoldable pub Balanced : Conn → Type 0
unfolding armed cancelled
Balanced c = armed c.calls ≡ cancelled c.calls + (if c.statetimer then 1 else 0)

armed-append : (xs ys : List Call) → armed (xs ++ ys) ≡ armed xs + armed ys
unfolding armed
armed-append [] ys = omega arith
armed-append (set_timeout _ _ ∷ xs) ys = grind (arith, armed-append xs ys)
armed-append (_ ∷ xs) ys = armed-append xs ys

cancelled-append : (xs ys : List Call) → cancelled (xs ++ ys) ≡ cancelled xs + cancelled ys
unfolding cancelled
cancelled-append [] ys = omega arith
cancelled-append (cancel_timeout ∷ xs) ys = grind (arith, cancelled-append xs ys)
cancelled-append (_ ∷ xs) ys = cancelled-append xs ys

disarm-Balanced : (c : Conn) → Balanced c → Balanced (disarm c) × ((disarm c).statetimer ≡ false)
unfolding Balanced disarm call
disarm-Balanced c h = ground (
  arith,
  armed-append c.calls (cancel_timeout ∷ []),
  cancelled-append c.calls (cancel_timeout ∷ []),
)

arm-Balanced :
    (env : Env) (c : Conn) (ms : ℕ) (cb : Callback)
    → env.timer_ok ≡ true
    → c.statetimer ≡ false
    → Balanced c
    → Balanced (arm env c ms cb)
unfolding Balanced arm call
arm-Balanced env c ms cb ok free h = ground (
  arith,
  armed-append c.calls (set_timeout ms cb ∷ []),
  cancelled-append c.calls (set_timeout ms cb ∷ []),
)

set_send-Balanced : (c : Conn) → Balanced c → Balanced (set_send c)
unfolding Balanced set_send call
set_send-Balanced c h =
    ground (arith, armed-append c.calls (enqueue ∷ []), cancelled-append c.calls (enqueue ∷ []))

mk_keys-calls :
    (env : Env) (c : Conn)
    → ((mk_keys env c).calls ≡ c.calls) × ((mk_keys env c).statetimer ≡ c.statetimer)
unfolding mk_keys
mk_keys-calls env c = ground arith

mk_keys-Balanced : (env : Env) (c : Conn) → Balanced c → Balanced (mk_keys env c)
unfolding Balanced
mk_keys-Balanced env c h = ground (arith, mk_keys-calls env c)

-- Where the timer wheel has memory, every change of state keeps the account: the timers armed are those
-- cancelled, and one more exactly where `statetimer` is set.
pub set_state-Balanced :
    (env : Env) (c : Conn) (s : State)
    → env.timer_ok ≡ true
    → Balanced c
    → Balanced (set_state env c s)
unfolding set_state on_leave on_enter arm_growth get_growth set_growth set_deadline generate_ping
    set_send call Balanced
set_state-Balanced env c resolve ok h =
    let (b, f) = disarm-Balanced c h in
    arm-Balanced env (record (disarm c) { state = resolve }) _ _ ok f b
set_state-Balanced env c open_sent ok h =
    let (b, f) = disarm-Balanced c h in
    let c1 = record (disarm c) { state = open_sent } in
    let c2 = mk_keys env c1 in
    arm-Balanced env (set_send c2) c2.statems resend_cb ok ((mk_keys-calls env c1).1 ∙ f)
      (set_send-Balanced c2 (mk_keys-Balanced env c1 b))
set_state-Balanced env c chal ok h =
    mk_keys-Balanced env (record (disarm c) { state = chal }) ((disarm-Balanced c h).0)
set_state-Balanced env c pinging ok h =
    let (b, f) = disarm-Balanced c h in
    let c1 = record (disarm c) { state = pinging } in
    set_send-Balanced (arm env c1 c1.ping.ms resend_cb)
      (arm-Balanced env c1 c1.ping.ms resend_cb ok f b)
set_state-Balanced env c ready ok h =
    let (b, f) = disarm-Balanced c h in
    arm-Balanced env (record (disarm c) { state = ready }) _ _ ok f b
set_state-Balanced env c closing ok h =
    let (b, f) = disarm-Balanced c h in
    arm-Balanced env (record (disarm c) { state = closing }) _ _ ok f b
set_state-Balanced env c _ ok h = h
