-- ===== src/Connection/Change.antt =====
-- src/conn.c: `_tripc_set_state`, `_tripc_set_error`, the start of a connection and its timers.
pub mod Laws
pub mod Timers
pub mod Resending
use libtrp.Base.{
  ℕ, ◌+◌, ◌*◌, ◌/◌, Bool, true, false, not, ◌&&◌, ◌||◌, Option, none, some, List, [], ltb, leb,
  if◌then◌else◌,
}
use libtrp.Connection.State.{
  State, start, resolve, open_sent, chal, pinging, ready, ready_ping, closing, ended, failed, Conn,
  Env, Self, Ping, resolve_cb, resend_cb, ready_ping_cb, delete_resolve, close_connection, dequeue,
  etime, einval,
}
use libtrp.Connection.Timing.{call, set_deadline, set_growth, get_growth, arm, disarm, set_send}

abbrev pub is_null : Option (List ℕ) → Bool
is_null none = true
is_null (some _) = false

-- `tripm_alloc` where the pointer is still NULL; the bytes are not written yet.
abbrev or_alloc : Bool → Option (List ℕ) → Option (List ℕ)
or_alloc ok (some k) = some k
or_alloc true none = some []
or_alloc false none = none

-- `_tripc_mk_keys`: a fresh pair, or none where memory fails for either key.
unfoldable pub mk_keys : Env → Conn → Conn
mk_keys env c =
    if not c.encrypted
    then c
    else if is_null (or_alloc env.self_pk_ok c.self.pk)
        || is_null (or_alloc env.self_sk_ok c.self.sk)
    then record c { self = record me { pk = none; sk = none } }
    else record c { self = record me { pk = some env.keypair.0; sk = some env.keypair.1 } }
  where
    open c use {self as me}

-- `_tripc_generate_ping`
unfoldable pub generate_ping : Env → Conn → Conn
generate_ping env c = record c { ping = record p { nonce = env.random_nonce; timestamp = env.now } }
  where
    open c use {ping as p}

-- A delay from `_tripc_get_growth`, armed for a resend.
unfoldable pub arm_growth : Env → Conn → Conn
unfolding get_growth arm
arm_growth env c = let (ms, c) = get_growth c in arm env c ms resend_cb

-- The first switch of `_tripc_set_state`. It is on the state to be entered.
unfoldable pub on_leave : State → Conn → Conn
unfolding disarm
on_leave resolve c = disarm c
on_leave open_sent c = disarm c
on_leave chal c = disarm c
on_leave pinging c = disarm c
on_leave ready c = disarm c
on_leave closing c = disarm c
on_leave _ c = c

-- The second switch.
unfoldable pub on_enter : Env → State → Conn → Conn
unfolding mk_keys generate_ping arm_growth set_deadline set_growth set_send arm
on_enter env resolve c = arm env c c.maxresolve resolve_cb
on_enter env open_sent c =
    let c = mk_keys env c in
    let c = set_deadline env c c.maxstatems in
    let c = set_growth c c.statems in arm_growth env (set_send c)
on_enter env chal c = mk_keys env c
on_enter env pinging c =
    let c = generate_ping env c in
    let c = set_deadline env c c.ping.maxms in
    let c = set_growth c c.ping.ms in set_send (arm_growth env c)
on_enter env ready c =
    let c = set_deadline env c (c.ping.maxms * 2) in
    arm env c (c.ping.maxms + c.ping.maxms / 2) ready_ping_cb
on_enter env closing c =
    let c = set_deadline env c c.maxstatems in arm env c c.statems ready_ping_cb
on_enter env _ c = c

-- `_tripc_set_state`
unfoldable pub set_state : Env → Conn → State → Conn
unfolding on_leave on_enter
set_state env c s = on_enter env s (record (on_leave s c) { state = s })

-- `_TRIPC_STATE_ERROR != c->state`
abbrev pub is_failed : State → Bool
is_failed failed = true
is_failed _ = false

-- `_tripc_set_error`; NULL for `msg` is the empty text.
unfoldable pub set_error : Env → Conn → ℕ → List ℕ → Conn
unfolding set_state
set_error env c eval msg =
    if is_failed c.state
    then c
    else set_state env
        (record c { error = eval; errmsg = if env.message_ok then some msg else none }) failed

abbrev pub is_start : State → Bool
is_start start = true
is_start _ = false

-- `_tripc_start`
unfoldable pub begin : Env → Conn → Conn
unfolding set_state set_error
begin env c =
    if not (is_start c.state)
    then set_error env c einval []
    else set_state env c (if c.incoming then chal else resolve)

-- `_tripc_resolved`
unfoldable pub resolved : Env → Conn → Conn
unfolding set_state
resolved env c = set_state env c open_sent

-- `_tripc_timeout_state_resolve_cb`
unfoldable pub on_resolve_timeout : Env → Conn → Conn
unfolding call set_error
on_resolve_timeout env c =
    let c = record (call delete_resolve c) { statetimer = false } in
    call close_connection (set_error env c etime [])

-- `_tripc_timeout_state_resend_cb`
unfoldable pub on_resend_timeout : Env → Conn → Conn
unfolding call set_error set_send arm_growth
on_resend_timeout env c =
    if ltb c.statedeadline env.now
    then call close_connection (set_error env c etime [])
    else arm_growth env (set_send c)

-- `_tripc_timeout_state_ready_ping`
unfoldable pub on_ready_timeout : Env → Conn → Conn
unfolding set_state
on_ready_timeout env c = set_state env c pinging
