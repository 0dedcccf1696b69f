-- ===== src/Connection/Timing.antt =====
-- src/conn.c: deadlines, delays that grow, timers and the send queue flag of a connection.
use libtrp.Base.{ℕ, ◌+◌, ◌/◌, Bool, true, false, ◌&&◌, [], ◌∷◌, ◌++◌, u64, ltb, if◌then◌else◌}
use libtrp.Connection.State.{
  Conn, Env, Call, Callback, set_timeout, cancel_timeout, enqueue, dequeue,
}

unfoldable pub call : Call → Conn → Conn
call a c = record c { calls = c.calls ++ (a ∷ []) }

-- `_tripc_set_deadline`: the sum of `triptime_deadline` is of `uint64_t`.
unfoldable pub set_deadline : Env → Conn → ℕ → Conn
set_deadline env c ms = record c { statedeadline = u64 (env.now + ms) }

-- `_tripc_set_growth`
unfoldable pub set_growth : Conn → ℕ → Conn
set_growth c ms = record c { growms = ms; retry = 0 }

-- `_tripc_get_growth`
unfoldable pub get_growth : Conn → ℕ × Conn
get_growth c =
    let grown = c.growms + c.growms / 2 in
    (
      c.growms,
      record c {
        growms = if ltb c.maxstatems grown then c.maxstatems else grown;
        retry = c.retry + 1;
      },
    )

-- `_tripc_done_retry`
unfoldable pub done_retry : Conn → Bool
done_retry c = ltb 0 c.maxretry && ltb c.maxretry c.retry

-- `_tripc_set_timeout`: NULL if the timer wheel has no memory.
unfoldable pub arm : Env → Conn → ℕ → Callback → Conn
unfolding call
arm env c ms cb = record (call (set_timeout ms cb) c) { statetimer = env.timer_ok }

-- `_tripc_cancel_timeout`
unfoldable pub disarm : Conn → Conn
unfolding call
disarm c = if c.statetimer then record (call cancel_timeout c) { statetimer = false } else c

-- `_tripc_set_send`
unfoldable pub set_send : Conn → Conn
unfolding call
set_send c = record (call enqueue c) { hassend = true }

-- `_tripc_clear_send`
unfoldable pub clear_send : Conn → Conn
unfolding call
clear_send c = record (call dequeue c) { hassend = false }

-- `_tripc_seq`: the number before it is counted up.
unfoldable pub next_seq : Conn → ℕ × Conn
next_seq c =
    let me = c.self in
    (me.sequence, record c { self = record me { sequence = u64 (me.sequence + 1) } })
