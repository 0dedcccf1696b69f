-- ===== src/Connection/Change/Resending.antt =====
-- src/conn.c: the timers by which a packet is sent again, one after the other.
use libtrp.Base.{ℕ, ◌+◌, ◌≤◌, ◌≡◌, List, [], ◌∷◌, ◌++◌, if◌then◌else◌}
use libtrp.Connection.State.{State, failed, Conn, Env, Call, etime, close_connection}
use libtrp.Connection.Change.{is_failed, on_resend_timeout}

-- The timers of a connection, each as its surroundings when it fires; a connection that has failed is closed,
-- and has no more.
unfoldable pub resend_all : List Env → Conn → Conn
resend_all [] c = c
resend_all (env ∷ envs) c =
    let c' = on_resend_timeout env c in
    let rest = resend_all envs c' in if is_failed c'.state then c' else rest

-- None fires before its delay is over: `ms` is that of the first, armed at `t`; each arms the next with the
-- delay that the connection keeps.
abbrev pub Waited : ℕ → ℕ → List Env → Conn → Type 0
Waited t ms [] c = Unit
Waited t ms (env ∷ envs) c =
    (t + ms ≤ env.now) × Waited env.now c.growms envs (on_resend_timeout env c)

-- The connection has failed with ETIME and is closed, after `k` packets were queued again.
pub record IsClosed (k : ℕ) (c c' : Conn) : Type 0 where
  pub failed : c'.state ≡ failed
  pub error : c'.error ≡ etime
  pub retries : c'.retry ≡ c.retry + k
  pub calls : List Call
  pub closed : c'.calls ≡ calls ++ (close_connection ∷ [])
