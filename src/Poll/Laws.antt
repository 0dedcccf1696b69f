-- ===== src/Poll/Laws.antt =====
-- The waits against the nearest deadline.
use libtrp.Base.{ℕ, ◌+◌, ◌-◌, ◌^◌, ◌≤◌, ◌<◌, ◌≡◌, min, arith, leb, if◌then◌else◌}
use libtrp.Poll.{time_end, router_max_timeout, max_timeout, until, next_timeout, triptime_timeout}

-- How long to wait for the nearer of two deadlines, at most `router_max_timeout`.
abbrev pub wait : ℕ → ℕ → ℕ → ℕ
wait d e now = min (min d e - now) router_max_timeout

-- Whatever the two deadlines, and a clock below 2^64 - 1024, the branches of `next_timeout` come to the
-- wait for the nearer deadline; the deadline of the poll is reset exactly if it is reached and not behind
-- the one given.
pub next_timeout-wait :
    (poll_deadline deadline now : ℕ)
    → now + router_max_timeout < 2 ^ 64
    → next_timeout poll_deadline deadline now ≡ (
      wait poll_deadline deadline now,
      if leb poll_deadline (min deadline now) then time_end else poll_deadline,
    )
unfolding next_timeout until
next_timeout-wait p d now h = ground (arith, h)

-- The wait for a deadline is at most ten seconds; it is exact for one that is up to then ahead, and a
-- millisecond for one that has passed, by less than 2^31 ms.
pub triptime_timeout-exact :
    (deadline now : ℕ)
    → deadline < 2 ^ 64
    → now < 2 ^ 64
    → (triptime_timeout deadline now ≤ max_timeout)
      × (now ≤ deadline
          → deadline < now + 2 ^ 31
          → triptime_timeout deadline now ≡ min (deadline - now) max_timeout)
      × (deadline < now → now ≤ deadline + 2 ^ 31 → triptime_timeout deadline now ≡ 1)
unfolding triptime_timeout
triptime_timeout-exact d n hd hn = (ground arith, λ le lt. ground (arith), λ lt le. ground (arith))
