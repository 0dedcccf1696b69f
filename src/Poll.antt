-- ===== src/Poll.antt =====
-- src/trip_poll.c and src/time.c: how long to wait.
pub mod Laws
use libtrp.Base.{ℕ, ◌+◌, ◌-◌, ◌^◌, ◌%◌, Bool, u64, ltb, leb, if◌then◌else◌}

-- `TRIPTIME_END`
abbrev pub time_end : ℕ
time_end = 2 ^ 64 - 1

-- `_TRIPR_MAX_TIMEOUT`
abbrev pub router_max_timeout : ℕ
router_max_timeout = 1024

-- `_TRIP_MIN_TIMEOUT` and `_TRIP_MAX_TIMEOUT`
abbrev pub min_timeout : ℕ
min_timeout = 1

abbrev pub max_timeout : ℕ
max_timeout = 10000

-- The branches on one deadline, `at_once` where it is reached. A difference below 1024 fits an `int`.
unfoldable pub until : ℕ → ℕ → ℕ × ℕ → ℕ → ℕ × ℕ
until deadline now at_once poll_deadline =
    if leb deadline now
    then at_once
    else if leb (u64 (now + router_max_timeout)) deadline
    then (router_max_timeout, poll_deadline)
    else (deadline - now, poll_deadline)

-- `next_timeout`: the timeout, and `poll->deadline`.
unfoldable pub next_timeout : ℕ → ℕ → ℕ → ℕ × ℕ
unfolding until
next_timeout poll_deadline deadline now =
    if ltb deadline poll_deadline
    then until deadline now (0, poll_deadline) poll_deadline
    else until poll_deadline now (0, time_end) poll_deadline

-- `triptime_timeout`: the difference of two `uint64_t`, cast to `int`; bit 31 is the sign.
unfoldable pub triptime_timeout : ℕ → ℕ → ℕ
triptime_timeout deadline now =
    let timeout = (deadline + 2 ^ 64 - now) % 2 ^ 32 in
    if leb (2 ^ 31) timeout
    then min_timeout
    else if ltb max_timeout timeout
    then max_timeout
    else timeout
