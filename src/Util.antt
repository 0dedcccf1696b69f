-- ===== src/Util.antt =====
-- src/util.c: rounding up to a power of two, and the test for a block of zeroes.
pub mod Power
mod Tests
use libtrp.Base.{ℕ, ◌+◌, ◌-◌, ◌%◌, ◌^◌, ◌<◌, ◌≡◌, Bool, true, false, List, [], ◌∷◌, bit_or, u64}
use libtrp.Base.{◌>>>◌, ◌==◌, if◌then◌else◌}

-- `n |= n >> k`
unfoldable pub smear : ℕ → ℕ → ℕ
smear n k = bit_or n (n >>> k)

-- `near_pwr2_64`: `--n` and `n + 1` wrap at 64 bits, and no shift can.
unfoldable pub near_pwr2_64 : ℕ → ℕ
near_pwr2_64 n =
    let n = u64 (n + 2 ^ 64 - 1) in
    u64 (smear (smear (smear (smear (smear (smear n 1) 2) 4) 8) 16) 32 + 1)

-- `are_zeros(len, buf)` over the `len` bytes of `buf`.
unfoldable pub are_zeros : List ℕ → Bool
are_zeros [] = true
are_zeros (b ∷ buf) = if b == 0 then are_zeros buf else false
