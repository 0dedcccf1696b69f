-- ===== src/Base/Bits.antt =====
-- The bit operations of C at variables: one equation for the lowest digit, and what follows.
use Prim.Native.Nat.{ℕ, zero, suc, ◌+◌, ◌-◌, ◌*◌, ◌/◌, ◌%◌, ◌^◌, ◌≤◌, ◌<◌, min, max}
use Prim.Native.Nat.{bit_and, bit_or, bit_xor, digits, bitwise, differ}
use Prim.Native.Nat.{bit_and-bitwise, bit_or-bitwise, bit_xor-bitwise}
use mathlib.Core.Path.{◌≡◌, refl, ap, sym, ◌∙◌}
use native.Mathlib.Nat.{le_refl, pow-suc, one-le-pow, div-add-mod', mod-lt, div-lt_iff_lt-mul}
use native.Mathlib.Omega.{arith}

module _ (rest : ℕ → ℕ) (digit : ℕ → ℕ → ℕ) where
  -- Any fuel that covers the first number gives the same digits.
  spare_fuel : (x y k l : ℕ) → x ≤ k → x ≤ l → digits rest digit k x y ≡ digits rest digit l x y
  spare_fuel zero y zero zero _ _ = refl
  spare_fuel zero y zero (suc l) _ _ = refl
  spare_fuel zero y (suc k) zero _ _ = refl
  spare_fuel zero y (suc k) (suc l) _ _ = refl
  spare_fuel (suc x) y zero l h _ = absurd (omega arith)
  spare_fuel (suc x) y (suc k) zero _ h = absurd (omega arith)
  spare_fuel (suc x) y (suc k) (suc l) h h' =
      let shorter = spare_fuel (suc x / 2) (y / 2) k l (omega arith) (omega arith) in
      ap (λ high. high * 2 + digit (suc x % 2) (y % 2)) shorter

  low_digit :
      (x y : ℕ)
      → digits rest digit x (suc x / 2) (y / 2) * 2 + digit (suc x % 2) (y % 2)
        ≡ bitwise rest digit (suc x / 2) (y / 2) * 2 + digit (suc x % 2) (y % 2)
  low_digit x y =
      let same = spare_fuel (suc x / 2) (y / 2) x (suc x / 2) (omega arith) (omega arith) in
      ap (λ high. high * 2 + digit (suc x % 2) (y % 2)) same

bit_xor_step : (x y : ℕ) → bit_xor x y ≡ bit_xor (x / 2) (y / 2) * 2 + differ (x % 2) (y % 2)
bit_xor_step zero y = simp bit_xor-bitwise (omega arith)
bit_xor_step (suc x) y = simp bit_xor-bitwise (low_digit (λ n. n) differ x y)

bit_and_step : (x y : ℕ) → bit_and x y ≡ bit_and (x / 2) (y / 2) * 2 + min (x % 2) (y % 2)
bit_and_step zero y = simp bit_and-bitwise (omega arith)
bit_and_step (suc x) y = simp bit_and-bitwise (low_digit (λ n. 0) min x y)

bit_or_step : (x y : ℕ) → bit_or x y ≡ bit_or (x / 2) (y / 2) * 2 + max (x % 2) (y % 2)
bit_or_step zero y = simp bit_or-bitwise (omega arith)
bit_or_step (suc x) y = simp bit_or-bitwise (low_digit (λ n. n) max x y)

-- An operation that works digit by digit works field by field.
module _ (op f : ℕ → ℕ → ℕ) (zeros : op 0 0 ≡ 0)
    (step : (a b : ℕ) → op a b ≡ op (a / 2) (b / 2) * 2 + f (a % 2) (b % 2)) where
  pub split :
      (k a b r s : ℕ)
      → r < 2 ^ k
      → s < 2 ^ k
      → op (a * 2 ^ k + r) (b * 2 ^ k + s) ≡ op a b * 2 ^ k + op r s
  split zero a b r s hr hs = ground (arith, zeros)
  split (suc k) a b r s hr hs = ground (
    arith,
    step (a * 2 ^ suc k + r) (b * 2 ^ suc k + s),
    step r s,
    halves a r k,
    halves b s k,
    split k a b (r / 2) (s / 2) (omega (arith, pow-suc 2 k)) (omega (arith, pow-suc 2 k)),
    double (op a b) k,
  )
    where
      double : (q k : ℕ) → q * 2 ^ suc k ≡ 2 * (q * 2 ^ k)
      double q k = omega (arith, ap (λ (t : ℕ). q * t) (pow-suc 2 k))

      halves :
          (q t k : ℕ)
          → ((q * 2 ^ suc k + t) / 2 ≡ q * 2 ^ k + t / 2) × ((q * 2 ^ suc k + t) % 2 ≡ t % 2)
      halves q t k = omega (arith, double q k)

pub bit_or_split :
    (k a b r s : ℕ)
    → r < 2 ^ k
    → s < 2 ^ k
    → bit_or (a * 2 ^ k + r) (b * 2 ^ k + s) ≡ bit_or a b * 2 ^ k + bit_or r s
bit_or_split = split bit_or max refl bit_or_step

bit_and_split :
    (k a b r s : ℕ)
    → r < 2 ^ k
    → s < 2 ^ k
    → bit_and (a * 2 ^ k + r) (b * 2 ^ k + s) ≡ bit_and a b * 2 ^ k + bit_and r s
bit_and_split = split bit_and min refl bit_and_step

bit_xor_split :
    (k a b r s : ℕ)
    → r < 2 ^ k
    → s < 2 ^ k
    → bit_xor (a * 2 ^ k + r) (b * 2 ^ k + s) ≡ bit_xor a b * 2 ^ k + bit_xor r s
bit_xor_split = split bit_xor differ refl bit_xor_step

pub zero-bit_or : (b : ℕ) → bit_or 0 b ≡ b
zero-bit_or b = bit_or-bitwise 0 b

zero-bit_xor : (b : ℕ) → bit_xor 0 b ≡ b
zero-bit_xor b = bit_xor-bitwise 0 b

zero-bit_and : (b : ℕ) → bit_and 0 b ≡ 0
zero-bit_and b = bit_and-bitwise 0 b

-- Zero on the right: the number itself where the digits are kept, and zero where they are cleared.
module _ (op digit : ℕ → ℕ → ℕ) (zeros : op 0 0 ≡ 0)
    (lowest : (x y : ℕ) → op x y ≡ op (x / 2) (y / 2) * 2 + digit (x % 2) (y % 2)) where
  right_kept : ((d : ℕ) → digit d 0 ≡ d) → (bound x : ℕ) → x ≤ bound → op x 0 ≡ x
  right_kept kept bound zero h = zeros
  right_kept kept zero (suc x) h = absurd (omega arith)
  right_kept kept (suc bound) (suc x) h =
      let higher = right_kept kept bound (suc x / 2) (omega arith) in
      ground (arith, lowest (suc x) 0, kept (suc x % 2), higher)

  right_cleared : ((d : ℕ) → digit d 0 ≡ 0) → (bound x : ℕ) → x ≤ bound → op x 0 ≡ 0
  right_cleared cleared bound zero h = zeros
  right_cleared cleared zero (suc x) h = absurd (omega arith)
  right_cleared cleared (suc bound) (suc x) h =
      let higher = right_cleared cleared bound (suc x / 2) (omega arith) in
      ground (arith, lowest (suc x) 0, cleared (suc x % 2), higher)

differ-zero : (d : ℕ) → differ d 0 ≡ d
differ-zero zero = refl
differ-zero (suc d) = refl

pub bit_or-zero : (x : ℕ) → bit_or x 0 ≡ x
bit_or-zero x = right_kept bit_or max refl bit_or_step (λ d. omega arith) x x (le_refl x)

bit_xor-zero : (x : ℕ) → bit_xor x 0 ≡ x
bit_xor-zero x = right_kept bit_xor differ refl bit_xor_step differ-zero x x (le_refl x)

bit_and-zero : (x : ℕ) → bit_and x 0 ≡ 0
bit_and-zero x = right_cleared bit_and min refl bit_and_step (λ d. omega arith) x x (le_refl x)

pub bit_or_fields : (k q r : ℕ) → r < 2 ^ k → bit_or (q * 2 ^ k) r ≡ q * 2 ^ k + r
bit_or_fields k q r h =
    ground
      (arith, bit_or_split k q 0 0 r (one-le-pow k 2 (omega arith)) h, bit_or-zero q, zero-bit_or r)

pub bit_xor_fields : (k q r : ℕ) → r < 2 ^ k → bit_xor (q * 2 ^ k) r ≡ q * 2 ^ k + r
bit_xor_fields k q r h = ground (
  arith,
  bit_xor_split k q 0 0 r (one-le-pow k 2 (omega arith)) h,
  bit_xor-zero q,
  zero-bit_xor r,
)

pub bit_xor_fields' : (k q r : ℕ) → r < 2 ^ k → bit_xor r (q * 2 ^ k) ≡ q * 2 ^ k + r
bit_xor_fields' k q r h = ground (
  arith,
  bit_xor_split k 0 q r 0 h (one-le-pow k 2 (omega arith)),
  zero-bit_xor q,
  bit_xor-zero r,
)

-- The low mask is absorbing for `|` and neutral for `&` on `k` bits.
pub bit_or_mask : (k r : ℕ) → r < 2 ^ k → bit_or r (2 ^ k - 1) ≡ 2 ^ k - 1
bit_or_mask zero r h = ground arith
bit_or_mask (suc k) r h = ground (
  arith,
  bit_or_step r (2 ^ suc k - 1),
  pow-suc 2 k,
  one-le-pow k 2,
  bit_or_mask k (r / 2) (omega (arith, pow-suc 2 k)),
)

mask_bit_and : (k r : ℕ) → r < 2 ^ k → bit_and (2 ^ k - 1) r ≡ r
mask_bit_and zero r h = ground (arith, zero-bit_and r)
mask_bit_and (suc k) r h = ground (
  arith,
  bit_and_step (2 ^ suc k - 1) r,
  pow-suc 2 k,
  one-le-pow k 2,
  mask_bit_and k (r / 2) (omega (arith, pow-suc 2 k)),
)

bit_and_low : (k r : ℕ) → r < 2 ^ k → bit_and r (2 ^ k - 1) ≡ r
bit_and_low zero r h = ground (arith, zero-bit_and r)
bit_and_low (suc k) r h = ground (
  arith,
  bit_and_step r (2 ^ suc k - 1),
  pow-suc 2 k,
  one-le-pow k 2,
  bit_and_low k (r / 2) (omega (arith, pow-suc 2 k)),
)

-- `mask & a` is the remainder by `2 ^ k`.
pub bit_and_mask : (k a : ℕ) → bit_and (2 ^ k - 1) a ≡ a % 2 ^ k
bit_and_mask k a =
    let pos : 0 < 2 ^ k = one-le-pow k 2 (omega arith) in
    ground (
      arith,
      bit_and_split k 0 (a / 2 ^ k) (2 ^ k - 1) (a % 2 ^ k) (omega arith) (mod-lt a pos),
      mask_bit_and k (a % 2 ^ k) (mod-lt a pos),
      div-add-mod' a (2 ^ k),
      zero-bit_and (a / 2 ^ k),
    )

bit_and_swap : (bound a b : ℕ) → a ≤ bound → bit_and a b ≡ bit_and b a
bit_and_swap bound zero b h = zero-bit_and b ∙ sym (bit_and-zero b)
bit_and_swap zero (suc a) b h = absurd (omega arith)
bit_and_swap (suc bound) (suc a) b h =
    let higher = bit_and_swap bound (suc a / 2) (b / 2) (omega arith) in
    omega (arith, bit_and_step (suc a) b, bit_and_step b (suc a), higher)

pub mask_right : (k a : ℕ) → bit_and a (2 ^ k - 1) ≡ a % 2 ^ k
mask_right k a = bit_and_swap a a (2 ^ k - 1) (le_refl a) ∙ bit_and_mask k a

-- `a & ~mask` clears the low `k` bits of a number of `n + k` bits.
pub bit_and_high :
    (k n a : ℕ) → a < 2 ^ n * 2 ^ k → bit_and a ((2 ^ n - 1) * 2 ^ k) ≡ a / 2 ^ k * 2 ^ k
bit_and_high k n a h =
    let pos : 0 < 2 ^ k = one-le-pow k 2 (omega arith) in
    ground (
      arith,
      bit_and_split k (a / 2 ^ k) (2 ^ n - 1) (a % 2 ^ k) 0 (mod-lt a pos) pos,
      bit_and_low n (a / 2 ^ k) ((div-lt_iff_lt-mul pos).1 h),
      div-add-mod' a (2 ^ k),
      bit_and-zero (a % 2 ^ k),
    )

pub pow-add : (a b : ℕ) → 2 ^ (a + b) ≡ 2 ^ a * 2 ^ b
pow-add zero b = ground arith
pow-add (suc a) b =
    let e : suc a + b ≡ suc (a + b) = omega arith in
    rw (e, pow-suc 2 (a + b), pow-suc 2 a, pow-add a b) (omega arith)

pub mask_bit_or : (k r : ℕ) → r < 2 ^ k → bit_or (2 ^ k - 1) r ≡ 2 ^ k - 1
mask_bit_or zero r h = ground (arith, bit_or-zero 0)
mask_bit_or (suc k) r h = ground (
  arith,
  bit_or_step (2 ^ suc k - 1) r,
  pow-suc 2 k,
  one-le-pow k 2,
  mask_bit_or k (r / 2) (omega (arith, pow-suc 2 k)),
)

pub bit_or-lt : (k a b : ℕ) → a < 2 ^ k → b < 2 ^ k → bit_or a b < 2 ^ k
bit_or-lt zero a b ha hb = ground (arith, bit_or-zero 0)
bit_or-lt (suc k) a b ha hb = ground (
  arith,
  bit_or_step a b,
  pow-suc 2 k,
  bit_or-lt k (a / 2) (b / 2) (omega (arith, pow-suc 2 k)) (omega (arith, pow-suc 2 k)),
)
