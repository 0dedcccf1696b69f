-- ===== src/Util/Power.antt =====
-- `near_pwr2_64` is the least power of two that is not below its argument.
use native.Mathlib.Nat.{
  pow-suc, one-le-pow, add-mul-div_right, div-lt_iff_lt-mul, pow-le-pow_right, div-eq_of_lt,
  div-le_self, div-add-mod', mod-lt,
}
use libtrp.Base.{ℕ, zero, suc, ◌+◌, ◌-◌, ◌*◌, ◌/◌, ◌%◌, ◌^◌, ◌≤◌, ◌<◌, ◌≡◌, refl, ◌∙◌, arith}
use libtrp.Base.{
  bit_or, bit_or_split, bit_or_mask, bit_or-lt, mask_bit_or, bit_or-zero, pow-add, ap, u64,
}
use native.Mathlib.Decide.{dec_lt}
use native.Mathlib.Numerals.{sub-one}
use libtrp.Util.{smear, near_pwr2_64}

-- The `s` highest of the `k` bits of `m` are ones; or all of them are.
data Ones (k s m : ℕ) : Type 0 where
  all : m ≡ 2 ^ k - 1 → Ones k s m
  top : (t r : ℕ) → k ≡ s + t → m ≡ (2 ^ s - 1) * 2 ^ t + r → r < 2 ^ t → Ones k s m

pub pred-mul : (a b : ℕ) → 0 < a → (a - 1) * b + b ≡ a * b
pred-mul zero b h = elim h [ ]
pred-mul (suc a) b h = rw (sub-one (suc a)) (omega arith)

module _ (s : ℕ) where
  pos : 0 < 2 ^ s
  pos = one-le-pow s 2 (omega arith)

  -- the two fields of ones, joined
  ones_append : (t : ℕ) → (2 ^ s - 1) * 2 ^ t + (2 ^ t - 1) ≡ 2 ^ (s + t) - 1
  ones_append t =
      omega (arith, pow-add s t, pred-mul (2 ^ s) (2 ^ t) pos, one-le-pow t 2 (omega arith))

  -- What is left of `m` after the shift, if no more than `s` bits lie below the ones.
  shift_short : (t r : ℕ) → t ≤ s → r < 2 ^ t → ((2 ^ s - 1) * 2 ^ t + r) / 2 ^ s ≡ 2 ^ t - 1
  shift_short t r le h =
      let mono : 2 ^ t ≤ 2 ^ s = pow-le-pow_right (omega arith) le in
      let post : 0 < 2 ^ t = one-le-pow t 2 (omega arith) in
      let same : (2 ^ s - 1) * 2 ^ t + r ≡ (2 ^ s - 2 ^ t + r) + (2 ^ t - 1) * 2 ^ s =
        omega (arith, pred-mul (2 ^ s) (2 ^ t) pos, pred-mul (2 ^ t) (2 ^ s) post) in
      rw (same, add-mul-div_right (2 ^ s - 2 ^ t + r) (2 ^ t - 1) pos)
        (omega (arith, div-eq_of_lt {n = 2 ^ s - 2 ^ t + r} {m = 2 ^ s} (omega arith)))

  smear_short : (t r : ℕ) → t ≤ s → r < 2 ^ t → smear ((2 ^ s - 1) * 2 ^ t + r) s ≡ 2 ^ (s + t) - 1
  unfolding smear
  smear_short t r le h = rw (shift_short t r le h) (
      ground (
        arith,
        bit_or_split t (2 ^ s - 1) 0 r (2 ^ t - 1) h (omega (arith, one-le-pow t 2)),
        bit_or-zero (2 ^ s - 1),
        bit_or_mask t r h,
        ones_append t,
      ))

  module _ (u q r : ℕ) (hq : q < 2 ^ s) (hr : r < 2 ^ u) where
    rest-lt : q * 2 ^ u + r < 2 ^ u * 2 ^ s
    rest-lt = grind arith

    shift_long :
        ((2 ^ s - 1) * 2 ^ (s + u) + (q * 2 ^ u + r)) / 2 ^ s
        ≡ (2 ^ s - 1) * 2 ^ u + (q * 2 ^ u + r) / 2 ^ s
    shift_long =
        let same : (2 ^ s - 1) * 2 ^ (s + u) + (q * 2 ^ u + r)
            ≡ (q * 2 ^ u + r) + ((2 ^ s - 1) * 2 ^ u) * 2 ^ s =
          omega (arith, ap (λ (t : ℕ). (2 ^ s - 1) * t) (pow-add s u)) in
        rw (same, add-mul-div_right (q * 2 ^ u + r) ((2 ^ s - 1) * 2 ^ u) pos) (omega arith)

    smear_long :
        (r' : ℕ) × (smear ((2 ^ s - 1) * 2 ^ (s + u) + (q * 2 ^ u + r)) s
          ≡ (2 ^ (s + s) - 1) * 2 ^ u + r')
        × (r' < 2 ^ u)
    unfolding smear
    smear_long =
        let w = (q * 2 ^ u + r) / 2 ^ s in
        let low : w < 2 ^ u = (div-lt_iff_lt-mul pos).1 rest-lt in
        let top : (2 ^ s - 1) * 2 ^ (s + u) + (q * 2 ^ u + r)
            ≡ ((2 ^ s - 1) * 2 ^ s + q) * 2 ^ u + r =
          omega (arith, ap (λ (t : ℕ). (2 ^ s - 1) * t) (pow-add s u)) in
        let joined : bit_or ((2 ^ s - 1) * 2 ^ s + q) (2 ^ s - 1) ≡ 2 ^ (s + s) - 1 = ground (
          arith,
          bit_or_split s (2 ^ s - 1) 0 q (2 ^ s - 1) hq (omega (arith, pos)),
          bit_or-zero (2 ^ s - 1),
          bit_or_mask s q hq,
          ones_append s,
        ) in
        (
          bit_or r w,
          rw (
            shift_long,
            top,
            bit_or_split u ((2 ^ s - 1) * 2 ^ s + q) (2 ^ s - 1) r w hr low,
            joined,
          ),
          bit_or-lt u r w hr low,
        )

smear-ones : (k j : ℕ) → smear (2 ^ k - 1) j ≡ 2 ^ k - 1
unfolding smear
smear-ones k j =
    mask_bit_or k ((2 ^ k - 1) / 2 ^ j)
      (omega (arith, div-le_self (2 ^ k - 1) (2 ^ j), one-le-pow k 2 (omega arith)))

Ones-long :
    {k m t : ℕ} (s r u : ℕ)
    → m ≡ (2 ^ s - 1) * 2 ^ t + r
    → k ≡ s + t
    → t ≡ s + u
    → r < 2 ^ t
    → Ones k (s + s) (smear m s)
Ones-long {k} {m} {t} s r u em ek et hr =
    let posu : 0 < 2 ^ u = one-le-pow u 2 (omega arith) in
    let pt : 2 ^ t ≡ 2 ^ s * 2 ^ u = ap (λ k. 2 ^ k) et ∙ pow-add s u in
    let hq : r / 2 ^ u < 2 ^ s = (div-lt_iff_lt-mul posu).1 (omega arith) in
    let (r', e, h) = smear_long s u (r / 2 ^ u) (r % 2 ^ u) hq (mod-lt r posu) in
    let fields : m ≡ (2 ^ s - 1) * 2 ^ (s + u) + (r / 2 ^ u * 2 ^ u + r % 2 ^ u) =
      omega (arith, div-add-mod' r (2 ^ u), ap (λ k. (2 ^ s - 1) * 2 ^ k) et) in
    top u r' (omega arith) (ap (λ x. smear x s) fields ∙ e) h

-- One round doubles the number of ones.
Ones-smear : {k s m : ℕ} → Ones k s m → Ones k (s + s) (smear m s)
Ones-smear {k} {s} (all e) = all (rw (e, smear-ones k s))
Ones-smear {k} {s} {m} (top t r ek em hr) = elim (dec_lt t s) [
  | yes p ↦ all (rw (em, ek, smear_short s t r (omega arith) hr))
  | no p ↦ Ones-long s r (t - s) em ek (omega arith) hr
]

-- Every positive number below `2 ^ j` lies between two powers of two.
log2_bounds : (j m : ℕ) → 0 < m → m < 2 ^ j → (k : ℕ) × (k < j) × (2 ^ k ≤ m) × (m < 2 ^ suc k)
log2_bounds zero m h lt = absurd (omega arith)
log2_bounds (suc j) m h lt = elim (dec_lt m (2 ^ j)) [
  | yes p ↦ let (k, a, b, c) = log2_bounds j m h p in (k, omega arith, b, c)
  | no p ↦ (j, omega arith, omega arith, lt)
]

-- The six rounds of `near_pwr2_64`.
spread : ℕ → ℕ
spread m = smear (smear (smear (smear (smear (smear m 1) 2) 4) 8) 16) 32

Ones-full : {k m : ℕ} → k < 64 → Ones k 64 m → m ≡ 2 ^ k - 1
Ones-full h (all e) = e
Ones-full h (top t r e em hr) = absurd (omega arith)

Ones-first : {k m : ℕ} → 2 ^ k ≤ m → m < 2 ^ suc k → Ones (suc k) 1 m
Ones-first {k} {m} le lt =
    top k (m - 2 ^ k) (omega arith) (omega arith) (omega (arith, pow-suc 2 k))

spread-eq : {k m : ℕ} → suc k < 64 → 2 ^ k ≤ m → m < 2 ^ suc k → spread m ≡ 2 ^ suc k - 1
unfolding spread
spread-eq h le lt =
    Ones-full h (
      Ones-smear
        (Ones-smear (Ones-smear (Ones-smear (Ones-smear (Ones-smear (Ones-first le lt)))))))

-- What `near_pwr2_64` promises of a result `p` for `n`: a power of two that 64 bits hold, not below
-- `n`, and no greater than any other such.
pub record IsLeastPower (n p : ℕ) : Type 0 where
  pub exponent : ℕ
  pub fits : exponent ≤ 63
  pub power : p ≡ 2 ^ exponent
  pub above : n ≤ p
  pub least : (j : ℕ) → n ≤ 2 ^ j → p ≤ 2 ^ j

le-pow : (j k : ℕ) → j ≤ k → 2 ^ j ≤ 2 ^ k
le-pow j k h = pow-le-pow_right {n = 2} (omega arith) h

IsLeastPower-one : (n : ℕ) → n ≡ 1 → IsLeastPower n (near_pwr2_64 n)
unfolding near_pwr2_64 smear
IsLeastPower-one n e = rw e (record {
  exponent = 0;
  fits = omega arith;
  power = refl;
  above = omega arith;
  least = λ j h. h;
})

IsLeastPower-suc :
    (n k : ℕ) {p : ℕ}
    → k < 63
    → 2 ^ k < n
    → n ≤ 2 ^ suc k
    → p ≡ u64 (2 ^ suc k - 1 + 1)
    → IsLeastPower n p
IsLeastPower-suc n k {p} hk lo hi e =
    let mono : 2 ^ suc k ≤ 2 ^ 63 = pow-le-pow_right {n = 2} (omega arith) hk in
    let eq : p ≡ 2 ^ suc k = omega (arith, one-le-pow (suc k) 2 (omega arith)) in
    record {
      exponent = suc k;
      fits = hk;
      power = eq;
      above = omega arith;
      least = λ j h. elim (dec_lt k j) [
        | yes q ↦ rw eq (pow-le-pow_right {n = 2} (omega arith) q)
        | no q ↦ absurd (omega (arith, le-pow j k (omega arith)))
      ];
    }

near_pwr2_64-spread : (n : ℕ) → 0 < n → n ≤ 2 ^ 63 → near_pwr2_64 n ≡ u64 (spread (n - 1) + 1)
unfolding near_pwr2_64 spread
near_pwr2_64-spread n pos le =
    let e : u64 (n + 2 ^ 64 - 1) ≡ n - 1 = omega arith in ap (λ m. u64 (spread m + 1)) e

-- Every argument from 1 to 2^63 is rounded up to the least power of two that is not below it.
pub near_pwr2_64-IsLeastPower : (n : ℕ) → 0 < n → n ≤ 2 ^ 63 → IsLeastPower n (near_pwr2_64 n)
near_pwr2_64-IsLeastPower n pos le = elim (dec_lt 1 n) [
  | yes more ↦
      let (k, hk, lo, hi) = log2_bounds 63 (n - 1) (omega arith) (omega arith) in
      IsLeastPower-suc n k hk (omega arith) (omega arith)
        (near_pwr2_64-spread n pos le ∙ ap (λ m. u64 (m + 1)) (spread-eq (omega arith) lo hi))
  | no one ↦ IsLeastPower-one n (omega arith)
]
