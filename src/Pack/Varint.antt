-- ===== src/Pack/Varint.antt =====
-- src/pack.c: the bytes behind a count. `trip_pack` writes them low byte first (`le_bytes`), the
-- readers of `trip_unpack` take the first as the highest (`be_value`).
use native.Mathlib.Nat.{
  pow-suc, one-le-pow, mod-eq_of_lt, le_trans, mul-le-mul_right, lt_of_lt_of_le, pow-le-pow_right,
}
use native.Mathlib.Decide.{dec_lt}
use native.Mathlib.Numerals.{sub-one}
use mathlib.Core.Path.{subst, sym}
use libtrp.Base.{
  ℕ, zero, suc, ◌+◌, ◌-◌, ◌*◌, ◌/◌, ◌%◌, ◌^◌, ◌≤◌, ◌<◌, ◌≡◌, refl, ◌∙◌, ap, bit_and, bit_xor, arith,
}
use libtrp.Base.{
  bit_and_mask, bit_xor_fields, some, List, [], ◌∷◌, ◌++◌, length, ◌==◌, ◌>>>◌, ◌<<<◌, Bool-cases,
  inl, inr,
}
use mathlib.Core.List.{reverse, reverse-append, reverse-reverse}
use libtrp.Pack.Encode.{uvar_len, uvar_len_loop, le_bytes}
use libtrp.Pack.Decode.{be_value}

-- The number that bytes stand for, the first being the lowest.
unfoldable pub le_value : List ℕ → ℕ
le_value [] = 0
le_value (b ∷ bs) = b + 256 * le_value bs

-- The number that bytes stand for, the last being the lowest, behind the digits of `n`.
unfoldable pub be_fold : ℕ → List ℕ → ℕ
be_fold n [] = n
be_fold n (b ∷ bs) = be_fold (256 * n + b) bs

abbrev pub AreBytes : List ℕ → Type 0
AreBytes [] = Unit
AreBytes (b ∷ bs) = (b < 256) × AreBytes bs

pub length-le_bytes : (i n : ℕ) → length (le_bytes i n) ≡ i
unfolding le_bytes
length-le_bytes zero n = refl
length-le_bytes (suc i) n = ap suc (length-le_bytes i (n >>> 8))

byte : (n : ℕ) → bit_and 0xff n ≡ n % 256
byte n = bit_and_mask 8 n

pub le_bytes-AreBytes : (i n : ℕ) → AreBytes (le_bytes i n)
unfolding le_bytes
le_bytes-AreBytes zero n = tt
le_bytes-AreBytes (suc i) n = (omega (arith, byte n), le_bytes-AreBytes i (n >>> 8))

-- The bytes that `trip_pack` writes stand for the number, if there are enough of them.
pub le_value-le_bytes : (i n : ℕ) → n < 256 ^ i → le_value (le_bytes i n) ≡ n
unfolding le_bytes le_value
le_value-le_bytes zero n h = omega arith
le_value-le_bytes (suc i) n h =
    omega (arith, byte n, le_value-le_bytes i (n >>> 8) (omega (arith, pow-suc 256 i)))

pow-le_of_div : (k n : ℕ) → 0 < n → (0 < k → 256 ^ (k - 1) ≤ n / 256) → 256 ^ k ≤ n
pow-le_of_div zero n h low = omega arith
pow-le_of_div (suc k) n h low =
    let e : suc k - 1 ≡ k = omega arith in
    omega (arith, pow-suc 256 k, subst (λ j. 256 ^ j ≤ n / 256) e (low (omega arith)))

-- `_trip_uvar_len` counts the bytes of its argument: enough, and not one more than needed.
pub uvar_len_loop_bounds :
    (fuel n len : ℕ)
    → n < 256 ^ fuel
    → (k : ℕ) × (uvar_len_loop fuel n len ≡ len + k)
      × (k ≤ fuel)
      × (n < 256 ^ k)
      × (0 < k → 256 ^ (k - 1) ≤ n)
unfolding uvar_len_loop
uvar_len_loop_bounds zero n len h = (0, omega arith, omega arith, h, omega arith)
uvar_len_loop_bounds (suc fuel) n len h = elim (Bool-cases (n == 0)) [
  | inl e ↦ (0, rw e (omega arith), omega arith, ground arith, λ p. absurd (omega arith))
  | inr e ↦
      let (k, ek, le, up, low) =
        uvar_len_loop_bounds fuel (n >>> 8) (len + 1) (omega (arith, pow-suc 256 fuel)) in
      (
        suc k,
        rw e (omega arith),
        omega arith,
        omega (arith, pow-suc 256 k),
        λ p.
            subst (λ j. 256 ^ j ≤ n) (sym (sub-one (suc k))) (pow-le_of_div k n (ground arith) low),
      )
]

pred-fits : (n a w : ℕ) → 0 < a → (256 * n + 256) * a ≤ w → n * 256 < w
pred-fits n zero w h le = elim h [ ]
pred-fits n (suc a) w h le = omega arith

-- The reader folds its bytes, as long as they fit the word.
pub be_value-be_fold :
    (w l n : ℕ) (bs r : List ℕ)
    → AreBytes bs
    → length bs ≡ l
    → (n + 1) * 256 ^ l ≤ 2 ^ w
    → be_value w l n (bs ++ r) ≡ some (be_fold n bs)
unfolding be_value be_fold
be_value-be_fold w zero n [] r ab e h = refl
be_value-be_fold w zero n (b ∷ bs) r ab e h = absurd (omega arith)
be_value-be_fold w (suc l) n [] r ab e h = absurd (omega arith)
be_value-be_fold w (suc l) n (b ∷ bs) r ab e h =
    let one : 0 < 256 ^ l = one-le-pow l 256 (omega arith) in
    let room : (256 * n + 256) * 256 ^ l ≤ 2 ^ w =
      omega (arith, ap (λ (t : ℕ). (n + 1) * t) (pow-suc 256 l)) in
    let fits : n * 256 < 2 ^ w = pred-fits n (256 ^ l) (2 ^ w) one room in
    let digit : bit_xor (n <<< 8 % 2 ^ w) b ≡ 256 * n + b =
      rw (mod-eq_of_lt fits, bit_xor_fields 8 n b ab.0) (omega arith) in
    rw digit (
      be_value-be_fold w l (256 * n + b) bs r ab.1 (omega arith)
        (le_trans (mul-le-mul_right (256 ^ l) (omega arith)) room))

-- Read the other way, the bytes are those of the reader.
be_fold-append : (n : ℕ) (bs cs : List ℕ) → be_fold n (bs ++ cs) ≡ be_fold (be_fold n bs) cs
unfolding be_fold
be_fold-append n [] cs = refl
be_fold-append n (b ∷ bs) cs = be_fold-append (256 * n + b) bs cs

pub be_fold-reverse : (bs : List ℕ) → be_fold 0 (reverse bs) ≡ le_value bs
unfolding be_fold le_value
be_fold-reverse [] = refl
be_fold-reverse (b ∷ bs) =
    ap (be_fold 0) (reverse-append (b ∷ []) bs)
    ∙ be_fold-append 0 (reverse bs) (b ∷ [])
    ∙ omega (arith, be_fold-reverse bs)

-- `_trip_uvar_len` of 64 bits: enough bytes, at most eight, and the last is not idle.
pub uvar_len_bounds :
    (n : ℕ)
    → n < 2 ^ 64
    → (n < 256 ^ uvar_len n) × (uvar_len n ≤ 8) × (0 < uvar_len n → 256 ^ (uvar_len n - 1) ≤ n)
unfolding uvar_len
uvar_len_bounds n h =
    let (k, e, le, up, low) = uvar_len_loop_bounds 8 n 0 h in
    let same : uvar_len_loop 8 n 0 ≡ k = omega (arith, e) in
    (
      subst (λ j. n < 256 ^ j) (sym same) up,
      omega (arith, same),
      subst (λ j. 0 < j → 256 ^ (j - 1) ≤ n) (sym same) low,
    )

pub uvar_len-le : (w n : ℕ) → w ≤ 8 → n < 256 ^ w → uvar_len n ≤ w
uvar_len-le w n le h = elim (dec_lt w (uvar_len n)) [
  | no p ↦ omega arith
  | yes p ↦
      let big : n < 2 ^ 64 = lt_of_lt_of_le h (pow-le-pow_right {n = 256} (omega arith) le) in
      absurd (
        omega (
          arith,
          (uvar_len_bounds n big).2 (omega arith),
          pow-le-pow_right {n = 256} (omega arith) {i = w} {j = uvar_len n - 1} (omega arith),
        ))
]

pub be_fold-reverse' : (bs : List ℕ) → be_fold 0 bs ≡ le_value (reverse bs)
be_fold-reverse' bs = ap (be_fold 0) (sym (reverse-reverse bs)) ∙ be_fold-reverse (reverse bs)
