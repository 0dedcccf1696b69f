-- ===== src/Pack/Swap.antt =====
-- src/pack.c: what comes back of a variable field. `trip_pack` writes its bytes low byte first, and
-- `trip_unpack` reads them high byte first.
use native.Mathlib.Nat.{mod-eq_of_lt, pow-le-pow_right}
use mathlib.Core.Path.{subst}
use native.Mathlib.Decide.{dec_lt}
use mathlib.Core.List.{reverse}
use libtrp.Base.{
  ℕ, zero, suc, ◌+◌, ◌*◌, ◌/◌, ◌%◌, ◌^◌, ◌≤◌, ◌<◌, ◌≡◌, ◌↔◌, ◌⊎◌, inl, inr, refl, sym, ◌∙◌, ap,
  arith,
}
use libtrp.Base.{List, [], ◌∷◌, length, drop, u8, append-nil, some, bit_and, bit_and_mask}
use libtrp.Pack.Format.{var64, word, Sodium}
use libtrp.Pack.Encode
use libtrp.Pack.Encode.{Packer, uvar_len, le_bytes, trip_pack}
use libtrp.Pack.Decode
use libtrp.Pack.Decode.{Unpacker, number, be_value, trip_unpack}
use libtrp.Pack.Varint.{
  le_value, be_fold, be_fold-reverse', length-le_bytes, le_bytes-AreBytes, uvar_len_bounds,
  uvar_len-le, be_value-be_fold,
}

-- The significant bytes of a number, read in the opposite order.
unfoldable pub swap_bytes : ℕ → ℕ
swap_bytes n = le_value (reverse (le_bytes (uvar_len n) n))

-- what the packer writes
abbrev field : ℕ → List ℕ
field n = u8 (uvar_len n) ∷ le_bytes (uvar_len n) n

abbrev packed : ℕ → List ℕ → Packer
packed n storage = record {
  cap = 9;
  size = uvar_len n + 1;
  out = field n;
  rest = drop (length (field n)) storage;
  sigstart = 0;
  cryptstart = 0;
  args = [];
}

trip_pack-packed :
    (sod : Sodium) (n : ℕ) (storage : List ℕ)
    → n < 2 ^ 64
    → 9 ≤ length storage
    → trip_pack sod 9 storage (var64 ∷ []) (word n ∷ []) ≡ Encode.next (packed n storage)
unfolding trip_pack Encode.run Encode.step
trip_pack-packed sod n storage h le =
    rw (mod-eq_of_lt h) (ground (arith, (uvar_len_bounds n h).1, length-le_bytes (uvar_len n) n))

abbrev unpacked : ℕ → Unpacker
unpacked n = record {
  blen = uvar_len n + 1;
  len = uvar_len n + 1;
  pos = 0 + 1 + uvar_len n;
  rest = drop (uvar_len n) (le_bytes (uvar_len n) n);
  stored = number (be_fold 0 (le_bytes (uvar_len n) n)) ∷ [];
}

read_back :
    (n : ℕ)
    → n < 2 ^ 64
    → be_value 64 (uvar_len n) 0 (le_bytes (uvar_len n) n)
      ≡ some (be_fold 0 (le_bytes (uvar_len n) n))
read_back n h =
    let bs = le_bytes (uvar_len n) n in
    let room : (0 + 1) * 256 ^ uvar_len n ≤ 2 ^ 64 =
      omega (arith, pow-le-pow_right {n = 256} (omega arith) (uvar_len_bounds n h).1) in
    ap (be_value 64 (uvar_len n) 0) (sym (append-nil bs))
    ∙ be_value-be_fold 64 (uvar_len n) 0 bs [] (le_bytes-AreBytes (uvar_len n) n)
        (length-le_bytes (uvar_len n) n) room

trip_unpack-unpacked :
    (sod : Sodium) (n : ℕ)
    → n < 2 ^ 64
    → trip_unpack sod (uvar_len n + 1) (field n) (var64 ∷ []) ≡ Decode.next (unpacked n)
unfolding trip_unpack Decode.run Decode.step
trip_unpack-unpacked sod n h =
    ground (arith, (uvar_len_bounds n h).1, read_back n h, length-le_bytes (uvar_len n) n)

-- A sequence number, or any `W` field, that `trip_pack` writes and `trip_unpack` reads comes back with
-- its significant bytes in the opposite order: both calls succeed, on every storage of nine bytes.
pub trip_unpack-trip_pack_var64 :
    (sod : Sodium) (n : ℕ) (storage : List ℕ)
    → n < 2 ^ 64
    → 9 ≤ length storage
    → (p : Packer) × (u : Unpacker) × (trip_pack sod 9 storage (var64 ∷ []) (word n ∷ [])
        ≡ Encode.next p)
      × (trip_unpack sod p.size p.out (var64 ∷ []) ≡ Decode.next u)
      × (u.len ≡ p.size)
      × (u.stored ≡ number (swap_bytes n) ∷ [])
unfolding swap_bytes
trip_unpack-trip_pack_var64 sod n storage h le = (
  packed n storage,
  unpacked n,
  trip_pack-packed sod n storage h le,
  trip_unpack-unpacked sod n h,
  refl,
  ap (λ v. number v ∷ []) (be_fold-reverse' (le_bytes (uvar_len n) n)),
)

uvar_len_small : (n : ℕ) → 0 < n → n < 256 → uvar_len n ≡ 1
uvar_len_small n pos h =
    let most = uvar_len-le 1 n (omega arith) (omega arith) in
    let (up, le, low) = uvar_len_bounds n (omega arith) in
    elim (dec_lt 0 (uvar_len n)) [
      | yes q ↦ omega arith
      | no q ↦
          let none_left : uvar_len n ≡ 0 = omega arith in
          absurd (omega (arith, subst (λ k. n < 256 ^ k) none_left up))
    ]

uvar_len_two : (n : ℕ) → 256 ≤ n → n < 2 ^ 16 → uvar_len n ≡ 2
uvar_len_two n lo h =
    let most = uvar_len-le 2 n (omega arith) (omega arith) in
    let (up, le, low) = uvar_len_bounds n (omega arith) in
    elim (dec_lt 1 (uvar_len n)) [
      | yes q ↦ omega arith
      | no q ↦ absurd (
          omega (
            arith,
            up,
            pow-le-pow_right {n = 256} (omega arith) {i = uvar_len n} {j = 1} (omega arith),
          ))
    ]

byte_of : (n : ℕ) → bit_and 0xff n ≡ n % 256
byte_of n = bit_and_mask 8 n

swap_bytes_two : (n : ℕ) → uvar_len n ≡ 2 → n < 2 ^ 16 → swap_bytes n ≡ n / 256 + 256 * (n % 256)
unfolding swap_bytes le_bytes le_value
swap_bytes_two n e h = rw e (omega (arith, byte_of n, byte_of (n / 256)))

swap_bytes_small : (n : ℕ) → n < 256 → swap_bytes n ≡ n
unfolding swap_bytes le_bytes le_value uvar_len Encode.uvar_len_loop
swap_bytes_small zero h = refl
swap_bytes_small (suc n) h =
    let e : uvar_len (suc n) ≡ 1 = uvar_len_small (suc n) (omega arith) h in
    ap (λ k. le_value (reverse (le_bytes k (suc n)))) e ∙ omega (arith, byte_of (suc n))

-- Below 2^16 the opposite order gives the number back exactly if it has one significant byte, or two
-- equal ones.
pub swap_bytes-eq_iff :
    (n : ℕ) → n < 2 ^ 16 → (swap_bytes n ≡ n) ↔ ((n < 256) ⊎ (n % 256 ≡ n / 256))
swap_bytes-eq_iff n h = elim (dec_lt n 256) [
  | yes p ↦ ((λ e. inl p), (λ d. swap_bytes_small n p))
  | no p ↦
      let two = swap_bytes_two n (uvar_len_two n (omega arith) h) h in
      ((λ e. inr (omega (arith, two))), (λ d. ground (arith, two)))
]
