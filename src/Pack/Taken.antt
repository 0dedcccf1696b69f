-- ===== src/Pack/Taken.antt =====
-- src/pack.c: one plain field in `trip_unpack`.
use mathlib.Core.Option
use native.Mathlib.Nat.{mod-eq_of_lt, mod-lt, pow-le-pow_right}
use libtrp.Base.{
  ℕ, ◌+◌, ◌%◌, ◌^◌, ◌≤◌, ◌<◌, ◌≡◌, refl, sym, ap, ◌∙◌, arith, Option, some, List, [], ◌∷◌, ◌++◌,
  length, take, drop, replicate, length-replicate, length-append, length-take, take-length_append,
  drop-length_append, u8, u16, u32, u64,
}
use libtrp.Pack.Word.{
  packi16, packi32, packi64, signed, unpacku16, unpacku32, unpacku64, unpacki16, unpacki32,
  unpacki64,
}
use libtrp.Pack.Word.Laws.{
  unpacku16-packi16, unpacku32-packi32, unpacku64-packi64, unpacki16-packi16_word,
  unpacki32-packi32_word, unpacki64-packi64_word,
}
use libtrp.Pack.Format.{Spec, Arg, Sodium}
use libtrp.Pack.Encode.{uvar_len, le_bytes}
use libtrp.Pack.Decode
use libtrp.Pack.Decode.{Unpacker, Stored, number, integer, copied, be_value, field, first, block_of}
use libtrp.Pack.Varint.{
  be_fold-reverse', length-le_bytes, le_bytes-AreBytes, uvar_len_bounds, uvar_len-le,
  be_value-be_fold,
}
use libtrp.Pack.Swap.{swap_bytes}
use libtrp.Pack.Fields.{
  Carries, var_bytes, bytes, value, nonce_null, nonce_of, key_null, key_of, int8_of, uint8_of,
  int16_of, uint16_of, int32_of, uint32_of, int64_of, uint64_of, var32_of, var64_of,
}

-- The unpacker in front of the bytes `bs`, and behind them.
abbrev pub facing : Unpacker → List ℕ → Unpacker
facing u bs = record u { rest = bs }

abbrev pub took : ℕ → Stored → List ℕ → Unpacker → Unpacker
took n v r u = record u { len = u.len + n; pos = u.pos + n; rest = r; stored = u.stored ++ v ∷ [] }

abbrev pub Holds : ℕ → Unpacker → Type 0
Holds n u = (u.len + n ≤ u.blen) × (u.blen < 2 ^ 63)

field-took {ℓ} :
    {A : Type ℓ} (n : ℕ) (reader : List ℕ → Option A) (as_stored : A → Stored) (v : A)
    (bs r : List ℕ) (u : Unpacker)
    → reader (bs ++ r) ≡ some v
    → length bs ≡ n
    → Holds (length bs) u
    → field n reader as_stored (facing u (bs ++ r))
      ≡ Decode.next (took (length bs) (as_stored v) r u)
unfolding field
field-took n reader as_stored v bs r u e len h =
    let behind : drop n (bs ++ r) ≡ r =
      ap (λ k. drop k (bs ++ r)) (sym len) ∙ drop-length_append bs r in
    ground (arith, e, behind, len)

block_of-append : (n : ℕ) (bs r : List ℕ) → length bs ≡ n → block_of n (bs ++ r) ≡ some bs
unfolding block_of
block_of-append n bs r e =
    let whole : take n (bs ++ r) ≡ bs =
      ap (λ k. take k (bs ++ r)) (sym e) ∙ take-length_append bs r in
    ground (arith, whole, length-append bs r)

-- A value of `w` bits in as many bytes as it needs.
be_value-le_bytes :
    (w n : ℕ) (r : List ℕ)
    → n < 2 ^ 64
    → 256 ^ uvar_len n ≤ 2 ^ w
    → be_value w (uvar_len n) 0 (le_bytes (uvar_len n) n ++ r) ≡ some (swap_bytes n)
unfolding swap_bytes
be_value-le_bytes w n r h room =
    let bs = le_bytes (uvar_len n) n in
    be_value-be_fold w (uvar_len n) 0 bs r (le_bytes-AreBytes (uvar_len n) n)
      (length-le_bytes (uvar_len n) n) (omega (arith, room))
    ∙ ap some (be_fold-reverse' bs)

variable-took :
    (w most n : ℕ) (r : List ℕ) (u : Unpacker)
    → n < 2 ^ 64
    → 256 ^ uvar_len n ≤ 2 ^ w
    → uvar_len n ≤ most
    → Holds (length (var_bytes n)) u
    → Decode.variable w most (facing u (var_bytes n ++ r))
      ≡ Decode.next (took (length (var_bytes n)) (number (swap_bytes n)) r u)
unfolding Decode.variable
variable-took w most n r u h room few fits =
    let bs = le_bytes (uvar_len n) n in
    let count = uvar_len_bounds n h in
    let len : length bs ≡ uvar_len n = length-le_bytes (uvar_len n) n in
    let byte : u8 (uvar_len n) ≡ uvar_len n = mod-eq_of_lt (omega (arith, count.1)) in
    let behind : drop (uvar_len n) (bs ++ r) ≡ r =
      ap (λ k. drop k (bs ++ r)) (sym len) ∙ drop-length_append bs r in
    ground (arith, be_value-le_bytes w n r h room, behind, len, byte)

-- A variable value of at most `most` bytes.
var-took :
    (w most v : ℕ) (r : List ℕ) (u : Unpacker)
    → most ≤ 8
    → 256 ^ most ≡ 2 ^ w
    → v < 2 ^ w
    → Holds (length (var_bytes v)) u
    → Decode.variable w most (facing u (var_bytes v ++ r))
      ≡ Decode.next (took (length (var_bytes v)) (number (swap_bytes v)) r u)
var-took w most v r u le e h fits =
    let few = uvar_len-le most v le (omega (arith, h, e)) in
    let whole = pow-le-pow_right {n = 256} (omega arith) le in
    let room = pow-le-pow_right {n = 256} (omega arith) few in
    variable-took w most v r u (omega (arith, h, e, whole)) (omega (arith, room, e)) few fits

block-took :
    (n : ℕ) (bs r : List ℕ) (u : Unpacker)
    → length bs ≡ n
    → Holds (length bs) u
    → field n (block_of n) copied (facing u (bs ++ r))
      ≡ Decode.next (took (length bs) (copied bs) r u)
block-took n bs r u e h = field-took n (block_of n) copied bs bs r u (block_of-append n bs r e) e h

module _ (sod : Sodium) where
  -- One round of `trip_unpack` at the bytes of a plain field.
  pub step-took :
      {f : Spec} {a : Arg} (r : List ℕ) (u : Unpacker)
      → Carries sod f a
      → Holds (length (bytes sod f a)) u
      → Decode.step sod f (facing u (bytes sod f a ++ r))
        ≡ Decode.next (took (length (bytes sod f a)) (value sod f a) r u)
  unfolding Decode.step
  step-took r u (int8_of n) h =
      field-took 1 (λ buf. Option.map (signed 8) (first buf)) integer (signed 8 (u8 n)) (u8 n ∷ [])
        r u (unfold first in refl) refl h
  step-took r u (uint8_of n) h =
      field-took 1 first number (u8 n) (u8 n ∷ []) r u (unfold first in refl) refl h
  step-took r u (int16_of n) h =
      field-took 2 unpacki16 integer (signed 16 (u16 n)) (packi16 n) r u
        (unpacki16-packi16_word n r) (unfold packi16 in refl) h
  step-took r u (uint16_of n) h =
      field-took 2 unpacku16 number (u16 n) (packi16 n) r u (unpacku16-packi16 n r)
        (unfold packi16 in refl) h
  step-took r u (int32_of n) h =
      field-took 4 unpacki32 integer (signed 32 (u32 n)) (packi32 n) r u
        (unpacki32-packi32_word n r) (unfold packi32 in refl) h
  step-took r u (uint32_of n) h =
      field-took 4 unpacku32 number (u32 n) (packi32 n) r u (unpacku32-packi32 n r)
        (unfold packi32 in refl) h
  step-took r u (int64_of n) h =
      field-took 8 unpacki64 integer (signed 64 (u64 n)) (packi64 n) r u
        (unpacki64-packi64_word n r) (unfold packi64 in refl) h
  step-took r u (uint64_of n) h =
      field-took 8 unpacku64 number (u64 n) (packi64 n) r u (unpacku64-packi64 n r)
        (unfold packi64 in refl) h
  step-took r u (var32_of n) h =
      var-took 32 4 (n % 2 ^ 32) r u (omega arith) refl (mod-lt n (omega arith)) h
  step-took r u (var64_of n) h =
      var-took 64 8 (n % 2 ^ 64) r u (omega arith) refl (mod-lt n (omega arith)) h
  step-took r u nonce_null h =
      block-took sod.nonce_bytes (replicate sod.nonce_bytes 0) r u
        (length-replicate sod.nonce_bytes 0) h
  step-took r u (nonce_of s le) h =
      block-took sod.nonce_bytes (take sod.nonce_bytes s) r u
        (omega (arith, length-take sod.nonce_bytes s)) h
  step-took r u key_null h =
      block-took sod.key_bytes (replicate sod.key_bytes 0) r u (length-replicate sod.key_bytes 0) h
  step-took r u (key_of s le) h =
      block-took sod.key_bytes (take sod.key_bytes s) r u
        (omega (arith, length-take sod.key_bytes s)) h
