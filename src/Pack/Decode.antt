-- ===== src/Pack/Decode.antt =====
-- src/pack.c: `trip_unpack`. What a call stores through its pointers is listed in order.
use libtrp.Base.{ℕ, zero, suc, ◌+◌, ◌%◌, ◌^◌, bit_xor, Option, none, some}
use libtrp.Base.{List, [], ◌∷◌, ◌++◌, length, take, drop, u64, ◌<<<◌}
use mathlib.Core.Option
use libtrp.Base.{ltb, leb, if◌then◌else◌}
use libtrp.Pack.Word.{
  Signed, signed, unpacku16, unpacku32, unpacku64, unpacki16, unpacki32, unpacki64,
}
use libtrp.Pack.Format.{
  Spec, seal_open, seal_close, nonce, key, binary, int8, uint8, int16, uint16, int32, uint32, int64,
  uint64, var32, var64, Sodium,
}
use libtrp.Pack.Encode.{max_var, max_dvar}

-- A stored value: a number, a signed number, a copied block, or a pointer into the buffer, as the
-- offset that it points at.
pub data Stored : Type 0 where
  number : ℕ → Stored
  integer : Signed → Stored
  copied : List ℕ → Stored
  at_offset : ℕ → Stored

pub record Unpacker : Type 0 where
  -- the parameter `blen`, and `len`
  pub blen : ℕ
  pub len : ℕ
  -- how far `buf` has moved, and the bytes from there on
  pub pos : ℕ
  pub rest : List ℕ
  pub stored : List Stored

-- `fault` is a read out of bounds. What was stored before an `npos` stays stored.
pub data Outcome : Type 0 where
  next : Unpacker → Outcome
  npos : List Stored → Outcome
  fault : Outcome

abbrev pub and_then : Outcome → (Unpacker → Outcome) → Outcome
and_then (next p) k = k p
and_then (npos s) k = npos s
and_then fault k = fault

-- `len += n; if (len > blen) { len = NPOS; goto end; }`
unfoldable pub claim : ℕ → Unpacker → Outcome
claim n p =
    let len = u64 (p.len + n) in
    if ltb p.blen len then npos p.stored else next (record p { len = len })

-- `buf += n`
unfoldable pub advance : ℕ → Unpacker → Unpacker
advance n p = record p { pos = p.pos + n; rest = drop n p.rest }

unfoldable pub store : Stored → Unpacker → Unpacker
store v p = record p { stored = p.stored ++ (v ∷ []) }

-- A read of `n` bytes, stored.
unfoldable pub read_as {ℓ} : {A : Type ℓ} → ℕ → Option A → (A → Stored) → Unpacker → Outcome
unfolding advance store
read_as n value as_stored p = elim value [
  | none ↦ fault
  | some v ↦ next (advance n (store (as_stored v) p))
]

-- `memcpy(raw, buf, n)`
unfoldable pub block_of : ℕ → List ℕ → Option (List ℕ)
block_of n buf = if leb n (length buf) then some (take n buf) else none

-- `*buf`
unfoldable pub first : List ℕ → Option ℕ
first [] = none
first (b ∷ _) = some b

-- `for (; index < l; ++index, ++buf) { n = n << 8; n ^= *buf; }` in `w` bits
unfoldable pub be_value : ℕ → ℕ → ℕ → List ℕ → Option ℕ
be_value w zero n buf = some n
be_value w (suc l) n [] = none
be_value w (suc l) n (b ∷ buf) = be_value w l (bit_xor (n <<< 8 % 2 ^ w) b) buf

-- A field of `n` bytes.
unfoldable pub field {ℓ} :
    {A : Type ℓ} → ℕ → (List ℕ → Option A) → (A → Stored) → Unpacker → Outcome
unfolding claim read_as
field n reader as_stored p = and_then (claim n p) λ p. read_as n (reader p.rest) as_stored p

-- `case 'V'` and `case 'W'` of `w` bits: `most` is the largest count that is allowed.
unfoldable pub variable : ℕ → ℕ → Unpacker → Outcome
unfolding claim first advance be_value read_as
variable w most p = and_then (claim 1 p) λ p. elim (first p.rest) [
  | none ↦ fault
  | some l ↦
      if ltb most l
      then npos p.stored
      else and_then (claim l p)
          λ p. let p = advance 1 p in read_as l (be_value w l 0 p.rest) number p
]

-- `case 'b'`: the length is stored, then a pointer to the first byte. `buf` is not moved behind them.
unfoldable pub binary_string : Unpacker → Outcome
unfolding variable store
binary_string p = and_then (claim 1 p) λ p. elim (first p.rest) [
  | none ↦ fault
  | some l ↦
      if ltb max_var l
      then npos p.stored
      else and_then (claim l p) λ p.
        let p = advance 1 p in
        elim (be_value 32 l 0 p.rest) [
          | none ↦ fault
          | some n ↦
              let p = advance l (store (number n) p) in
              and_then (claim n p) λ p. next (store (at_offset p.pos) p)
        ]
]

module _ (sod : Sodium) where
  -- One round of the loop of `trip_unpack`. It has no case for `e`, `E`, `s`, `S` and `p`.
  unfoldable pub step : Spec → Unpacker → Outcome
  unfolding variable binary_string field block_of advance
  step seal_open p = and_then (claim sod.seal_bytes p) λ p. next (advance sod.seal_bytes p)
  step seal_close p = next p
  step nonce p = field sod.nonce_bytes (block_of sod.nonce_bytes) copied p
  step key p = field sod.key_bytes (block_of sod.key_bytes) copied p
  step binary p = binary_string p
  step int8 p = field 1 (λ buf. Option.map (signed 8) (first buf)) integer p
  step uint8 p = field 1 first number p
  step int16 p = field 2 unpacki16 integer p
  step uint16 p = field 2 unpacku16 number p
  step int32 p = field 4 unpacki32 integer p
  step uint32 p = field 4 unpacku32 number p
  step int64 p = field 8 unpacki64 integer p
  step uint64 p = field 8 unpacku64 number p
  step var32 p = variable 32 max_var p
  step var64 p = variable 64 max_dvar p
  step _ p = npos p.stored

  unfoldable pub run : List Spec → Unpacker → Outcome
  run [] p = next p
  run (f ∷ fs) p = and_then (step f p) (run fs)

  -- `trip_unpack(blen, buf, format, ...)`. The returned length is `len` of a `next`, NPOS of an `npos`.
  unfoldable pub trip_unpack : ℕ → List ℕ → List Spec → Outcome
  trip_unpack blen buf format =
      run format (record { blen = blen; len = 0; pos = 0; rest = buf; stored = [] })
