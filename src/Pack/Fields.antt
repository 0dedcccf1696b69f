-- ===== src/Pack/Fields.antt =====
-- src/pack.c: what `trip_pack` writes for one plain field, that is a number or a block, and what
-- `trip_unpack` stores for those bytes.
use libtrp.Base.{
  ℕ, ◌+◌, ◌%◌, ◌^◌, ◌≤◌, ◌<◌, ◌≡◌, refl, arith, Option, none, some, List, [], ◌∷◌, ◌++◌, length,
  take, drop, replicate, length-replicate, length-take, u8, u16, u32, u64,
}
use libtrp.Pack.Word.{packi16, packi32, packi64, signed}
use libtrp.Pack.Format.{
  Spec, nonce, key, int8, uint8, int16, uint16, int32, uint32, int64, uint64, var32, var64, Arg,
  word, block, Sodium,
}
use libtrp.Pack.Encode
use libtrp.Pack.Encode.{Packer, fixed, block_or_zeros, uvar_len, le_bytes}
use libtrp.Pack.Decode.{Stored, number, integer, copied}
use libtrp.Pack.Varint.{length-le_bytes}
use libtrp.Pack.Swap.{swap_bytes}

-- The bytes of a block, zeroes for NULL.
abbrev pub block_bytes : ℕ → Option (List ℕ) → List ℕ
block_bytes n none = replicate n 0
block_bytes n (some source) = take n source

-- A count, and so many bytes, the low one first.
abbrev pub var_bytes : ℕ → List ℕ
var_bytes n = u8 (uvar_len n) ∷ le_bytes (uvar_len n) n

-- A plain field with an argument that fits it.
pub data Carries (sod : Sodium) : Spec → Arg → Type 0 where
  nonce_null : Carries sod nonce (block none)
  nonce_of : (s : List ℕ) → sod.nonce_bytes ≤ length s → Carries sod nonce (block (some s))
  key_null : Carries sod key (block none)
  key_of : (s : List ℕ) → sod.key_bytes ≤ length s → Carries sod key (block (some s))
  int8_of : (n : ℕ) → Carries sod int8 (word n)
  uint8_of : (n : ℕ) → Carries sod uint8 (word n)
  int16_of : (n : ℕ) → Carries sod int16 (word n)
  uint16_of : (n : ℕ) → Carries sod uint16 (word n)
  int32_of : (n : ℕ) → Carries sod int32 (word n)
  uint32_of : (n : ℕ) → Carries sod uint32 (word n)
  int64_of : (n : ℕ) → Carries sod int64 (word n)
  uint64_of : (n : ℕ) → Carries sod uint64 (word n)
  var32_of : (n : ℕ) → Carries sod var32 (word n)
  var64_of : (n : ℕ) → Carries sod var64 (word n)

module _ (sod : Sodium) where
  -- The bytes of a field.
  abbrev pub bytes : Spec → Arg → List ℕ
  bytes nonce (block b) = block_bytes sod.nonce_bytes b
  bytes key (block b) = block_bytes sod.key_bytes b
  bytes int8 (word n) = u8 n ∷ []
  bytes uint8 (word n) = u8 n ∷ []
  bytes int16 (word n) = packi16 n
  bytes uint16 (word n) = packi16 n
  bytes int32 (word n) = packi32 n
  bytes uint32 (word n) = packi32 n
  bytes int64 (word n) = packi64 n
  bytes uint64 (word n) = packi64 n
  bytes var32 (word n) = var_bytes (n % 2 ^ 32)
  bytes var64 (word n) = var_bytes (n % 2 ^ 64)
  bytes _ _ = []

  -- What is stored for a field.
  abbrev pub value : Spec → Arg → Stored
  value nonce (block b) = copied (block_bytes sod.nonce_bytes b)
  value key (block b) = copied (block_bytes sod.key_bytes b)
  value int8 (word n) = integer (signed 8 (u8 n))
  value uint8 (word n) = number (u8 n)
  value int16 (word n) = integer (signed 16 (u16 n))
  value uint16 (word n) = number (u16 n)
  value int32 (word n) = integer (signed 32 (u32 n))
  value uint32 (word n) = number (u32 n)
  value int64 (word n) = integer (signed 64 (u64 n))
  value uint64 (word n) = number (u64 n)
  value var32 (word n) = number (swap_bytes (n % 2 ^ 32))
  value var64 (word n) = number (swap_bytes (n % 2 ^ 64))
  value _ _ = copied []

-- The packer after a field, and the unpacker.
abbrev pub wrote : List ℕ → Packer → Packer
wrote bs p = record p {
  size = p.size + length bs;
  out = p.out ++ bs;
  rest = drop (length bs) p.rest;
}

abbrev pub with_args : Packer → List Arg → Packer
with_args p args = record p { args = args }

-- There is room for the bytes.
abbrev pub Fits : List ℕ → Packer → Type 0
Fits bs p = (p.size + length bs ≤ p.cap) × (p.cap < 2 ^ 63) × (length bs ≤ length p.rest)

fixed-wrote :
    (n v : ℕ) (as_bytes : ℕ → List ℕ) (p : Packer) (tl : List Arg)
    → length (as_bytes v) ≡ n
    → Fits (as_bytes v) p
    → fixed n as_bytes (with_args p (word v ∷ tl))
      ≡ Encode.next (wrote (as_bytes v) (with_args p tl))
unfolding fixed
fixed-wrote n v as_bytes p tl e h = ground arith

block-wrote :
    (n : ℕ) (b : Option (List ℕ)) (p : Packer) (tl : List Arg)
    → length (block_bytes n b) ≡ n
    → Fits (block_bytes n b) p
    → block_or_zeros n (with_args p (block b ∷ tl))
      ≡ Encode.next (wrote (block_bytes n b) (with_args p tl))
unfolding block_or_zeros
block-wrote n none p tl e h = ground arith
block-wrote n (some source) p tl e h = ground (arith, length-take n source)

variable-wrote :
    (w v : ℕ) (p : Packer) (tl : List Arg)
    → Fits (var_bytes (v % 2 ^ w)) p
    → Encode.variable w (with_args p (word v ∷ tl))
      ≡ Encode.next (wrote (var_bytes (v % 2 ^ w)) (with_args p tl))
unfolding Encode.variable
variable-wrote w v p tl h = ground (arith, length-le_bytes (uvar_len (v % 2 ^ w)) (v % 2 ^ w))

module _ (sod : Sodium) where
  -- One round of `trip_pack` at a plain field.
  pub step-wrote :
      {f : Spec} {a : Arg} (p : Packer) (tl : List Arg)
      → Carries sod f a
      → Fits (bytes sod f a) p
      → Encode.step sod f (with_args p (a ∷ tl))
        ≡ Encode.next (wrote (bytes sod f a) (with_args p tl))
  unfolding Encode.step
  step-wrote p tl nonce_null h =
      block-wrote sod.nonce_bytes none p tl (length-replicate sod.nonce_bytes 0) h
  step-wrote p tl (nonce_of s le) h =
      block-wrote sod.nonce_bytes (some s) p tl (omega (arith, length-take sod.nonce_bytes s)) h
  step-wrote p tl key_null h =
      block-wrote sod.key_bytes none p tl (length-replicate sod.key_bytes 0) h
  step-wrote p tl (key_of s le) h =
      block-wrote sod.key_bytes (some s) p tl (omega (arith, length-take sod.key_bytes s)) h
  step-wrote p tl (int8_of n) h = fixed-wrote 1 n (λ v. u8 v ∷ []) p tl refl h
  step-wrote p tl (uint8_of n) h = fixed-wrote 1 n (λ v. u8 v ∷ []) p tl refl h
  step-wrote p tl (int16_of n) h = fixed-wrote 2 n packi16 p tl (unfold packi16 in refl) h
  step-wrote p tl (uint16_of n) h = fixed-wrote 2 n packi16 p tl (unfold packi16 in refl) h
  step-wrote p tl (int32_of n) h = fixed-wrote 4 n packi32 p tl (unfold packi32 in refl) h
  step-wrote p tl (uint32_of n) h = fixed-wrote 4 n packi32 p tl (unfold packi32 in refl) h
  step-wrote p tl (int64_of n) h = fixed-wrote 8 n packi64 p tl (unfold packi64 in refl) h
  step-wrote p tl (uint64_of n) h = fixed-wrote 8 n packi64 p tl (unfold packi64 in refl) h
  step-wrote p tl (var32_of n) h = variable-wrote 32 n p tl h
  step-wrote p tl (var64_of n) h = variable-wrote 64 n p tl h
