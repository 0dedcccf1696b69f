-- ===== src/Pack/Format.antt =====
-- src/pack.c and src/pack.h: the format characters, the arguments that `va_arg` hands out, and what
-- the codec uses of libsodium.
use libtrp.Base.{ℕ, ◌≤◌, ◌^◌, ◌≡◌, Option, List, ◌==◌, if◌then◌else◌, length}

-- One constructor for each `case` of the switches; `other` is `default`.
pub data Spec : Type 0 where
  seal_open seal_close box_open box_close sign_open sign_close nonce key binary : Spec
  int8 uint8 int16 uint16 int32 uint32 int64 uint64 pointer var32 var64 other : Spec

-- A character of a format.
unfoldable pub spec_of : ℕ → Spec
spec_of c =
    if c == b'o'
    then seal_open
    else if c == b'O'
    then seal_close
    else if c == b'e'
    then box_open
    else if c == b'E'
    then box_close
    else if c == b's'
    then sign_open
    else if c == b'S'
    then sign_close
    else if c == b'n'
    then nonce
    else if c == b'k'
    then key
    else if c == b'b'
    then binary
    else if c == b'c'
    then int8
    else if c == b'C'
    then uint8
    else if c == b'h'
    then int16
    else if c == b'H'
    then uint16
    else if c == b'i'
    then int32
    else if c == b'I'
    then uint32
    else if c == b'q'
    then int64
    else if c == b'Q'
    then uint64
    else if c == b'p'
    then pointer
    else if c == b'V'
    then var32
    else if c == b'W'
    then var64
    else other

-- An argument: the bit pattern of a number, or a pointer, NULL or to so many readable bytes.
pub data Arg : Type 0 where
  word : ℕ → Arg
  block : Option (List ℕ) → Arg

-- The sizes of libsodium's blocks, and its detached signature of a message under a secret key.
pub record Sodium : Type 0 where
  pub seal_bytes : ℕ
  pub mac_bytes : ℕ
  pub sign_bytes : ℕ
  pub nonce_bytes : ℕ
  pub key_bytes : ℕ
  pub sign_detached : List ℕ → List ℕ → List ℕ

-- What the documentation of libsodium says of them: each block is a few dozen bytes, a signature
-- always fills its own.
pub record IsSodium (sod : Sodium) : Type 0 where
  pub seal_small : sod.seal_bytes ≤ 2 ^ 16
  pub mac_small : sod.mac_bytes ≤ 2 ^ 16
  pub sign_small : sod.sign_bytes ≤ 2 ^ 16
  pub nonce_small : sod.nonce_bytes ≤ 2 ^ 16
  pub key_small : sod.key_bytes ≤ 2 ^ 16
  pub length-sign_detached : (m k : List ℕ) → length (sod.sign_detached m k) ≡ sod.sign_bytes
