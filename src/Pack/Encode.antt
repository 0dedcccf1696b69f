-- ===== src/Pack/Encode.antt =====
-- src/pack.c: `trip_pack_len`, `_trip_uvar_len` and `trip_pack`.
pub mod Safety
pub mod Bounds
pub mod Total
use libtrp.Base.{
  ℕ, zero, suc, ◌+◌, ◌-◌, ◌*◌, ◌/◌, ◌%◌, ◌^◌, ◌≤◌, ◌<◌, bit_and, Bool, Option, none, some,
}
use libtrp.Base.{List, [], ◌∷◌, ◌++◌, length, take, drop, replicate, u8, u32, u64, ◌>>>◌}
use libtrp.Base.{ltb, leb, ◌==◌, if◌then◌else◌}
use libtrp.Pack.Word.{packi16, packi32, packi64}
use libtrp.Pack.Format.{
  Spec, seal_open, seal_close, box_open, box_close, sign_open, sign_close, nonce, key, binary, int8,
  uint8, int16, uint16, int32, uint32, int64, uint64, pointer, var32, var64, other, Arg, word,
  block, Sodium,
}

-- `TRIPPACK_MAX_VAR` and `TRIPPACK_MAX_DVAR`
abbrev pub max_var : ℕ
max_var = 4

abbrev pub max_dvar : ℕ
max_dvar = 8

-- `while (n) { ++len; n = n >> 8; }`
unfoldable pub uvar_len_loop : ℕ → ℕ → ℕ → ℕ
uvar_len_loop zero n len = len
uvar_len_loop (suc fuel) n len =
    let rest = uvar_len_loop fuel (n >>> 8) (len + 1) in if n == 0 then len else rest

-- `_trip_uvar_len`. A `uint64_t` is zero after at most eight rounds.
unfoldable pub uvar_len : ℕ → ℕ
unfolding uvar_len_loop
uvar_len n = uvar_len_loop 8 n 0

-- `for (; i; --i, n = n >> 8, ++buf) *buf = 0xFF & n;`
unfoldable pub le_bytes : ℕ → ℕ → List ℕ
le_bytes zero n = []
le_bytes (suc i) n = bit_and 0xff n ∷ le_bytes i (n >>> 8)

-- What `va_arg` has consumed, where the call is, and what it has written.
pub record Packer : Type 0 where
  -- the parameter `cap`, and `size`
  pub cap : ℕ
  pub size : ℕ
  -- the caller's storage before and from the current `buf`
  pub out : List ℕ
  pub rest : List ℕ
  -- `sigstart` and `cryptstart`, as offsets into the storage
  pub sigstart : ℕ
  pub cryptstart : ℕ
  pub args : List Arg

-- `fault` is undefined behaviour: an access out of bounds or a `va_arg` that does not fit.
pub data Outcome : Type 0 where
  next : Packer → Outcome
  npos : Packer → Outcome
  fault : Outcome

abbrev pub and_then : Outcome → (Packer → Outcome) → Outcome
and_then (next p) k = k p
and_then (npos p) k = npos p
and_then fault k = fault

-- `size += n; if (size > cap) { size = NPOS; goto end; }`
unfoldable pub reserve : ℕ → Packer → Outcome
reserve n p =
    let size = u64 (p.size + n) in
    if ltb p.cap size then npos p else next (record p { size = size })

-- Bytes stored at `buf`, which moves behind them.
unfoldable pub emit : List ℕ → Packer → Outcome
emit bytes p =
    if leb (length bytes) (length p.rest)
    then next (record p { out = p.out ++ bytes; rest = drop (length bytes) p.rest })
    else fault

-- `va_arg` of a number, and of a pointer.
unfoldable pub on_word : List Arg → Packer → (ℕ → Packer → Outcome) → Outcome
on_word (word n ∷ tl) p k = k n (record p { args = tl })
on_word _ p k = fault

unfoldable pub on_block : List Arg → Packer → (Option (List ℕ) → Packer → Outcome) → Outcome
on_block (block b ∷ tl) p k = k b (record p { args = tl })
on_block _ p k = fault

unfoldable pub with_word : Packer → (ℕ → Packer → Outcome) → Outcome
unfolding on_word
with_word p k = on_word p.args p k

unfoldable pub with_block : Packer → (Option (List ℕ) → Packer → Outcome) → Outcome
unfolding on_block
with_block p k = on_block p.args p k

-- `memcpy(buf, source, n)`
unfoldable pub copy : ℕ → List ℕ → Packer → Outcome
copy n source p = if leb n (length source) then emit (take n source) p else fault

-- `buf += n` over bytes that are not written yet.
unfoldable pub skip : ℕ → Packer → Outcome
unfolding emit
skip n p = if leb n (length p.rest) then emit (take n p.rest) p else fault

-- `memset(cryptstart, 0, n)`
unfoldable pub clear_at : ℕ → ℕ → Packer → Outcome
clear_at start n p =
    let whole = p.out ++ p.rest in
    let cleared = take start whole ++ (replicate n 0 ++ drop (start + n) whole) in
    let pos = length p.out in
    if leb (start + n) (length whole)
    then next (record p { out = take pos cleared; rest = drop pos cleared })
    else fault

-- A block that the caller gives, or zeroes for NULL.
unfoldable pub block_or_zeros : ℕ → Packer → Outcome
unfolding reserve with_block emit copy
block_or_zeros n p = and_then (reserve n p) λ p.
    with_block p λ b p. elim b [ none ↦ emit (replicate n 0) p | some source ↦ copy n source p ]

-- A number in a field of fixed width.
unfoldable pub fixed : ℕ → (ℕ → List ℕ) → Packer → Outcome
unfolding reserve with_word emit
fixed n bytes p = and_then (reserve n p) λ p. with_word p λ v p. emit (bytes v) p

-- A number behind the count of its bytes; `w` is the width of the argument's type.
unfoldable pub variable : ℕ → Packer → Outcome
unfolding reserve with_word emit
variable w p = with_word p λ v p.
    let v = v % 2 ^ w in
    let i = uvar_len v in and_then (reserve (i + 1) p) λ p. emit (u8 i ∷ le_bytes i v) p

-- `case 'b'`. The sum `i + 1 + rlen` is of `uint32_t`.
unfoldable pub binary_string : Packer → Outcome
unfolding reserve with_word with_block emit copy
binary_string p = with_word p λ v p. with_block p λ raw p.
    let rlen = u32 v in
    let i = uvar_len rlen in
    and_then (reserve (u32 (i + 1 + rlen)) p) λ p. and_then (emit (u8 i ∷ le_bytes i rlen) p) λ p.
      if rlen == 0 then next p else elim raw [ none ↦ fault | some source ↦ copy rlen source p ]

module _ (sod : Sodium) where
  -- `case 'S'`: the signature covers what was written from `sigstart` on.
  unfoldable pub signature : Packer → Outcome
  unfolding reserve with_block emit
  signature p = and_then (reserve sod.sign_bytes p) λ p. with_block p λ k p. elim k [
    | none ↦ emit (replicate sod.sign_bytes 0) p
    | some sk ↦ emit (sod.sign_detached (drop p.sigstart p.out) sk) p
  ]

  -- `case 'o'`
  unfoldable pub seal : Packer → Outcome
  unfolding reserve with_block skip
  seal p =
      and_then (reserve sod.seal_bytes p)
        λ p. with_block p λ k p. skip sod.seal_bytes (record p { cryptstart = length p.out })

  -- One round of the loop of `trip_pack`.
  unfoldable pub step : Spec → Packer → Outcome
  unfolding signature seal block_or_zeros fixed variable binary_string clear_at
  step seal_open p = seal p
  step seal_close p = clear_at p.cryptstart sod.seal_bytes p
  step box_open p = next (record p { cryptstart = length p.out })
  step box_close p = next p
  step sign_open p = next (record p { sigstart = length p.out })
  step sign_close p = signature p
  step nonce p = block_or_zeros sod.nonce_bytes p
  step key p = block_or_zeros sod.key_bytes p
  step binary p = binary_string p
  step int8 p = fixed 1 (λ v. u8 v ∷ []) p
  step uint8 p = fixed 1 (λ v. u8 v ∷ []) p
  step int16 p = fixed 2 packi16 p
  step uint16 p = fixed 2 packi16 p
  step int32 p = fixed 4 packi32 p
  step uint32 p = fixed 4 packi32 p
  step int64 p = fixed 8 packi64 p
  step uint64 p = fixed 8 packi64 p
  step pointer p = npos p
  step var32 p = variable 32 p
  step var64 p = variable 64 p
  step other p = npos p

  unfoldable pub run : List Spec → Packer → Outcome
  run [] p = next p
  run (f ∷ fs) p = and_then (step f p) (run fs)

  -- `trip_pack(cap, buf, format, ...)` on the caller's `storage` from `buf` on. The returned length
  -- is `size` of a `next`, and NPOS of an `npos`.
  unfoldable pub trip_pack : ℕ → List ℕ → List Spec → List Arg → Outcome
  trip_pack cap storage format args = run format (record {
    cap = cap;
    size = 0;
    out = [];
    rest = storage;
    sigstart = 0;
    cryptstart = 0;
    args = args;
  })

  -- `trip_pack_len`. The sum is of `unsigned int`; a format is far too short for it to wrap.
  unfoldable pub field_len : Spec → ℕ
  field_len seal_open = sod.seal_bytes
  field_len box_open = sod.mac_bytes
  field_len sign_open = sod.sign_bytes
  field_len nonce = sod.nonce_bytes
  field_len key = sod.key_bytes
  field_len int8 = 1
  field_len uint8 = 1
  field_len int16 = 2
  field_len uint16 = 2
  field_len int32 = 4
  field_len uint32 = 4
  field_len int64 = 8
  field_len uint64 = 8
  field_len var32 = 1 + max_var
  field_len var64 = 1 + max_dvar
  field_len _ = 0

  unfoldable pub pack_len_loop : ℕ → List Spec → ℕ
  unfolding field_len
  pack_len_loop len [] = len
  pack_len_loop len (f ∷ fs) = pack_len_loop (u32 (len + field_len f)) fs

  unfoldable pub trip_pack_len : List Spec → ℕ
  unfolding pack_len_loop
  trip_pack_len format = pack_len_loop 0 format
