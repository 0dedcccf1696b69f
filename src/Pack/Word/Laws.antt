-- ===== src/Pack/Word/Laws.antt =====
-- Each fixed-width writer is undone by its readers, unsigned and signed.
use libtrp.Base.{ℕ, ◌+◌, ◌-◌, ◌^◌, ◌*◌, ◌<◌, ◌≡◌, refl, ◌∙◌, some, List, ◌++◌}
use libtrp.Base.{bit_or, bit_or_fields, ap, arith, u8, u16, u32, u64, ◌<<<◌, ◌>>>◌}
use libtrp.Pack.Word.{packi16, packi32, packi64, Signed, pos, negsuc, signed}
use libtrp.Pack.Word.{unpacku16, unpacku32, unpacku64, unpacki16, unpacki32, unpacki64}

-- `|` adds, where the low `k` bits of the left side are clear and the right side fits them.
bit_or-add : (k q v r : ℕ) {x : ℕ} → x ≡ v → v ≡ q * 2 ^ k → r < 2 ^ k → bit_or x r ≡ v + r
bit_or-add k q v r e clear h = rw (e, clear) (bit_or_fields k q r h)

join_two : (a b : ℕ) → b < 256 → bit_or (a <<< 8) b ≡ a * 256 + b
join_two a b h = bit_or_fields 8 a b h

join_four :
    (a b c d : ℕ)
    → b < 256
    → c < 256
    → d < 256
    → bit_or (bit_or (bit_or (a <<< 24) (b <<< 16)) (c <<< 8)) d
      ≡ a * 2 ^ 24 + b * 2 ^ 16 + c * 2 ^ 8 + d
join_four a b c d hb hc hd =
    let j1 = bit_or-add 24 (a) (a <<< 24) (b <<< 16) refl (omega arith) (omega arith) in
    let j2 =
      bit_or-add 16 (a <<< 8 + b) (a <<< 24 + b <<< 16) (c <<< 8) j1 (omega arith) (omega arith) in
    bit_or-add 8 (a <<< 16 + b <<< 8 + c) (a <<< 24 + b <<< 16 + c <<< 8) (d) j2 (omega arith)
      (omega arith)

join_eight :
    (a b c d e f g h : ℕ)
    → b < 256
    → c < 256
    → d < 256
    → e < 256
    → f < 256
    → g < 256
    → h < 256
    → bit_or
        (bit_or
          (bit_or
            (bit_or
              (bit_or (bit_or (bit_or (a <<< 56) (b <<< 48)) (c <<< 40)) (d <<< 32))
              (e <<< 24))
            (f <<< 16))
          (g <<< 8))
        h
      ≡ a * 2 ^ 56 + b * 2 ^ 48 + c * 2 ^ 40 + d * 2 ^ 32 + e * 2 ^ 24 + f * 2 ^ 16 + g * 2 ^ 8 + h
join_eight a b c d e f g h hb hc hd he hf hg hh =
    let j1 = bit_or-add 56 (a) (a <<< 56) (b <<< 48) refl (omega arith) (omega arith) in
    let j2 =
      bit_or-add 48 (a <<< 8 + b) (a <<< 56 + b <<< 48) (c <<< 40) j1 (omega arith) (omega arith) in
    let j3 =
      bit_or-add 40 (a <<< 16 + b <<< 8 + c) (a <<< 56 + b <<< 48 + c <<< 40) (d <<< 32) j2
        (omega arith) (omega arith) in
    let j4 =
      bit_or-add 32 (a <<< 24 + b <<< 16 + c <<< 8 + d) (a <<< 56 + b <<< 48 + c <<< 40 + d <<< 32)
        (e <<< 24) j3 (omega arith) (omega arith) in
    let j5 =
      bit_or-add 24 (a <<< 32 + b <<< 24 + c <<< 16 + d <<< 8 + e)
        (a <<< 56 + b <<< 48 + c <<< 40 + d <<< 32 + e <<< 24) (f <<< 16) j4 (omega arith)
        (omega arith) in
    let j6 =
      bit_or-add 16 (a <<< 40 + b <<< 32 + c <<< 24 + d <<< 16 + e <<< 8 + f)
        (a <<< 56 + b <<< 48 + c <<< 40 + d <<< 32 + e <<< 24 + f <<< 16) (g <<< 8) j5 (omega arith)
        (omega arith) in
    bit_or-add 8 (a <<< 48 + b <<< 40 + c <<< 32 + d <<< 24 + e <<< 16 + f <<< 8 + g)
      (a <<< 56 + b <<< 48 + c <<< 40 + d <<< 32 + e <<< 24 + f <<< 16 + g <<< 8) (h) j6
      (omega arith) (omega arith)

-- The patterns that the readers put together are the low bits of what was written.
joined16 : (i : ℕ) → bit_or (u8 (i >>> 8) <<< 8) (u8 i) ≡ u16 i
joined16 i = omega (arith, join_two (u8 (i >>> 8)) (u8 i) (omega arith))

joined32 :
    (i : ℕ)
    → bit_or
        (bit_or (bit_or (u8 (i >>> 24) <<< 24) (u8 (i >>> 16) <<< 16)) (u8 (i >>> 8) <<< 8))
        (u8 i)
      ≡ u32 i
joined32 i = omega (
  arith,
  join_four (u8 (i >>> 24)) (u8 (i >>> 16)) (u8 (i >>> 8)) (u8 i) (omega arith) (omega arith)
      (omega arith),
)

-- Any number is read back modulo 2^16, whatever follows in the buffer.
pub unpacku16-packi16 : (i : ℕ) (r : List ℕ) → unpacku16 (packi16 i ++ r) ≡ some (u16 i)
unfolding unpacku16 packi16
unpacku16-packi16 i r = ap some (joined16 i)

-- Any number is read back modulo 2^32, whatever follows in the buffer.
pub unpacku32-packi32 : (i : ℕ) (r : List ℕ) → unpacku32 (packi32 i ++ r) ≡ some (u32 i)
unfolding unpacku32 packi32
unpacku32-packi32 i r = ap some (joined32 i)

joined64 :
    (a b c d e f g h i : ℕ)
    → a ≡ u8 (i >>> 56)
    → b ≡ u8 (i >>> 48)
    → c ≡ u8 (i >>> 40)
    → d ≡ u8 (i >>> 32)
    → e ≡ u8 (i >>> 24)
    → f ≡ u8 (i >>> 16)
    → g ≡ u8 (i >>> 8)
    → h ≡ u8 i
    → bit_or
        (bit_or
          (bit_or
            (bit_or
              (bit_or (bit_or (bit_or (a <<< 56) (b <<< 48)) (c <<< 40)) (d <<< 32))
              (e <<< 24))
            (f <<< 16))
          (g <<< 8))
        h
      ≡ u64 i
joined64 a b c d e f g h i pa pb pc pd pe pf pg ph = omega (
  arith,
  join_eight a b c d e f g h (omega arith) (omega arith) (omega arith) (omega arith) (omega arith)
      (omega arith) (omega arith),
)

-- Any number is read back modulo 2^64, whatever follows in the buffer.
pub unpacku64-packi64 : (i : ℕ) (r : List ℕ) → unpacku64 (packi64 i ++ r) ≡ some (u64 i)
unfolding unpacku64 packi64
unpacku64-packi64 i r = ap some (joined64 _ _ _ _ _ _ _ _ i refl refl refl refl refl refl refl refl)

-- The bit pattern of a signed value in `w` bits.
abbrev pub pattern_of : ℕ → Signed → ℕ
pattern_of w (pos n) = n
pattern_of w (negsuc n) = 2 ^ w - 1 - n

-- The value fits `w` bits.
abbrev pub Fits : ℕ → Signed → Type 0
Fits w (pos n) = n < 2 ^ (w - 1)
Fits w (negsuc n) = n < 2 ^ (w - 1)

-- The readers' "restore sign" recovers the value from its pattern.
signed-pattern_of16 : (v : Signed) → Fits 16 v → signed 16 (u16 (pattern_of 32 v)) ≡ v
unfolding signed
signed-pattern_of16 (pos n) h = ground arith
signed-pattern_of16 (negsuc n) h = ground arith

signed-pattern_of32 : (v : Signed) → Fits 32 v → signed 32 (u32 (pattern_of 32 v)) ≡ v
unfolding signed
signed-pattern_of32 (pos n) h = ground arith
signed-pattern_of32 (negsuc n) h = ground arith

signed-pattern_of64 : (v : Signed) → Fits 64 v → signed 64 (u64 (pattern_of 64 v)) ≡ v
unfolding signed
signed-pattern_of64 (pos n) h = ground arith
signed-pattern_of64 (negsuc n) h = ground arith

-- As a signed number, any argument is read back as its low bits with their sign.
pub unpacki16-packi16_word :
    (i : ℕ) (r : List ℕ) → unpacki16 (packi16 i ++ r) ≡ some (signed 16 (u16 i))
unfolding unpacki16 packi16
unpacki16-packi16_word i r = ap some (ap (signed 16) (joined16 i))

pub unpacki32-packi32_word :
    (i : ℕ) (r : List ℕ) → unpacki32 (packi32 i ++ r) ≡ some (signed 32 (u32 i))
unfolding unpacki32 packi32
unpacki32-packi32_word i r = ap some (ap (signed 32) (joined32 i))

pub unpacki64-packi64_word :
    (i : ℕ) (r : List ℕ) → unpacki64 (packi64 i ++ r) ≡ some (signed 64 (u64 i))
unfolding unpacki64 packi64
unpacki64-packi64_word i r =
    ap some (ap (signed 64) (joined64 _ _ _ _ _ _ _ _ i refl refl refl refl refl refl refl refl))

-- A value that fits in 16 bits with its sign, widened to the `int` of 32 bits that the writer takes, is
-- read back, whatever follows in the buffer.
unpacki16-packi16 :
    (v : Signed) (r : List ℕ) → Fits 16 v → unpacki16 (packi16 (pattern_of 32 v) ++ r) ≡ some v
unfolding unpacki16 packi16
unpacki16-packi16 v r h =
    ap some (ap (signed 16) (joined16 (pattern_of 32 v)) ∙ signed-pattern_of16 v h)

-- A value that fits in 32 bits with its sign is read back, whatever follows in the buffer.
unpacki32-packi32 :
    (v : Signed) (r : List ℕ) → Fits 32 v → unpacki32 (packi32 (pattern_of 32 v) ++ r) ≡ some v
unfolding unpacki32 packi32
unpacki32-packi32 v r h =
    ap some (ap (signed 32) (joined32 (pattern_of 32 v)) ∙ signed-pattern_of32 v h)

-- A value that fits in 64 bits with its sign is read back, whatever follows in the buffer.
unpacki64-packi64 :
    (v : Signed) (r : List ℕ) → Fits 64 v → unpacki64 (packi64 (pattern_of 64 v) ++ r) ≡ some v
unfolding unpacki64 packi64
unpacki64-packi64 v r h = ap some (
    ap (signed 64)
      (joined64 _ _ _ _ _ _ _ _ (pattern_of 64 v) refl refl refl refl refl refl refl refl)
    ∙ signed-pattern_of64 v h)

-- At each width, whatever follows in the buffer, a number is read back modulo its width, and a value that
-- fits with its sign is read back.
pub unpack-packi :
    (i : ℕ) (v16 v32 v64 : Signed) (r : List ℕ)
    → Fits 16 v16
    → Fits 32 v32
    → Fits 64 v64
    → (unpacku16 (packi16 i ++ r) ≡ some (u16 i))
      × (unpacku32 (packi32 i ++ r) ≡ some (u32 i))
      × (unpacku64 (packi64 i ++ r) ≡ some (u64 i))
      × (unpacki16 (packi16 (pattern_of 32 v16) ++ r) ≡ some v16)
      × (unpacki32 (packi32 (pattern_of 32 v32) ++ r) ≡ some v32)
      × (unpacki64 (packi64 (pattern_of 64 v64) ++ r) ≡ some v64)
unpack-packi i v16 v32 v64 r f16 f32 f64 = (
  unpacku16-packi16 i r,
  unpacku32-packi32 i r,
  unpacku64-packi64 i r,
  unpacki16-packi16 v16 r f16,
  unpacki32-packi32 v32 r f32,
  unpacki64-packi64 v64 r f64,
)
