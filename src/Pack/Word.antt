-- ===== src/Pack/Word.antt =====
-- src/pack.c: integers of fixed width, high byte first. An argument is a bit pattern; a store into
-- `unsigned char` keeps the low eight bits.
pub mod Laws
use libtrp.Base.{ℕ, ◌+◌, ◌-◌, ◌^◌, ◌/◌, ◌*◌, Option, none, some, List, [], ◌∷◌, bit_or}
use libtrp.Base.{u8, ◌<<<◌, ◌>>>◌, leb, if◌then◌else◌}

unfoldable pub packi16 : ℕ → List ℕ
packi16 i = u8 (i >>> 8) ∷ u8 i ∷ []

unfoldable pub packi32 : ℕ → List ℕ
packi32 i = u8 (i >>> 24) ∷ u8 (i >>> 16) ∷ u8 (i >>> 8) ∷ u8 i ∷ []

unfoldable pub packi64 : ℕ → List ℕ
packi64 i =
    u8 (i >>> 56)
    ∷ u8 (i >>> 48)
    ∷ u8 (i >>> 40)
    ∷ u8 (i >>> 32)
    ∷ u8 (i >>> 24)
    ∷ u8 (i >>> 16)
    ∷ u8 (i >>> 8)
    ∷ u8 i
    ∷ []

-- The signed readers give the `intN_t` as the sign and the size: `pos n` is n, `negsuc n` is -1 - n.
pub data Signed : Type 0 where
  pos : ℕ → Signed
  negsuc : ℕ → Signed

-- `buf[0..2)`; a shorter buffer is a read out of bounds.
unfoldable pub unpacku16 : List ℕ → Option ℕ
unpacku16 (a ∷ b ∷ _) = some (bit_or (a <<< 8) b)
unpacku16 _ = none

unfoldable pub unpacku32 : List ℕ → Option ℕ
unpacku32 (a ∷ b ∷ c ∷ d ∷ _) = some (bit_or (bit_or (bit_or (a <<< 24) (b <<< 16)) (c <<< 8)) d)
unpacku32 _ = none

unfoldable pub unpacku64 : List ℕ → Option ℕ
unpacku64 (a ∷ b ∷ c ∷ d ∷ e ∷ f ∷ g ∷ h ∷ _) = some (
    bit_or
      (bit_or
        (bit_or
          (bit_or (bit_or (bit_or (bit_or (a <<< 56) (b <<< 48)) (c <<< 40)) (d <<< 32)) (e <<< 24))
          (f <<< 16))
        (g <<< 8))
      h)
unpacku64 _ = none

-- "Restore sign": `-1 - (max - i2)` where the pattern `i2` is above the largest signed value.
unfoldable pub signed : ℕ → ℕ → Signed
signed w i2 = if leb i2 (2 ^ (w - 1) - 1) then pos i2 else negsuc (2 ^ w - 1 - i2)

unfoldable pub unpacki16 : List ℕ → Option Signed
unfolding signed
unpacki16 (a ∷ b ∷ _) = some (signed 16 (bit_or (a <<< 8) b))
unpacki16 _ = none

unfoldable pub unpacki32 : List ℕ → Option Signed
unfolding signed
unpacki32 (a ∷ b ∷ c ∷ d ∷ _) =
    some (signed 32 (bit_or (bit_or (bit_or (a <<< 24) (b <<< 16)) (c <<< 8)) d))
unpacki32 _ = none

unfoldable pub unpacki64 : List ℕ → Option Signed
unfolding signed
unpacki64 (a ∷ b ∷ c ∷ d ∷ e ∷ f ∷ g ∷ h ∷ _) = some (
    signed 64 (
      bit_or
        (bit_or
          (bit_or
            (bit_or (bit_or (bit_or (bit_or (a <<< 56) (b <<< 48)) (c <<< 40)) (d <<< 32))
              (e <<< 24))
            (f <<< 16))
          (g <<< 8))
        h))
unpacki64 _ = none
