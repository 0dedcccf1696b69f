-- ===== src/Pack/Tests.antt =====
-- The codec at concrete values, with a libsodium of the usual sizes.
use libtrp.Base.{
  ℕ, ◌^◌, ◌-◌, ◌≤◌, ◌≡◌, refl, arith, true, false, none, some, List, [], ◌∷◌, length, ◌++◌,
  replicate, length-replicate,
}
use libtrp.Pack.Format.{
  Spec, Arg, uint8, int16, nonce, seal_open, seal_close, sign_open, sign_close, uint32, var64,
  binary, Sodium, IsSodium, word, block,
}
use libtrp.Pack.Encode
use libtrp.Pack.Encode.{trip_pack, trip_pack_len, uvar_len, Packer}
use libtrp.Pack.Encode.Total.{accepts, Ends, trip_pack-Ends}
use libtrp.Pack.Decode
use libtrp.Pack.Decode.{trip_unpack, Unpacker, number}
use libtrp.Pack.Word.{
  negsuc, packi16, packi32, packi64, unpacku16, unpacku32, unpacku64, unpacki16, unpacki32,
  unpacki64,
}
use libtrp.Pack.Word.Laws.{pattern_of, unpack-packi}
use libtrp.Pack.Varint.{le_value}
use libtrp.Pack.Swap.{swap_bytes}
use libtrp.Pack.Fields.{uint8_of, var64_of, nonce_null, int16_of}
use libtrp.Pack.RoundTrip.{formats, arguments, AllCarry, encoding, values, trip_unpack-trip_pack}
use libtrp.Pack.Length.{trip_pack-trip_pack_len}

abbrev pub sodium : Sodium
sodium = record {
  seal_bytes = 48;
  mac_bytes = 16;
  sign_bytes = 64;
  nonce_bytes = 24;
  key_bytes = 32;
  sign_detached = λ m k. replicate 64 0;
}

pub sodium-IsSodium : IsSodium sodium
sodium-IsSodium = record {
  seal_small = omega arith;
  mac_small = omega arith;
  sign_small = omega arith;
  nonce_small = omega arith;
  key_small = omega arith;
  length-sign_detached = λ m k. length-replicate {A = ℕ} 64 0;
}

accepted :
    accepts sodium
      (sign_open ∷ seal_open ∷ uint32 ∷ binary ∷ seal_close ∷ sign_close ∷ [])
      false
      (block none ∷ word 7 ∷ word 0 ∷ block none ∷ block none ∷ [])
    ≡ true
unfolding accepts
accepted = refl

-- A sealed number and a signature, with room for more.
trip_pack-Ends_example : Ends (replicate 200 0) 200 (
    trip_pack sodium 200
      (replicate 200 0)
      (sign_open ∷ seal_open ∷ uint32 ∷ binary ∷ seal_close ∷ sign_close ∷ [])
      (block none ∷ word 7 ∷ word 0 ∷ block none ∷ block none ∷ []))
trip_pack-Ends_example =
    trip_pack-Ends sodium 200 (replicate 200 0)
      (sign_open ∷ seal_open ∷ uint32 ∷ binary ∷ seal_close ∷ sign_close ∷ [])
      (block none ∷ word 7 ∷ word 0 ∷ block none ∷ block none ∷ []) sodium-IsSodium (omega arith)
      (omega arith) accepted

-- A number above its width, one of two bytes, no nonce, and -5.
abbrev fields : List (Spec × Arg)
fields =
    (uint8, word 259) ∷ (var64, word 258) ∷ (nonce, block none) ∷ (int16, word (2 ^ 32 - 5)) ∷ []

fields_carry : AllCarry sodium fields
fields_carry = (uint8_of 259, (var64_of 258, (nonce_null, (int16_of (2 ^ 32 - 5), tt))))

fields_fit : length (encoding sodium fields) ≤ 40
unfolding Encode.le_bytes uvar_len packi16
fields_fit = omega arith

trip_unpack-trip_pack_example :
    (p : Packer) × (u : Unpacker) × (trip_pack sodium 40
        (replicate 40 0)
        (formats fields)
        (arguments fields)
      ≡ Encode.next p)
    × (trip_unpack sodium p.size p.out (formats fields) ≡ Decode.next u)
    × (p.size ≡ length (encoding sodium fields))
    × (p.out ≡ encoding sodium fields)
    × (u.len ≡ p.size)
    × (u.stored ≡ values sodium fields)
trip_unpack-trip_pack_example =
    trip_unpack-trip_pack sodium fields 40 (replicate 40 0) fields_carry fields_fit (omega arith)
      (omega arith)

trip_pack-trip_pack_len_example :
    (p : Packer) × (trip_pack sodium
        (trip_pack_len sodium (formats fields))
        (replicate 40 0)
        (formats fields)
        (arguments fields)
      ≡ Encode.next p)
    × (p.size ≤ trip_pack_len sodium (formats fields))
unfolding trip_pack_len
trip_pack-trip_pack_len_example =
    trip_pack-trip_pack_len sodium fields (replicate 40 0) sodium-IsSodium fields_carry
      (omega arith) (omega arith)

swapped_258 : swap_bytes 258 ≡ 513
unfolding swap_bytes le_value Encode.le_bytes uvar_len
swapped_258 = refl

unpack-packi_example :
    (unpacku16 (packi16 65537 ++ 9 ∷ []) ≡ some 1)
    × (unpacku32 (packi32 65537 ++ 9 ∷ []) ≡ some 65537)
    × (unpacku64 (packi64 65537 ++ 9 ∷ []) ≡ some 65537)
    × (unpacki16 (packi16 (pattern_of 32 (negsuc 4)) ++ 9 ∷ []) ≡ some (negsuc 4))
    × (unpacki32 (packi32 (pattern_of 32 (negsuc 4)) ++ 9 ∷ []) ≡ some (negsuc 4))
    × (unpacki64 (packi64 (pattern_of 64 (negsuc 4)) ++ 9 ∷ []) ≡ some (negsuc 4))
unpack-packi_example =
    unpack-packi 65537 (negsuc 4) (negsuc 4) (negsuc 4) (9 ∷ []) (omega arith) (omega arith)
      (omega arith)
