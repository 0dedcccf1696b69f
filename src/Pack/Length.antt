-- ===== src/Pack/Length.antt =====
-- src/pack.c: the length that `trip_pack_len` gives for a format.
use native.Mathlib.Nat.{mod-lt, mod-eq_of_lt}
use libtrp.Base.{
  ℕ, ◌+◌, ◌*◌, ◌%◌, ◌^◌, ◌≤◌, ◌<◌, ◌≡◌, arith, List, [], ◌∷◌, length, length-append,
  length-replicate, length-take, u32,
}
use libtrp.Pack.Word.{packi16, packi32, packi64}
use libtrp.Pack.Format.{Spec, Arg, Sodium, IsSodium}
use libtrp.Pack.Encode.{Packer, next, uvar_len, field_len, pack_len_loop, trip_pack_len, trip_pack}
use libtrp.Pack.Varint.{length-le_bytes, uvar_len-le}
use libtrp.Pack.Fields.{
  Carries, bytes, var_bytes, nonce_null, nonce_of, key_null, key_of, int8_of, uint8_of, int16_of,
  uint16_of, int32_of, uint32_of, int64_of, uint64_of, var32_of, var64_of,
}
use libtrp.Pack.RoundTrip.{formats, arguments, AllCarry, encoding, trip_unpack-trip_pack}

length-var_bytes : (most n : ℕ) → most ≤ 8 → n < 256 ^ most → length (var_bytes n) ≤ 1 + most
length-var_bytes most n le h =
    omega (arith, uvar_len-le most n le h, length-le_bytes (uvar_len n) n)

module _ (sod : Sodium) where
  length-bytes-le :
      {f : Spec} {a : Arg} → Carries sod f a → length (bytes sod f a) ≤ field_len sod f
  unfolding field_len packi16 packi32 packi64
  length-bytes-le nonce_null = omega (arith, length-replicate {A = ℕ} sod.nonce_bytes 0)
  length-bytes-le (nonce_of s le) = omega (arith, length-take sod.nonce_bytes s)
  length-bytes-le key_null = omega (arith, length-replicate {A = ℕ} sod.key_bytes 0)
  length-bytes-le (key_of s le) = omega (arith, length-take sod.key_bytes s)
  length-bytes-le (int8_of n) = omega arith
  length-bytes-le (uint8_of n) = omega arith
  length-bytes-le (int16_of n) = omega arith
  length-bytes-le (uint16_of n) = omega arith
  length-bytes-le (int32_of n) = omega arith
  length-bytes-le (uint32_of n) = omega arith
  length-bytes-le (int64_of n) = omega arith
  length-bytes-le (uint64_of n) = omega arith
  length-bytes-le (var32_of n) =
      length-var_bytes 4 (n % 2 ^ 32) (omega arith) (mod-lt n (omega arith))
  length-bytes-le (var64_of n) =
      length-var_bytes 8 (n % 2 ^ 64) (omega arith) (mod-lt n (omega arith))

  field_len-le : {f : Spec} {a : Arg} → IsSodium sod → Carries sod f a → field_len sod f ≤ 2 ^ 16
  unfolding field_len
  field_len-le laws nonce_null = laws.nonce_small
  field_len-le laws (nonce_of s le) = laws.nonce_small
  field_len-le laws key_null = laws.key_small
  field_len-le laws (key_of s le) = laws.key_small
  field_len-le laws (int8_of n) = omega arith
  field_len-le laws (uint8_of n) = omega arith
  field_len-le laws (int16_of n) = omega arith
  field_len-le laws (uint16_of n) = omega arith
  field_len-le laws (int32_of n) = omega arith
  field_len-le laws (uint32_of n) = omega arith
  field_len-le laws (int64_of n) = omega arith
  field_len-le laws (uint64_of n) = omega arith
  field_len-le laws (var32_of n) = omega arith
  field_len-le laws (var64_of n) = omega arith

  -- The loop adds at least the bytes of each field, and does not wrap on a format of this size.
  pack_len_loop-ge :
      (fs : List (Spec × Arg)) (len : ℕ)
      → IsSodium sod
      → AllCarry sod fs
      → len + length fs * 2 ^ 16 < 2 ^ 31
      → (len + length (encoding sod fs) ≤ pack_len_loop sod len (formats fs))
        × (pack_len_loop sod len (formats fs) ≤ len + length fs * 2 ^ 16)
  unfolding pack_len_loop
  pack_len_loop-ge [] len laws c h = (omega arith, omega arith)
  pack_len_loop-ge ((f, a) ∷ fs) len laws c h =
      let few = field_len-le laws c.0 in
      let same : u32 (len + field_len sod f) ≡ len + field_len sod f =
        mod-eq_of_lt (omega (arith, few, h)) in
      let rest =
        pack_len_loop-ge fs (u32 (len + field_len sod f)) laws c.1 (omega (arith, few, h, same)) in
      omega (
        arith,
        rest,
        same,
        few,
        length-bytes-le c.0,
        length-append (bytes sod f a) (encoding sod fs),
      )

  -- A storage of the length that `trip_pack_len` gives for a format of less than 2^15 plain fields is enough:
  -- `trip_pack` succeeds with arguments that fit them, and returns at most this length.
  pub trip_pack-trip_pack_len :
      (fs : List (Spec × Arg)) (storage : List ℕ)
      → IsSodium sod
      → AllCarry sod fs
      → length fs < 2 ^ 15
      → trip_pack_len sod (formats fs) ≤ length storage
      → (p : Packer) × (trip_pack sod
            (trip_pack_len sod (formats fs))
            storage
            (formats fs)
            (arguments fs)
          ≡ next p)
        × (p.size ≤ trip_pack_len sod (formats fs))
  unfolding trip_pack_len
  trip_pack-trip_pack_len fs storage laws c few room =
      let enough = pack_len_loop-ge fs 0 laws c (omega (arith, few)) in
      let (p, u, packed, unpacked, size, out, len, stored) =
        trip_unpack-trip_pack sod fs (trip_pack_len sod (formats fs)) storage c
          (omega (arith, enough)) room (omega (arith, enough, few)) in
      (p, packed, omega (arith, size, enough))
