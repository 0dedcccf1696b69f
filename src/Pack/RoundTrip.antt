-- ===== src/Pack/RoundTrip.antt =====
-- src/pack.c: what `trip_unpack` reads of a whole packet of plain fields that `trip_pack` wrote.
use libtrp.Base.{
  ℕ, ◌+◌, ◌^◌, ◌≤◌, ◌<◌, ◌≡◌, refl, arith, List, [], ◌∷◌, ◌++◌, append-nil, append_assoc, length,
  length-append, length-drop, drop-drop,
}
use libtrp.Pack.Format.{Spec, Arg, Sodium}
use libtrp.Pack.Encode
use libtrp.Pack.Encode.{Packer, trip_pack}
use libtrp.Pack.Decode
use libtrp.Pack.Decode.{Unpacker, Stored, trip_unpack}
use libtrp.Pack.Fields.{Carries, bytes, value, wrote, with_args, Fits, step-wrote}
use libtrp.Pack.Taken.{facing, took, Holds, step-took}

-- Fields with their arguments, from which a format and a list of arguments are read off.
abbrev pub formats : List (Spec × Arg) → List Spec
formats [] = []
formats ((f, a) ∷ fs) = f ∷ formats fs

abbrev pub arguments : List (Spec × Arg) → List Arg
arguments [] = []
arguments ((f, a) ∷ fs) = a ∷ arguments fs

module _ (sod : Sodium) where
  abbrev pub AllCarry : List (Spec × Arg) → Type 0
  AllCarry [] = Unit
  AllCarry ((f, a) ∷ fs) = Carries sod f a × AllCarry fs

  -- The bytes of all fields, and what is stored for them.
  abbrev pub encoding : List (Spec × Arg) → List ℕ
  encoding [] = []
  encoding ((f, a) ∷ fs) = bytes sod f a ++ encoding fs

  abbrev pub values : List (Spec × Arg) → List Stored
  values [] = []
  values ((f, a) ∷ fs) = value sod f a ∷ values fs

  run-wrote :
      (fs : List (Spec × Arg)) (p : Packer)
      → AllCarry fs
      → Fits (encoding fs) p
      → Encode.run sod (formats fs) (with_args p (arguments fs))
        ≡ Encode.next (wrote (encoding fs) (with_args p []))
  unfolding Encode.run
  run-wrote [] p c h = ground (arith, append-nil p.out)
  run-wrote ((f, a) ∷ fs) p c h =
      let bs = bytes sod f a in
      let both = length-append bs (encoding fs) in
      let q = wrote bs p in
      let first = step-wrote sod p (arguments fs) c.0 (omega (arith, h, both)) in
      let rest = run-wrote fs q c.1 (omega (arith, h, both, length-drop (length bs) p.rest)) in
      ground (
        arith,
        first,
        rest,
        both,
        append_assoc p.out bs (encoding fs),
        drop-drop (length bs) (length (encoding fs)) p.rest,
      )

  abbrev took_all : List (Spec × Arg) → Unpacker → Unpacker
  took_all fs u = record u {
    len = u.len + length (encoding fs);
    pos = u.pos + length (encoding fs);
    rest = [];
    stored = u.stored ++ values fs;
  }

  run-took :
      (fs : List (Spec × Arg)) (u : Unpacker)
      → AllCarry fs
      → Holds (length (encoding fs)) u
      → Decode.run sod (formats fs) (facing u (encoding fs)) ≡ Decode.next (took_all fs u)
  unfolding Decode.run
  run-took [] u c h = ground (arith, append-nil u.stored)
  run-took ((f, a) ∷ fs) u c h =
      let bs = bytes sod f a in
      let both = length-append bs (encoding fs) in
      let first = step-took sod (encoding fs) u c.0 (omega (arith, h, both)) in
      let rest =
        run-took fs (took (length bs) (value sod f a) (encoding fs) u) c.1
          (omega (arith, h, both)) in
      ground (arith, first, rest, both, append_assoc u.stored (value sod f a ∷ []) (values fs))

  -- Any fields of fixed or variable width and blocks, with arguments that fit them, are packed into a storage
  -- that holds their bytes, and unpacked by the same format: both calls succeed with the same length, and
  -- what is stored is each number in its width, each block, and zeroes for NULL; a number of variable width
  -- has its significant bytes in the opposite order.
  pub trip_unpack-trip_pack :
      (fs : List (Spec × Arg)) (cap : ℕ) (storage : List ℕ)
      → AllCarry fs
      → length (encoding fs) ≤ cap
      → cap ≤ length storage
      → cap < 2 ^ 63
      → (p : Packer) × (u : Unpacker) × (trip_pack sod cap storage (formats fs) (arguments fs)
          ≡ Encode.next p)
        × (trip_unpack sod p.size p.out (formats fs) ≡ Decode.next u)
        × (p.size ≡ length (encoding fs))
        × (p.out ≡ encoding fs)
        × (u.len ≡ p.size)
        × (u.stored ≡ values fs)
  unfolding trip_pack trip_unpack
  trip_unpack-trip_pack fs cap storage c fits le small =
      let start : Packer = record {
        cap = cap;
        size = 0;
        out = [];
        rest = storage;
        sigstart = 0;
        cryptstart = 0;
        args = [];
      } in
      let n = length (encoding fs) in
      let begin : Unpacker = record { blen = 0 + n; len = 0; pos = 0; rest = []; stored = [] } in
      (
        wrote (encoding fs) start,
        took_all fs begin,
        run-wrote fs start c (omega (arith, fits, le, small)),
        run-took fs begin c (omega (arith, fits, small)),
        omega arith,
        refl,
        refl,
        refl,
      )
