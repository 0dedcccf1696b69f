-- ===== src/Pack/Encode/Total.antt =====
-- `trip_pack` as a whole: which formats and arguments it accepts, and where it writes.
use libtrp.Base.{ℕ, ◌^◌, ◌≤◌, ◌<◌, ◌≡◌, refl, ◌∙◌, ap, sym, arith}
use libtrp.Base.{Bool, true, false, Option, none, some, List, [], ◌∷◌, length, drop, u8}
use libtrp.Base.{Option-cases, inl, inr, if◌then◌else◌}
use mathlib.Core.Option
use libtrp.Pack.Word.{packi16, packi32, packi64}
use libtrp.Pack.Format.{
  Spec, seal_open, seal_close, box_open, box_close, sign_open, sign_close, nonce, key, binary, int8,
  uint8, int16, uint16, int32, uint32, int64, uint64, pointer, var32, var64, other, Arg, Sodium,
  IsSodium,
}
use libtrp.Pack.Encode.{Packer, Outcome, next, npos, fault, and_then, step, run, trip_pack}
use libtrp.Pack.Encode.Safety.{
  Target, IsInside, After, at_next, at_npos, after, consume_word, consume_block, readable,
  fixed-After, block_or_zeros-After, variable-After,
}
use libtrp.Pack.Encode.Bounds.{
  consume_binary, settle, on_binary-After, clear_at-After, signature-After, seal-After,
}

-- What one format character takes, and whether a seal is open behind it. A seal is closed only where
-- one is open, since `O` writes behind `cryptstart` without a test of the capacity.
module _ (sod : Sodium) where
  unfoldable pub accept : Spec → Bool → List Arg → Option (Bool × List Arg)
  unfolding consume_word consume_block consume_binary
  accept seal_open o args = Option.map (λ tl. (true, tl)) (consume_block (λ _. true) args)
  accept seal_close o args = if o then some (o, args) else none
  accept box_open o args = some (false, args)
  accept box_close o args = some (o, args)
  accept sign_open o args = some (o, args)
  accept sign_close o args = Option.map (λ tl. (o, tl)) (consume_block (λ _. true) args)
  accept nonce o args = Option.map (λ tl. (o, tl)) (consume_block (readable sod.nonce_bytes) args)
  accept key o args = Option.map (λ tl. (o, tl)) (consume_block (readable sod.key_bytes) args)
  accept binary o args = Option.map (λ tl. (o, tl)) (consume_binary args)
  accept pointer o args = some (o, args)
  accept other o args = some (o, args)
  accept _ o args = Option.map (λ tl. (o, tl)) (consume_word (λ _. true) args)

  unfoldable pub accepts : List Spec → Bool → List Arg → Bool
  unfolding accept
  accepts [] o args = true
  accepts (f ∷ fs) o args = elim (accept f o args) [
    | none ↦ false
    | some (o', tl) ↦ accepts fs o' tl
  ]

  module _ (laws : IsSodium sod) {target : Target} where
    step-After :
        (f : Spec) (o : Bool) (p : Packer) {o' : Bool} {tl : List Arg}
        → accept f o p.args ≡ some (o', tl)
        → IsInside target sod.seal_bytes 0 o p
        → After target sod.seal_bytes 0 o' tl (step sod f p)
    unfolding step accept
    step-After seal_open o p e v = settle _ e λ tl c. seal-After sod laws o p c v
    step-After seal_close true p e v =
        settle (some p.args) e
          λ tl c. let same : p.args ≡ tl = ground arith in rw (← same) (clear_at-After p v)
    step-After seal_close false p e v = cc
    step-After box_open o p e v = after (next _) (ground arith)
    step-After box_close o p e v = after (next _) (ground arith)
    step-After sign_open o p e v = after (next _) (ground arith)
    step-After sign_close o p e v = settle _ e λ tl c. signature-After sod laws o p c v
    step-After nonce o p e v =
        settle _ e λ tl c. block_or_zeros-After sod.nonce_bytes p laws.nonce_small c v
    step-After key o p e v =
        settle _ e λ tl c. block_or_zeros-After sod.key_bytes p laws.key_small c v
    step-After binary o p e v = settle _ e λ tl c. on_binary-After p.args p c v
    step-After pointer o p e v = after (npos p) (ground arith)
    step-After other o p e v = after (npos p) (ground arith)
    step-After var32 o p e v = settle _ e λ tl c. variable-After 32 4 p refl (omega arith) c v
    step-After var64 o p e v = settle _ e λ tl c. variable-After 64 8 p refl (omega arith) c v
    step-After int8 o p e v =
        settle _ e λ tl c. fixed-After 1 (λ x. u8 x ∷ []) p (λ x. refl) (omega arith) c v
    step-After uint8 o p e v =
        settle _ e λ tl c. fixed-After 1 (λ x. u8 x ∷ []) p (λ x. refl) (omega arith) c v
    step-After int16 o p e v =
        settle _ e λ tl c. fixed-After 2 packi16 p (unfold packi16 in λ x. refl) (omega arith) c v
    step-After uint16 o p e v =
        settle _ e λ tl c. fixed-After 2 packi16 p (unfold packi16 in λ x. refl) (omega arith) c v
    step-After int32 o p e v =
        settle _ e λ tl c. fixed-After 4 packi32 p (unfold packi32 in λ x. refl) (omega arith) c v
    step-After uint32 o p e v =
        settle _ e λ tl c. fixed-After 4 packi32 p (unfold packi32 in λ x. refl) (omega arith) c v
    step-After int64 o p e v =
        settle _ e λ tl c. fixed-After 8 packi64 p (unfold packi64 in λ x. refl) (omega arith) c v
    step-After uint64 o p e v =
        settle _ e λ tl c. fixed-After 8 packi64 p (unfold packi64 in λ x. refl) (omega arith) c v

    run-After :
        (fs : List Spec) (o : Bool) (p : Packer)
        → accepts fs o p.args ≡ true
        → IsInside target sod.seal_bytes 0 o p
        → (o' : Bool) × (tl : List Arg) × After target sod.seal_bytes 0 o' tl (run sod fs p)
    unfolding run accepts
    run-After [] o p e v = (o, p.args, at_next v refl)
    run-After (f ∷ fs) o p e v = elim (Option-cases (accept f o p.args)) [
      | inl n ↦ absurd (ground arith)
      | inr (r, eq) ↦
          and_then-run fs r.0 r.1 (step sod f p) (step-After f o p eq v) (ground arith)
            (λ q. run-After fs r.0 q)
    ]
      where
        and_then-run :
            (fs : List Spec) (o : Bool) (tl : List Arg) (m : Outcome)
            → After target sod.seal_bytes 0 o tl m
            → accepts fs o tl ≡ true
            → ((q : Packer)
                → accepts fs o q.args ≡ true
                → IsInside target sod.seal_bytes 0 o q
                → (o' : Bool) × (tl : List Arg) × After target sod.seal_bytes 0 o' tl
                    (run sod fs q))
            → (o' : Bool) × (end : List Arg) × After target sod.seal_bytes 0 o' end
                (and_then m (run sod fs))
        and_then-run fs o tl m (at_next {p = q} w eq) acc r = r q (rw eq acc) w
        and_then-run fs o tl m (at_npos {p = q} w) acc r = (o, tl, at_npos w)

-- How a call of `trip_pack` on `storage` may end: a length below the capacity, which is where `buf`
-- stands, or NPOS with `buf` still within the capacity. What lies behind `buf` is as it was.
unfoldable pub Ends : List ℕ → ℕ → Outcome → Type 0
Ends storage cap (next p) =
    (p.size ≡ length p.out) × (p.size ≤ cap) × (p.rest ≡ drop p.size storage)
Ends storage cap (npos p) = (length p.out ≤ cap) × (p.rest ≡ drop (length p.out) storage)
Ends storage cap fault = ⊥

-- With a format whose seals are closed only where one is open, arguments that fit it, and a capacity
-- that the storage has (and that is below 2^63), `trip_pack` has no undefined behaviour. It returns the
-- number of bytes up to `buf`, at most the capacity, or NPOS; nothing behind `buf` is written.
pub trip_pack-Ends :
    (sod : Sodium) (cap : ℕ) (storage : List ℕ) (format : List Spec) (args : List Arg)
    → IsSodium sod
    → cap ≤ length storage
    → cap < 2 ^ 63
    → accepts sod format false args ≡ true
    → Ends storage cap (trip_pack sod cap storage format args)
unfolding trip_pack Ends
trip_pack-Ends sod cap storage format args laws le small acc =
    let start : Packer = record {
      cap = cap;
      size = 0;
      out = [];
      rest = storage;
      sigstart = 0;
      cryptstart = 0;
      args = args;
    } in
    ends _
      (run-After sod laws {target = record { bytes = storage; cap = cap }} format false start acc
        (ground arith)).2
  where
    ends :
        (m : Outcome) {o : Bool} {tl : List Arg}
        → After (record { bytes = storage; cap = cap }) sod.seal_bytes 0 o tl m
        → Ends storage cap m
    ends m (at_next {p} v e) =
        let whole : p.size ≡ length p.out = omega arith in
        (whole, omega arith, v.untouched ∙ ap (λ k. drop k storage) (sym whole))
    ends m (at_npos {p} v) = ground arith
