-- ===== src/Pack/Encode/Bounds.antt =====
-- The cases of `trip_pack` that write more than one field, inside the caller's storage.
use libtrp.Base.{ℕ, zero, suc, ◌+◌, ◌^◌, ◌≤◌, ◌<◌, ◌≡◌, refl, arith}
use libtrp.Base.{
  Bool, true, false, ◌&&◌, ◌||◌, Option, none, some, List, [], ◌∷◌, ◌++◌, length, take, drop,
  replicate, u8, u32,
}
use libtrp.Base.{
  drop-length_append, Bool-cases, inl, inr, ltb, leb, ◌==◌, if◌then◌else◌, length-append,
  length-take, length-drop, length-replicate, drop-drop,
}
use mathlib.Core.Option
use libtrp.Pack.Format.{Arg, word, block, Sodium, IsSodium}
use libtrp.Pack.Encode.{
  Packer, Outcome, next, fault, and_then, reserve, emit, copy, skip, clear_at, binary_string,
  signature, seal, uvar_len, le_bytes,
}
use libtrp.Pack.Varint.{length-le_bytes, uvar_len-le}
use mathlib.Core.Path.{subst}
use libtrp.Pack.Encode.Safety.{
  Target, IsInside, After, at_next, after, emit-After, reserve-After, and_then-After, consume_block,
  on_block-After, copy-After,
}

-- At least `n` bytes.
abbrev pub filled : ℕ → Option (List ℕ) → Bool
filled n none = false
filled n (some source) = leb n (length source)

-- A binary string whose length leaves the sum `i + 1 + rlen` below 2^32, with so many bytes.
unfoldable pub consume_binary : List Arg → Option (List Arg)
consume_binary (word n ∷ block b ∷ tl) =
    if ltb (u32 n + 5) (2 ^ 32) && (u32 n == 0 || filled (u32 n) b) then some tl else none
consume_binary _ = none

module _ {target : Target} {s : ℕ} {o : Bool} where
  payload-After :
      (n : ℕ) (b : Option (List ℕ)) (p : Packer)
      → (n == 0 || filled n b) ≡ true
      → IsInside target s n o p
      → After target s 0 o p.args
          (if n == 0 then next p else elim b [ none ↦ fault | some source ↦ copy n source p ])
  payload-After n none p f v = elim (Bool-cases (n == 0)) [
    | inl e ↦ rw e (at_next (ground arith) refl)
    | inr e ↦ absurd (ground arith)
  ]
  payload-After n (some source) p f v = elim (Bool-cases (n == 0)) [
    | inl e ↦ rw e (at_next (ground arith) refl)
    | inr e ↦ rw e (copy-After n 0 source p (ground arith) (ground arith))
  ]

  binary-After :
      (n : ℕ) (b : Option (List ℕ)) (p : Packer)
      → n + 5 < 2 ^ 32
      → (n == 0 || filled n b) ≡ true
      → IsInside target s 0 o p
      → After target s 0 o p.args (
          and_then (reserve (u32 (uvar_len n + 1 + n)) p) λ q.
            and_then (emit (u8 (uvar_len n) ∷ le_bytes (uvar_len n) n) q) λ r.
              if n == 0 then next r else elim b [ none ↦ fault | some source ↦ copy n source r ])
  binary-After n b p h f v =
      let few : uvar_len n ≤ 4 = uvar_len-le 4 n (omega arith) (omega arith) in
      and_then-After _ (reserve-After (u32 (uvar_len n + 1 + n)) p v (omega arith)) λ q w e.
        and_then-After _
          (emit-After (u8 (uvar_len n) ∷ le_bytes (uvar_len n) n) (u32 (uvar_len n + 1 + n)) n q w
            (omega (arith, length-le_bytes (uvar_len n) n)))
          λ r t eq. rw (← e, ← eq) (payload-After n b r f t)

  pub on_binary-After :
      (args : List Arg) (p : Packer) {tl : List Arg}
      → consume_binary args ≡ some tl
      → IsInside target s 0 o p
      → After target s 0 o tl (binary_string (record p { args = args }))
  unfolding binary_string consume_binary
  on_binary-After [] p c v = cc
  on_binary-After (block b ∷ xs) p c v = cc
  on_binary-After (word n ∷ []) p c v = cc
  on_binary-After (word n ∷ word m ∷ xs) p c v = cc
  on_binary-After (word n ∷ block b ∷ xs) p {tl} c v =
      let same : xs ≡ tl = ground arith in
      subst
        (λ end. After target s 0 o end (binary_string (record p { args = word n ∷ block b ∷ xs })))
        same
        (binary-After (u32 n) b (record p { args = xs }) (ground arith) (ground arith)
          (ground arith))

-- Overwriting `s` bytes within `out` leaves what follows it alone.
drop-fill :
    (s : ℕ) (out rest : List ℕ)
    → s ≤ length out
    → drop (length out) (replicate s 0 ++ drop s (out ++ rest)) ≡ rest
drop-fill zero out rest h = drop-length_append out rest
drop-fill (suc s) [] rest h = absurd (omega arith)
drop-fill (suc s) (x ∷ out) rest h = drop-fill s out rest (omega arith)

drop-overlay :
    (c s : ℕ) (out rest : List ℕ)
    → c + s ≤ length out
    → drop (length out) (take c (out ++ rest) ++ (replicate s 0 ++ drop (c + s) (out ++ rest)))
      ≡ rest
drop-overlay zero s out rest h =
    let e : 0 + s ≡ s = omega arith in rw e (drop-fill s out rest (omega arith))
drop-overlay (suc c) s [] rest h = absurd (omega arith)
drop-overlay (suc c) s (x ∷ out) rest h =
    let e : suc c + s ≡ suc (c + s) = omega arith in rw e (drop-overlay c s out rest (omega arith))

-- A map over what was consumed, taken apart.
pub settle :
    {target : Target} {s k : ℕ} {a o : Bool} {end : List Arg} {m : Outcome}
    (taken : Option (List Arg))
    → Option.map {B = Bool × List Arg} (λ tl. (a, tl)) taken ≡ some (o, end)
    → ((tl : List Arg) → taken ≡ some tl → After target s k a tl m)
    → After target s k o end m
settle none e r = cc
settle {target} {s} {k} {a} {o} {end} {m} (some tl) e r =
    let eo : a ≡ o = ground arith in
    let et : tl ≡ end = ground arith in
    subst (λ o. After target s k o end m) eo
      (subst (λ end. After target s k a end m) et (r tl refl))

module _ {target : Target} {s : ℕ} where
  -- An empty field behind a boundary of the format.
  pub skip-After :
      (p : Packer)
      → IsInside target s s false p
      → p.cryptstart ≡ length p.out
      → After target s 0 true p.args (skip s p)
  unfolding skip
  skip-After p v e = after (skip s p) (
      ground (
        arith,
        length-take s p.rest,
        length-drop (length p.out) target.bytes,
        length-append p.out (take s p.rest),
        drop-drop (length p.out) s target.bytes,
      ))

  pub clear_at-After :
      (p : Packer)
      → IsInside target s 0 true p
      → After target s 0 true p.args (clear_at p.cryptstart s p)
  unfolding clear_at
  clear_at-After p v =
      let whole = p.out ++ p.rest in
      let front = take p.cryptstart whole in
      let back = drop (p.cryptstart + s) whole in
      let pos = length p.out in
      let lw = length-append p.out p.rest in
      let lf : length front ≡ p.cryptstart =
        omega (arith, length-take p.cryptstart whole, v.sealed_in refl, lw) in
      let lz = length-replicate {A = ℕ} s 0 in
      let lc : length (front ++ (replicate s 0 ++ back)) ≡ length whole = omega (
        arith,
        lf,
        lz,
        lw,
        v.sealed_in refl,
        length-append front (replicate s 0 ++ back),
        length-append (replicate s 0) back,
        length-drop (p.cryptstart + s) whole,
      ) in
      let behind = drop-overlay p.cryptstart s p.out p.rest (v.sealed_in refl) in
      after (clear_at p.cryptstart s p) (
        ground
          (arith, lw, lc, behind, v.sealed_in, length-take pos (front ++ (replicate s 0 ++ back))))

module _ (sod : Sodium) (laws : IsSodium sod) {target : Target} where
  pub signature-After :
      (o : Bool) (p : Packer) {tl : List Arg}
      → consume_block (λ _. true) p.args ≡ some tl
      → IsInside target sod.seal_bytes 0 o p
      → After target sod.seal_bytes 0 o tl (signature sod p)
  unfolding signature
  signature-After o p {tl} c v =
      and_then-After _ (reserve-After sod.sign_bytes p v (omega (arith, laws.sign_small))) λ q w e.
        on_block-After {tl = tl} (λ _. true) q.args q _ (rw e c) w
          λ b _ r u eq. rw (← eq) (signed_by b r u)
    where
      signed_by :
          (b : Option (List ℕ)) (r : Packer)
          → IsInside target sod.seal_bytes sod.sign_bytes o r
          → After target sod.seal_bytes 0 o r.args (elim b [
            | none ↦ emit (replicate sod.sign_bytes 0) r
            | some sk ↦ emit (sod.sign_detached (drop r.sigstart r.out) sk) r
          ])
      signed_by none r u =
          emit-After _ sod.sign_bytes 0 r u
            (omega (arith, length-replicate {A = ℕ} sod.sign_bytes 0))
      signed_by (some sk) r u =
          emit-After _ sod.sign_bytes 0 r u
            (omega (arith, laws.length-sign_detached (drop r.sigstart r.out) sk))

  pub seal-After :
      (o : Bool) (p : Packer) {tl : List Arg}
      → consume_block (λ _. true) p.args ≡ some tl
      → IsInside target sod.seal_bytes 0 o p
      → After target sod.seal_bytes 0 true tl (seal sod p)
  unfolding seal
  seal-After o p {tl} c v =
      and_then-After _ (reserve-After sod.seal_bytes p v (omega (arith, laws.seal_small))) λ q w e.
        on_block-After {tl = tl} (λ _. true) q.args q _ (rw e c) w
          λ b _ r u eq.
            rw (← eq) (skip-After (record r { cryptstart = length r.out }) (ground arith) refl)
