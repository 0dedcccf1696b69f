-- ===== src/Pack/Encode/Safety.antt =====
-- `trip_pack` stays inside the caller's storage.
use libtrp.Base.{ℕ, ◌+◌, ◌%◌, ◌^◌, ◌≤◌, ◌<◌, ◌≡◌, arith}
use libtrp.Base.{
  Bool, true, false, Option, none, some, List, [], ◌∷◌, length, take, drop, replicate, u8,
}
use libtrp.Base.{
  Bool-cases, inl, inr, leb, if◌then◌else◌, length-append, length-take, length-drop,
  length-replicate, drop-drop,
}
use libtrp.Pack.Format.{Arg, word, block}
use libtrp.Pack.Encode.{
  Packer, Outcome, next, npos, fault, and_then, reserve, emit, on_word, on_block, copy,
  block_or_zeros, fixed, variable, uvar_len, le_bytes,
}
use libtrp.Pack.Varint.{length-le_bytes, uvar_len-le}
use native.Mathlib.Nat.{mod-lt, one-le-pow}
use mathlib.Core.Path.{subst}

-- The caller's storage from `buf` on, and the capacity that it states.
pub record Target : Type 0 where
  pub bytes : List ℕ
  pub cap : ℕ

-- `pending` bytes are reserved and not written, what lies behind `buf` is the caller's, and an open
-- seal (`sealed`) lies within what is written.
pub record IsInside (target : Target) (seal_bytes pending : ℕ) (sealed : Bool) (p : Packer)
    : Type 0 where
  pub counted : p.size ≡ length p.out + pending
  pub within : p.size ≤ p.cap
  pub same_cap : p.cap ≡ target.cap
  pub room : p.cap ≤ length target.bytes
  pub small : p.cap < 2 ^ 63
  pub untouched : p.rest ≡ drop (length p.out) target.bytes
  pub sealed_in : sealed ≡ true → p.cryptstart + seal_bytes ≤ length p.out

-- What a step leaves: `pending` bytes to write and the arguments `tl`. There is no undefined behaviour.
abbrev pub Holds : Target → ℕ → ℕ → Bool → List Arg → Outcome → Type 0
Holds target s k o tl (next p) = IsInside target s k o p × (p.args ≡ tl)
Holds target s k o tl (npos p) = IsInside target s 0 false p
Holds target s k o tl fault = ⊥

pub data After (target : Target) (s k : ℕ) (o : Bool) (tl : List Arg) : Outcome → Type 0 where
  at_next : {p : Packer} → IsInside target s k o p → p.args ≡ tl → After target s k o tl (next p)
  at_npos : {p : Packer} → IsInside target s 0 false p → After target s k o tl (npos p)

pub after :
    {target : Target} {s k : ℕ} {o : Bool} {tl : List Arg} (m : Outcome)
    → Holds target s k o tl m
    → After target s k o tl m
after (next p) h = at_next h.0 h.1
after (npos p) h = at_npos h
after fault h = elim h [ ]

module _ {target : Target} {s : ℕ} {o : Bool} where
  pub emit-After :
      (bytes : List ℕ) (n k : ℕ) (p : Packer)
      → IsInside target s n o p
      → n ≡ length bytes + k
      → After target s k o p.args (emit bytes p)
  unfolding emit
  emit-After bytes n k p v e = after (emit bytes p) (
      ground (
        arith,
        length-drop (length p.out) target.bytes,
        length-append p.out bytes,
        drop-drop (length p.out) (length bytes) target.bytes,
      ))

  pub reserve-After :
      (n : ℕ) (p : Packer)
      → IsInside target s 0 o p
      → n ≤ 2 ^ 32
      → After target s n o p.args (reserve n p)
  unfolding reserve
  reserve-After n p v le = after (reserve n p) (ground arith)

  pub and_then-After :
      {k j : ℕ} {o' : Bool} {mid tl : List Arg} {m : Outcome} (f : Packer → Outcome)
      → After target s k o mid m
      → ((p : Packer) → IsInside target s k o p → p.args ≡ mid → After target s j o' tl (f p))
      → After target s j o' tl (and_then m f)
  and_then-After f (at_next v e) r = r _ v e
  and_then-After f (at_npos v) r = at_npos v

-- What a format character takes from the arguments, if they are what it expects.
unfoldable pub consume_word : (ℕ → Bool) → List Arg → Option (List Arg)
consume_word fits (word n ∷ tl) = if fits n then some tl else none
consume_word fits _ = none

unfoldable pub consume_block : (Option (List ℕ) → Bool) → List Arg → Option (List Arg)
consume_block fits (block b ∷ tl) = if fits b then some tl else none
consume_block fits _ = none

module _ {target : Target} {s k j : ℕ} {o o' : Bool} {tl end : List Arg} where
  pub on_word-After :
      (fits : ℕ → Bool) (args : List Arg) (p : Packer) (f : ℕ → Packer → Outcome)
      → consume_word fits args ≡ some tl
      → IsInside target s k o p
      → ((n : ℕ)
          → fits n ≡ true
          → (q : Packer) → IsInside target s k o q
          → q.args ≡ tl
          → After target s j o' end (f n q))
      → After target s j o' end (on_word args p f)
  unfolding consume_word on_word
  on_word-After fits [] p f c v r = cc
  on_word-After fits (block b ∷ xs) p f c v r = cc
  on_word-After fits (word n ∷ xs) p f c v r = elim (Bool-cases (fits n)) [
    | inl e ↦ r n e (record p { args = xs }) (ground arith) (ground arith)
    | inr e ↦ ground arith
  ]

  pub on_block-After :
      (fits : Option (List ℕ) → Bool) (args : List Arg) (p : Packer)
      (f : Option (List ℕ) → Packer → Outcome)
      → consume_block fits args ≡ some tl
      → IsInside target s k o p
      → ((b : Option (List ℕ))
          → fits b ≡ true
          → (q : Packer) → IsInside target s k o q
          → q.args ≡ tl
          → After target s j o' end (f b q))
      → After target s j o' end (on_block args p f)
  unfolding consume_block on_block
  on_block-After fits [] p f c v r = cc
  on_block-After fits (word n ∷ xs) p f c v r = cc
  on_block-After fits (block b ∷ xs) p f c v r = elim (Bool-cases (fits b)) [
    | inl e ↦ r b e (record p { args = xs }) (ground arith) (ground arith)
    | inr e ↦ ground arith
  ]

-- A pointer to `n` readable bytes, or NULL.
abbrev pub readable : ℕ → Option (List ℕ) → Bool
readable n none = true
readable n (some source) = leb n (length source)

module _ {target : Target} {s : ℕ} {o : Bool} where
  pub copy-After :
      (n k : ℕ) (source : List ℕ) (p : Packer)
      → n ≤ length source
      → IsInside target s (n + k) o p
      → After target s k o p.args (copy n source p)
  unfolding copy
  copy-After n k source p le v = elim (Bool-cases (leb n (length source))) [
    | inl e ↦ rw e (emit-After (take n source) (n + k) k p v (ground (arith, length-take n source)))
    | inr e ↦ absurd (ground arith)
  ]

  pub fixed-After :
      (n : ℕ) (bytes : ℕ → List ℕ) (p : Packer) {tl : List Arg}
      → ((v : ℕ) → length (bytes v) ≡ n)
      → n ≤ 2 ^ 16
      → consume_word (λ _. true) p.args ≡ some tl
      → IsInside target s 0 o p
      → After target s 0 o tl (fixed n bytes p)
  unfolding fixed
  fixed-After n bytes p {tl} len le c v =
      and_then-After _ (reserve-After n p v (omega arith)) λ q w e.
        on_word-After {tl = tl} (λ _. true) q.args q _ (rw e c) w
          λ x _ r u eq. rw (← eq) (emit-After (bytes x) n 0 r u (omega (arith, len x)))

  pub block_or_zeros-After :
      (n : ℕ) (p : Packer) {tl : List Arg}
      → n ≤ 2 ^ 16
      → consume_block (readable n) p.args ≡ some tl
      → IsInside target s 0 o p
      → After target s 0 o tl (block_or_zeros n p)
  unfolding block_or_zeros
  block_or_zeros-After n p {tl} le c v =
      and_then-After _ (reserve-After n p v (omega arith)) λ q w e.
        on_block-After {tl = tl} (readable n) q.args q _ (rw e c) w
          (λ b fit r u eq. rw (← eq) (given b fit r u))
    where
      given :
          (b : Option (List ℕ))
          → readable n b ≡ true
          → (r : Packer) → IsInside target s n o r
          → After target s 0 o r.args
              (elim b [ none ↦ emit (replicate n 0) r | some source ↦ copy n source r ])
      given none fit r u =
          emit-After (replicate n 0) n 0 r u (omega (arith, length-replicate {A = ℕ} n 0))
      given (some source) fit r u = copy-After n 0 source r (ground arith) (ground arith)

module _ {target : Target} {s : ℕ} {o : Bool} where
  pub variable-After :
      (w b : ℕ) (p : Packer) {tl : List Arg}
      → 2 ^ w ≡ 256 ^ b
      → b ≤ 8
      → consume_word (λ _. true) p.args ≡ some tl
      → IsInside target s 0 o p
      → After target s 0 o tl (variable w p)
  unfolding variable
  variable-After w b p {tl} pw le c v =
      on_word-After {tl = tl} (λ _. true) p.args p _ c v
        λ x _ q u e.
          let n = x % 2 ^ w in
          let low : n < 2 ^ w = mod-lt x (one-le-pow w 2 (omega arith)) in
          let few : uvar_len n ≤ b = uvar_len-le b n le (subst (λ t. n < t) pw low) in
          and_then-After _ (reserve-After (uvar_len n + 1) q u (omega arith)) λ r t eq.
            rw (← e, ← eq)
              (emit-After (u8 (uvar_len n) ∷ le_bytes (uvar_len n) n) (uvar_len n + 1) 0 r t
                (omega (arith, length-le_bytes (uvar_len n) n)))
