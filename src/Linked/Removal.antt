-- ===== src/Linked/Removal.antt =====
-- The search for an element, and the list without it.
use native.Mathlib.Decide.{ℕ_discrete}
use libtrp.Base.{
  ℕ, zero, suc, ◌≤◌, ◌≡◌, refl, ap, arith, false, ◌⊎◌, inl, inr, Option, none, some, List, [], ◌∷◌,
  ◌++◌, length,
}
use libtrp.Linked.{Next, Ends, missing, behind, update, seek, unlink}
use libtrp.Linked.Laws.{
  occurs, Links, done, link, last_or, last_or-occurs, last_or-some, Links-cons, occurs_ne,
  occurs-append, update-Links,
}

-- How the list around an element splits.
pub record Split (c : ℕ) (l : List ℕ) : Type 0 where
  pub before : List ℕ
  pub after : List ℕ
  pub whole : l ≡ before ++ c ∷ after

-- With fuel for each element, the search ends: the element is missing, or is found behind the last of
-- those before it.
pub seek_lem :
    (nx : Next) (c fuel : ℕ) (prev h : Option ℕ) (l : List ℕ)
    → Links nx h l
    → length l ≤ fuel
    → ((occurs c l ≡ false) × (seek fuel nx c prev h ≡ some missing))
      ⊎ ((s : Split c l) × (seek fuel nx c prev h ≡ some (behind (last_or prev s.before))))
unfolding seek
seek_lem nx c fuel prev h l done le = inl (refl, ground arith)
seek_lem nx c zero prev h l (link p l' out s) le = absurd (omega arith)
seek_lem nx c (suc fuel) prev h l (link p l' out s) le = elim (ℕ_discrete p c) [
  | yes same ↦
      inr (record { before = []; after = l'; whole = ap (λ x. x ∷ l') same }, ground (arith, same))
  | no other ↦ elim (seek_lem nx c fuel (some p) (nx p) l' s (omega arith)) [
    | inl (miss, e) ↦ inl (ground (arith, miss, other), ground (arith, e, other))
    | inr (split, e) ↦ inr (
      record {
        before = p ∷ split.before;
        after = split.after;
        whole = ap (λ x. p ∷ x) split.whole;
      },
      ground (arith, e, other),
    )
  ]
]

-- What `unlink` leaves behind an element before.
pub unlink-Links :
    (nx : Next) (c p : ℕ) (o h : Option ℕ) (x : ℕ) (before after : List ℕ)
    → last_or (some x) before ≡ some p
    → Links nx h (x ∷ (before ++ c ∷ after))
    → Links (update nx p (nx c)) h (x ∷ (before ++ after))
unfolding update
unlink-Links nx c p o h x [] after e (link _ l out s) =
    let (_, _, s') = Links-cons nx (nx x) c after s in
    let at_x : update nx p (nx c) x ≡ nx c = ground (arith, e) in
    let rest = update-Links nx p (nx c) (nx c) after (ground (arith, e, out)) s' in
    link x after (ground (arith, out)) (rw at_x rest)
unlink-Links nx c p o h x (y ∷ before) after e (link _ l out s) =
    let inside = last_or-occurs p y before e in
    let apart : occurs x (y ∷ before) ≡ false =
      ground (arith, out, occurs-append x (y ∷ before) (c ∷ after)) in
    let other = occurs_ne x p (y ∷ before) apart inside in
    let at_x : update nx p (nx c) x ≡ nx x = ground (arith, other) in
    let rest = unlink-Links nx c p o (nx x) y before after e s in
    link x (y ∷ (before ++ after))
      (ground
        (arith, out, occurs-append x (y ∷ before) (c ∷ after), occurs-append x (y ∷ before) after))
      (rw at_x rest)

-- The list without an element, when its predecessor or the head is made to skip it.
pub removed-Links :
    (q : Ends) (nx : Next) (c : ℕ) (before after : List ℕ)
    → Links nx q.head (before ++ c ∷ after)
    → let (q', nx') = unlink (last_or none before) c q nx in Links nx' q'.head (before ++ after)
unfolding unlink
removed-Links q nx c [] after s = (Links-cons nx q.head c after s).2
removed-Links q nx c (x ∷ before) after s =
    let (p, e) = last_or-some x before in
    let e' : unlink (last_or none (x ∷ before)) c q nx ≡ (q, update nx p (nx c)) =
      ground (arith, e) in
    rw e' (unlink-Links nx c p none q.head x before after e s)

pub Links-apart :
    (nx : Next) (h : Option ℕ) (c : ℕ) (before after : List ℕ)
    → Links nx h (before ++ c ∷ after)
    → occurs c (before ++ after) ≡ false
Links-apart nx h c [] after (link _ _ out s) = out
Links-apart nx h c (x ∷ before) after (link _ _ out s) =
    ground (arith, out, occurs-append x before (c ∷ after), Links-apart nx (nx x) c before after s)

pub last_or-without :
    (o : Option ℕ) (before : List ℕ) (c x : ℕ) (after : List ℕ)
    → last_or o (before ++ c ∷ x ∷ after) ≡ last_or o (before ++ x ∷ after)
last_or-without o [] c x after = refl
last_or-without o (y ∷ before) c x after = last_or-without (some y) before c x after

pub unlink-tail :
    (prev : Option ℕ) (c : ℕ) (q : Ends) (nx : Next) → (unlink prev c q nx).0.tail ≡ q.tail
unfolding unlink
unlink-tail none c q nx = refl
unlink-tail (some p) c q nx = refl
