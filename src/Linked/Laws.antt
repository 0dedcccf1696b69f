-- ===== src/Linked/Laws.antt =====
-- The elements that a list goes through, and what an element added at the end makes of them.
use libtrp.Base.{
  ℕ, ◌≡◌, ◌≢◌, refl, sym, ap, arith, Bool, true, false, ◌||◌, Option, none, some, List, [], ◌∷◌,
  ◌++◌, ◌==◌,
}
use libtrp.Linked.{Next, Ends, update, enqueue}

abbrev pub occurs : ℕ → List ℕ → Bool
occurs p [] = false
occurs p (q ∷ l) = (p == q) || occurs p l

-- The elements from a pointer on to NULL, each once.
pub data Links (nx : Next) : Option ℕ → List ℕ → Type 0 where
  done : Links nx none []
  link : (p : ℕ) (l : List ℕ) → occurs p l ≡ false → Links nx (nx p) l → Links nx (some p) (p ∷ l)

abbrev pub last_or : Option ℕ → List ℕ → Option ℕ
last_or o [] = o
last_or o (p ∷ l) = last_or (some p) l

-- The list between the two ends.
pub record IsList (q : Ends) (nx : Next) (l : List ℕ) : Type 0 where
  pub links : Links nx q.head l
  pub tail : q.tail ≡ last_or none l

pub occurs-append : (p : ℕ) (xs ys : List ℕ) → occurs p (xs ++ ys) ≡ (occurs p xs || occurs p ys)
occurs-append p [] ys = refl
occurs-append p (x ∷ xs) ys = ground (arith, occurs-append p xs ys)

pub Links-nil : (nx : Next) (h : Option ℕ) → Links nx h [] → h ≡ none
Links-nil nx h done = refl

pub Links-cons :
    (nx : Next) (h : Option ℕ) (c : ℕ) (l : List ℕ)
    → Links nx h (c ∷ l)
    → (h ≡ some c) × (occurs c l ≡ false) × Links nx (nx c) l
Links-cons nx h c l (link _ _ out s) = (refl, out, s)

pub occurs_ne : (x p : ℕ) (l : List ℕ) → occurs x l ≡ false → occurs p l ≡ true → x ≢ p
occurs_ne x p l h g e = ground (arith, h, ap (λ y. occurs y l) e, g)

-- A write at an element that the list does not have.
pub update-Links :
    (nx : Next) (p : ℕ) (v h : Option ℕ) (l : List ℕ)
    → occurs p l ≡ false
    → Links nx h l
    → Links (update nx p v) h l
unfolding update
update-Links nx p v h l miss done = done
update-Links nx p v h l miss (link q l' out s) =
    let rest = update-Links nx p v (nx q) l' (ground (arith, miss)) s in
    let same : update nx p v q ≡ nx q = ground (arith, miss) in link q l' out (rw same rest)

pub last_or-occurs : (t p : ℕ) (l : List ℕ) → last_or (some p) l ≡ some t → occurs t (p ∷ l) ≡ true
last_or-occurs t p [] e = ground (arith, e)
last_or-occurs t p (q ∷ l) e = ground (arith, last_or-occurs t q l e)

-- An element put behind the last one.
pub append-Links :
    (nx : Next) (m t : ℕ) (o h : Option ℕ) (l : List ℕ)
    → occurs m l ≡ false
    → l ≢ []
    → last_or o l ≡ some t
    → Links nx h l
    → Links (update (update nx t (some m)) m none) h (l ++ m ∷ [])
unfolding update
append-Links nx m t o h l miss full e done = absurd (full refl)
append-Links nx m t o h l miss full e (link p [] out s) =
    let at_m : update (update nx t (some m)) m none m ≡ none = ground arith in
    let at_p : update (update nx t (some m)) m none p ≡ some m = ground (arith, miss, e) in
    let inner : Links (update (update nx t (some m)) m none) (some m) (m ∷ []) =
      link m [] refl (rw at_m done) in
    link p (m ∷ []) (ground (arith, miss)) (rw at_p inner)
append-Links nx m t o h l miss full e (link p (q ∷ l') out s) =
    let inside = last_or-occurs t q l' e in
    let at_p : update (update nx t (some m)) m none p ≡ nx p = ground (arith, miss, inside, out) in
    let rest = append-Links nx m t (some p) (nx p) (q ∷ l') (ground (arith, miss)) (λ z. cc) e s in
    link p (q ∷ (l' ++ m ∷ [])) (ground (arith, occurs-append p (q ∷ l') (m ∷ []), miss, out))
      (rw at_p rest)

pub last_or-append : (o : Option ℕ) (l : List ℕ) (m : ℕ) → last_or o (l ++ m ∷ []) ≡ some m
last_or-append o [] m = refl
last_or-append o (p ∷ l) m = last_or-append (some p) l m

pub last_or-some : (p : ℕ) (l : List ℕ) → (t : ℕ) × (last_or (some p) l ≡ some t)
last_or-some p [] = (p, refl)
last_or-some p (q ∷ l) = last_or-some q l

-- `enqueue` puts an element that the list does not have at its end.
pub enqueue-IsList :
    (q : Ends) (nx : Next) (l : List ℕ) (m : ℕ)
    → IsList q nx l
    → occurs m l ≡ false
    → let (q', nx') = enqueue m q nx in IsList q' nx' (l ++ m ∷ [])
unfolding enqueue update
enqueue-IsList q nx [] m v miss =
    let e : enqueue m q nx ≡ (record { head = some m; tail = some m }, update nx m none) =
      ground (arith, v.tail) in
    let at_m : update nx m none m ≡ none = ground arith in
    rw e (record { links = link m [] refl (rw at_m done); tail = refl })
enqueue-IsList q nx (p ∷ l) m v miss =
    let (t, last) = last_or-some p l in
    let e : enqueue m q nx ≡ (record q { tail = some m }, update (update nx t (some m)) m none) =
      ground (arith, v.tail, last) in
    rw e (record {
      links = append-Links nx m t none q.head (p ∷ l) miss (λ z. cc) last v.links;
      tail = sym (last_or-append (some p) l m);
    })
