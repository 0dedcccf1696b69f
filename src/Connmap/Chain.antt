-- ===== src/Connmap/Chain.antt =====
-- What the free list and the counts become where a slot is written.
use libtrp.Base.{ℕ, zero, suc, ◌+◌, ◌≤◌, ◌<◌, ◌≡◌, refl, ◌∙◌, ap, arith}
use libtrp.Base.{some, List, [], ◌∷◌, length, set, get_elem?}
use libtrp.Base.{get_elem?-set_self, get_elem?-set_ne, get_elem?-lt, length-set}
use libtrp.Connmap.{Slot, taken, vacant, Connmap, npos, push, push_all}
use libtrp.Connmap.Inv.{taken_at, count_taken, Misses, Chain, stop, link}

pub set-Chain :
    (ss : List Slot) (i : ℕ) (s : Slot) {f : ℕ} {l : List ℕ}
    → Misses i l
    → Chain ss f l
    → Chain (set ss i s) f l
set-Chain ss i s miss stop = stop
set-Chain ss i s miss (link f next l e lt m c) =
    link f next l (get_elem?-set_ne ss i f s (miss.0) ∙ e) lt m (set-Chain ss i s (miss.1) c)

pub taken-Misses :
    (ss : List Slot) (i c : ℕ) {f : ℕ} {l : List ℕ}
    → get_elem? ss i ≡ some (taken c)
    → Chain ss f l
    → Misses i l
taken-Misses ss i c e stop = tt
taken-Misses ss i c e (link f next l g lt m ch) =
    (λ same. ground (arith, e, g, ap (get_elem? ss) same), taken-Misses ss i c e ch)

pub count_taken-set_taken :
    (ss : List Slot) (i n c : ℕ)
    → get_elem? ss i ≡ some (vacant n)
    → count_taken (set ss i (taken c)) ≡ count_taken ss + 1
count_taken-set_taken [] i n c e = ground arith
count_taken-set_taken (vacant m ∷ ss) zero n c e = omega arith
count_taken-set_taken (taken m ∷ ss) zero n c e = ground arith
count_taken-set_taken (vacant m ∷ ss) (suc i) n c e = count_taken-set_taken ss i n c e
count_taken-set_taken (taken m ∷ ss) (suc i) n c e = omega (arith, count_taken-set_taken ss i n c e)

pub count_taken-set_vacant :
    (ss : List Slot) (i n c : ℕ)
    → get_elem? ss i ≡ some (taken c)
    → count_taken (set ss i (vacant n)) + 1 ≡ count_taken ss
count_taken-set_vacant [] i n c e = ground arith
count_taken-set_vacant (taken m ∷ ss) zero n c e = omega arith
count_taken-set_vacant (vacant m ∷ ss) zero n c e = ground arith
count_taken-set_vacant (vacant m ∷ ss) (suc i) n c e = count_taken-set_vacant ss i n c e
count_taken-set_vacant (taken m ∷ ss) (suc i) n c e =
    omega (arith, count_taken-set_vacant ss i n c e)

pub count_taken-set_same :
    (ss : List Slot) (i n c : ℕ)
    → get_elem? ss i ≡ some (vacant c)
    → count_taken (set ss i (vacant n)) ≡ count_taken ss
count_taken-set_same [] i n c e = refl
count_taken-set_same (vacant m ∷ ss) zero n c e = refl
count_taken-set_same (taken m ∷ ss) zero n c e = ground arith
count_taken-set_same (vacant m ∷ ss) (suc i) n c e = count_taken-set_same ss i n c e
count_taken-set_same (taken m ∷ ss) (suc i) n c e = ap suc (count_taken-set_same ss i n c e)

-- A slot that is taken is counted.
pub count_taken-pos :
    (ss : List Slot) (i c : ℕ) → get_elem? ss i ≡ some (taken c) → 0 < count_taken ss
count_taken-pos [] i c e = ground arith
count_taken-pos (taken m ∷ ss) i c e = omega arith
count_taken-pos (vacant m ∷ ss) zero c e = ground arith
count_taken-pos (vacant m ∷ ss) (suc i) c e = count_taken-pos ss i c e

abbrev pub Below : ℕ → List ℕ → Type 0
Below n [] = Unit
Below n (j ∷ l) = (j < n) × Below n l

Below-suc : (n : ℕ) (l : List ℕ) → Below n l → Below (n + 1) l
Below-suc n [] b = tt
Below-suc n (j ∷ l) b = (omega (arith, b.0), Below-suc n l (b.1))

Below-Misses : (n : ℕ) (l : List ℕ) → Below n l → Misses n l
Below-Misses n [] b = tt
Below-Misses n (j ∷ l) b = (omega (arith, b.0), Below-Misses n l (b.1))

-- The slots from `i` to `i + n` are vacant.
abbrev pub AreVacant : List Slot → ℕ → ℕ → Type 0
AreVacant ss i n = (x : ℕ) → i ≤ x → x < i + n → (v : ℕ) × (get_elem? ss x ≡ some (vacant v))

-- `m'` has the connections of `m`, and `n` more free slots.
pub record Freed (n : ℕ) (m m' : Connmap) (l : List ℕ) : Type 0 where
  pub list : List ℕ
  pub chain : Chain m'.slots m'.free list
  pub more : length list ≡ n + length l
  pub len : length m'.slots ≡ length m.slots
  pub count : count_taken m'.slots ≡ count_taken m.slots
  pub same : (x : ℕ) → taken_at m'.slots x ≡ taken_at m.slots x
  pub others : m' ≡ record m { slots = m'.slots; free = m'.free }

taken_at-set_vacant :
    (ss : List Slot) (i n c x : ℕ)
    → get_elem? ss i ≡ some (vacant c)
    → taken_at (set ss i (vacant n)) x ≡ taken_at ss x
taken_at-set_vacant [] i n c x e = refl
taken_at-set_vacant (vacant m ∷ ss) zero n c zero e = refl
taken_at-set_vacant (taken m ∷ ss) zero n c zero e = ground arith
taken_at-set_vacant (s ∷ ss) zero n c (suc x) e = refl
taken_at-set_vacant (s ∷ ss) (suc i) n c zero e = refl
taken_at-set_vacant (s ∷ ss) (suc i) n c (suc x) e = taken_at-set_vacant ss i n c x e

pub push_all-Freed :
    (n i : ℕ) (m : Connmap) (l : List ℕ)
    → Chain m.slots m.free l
    → Below i l
    → AreVacant m.slots i n
    → i + n < npos
    → Freed n m (push_all n i m) l
unfolding push_all push
push_all-Freed zero i m l c b v h = record {
  list = l;
  chain = c;
  more = omega arith;
  len = refl;
  count = refl;
  same = λ x. refl;
  others = refl;
}
push_all-Freed (suc n) i m l c b v h =
    let (w, e) = v i (omega arith) (omega arith) in
    let chain =
      link i m.free l (get_elem?-set_self m.slots i (vacant m.free) (get_elem?-lt m.slots i e))
        (omega arith) (Below-Misses i l b)
        (set-Chain m.slots i (vacant m.free) (Below-Misses i l b) c) in
    let r =
      push_all-Freed n (i + 1) (push i m) (i ∷ l) chain (omega arith, Below-suc i l b) later
        (omega arith) in
    record {
      list = r.list;
      chain = r.chain;
      more = omega (arith, r.more);
      len = r.len ∙ length-set m.slots i (vacant m.free);
      count = r.count ∙ count_taken-set_same m.slots i m.free w e;
      same = λ x. r.same x ∙ taken_at-set_vacant m.slots i m.free w x e;
      others = ground (arith, r.others);
    }
  where
    later : AreVacant (set m.slots i (vacant m.free)) (i + 1) n
    later x lo hi =
        let (w, e) = v x (omega arith) (omega arith) in
        (w, get_elem?-set_ne m.slots i x (vacant m.free) (omega arith) ∙ e)
