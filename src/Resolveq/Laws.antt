-- ===== src/Resolveq/Laws.antt =====
-- The keys that are given out, as a map.
use mathlib.Core.Path.{subst}
use native.Mathlib.Decide.{dec_lt, ℕ_discrete}
use libtrp.Base.{
  ℕ, zero, suc, ◌+◌, ◌-◌, ◌^◌, ◌≤◌, ◌<◌, ◌≡◌, ◌≢◌, ◌⊎◌, inl, inr, refl, sym, ap, ◌∙◌, arith, Bool,
  true, false, Bool-cases, Option-cases, Option, none, some, List, [], ◌∷◌, ◌++◌, length,
  length-append, length-set, get_elem?, get_elem?-set_self, get_elem?-set_ne, get_elem?-lt,
  get_elem?-of_lt, set, npos, ◌==◌, if◌then◌else◌,
}
use libtrp.Connmap.{Slot, taken, vacant}
use libtrp.Connmap.Inv.{taken_at, count_taken, Chain, stop, link}
use libtrp.Connmap.Chain.{
  set-Chain, taken-Misses, count_taken-set_taken, count_taken-set_vacant, count_taken-pos,
}
use libtrp.Connmap.Place.{Chain-split}
use libtrp.Connmap.Add.{Chain-empty}
use libtrp.Resolveq.{Resolveq, init, enqueue, grow, pop_free, occupy, check_size, put, pop}

-- The free list goes through the slots that `size` does not count.
pub record IsValid (q : Resolveq) : Type 0 where
  pub len : length q.slots ≡ q.len
  pub small : q.len < 2 ^ 31
  pub chain : List ℕ
  pub free : Chain q.slots q.free chain
  pub rest : length chain + q.size ≡ q.len
  pub size : q.size ≡ count_taken q.slots

-- The connection of a key.
abbrev pub view : ℕ → Resolveq → Option ℕ
view k q = taken_at q.slots k

init-IsValid : IsValid init
init-IsValid = record {
  len = refl;
  small = omega arith;
  chain = [];
  free = stop;
  rest = refl;
  size = refl;
}

pub set-view :
    (ss : List Slot) (i x : ℕ) (s : Slot)
    → i < length ss
    → taken_at (set ss i s) x ≡ (if x == i then taken_at (s ∷ []) 0 else taken_at ss x)
set-view ss i x s lt = elim (ℕ_discrete x i) [
  | yes p ↦
      let a = get_elem?-set_self ss i s lt in ground (arith, p, ap (get_elem? (set ss i s)) p ∙ a)
  | no p ↦ ground (arith, p, get_elem?-set_ne ss i x s (λ q. p (sym q)))
]

-- Nothing is taken where nothing is counted.
nobody : (ss : List Slot) (x : ℕ) → count_taken ss ≡ 0 → taken_at ss x ≡ none
nobody [] x e = refl
nobody (taken c ∷ ss) x e = absurd (omega (arith, e))
nobody (vacant n ∷ ss) zero e = refl
nobody (vacant n ∷ ss) (suc x) e = nobody ss x e

check_size-IsValid :
    (q : Resolveq)
    → IsValid q
    → IsValid (check_size q) × ((k : ℕ) → view k (check_size q) ≡ view k q)
unfolding check_size
check_size-IsValid q v = elim (ℕ_discrete q.size 0) [
  | yes empty ↦
      let same : check_size q ≡ init = ground (arith, empty) in
      rw same (init-IsValid, λ k. sym (nobody q.slots k (sym v.size ∙ empty)))
  | no full ↦ let same : check_size q ≡ q = ground (arith, full) in rw same (v, λ k. refl)
]

set-last : (ss : List Slot) (s t : Slot) → set (ss ++ s ∷ []) (length ss) t ≡ ss ++ t ∷ []
set-last [] s t = refl
set-last (x ∷ ss) s t = ap (λ r. x ∷ r) (set-last ss s t)

get_elem?-last : (ss : List Slot) (s : Slot) → get_elem? (ss ++ s ∷ []) (length ss) ≡ some s
get_elem?-last [] s = refl
get_elem?-last (x ∷ ss) s = get_elem?-last ss s

taken_at-vacant : (ss : List Slot) (n x : ℕ) → taken_at (ss ++ vacant n ∷ []) x ≡ taken_at ss x
taken_at-vacant [] n zero = refl
taken_at-vacant [] n (suc x) = refl
taken_at-vacant (s ∷ ss) n zero = refl
taken_at-vacant (s ∷ ss) n (suc x) = taken_at-vacant ss n x

count_taken-vacant : (ss : List Slot) (n : ℕ) → count_taken (ss ++ vacant n ∷ []) ≡ count_taken ss
count_taken-vacant [] n = refl
count_taken-vacant (taken c ∷ ss) n = ap suc (count_taken-vacant ss n)
count_taken-vacant (vacant m ∷ ss) n = count_taken-vacant ss n

grow-poor : (q : Resolveq) → grow false q ≡ q
unfolding grow
grow-poor q = refl

-- A full queue with memory grows by one free slot.
grow-IsValid :
    (q : Resolveq)
    → IsValid q
    → q.free ≡ npos
    → q.len + 1 < 2 ^ 31
    → IsValid (grow true q)
      × ((k : ℕ) → view k (grow true q) ≡ view k q)
      × ((grow true q).free ≢ npos)
unfolding grow enqueue
grow-IsValid q v full small =
    let slots = q.slots ++ vacant q.free ∷ [] in
    let same : grow true q
        ≡ record { len = q.len + 1; size = q.size; slots = slots; free = q.len } =
      rw (← v.len, set-last q.slots (vacant npos) (vacant q.free)) refl in
    let at : get_elem? slots q.len ≡ some (vacant npos) =
      rw (← v.len) (get_elem?-last q.slots (vacant q.free) ∙ ap (λ n. some (vacant n)) full) in
    subst (λ g. IsValid g × ((k : ℕ) → view k g ≡ view k q) × (g.free ≢ npos)) (sym same)
      (
        record {
          len = omega (arith, length-append q.slots (vacant q.free ∷ []), v.len);
          small = small;
          chain = q.len ∷ [];
          free = link q.len npos [] at (omega (arith, small)) tt stop;
          rest = omega (arith, v.rest, ap length (Chain-empty full v.free));
          size = v.size ∙ sym (count_taken-vacant q.slots q.free);
        },
        taken_at-vacant q.slots q.free,
        omega (arith, small),
      )

-- A connection has a key that no other had.
pub record IsPut (c k : ℕ) (q q' : Resolveq) : Type 0 where
  pub valid : IsValid q'
  pub new : view k q ≡ none
  pub views : (j : ℕ) → view j q' ≡ (if j == k then some c else view j q)

occupy-IsPut :
    (c : ℕ) (q : Resolveq)
    → IsValid q
    → q.free ≢ npos
    → (k : ℕ) × (q' : Resolveq) × (occupy c q ≡ some (some k, q')) × IsPut c k q q'
unfolding occupy pop_free
occupy-IsPut c q v has =
    let (next, rest, e, split, miss, ch) = Chain-split q.slots has v.free in
    let inside = get_elem?-lt q.slots q.free e in
    (
      q.free,
      record q { free = next; size = q.size + 1; slots = set q.slots q.free (taken c) },
      ground (arith, e),
      record {
        valid = record {
          len = length-set q.slots q.free (taken c) ∙ v.len;
          small = v.small;
          chain = rest;
          free = set-Chain q.slots q.free (taken c) miss ch;
          rest = ground (arith, v.rest, ap length split);
          size = omega (arith, v.size, count_taken-set_taken q.slots q.free next c e);
        };
        new = ground (arith, e);
        views = λ j. set-view q.slots q.free j (taken c) inside;
      },
    )

-- On a valid queue of less than 2^31 - 1 slots, `resolveq_put` gives a connection a key that was not in use
-- and leaves all others; without memory for a new slot it answers -1 and changes nothing.
pub put-IsPut :
    (mem_ok : Bool) (c : ℕ) (q : Resolveq)
    → IsValid q
    → q.len + 1 < 2 ^ 31
    → ((mem_ok ≡ false) × (put mem_ok c q ≡ some (none, q)))
      ⊎ ((k : ℕ) × (q' : Resolveq) × (put mem_ok c q ≡ some (some k, q')) × IsPut c k q q')
unfolding put
put-IsPut mem_ok c q v small = elim (ℕ_discrete q.free npos) [
  | no has ↦ let (k, q', e, p) = occupy-IsPut c q v has in inr (k, q', ground (arith, has, e), p)
  | yes full ↦ elim (Bool-cases mem_ok) [
    | inr poor ↦ inl (poor, rw poor (ground (arith, full, grow-poor q)))
    | inl rich ↦
        let (w, same, has) = grow-IsValid q v full small in
        let (k, q', e, p) = occupy-IsPut c (grow true q) w has in
        inr (
          k,
          q',
          rw rich (ground (arith, full, has, e)),
          record {
            valid = p.valid;
            new = sym (same k) ∙ p.new;
            views = λ j. ground (arith, p.views j, same j);
          },
        )
  ]
]

-- On a valid queue, `resolveq_pop` of a key answers its connection, or NULL for one not in use, and leaves a
-- valid queue without the key and with all others.
pub pop-view :
    (k : ℕ) (q : Resolveq)
    → IsValid q
    → (q' : Resolveq) × (pop (some k) q
        ≡ some (elim (view k q) as (λ _. ℕ) [ none ↦ 0 | some c ↦ c ], q'))
      × IsValid q'
      × ((j : ℕ) → view j q' ≡ (if j == k then none else view j q))
unfolding pop enqueue
pop-view k q v = elim (Option-cases (get_elem? q.slots k)) [
  | inl e ↦
      let out : q.len ≤ k = elim (dec_lt k q.len) [
        | no p ↦ omega (arith, p)
        | yes p ↦
            let (s, g) = get_elem?-of_lt q.slots k (omega (arith, p, v.len)) in
            absurd (ground (arith, e, g))
      ] in
      (q, ground (arith, e, out), v, λ j. ground (arith, e, ap (get_elem? q.slots) {x = j} {y = k}))
  | inr (vacant n, e) ↦
      let (w, same) = check_size-IsValid q v in
      let lt = get_elem?-lt q.slots k e in
      (
        check_size q,
        ground (arith, e, lt, v.len),
        w,
        λ j. ground (arith, same j, e, ap (get_elem? q.slots) {x = j} {y = k}),
      )
  | inr (taken c, e) ↦
      let q1 = record q { slots = set q.slots k (vacant q.free); free = k; size = q.size - 1 } in
      let lt = get_elem?-lt q.slots k e in
      let miss = taken-Misses q.slots k c e v.free in
      let pos = count_taken-pos q.slots k c e in
      let v1 : IsValid q1 = record {
        len = length-set q.slots k (vacant q.free) ∙ v.len;
        small = v.small;
        chain = k ∷ v.chain;
        free =
            link k q.free v.chain (get_elem?-set_self q.slots k (vacant q.free) lt)
              (omega (arith, lt, v.len, v.small)) miss
              (set-Chain q.slots k (vacant q.free) miss v.free);
        rest = omega (arith, v.rest, v.size, pos);
        size = omega (arith, v.size, count_taken-set_vacant q.slots k q.free c e);
      } in
      let (w, same) = check_size-IsValid q1 v1 in
      (
        check_size q1,
        ground (arith, e, lt, v.len),
        w,
        λ j. same j ∙ set-view q.slots k j (vacant q.free) lt,
      )
]
