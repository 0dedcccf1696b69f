-- ===== src/Resolveq/Dropped.antt =====
-- What `resolveq_del` leaves: a slot in use, without a connection.
use libtrp.Base.{
  ℕ, ◌≡◌, refl, ap, arith, Option-cases, inl, inr, some, List, [], ◌∷◌, length-set, get_elem?,
  get_elem?-lt, set, suc, zero, ◌==◌, if◌then◌else◌, ◌∙◌,
}
use libtrp.Connmap.{Slot, taken, vacant}
use libtrp.Connmap.Inv.{count_taken}
use libtrp.Connmap.Chain.{set-Chain, taken-Misses}
use libtrp.Resolveq.{Resolveq, del}
use libtrp.Resolveq.Laws.{IsValid, view, set-view}

count_taken-refill :
    (ss : List Slot) (k c d : ℕ)
    → get_elem? ss k ≡ some (taken c)
    → count_taken (set ss k (taken d)) ≡ count_taken ss
count_taken-refill [] k c d e = refl
count_taken-refill (taken x ∷ ss) zero c d e = refl
count_taken-refill (vacant n ∷ ss) zero c d e = ground (arith, e)
count_taken-refill (taken x ∷ ss) (suc k) c d e = ap suc (count_taken-refill ss k c d e)
count_taken-refill (vacant n ∷ ss) (suc k) c d e = count_taken-refill ss k c d e

-- On a valid queue, the connection of a key in use is replaced by NULL, and all other keys stay.
pub del-view :
    (k c : ℕ) (q : Resolveq)
    → IsValid q
    → view k q ≡ some c
    → (q' : Resolveq) × (del (some k) q ≡ some q')
      × IsValid q'
      × ((j : ℕ) → view j q' ≡ (if j == k then some 0 else view j q))
unfolding del
del-view k c q v e = elim (Option-cases (get_elem? q.slots k)) [
  | inl n ↦ absurd (ground (arith, e, n))
  | inr (vacant n, g) ↦ absurd (ground (arith, e, g))
  | inr (taken d, g) ↦
      let lt = get_elem?-lt q.slots k g in
      (
        record q { slots = set q.slots k (taken 0) },
        ground (arith, g, lt, v.len),
        record {
          len = length-set q.slots k (taken 0) ∙ v.len;
          small = v.small;
          chain = v.chain;
          free = set-Chain q.slots k (taken 0) (taken-Misses q.slots k d g v.free) v.free;
          rest = v.rest;
          size = omega (arith, v.size, count_taken-refill q.slots k d 0 g);
        },
        λ j. set-view q.slots k j (taken 0) lt,
      )
]
