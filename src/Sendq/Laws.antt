-- ===== src/Sendq/Laws.antt =====
-- The send queue as a list of connections: first in, first out; and what a removal leaves.
use libtrp.Base.{
  ℕ, ◌≤◌, ◌≡◌, ◌≢◌, ◌↔◌, refl, ◌∙◌, sym, ap, arith, true, false, ◌⊎◌, inl, inr, Option, none, some,
  List, [], ◌∷◌, ◌++◌, length, ◌==◌, if◌then◌else◌, Bool-cases,
}
use libtrp.Linked.{update, enqueue, unlink}
use libtrp.Linked.Laws.{
  occurs, Links, last_or, last_or-occurs, last_or-append, Links-nil, Links-cons, IsList,
  occurs-append, update-Links, enqueue-IsList,
}
use libtrp.Linked.Removal.{seek_lem, removed-Links, Links-apart, last_or-without, unlink-tail}
use libtrp.Sendq.{Sendq, mark, nq, dq, del}

-- The queue goes through the connections of the list, and their flags say so.
pub record IsQueue (q : Sendq) (l : List ℕ) : Type 0 where
  pub list : IsList q.ends q.next l
  pub flags : (c : ℕ) → q.insend c ≡ occurs c l

-- On a valid queue, a connection is put at the end if it is not in it; else the queue goes through the
-- same connections.
pub nq-IsQueue :
    (q : Sendq) (l : List ℕ) (c : ℕ)
    → IsQueue q l
    → IsQueue (nq c q) (if occurs c l then l else l ++ c ∷ [])
unfolding nq
nq-IsQueue q l c v = elim (Bool-cases (occurs c l)) [
  | inl p ↦ let e : nq c q ≡ q = ground (arith, v.flags c, p) in rw (e, p) v
  | inr p ↦
      let (ends, next) = enqueue c q.ends q.next in
      let e : nq c q ≡ record { ends = ends; next = next; insend = mark q.insend c true } =
        ground (arith, v.flags c, p) in
      rw (e, p)
        (record {
          list = enqueue-IsList q.ends q.next l c v.list p;
          flags = λ d. ground (arith, v.flags d, occurs-append d l (c ∷ []));
        })
]

-- What is taken from a valid queue is its first connection; the rest is a queue in the same order, with no
-- flag and no link left at the one taken. An empty queue gives NULL and stays.
pub dq-IsQueue :
    (q : Sendq) (l : List ℕ)
    → IsQueue q l
    → ((l ≡ []) × (dq q ≡ (none, q)))
      ⊎ ((c : ℕ) × (rest : List ℕ) × (q' : Sendq) × (l ≡ c ∷ rest)
          × (dq q ≡ (some c, q'))
          × IsQueue q' rest
          × (q'.next c ≡ none))
unfolding dq update
dq-IsQueue q [] v =
    let e = Links-nil q.next q.ends.head v.list.links in inl (refl, ground (arith, e))
dq-IsQueue q (c ∷ rest) v =
    let (e, out, s) = Links-cons q.next q.ends.head c rest v.list.links in
    let tail : Option ℕ = elim (q.next c) [ none ↦ none | some _ ↦ q.ends.tail ] in
    let q' : Sendq = record {
      ends = record { head = q.next c; tail = tail };
      next = update q.next c none;
      insend = mark q.insend c false;
    } in
    inr (
      c,
      rest,
      q',
      refl,
      ground (arith, e),
      record {
        list = record {
          links = update-Links q.next c none (q.next c) rest out s;
          tail = new_tail rest s v.list.tail;
        };
        flags = λ d. ground (arith, v.flags d, out, ap (λ x. occurs x rest) {x = d} {y = c});
      },
      ground arith,
    )
  where
    new_tail :
        (rest : List ℕ)
        → Links q.next (q.next c) rest
        → q.ends.tail ≡ last_or (some c) rest
        → elim (q.next c) as (λ _. Option ℕ) [ none ↦ none | some _ ↦ q.ends.tail ]
          ≡ last_or none rest
    new_tail [] s t = let n = Links-nil q.next (q.next c) s in ground (arith, n)
    new_tail (x ∷ r) s t = let n = (Links-cons q.next (q.next c) x r s).0 in ground (arith, n, t)

last_or-apart : (c : ℕ) (l : List ℕ) → occurs c l ≡ false → last_or none l ≢ some c
last_or-apart c [] out e = ground (arith, e)
last_or-apart c (x ∷ l) out e = ground (arith, last_or-occurs c x l e, out)

flags-without :
    (c d : ℕ) (before after : List ℕ)
    → occurs c (before ++ after) ≡ false
    → (if d == c then false else occurs d (before ++ c ∷ after)) ≡ occurs d (before ++ after)
flags-without c d before after out = ground (
  arith,
  occurs-append d before (c ∷ after),
  occurs-append d before after,
  out,
  ap (λ x. occurs x (before ++ after)) {x = d} {y = c},
)

-- What is left after an element is removed: a list from the head on without it, and a valid queue
-- exactly if it was not the last, since the tail pointer is not moved.
pub record IsRemoved (c : ℕ) (before after : List ℕ) (q : Sendq) : Type 0 where
  pub links : Links q.next q.ends.head (before ++ after)
  pub flags : (d : ℕ) → q.insend d ≡ occurs d (before ++ after)
  pub valid : IsQueue q (before ++ after) ↔ (after ≢ [])

module _ (q : Sendq) (c : ℕ) (before after : List ℕ) (v : IsQueue q (before ++ c ∷ after)) where
  abbrev without : Sendq
  without =
      let (ends, next) = unlink (last_or none before) c q.ends q.next in
      record { ends = ends; next = next; insend = mark q.insend c false }

  apart : occurs c (before ++ after) ≡ false
  apart = Links-apart q.next q.ends.head c before after v.list.links

  without-links : Links without.next without.ends.head (before ++ after)
  without-links = removed-Links q.ends q.next c before after v.list.links

  without-flags : (d : ℕ) → without.insend d ≡ occurs d (before ++ after)
  without-flags d = ground (arith, flags-without c d before after apart, v.flags d)

  without-tail : without.ends.tail ≡ last_or none (before ++ c ∷ after)
  without-tail = unlink-tail (last_or none before) c q.ends q.next ∙ v.list.tail

  removed_last : after ≡ [] → last_or none (before ++ c ∷ after) ≡ some c
  removed_last last = rw last (last_or-append none before c)

  removed_inner :
      (rest : List ℕ)
      → rest ≢ []
      → last_or none (before ++ c ∷ rest) ≡ last_or none (before ++ rest)
  removed_inner [] full = absurd (full refl)
  removed_inner (x ∷ rest) full = last_or-without none before c x rest

  without-IsRemoved : IsRemoved c before after without
  without-IsRemoved = record {
    links = without-links;
    flags = without-flags;
    valid = (
      λ w full.
          last_or-apart c (before ++ after) apart
            (sym w.list.tail ∙ without-tail ∙ removed_last full),
      λ rest. record {
        list = record { links = without-links; tail = without-tail ∙ removed_inner after rest };
        flags = without-flags;
      },
    );
  }

-- On a valid queue, with fuel for each connection in it, the removal ends. A connection that is not in it
-- leaves it valid; else the list is left without the connection, and is a valid queue exactly if the
-- connection was not the last one.
pub del-IsRemoved :
    (q : Sendq) (l : List ℕ) (c fuel : ℕ)
    → IsQueue q l
    → length l ≤ fuel
    → ((occurs c l ≡ false) × (q' : Sendq) × (del fuel c q ≡ some q') × IsQueue q' l)
      ⊎ ((before : List ℕ) × (after : List ℕ) × (q' : Sendq) × (l ≡ before ++ c ∷ after)
          × (del fuel c q ≡ some q')
          × IsRemoved c before after q')
unfolding del
del-IsRemoved q l c fuel v le = elim (seek_lem q.next c fuel none q.ends.head l v.list.links le) [
  | inl (miss, e) ↦ inl (
    miss,
    record q { insend = mark q.insend c false },
    ground (arith, e),
    record {
      list = v.list;
      flags = λ d. ground (arith, v.flags d, miss, ap (λ x. occurs x l) {x = d} {y = c});
    },
  )
  | inr (s, e) ↦
      let w : IsQueue q (s.before ++ c ∷ s.after) = rw (← s.whole) v in
      let on : q.insend c ≡ true =
        v.flags c
        ∙ (ap (occurs c) s.whole ∙ ground (arith, occurs-append c s.before (c ∷ s.after))) in
      inr (
        s.before,
        s.after,
        without q c s.before s.after w,
        s.whole,
        ground (arith, e, on),
        without-IsRemoved q c s.before s.after w,
      )
]
