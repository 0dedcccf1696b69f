-- ===== src/Sendq/Tests.antt =====
-- A send queue of two connections.
use libtrp.Base.{
  ℕ, ◌≡◌, refl, arith, ◌||◌, ◌⊎◌, false, none, some, List, [], ◌∷◌, ◌++◌, ◌==◌, if◌then◌else◌,
}
use libtrp.Linked.Laws.{occurs, link, done}
use libtrp.Sendq.{Sendq, dq, del}
use libtrp.Sendq.Laws.{IsQueue, IsRemoved, dq-IsQueue, del-IsRemoved}

abbrev two : Sendq
two = record {
  ends = record { head = some 1; tail = some 2 };
  next = λ c. if c == 1 then some 2 else none;
  insend = λ c. (c == 1) || (c == 2);
}

abbrev both : List ℕ
both = 1 ∷ 2 ∷ []

two-IsQueue : IsQueue two both
two-IsQueue = record {
  list = record { links = link 1 (2 ∷ []) refl (link 2 [] refl done); tail = refl };
  flags = λ c. ground arith;
}

dq-IsQueue_example :
    ((both ≡ []) × (dq two ≡ (none, two)))
    ⊎ ((c : ℕ) × (rest : List ℕ) × (q : Sendq) × (both ≡ c ∷ rest)
        × (dq two ≡ (some c, q))
        × IsQueue q rest
        × (q.next c ≡ none))
dq-IsQueue_example = dq-IsQueue two (1 ∷ 2 ∷ []) two-IsQueue

del-IsRemoved_example :
    ((occurs 2 (1 ∷ 2 ∷ []) ≡ false)
      × (q : Sendq) × (del 2 2 two ≡ some q)
      × IsQueue q (1 ∷ 2 ∷ []))
    ⊎ ((before : List ℕ) × (after : List ℕ) × (q : Sendq) × (both ≡ before ++ 2 ∷ after)
        × (del 2 2 two ≡ some q)
        × IsRemoved 2 before after q)
del-IsRemoved_example = del-IsRemoved two (1 ∷ 2 ∷ []) 2 2 two-IsQueue (omega arith)
