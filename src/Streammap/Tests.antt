-- ===== src/Streammap/Tests.antt =====
-- A connection that may open three streams, and opens two.
use libtrp.Base.{ℕ, ◌≡◌, ◌↔◌, arith, true, none, some, [], ◌∷◌, get_elem?}
use libtrp.Streammap.{Streammap, init, add, has_space}
use libtrp.Streammap.Laws.{view, open_all, numbered, open_all-view}

abbrev one : ℕ
one = 1

open_all-view_example :
    (m : Streammap) × (open_all 5 3 (7 ∷ 9 ∷ []) (init 3) ≡ some (numbered 3 0 (7 ∷ 9 ∷ []), m))
    × ((i : ℕ) → view i m ≡ get_elem? (7 ∷ 9 ∷ []) i)
    × (has_space m ≡ true)
    × ((add true 8 m ≡ none) ↔ (one ≡ 0))
open_all-view_example = open_all-view 5 3 1 7 8 (9 ∷ []) (omega arith)
