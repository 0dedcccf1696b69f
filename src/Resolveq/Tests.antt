-- ===== src/Resolveq/Tests.antt =====
-- A queue of two slots, one in use.
use libtrp.Base.{ℕ, ◌≡◌, refl, arith, none, some, [], ◌∷◌, npos, ◌==◌, if◌then◌else◌}
use libtrp.Connmap.{taken, vacant}
use libtrp.Connmap.Inv.{stop, link}
use libtrp.Resolveq.{Resolveq, pop}
use libtrp.Resolveq.Laws.{IsValid, view, pop-view}

abbrev one : Resolveq
one = record { len = 2; size = 1; slots = vacant npos ∷ taken 7 ∷ []; free = 0 }

one-IsValid : IsValid one
one-IsValid = record {
  len = refl;
  small = omega arith;
  chain = 0 ∷ [];
  free = link 0 npos [] refl (omega arith) tt stop;
  rest = refl;
  size = refl;
}

pop-view_example :
    (q : Resolveq) × (pop (some 1) one ≡ some (7, q))
    × IsValid q
    × ((j : ℕ) → view j q ≡ (if j == 1 then none else view j one))
pop-view_example = pop-view 1 one one-IsValid
