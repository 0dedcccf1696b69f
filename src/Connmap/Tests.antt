-- ===== src/Connmap/Tests.antt =====
-- A map of four ids with one connection, 7, under the id 8.
use libtrp.Base.{
  ℕ, zero, suc, ◌+◌, ◌%◌, ◌^◌, ◌≤◌, ◌<◌, ◌≡◌, ◌⊎◌, inr, refl, arith, true, false, none, some, [],
  ◌∷◌, ◌==◌, if◌then◌else◌,
}
use libtrp.Connmap.{Connmap, Ids, taken, npos, enospc, enomem, get, add, del, init}
use libtrp.Connmap.Inv.{taken_at, stop, IsValid, view, get-view}
use libtrp.Connmap.Place.{IsFresh, IsAdded}
use libtrp.Connmap.Init.{init_lem}
use libtrp.Connmap.Add.{add_lem}
use libtrp.Connmap.Del.{del_lem}

abbrev one : Connmap
one = record { mask = 3; size = 1; cap = 1; hasmap = true; slots = taken 7 ∷ []; free = npos }

abbrev eight : Ids
eight = λ c. 8

one-home : (i c : ℕ) → taken_at one.slots i ≡ some c → eight c % 2 ^ 2 ≡ i
one-home zero c e = refl
one-home (suc i) c e = ground arith

one-IsValid : IsValid one eight
one-IsValid = record {
  k = 2;
  le = omega arith;
  mask = refl;
  j = 0;
  cap = inr (refl, refl, omega arith);
  len = refl;
  chain = [];
  free = stop;
  rest = refl;
  size = refl;
  home = one-home;
}

nine-IsFresh : IsFresh 9 one
nine-IsFresh zero e = ground arith
nine-IsFresh (suc i) e = ground arith

init_lem_example :
    IsValid (init 3) eight
    × ((id : ℕ) → view id (init 3) eight ≡ none)
    × ((3 ≤ 2 ^ 31 → 3 ≤ (init 3).mask + 1) × ((init 3).mask < 2 ^ 31))
init_lem_example = init_lem 3 eight

get-view_example : get 8 one eight ≡ some (some 7)
get-view_example = get-view one eight one-IsValid 8

add_lem_example :
    ((m' : Connmap) × (ids' : Ids) × (add true 12345 9 one eight ≡ some (0, m', ids'))
      × IsAdded 9 one eight m' ids')
    ⊎ ((add true 12345 9 one eight ≡ some (enospc, one, eight)) × (one.mask + 1 ≤ one.size))
    ⊎ ((add true 12345 9 one eight ≡ some (enomem, one, eight)) × (true ≡ false))
add_lem_example = add_lem true 12345 9 one eight one-IsValid nine-IsFresh (omega arith)

del_lem_example :
    ((view 8 one eight ≡ none) × (del 8 one eight ≡ some (none, one)))
    ⊎ ((c : ℕ) × (m' : Connmap) × (view 8 one eight ≡ some c)
        × (del 8 one eight ≡ some (some c, m'))
        × IsValid m' eight
        × ((id' : ℕ) → view id' m' eight ≡ (if id' == 8 then none else view id' one eight)))
del_lem_example = del_lem 8 one eight one-IsValid
