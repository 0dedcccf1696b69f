-- ===== src/Sockmap/Tests.antt =====
-- A map of two sockets.
use libtrp.Base.{
  ℕ, ◌≡◌, ◌⊎◌, refl, arith, true, false, none, some, [], ◌∷◌, length, ◌==◌, if◌then◌else◌,
}
use libtrp.Sockmap.{Sockmap, sockmap_max, enomem, put, del, get}
use libtrp.Sockmap.Laws.{IsValid, put-lookup, del-lookup}

abbrev two : Sockmap
two = record { alen = 2; entries = (4, 40) ∷ (5, 50) ∷ [] }

two-IsValid : IsValid two
two-IsValid = record { unique = (refl, (refl, tt)); fits = omega arith; bounded = omega arith }

del-lookup_example :
    IsValid (del 4 two) × ((g : ℕ) → get g (del 4 two) ≡ (if g == 4 then none else get g two))
del-lookup_example = del-lookup 4 two two-IsValid

put-lookup_example :
    let (code, m) = put true 6 60 two in
    IsValid m
    × (((code ≡ 0) × ((g : ℕ) → get g m ≡ (if g == 6 then some 60 else get g two)))
        ⊎ ((code ≡ enomem)
            × (m ≡ two)
            × (get 6 two ≡ none)
            × (2 ≡ length two.entries)
            × ((true ≡ false) ⊎ (2 ≡ sockmap_max))))
put-lookup_example = put-lookup true 6 60 two two-IsValid
