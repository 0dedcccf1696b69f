-- ===== src/Router/Closing/Laws.antt =====
-- What closing all connections frees.
use mathlib.Core.Path.{subst}
use libtrp.Base.{
  ℕ, suc, ◌+◌, ◌≡◌, refl, sym, ap, ◌∙◌, arith, some, List, [], ◌∷◌, ◌++◌, append_assoc, length,
  length-append, get_elem?, ◌==◌, if◌then◌else◌,
}
use libtrp.Connmap.{Connmap, Slot, taken, vacant, clear, iter_get, iter_end}
use libtrp.Router.Closing.{close_from, close_all}

-- The connections of a list of slots.
abbrev conns_of : List Slot → List ℕ
conns_of [] = []
conns_of (taken c ∷ ss) = c ∷ conns_of ss
conns_of (vacant _ ∷ ss) = conns_of ss

get_elem?-at :
    (before : List Slot) (s : Slot) (ss : List Slot)
    → get_elem? (before ++ s ∷ ss) (length before) ≡ some s
get_elem?-at [] s ss = refl
get_elem?-at (x ∷ before) s ss = get_elem?-at before s ss

close_from-conns_of :
    (before ss : List Slot) (grace : ℕ) (m : Connmap)
    → m.slots ≡ before ++ ss
    → close_from (length ss) (length before) grace m ≡ some (if grace == 0 then conns_of ss else [])
unfolding close_from iter_get
close_from-conns_of before [] grace m e = ground arith
close_from-conns_of before (s ∷ ss) grace m e =
    let at : get_elem? m.slots (length before) ≡ some s =
      ap (λ l. get_elem? l (length before)) e ∙ get_elem?-at before s ss in
    let rest =
      close_from-conns_of (before ++ s ∷ []) ss grace m
        (e ∙ sym (append_assoc before (s ∷ []) ss)) in
    let len : length (before ++ s ∷ []) ≡ length before + 1 = length-append before (s ∷ []) in
    by_slot s at (
      subst (λ j. close_from (length ss) j grace m ≡ some (if grace == 0 then conns_of ss else []))
        len rest)
  where
    by_slot :
        (s : Slot)
        → get_elem? m.slots (length before) ≡ some s
        → close_from (length ss) (length before + 1) grace m
          ≡ some (if grace == 0 then conns_of ss else [])
        → close_from (suc (length ss)) (length before) grace m
          ≡ some (if grace == 0 then conns_of (s ∷ ss) else [])
    by_slot (taken c) at rest = ground (arith, at, rest)
    by_slot (vacant n) at rest = ground (arith, at, rest)

-- Where the map has as many slots as its capacity, every connection is freed, once and in order, if no time
-- is given, and none else; in both cases the map is cleared.
close_all-conns_of :
    (grace : ℕ) (m : Connmap)
    → length m.slots ≡ m.cap
    → close_all grace m ≡ some (if grace == 0 then conns_of m.slots else [], clear m)
unfolding close_all iter_end
close_all-conns_of grace m e = ground (arith, sym e, close_from-conns_of [] m.slots grace m refl)
