-- ===== src/Connmap/Inv.antt =====
-- The invariant of a connection map, and the abstract map from ids to connections that it stands for.
use native.Mathlib.Decide.{dec_lt}
use libtrp.Base.{
  ℕ, zero, suc, ◌+◌, ◌-◌, ◌%◌, ◌^◌, ◌≤◌, ◌<◌, ◌≡◌, ◌≢◌, refl, arith, true, false, ◌⊎◌,
}
use libtrp.Base.{Option, none, some, List, [], ◌∷◌, length, get_elem?, bit_and, ◌==◌, if◌then◌else◌}
use libtrp.Base.{get_elem?-of_lt}
use libtrp.Connmap.{Slot, taken, vacant, Connmap, Ids, npos, find, get, index_of}

-- The connection in a slot.
abbrev pub conn_of : Option Slot → Option ℕ
conn_of none = none
conn_of (some (vacant _)) = none
conn_of (some (taken c)) = some c

abbrev pub taken_at : List Slot → ℕ → Option ℕ
taken_at ss i = conn_of (get_elem? ss i)

abbrev pub count_taken : List Slot → ℕ
count_taken [] = 0
count_taken (taken _ ∷ ss) = suc (count_taken ss)
count_taken (vacant _ ∷ ss) = count_taken ss

abbrev pub Misses : ℕ → List ℕ → Type 0
Misses i [] = Unit
Misses i (j ∷ l) = (i ≢ j) × Misses i l

-- The slots that the free list goes through, each once.
pub data Chain (ss : List Slot) : ℕ → List ℕ → Type 0 where
  stop : Chain ss npos []
  link :
      (i next : ℕ) (l : List ℕ)
      → get_elem? ss i ≡ some (vacant next)
      → i < npos
      → Misses i l
      → Chain ss next l
      → Chain ss i (i ∷ l)

-- `2 ^ k` ids at most; an array of a power of two of slots, or none; the free list goes through the slots
-- that `size` does not count; and each connection is in the slot that its id names.
pub record IsValid (m : Connmap) (ids : Ids) : Type 0 where
  pub k : ℕ
  pub le : k ≤ 31
  pub mask : m.mask ≡ 2 ^ k - 1
  pub j : ℕ
  pub cap : (m.hasmap ≡ false × (m.cap ≡ 0)) ⊎ (m.hasmap ≡ true × (m.cap ≡ 2 ^ j) × (j ≤ k))
  pub len : length m.slots ≡ m.cap
  pub chain : List ℕ
  pub free : Chain m.slots m.free chain
  pub rest : length chain + m.size ≡ m.cap
  pub size : m.size ≡ count_taken m.slots
  pub home : (i c : ℕ) → taken_at m.slots i ≡ some c → ids c % 2 ^ k ≡ i

-- What the map maps an id to.
abbrev pub keep_if : ℕ → Ids → Option ℕ → Option ℕ
keep_if id ids none = none
keep_if id ids (some c) = if id == ids c then some c else none

abbrev pub view : ℕ → Connmap → Ids → Option ℕ
view id m ids = keep_if id ids (taken_at m.slots (bit_and m.mask id))

pub get_elem?-past : {A : Type 0} (xs : List A) (i : ℕ) → length xs ≤ i → get_elem? xs i ≡ none
get_elem?-past [] i h = refl
get_elem?-past (x ∷ xs) zero h = absurd (omega arith)
get_elem?-past (x ∷ xs) (suc i) h = get_elem?-past xs i (omega arith)

-- On a valid map, `connmap_get` reads inside the slots, and is the abstract map.
pub get-view :
    (m : Connmap) (ids : Ids) → IsValid m ids → (id : ℕ) → get id m ids ≡ some (view id m ids)
unfolding get find index_of
get-view m ids v id = elim (dec_lt (bit_and m.mask id) m.cap) [
  | yes p ↦
      let (s, e) = get_elem?-of_lt m.slots (bit_and m.mask id) (omega (arith, v.len, p)) in
      inside s e p
  | no p ↦
      let e = get_elem?-past m.slots (bit_and m.mask id) (omega (arith, v.len)) in ground (arith, e)
]
  where
    inside :
        (s : Slot)
        → get_elem? m.slots (bit_and m.mask id) ≡ some s
        → bit_and m.mask id < m.cap
        → get id m ids ≡ some (view id m ids)
    inside (taken c) e p = ground (arith, e)
    inside (vacant n) e p = ground (arith, e)
