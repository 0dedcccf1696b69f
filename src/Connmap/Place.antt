-- ===== src/Connmap/Place.antt =====
-- A free slot takes a connection, under an id that names the slot.
use native.Mathlib.Nat.{one-le-pow, pow-le-pow_right, mod-eq_of_lt, mul-add-mod_self_right}
use native.Mathlib.Decide.{ℕ_discrete}
use libtrp.Base.{
  ℕ, ◌+◌, ◌-◌, ◌*◌, ◌/◌, ◌%◌, ◌^◌, ◌≤◌, ◌<◌, ◌≡◌, ◌≢◌, refl, ◌∙◌, sym, ap, arith, inl, inr,
}
use libtrp.Base.{
  Option, none, some, List, ◌∷◌, length, set, get_elem?, bit_and, bit_xor, bit_and_mask,
  bit_and_high, bit_xor_fields', pow-add, ◌==◌, if◌then◌else◌,
}
use libtrp.Base.{get_elem?-set_self, get_elem?-set_ne, get_elem?-lt, length-set}
use libtrp.Util.Power.{pred-mul}
use libtrp.Connmap.{Slot, taken, vacant, Connmap, Ids, npos, pop, place, make_id}
use libtrp.Connmap.Inv.{taken_at, Misses, Chain, stop, link, IsValid, view, keep_if}
use libtrp.Connmap.Chain.{set-Chain, count_taken-set_taken}

-- The connection is in no slot.
abbrev pub IsFresh : ℕ → Connmap → Type 0
IsFresh conn m = (i : ℕ) → taken_at m.slots i ≢ some conn

-- The result maps its new id, which mapped to nothing before, to the connection, and all else as before.
pub record IsAdded (conn : ℕ) (m : Connmap) (ids : Ids) (m' : Connmap) (ids' : Ids) : Type 0 where
  pub valid : IsValid m' ids'
  pub new : view (ids' conn) m ids ≡ none
  pub views : (id : ℕ) → view id m' ids' ≡ (if id == ids' conn then some conn else view id m ids)

make_id-fields :
    (k : ℕ) (m : Connmap) (i r : ℕ)
    → k ≤ 31
    → m.mask ≡ 2 ^ k - 1
    → i < 2 ^ k
    → r < 2 ^ 64
    → make_id m i r ≡ r / 2 ^ k * 2 ^ k + i
unfolding make_id
make_id-fields k m i r le e h lt =
    let same : 64 - k + k ≡ 64 = omega arith in
    let p : 2 ^ (64 - k) * 2 ^ k ≡ 2 ^ 64 = sym (pow-add (64 - k) k) ∙ ap (λ n. 2 ^ n) same in
    let high : 2 ^ 64 - 1 - m.mask ≡ (2 ^ (64 - k) - 1) * 2 ^ k = omega (
      arith,
      p,
      e,
      one-le-pow k 2 (omega arith),
      pred-mul (2 ^ (64 - k)) (2 ^ k) (one-le-pow (64 - k) 2 (omega arith)),
    ) in
    ap (λ n. bit_xor i (bit_and r n)) high
    ∙ ap (bit_xor i) (bit_and_high k (64 - k) r (omega (arith, p)))
    ∙ bit_xor_fields' k (r / 2 ^ k) i h

pub Chain-split :
    (ss : List Slot) {f : ℕ} {l : List ℕ}
    → f ≢ npos
    → Chain ss f l
    → (next : ℕ) × (rest : List ℕ) × (get_elem? ss f ≡ some (vacant next))
      × (l ≡ f ∷ rest)
      × Misses f rest
      × Chain ss next rest
Chain-split ss h stop = absurd (h refl)
Chain-split ss h (link f next l e lt miss c) = (next, l, e, refl, miss, c)

-- The map and the ids with the slot `m.free` taken.
abbrev placed : ℕ → ℕ → Connmap → Connmap
placed conn next m = record m {
  slots = set m.slots m.free (taken conn);
  size = m.size + 1;
  free = next;
}

abbrev named : ℕ → ℕ → Connmap → Ids → Ids
named conn r m ids = λ c. if c == conn then make_id m m.free r else ids c

module _ (r conn : ℕ) (m : Connmap) (ids : Ids) (v : IsValid m ids) (fresh : IsFresh conn m)
    (lt : r < 2 ^ 64) (next : ℕ) (e : get_elem? m.slots m.free ≡ some (vacant next)) where
  in_bounds : m.free < length m.slots
  in_bounds = get_elem?-lt m.slots m.free e

  cap_le : m.cap ≤ 2 ^ v.k
  cap_le = elim v.cap [
    | inl (_, c) ↦ omega arith
    | inr (_, c, le) ↦ omega (arith, c, pow-le-pow_right {n = 2} (omega arith) le)
  ]

  named-conn : named conn r m ids conn ≡ make_id m m.free r
  named-conn = ground arith

  new-home : named conn r m ids conn % 2 ^ v.k ≡ m.free
  new-home =
      let small : m.free < 2 ^ v.k = omega (arith, in_bounds, v.len, cap_le) in
      ap (λ n. n % 2 ^ v.k) (named-conn ∙ make_id-fields v.k m m.free r v.le v.mask small lt)
      ∙ mul-add-mod_self_right (r / 2 ^ v.k) (2 ^ v.k) m.free
      ∙ mod-eq_of_lt small

  at_mask : (id : ℕ) → bit_and m.mask id ≡ id % 2 ^ v.k
  at_mask id = ap (λ n. bit_and n id) v.mask ∙ bit_and_mask v.k id

  taken_at-placed :
      (i : ℕ)
      → taken_at (placed conn next m).slots i
        ≡ (if i == m.free then some conn else taken_at m.slots i)
  taken_at-placed i = elim (ℕ_discrete i m.free) [
    | yes p ↦
        let a = get_elem?-set_self m.slots m.free (taken conn) in_bounds in
        ground (arith, p, ap (get_elem? (set m.slots m.free (taken conn))) p ∙ a)
    | no p ↦ ground (arith, p, get_elem?-set_ne m.slots m.free i (taken conn) (λ q. p (sym q)))
  ]

  keep_if-named :
      (id : ℕ) (o : Option ℕ)
      → o ≢ some conn
      → id ≢ named conn r m ids conn
      → keep_if id (named conn r m ids) o
        ≡ (if id == named conn r m ids conn then some conn else keep_if id ids o)
  keep_if-named id none h other = ground (arith, other)
  keep_if-named id (some c) h other =
      let differ : c ≢ conn = λ q. h (ap some q) in ground (arith, other, differ)

  new-view : view (named conn r m ids conn) m ids ≡ none
  new-view =
      let b = ap (get_elem? m.slots) (at_mask (named conn r m ids conn) ∙ new-home) ∙ e in
      ground (arith, b)

  placed-home :
      (i c : ℕ)
      → taken_at (placed conn next m).slots i ≡ some c
      → named conn r m ids c % 2 ^ v.k ≡ i
  placed-home i c q = elim (ℕ_discrete i m.free) [
    | yes p ↦
        let same : c ≡ conn = ground (arith, p, q, taken_at-placed i) in
        ap (λ d. named conn r m ids d % 2 ^ v.k) same ∙ new-home ∙ sym p
    | no p ↦
        let old : taken_at m.slots i ≡ some c = ground (arith, p, q, taken_at-placed i) in
        let differ : c ≢ conn = λ w. fresh i (old ∙ ap some w) in
        ground (arith, differ, v.home i c old)
  ]

  placed-views :
      (id : ℕ)
      → view id (placed conn next m) (named conn r m ids)
        ≡ (if id == named conn r m ids conn then some conn else view id m ids)
  placed-views id = elim (ℕ_discrete (bit_and m.mask id) m.free) [
    | yes p ↦
        let a = taken_at-placed (bit_and m.mask id) in
        let b = ap (get_elem? m.slots) p ∙ e in ground (arith, a, b, p)
    | no p ↦
        let a = taken_at-placed (bit_and m.mask id) in
        let other : id ≢ named conn r m ids conn =
          λ q. p (at_mask id ∙ ap (λ n. n % 2 ^ v.k) q ∙ new-home) in
        ground (
          arith,
          a,
          p,
          keep_if-named id (taken_at m.slots (bit_and m.mask id)) (fresh (bit_and m.mask id)) other,
        )
  ]

  placed-IsValid :
      (rest : List ℕ)
      → v.chain ≡ m.free ∷ rest
      → Misses m.free rest
      → Chain m.slots next rest
      → IsValid (placed conn next m) (named conn r m ids)
  placed-IsValid rest split miss c = record {
    k = v.k;
    le = v.le;
    mask = v.mask;
    j = v.j;
    cap = v.cap;
    len = length-set m.slots m.free (taken conn) ∙ v.len;
    chain = rest;
    free = set-Chain m.slots m.free (taken conn) miss c;
    rest = ground (arith, v.rest, ap length split);
    size = omega (arith, v.size, count_taken-set_taken m.slots m.free next conn e);
    home = placed-home;
  }

-- With a free slot, a connection that the map does not have is placed.
pub place-IsAdded :
    (r conn : ℕ) (m : Connmap) (ids : Ids)
    → IsValid m ids
    → IsFresh conn m
    → r < 2 ^ 64
    → m.free ≢ npos
    → (m' : Connmap) × (ids' : Ids) × (place r conn m ids ≡ some (0, m', ids'))
      × IsAdded conn m ids m' ids'
unfolding place pop
place-IsAdded r conn m ids v fresh lt has =
    let (next, rest, e, split, miss, c) = Chain-split m.slots has v.free in
    (
      placed conn next m,
      named conn r m ids,
      ground (arith, e),
      record {
        valid = placed-IsValid r conn m ids v fresh lt next e rest split miss c;
        new = new-view r conn m ids v fresh lt next e;
        views = placed-views r conn m ids v fresh lt next e;
      },
    )
