-- ===== src/Connmap/Del.antt =====
-- `connmap_del`, and the map that is cleared with its last connection.
use native.Mathlib.Decide.{dec_lt, ℕ_discrete}
use native.Mathlib.Nat.{one-le-pow, pow-le-pow_right, mod-lt}
use libtrp.Base.{ℕ, ◌-◌, ◌%◌, ◌^◌, ◌≤◌, ◌<◌, ◌≡◌, ◌≢◌, refl, ◌∙◌, sym, ap, arith, ◌⊎◌, inl, inr}
use libtrp.Base.{
  bit_and, Option, none, some, [], ◌∷◌, set, get_elem?, length-set, get_elem?-set_self,
  get_elem?-set_ne, get_elem?-lt, get_elem?-of_lt, ◌==◌, if◌then◌else◌,
}
use libtrp.Util.{near_pwr2_64}
use libtrp.Util.Power.{near_pwr2_64-IsLeastPower}
use libtrp.Connmap.{Slot, taken, vacant, Connmap, Ids, push, find, del, clear, init, index_of}
use libtrp.Connmap.Inv.{conn_of, taken_at, stop, link, IsValid, view, keep_if}
use libtrp.Connmap.Chain.{set-Chain, taken-Misses, count_taken-set_vacant, count_taken-pos}
use libtrp.Connmap.Add.{max_of-eq}

nobody :
    (m : Connmap) (ids : Ids) → IsValid m ids → m.size ≡ 0 → (i : ℕ) → taken_at m.slots i ≡ none
nobody m ids v empty i = at_slot (get_elem? m.slots i) refl
  where
    at_slot : (o : Option Slot) → get_elem? m.slots i ≡ o → conn_of o ≡ none
    at_slot none e = refl
    at_slot (some (vacant n)) e = refl
    at_slot (some (taken c)) e =
        absurd (omega (arith, v.size, empty, count_taken-pos m.slots i c e))

init-mask : (k : ℕ) → k ≤ 31 → (init (2 ^ k)).mask ≡ 2 ^ k - 1
unfolding init
init-mask k le =
    let big : 2 ^ k ≤ 2 ^ 31 = pow-le-pow_right {n = 2} (omega arith) le in
    let pos : 0 < 2 ^ k = one-le-pow k 2 (omega arith) in
    let p = near_pwr2_64-IsLeastPower (2 ^ k) pos (omega (arith, big)) in
    let exact : near_pwr2_64 (2 ^ k) ≡ 2 ^ k = omega (arith, p.above, p.least k (omega arith)) in
    ground (arith, big, pos, exact)

-- An empty map that is cleared is valid, with as many ids, and still maps nothing.
clear_lem :
    (m : Connmap) (ids : Ids)
    → IsValid m ids
    → m.size ≡ 0
    → IsValid (clear m) ids × ((id : ℕ) → view id (clear m) ids ≡ view id m ids)
unfolding clear init
clear_lem m ids v empty = (
  record {
    k = v.k;
    le = v.le;
    mask = ap (λ n. (init n).mask) (max_of-eq m ids v).0 ∙ init-mask v.k v.le;
    j = 0;
    cap = inl (refl, refl);
    len = refl;
    chain = [];
    free = stop;
    rest = omega arith;
    size = refl;
    home = λ i c q. ground (arith, q);
  },
  λ id. sym (ap (keep_if id ids) (nobody m ids v empty (bit_and m.mask id))),
)

module _ (m : Connmap) (ids : Ids) (v : IsValid m ids) (i c : ℕ)
    (e : get_elem? m.slots i ≡ some (taken c)) where
  abbrev without : Connmap
  without = record m { slots = set m.slots i (vacant m.free); free = i; size = m.size - 1 }

  taken_at-without :
      (x : ℕ) → taken_at without.slots x ≡ (if x == i then none else taken_at m.slots x)
  taken_at-without x = elim (ℕ_discrete x i) [
    | yes p ↦
        let a = get_elem?-set_self m.slots i (vacant m.free) (get_elem?-lt m.slots i e) in
        ground (arith, p, ap (get_elem? without.slots) p ∙ a)
    | no p ↦ ground (arith, p, get_elem?-set_ne m.slots i x (vacant m.free) (λ q. p (sym q)))
  ]

  without-home : (x d : ℕ) → taken_at without.slots x ≡ some d → ids d % 2 ^ v.k ≡ x
  without-home x d q = ground (arith, taken_at-without x, q, v.home x d)

  without-IsValid : IsValid without ids
  without-IsValid =
      let pos = count_taken-pos m.slots i c e in
      let miss = taken-Misses m.slots i c e v.free in
      record {
        k = v.k;
        le = v.le;
        mask = v.mask;
        j = v.j;
        cap = v.cap;
        len = length-set m.slots i (vacant m.free) ∙ v.len;
        chain = i ∷ v.chain;
        free =
            link i m.free v.chain
              (get_elem?-set_self m.slots i (vacant m.free) (get_elem?-lt m.slots i e))
              (omega (
                arith,
                v.home i c (ap conn_of e),
                mod-lt (ids c) (one-le-pow v.k 2 (omega arith)),
                pow-le-pow_right {n = 2} (omega arith) v.le,
              ))
              miss (set-Chain m.slots i (vacant m.free) miss v.free);
        rest = omega (arith, v.rest, v.size, pos);
        size = omega (arith, v.size, count_taken-set_vacant m.slots i m.free c e);
        home = without-home;
      }

  without-views :
      (id id' : ℕ)
      → bit_and m.mask id ≡ i
      → ids c ≡ id
      → view id' without ids ≡ (if id' == id then none else view id' m ids)
  without-views id id' at_i same = elim (ℕ_discrete (bit_and m.mask id') i) [
    | yes p ↦
        let a = taken_at-without (bit_and m.mask id') in
        let b : taken_at m.slots (bit_and m.mask id') ≡ some c =
          ap (taken_at m.slots) p ∙ ap conn_of e in
        ground (arith, a, b, p, same)
    | no p ↦
        let a = taken_at-without (bit_and m.mask id') in
        let other : id' ≢ id = λ q. p (ap (bit_and m.mask) q ∙ at_i) in ground (arith, a, other, p)
  ]

-- What `connmap_del` answers: NULL, and the map as it was, for an id that is not mapped; else the
-- connection, and a map without the id, where no other id has changed.
pub del_lem :
    (id : ℕ) (m : Connmap) (ids : Ids)
    → IsValid m ids
    → ((view id m ids ≡ none) × (del id m ids ≡ some (none, m)))
      ⊎ ((c : ℕ) × (m' : Connmap) × (view id m ids ≡ some c)
          × (del id m ids ≡ some (some c, m'))
          × IsValid m' ids
          × ((id' : ℕ) → view id' m' ids ≡ (if id' == id then none else view id' m ids)))
unfolding del find index_of push
del_lem id m ids v = at_slot (get_elem? m.slots (bit_and m.mask id)) refl
  where
    at_slot :
        (o : Option Slot)
        → get_elem? m.slots (bit_and m.mask id) ≡ o
        → ((view id m ids ≡ none) × (del id m ids ≡ some (none, m)))
          ⊎ ((c : ℕ) × (m' : Connmap) × (view id m ids ≡ some c)
              × (del id m ids ≡ some (some c, m'))
              × IsValid m' ids
              × ((id' : ℕ) → view id' m' ids ≡ (if id' == id then none else view id' m ids)))
    at_slot none e =
        let out : m.cap ≤ bit_and m.mask id = elim (dec_lt (bit_and m.mask id) m.cap) [
          | yes p ↦
              let (s, q) = get_elem?-of_lt m.slots (bit_and m.mask id) (omega (arith, p, v.len)) in
              absurd (ground (arith, q, e))
          | no p ↦ omega (arith, p)
        ] in
        inl (ground (arith, e), ground (arith, out))
    at_slot (some (vacant n)) e = inl (ground (arith, e), ground (arith, e))
    at_slot (some (taken c)) e = elim (ℕ_discrete id (ids c)) [
      | no p ↦ inl (ground (arith, e, p), ground (arith, e, p))
      | yes p ↦
          let i = bit_and m.mask id in
          let inside : i < m.cap = omega (arith, get_elem?-lt m.slots i e, v.len) in
          let valid = without-IsValid m ids v i c e in
          let views = without-views m ids v i c e id in
          elim (ℕ_discrete (m.size - 1) 0) [
            | no q ↦ inr (
              c,
              without m ids v i c e,
              ground (arith, e, p),
              ground (arith, e, p, q, inside),
              valid,
              λ id'. views id' refl (sym p),
            )
            | yes q ↦
                let (valid, same) = clear_lem (without m ids v i c e) ids valid q in
                inr (
                  c,
                  clear (without m ids v i c e),
                  ground (arith, e, p),
                  ground (arith, e, p, q, inside),
                  valid,
                  λ id'. same id' ∙ views id' refl (sym p),
                )
          ]
    ]
