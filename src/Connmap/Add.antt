-- ===== src/Connmap/Add.antt =====
-- `connmap_add`: the slots grow where none is free, and one takes the connection.
use native.Mathlib.Decide.{dec_lt, ℕ_discrete}
use native.Mathlib.Nat.{one-le-pow, pow-le-pow_right}
use mathlib.Core.Path.{subst}
use libtrp.Base.{
  ℕ, zero, suc, ◌+◌, ◌*◌, ◌%◌, ◌^◌, ◌≤◌, ◌<◌, ◌≡◌, ◌≢◌, refl, ◌∙◌, sym, ap, arith, Bool, true,
  false, ◌⊎◌, inl, inr,
}
use libtrp.Base.{
  bit_and, none, some, List, [], ◌∷◌, ◌++◌, length, get_elem?, replicate, length-append,
  length-replicate, pow-add, Bool-cases, ◌==◌, if◌then◌else◌,
}
use libtrp.Connmap.{
  Slot, taken, vacant, Connmap, Ids, npos, enospc, enomem, push, push_all, grow, max_of, has_free,
  add,
}
use libtrp.Connmap.Inv.{taken_at, count_taken, Chain, stop, link, IsValid, view, keep_if}
use libtrp.Connmap.Chain.{push_all-Freed, AreVacant}
use libtrp.Connmap.Place.{IsFresh, IsAdded, place-IsAdded}

module _ (n f : ℕ) where
  get_elem?-append_replicate :
      (ss : List Slot) (x : ℕ)
      → length ss ≤ x
      → x < length ss + n
      → get_elem? (ss ++ replicate n (vacant f)) x ≡ some (vacant f)
  get_elem?-append_replicate [] x lo hi = replicated n x (omega arith)
    where
      replicated : (n x : ℕ) → x < n → get_elem? (replicate n (vacant f)) x ≡ some (vacant f)
      replicated zero x h = elim h [ ]
      replicated (suc n) zero h = refl
      replicated (suc n) (suc x) h = replicated n x (omega arith)
  get_elem?-append_replicate (s ∷ ss) zero lo hi = absurd (omega arith)
  get_elem?-append_replicate (s ∷ ss) (suc x) lo hi =
      get_elem?-append_replicate ss x (omega arith) (omega arith)

  count_taken-append_replicate :
      (ss : List Slot) → count_taken (ss ++ replicate n (vacant f)) ≡ count_taken ss
  count_taken-append_replicate [] = vacants n
    where
      vacants : (n : ℕ) → count_taken (replicate n (vacant f)) ≡ 0
      vacants zero = refl
      vacants (suc n) = vacants n
  count_taken-append_replicate (taken c ∷ ss) = ap suc (count_taken-append_replicate ss)
  count_taken-append_replicate (vacant c ∷ ss) = count_taken-append_replicate ss

  taken_at-append_replicate :
      (ss : List Slot) (x : ℕ) → taken_at (ss ++ replicate n (vacant f)) x ≡ taken_at ss x
  taken_at-append_replicate [] x = vacants n x
    where
      vacants : (n x : ℕ) → taken_at (replicate n (vacant f)) x ≡ none
      vacants zero x = refl
      vacants (suc n) zero = refl
      vacants (suc n) (suc x) = vacants n x
  taken_at-append_replicate (s ∷ ss) zero = refl
  taken_at-append_replicate (s ∷ ss) (suc x) = taken_at-append_replicate ss x

pub Chain-empty : {ss : List Slot} {f : ℕ} {l : List ℕ} → f ≡ npos → Chain ss f l → l ≡ []
Chain-empty h stop = refl
Chain-empty h (link f next l e lt miss c) = absurd (omega arith)

-- The connections stay where they were, and a slot is free.
record IsGrown (m : Connmap) (ids : Ids) (m' : Connmap) : Type 0 where
  valid : IsValid m' ids
  has : m'.free ≢ npos
  mask : m'.mask ≡ m.mask
  same : (x : ℕ) → taken_at m'.slots x ≡ taken_at m.slots x

module _ (m : Connmap) (ids : Ids) (v : IsValid m ids) (full : m.free ≡ npos)
    (room : m.size < 2 ^ v.k) where
  size_cap : m.size ≡ m.cap
  size_cap = ground (arith, v.rest, ap length (Chain-empty full v.free))

  abbrev wider : Connmap
  wider = record m { cap = m.cap * 2; slots = m.slots ++ replicate m.cap (vacant npos) }

  doubled-IsGrown : m.hasmap ≡ true → IsGrown m ids (push_all m.cap m.cap wider)
  doubled-IsGrown has = elim v.cap [
    | inl (off, _) ↦ absurd (ground (arith, off, has))
    | inr (_, c, le) ↦ grown c le
  ]
    where
      vacants : AreVacant wider.slots m.cap m.cap
      vacants x lo hi = (
        npos,
        get_elem?-append_replicate m.cap npos m.slots x (omega (arith, v.len))
            (omega (arith, v.len)),
      )

      grown : m.cap ≡ 2 ^ v.j → v.j ≤ v.k → IsGrown m ids (push_all m.cap m.cap wider)
      grown c le =
          let more : v.j < v.k = elim (dec_lt v.j v.k) [
            | yes p ↦ p
            | no p ↦
                let same : v.j ≡ v.k = omega arith in
                absurd (omega (arith, c, ap (λ n. 2 ^ n) same, size_cap, room))
          ] in
          let pos : 0 < m.cap = omega (arith, c, one-le-pow v.j 2 (omega arith)) in
          let small : 2 ^ v.k ≤ 2 ^ 31 = pow-le-pow_right {n = 2} (omega arith) v.le in
          let r =
            push_all-Freed m.cap m.cap wider []
              (subst (λ f. Chain wider.slots f []) (sym full) stop) tt vacants
              (omega (arith, size_cap, room, small)) in
          let same = λ (x : ℕ). r.same x ∙ taken_at-append_replicate m.cap npos m.slots x in
          record {
            valid = record {
              k = v.k;
              le = v.le;
              mask = ap (λ n. n.mask) r.others ∙ v.mask;
              j = v.j + 1;
              cap = inr (
                ap (λ n. n.hasmap) r.others ∙ has,
                omega (arith, ap (λ n. n.cap) r.others, c, pow-add v.j 1),
                omega arith,
              );
              len = omega (
                arith,
                r.len,
                ap (λ n. n.cap) r.others,
                v.len,
                length-append m.slots (replicate m.cap (vacant npos)),
                length-replicate m.cap (vacant npos),
              );
              chain = r.list;
              free = r.chain;
              rest =
                  omega
                    (arith, r.more, ap (λ n. n.cap) r.others, ap (λ n. n.size) r.others, size_cap);
              size =
                  ap (λ n. n.size) r.others
                  ∙ v.size
                  ∙ sym (r.count ∙ count_taken-append_replicate m.cap npos m.slots);
              home = λ i d q. v.home i d (sym (same i) ∙ q);
            };
            has = λ q. ground (arith, r.more, pos, ap length (Chain-empty q r.chain));
            mask = ap (λ n. n.mask) r.others;
            same = same;
          }

  first-IsGrown :
      m.hasmap ≡ false
      → IsGrown m ids (push 0 (record m { hasmap = true; cap = 1; slots = vacant npos ∷ [] }))
  unfolding push
  first-IsGrown has = elim v.cap [
    | inr (on, _, _) ↦ absurd (ground (arith, on, has))
    | inl (_, c) ↦ record {
      valid = record {
        k = v.k;
        le = v.le;
        mask = v.mask;
        j = 0;
        cap = inr (refl, refl, omega arith);
        len = refl;
        chain = 0 ∷ [];
        free =
            link 0 m.free [] refl (omega arith) tt
              (subst (λ f. Chain (vacant m.free ∷ []) f []) (sym full) stop);
        rest = omega (arith, size_cap, c);
        size = omega (arith, size_cap, c);
        home = λ i d q. nobody i d q;
      };
      has = omega arith;
      mask = refl;
      same = λ x. bare x (omega (arith, v.len, c));
    }
  ]
    where
      nobody : (i d : ℕ) → taken_at (vacant m.free ∷ []) i ≡ some d → ids d % 2 ^ v.k ≡ i
      nobody zero d q = ground arith
      nobody (suc i) d q = ground arith

      bare : (x : ℕ) → length m.slots ≡ 0 → taken_at (vacant m.free ∷ []) x ≡ taken_at m.slots x
      bare x e = vacants x ∙ sym (nothing m.slots x e)
        where
          vacants : (x : ℕ) → taken_at (vacant m.free ∷ []) x ≡ none
          vacants zero = refl
          vacants (suc x) = refl

          nothing : (ss : List Slot) (x : ℕ) → length ss ≡ 0 → taken_at ss x ≡ none
          nothing [] x e = refl
          nothing (s ∷ ss) x e = absurd (omega arith)

pub max_of-eq :
    (m : Connmap) (ids : Ids) (v : IsValid m ids) → (max_of m ≡ 2 ^ v.k) × (m.mask + 1 ≡ 2 ^ v.k)
unfolding max_of
max_of-eq m ids v =
    let small : 2 ^ v.k ≤ 2 ^ 31 = pow-le-pow_right {n = 2} (omega arith) v.le in
    let e : m.mask + 1 ≡ 2 ^ v.k = omega (arith, v.mask, one-le-pow v.k 2 (omega arith)) in
    (omega (arith, e, small), e)

grow_lem :
    (mem_ok : Bool) (m : Connmap) (ids : Ids)
    → IsValid m ids
    → m.free ≡ npos
    → ((m' : Connmap) × (grow mem_ok m ≡ (0, m')) × IsGrown m ids m')
      ⊎ ((grow mem_ok m ≡ (enospc, m)) × (m.mask + 1 ≤ m.size))
      ⊎ ((grow mem_ok m ≡ (enomem, m)) × (mem_ok ≡ false))
unfolding grow
grow_lem mem_ok m ids v full = elim (dec_lt m.size (max_of m)) [
  | no p ↦ inr (inl (ground (arith, p), omega (arith, p, max_of-eq m ids v)))
  | yes p ↦
      let room : m.size < 2 ^ v.k = omega (arith, p, max_of-eq m ids v) in
      elim (Bool-cases mem_ok) [
        | inr f ↦ inr (inr (ground (arith, p, f), f))
        | inl t ↦ elim (Bool-cases m.hasmap) [
          | inl h ↦ inl (_, ground (arith, p, t, h), doubled-IsGrown m ids v full room h)
          | inr h ↦ inl (_, ground (arith, p, t, h), first-IsGrown m ids v full room h)
        ]
      ]
]

grown-view :
    (id : ℕ) (m w : Connmap) (ids : Ids)
    → w.mask ≡ m.mask
    → ((x : ℕ) → taken_at w.slots x ≡ taken_at m.slots x)
    → view id w ids ≡ view id m ids
grown-view id m w ids e same =
    ap (λ n. keep_if id ids (taken_at w.slots (bit_and n id))) e
    ∙ ap (keep_if id ids) (same (bit_and m.mask id))

-- What `connmap_add` answers of a connection that the map does not have: it is placed; or the map has
-- as many as its mask lets it have; or there was no memory. An error changes nothing.
pub add_lem :
    (mem_ok : Bool) (r conn : ℕ) (m : Connmap) (ids : Ids)
    → IsValid m ids
    → IsFresh conn m
    → r < 2 ^ 64
    → ((m' : Connmap) × (ids' : Ids) × (add mem_ok r conn m ids ≡ some (0, m', ids'))
        × IsAdded conn m ids m' ids')
      ⊎ ((add mem_ok r conn m ids ≡ some (enospc, m, ids)) × (m.mask + 1 ≤ m.size))
      ⊎ ((add mem_ok r conn m ids ≡ some (enomem, m, ids)) × (mem_ok ≡ false))
unfolding add has_free
add_lem mem_ok r conn m ids v fresh lt = elim (ℕ_discrete m.free npos) [
  | no has ↦
      let (m', ids', e, a) = place-IsAdded r conn m ids v fresh lt has in
      inl (m', ids', ground (arith, e, has), a)
  | yes full ↦ elim (grow_lem mem_ok m ids v full) [
    | inr (inl (e, h)) ↦ inr (inl (ground (arith, e, full), h))
    | inr (inr (e, h)) ↦ inr (inr (ground (arith, e, full), h))
    | inl (w, e, g) ↦
        let still : IsFresh conn w = λ i q. fresh i (sym (g.same i) ∙ q) in
        let (m', ids', p, a) = place-IsAdded r conn w ids g.valid still lt g.has in
        let old = λ (id : ℕ). grown-view id m w ids (g.mask) (g.same) in
        inl (
          m',
          ids',
          ground (arith, e, full, p),
          record {
            valid = a.valid;
            new = sym (old (ids' conn)) ∙ a.new;
            views = λ id. a.views id ∙ ap (λ o. if id == ids' conn then some conn else o) (old id);
          },
        )
  ]
]
