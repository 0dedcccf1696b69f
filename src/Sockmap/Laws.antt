-- ===== src/Sockmap/Laws.antt =====
-- The array of sockets as a map.
use native.Mathlib.Decide.{ℕ_discrete, dec_lt}
use libtrp.Base.{
  ℕ, ◌+◌, ◌≤◌, ◌<◌, ◌≡◌, ◌⊎◌, inl, inr, refl, ap, ◌∙◌, arith, Bool, false, Bool-cases, none, some,
  [], ◌∷◌, ◌++◌, length, set, ◌==◌, if◌then◌else◌, length-append, length-set,
}
use libtrp.Sockmap.{Sockmap, sockmap_max, enomem, index_of, put, swap_out, del, get}
use libtrp.Sockmap.Entries.{
  lookup, IsUnique, index_of-lookup, lookup-append, append-IsUnique, lookup-set, set-IsUnique,
  swap_out-Lacks, length-swap_out,
}

-- The entries are within the array, which is within its limit.
pub record IsValid (m : Sockmap) : Type 0 where
  pub unique : IsUnique m.entries
  pub fits : length m.entries ≤ m.alen
  pub bounded : m.alen ≤ sockmap_max

-- `sockmap_get` is the map.
pub get-lookup : (fd : ℕ) (m : Sockmap) → get fd m ≡ lookup fd m.entries
unfolding get
get-lookup fd m = elim (index_of-lookup fd m.entries) [
  | inl (q, r) ↦ ground (arith, q, r)
  | inr (i, d, q, g, r) ↦ ground (arith, q, g, r)
]

-- Removing a socket from a valid map leaves a valid map, without the socket and with all others; it
-- needs no memory.
pub del-lookup :
    (fd : ℕ) (m : Sockmap)
    → IsValid m
    → IsValid (del fd m) × ((g : ℕ) → get g (del fd m) ≡ (if g == fd then none else get g m))
unfolding del
del-lookup fd m v = elim (index_of-lookup fd m.entries) [
  | inl (q, r) ↦
      let same : del fd m ≡ m = ground (arith, q) in
      rw same
        (v, λ g. ground (arith, get-lookup g m, r, ap (λ x. lookup x m.entries) {x = g} {y = fd}))
  | inr (i, d, q, at, r) ↦
      let m' = record m { entries = swap_out i m.entries } in
      let same : del fd m ≡ m' = ground (arith, q) in
      let (rest, unique) = swap_out-Lacks fd m.entries i q v.unique in
      rw same (
        record {
          unique = unique;
          fits = omega (arith, length-swap_out i m.entries, v.fits);
          bounded = v.bounded;
        },
        λ g. ground (arith, get-lookup g m', get-lookup g m, rest g),
      )
]

-- A map with an entry more.
abbrev grown : ℕ → ℕ → ℕ → Sockmap → Sockmap
grown alen fd d m = record { alen = alen; entries = m.entries ++ (fd, d) ∷ [] }

-- The room for a new entry.
put-new :
    (mem_ok : Bool) (fd d : ℕ) (m : Sockmap)
    → IsValid m
    → index_of fd m.entries ≡ none
    → ((a : ℕ) × (put mem_ok fd d m ≡ (0, grown a fd d m))
        × (length m.entries < a)
        × (a ≤ sockmap_max))
      ⊎ ((put mem_ok fd d m ≡ (enomem, m))
          × (m.alen ≡ length m.entries)
          × ((mem_ok ≡ false) ⊎ (m.alen ≡ sockmap_max)))
unfolding put
put-new mem_ok fd d m v q = elim (dec_lt (length m.entries) m.alen) [
  | yes room ↦ inl (m.alen, ground (arith, q, room), room, v.bounded)
  | no full ↦ elim (ℕ_discrete m.alen sockmap_max) [
    | yes top ↦ inr (ground (arith, q, full, top), omega (arith, full, v.fits), inr top)
    | no under ↦ elim (Bool-cases mem_ok) [
      | inr poor ↦ inr (ground (arith, q, full, under, poor), omega (arith, full, v.fits), inl poor)
      | inl rich ↦ inl (
        length m.entries + 1,
        ground (arith, q, full, under, rich),
        omega arith,
        omega (arith, full, under, v.fits, v.bounded),
      )
    ]
  ]
]

-- Putting a socket into a valid map leaves a valid map. With code 0 the socket has the new data, and all
-- others are as they were; else the code is ENOMEM, nothing changes, the socket was not there, and there
-- is no room in the array and either no memory or an array of the greatest size.
pub put-lookup :
    (mem_ok : Bool) (fd d : ℕ) (m : Sockmap)
    → IsValid m
    → let (code, m') = put mem_ok fd d m in
      IsValid m'
      × (((code ≡ 0) × ((g : ℕ) → get g m' ≡ (if g == fd then some d else get g m)))
          ⊎ ((code ≡ enomem)
              × (m' ≡ m)
              × (get fd m ≡ none)
              × (m.alen ≡ length m.entries)
              × ((mem_ok ≡ false) ⊎ (m.alen ≡ sockmap_max))))
unfolding put
put-lookup mem_ok fd d m v = elim (index_of-lookup fd m.entries) [
  | inr (i, d', q, at, r) ↦
      let m' = record m { entries = set m.entries i (fd, d) } in
      let same : put mem_ok fd d m ≡ (0, m') = ground (arith, q) in
      rw same (
        record {
          unique = set-IsUnique fd d m.entries i q v.unique;
          fits = omega (arith, length-set m.entries i (fd, d), v.fits);
          bounded = v.bounded;
        },
        inl (
          refl,
          λ g. ground (arith, get-lookup g m', get-lookup g m, lookup-set fd d g m.entries i q),
        ),
      )
  | inl (q, r) ↦ elim (put-new mem_ok fd d m v q) [
    | inr (same, full, why) ↦ rw same (v, inr (refl, refl, get-lookup fd m ∙ r, full, why))
    | inl (a, same, room, bound) ↦
        let m' = grown a fd d m in
        rw same (
          record {
            unique = append-IsUnique fd d m.entries v.unique r;
            fits = omega (arith, length-append m.entries ((fd, d) ∷ []), room);
            bounded = bound;
          },
          inl (
            refl,
            λ g. ground (
              arith,
              get-lookup g m',
              get-lookup g m,
              lookup-append g m.entries ((fd, d) ∷ []),
              r,
              ap (λ x. lookup x m.entries) {x = g} {y = fd},
            ),
          ),
        )
  ]
]
