-- ===== src/Sockmap/Entries.antt =====
-- The entries of the array: what the loop finds, and what a write or a removal makes of them.
use native.Mathlib.Decide.{ℕ_discrete}
use libtrp.Base.{
  ℕ, suc, ◌-◌, ◌≤◌, ◌≡◌, ◌≢◌, ◌⊎◌, inl, inr, refl, sym, ap, ◌∙◌, arith, Option-cases, Option, none,
  some, List, [], ◌∷◌, ◌++◌, length, get_elem?, set, take, ◌==◌, if◌then◌else◌, length-set,
  length-take,
}
use libtrp.Sockmap.{index_of, swap_out}

-- The data of a socket, by its first entry.
abbrev pub lookup : ℕ → List (ℕ × ℕ) → Option ℕ
lookup fd [] = none
lookup fd (e ∷ es) = if fd == e.0 then some e.1 else lookup fd es

-- No socket has two entries.
abbrev pub IsUnique : List (ℕ × ℕ) → Type 0
IsUnique [] = Unit
IsUnique (e ∷ es) = (lookup e.0 es ≡ none) × IsUnique es

-- Where the loop finds an entry.
pub index_of-lookup :
    (fd : ℕ) (es : List (ℕ × ℕ))
    → ((index_of fd es ≡ none) × (lookup fd es ≡ none))
      ⊎ ((i : ℕ) × (d : ℕ) × (index_of fd es ≡ some i)
          × (get_elem? es i ≡ some (fd, d))
          × (lookup fd es ≡ some d))
unfolding index_of
index_of-lookup fd [] = inl (refl, refl)
index_of-lookup fd (e ∷ es) = elim (ℕ_discrete fd e.0) [
  | yes p ↦ inr (0, e.1, ground (arith, p), ap (λ n. some (n, e.1)) (sym p), ground (arith, p))
  | no p ↦ elim (index_of-lookup fd es) [
    | inl (q, r) ↦ inl (ground (arith, p, q), ground (arith, p, r))
    | inr (i, d, q, g, r) ↦ inr (suc i, d, ground (arith, p, q), g, ground (arith, p, r))
  ]
]

pub lookup-append :
    (fd : ℕ) (xs ys : List (ℕ × ℕ))
    → lookup fd (xs ++ ys)
      ≡ elim (lookup fd xs) as (λ _. Option ℕ) [ some d ↦ some d | none ↦ lookup fd ys ]
lookup-append fd [] ys = refl
lookup-append fd (e ∷ xs) ys = ground (arith, lookup-append fd xs ys)

pub append-IsUnique :
    (fd d : ℕ) (es : List (ℕ × ℕ))
    → IsUnique es
    → lookup fd es ≡ none
    → IsUnique (es ++ (fd, d) ∷ [])
append-IsUnique fd d [] u miss = (refl, tt)
append-IsUnique fd d (e ∷ es) u miss = (
  ground (arith, lookup-append e.0 es ((fd, d) ∷ []), u.0, miss),
  append-IsUnique fd d es u.1 (ground (arith, miss)),
)

index_of-nil : (fd i : ℕ) → index_of fd [] ≢ some i
unfolding index_of
index_of-nil fd i q = ground (arith, q)

-- What an index found says of the list.
index_of-cons :
    (fd i : ℕ) (e : ℕ × ℕ) (es : List (ℕ × ℕ))
    → index_of fd (e ∷ es) ≡ some i
    → ((i ≡ 0) × (fd ≡ e.0)) ⊎ ((j : ℕ) × (i ≡ suc j) × (fd ≢ e.0) × (index_of fd es ≡ some j))
unfolding index_of
index_of-cons fd i e es q = elim (ℕ_discrete fd e.0) [
  | yes p ↦ inl (ground (arith, p, q), p)
  | no p ↦ elim (Option-cases (index_of fd es)) [
    | inl n ↦ ground (arith, p, q, n)
    | inr (j, n) ↦ inr (j, ground (arith, p, q, n), p, n)
  ]
]

-- An entry that is overwritten with its own socket.
pub lookup-set :
    (fd d g : ℕ) (es : List (ℕ × ℕ)) (i : ℕ)
    → index_of fd es ≡ some i
    → lookup g (set es i (fd, d)) ≡ (if g == fd then some d else lookup g es)
lookup-set fd d g [] i q = absurd (index_of-nil fd i q)
lookup-set fd d g (e ∷ es) i q = elim (index_of-cons fd i e es q) [
  | inl (z, p) ↦ rw z (ground (arith, p))
  | inr (j, z, p, r) ↦ rw z (ground (arith, p, lookup-set fd d g es j r))
]

pub set-IsUnique :
    (fd d : ℕ) (es : List (ℕ × ℕ)) (i : ℕ)
    → index_of fd es ≡ some i
    → IsUnique es
    → IsUnique (set es i (fd, d))
set-IsUnique fd d [] i q u = tt
set-IsUnique fd d (e ∷ es) i q u = elim (index_of-cons fd i e es q) [
  | inl (z, p) ↦ rw z (ap (λ x. lookup x es) p ∙ u.0, u.1)
  | inr (j, z, p, r) ↦
      rw z (ground (arith, lookup-set fd d e.0 es j r, u.0, p), set-IsUnique fd d es j r u.1)
]

-- The last entry of a list, put in front, makes no difference.
rotate-lookup :
    (x z : ℕ × ℕ) (r : List (ℕ × ℕ))
    → IsUnique (x ∷ r)
    → get_elem? (x ∷ r) (length r) ≡ some z
    → let es = z ∷ take (length r) (x ∷ r) in
      ((g : ℕ) → lookup g es ≡ lookup g (x ∷ r)) × IsUnique es
rotate-lookup x z [] u e =
    let same : x ≡ z = cc in (λ g. ap (λ w. lookup g (w ∷ [])) (sym same), (refl, tt))
rotate-lookup x z (y ∷ r) u e =
    let (same, v) = rotate-lookup y z r u.1 e in
    let t = take (length r) (y ∷ r) in
    let apart : x.0 ≢ z.0 = ground (arith, same x.0, u.0) in
    (
      λ g. ground (arith, same g, apart),
      (ground (arith, v.0, apart), (ground (arith, same x.0, u.0), v.1)),
    )

swap_out-cons :
    (j : ℕ) (e x : ℕ × ℕ) (r : List (ℕ × ℕ)) → swap_out (suc j) (e ∷ x ∷ r) ≡ e ∷ swap_out j (x ∷ r)
unfolding swap_out
swap_out-cons j e x r = ground (arith)

some_last : (x : ℕ × ℕ) (r : List (ℕ × ℕ)) → (z : ℕ × ℕ) × (get_elem? (x ∷ r) (length r) ≡ some z)
some_last x [] = (x, refl)
some_last x (y ∷ r) = some_last y r

swap_out-zero :
    (e x z : ℕ × ℕ) (r : List (ℕ × ℕ))
    → get_elem? (x ∷ r) (length r) ≡ some z
    → swap_out 0 (e ∷ x ∷ r) ≡ z ∷ take (length r) (x ∷ r)
unfolding swap_out
swap_out-zero e x z r q = ground (arith, q)

swap_out-nil : (e : ℕ × ℕ) → swap_out 0 (e ∷ []) ≡ []
unfolding swap_out
swap_out-nil e = refl

-- The entries without those of a socket.
abbrev pub Lacks : ℕ → List (ℕ × ℕ) → List (ℕ × ℕ) → Type 0
Lacks fd es es' = ((g : ℕ) → lookup g es' ≡ (if g == fd then none else lookup g es)) × IsUnique es'

pub swap_out-Lacks :
    (fd : ℕ) (es : List (ℕ × ℕ)) (i : ℕ)
    → index_of fd es ≡ some i
    → IsUnique es
    → Lacks fd es (swap_out i es)
swap_out-Lacks fd [] i q u = absurd (index_of-nil fd i q)
swap_out-Lacks fd (e ∷ []) i q u = elim (index_of-cons fd i e [] q) [
  | inl (z, p) ↦ rw (z, swap_out-nil e) (λ g. ground (arith, p), tt)
  | inr (j, z, p, r) ↦ absurd (index_of-nil fd j r)
]
swap_out-Lacks fd (e ∷ x ∷ r) i q u = elim (index_of-cons fd i e (x ∷ r) q) [
  | inl (z, p) ↦
      let (l, at) = some_last x r in
      let (same, v) = rotate-lookup x l r u.1 at in
      rw (z, swap_out-zero e x l r at)
        (λ g. ground (arith, same g, p, u.0, ap (λ y. lookup y (x ∷ r)) {x = g} {y = e.0}), v)
  | inr (j, z, p, s) ↦
      let (same, v) = swap_out-Lacks fd (x ∷ r) j s u.1 in
      rw (z, swap_out-cons j e x r)
        (λ g. ground (arith, same g, p), (ground (arith, same e.0, u.0), v))
]

pub length-swap_out : (i : ℕ) (es : List (ℕ × ℕ)) → length (swap_out i es) ≤ length es
unfolding swap_out
length-swap_out i es = elim (Option-cases (get_elem? es (length es - 1))) [
  | inl q ↦ ground (arith, q)
  | inr (z, q) ↦ ground (arith, q, length-take (length es - 1) (set es i z), length-set es i z)
]
