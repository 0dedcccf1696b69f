-- ===== src/Sockmap.antt =====
-- src/sockmap.c and src/sockmap.h: the user's data for each socket, in an array without order.
pub mod Entries
pub mod Laws
mod Tests
use libtrp.Base.{
  ℕ, zero, suc, ◌+◌, ◌-◌, ◌^◌, Bool, Option, none, some, List, [], ◌∷◌, ◌++◌, length, get_elem?,
  set, take, ◌==◌, leb, if◌then◌else◌,
}

-- `sockmap_t`: `entries` are the first `len` of the `alen` in the array, a socket and its data each.
pub record Sockmap : Type 0 where
  pub alen : ℕ
  pub entries : List (ℕ × ℕ)

-- `SOCKMAP_MAX`
abbrev pub sockmap_max : ℕ
sockmap_max = 2 ^ 31 - 2

abbrev pub enomem : ℕ
enomem = 12

-- `sockmap_init`
abbrev pub init : Sockmap
init = record { alen = 0; entries = [] }

-- What `sockmap_destroy` leaves: it frees the array, and keeps the counts.
pub record Destroyed : Type 0 where
  pub len : ℕ
  pub alen : ℕ

abbrev pub destroy : Sockmap → Destroyed
destroy m = record { len = length m.entries; alen = m.alen }

-- The loop of all operations: the index of the first entry for the socket.
unfoldable pub index_of : ℕ → List (ℕ × ℕ) → Option ℕ
index_of fd [] = none
index_of fd (e ∷ es) =
    let rest : Option ℕ = elim (index_of fd es) [ none ↦ none | some i ↦ some (suc i) ] in
    if fd == e.0 then some zero else rest

-- `sockmap_put`: the code.
unfoldable pub put : Bool → ℕ → ℕ → Sockmap → ℕ × Sockmap
unfolding index_of
put mem_ok fd d m = elim (index_of fd m.entries) [
  | some i ↦ (0, record m { entries = set m.entries i (fd, d) })
  | none ↦
      let len = length m.entries in
      let entries = m.entries ++ (fd, d) ∷ [] in
      if leb m.alen len
      then (if sockmap_max == m.alen
          then (enomem, m)
          else if mem_ok
          then (0, record { alen = len + 1; entries = entries })
          else (enomem, m))
      else (0, record m { entries = entries })
]

-- The last entry takes the place of the entry at `i`.
unfoldable pub swap_out : ℕ → List (ℕ × ℕ) → List (ℕ × ℕ)
swap_out i es = elim (get_elem? es (length es - 1)) [
  | none ↦ es
  | some last ↦ take (length es - 1) (set es i last)
]

-- `sockmap_del`
unfoldable pub del : ℕ → Sockmap → Sockmap
unfolding index_of swap_out
del fd m = elim (index_of fd m.entries) [
  | none ↦ m
  | some i ↦ record m { entries = swap_out i m.entries }
]

-- `sockmap_get`, `none` for NULL.
unfoldable pub get : ℕ → Sockmap → Option ℕ
unfolding index_of
get fd m = elim (index_of fd m.entries) [
  | none ↦ none
  | some i ↦ elim (get_elem? m.entries i) [ none ↦ none | some e ↦ some e.1 ]
]
