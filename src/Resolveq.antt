-- ===== src/Resolveq.antt =====
-- src/resolveq.c and src/resolveq.h: the connections that wait for an address, by the keys that the packet
-- interface is given. A slot is that of the connection map: a union with a flag. A connection is a handle,
-- and 0 is NULL; a pointer to a slot is its index, and `npos` is NULL.
pub mod Laws
pub mod Dropped
mod Tests
use mathlib.Core.Option
use libtrp.Base.{
  ℕ, zero, suc, ◌+◌, ◌-◌, Bool, true, false, Option, none, some, List, [], ◌∷◌, ◌++◌, get_elem?,
  set, npos, ltb, ◌==◌, if◌then◌else◌,
}
use libtrp.Connmap.{Slot, taken, vacant}

-- `resolveq_t`
pub record Resolveq : Type 0 where
  pub len : ℕ
  pub size : ℕ
  pub slots : List Slot
  pub free : ℕ

-- `resolveq_init`, `resolveq_destroy` and `resolveq_clear`
abbrev pub init : Resolveq
init = record { len = 0; size = 0; slots = []; free = npos }

-- `_enqueue` of the slot `i`.
unfoldable pub enqueue : ℕ → Resolveq → Resolveq
enqueue i q = record q { slots = set q.slots i (vacant q.free); free = i }

-- `_grow`: what the new slot holds is not read before it is enqueued.
unfoldable pub grow : Bool → Resolveq → Resolveq
unfolding enqueue
grow mem_ok q =
    if mem_ok
    then enqueue q.len (record q { len = q.len + 1; slots = q.slots ++ vacant npos ∷ [] })
    else q

-- `_pop`: the index of the slot. `none` is a read outside the slots, or of the wrong member of the union.
unfoldable pub pop_free : Resolveq → Option (ℕ × Resolveq)
pop_free q = elim (get_elem? q.slots q.free) [
  | some (vacant next) ↦ some (q.free, record q { free = next })
  | some (taken _) ↦ none
  | none ↦ none
]

-- `_check_size`
unfoldable pub check_size : Resolveq → Resolveq
check_size q = if q.size == 0 then init else q

-- The second half of `resolveq_put`.
unfoldable pub occupy : ℕ → Resolveq → Option (Option ℕ × Resolveq)
unfolding pop_free
occupy c q =
    Option.map (λ (i, q). (some i, record q { size = q.size + 1; slots = set q.slots i (taken c) }))
      (pop_free q)

-- `resolveq_put`: the key, `none` for -1.
unfoldable pub put : Bool → ℕ → Resolveq → Option (Option ℕ × Resolveq)
unfolding grow occupy
put mem_ok c q =
    let grown = grow mem_ok q in
    let late = if grown.free == npos then some (none, grown) else occupy c grown in
    if q.free == npos then late else occupy c q

-- `resolveq_pop` of a key; -1 is below `len`, and reads before the array.
unfoldable pub pop : Option ℕ → Resolveq → Option (ℕ × Resolveq)
unfolding enqueue check_size
pop none q = none
pop (some k) q =
    if ltb k q.len
    then elim (get_elem? q.slots k) [
      | none ↦ none
      | some (vacant _) ↦ some (0, check_size q)
      | some (taken c) ↦
          let q = enqueue k q in some (c, check_size (record q { size = q.size - 1 }))
    ]
    else some (0, q)

-- `resolveq_del`
unfoldable pub del : Option ℕ → Resolveq → Option Resolveq
del none q = none
del (some k) q =
    if ltb k q.len
    then elim (get_elem? q.slots k) [
      | none ↦ none
      | some (vacant _) ↦ some q
      | some (taken c) ↦ some (record q { slots = set q.slots k (taken 0) })
    ]
    else some q
