-- ===== src/Streammap.antt =====
-- src/streammap.c: the streams of a connection, and `tripc_open_stream` of src/conn.c, which fills them. The
-- words of the array are those of a union: streams, or links of the free list. A stream is a handle, a
-- pointer into the array an index, which may be the one past its end. `none` is undefined behaviour.
pub mod Laws
mod Tests
use mathlib.Core.Option
use libtrp.Base.{
  ℕ, zero, suc, ◌+◌, ◌-◌, ◌*◌, ◌^◌, ◌%◌, Bool, true, false, Option, none, some, List, [], ◌∷◌,
  get_elem?, set, bit_and, ltb, leb, ◌==◌, if◌then◌else◌,
}

-- A word of the array.
pub data Cell : Type 0 where
  null : Cell
  stream slot : ℕ → Cell

-- `streammap_t`; `hasmap` says whether `map` is not NULL.
pub record Streammap : Type 0 where
  pub size : ℕ
  pub cap : ℕ
  pub hasmap : Bool
  pub cells : List Cell
  pub free : Option ℕ

-- `streammap_init`
unfoldable pub init : ℕ → Streammap
init max = record { size = 0; cap = max; hasmap = false; cells = []; free = none }

-- `streammap_destroy`
unfoldable pub destroy : Streammap → Streammap
unfolding init
destroy m = if m.hasmap then init 0 else m

-- `streammap_iter_beg` and `streammap_iter_end`
abbrev pub iter_beg : ℕ
iter_beg = 0

unfoldable pub iter_end : Streammap → ℕ
iter_end m = m.cap

-- `streammap_has_space`
unfoldable pub has_space : Streammap → Bool
has_space m = ltb m.size m.cap

-- The loop that writes `n` links from `i` on; the last one points past the end.
abbrev pub links : ℕ → ℕ → List Cell
links i zero = []
links i (suc n) = slot (i + 1) ∷ links (i + 1) n

-- The branch without a free slot: an `int` is doubled.
unfoldable pub allocate : Streammap → Option Streammap
allocate m =
    if leb (2 ^ 31) (m.cap * 2)
    then none
    else some (record m { cap = m.cap * 2; hasmap = true; cells = links 0 m.cap; free = some 0 })

-- What a word of the array is as the free list.
abbrev pub free_of : Cell → Option (Option ℕ)
free_of null = some none
free_of (slot i) = some (some i)
free_of (stream s) = none

-- The part behind the branch: the index, which is written to the stream, and the map.
unfoldable pub place : ℕ → Streammap → Option (ℕ × Streammap)
place s m = elim m.free [
  | none ↦ none
  | some i ↦ elim (get_elem? m.cells i) [
    | none ↦ none
    | some c ↦ elim (free_of c) [
      | none ↦ none
      | some free ↦
          some (i, record m { free = free; cells = set m.cells i (stream s); size = m.size + 1 })
    ]
  ]
]

-- `streammap_add`: the index, or `none` for `ENOMEM`.
unfoldable pub add : Bool → ℕ → Streammap → Option (Option ℕ × Streammap)
unfolding allocate place
add mem_ok s m =
    let placed : Streammap → Option (Option ℕ × Streammap) =
      λ m. Option.map (λ (i, m). (some i, m)) (place s m) in
    elim m.free [
      | some _ ↦ placed m
      | none ↦
          if mem_ok then elim (allocate m) [ none ↦ none | some m ↦ placed m ] else some (none, m)
    ]

-- `streammap_del`: the word that was in the slot. What is freed stays the free list.
unfoldable pub del : ℕ → Streammap → Option (Cell × Streammap)
del i m =
    if ltb i m.cap
    then elim (get_elem? m.cells i) [
      | none ↦ none
      | some c ↦
          let link : Cell = elim m.free [ none ↦ null | some j ↦ slot j ] in
          let m = record m { cells = set m.cells i link; free = some i; size = m.size - 1 } in
          some (c, if m.size == 0 then record m { hasmap = false; cells = [] } else m)
    ]
    else some (null, m)

-- `streammap_get`
unfoldable pub get : ℕ → Streammap → Option Cell
get i m = if ltb i m.cap then get_elem? m.cells i else some null

-- A stream that is opened: its handle, `id` and `flags`.
pub record Opened : Type 0 where
  pub handle : ℕ
  pub id : ℕ
  pub flags : ℕ

-- `_TRIPS_OPT_PUBMASK`
abbrev pub pubmask : ℕ
pubmask = 15

-- `tripc_open_stream`: the stream, `none` for NULL; what `streammap_add` returns is not looked at.
unfoldable pub open_stream :
    Option ℕ → Bool → ℕ → ℕ → Streammap → Option (Option Opened × Streammap)
unfolding add
open_stream fresh mem_ok sid options m = elim fresh [
  | none ↦ some (none, m)
  | some s ↦ elim (add mem_ok s m) [
    | none ↦ none
    | some (at, m) ↦
        let id : ℕ = elim at [ none ↦ sid | some i ↦ i ] in
        some (some (record { handle = s; id = id; flags = bit_and options pubmask }), m)
  ]
]
