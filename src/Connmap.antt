-- ===== src/Connmap.antt =====
-- src/connmap.c and src/connmap.h: the map from 64-bit ids to connections. A connection is a handle; its
-- field `self.id`, which only `connmap_add` writes, is looked up in `Ids`. `none` is a read outside the
-- slots, or of the wrong member of a slot's union.
pub mod Inv
pub mod Init
pub mod Chain
pub mod Place
pub mod Add
pub mod Del
mod Tests
use mathlib.Core.Option
use libtrp.Base.{
  ℕ, zero, suc, ◌+◌, ◌-◌, ◌*◌, ◌^◌, bit_and, bit_xor, Bool, true, false, ◌&&◌, Option, none, some,
}
use libtrp.Base.{
  List, [], ◌∷◌, ◌++◌, set, get_elem?, replicate, u64, ◌<<<◌, ltb, leb, ◌==◌, if◌then◌else◌,
}
use libtrp.Util.{near_pwr2_64}

-- `connmap_entry_t`: the union has `c` where `isfull` is true, and else `next`.
pub data Slot : Type 0 where
  taken : ℕ → Slot
  vacant : ℕ → Slot

-- `connmap_t`; `hasmap` says whether `map` is not NULL.
pub record Connmap : Type 0 where
  pub mask : ℕ
  pub size : ℕ
  pub cap : ℕ
  pub hasmap : Bool
  pub slots : List Slot
  pub free : ℕ

-- `self.id` of each connection.
abbrev pub Ids : Type 0
Ids = ℕ → ℕ

-- `NPOS`
abbrev pub npos : ℕ
npos = 2 ^ 64 - 1

abbrev pub enospc : ℕ
enospc = 28

abbrev pub enomem : ℕ
enomem = 12

-- `connmap_max_conn`
abbrev pub max_conn : ℕ
max_conn = 2 ^ 31

-- `connmap_index`
unfoldable pub index_of : Connmap → ℕ → ℕ
index_of m id = bit_and m.mask id

-- `connmap_has_free`
unfoldable pub has_free : Connmap → Bool
has_free m = if m.free == npos then false else true

-- `connmap_push` of the slot at `i`
unfoldable pub push : ℕ → Connmap → Connmap
push i m = record m { slots = set m.slots i (vacant m.free); free = i }

-- `connmap_pop`: the index of the slot
unfoldable pub pop : Connmap → Option (ℕ × Connmap)
pop m = elim (get_elem? m.slots m.free) [
  | some (vacant next) ↦ some (m.free, record m { free = next })
  | some (taken _) ↦ none
  | none ↦ none
]

-- `connmap_max`
unfoldable pub max_of : Connmap → ℕ
max_of m = u64 (m.mask + 1)

-- `connmap_random`: the first draw is the upper half.
unfoldable pub random : ℕ → ℕ → ℕ
random hi lo = bit_xor (u64 (hi <<< 32)) lo

-- `connmap_init`
unfoldable pub init : ℕ → Connmap
init max =
    let max = if max == 0 then 1 else max in
    let max = if ltb max_conn max then max_conn else max in
    record {
      mask = near_pwr2_64 max - 1;
      size = 0;
      cap = 0;
      hasmap = false;
      slots = [];
      free = npos;
    }

-- `connmap_clear`, with `connmap_destroy`
unfoldable pub clear : Connmap → Connmap
unfolding init max_of
clear m = init (max_of m)

-- The loop that pushes `n` slots from `i` on.
unfoldable pub push_all : ℕ → ℕ → Connmap → Connmap
unfolding push
push_all zero i m = m
push_all (suc n) i m = push_all n (i + 1) (push i m)

-- More slots where none is free: the code, 0 if it succeeded. What the new slots hold is not read before
-- they are pushed.
unfoldable pub grow : Bool → Connmap → ℕ × Connmap
unfolding push push_all max_of
grow mem_ok m =
    if leb (max_of m) m.size
    then (enospc, m)
    else if m.hasmap
    then (if mem_ok
        then (
          0,
          push_all m.cap m.cap
              (record m { cap = m.cap * 2; slots = m.slots ++ replicate m.cap (vacant npos) }),
        )
        else (enomem, m))
    else (if mem_ok
        then (0, push 0 (record m { hasmap = true; cap = 1; slots = vacant npos ∷ [] }))
        else (enomem, m))

-- The id of slot `i`: its own bits below the mask, random ones above.
unfoldable pub make_id : Connmap → ℕ → ℕ → ℕ
make_id m i r = bit_xor i (bit_and r (2 ^ 64 - 1 - m.mask))

-- The second half of `connmap_add`: a free slot takes the connection.
unfoldable pub place : ℕ → ℕ → Connmap → Ids → Option (ℕ × Connmap × Ids)
unfolding pop make_id
place r conn m ids =
    Option.map
      (λ (i, m). (
        0,
        record m { slots = set m.slots i (taken conn); size = m.size + 1 },
        λ c. if c == conn then make_id m i r else ids c,
      ))
      (pop m)

-- `connmap_add`: `r` is the number that `connmap_random` drew.
unfoldable pub add : Bool → ℕ → ℕ → Connmap → Ids → Option (ℕ × Connmap × Ids)
unfolding has_free grow place
add mem_ok r conn m ids =
    if has_free m
    then place r conn m ids
    else let (code, m) = grow mem_ok m in
      if code == 0 then place r conn m ids else some (code, m, ids)

-- The slot that has the id, and its connection.
unfoldable pub find : ℕ → Connmap → Ids → Option (Option (ℕ × ℕ))
unfolding index_of
find id m ids =
    let i = index_of m id in
    if ltb i m.cap
    then elim (get_elem? m.slots i) [
      | none ↦ none
      | some (vacant _) ↦ some none
      | some (taken c) ↦ some (if id == ids c then some (i, c) else none)
    ]
    else some none

-- `connmap_get`
unfoldable pub get : ℕ → Connmap → Ids → Option (Option ℕ)
unfolding find
get id m ids = Option.map (Option.map (λ (i, c). c)) (find id m ids)

-- `connmap_del`
unfoldable pub del : ℕ → Connmap → Ids → Option (Option ℕ × Connmap)
unfolding find push clear
del id m ids = elim (find id m ids) [
  | none ↦ none
  | some none ↦ some (none, m)
  | some (some (i, c)) ↦
      let m = push i m in
      let m = record m { size = m.size - 1 } in some (some c, if m.size == 0 then clear m else m)
]

-- `connmap_iter_get` and `connmap_iter_end`
unfoldable pub iter_get : ℕ → Connmap → Option (Option ℕ)
iter_get it m = elim (get_elem? m.slots it) [
  | none ↦ none
  | some (vacant _) ↦ some none
  | some (taken c) ↦ some (some c)
]

unfoldable pub iter_end : Connmap → ℕ
iter_end m = m.cap
