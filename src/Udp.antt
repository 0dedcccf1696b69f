-- ===== src/Udp.antt =====
-- src/packet.c: the check of the port that a UDP interface is asked to bind. Bytes are numbers; `none` is
-- a read behind the end of the list that holds the string.
pub mod Laws
pub mod Socket
mod Tests
use mathlib.Core.Option
use libtrp.Base.{
  ℕ, zero, suc, ◌+◌, ◌-◌, ◌*◌, Bool, true, false, not, ◌&&◌, ◌||◌, Option, none, some, List, [],
  ◌∷◌, get_elem?, ◌==◌, ltb, leb, if◌then◌else◌,
}

-- `isdigit`
abbrev pub isdigit : ℕ → Bool
isdigit c = leb 48 c && leb c 57

-- `atoi` of a string of digits, which ends at the first byte that is none.
unfoldable pub atoi : ℕ → List ℕ → ℕ
atoi n [] = n
atoi n (c ∷ s) = let rest = atoi (n * 10 + (c - 48)) s in if isdigit c then rest else n

-- How the loop ends: with the index `i`, or by `return false`.
pub data Scan : Type 0 where
  stopped : ℕ → Scan
  bad : Scan

-- The loop from `i` on, with `fuel` rounds left.
unfoldable pub scan : ℕ → ℕ → List ℕ → Option Scan
scan zero i s = some (stopped i)
scan (suc fuel) i s =
    let rest = scan fuel (i + 1) s in
    elim (get_elem? s i) [
      | none ↦ none
      | some c ↦ if c == 0 then some (stopped i) else if not (isdigit c) then some bad else rest
    ]

-- `_trip_udp_validate_info`
unfoldable pub validate_info : List ℕ → Option Bool
unfolding scan atoi
validate_info s = elim (scan 5 0 s) [
  | none ↦ none
  | some bad ↦ some false
  | some (stopped i) ↦ elim (get_elem? s i) [
    | none ↦ none
    | some c ↦
        if not (c == 0)
        then some false
        else (let port = atoi 0 s in some (not (ltb 65535 port || leb port 0)))
  ]
]
