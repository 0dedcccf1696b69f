-- ===== src/Linked.antt =====
-- Lists that go through a field `next` of their elements, with a head and a tail pointer: the send queue of
-- src/sendq.c, the messages of a connection (src/conn.c) and those of a stream (src/stream.c). A pointer is
-- NULL or a handle.
pub mod Laws
pub mod Removal
use libtrp.Base.{ℕ, zero, suc, Option, none, some, ◌==◌, if◌then◌else◌}

abbrev pub Next : Type 0
Next = ℕ → Option ℕ

pub record Ends : Type 0 where
  pub head : Option ℕ
  pub tail : Option ℕ

abbrev pub empty : Ends
empty = record { head = none; tail = none }

-- `p->next = v`
unfoldable pub update : Next → ℕ → Option ℕ → Next
update nx p v q = if q == p then v else nx q

-- The element becomes the tail, and the head of an empty list; its `next` is cleared last.
unfoldable pub enqueue : ℕ → Ends → Next → Ends × Next
unfolding update
enqueue m q nx = elim q.tail [
  | some t ↦ (record q { tail = some m }, update (update nx t (some m)) m none)
  | none ↦ (record { head = some m; tail = some m }, update nx m none)
]

-- Where a search through the list ends: at its end, or at the element, behind another one or at the head.
pub data Found : Type 0 where
  missing : Found
  behind : Option ℕ → Found

-- The search for `c` from `n` on, whose predecessor is `prev`; `none` where the fuel is too little.
unfoldable pub seek : ℕ → Next → ℕ → Option ℕ → Option ℕ → Option Found
seek fuel nx c prev none = some missing
seek zero nx c prev (some n) = none
seek (suc fuel) nx c prev (some n) =
    let rest = seek fuel nx c (some n) (nx n) in if n == c then some (behind prev) else rest

-- `*p = c->next`, where `p` is the address of the head or of the predecessor's `next`.
unfoldable pub unlink : Option ℕ → ℕ → Ends → Next → Ends × Next
unfolding update
unlink none c q nx = (record q { head = nx c }, nx)
unlink (some p) c q nx = (q, update nx p (nx c))
