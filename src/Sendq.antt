-- ===== src/Sendq.antt =====
-- src/sendq.c: the queue of connections that have something to send. A connection is a handle, its fields
-- `next` and `insend` are kept beside the queue.
pub mod Laws
mod Tests
use mathlib.Core.Option
use libtrp.Base.{ℕ, Bool, true, false, Option, none, some, ◌==◌, if◌then◌else◌}
use libtrp.Linked.{Next, Ends, empty, enqueue, update, seek, unlink, Found, missing, behind}

pub record Sendq : Type 0 where
  pub ends : Ends
  pub next : Next
  pub insend : ℕ → Bool

abbrev pub mark : (ℕ → Bool) → ℕ → Bool → ℕ → Bool
mark f c b d = if d == c then b else f d

-- `sendq_init` and `sendq_destroy`
unfoldable pub init : Sendq → Sendq
init q = record q { ends = empty }

-- `sendq_nq`
unfoldable pub nq : ℕ → Sendq → Sendq
unfolding enqueue
nq c q =
    if q.insend c
    then q
    else let (ends, next) = enqueue c q.ends q.next in
      record { ends = ends; next = next; insend = mark q.insend c true }

-- `sendq_dq`
unfoldable pub dq : Sendq → Option ℕ × Sendq
unfolding update
dq q = elim q.ends.head [
  | none ↦ (none, q)
  | some c ↦
      let tail : Option ℕ = elim (q.next c) [ none ↦ none | some _ ↦ q.ends.tail ] in
      (
        some c,
        record {
          ends = record { head = q.next c; tail = tail };
          next = update q.next c none;
          insend = mark q.insend c false;
        },
      )
]

-- `sendq_del`: the tail pointer and the `next` of the connection stay. `none` is too little fuel.
unfoldable pub del : ℕ → ℕ → Sendq → Option Sendq
unfolding seek unlink
del fuel c q =
    if q.insend c
    then elim (seek fuel q.next c none q.ends.head) [
      | none ↦ none
      | some missing ↦ some (record q { insend = mark q.insend c false })
      | some (behind prev) ↦
          let (ends, next) = unlink prev c q.ends q.next in
          some (record { ends = ends; next = next; insend = mark q.insend c false })
    ]
    else some (record q { insend = mark q.insend c false })

-- `sendq_has`
unfoldable pub has : Sendq → Bool
has q = elim q.ends.head [ none ↦ false | some _ ↦ true ]
