-- ===== src/Router/Closing/Gone.antt =====
-- What is left of a connection whose address was not resolved in time.
use libtrp.Base.{
  ℕ, ◌≤◌, ◌≡◌, ap, ◌∙◌, arith, false, inl, inr, Option, none, some, List, [], ◌∷◌, ◌++◌, length,
  ◌==◌, if◌then◌else◌,
}
use libtrp.Connection.State
use libtrp.Connection.State.{Conn, etime}
use libtrp.Connection.Timing.{disarm}
use libtrp.Connection.Change.{set_error}
use libtrp.Linked.Laws.{Links, occurs}
use libtrp.Linked.Removal.{Links-apart}
use libtrp.Sendq
use libtrp.Sendq.{Sendq}
use libtrp.Sendq.Laws.{IsQueue, IsRemoved, del-IsRemoved}
use libtrp.Streammap
use libtrp.Resolveq
use libtrp.Resolveq.{Resolveq}
use libtrp.Resolveq.Laws
use libtrp.Resolveq.Laws.{pop-view}
use libtrp.Resolveq.Dropped.{del-view}
use libtrp.Router.Hub.{put}
use libtrp.Connmap.Inv
use libtrp.Connmap.Del.{del_lem}
use libtrp.Router.Closing.{Holdings, destroy, close_connection, resolve_timeout}

if_self : (k : ℕ) (a b : Option ℕ) → (if k == k then a else b) ≡ a
if_self k a b = ground arith

disarm-statetimer : (c : Conn) → (disarm c).statetimer ≡ false
unfolding disarm
disarm-statetimer c = ground arith

-- A send queue without a connection. One that was queued is unlinked and unflagged, and all others are left in
-- order; but `tail` still points to it if it was the last, so the queue is valid exactly if it was not.
pub data IsOff (c : ℕ) (l : List ℕ) (q : Sendq) : Type 0 where
  never : occurs c l ≡ false → IsQueue q l → IsOff c l q
  unlinked :
      (before after : List ℕ)
      → l ≡ before ++ c ∷ after
      → occurs c (before ++ after) ≡ false
      → IsRemoved c before after q
      → IsOff c l q

-- The removal ends.
del-IsOff :
    (q : Sendq) (l : List ℕ) (c fuel : ℕ)
    → IsQueue q l
    → length l ≤ fuel
    → (q' : Sendq) × (Sendq.del fuel c q ≡ some q') × (q'.insend c ≡ false) × IsOff c l q'
del-IsOff q l c fuel v le = elim (del-IsRemoved q l c fuel v le) [
  | inl (miss, q', e, w) ↦ (q', e, w.flags c ∙ miss, never miss w)
  | inr (before, after, q', whole, e, w) ↦
      let links : Links q.next q.ends.head (before ++ c ∷ after) = rw (← whole) v.list.links in
      let out = Links-apart q.next q.ends.head c before after links in
      (q', e, w.flags c ∙ out, unlinked before after whole out w)
]

-- The valid holdings of a connection that waits for an address under the key `k`.
pub record IsHeld (c k : ℕ) (l : List ℕ) (s : Holdings) : Type 0 where
  pub map : Inv.IsValid s.map s.ids
  pub mapped : Inv.view (s.ids c) s.map s.ids ≡ some c
  pub sendq : IsQueue s.sendq l
  pub key : s.keys c ≡ some k
  pub queue : Laws.IsValid s.queue
  pub resolving : Laws.view k s.queue ≡ some c

-- The connection is gone: no id is mapped to it, it is not flagged as queued nor linked in the send queue, none
-- of its timers is kept, and a late answer for its key finds NULL and frees the key; no other id or key has
-- changed, and all others stay linked and flagged in the send queue.
pub record IsGone (c k : ℕ) (l : List ℕ) (s s' : Holdings) : Type 0 where
  pub map : Inv.IsValid s'.map s.ids
  pub ids :
      (id : ℕ)
      → Inv.view id s'.map s.ids ≡ (if id == s.ids c then none else Inv.view id s.map s.ids)
  pub unflagged : s'.sendq.insend c ≡ false
  pub unqueued : IsOff c l s'.sendq
  pub untimed : (s'.conns c).statetimer ≡ false
  pub left : Resolveq
  pub late : Resolveq.pop (some k) s'.queue ≡ some (0, left)
  pub keys : (j : ℕ) → Laws.view j left ≡ (if j == k then none else Laws.view j s.queue)

-- A connection that is mapped and waits for an address under a key, in valid maps and queues, is gone after
-- the timer for its address has fired, whatever its state: the handler ends, with fuel for the send queue. Its
-- id is not mapped, it has no timer and is not linked in the send queue, which stays valid exactly if it was
-- not the last there; a late answer for its key finds NULL; and nothing else leaves the maps and the queue.
pub resolve_timeout-IsGone :
    (env : State.Env) (c k fuel : ℕ) (l : List ℕ) (s : Holdings)
    → IsHeld c k l s
    → length l ≤ fuel
    → (s' : Holdings) × (resolve_timeout env fuel c s ≡ some s') × IsGone c k l s s'
unfolding resolve_timeout close_connection destroy
resolve_timeout-IsGone env c k fuel l s h le =
    let (queue, dropped, valid, views) = del-view k c s.queue h.queue h.resolving in
    let (sendq, removed, unflagged, off) = del-IsOff s.sendq l c fuel h.sendq le in
    elim (del_lem (s.ids c) s.map s.ids h.map) [
      | inl (n, e) ↦ absurd (ground (arith, n, h.mapped))
      | inr (d, map, v, e, w, others) ↦
          let (left, popped, lv, lefts) = pop-view k queue valid in
          let here : Laws.view k queue ≡ some 0 =
            views k ∙ if_self k (some 0) (Laws.view k s.queue) in
          let conn = set_error env (record (s.conns c) { statetimer = false }) etime [] in
          let conns = put s.conns c conn in
          let s' : Holdings = record s {
            map = map;
            sendq = sendq;
            conns = put conns c (record (disarm (conns c)) { errmsg = none });
            streams = λ d. if d == c then Streammap.destroy (s.streams c) else s.streams d;
            queue = queue;
          } in
          let dropped' : Resolveq.del (s.keys c) s.queue ≡ some queue =
            ap (λ key. Resolveq.del key s.queue) h.key ∙ dropped in
          (
            s',
            ground (arith, dropped', e, removed),
            record {
              map = w;
              ids = others;
              unflagged = unflagged;
              unqueued = off;
              untimed = ground (arith, disarm-statetimer (conns c));
              left = left;
              late =
                  popped ∙ ap (λ w. some (elim w as (λ _. ℕ) [ none ↦ 0 | some d ↦ d ], left)) here;
              keys = λ j. ground (arith, lefts j, views j);
            },
          )
    ]
