-- ===== src/Messages/Sending.antt =====
-- `trips_send`: its error codes, and what it does to the queue of the connection.
use mathlib.Core.Path.{subst}
use libtrp.Base.{
  ℕ, ◌≤◌, ◌<◌, ◌^◌, ◌≡◌, ◌≢◌, ◌↔◌, refl, arith, Bool, true, false, ◌⊎◌, Option, none, some, List,
  [], ◌∷◌, ◌++◌, append_assoc, bit_and,
}
use libtrp.Linked.{Next, update, enqueue}
use libtrp.Linked.Laws.{occurs, Links, done, link, occurs-append, update-Links}
use libtrp.Messages.{
  Messageq, Which, queue, other, send_add, Stream, msg_add, send, priority_of, is_bad,
}
use libtrp.Messages.Queues.{AreQueues, send_add-AreQueues}

-- Sending succeeds exactly for a stream that has a connection and is neither closed (32) nor held back (16,
-- 64), a buffer of a length from 1 up to what an `int` holds and to what the peer takes, and with memory
-- for the message; if it fails, nothing changes.
pub send_codes :
    (fresh : Option ℕ) (hasbuf : Bool) (message_size len : ℕ) (s : Stream) (q : Messageq)
    (nx : Next)
    → let r = send fresh hasbuf message_size len s q nx in
      ((r.0 ≡ 0) ⊎ (r ≡ (r.0, s, q, nx)))
      × ((r.0 ≡ 0) ↔ (
          (s.hasconn ≡ true)
          × (bit_and s.flags 32 ≡ 0)
          × (bit_and s.flags 80 ≡ 0)
          × (hasbuf ≡ true)
          × (0 < len)
          × (len < 2 ^ 31)
          × (len ≤ message_size)
          × (fresh ≢ none)))
unfolding send is_bad
send_codes fresh hasbuf message_size len s q nx = (ground arith, (ground arith, ground arith))

-- A list that ends behind `t` in a new message, whatever stood behind `t`.
cut-Links :
    (nx : Next) (m t : ℕ) (h : Option ℕ) (before rest : List ℕ)
    → Links nx h (before ++ t ∷ rest)
    → occurs m (before ++ t ∷ []) ≡ false
    → Links (update (update nx t (some m)) m none) h (before ++ t ∷ m ∷ [])
unfolding update
cut-Links nx m t h [] rest (link _ _ out s) miss =
    let nx' = update (update nx t (some m)) m none in
    let at_m : nx' m ≡ none = ground arith in
    let at_t : nx' t ≡ some m = ground (arith, miss) in
    let inner : Links nx' (some m) (m ∷ []) = link m [] refl (rw at_m done) in
    link t (m ∷ []) (ground (arith, miss)) (rw at_t inner)
cut-Links nx m t h (x ∷ before) rest (link _ _ out s) miss =
    let nx' = update (update nx t (some m)) m none in
    let split = occurs-append x before (t ∷ rest) in
    let same : nx' x ≡ nx x = ground (arith, miss, out, split) in
    let inner = cut-Links nx m t (nx x) before rest s (ground (arith, miss)) in
    link x (before ++ t ∷ m ∷ [])
      (ground (arith, out, split, miss, occurs-append x before (t ∷ m ∷ []))) (rw same inner)

cleared :
    (w : Which) (m : ℕ) (q : Messageq) (nx : Next) (l r : List ℕ)
    → AreQueues w q nx l r
    → occurs m l ≡ false
    → occurs m r ≡ false
    → AreQueues w q (update nx m none) l r
cleared w m q nx l r v ml mr = record {
  own = record {
    links = update-Links nx m none (queue w q).head l ml v.own.links;
    tail = v.own.tail;
  };
  rest = record {
    links = update-Links nx m none (queue (other w) q).head r mr v.rest.links;
    tail = v.rest.tail;
  };
  apart = v.apart;
}

msg_add_next :
    (m t : ℕ) (s : Stream) (nx : Next)
    → s.list.tail ≡ some t
    → (msg_add m s nx).1 ≡ update (update nx t (some m)) m none
unfolding msg_add enqueue
msg_add_next m t s nx e = ground (arith, e)

module _ (m message_size len : ℕ) (s : Stream) (q : Messageq) (nx : Next) (r : List ℕ) where
  abbrev sent : ℕ × Stream × Messageq × Next
  sent = send (some m) true message_size len s q nx

  abbrev added : Messageq × Next
  added = send_add (priority_of s) m q (update nx m none)

  sent-eq : sent.0 ≡ 0 → (sent.2 ≡ added.0) × (sent.3 ≡ (msg_add m s added.1).1)
  unfolding send
  sent-eq ok = ground (arith, ok)

  -- The `next` of a message serves the queue and the list of its stream. With two separate valid queues and
  -- a message in neither that is sent with success: if the last message of the stream stands in the queue
  -- before others, the new one is put behind it, and those others are no longer in the queue.
  pub send_cuts :
      (before after : List ℕ) (t : ℕ)
      → AreQueues (priority_of s) q nx (before ++ t ∷ after) r
      → occurs m (before ++ t ∷ after) ≡ false
      → occurs m r ≡ false
      → s.list.tail ≡ some t
      → sent.0 ≡ 0
      → Links sent.3 (queue (priority_of s) sent.2).head (before ++ t ∷ m ∷ [])
  send_cuts before after t v ml mr last ok =
      let w = priority_of s in
      let l = before ++ t ∷ after in
      let (same_queue, same_next) = sent-eq ok in
      let a =
        send_add-AreQueues w m q (update nx m none) l r (cleared w m q nx l r v ml mr) ml mr in
      let whole = append_assoc before (t ∷ after) (m ∷ []) in
      let links = subst (Links added.1 (queue w added.0).head) whole a.own.links in
      let miss : occurs m (before ++ t ∷ []) ≡ false =
        ground (arith, ml, occurs-append m before (t ∷ after), occurs-append m before (t ∷ [])) in
      rw (same_queue, same_next, msg_add_next m t s added.1 last)
        (cut-Links added.1 m t (queue w added.0).head before (after ++ m ∷ []) links miss)
