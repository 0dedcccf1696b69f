-- ===== src/Messages/Queues.antt =====
-- The two send queues of a connection as lists of messages.
use libtrp.Base.{
  ℕ, ◌≡◌, refl, ap, arith, true, false, Option, none, some, List, [], ◌∷◌, ◌++◌, if◌then◌else◌,
}
use libtrp.Linked.{Next, Ends, empty, update, enqueue}
use libtrp.Linked.Laws.{
  occurs, Links, done, last_or-occurs, last_or-some, Links-cons, IsList, occurs-append, occurs_ne,
  update-Links, enqueue-IsList,
}
use libtrp.Messages.{
  Messageq, Which, priority, whenever, queue, other, set_queue, send_add, send_clear, same,
}

-- A write at an element that no list shares.
abbrev pub Apart : List ℕ → List ℕ → Type 0
Apart xs ys = (p : ℕ) → occurs p xs ≡ true → occurs p ys ≡ false

-- The queue of one index goes through `l`, that of the other through `r`, and no message is in both.
pub record AreQueues (w : Which) (q : Messageq) (nx : Next) (l r : List ℕ) : Type 0 where
  pub own : IsList (queue w q) nx l
  pub rest : IsList (queue (other w) q) nx r
  pub apart : Apart l r

-- `enqueue` writes at its message and at the tail.
enqueue-other :
    (m : ℕ) (e : Ends) (nx : Next) (l r : List ℕ) (h : Option ℕ)
    → IsList e nx l
    → Apart l r
    → occurs m r ≡ false
    → Links nx h r
    → Links (enqueue m e nx).1 h r
unfolding enqueue
enqueue-other m e nx [] r h v far miss s =
    let same : (enqueue m e nx).1 ≡ update nx m none = ground (arith, v.tail) in
    rw same (update-Links nx m none h r miss s)
enqueue-other m e nx (x ∷ l) r h v far miss s =
    let (t, last) = last_or-some x l in
    let same : (enqueue m e nx).1 ≡ update (update nx t (some m)) m none =
      ground (arith, v.tail, last) in
    let outside = far t (last_or-occurs t x l last) in
    rw same (
      update-Links (update nx t (some m)) m none h r miss
        (update-Links nx t (some m) h r outside s))

-- With two separate valid queues, a message in neither goes to the end of its queue, and the other stays.
pub send_add-AreQueues :
    (w : Which) (m : ℕ) (q : Messageq) (nx : Next) (l r : List ℕ)
    → AreQueues w q nx l r
    → occurs m l ≡ false
    → occurs m r ≡ false
    → let (q', nx') = send_add w m q nx in AreQueues w q' nx' (l ++ m ∷ []) r
unfolding send_add queue set_queue other
send_add-AreQueues priority m q nx l r v ml mr = record {
  own = enqueue-IsList q.first nx l m v.own ml;
  rest = record {
    links = enqueue-other m q.first nx l r q.second.head v.own v.apart mr v.rest.links;
    tail = v.rest.tail;
  };
  apart = λ p h.
      ground
        (arith, occurs-append p l (m ∷ []), v.apart p, mr, ap (λ x. occurs x r) {x = p} {y = m}, h);
}
send_add-AreQueues whenever m q nx l r v ml mr = record {
  own = enqueue-IsList q.second nx l m v.own ml;
  rest = record {
    links = enqueue-other m q.second nx l r q.first.head v.own v.apart mr v.rest.links;
    tail = v.rest.tail;
  };
  apart = λ p h.
      ground
        (arith, occurs-append p l (m ∷ []), v.apart p, mr, ap (λ x. occurs x r) {x = p} {y = m}, h);
}

-- The ends of a list without its first element.
pub cleared-IsList :
    (m : ℕ) (e : Ends) (nx : Next) (l : List ℕ)
    → IsList e nx (m ∷ l)
    → IsList (if same e.head e.tail then empty else record e { head = nx m }) (update nx m none) l
cleared-IsList m e nx [] v =
    let (h, _, _) = Links-cons nx e.head m [] v.links in
    let shut : same e.head e.tail ≡ true = ground (arith, h, v.tail) in
    rw shut (record { links = done; tail = refl })
cleared-IsList m e nx (x ∷ l) v =
    let (h, out, s) = Links-cons nx e.head m (x ∷ l) v.links in
    let (t, last) = last_or-some x l in
    let far = occurs_ne m t (x ∷ l) out (last_or-occurs t x l last) in
    let open_ : same e.head e.tail ≡ false = ground (arith, h, v.tail, last, far) in
    rw open_ (record { links = update-Links nx m none (nx m) (x ∷ l) out s; tail = v.tail })

-- With two separate valid queues, clearing the first message of one takes it out and clears its link, and
-- the other queue stays.
pub send_clear-AreQueues :
    (w : Which) (m : ℕ) (q : Messageq) (nx : Next) (l r : List ℕ)
    → AreQueues w q nx (m ∷ l) r
    → let (q', nx') = send_clear w m q nx in AreQueues w q' nx' l r × (nx' m ≡ none)
unfolding send_clear queue set_queue other update
send_clear-AreQueues priority m q nx l r v =
    let (h, out, _) = Links-cons nx q.first.head m l v.own.links in
    let e : Ends =
      if same q.first.head q.first.tail
      then empty
      else record { head = nx m; tail = q.first.tail } in
    let hit : send_clear priority m q nx ≡ (record q { first = e }, update nx m none) =
      ground (arith, h) in
    rw hit (
      record {
        own = cleared-IsList m q.first nx l v.own;
        rest = record {
          links = update-Links nx m none q.second.head r (v.apart m (ground arith)) v.rest.links;
          tail = v.rest.tail;
        };
        apart = λ p i. v.apart p (ground (arith, i));
      },
      ground arith,
    )
send_clear-AreQueues whenever m q nx l r v =
    let (h, out, _) = Links-cons nx q.second.head m l v.own.links in
    let e : Ends =
      if same q.second.head q.second.tail
      then empty
      else record { head = nx m; tail = q.second.tail } in
    let hit : send_clear whenever m q nx ≡ (record q { second = e }, update nx m none) =
      ground (arith, h) in
    rw hit (
      record {
        own = cleared-IsList m q.second nx l v.own;
        rest = record {
          links = update-Links nx m none q.first.head r (v.apart m (ground arith)) v.rest.links;
          tail = v.rest.tail;
        };
        apart = λ p i. v.apart p (ground (arith, i));
      },
      ground arith,
    )
