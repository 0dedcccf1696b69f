-- ===== src/Messages/Streams.antt =====
-- The messages of a stream, and how sending puts one `next` field into two lists.
use mathlib.Core.Path.{subst}
use libtrp.Base.{
  ℕ, ◌≤◌, ◌≡◌, ◌∙◌, sym, ap, arith, false, ◌⊎◌, inl, inr, Option, none, some, List, [], ◌∷◌, ◌++◌,
  append-nil, length, if◌then◌else◌,
}
use libtrp.Linked.{Next, Ends, empty, update}
use libtrp.Linked.Laws.{
  occurs, Links, last_or, last_or-occurs, last_or-some, last_or-append, Links-cons, IsList,
  occurs_ne, update-Links,
}
use libtrp.Linked.Removal.{seek_lem, unlink-Links, Links-apart, last_or-without}
use libtrp.Messages.{same, Stream, take_out, msg_remove}
use libtrp.Messages.Queues.{cleared-IsList}

module _ (m x : ℕ) (e : Ends) (nx : Next) (before : List ℕ) (p : ℕ)
    (found : last_or (some x) before ≡ some p) where
  cut :
      (after : List ℕ)
      → Links nx e.head (x ∷ (before ++ m ∷ after))
      → Links (update (update nx p (nx m)) m none) e.head (x ∷ (before ++ after))
  cut after s =
      update-Links (update nx p (nx m)) m none e.head (x ∷ (before ++ after))
        (Links-apart nx e.head m (x ∷ before) after s)
        (unlink-Links nx m p none e.head x before after found s)

  by_tail :
      (after : List ℕ)
      → IsList e nx (x ∷ (before ++ m ∷ after))
      → let (e', nx') = take_out (last_or (some x) before) m e nx in
        IsList e' nx' (x ∷ (before ++ after))
  unfolding take_out
  by_tail [] v =
      let t : e.tail ≡ some m = v.tail ∙ last_or-append (some x) before m in
      let q : take_out (last_or (some x) before) m e nx
          ≡ (record e { tail = some p }, update (update nx p (nx m)) m none) =
        ground (arith, found, t) in
      rw q (record {
        links = cut [] v.links;
        tail = sym (ap (last_or (some x)) (append-nil before) ∙ found);
      })
  by_tail (y ∷ r) v =
      let (t, last) = last_or-some x (before ++ y ∷ r) in
      let end = v.tail ∙ last_or-without (some x) before m y r in
      let out = Links-apart nx e.head m (x ∷ before) (y ∷ r) v.links in
      let far =
        occurs_ne m t (x ∷ (before ++ y ∷ r)) out (last_or-occurs t x (before ++ y ∷ r) last) in
      let q : take_out (last_or (some x) before) m e nx ≡ (e, update (update nx p (nx m)) m none) =
        ground (arith, found, end, last, far) in
      rw q (record { links = cut (y ∷ r) v.links; tail = end })

-- `take_out` is `unlink` that also moves the tail, and clears the link of the message.
take_out-IsList :
    (m : ℕ) (e : Ends) (nx : Next) (before after : List ℕ)
    → IsList e nx (before ++ m ∷ after)
    → let (e', nx') = take_out (last_or none before) m e nx in IsList e' nx' (before ++ after)
unfolding take_out
take_out-IsList m e nx [] after v =
    let (h, _, _) = Links-cons nx e.head m after v.links in
    subst
      (λ o.
        IsList (if same o e.tail then empty else record { head = nx m; tail = e.tail })
          (update nx m none) after)
      h (cleared-IsList m e nx after v)
take_out-IsList m e nx (x ∷ before) after v =
    let (p, found) = last_or-some x before in by_tail m x e nx before p found after v

take_out-clears :
    (prev : Option ℕ) (m : ℕ) (e : Ends) (nx : Next) → (take_out prev m e nx).1 m ≡ none
unfolding take_out update
take_out-clears none m e nx = ground arith
take_out-clears (some p) m e nx = ground arith

-- On a valid list, with fuel for each message of the stream, `_trips_msg_remove` ends. It changes nothing
-- if the message is not there; else it takes exactly the message out, and clears its link.
pub msg_remove_lem :
    (fuel m : ℕ) (s : Stream) (nx : Next) (l : List ℕ)
    → IsList s.list nx l
    → length l ≤ fuel
    → ((occurs m l ≡ false) × (msg_remove fuel m s nx ≡ some (s, nx)))
      ⊎ ((before : List ℕ) × (after : List ℕ) × (s' : Stream) × (nx' : Next) × (l
            ≡ before ++ m ∷ after)
          × (msg_remove fuel m s nx ≡ some (s', nx'))
          × IsList s'.list nx' (before ++ after)
          × (nx' m ≡ none))
unfolding msg_remove
msg_remove_lem fuel m s nx l v le = elim (seek_lem nx m fuel none s.list.head l v.links le) [
  | inl (miss, e) ↦ inl (miss, ground (arith, e))
  | inr (p, e) ↦
      let w : IsList s.list nx (p.before ++ m ∷ p.after) = rw (← p.whole) v in
      let (e', nx') = take_out (last_or none p.before) m s.list nx in
      inr (
        p.before,
        p.after,
        record s { list = e' },
        nx',
        p.whole,
        ground (arith, e),
        take_out-IsList m s.list nx p.before p.after w,
        take_out-clears (last_or none p.before) m s.list nx,
      )
]
