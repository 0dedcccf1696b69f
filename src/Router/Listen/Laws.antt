-- ===== src/Router/Listen/Laws.antt =====
-- Sending ends, and what it leaves of the queue.
use native.Mathlib.Decide.{dec_lt, ℕ_discrete}
use mathlib.Core.Path.{subst}
use libtrp.Base.{
  ℕ, zero, suc, ◌+◌, ◌^◌, ◌≤◌, ◌<◌, ◌≡◌, refl, ap, ◌∙◌, arith, true, false, inl, inr, Bool-cases,
  some, List, [], ◌∷◌, ◌++◌, length, length-append, if◌then◌else◌,
}
use libtrp.Pack.Format.{Sodium, IsSodium}
use libtrp.Connection.State
use libtrp.Connection.State.{Conn}
use libtrp.Linked.Laws.{Links, Links-cons, occurs, occurs-append}
use libtrp.Sendq.{Sendq, nq, dq}
use libtrp.Sendq.Laws.{IsQueue, nq-IsQueue, dq-IsQueue}
use libtrp.Router.Listen.Turns.{IsReady, Kept, turn-Kept}
use libtrp.Router.Listen.{
  Line, Limits, Turn, more, rest, blocked, failed, crash, End, idle, is_block, write_out, turn,
  send_loop, send_all,
}

-- The queue that sending leaves: valid, of connections that were in it.
pub record IsLeft (l : List ℕ) (q : Sendq) : Type 0 where
  pub left : List ℕ
  pub queue : IsQueue q left
  pub fewer : (c : ℕ) → occurs c left ≡ true → occurs c l ≡ true

-- What sending ends in. Where the interface blocks, a packet waits in the buffer, and its connection is
-- no longer in the queue.
abbrev pub Left : {W : Type 0} → List ℕ → End W → Type 0
Left l (idle d) = IsLeft l d.sendq
Left l (blocked d) =
    IsLeft l d.sendq
    × (0 < d.sendlen)
    × (c : ℕ) × (occurs c l ≡ true)
    × (d.sendsrc ≡ (d.conns c).src)
    × (d.sendq.insend c ≡ false)
Left l (failed code d) = IsLeft l d.sendq
Left l crash = ⊥

module _ {W : Type 0} (sod : Sodium) (env : State.Env) (lim : Limits W)
    (some_turns : 0 < lim.connection_send_count)
    (counts : lim.packet_send_count + lim.connection_send_count < 2 ^ 32) (laws : IsSodium sod)
    (small : lim.buflen < 2 ^ 63) where
  lift-Left :
      (l l' : List ℕ)
      → ((c : ℕ) → occurs c l' ≡ true → occurs c l ≡ true)
      → (r : End W) → Left l' r
      → Left l r
  lift-Left l l' sub (idle d) h = record {
    left = h.left;
    queue = h.queue;
    fewer = λ c o. sub c (h.fewer c o);
  }
  lift-Left l l' sub (failed code d) h = record {
    left = h.left;
    queue = h.queue;
    fewer = λ c o. sub c (h.fewer c o);
  }
  lift-Left l l' sub (blocked d) (h, pos, c, o, src, out) = (
    record { left = h.left; queue = h.queue; fewer = λ c o. sub c (h.fewer c o) },
    pos,
    c,
    sub c o,
    src,
    out,
  )
  lift-Left l l' sub crash h = h

  -- A queue that loses nothing more.
  keep-IsLeft : (l : List ℕ) (q : Sendq) → IsQueue q l → IsLeft l q
  keep-IsLeft l q v = record { left = l; queue = v; fewer = λ c o. o }

  module _ {l : List ℕ} (c : ℕ) (tail : List ℕ) (q : Sendq) (whole : l ≡ c ∷ tail) where
    sub : (x : ℕ) → occurs x tail ≡ true → occurs x l ≡ true
    sub x o = ap (occurs x) whole ∙ ground (arith, o)

    tail-IsLeft : IsQueue q tail → IsLeft l q
    tail-IsLeft w = record { left = tail; queue = w; fewer = sub }

    apart : (d : Sendq) → IsQueue d l → occurs c tail ≡ false
    apart d v =
        let w : Links d.next d.ends.head (c ∷ tail) = rw (← whole) v.list.links in
        (Links-cons d.next d.ends.head c tail w).1

    requeued : occurs c tail ≡ false → IsQueue q tail → IsQueue (nq c q) (tail ++ c ∷ [])
    requeued out w =
        subst (λ b. IsQueue (nq c q) (if b then tail else tail ++ c ∷ [])) out
          (nq-IsQueue q tail c w)

  abbrev Ends : ℕ → ℕ → Line W → List ℕ → Type 0
  Ends fuel sent d l = (r : End W) × (send_loop sod env lim fuel sent d ≡ some r) × Left l r

  -- The rounds after the turn of the connection `c`.
  module _ (fuel sent : ℕ) (d : Line W) (l : List ℕ) (v : IsQueue d.sendq l)
      (h : length l + lim.packet_send_count < suc fuel + sent)
      (again : (s : ℕ) (d : Line W) (l : List ℕ)
        → IsQueue d.sendq l
        → s ≤ lim.packet_send_count
        → length l + lim.packet_send_count < fuel + s
        → IsReady sod lim l d
        → Ends fuel s d l)
      (ready : IsReady sod lim l d) where
    by_turn :
        (c : ℕ) (tail : List ℕ) (q : Sendq)
        → l ≡ c ∷ tail
        → dq d.sendq ≡ (some c, q)
        → IsQueue q tail
        → (t : Turn W)
        → turn sod env lim lim.connection_send_count c sent (record d { sendq = q }) ≡ t
        → Kept sod env lim laws small lim.connection_send_count c sent (record d { sendq = q }) t
        → Ends (suc fuel) sent d l
    unfolding send_loop
    by_turn c tail q whole e w crash te kept = absurd kept
    by_turn c tail q whole e w (failed code d1) te kept =
        (failed code d1, ground (arith, e, te), rw kept (tail-IsLeft c tail q whole w))
    by_turn c tail q whole e w (blocked d1) te (same, pos, src) = (
      blocked d1,
      ground (arith, e, te),
      (
        rw same (tail-IsLeft c tail q whole w),
        pos,
        c,
        rw whole (ground arith),
        src,
        ap (λ q. q.insend c) same ∙ (w.flags c ∙ apart c tail q whole d.sendq v),
      ),
    )
    by_turn c tail q whole e w (rest s d1) te (same, low, high, (room, able)) =
        elim (dec_lt lim.packet_send_count s) [
          | yes full ↦
              (idle d1, ground (arith, e, te, full), rw same (tail-IsLeft c tail q whole w))
          | no more_to_send ↦
              let len : length l ≡ suc (length tail) = ap length whole in
              let (r, g, left) =
                again s d1 tail (rw same w) (omega (arith, more_to_send))
                  (omega (arith, h, len, low))
                  (room, λ x o. able x (ready.1 x (sub c tail q whole x o))) in
              (
                r,
                ground (arith, e, te, more_to_send, g),
                lift-Left l tail (sub c tail q whole) r left,
              )
        ]
    by_turn c tail q whole e w (more s d1) te (same, n, (room, able)) =
        let d2 = record d1 { sendq = nq c d1.sendq } in
        let back : IsQueue d2.sendq (tail ++ c ∷ []) =
          rw same (requeued c tail q whole (apart c tail q whole d.sendq v) w) in
        let turned : (x : ℕ) → occurs x (tail ++ c ∷ []) ≡ true → occurs x l ≡ true = λ x o.
          ground
            (arith, o, sub c tail q whole x, occurs-append x tail (c ∷ []), ap (occurs x) whole) in
        elim (dec_lt lim.packet_send_count s) [
          | yes full ↦ (
            idle d2,
            ground (arith, e, te, full),
            record { left = tail ++ c ∷ []; queue = back; fewer = turned },
          )
          | no more_to_send ↦
              let len : length l ≡ suc (length tail) = ap length whole in
              let (r, g, left) =
                again s d2 (tail ++ c ∷ []) back (omega (arith, more_to_send))
                  (omega (arith, h, len, n, some_turns, length-append tail (c ∷ [])))
                  (room, λ x o. able x (ready.1 x (turned x o))) in
              (
                r,
                ground (arith, e, te, more_to_send, g),
                lift-Left l (tail ++ c ∷ []) turned r left,
              )
        ]

  send_loop-Left :
      (fuel sent : ℕ) (d : Line W) (l : List ℕ)
      → IsQueue d.sendq l
      → sent ≤ lim.packet_send_count
      → length l + lim.packet_send_count < fuel + sent
      → IsReady sod lim l d
      → Ends fuel sent d l
  unfolding send_loop
  send_loop-Left zero sent d l v le h ready = absurd (omega (arith, le, h))
  send_loop-Left (suc fuel) sent d l v le h ready = elim (dq-IsQueue d.sendq l v) [
    | inl (none_left, e) ↦ (idle d, ground (arith, e), keep-IsLeft l d.sendq v)
    | inr (c, tail, q, whole, e, w, out) ↦
        let k = lim.connection_send_count in
        let d' = record d { sendq = q } in
        by_turn fuel sent d l v h (λ s d l v le h r. send_loop-Left fuel s d l v le h r) ready c
          tail q whole e w (turn sod env lim k c sent d') refl
          (turn-Kept sod env lim laws small k c sent d' (omega (arith, le, counts)) ready.0
            (ready.1 c (ap (occurs c) whole ∙ ground arith)))
  ]

  -- With limits of at least one packet that do not overflow, a buffer of its length below 2^63, a valid queue,
  -- and connections in it that are sendable, sending ends, without undefined behaviour, after at most one turn
  -- for each connection of the queue and each packet of the limit. It leaves a valid queue, of connections that
  -- were in it. Where the interface blocks in the turn of a connection, its packet waits in the buffer, and the
  -- connection is no longer in the queue.
  pub send_all-Left :
      (d : Line W) (l : List ℕ)
      → IsQueue d.sendq l
      → IsReady sod lim l d
      → 0 < lim.packet_send_count
      → (r : End W) × (send_all sod env lim (suc (length l + lim.packet_send_count)) d ≡ some r)
        × Left l r
  unfolding send_all write_out
  send_all-Left d l v ready packets =
      let fuel = suc (length l + lim.packet_send_count) in
      let (code, d') = write_out sod env lim d.sendsrc d.sendlen d in
      elim (ℕ_discrete d.sendlen 0) [
        | yes none_left ↦
            let (r, g, left) = send_loop-Left fuel 0 d l v (omega arith) (omega arith) ready in
            (r, ground (arith, none_left, g), left)
        | no waits ↦ elim (ℕ_discrete code 0) [
          | yes written ↦
              let (r, g, left) =
                send_loop-Left fuel 1 d' l v (omega (arith, packets)) (omega arith) ready in
              (r, ground (arith, waits, written, g), left)
          | no unwritten ↦ elim (Bool-cases (is_block code)) [
            | inl y ↦
                let (r, g, left) = send_loop-Left fuel 0 d' l v (omega arith) (omega arith) ready in
                (r, ground (arith, waits, unwritten, y, g), left)
            | inr y ↦ (failed code d', ground (arith, waits, unwritten, y), keep-IsLeft l d.sendq v)
          ]
        ]
      ]
