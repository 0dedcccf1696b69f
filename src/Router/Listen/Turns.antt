-- ===== src/Router/Listen/Turns.antt =====
-- The turn of one connection of the send queue.
use native.Mathlib.Nat.{mod-eq_of_lt}
use native.Mathlib.Decide.{ℕ_discrete}
use mathlib.Core.Path.{subst}
use libtrp.Base.{
  ℕ, zero, suc, ◌+◌, ◌^◌, ◌≤◌, ◌<◌, ◌≡◌, ◌≢◌, ◌==◌, refl, sym, ◌∙◌, arith, true, inl, inr,
  Bool-cases, List, length, u32, npos, if◌then◌else◌,
}
use libtrp.Pack.Format.{Sodium, IsSodium}
use libtrp.Connection.Send.Defined.{IsSendable, send-Defined}
use libtrp.Connection.State
use libtrp.Connection.State.{Conn}
use libtrp.Linked.Laws.{occurs}
use libtrp.Router.Hub.{put}
use libtrp.Router.Listen.{
  Line, Limits, Turn, more, rest, blocked, failed, crash, ecomm, is_block, write_out, turn,
}

-- The buffer has its length, and the connections of the queue are sendable.
abbrev pub IsReady : {W : Type 0} → Sodium → Limits W → List ℕ → Line W → Type 0
IsReady sod lim l d =
    (lim.buflen ≤ length d.buf) × ((c : ℕ) → occurs c l ≡ true → IsSendable sod (d.conns c))

module _ {W : Type 0} (sod : Sodium) (env : State.Env) (lim : Limits W) (laws : IsSodium sod)
    (small : lim.buflen < 2 ^ 63) where
  -- No connection stops to be sendable.
  abbrev pub Stays : Line W → Line W → Type 0
  Stays d d' =
      (lim.buflen ≤ length d'.buf)
      × ((c : ℕ) → IsSendable sod (d.conns c) → IsSendable sod (d'.conns c))

  -- A turn leaves the queue to the caller. It is over after `k` packets, or earlier; where the interface
  -- blocks, the packet of the connection waits.
  abbrev pub Kept : ℕ → ℕ → ℕ → Line W → Turn W → Type 0
  Kept k c sent d (more s l) = (l.sendq ≡ d.sendq) × (s ≡ sent + k) × Stays d l
  Kept k c sent d (rest s l) = (l.sendq ≡ d.sendq) × (sent ≤ s) × (s ≤ sent + k) × Stays d l
  Kept k c sent d (blocked l) =
      (l.sendq ≡ d.sendq) × (0 < l.sendlen) × (l.sendsrc ≡ (l.conns c).src)
  Kept k c sent d (failed code l) = l.sendq ≡ d.sendq
  Kept k c sent d crash = ⊥

  widen :
      (k c sent : ℕ) (d d' : Line W) (t : Turn W)
      → d'.sendq ≡ d.sendq
      → Stays d d'
      → Kept k c (sent + 1) d' t
      → Kept (suc k) c sent d t
  widen k c sent d d' (more s l) e g (q, n, (room, h)) =
      (q ∙ e, omega (arith, n), (room, λ x s. h x (g.1 x s)))
  widen k c sent d d' (rest s l) e g (q, low, high, (room, h)) =
      (q ∙ e, omega (arith, low), omega (arith, high), (room, λ x s. h x (g.1 x s)))
  widen k c sent d d' (blocked l) e g (q, pos, src) = (q ∙ e, pos, src)
  widen k c sent d d' (failed code l) e g q = q ∙ e
  widen k c sent d d' crash e g h = h

  put-IsSendable :
      (conns : ℕ → Conn) (c : ℕ) (c' : Conn) (x : ℕ)
      → IsSendable sod c'
      → (x ≢ c → IsSendable sod (conns x))
      → IsSendable sod (put conns c c' x)
  put-IsSendable conns c c' x s h = elim (Bool-cases (x == c)) [
    | inl y ↦ subst (λ b. IsSendable sod (if b then c' else conns x)) (sym y) s
    | inr n ↦
        subst (λ b. IsSendable sod (if b then c' else conns x)) (sym n)
          (h (λ e. ground (arith, n, e)))
  ]

  put-Stays :
      (c : ℕ) (c' : Conn) (l : Line W) (out : List ℕ) (n src : ℕ) (w : W)
      → lim.buflen ≤ length out
      → IsSendable sod c'
      → Stays l
          (record l { conns = put l.conns c c'; buf = out; sendlen = n; sendsrc = src; world = w })
  put-Stays c c' l out n src w room s = (room, λ x h. put-IsSendable l.conns c c' x s (λ e. h))

  pub turn-Kept :
      (k c sent : ℕ) (l : Line W)
      → sent + k < 2 ^ 32
      → lim.buflen ≤ length l.buf
      → IsSendable sod (l.conns c)
      → Kept k c sent l (turn sod env lim k c sent l)
  unfolding turn write_out
  turn-Kept zero c sent l h room able = (refl, omega arith, (room, λ x s. s))
  turn-Kept (suc k) c sent l h room able =
      let (n, out, c', e, room', able') =
        send-Defined sod env lim.buflen l.buf laws room small (l.conns c) able in
      let l1 = record l { conns = put l.conns c c'; buf = out; sendlen = 0 } in
      let (code, l2) = write_out sod env lim c'.src n l1 in
      elim (ℕ_discrete n npos) [
        | yes bad ↦ is (failed ecomm l1) (ground (arith, e, bad)) refl
        | no good ↦ elim (ℕ_discrete n 0) [
          | yes none_left ↦
              is (rest sent l1) (ground (arith, e, good, none_left)) (
                refl,
                omega arith,
                omega arith,
                put-Stays c c' l out 0 l.sendsrc l.world room' able',
              )
          | no some_left ↦ elim (ℕ_discrete code 0) [
            | yes written ↦
                let same : u32 (sent + 1) ≡ sent + 1 = mod-eq_of_lt (omega (arith, h)) in
                let t = turn sod env lim k c (sent + 1) l2 in
                let next : turn sod env lim (suc k) c sent l ≡ t =
                  subst (λ x. turn sod env lim (suc k) c sent l ≡ turn sod env lim k c x l2) same
                    (ground (arith, e, good, some_left, written)) in
                let stays =
                  put-Stays c c' l out (if code == 0 then 0 else n) l.sendsrc l2.world room'
                    able' in
                is t next (
                  widen k c sent l l2 t refl stays (
                    turn-Kept k c (sent + 1) l2 (omega (arith, h)) room'
                      (put-IsSendable l.conns c c' c able' (λ e. absurd (e refl)))))
            | no unwritten ↦ elim (Bool-cases (is_block code)) [
              | inl y ↦
                  is (blocked (record l2 { sendsrc = c'.src }))
                    (ground (arith, e, good, some_left, unwritten, y))
                    (refl, ground (arith, some_left, unwritten), ground arith)
              | inr y ↦ is (failed code l2) (ground (arith, e, good, some_left, unwritten, y)) refl
            ]
          ]
        ]
      ]
    where
      is :
          (t : Turn W)
          → turn sod env lim (suc k) c sent l ≡ t
          → Kept (suc k) c sent l t
          → Kept (suc k) c sent l (turn sod env lim (suc k) c sent l)
      is t e kept = subst (Kept (suc k) c sent l) (sym e) kept
