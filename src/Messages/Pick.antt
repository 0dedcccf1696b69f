-- ===== src/Messages/Pick.antt =====
-- How `_tripc_send_pick` takes turns.
use native.Mathlib.Nat.{pow-le-pow_right, mod-eq_of_lt, mod_self, zero-mod}
use native.Mathlib.Decide.{dec_lt}
use libtrp.Base.{
  ℕ, zero, suc, ◌+◌, ◌-◌, ◌%◌, ◌^◌, ◌≤◌, ◌<◌, ◌≡◌, ◌∙◌, sym, ap, arith, some, bit_and, mask_right,
  u32,
}
use libtrp.Messages.{Messageq, queue, other, send_pick}

-- The queue after `n` picks.
unfoldable pub picks : ℕ → Messageq → Messageq
unfolding send_pick
picks zero q = q
picks (suc n) q = picks n (send_pick q).1

-- The turn counts up, modulo a mask of `k` ones.
turn :
    (q : Messageq) (k : ℕ)
    → q.sendmask ≡ 2 ^ k - 1
    → k ≤ 32
    → q.sendwhich < 2 ^ k
    → (send_pick q).1.sendwhich ≡ (q.sendwhich + 1) % 2 ^ k
unfolding send_pick
turn q k mask le lt =
    let big : 2 ^ k ≤ 2 ^ 32 = pow-le-pow_right {n = 2} (omega arith) le in
    ap (bit_and (u32 (q.sendwhich + 1))) mask ∙ mask_right k (u32 (q.sendwhich + 1)) ∙ wrap big
  where
    wrap : 2 ^ k ≤ 2 ^ 32 → u32 (q.sendwhich + 1) % 2 ^ k ≡ (q.sendwhich + 1) % 2 ^ k
    wrap big = elim (dec_lt (q.sendwhich + 1) (2 ^ 32)) [
      | yes small ↦ ap (λ n. n % 2 ^ k) (mod-eq_of_lt small)
      | no large ↦
          let top : q.sendwhich + 1 ≡ 2 ^ k = omega (arith, lt, big) in
          let whole : 2 ^ k ≡ 2 ^ 32 = omega (arith, lt, big) in
          ap (λ n. n % 2 ^ k) (ap u32 (top ∙ whole))
          ∙ zero-mod (2 ^ k)
          ∙ sym (ap (λ n. n % 2 ^ k) top ∙ mod_self (2 ^ k))
    ]

-- A pick in its turn.
zero_turn :
    (q : Messageq) (m : ℕ)
    → q.second.head ≡ some m
    → (send_pick q).1.sendwhich ≡ 0
    → (send_pick q).0 ≡ some m
unfolding send_pick queue other
zero_turn q m e z = ground (arith, e, z)

wait_for :
    (n : ℕ) (q : Messageq) (k m : ℕ)
    → q.sendmask ≡ 2 ^ k - 1
    → k ≤ 32
    → q.sendwhich < 2 ^ k
    → q.second.head ≡ some m
    → q.sendwhich + suc n ≡ 2 ^ k
    → (send_pick (picks n q)).0 ≡ some m
unfolding picks
wait_for zero q k m mask le lt e last =
    let full : q.sendwhich + 1 ≡ 2 ^ k = omega (arith, last) in
    zero_turn q m e (turn q k mask le lt ∙ ap (λ n. n % 2 ^ k) full ∙ mod_self (2 ^ k))
wait_for (suc n) q k m mask le lt e last =
    let t : (send_pick q).1.sendwhich ≡ q.sendwhich + 1 =
      turn q k mask le lt ∙ mod-eq_of_lt (omega (arith, last)) in
    wait_for n (send_pick q).1 k m mask le (omega (arith, t, last)) e (omega (arith, t, last))

-- With a mask of `k` ones, `k` at most 32, and a turn within it, the first message of the second queue
-- is picked within 2^k picks, however full the first queue is.
pub send_pick-whenever :
    (q : Messageq) (k m : ℕ)
    → q.sendmask ≡ 2 ^ k - 1
    → k ≤ 32
    → q.sendwhich < 2 ^ k
    → q.second.head ≡ some m
    → (i : ℕ) × (i < 2 ^ k) × ((send_pick (picks i q)).0 ≡ some m)
send_pick-whenever q k m mask le lt e =
    let n = 2 ^ k - 1 - q.sendwhich in
    (n, omega (arith, lt), wait_for n q k m mask le lt e (omega (arith, lt)))
