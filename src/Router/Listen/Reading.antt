-- ===== src/Router/Listen/Reading.antt =====
-- src/trip.c: the whole of `_trip_listen`, which first lets the packet interface read.
use native.Mathlib.Decide.{ℕ_discrete}
use libtrp.Base.{
  ℕ, zero, suc, ◌+◌, ◌^◌, ◌<◌, ◌≡◌, ◌≢◌, refl, arith, Bool, true, false, not, inl, inr, Bool-cases,
  Option, none, some, List, length, bit_and, ◌==◌, if◌then◌else◌,
}
use libtrp.Pack.Format.{Sodium, IsSodium}
use libtrp.Connection.State
use libtrp.Sendq.Laws.{IsQueue}
use libtrp.Router.Listen.{Line, Limits, End, idle, failed, is_block, send_all}
use libtrp.Router.Listen.Laws.{Left, send_all-Left}
use libtrp.Router.Listen.Turns.{IsReady}

-- `TRIP_IN & events`
abbrev has_in : ℕ → Bool
has_in events = not (bit_and 1 events == 0)

-- `TRIP_OUT & events`
abbrev has_out : ℕ → Bool
has_out events = not (bit_and 2 events == 0)

-- `read` of the packet interface is a function of the descriptor and a count of packets; what it does to the
-- line comes of the segments that it hands to the router.
module _ {W : Type 0} (read : ℕ → ℕ → Line W → ℕ × Line W) (max_packet_read_count fd : ℕ) where
  -- The loop on `rcode`, which is in the result.
  unfoldable read_loop : ℕ → Line W → Option (ℕ × Line W)
  read_loop zero l = none
  read_loop (suc fuel) l =
      let (rcode, l') = read fd max_packet_read_count l in
      let again = read_loop fuel l' in if rcode == 0 then again else some (rcode, l')

  -- `_trip_listen`, on fuel for reading and for sending.
  unfoldable listen : Sodium → State.Env → Limits W → ℕ → ℕ → ℕ → Line W → Option (End W)
  unfolding read_loop send_all
  listen sod env lim reads sends events l =
      let send : Line W → Option (End W) =
        λ l. if has_out events then send_all sod env lim sends l else some (idle l) in
      if has_in events
      then elim (read_loop reads l) [
        | none ↦ none
        | some (rcode, l') ↦ if is_block rcode then send l' else some (failed rcode l')
      ]
      else send l

  -- An interface that reads at once what waits, or part of it, and at last answers with a code that is not 0,
  -- where the segments that it hands over leave a valid send queue of connections that can send.
  record Reads (sod : Sodium) (lim : Limits W) (waiting : Line W → ℕ) : Type 0 where
    pub progress :
        (l : Line W)
        → (read fd max_packet_read_count l).0 ≡ 0
        → waiting (read fd max_packet_read_count l).1 < waiting l
    pub valid :
        (l : Line W) (q : List ℕ)
        → IsQueue l.sendq q
        → IsReady sod lim q l
        → let l' = (read fd max_packet_read_count l).1 in
          (q' : List ℕ) × IsQueue l'.sendq q' × IsReady sod lim q' l'

  -- What reading comes to: a code, and a line with its valid queue.
  abbrev Done : Sodium → Limits W → ℕ → Line W → Type 0
  Done sod lim fuel l =
      (code : ℕ) × (l' : Line W) × (q : List ℕ) × (read_loop fuel l ≡ some (code, l'))
      × (code ≢ 0)
      × IsQueue l'.sendq q
      × IsReady sod lim q l'

  read_loop-Done :
      (sod : Sodium) (lim : Limits W) (waiting : Line W → ℕ) (fuel : ℕ) (l : Line W) (q : List ℕ)
      → Reads sod lim waiting
      → IsQueue l.sendq q
      → IsReady sod lim q l
      → waiting l < fuel
      → Done sod lim fuel l
  unfolding read_loop
  read_loop-Done sod lim waiting zero l q h v y le = absurd (omega (arith, le))
  read_loop-Done sod lim waiting (suc fuel) l q h v y le =
      let (rcode, l') = read fd max_packet_read_count l in
      let (q', v', y') = h.valid l q v y in
      elim (ℕ_discrete rcode 0) [
        | yes zero_code ↦
            let (code, l2, q2, e, bad, v2, y2) =
              read_loop-Done sod lim waiting fuel l' q' h v' y'
                (omega (arith, le, h.progress l zero_code)) in
            (code, l2, q2, ground (arith, zero_code, e), bad, v2, y2)
        | no bad ↦ (rcode, l', q', ground (arith, bad), bad, v', y')
      ]

  -- What sending starts with: after no reading, or after reading until the interface blocked.
  data Begun (reads events : ℕ) (l : Line W) : Line W → Type 0 where
    unread : has_in events ≡ false → Begun reads events l l
    blocked :
        (code : ℕ) (l' : Line W)
        → has_in events ≡ true
        → read_loop reads l ≡ some (code, l')
        → is_block code ≡ true
        → Begun reads events l l'

  module _ (sod : Sodium) (env : State.Env) (lim : Limits W) (events : ℕ) (l : Line W) where
    -- How it ends: with the error of a read; or idle, or with what sending ends in.
    data Ended (reads sends : ℕ) : End W → Type 0 where
      unreadable :
          (code : ℕ) (l' : Line W)
          → has_in events ≡ true
          → read_loop reads l ≡ some (code, l')
          → code ≢ 0
          → is_block code ≡ false
          → Ended reads sends (failed code l')
      quiet :
          (l' : Line W)
          → Begun reads events l l'
          → has_out events ≡ false
          → Ended reads sends (idle l')
      sent :
          (l' : Line W) (q : List ℕ) (r : End W)
          → Begun reads events l l'
          → has_out events ≡ true
          → IsQueue l'.sendq q
          → sends ≡ suc (length q + lim.packet_send_count)
          → send_all sod env lim sends l' ≡ some r
          → Left q r
          → Ended reads sends r

    -- After reading, or none.
    after_reading :
        0 < lim.connection_send_count
        → lim.packet_send_count + lim.connection_send_count < 2 ^ 32
        → IsSodium sod
        → lim.buflen < 2 ^ 63
        → 0 < lim.packet_send_count
        → (reads : ℕ) (l' : Line W) (q : List ℕ) → Begun reads events l l'
        → IsQueue l'.sendq q
        → IsReady sod lim q l'
        → let sends = suc (length q + lim.packet_send_count) in
          (r : End W) × ((if has_out events then send_all sod env lim sends l' else some (idle l'))
            ≡ some r)
          × Ended reads sends r
    after_reading turns counts laws small packets reads l' q b v ready =
        elim (Bool-cases (has_out events)) [
          | inl y ↦
              let (r, e, left) =
                send_all-Left sod env lim turns counts laws small l' q v ready packets in
              (r, ground (arith, y, e), sent l' q r b y v refl e left)
          | inr n ↦ (idle l', ground (arith, n), quiet l' b n)
        ]

    -- With limits of at least one packet that do not overflow, a packet interface that reads at once what
    -- waits and then answers with a code, and a valid send queue of connections that can send, which the
    -- segments that are read are taken to leave so, `_trip_listen` ends, after at most one read
    -- for each packet that waits and one more. An error of a read other than that it blocks ends it, and
    -- nothing is sent; else it sends only where `TRIP_OUT` is asked for, and what it leaves of the queue is
    -- valid, as it is after `send_all`.
    listen-Ended :
        0 < lim.connection_send_count
        → lim.packet_send_count + lim.connection_send_count < 2 ^ 32
        → IsSodium sod
        → lim.buflen < 2 ^ 63
        → 0 < lim.packet_send_count
        → (waiting : Line W → ℕ) (q : List ℕ) → Reads sod lim waiting
        → IsQueue l.sendq q
        → IsReady sod lim q l
        → (sends : ℕ) × (r : End W) × (listen sod env lim (suc (waiting l)) sends events l ≡ some r)
          × Ended (suc (waiting l)) sends r
    unfolding listen
    listen-Ended turns counts laws small packets waiting q h v ready =
        elim (Bool-cases (has_in events)) [
          | inr n ↦
              let (r, e, ended) =
                after_reading turns counts laws small packets (suc (waiting l)) l q (unread n) v
                  ready in
              (suc (length q + lim.packet_send_count), r, ground (arith, n, e), ended)
          | inl y ↦
              let (code, l', q', e, bad, v', ready') =
                read_loop-Done sod lim waiting (suc (waiting l)) l q h v ready (omega arith) in
              elim (Bool-cases (is_block code)) [
                | inl b ↦
                    let (r, s, ended) =
                      after_reading turns counts laws small packets (suc (waiting l)) l' q'
                        (blocked code l' y e b) v' ready' in
                    (suc (length q' + lim.packet_send_count), r, ground (arith, y, e, b, s), ended)
                | inr b ↦ (0, failed code l', ground (arith, y, e, b), unreadable code l' y e bad b)
              ]
        ]
