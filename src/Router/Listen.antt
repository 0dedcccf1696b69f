-- ===== src/Router/Listen.antt =====
-- src/trip.c: the half of `_trip_listen` that sends: the connections of the send queue take turns to write
-- packets, until the packet interface blocks, the queue is empty or enough is sent.
pub mod Turns
pub mod Laws
pub mod Reading
mod Tests
use mathlib.Core.Option
use libtrp.Base.{
  ℕ, zero, suc, ◌+◌, ◌-◌, ◌^◌, Bool, ◌||◌, Option, none, some, List, u32, npos, ltb, ◌==◌,
  if◌then◌else◌,
}
use libtrp.Pack.Format.{Sodium}
use libtrp.Connection.State
use libtrp.Connection.State.{Conn}
use libtrp.Connection.Send
use libtrp.Sendq.{Sendq, nq, dq}
use libtrp.Router.Hub.{put}

-- What sending works on: the queue, what its handles stand for, the router's buffer with the length and
-- the source of a packet that waits in it, and the packet interface.
pub record Line (W : Type 0) : Type 0 where
  pub sendq : Sendq
  pub conns : ℕ → Conn
  pub buf : List ℕ
  pub sendlen : ℕ
  pub sendsrc : ℕ
  pub world : W

-- The limits of the router, and the `send` of its packet interface: 0 or an error for a source, a length
-- and a buffer.
pub record Limits (W : Type 0) : Type 0 where
  pub buflen : ℕ
  pub connection_send_count : ℕ
  pub packet_send_count : ℕ
  pub write : ℕ → ℕ → List ℕ → W → ℕ × W

-- How the turn of a connection ends, with the count of packets sent: after as many packets as it may send,
-- with nothing to send, with an interface that blocks, with an error for `_trip_set_error`, or in undefined
-- behaviour.
pub data Turn (W : Type 0) : Type 0 where
  more rest : ℕ → Line W → Turn W
  blocked : Line W → Turn W
  failed : ℕ → Line W → Turn W
  crash : Turn W

-- How sending ends.
pub data End (W : Type 0) : Type 0 where
  idle : Line W → End W
  blocked : Line W → End W
  failed : ℕ → Line W → End W
  crash : End W

abbrev pub ecomm : ℕ
ecomm = 70

-- `EWOULDBLOCK == wcode || EAGAIN == wcode`
abbrev pub is_block : ℕ → Bool
is_block code = code == 11

module _ {W : Type 0} (sod : Sodium) (env : State.Env) (lim : Limits W) where
  -- The write of a packet of the connection `c`.
  unfoldable pub write_out : ℕ → ℕ → Line W → ℕ × Line W
  write_out src n l =
      let (code, w) = lim.write src n l.buf l.world in
      (code, record l { world = w; sendlen = if code == 0 then 0 else n })

  -- The loop on `connsent`, of which `k` rounds are left.
  unfoldable pub turn : ℕ → ℕ → ℕ → Line W → Turn W
  unfolding write_out
  turn zero c sent l = more sent l
  turn (suc k) c sent l = elim (Send.send sod lim.buflen l.buf env (l.conns c)) [
    | none ↦ crash
    | some (n, out, c') ↦
        let l = record l { conns = put l.conns c c'; buf = out; sendlen = 0 } in
        let (code, l') = write_out c'.src n l in
        let next = turn k c (u32 (sent + 1)) l' in
        if n == npos
        then failed ecomm l
        else if n == 0
        then rest sent l
        else if code == 0
        then next
        else if is_block code
        then blocked (record l' { sendsrc = c'.src })
        else failed code l'
  ]

  -- The loop on the queue.
  unfoldable pub send_loop : ℕ → ℕ → Line W → Option (End W)
  unfolding turn
  send_loop zero sent l = none
  send_loop (suc fuel) sent l =
      let (first, q) = dq l.sendq in
      elim first [
        | none ↦ some (idle l)
        | some c ↦ elim (turn lim.connection_send_count c sent (record l { sendq = q })) [
          | more sent l ↦
              let l = record l { sendq = nq c l.sendq } in
              let next = send_loop fuel sent l in
              if ltb lim.packet_send_count sent then some (idle l) else next
          | rest sent l ↦
              let next = send_loop fuel sent l in
              if ltb lim.packet_send_count sent then some (idle l) else next
          | blocked l ↦ some (blocked l)
          | failed code l ↦ some (failed code l)
          | crash ↦ some crash
        ]
      ]

  -- The branch on `TRIP_OUT`.
  unfoldable pub send_all : ℕ → Line W → Option (End W)
  unfolding write_out send_loop
  send_all fuel l =
      let (code, l') = write_out l.sendsrc l.sendlen l in
      let first = send_loop fuel 0 l in
      let sent = send_loop fuel 1 l' in
      let again = send_loop fuel 0 l' in
      if l.sendlen == 0
      then first
      else if code == 0
      then sent
      else if is_block code
      then again
      else some (failed code l')
