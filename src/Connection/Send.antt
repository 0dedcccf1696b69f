-- ===== src/Connection/Send.antt =====
-- src/conn.c: `_tripc_send` and the packets that it writes into the caller's buffer.
pub mod Laws
pub mod Defined
use libtrp.Base.{
  ℕ, ◌+◌, ◌-◌, ◌^◌, Bool, false, ◌&&◌, Option, none, some, List, [], ◌∷◌, ◌++◌, if◌then◌else◌,
}
use mathlib.Core.Option
use libtrp.Pack.Format.{
  Spec, seal_open, seal_close, box_open, box_close, sign_open, sign_close, nonce, key, binary,
  uint8, uint16, uint32, uint64, var64, Sodium, Arg, word, block,
}
use libtrp.Pack.Encode.{Outcome, next, npos, fault, trip_pack}
use libtrp.Connection.State.{
  start, resolve, open_sent, chal, pinging, ready, ready_ping, closing, ended, failed, Conn, Env,
  Self, control_open, control_chal, control_ping, prefix_emask, einval,
}
use libtrp.Connection.Timing.{next_seq}
use libtrp.Connection.Change.{set_error}
use libtrp.Connection.Parse.{prep_nonce}

-- "sCQWHboQnkIIIIOS"
abbrev pub open_sent_format : List Spec
open_sent_format =
    sign_open ∷ uint8 ∷ uint64 ∷ var64 ∷ uint16 ∷ binary ∷ seal_open ∷ uint64 ∷ nonce ∷ key ∷ uint32
    ∷ uint32 ∷ uint32 ∷ uint32 ∷ seal_close ∷ sign_close ∷ []

-- "sCQWoQnkIIIIOS"
abbrev pub chal_sent_format : List Spec
chal_sent_format =
    sign_open ∷ uint8 ∷ uint64 ∷ var64 ∷ seal_open ∷ uint64 ∷ nonce ∷ key ∷ uint32 ∷ uint32 ∷ uint32
    ∷ uint32 ∷ seal_close ∷ sign_close ∷ []

-- "CQWenQIIIE"
abbrev pub ping_sent_format : List Spec
ping_sent_format =
    uint8 ∷ uint64 ∷ var64 ∷ box_open ∷ nonce ∷ uint64 ∷ uint32 ∷ uint32 ∷ uint32 ∷ box_close ∷ []

-- "Should not be sending in START."
abbrev pub sending_in_start : List ℕ
sending_in_start =
    83 ∷ 104 ∷ 111 ∷ 117 ∷ 108 ∷ 100 ∷ 32 ∷ 110 ∷ 111 ∷ 116 ∷ 32 ∷ 98 ∷ 101 ∷ 32 ∷ 115 ∷ 101 ∷ 110
    ∷ 100 ∷ 105 ∷ 110 ∷ 103 ∷ 32 ∷ 105 ∷ 110 ∷ 32 ∷ 83 ∷ 84 ∷ 65 ∷ 82 ∷ 84 ∷ 46 ∷ []

-- "Unknown state in send."
abbrev pub unknown_state : List ℕ
unknown_state =
    85 ∷ 110 ∷ 107 ∷ 110 ∷ 111 ∷ 119 ∷ 110 ∷ 32 ∷ 115 ∷ 116 ∷ 97 ∷ 116 ∷ 101 ∷ 32 ∷ 105 ∷ 110 ∷ 32
    ∷ 115 ∷ 101 ∷ 110 ∷ 100 ∷ 46 ∷ []

-- What the caller sees: the length returned and the buffer.
unfoldable pub returned : Outcome → Option (ℕ × List ℕ)
returned (next p) = some (p.size, p.out ++ p.rest)
returned (npos p) = some (2 ^ 64 - 1, p.out ++ p.rest)
returned fault = none

-- `eflag`, for a key that may be NULL, with the control code.
abbrev pub flagged : ℕ → Option (List ℕ) → ℕ
flagged control none = control
flagged control (some _) = control + prefix_emask

-- The arguments that `_tripc_send_open` and `_tripc_send_chal` share, from the key of the seal on.
abbrev pub greeting : Conn → List Arg
greeting c =
    block c.peer.openpk
    ∷ word c.self.id
    ∷ block c.self.nonce
    ∷ block c.self.pk
    ∷ word 128000
    ∷ word 8
    ∷ word 65536
    ∷ word 128
    ∷ block c.self.signsk
    ∷ []

abbrev pub open_args : ℕ → Conn → List Arg
open_args seq c =
    word (flagged control_open c.peer.openpk)
    ∷ word c.self.id
    ∷ word seq
    ∷ word 0
    ∷ word 0
    ∷ block none
    ∷ greeting c

abbrev pub chal_args : ℕ → Conn → List Arg
chal_args seq c = word (flagged control_chal c.peer.pk) ∷ word c.peer.id ∷ word seq ∷ greeting c

abbrev pub ping_args : ℕ → Conn → List Arg
ping_args seq c =
    word (flagged control_ping c.peer.pk)
    ∷ word c.peer.id
    ∷ word seq
    ∷ block none
    ∷ block c.peer.pk
    ∷ block (some c.ping.nonce)
    ∷ word c.ping.timestamp
    ∷ word c.self.rtt
    ∷ word c.self.sent
    ∷ word c.self.recv
    ∷ block c.peer.pk
    ∷ []

module _ (sod : Sodium) (len : ℕ) (buf : List ℕ) where
  -- `_tripc_send_open`
  unfoldable pub send_open : Conn → Outcome × Conn
  unfolding next_seq
  send_open c =
      let (seq, c) = next_seq c in (trip_pack sod len buf open_sent_format (open_args seq c), c)

  -- `_tripc_send_chal`
  unfoldable pub send_chal : Conn → Outcome × Conn
  unfolding next_seq
  send_chal c =
      let (seq, c) = next_seq c in (trip_pack sod len buf chal_sent_format (chal_args seq c), c)

  -- `_tripc_send_ping`. The nonce that `_tripc_prep_nonce` writes over is the connection's own, and its
  -- result is NULL.
  unfoldable pub send_ping : Env → Conn → Outcome × Conn
  unfolding next_seq prep_nonce
  send_ping env c =
      let (seq, c) = next_seq c in
      elim c.self.nonce [
        | none ↦ (fault, c)
        | some _ ↦
            let me = record (c.self) { nonce = some (prep_nonce env.garbage seq control_ping) } in
            let c = record c { self = me; hassend = false } in
            (trip_pack sod len buf ping_sent_format (ping_args seq c), c)
      ]

  -- A packet that is sent once, where one is due.
  unfoldable pub when_due : Bool → Outcome × Conn → Conn → Option (ℕ × List ℕ × Conn)
  unfolding returned
  when_due due (m, sent) c =
      if due
      then Option.map (λ (n, out). (n, out, record sent { hassend = false })) (returned m)
      else some (0, buf, c)

  -- `_tripc_send`: the length, the buffer and the connection. `CLOSE` has no case.
  unfoldable pub send : Env → Conn → Option (ℕ × List ℕ × Conn)
  unfolding send_open send_chal send_ping when_due set_error
  send env c = elim c.state [
    | start ↦ some (2 ^ 64 - 1, buf, set_error env c einval sending_in_start)
    | resolve ↦ some (0, buf, c)
    | open_sent ↦ when_due c.hassend (send_open c) c
    | chal ↦ when_due c.hassend (send_chal c) c
    | pinging ↦ when_due (c.hassend && c.ping.isactive) (send_ping env c) c
    | ready ↦ some (2 ^ 64 - 1, buf, c)
    | ready_ping ↦ when_due (c.hassend && c.ping.isactive) (send_ping env c) c
    | closing ↦ some (2 ^ 64 - 1, buf, set_error env c einval unknown_state)
    | ended ↦ some (2 ^ 64 - 1, buf, c)
    | failed ↦ some (2 ^ 64 - 1, buf, c)
  ]
