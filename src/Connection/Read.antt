-- ===== src/Connection/Read.antt =====
-- src/conn.c: `_tripc_read`, which takes a packet's body in, and the sequence numbers.
pub mod Laws
use mathlib.Core.Option
use libtrp.Base.{
  ℕ, ◌+◌, ◌-◌, ◌%◌, ◌^◌, ◌*◌, Bool, Option, none, some, List, [], ◌∷◌, ◌==◌, ltb, u32, u64,
  if◌then◌else◌,
}
use libtrp.Pack.Format.{Sodium}
use libtrp.Connection.State.{
  State, start, resolve, open_sent, chal, pinging, ready, ready_ping, closing, ended, failed, Conn,
  Env, Peer, Prefix, control_data, control_open, control_ping, control_disc, einval,
}
use libtrp.Connection.Timing.{set_send}
use libtrp.Connection.Change.{set_state, set_error}
use libtrp.Connection.Parse.{parse_open, parse_chal, parse_data, parse_ping, parse_disconnect}

-- `_tripc_check_seq` and `_tripc_flag_seq` take every number.
unfoldable pub check_seq : Conn → ℕ → ℕ
check_seq c seq = 0

unfoldable pub flag_seq : Conn → ℕ → Conn
flag_seq c seq = c

-- `_tripc_check_open_seq`
unfoldable pub check_open_seq : Conn → ℕ → ℕ
check_open_seq c seq = if ltb seq c.peer.seqfloor then einval else 0

-- `_tripc_flag_open_seq`: `offset` is a `uint32_t`, the floor a `uint64_t`.
unfoldable pub flag_open_seq : Conn → ℕ → Conn
flag_open_seq c seq =
    let p = c.peer in
    let offset = (seq + 2 ^ 64 - p.seqfloor) % 2 ^ 32 in
    if ltb p.window offset
    then record c { peer = record p { seqfloor = u64 (p.seqfloor + (offset - p.window)) } }
    else c

-- A `return EINVAL` where a parser reports an error, and else the rest of the case.
unfoldable pub when_parsed : Option (ℕ × Conn) → (Conn → ℕ × Conn) → Option (ℕ × Conn)
when_parsed none k = none
when_parsed (some (code, c)) k = some (if code == 0 then k c else (einval, c))

-- The end of the function: `return c->error`.
unfoldable pub finish : ℕ → Conn → ℕ × Conn
unfolding flag_seq
finish seq c = let c = flag_seq c seq in (c.error, c)

-- "Invalid state."
abbrev pub invalid_state : List ℕ
invalid_state = 73 ∷ 110 ∷ 118 ∷ 97 ∷ 108 ∷ 105 ∷ 100 ∷ 32 ∷ 115 ∷ 116 ∷ 97 ∷ 116 ∷ 101 ∷ 46 ∷ []

module _ (sod : Sodium) (env : Env) (prefix : Prefix) (len : ℕ) (buf : List ℕ) where
  abbrev done : Conn → ℕ × Conn
  done c = finish prefix.seq c

  -- The case of `_TRIPC_STATE_CHAL`.
  unfoldable pub read_chal : Conn → Option (ℕ × Conn)
  unfolding when_parsed parse_data parse_open parse_ping set_state set_send finish
  read_chal c =
      if control_data == prefix.control
      then when_parsed (some (parse_data sod env c)) (λ c. done (set_state env c ready))
      else if control_open == prefix.control
      then when_parsed (parse_open sod env c len buf) (λ c. done (set_send c))
      else if control_ping == prefix.control
      then when_parsed (parse_ping sod env c len buf prefix) (λ c. done (set_send c))
      else some (einval, c)

  -- The case shared by `PING`, `READY` and `READY_PING`; and that of `CLOSE`, which differs in what a
  -- disconnect does.
  unfoldable pub read_open : (Conn → Conn) → Conn → Option (ℕ × Conn)
  unfolding when_parsed parse_data parse_disconnect parse_ping set_state finish
  read_open disconnected c =
      if control_data == prefix.control
      then when_parsed (some (parse_data sod env c)) done
      else if control_ping == prefix.control
      then when_parsed (parse_ping sod env c len buf prefix) (λ c. done (set_state env c ready))
      else if control_disc == prefix.control
      then when_parsed (some (parse_disconnect sod env c)) (λ c. done (disconnected c))
      else some (einval, c)

  -- The switch on `c->state`.
  unfoldable pub dispatch : State → Conn → Option (ℕ × Conn)
  unfolding read_chal read_open parse_chal set_error
  dispatch start c = some (done c)
  dispatch open_sent c =
      when_parsed (parse_chal sod env c len buf) (λ c. done (set_state env c pinging))
  dispatch chal c = read_chal c
  dispatch pinging c = read_open (λ c. set_state env c closing) c
  dispatch ready c = read_open (λ c. set_state env c closing) c
  dispatch ready_ping c = read_open (λ c. set_state env c closing) c
  dispatch closing c = read_open (λ c. c) c
  dispatch ended c = some (einval, c)
  dispatch failed c = some (done c)
  dispatch resolve c = some (done (set_error env c einval invalid_state))

  -- `_tripc_read`
  unfoldable pub read : Conn → Option (ℕ × Conn)
  unfolding dispatch check_seq
  read c = if check_seq c prefix.seq == 0 then dispatch c.state c else some (einval, c)
