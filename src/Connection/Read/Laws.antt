-- ===== src/Connection/Read/Laws.antt =====
-- Which states a packet can take a connection to.
use libtrp.Base.{
  true, false, Bool-cases, Option-cases, ◌&&◌, ◌||◌, ℕ, ◌-◌, ◌^◌, ◌<◌, ◌≡◌, refl, arith, ◌⊎◌, inl,
  inr, Option, none, some, List, [], ◌∷◌,
}
use libtrp.Pack.Format.{Sodium}
use libtrp.Pack.Decode.{trip_unpack, run, step, Stored, number, copied, Outcome, next, npos, fault}
use libtrp.Connection.State.{
  State, start, resolve, open_sent, chal, pinging, ready, ready_ping, closing, ended, failed, Conn,
  Env, Prefix, einval,
}
use libtrp.Connection.Timing.{set_send}
use libtrp.Connection.Change.{set_state}
use libtrp.Connection.Change.Laws.{set_state-state, set_error-state}
use libtrp.Connection.Parse.{
  parse_open, parse_chal, parse_body, parse_data, parse_ping, ping_code, parse_disconnect,
  prep_nonce, keep_keys, accept_peer, open_format, chal_format,
}
use libtrp.Connection.Read.{
  when_parsed, flag_seq, finish, read_chal, read_open, invalid_state, dispatch, read, check_seq,
}

-- A step between two states of a connection.
abbrev pub Moves : State → State → Type 0
Moves s t = (t ≡ s) ⊎ ((s ≡ open_sent) × (t ≡ pinging)) ⊎ ((s ≡ resolve) × (t ≡ failed))

-- A result that is undefined or leaves a connection in the state.
abbrev Leaves : State → Option (ℕ × Conn) → Type 0
Leaves s r = (r ≡ none) ⊎ ((code : ℕ) × (c : Conn) × (r ≡ some (code, c)) × (c.state ≡ s))

keep_keys-Leaves : (env : Env) (c : Conn) (n k : List ℕ) → Leaves c.state (keep_keys env c n k)
unfolding keep_keys
keep_keys-Leaves env c n k = ground arith

accept_peer-Leaves :
    (env : Env) (c : Conn) (ss : List Stored) → Leaves c.state (accept_peer env c ss)
unfolding accept_peer
accept_peer-Leaves env c
      (number id ∷ copied n ∷ copied k ∷ number a ∷ number b ∷ number d ∷ number e ∷ []) =
    keep_keys-Leaves env _ n k
accept_peer-Leaves env c _ = inl refl

parse_body-Leaves :
    (env : Env) (c : Conn) (len : ℕ) (u : Outcome) → Leaves c.state (parse_body env c len u)
unfolding parse_body
parse_body-Leaves env c len (next u) = ground (arith, accept_peer-Leaves env c u.stored)
parse_body-Leaves env c len (npos u) = ground arith
parse_body-Leaves env c len fault = inl refl

-- Where a ping may come in, its parser writes over the peer's nonce.
abbrev pub IsParsed : Conn → Type 0
IsParsed c = (c.hassend ≡ true) × ((c.ping.isactive ≡ true) ⊎ (c.incoming ≡ true))

module _ (sod : Sodium) (env : Env) where
  -- With `len` below NPOS, whatever the packet: where a connection parses a ping although the nonce of its peer
  -- is NULL, that is undefined behaviour; in every other case the ping is refused with EINVAL and the state is
  -- kept, since `trip_unpack` has no case for `e`.
  pub parse_ping-refused :
      (c : Conn) (len : ℕ) (buf : List ℕ) (prefix : Prefix)
      → len < 2 ^ 64 - 1
      → (IsParsed c × (c.peer.nonce ≡ none) × (parse_ping sod env c len buf prefix ≡ none))
        ⊎ (¬ (IsParsed c × (c.peer.nonce ≡ none))
            × (c' : Conn) × (parse_ping sod env c len buf prefix ≡ some (einval, c'))
            × (c'.state ≡ c.state))
  unfolding parse_ping ping_code trip_unpack run step
  parse_ping-refused c len buf prefix h = elim (Option-cases c.peer.nonce) [
    | inl null ↦ elim (Bool-cases (c.hassend && (c.ping.isactive || c.incoming))) [
      | inl y ↦ inl (ground (arith, y), null, ground (arith, y, null))
      | inr n ↦ inr (λ x. ground (arith, n, x), c, ground (arith, n), refl)
    ]
    | inr (n, there) ↦
        let written = record (c.peer) {
          nonce = some (prep_nonce env.garbage prefix.seq prefix.control);
        } in
        let parsed : Conn = record c { hassend = false; peer = written } in
        elim (Bool-cases (c.hassend && (c.ping.isactive || c.incoming))) [
          | inl y ↦ inr (λ x. ground (arith, x, there), parsed, ground (arith, y, there), refl)
          | inr q ↦ inr (λ x. ground (arith, q, x), c, ground (arith, q), refl)
        ]
  ]

  module _ (prefix : Prefix) (len : ℕ) (buf : List ℕ) (small : len < 2 ^ 64 - 1) where
    ping-Leaves :
        (c : Conn) (k : Conn → ℕ × Conn)
        → Leaves c.state (when_parsed (parse_ping sod env c len buf prefix) k)
    unfolding when_parsed
    ping-Leaves c k = ground (arith, parse_ping-refused c len buf prefix small)

    read_open-Leaves :
        (k : Conn → Conn) (c : Conn) → Leaves c.state (read_open sod env prefix len buf k c)
    unfolding read_open when_parsed parse_data parse_disconnect
    read_open-Leaves k c =
        ground (arith, ping-Leaves c (λ c. finish prefix.seq (set_state env c ready)))

    read_chal-Leaves : (c : Conn) → Leaves c.state (read_chal sod env prefix len buf c)
    unfolding read_chal when_parsed parse_data parse_open set_send finish flag_seq
    read_chal-Leaves c = ground (
      arith,
      ping-Leaves c (λ c. finish prefix.seq (set_send c)),
      parse_body-Leaves env c len (trip_unpack sod len buf open_format),
    )

    -- A connection is left in its state, or made to wait for a ping, or failed for want of an address.
    dispatch_lem :
        (s : State) (c : Conn)
        → c.state ≡ s
        → (dispatch sod env prefix len buf s c ≡ none)
          ⊎ ((code : ℕ) × (c' : Conn) × (dispatch sod env prefix len buf s c ≡ some (code, c'))
              × Moves s c'.state)
    unfolding dispatch finish flag_seq when_parsed parse_chal
    dispatch_lem start c e = inr (c.error, c, refl, inl e)
    dispatch_lem open_sent c e =
        elim (parse_body-Leaves env c len (trip_unpack sod len buf chal_format)) [
          | inl p ↦ ground (arith, p)
          | inr (code, c', p, q) ↦ ground (arith, p, q, set_state-state env c' pinging)
        ]
    dispatch_lem chal c e = ground (arith, read_chal-Leaves c)
    dispatch_lem pinging c e = ground (arith, read_open-Leaves (λ c. set_state env c closing) c)
    dispatch_lem ready c e = ground (arith, read_open-Leaves (λ c. set_state env c closing) c)
    dispatch_lem ready_ping c e = ground (arith, read_open-Leaves (λ c. set_state env c closing) c)
    dispatch_lem closing c e = ground (arith, read_open-Leaves (λ c. c) c)
    dispatch_lem ended c e = inr (einval, c, refl, inl e)
    dispatch_lem failed c e = inr (c.error, c, refl, inl e)
    dispatch_lem resolve c e =
        inr (_, _, refl, inr (inr (refl, set_error-state env c einval invalid_state)))

    -- With `len` below NPOS, a packet that `_tripc_read` answers leaves the connection in its state, or
    -- takes it from OPEN to PING, or from RESOLVE to ERROR. So no packet makes it READY or CLOSE.
    pub read-Moves :
        (c c' : Conn) (code : ℕ)
        → read sod env prefix len buf c ≡ some (code, c')
        → Moves c.state c'.state
    unfolding read check_seq
    read-Moves c c' code e = ground (arith, dispatch_lem c.state c refl)
