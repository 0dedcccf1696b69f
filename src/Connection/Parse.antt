-- ===== src/Connection/Parse.antt =====
-- src/conn.c: the parsers of a packet's body. Each returns the error code and the connection; `none` is
-- undefined behaviour, a write through NULL or a read outside the buffer.
use libtrp.Base.{ℕ, ◌+◌, ◌-◌, ◌%◌, ◌^◌, false, ◌&&◌, ◌||◌, Option, none, some, List, [], ◌∷◌}
use libtrp.Base.{u8, ◌>>>◌, ◌==◌, if◌then◌else◌}
use mathlib.Core.Option
use libtrp.Util.{are_zeros}
use libtrp.Pack.Format.{
  Spec, seal_open, seal_close, box_open, box_close, nonce, key, uint32, uint64, Sodium,
}
use libtrp.Pack.Decode.{Outcome, next, npos, fault, Stored, number, copied, trip_unpack}
use libtrp.Connection.State.{Conn, Env, Prefix, einval}

-- "QnkIIII" and "oQnkIIIIO"
abbrev pub open_format : List Spec
open_format = uint64 ∷ nonce ∷ key ∷ uint32 ∷ uint32 ∷ uint32 ∷ uint32 ∷ []

abbrev pub chal_format : List Spec
chal_format = seal_open ∷ uint64 ∷ nonce ∷ key ∷ uint32 ∷ uint32 ∷ uint32 ∷ uint32 ∷ seal_close ∷ []

-- "enQIIIE"
abbrev pub ping_format : List Spec
ping_format = box_open ∷ nonce ∷ uint64 ∷ uint32 ∷ uint32 ∷ uint32 ∷ box_close ∷ []

-- The peer's nonce and key are kept unless either is all zeroes. An allocation is not checked.
unfoldable pub keep_keys : Env → Conn → List ℕ → List ℕ → Option (ℕ × Conn)
keep_keys env c n k =
    if are_zeros n || are_zeros k
    then some (0, c)
    else if env.peer_nonce_ok && env.peer_pk_ok
    then some (0, record c { peer = record p { nonce = some n; pk = some k } })
    else none
  where
    open c use {peer as p}

-- The peer's id and limits, and its keys.
unfoldable pub accept_peer : Env → Conn → List Stored → Option (ℕ × Conn)
unfolding keep_keys
accept_peer env c
      (number id ∷ copied n ∷ copied k ∷ number a ∷ number b ∷ number d ∷ number e ∷ []) =
    keep_keys env
      (record c {
        peer = record (c.peer) {
          id = id;
          lim = record { credit = a; stream = b; message_size = d; message = e };
        };
      })
      n k
accept_peer env c _ = none

-- `olen != len` is an invalid packet.
unfoldable pub parse_body : Env → Conn → ℕ → Outcome → Option (ℕ × Conn)
unfolding accept_peer
parse_body env c len (next u) =
    if u.len == len then accept_peer env c u.stored else some (einval, c)
parse_body env c len (npos _) = if (2 ^ 64 - 1) == len then none else some (einval, c)
parse_body env c len fault = none

-- `out[i] += b` byte by byte, from the low byte of the number up.
unfoldable pub add_bytes : ℕ → List ℕ → List ℕ
add_bytes n [] = []
add_bytes n (b ∷ bs) = u8 (b + n % 256) ∷ add_bytes (n >>> 8) bs

-- `_tripc_prep_nonce`: what `out` holds afterwards. Eight bytes take the sequence number.
unfoldable pub prep_nonce : List ℕ → ℕ → ℕ → List ℕ
unfolding add_bytes
prep_nonce [] control seq = []
prep_nonce (b ∷ bs) control seq = u8 (b + u8 control) ∷ add_bytes (seq % 2 ^ 64) bs

module _ (sod : Sodium) (env : Env) where
  -- `_tripc_parse_open` and `_tripc_parse_chal`
  unfoldable pub parse_open : Conn → ℕ → List ℕ → Option (ℕ × Conn)
  unfolding parse_body
  parse_open c len buf = parse_body env c len (trip_unpack sod len buf open_format)

  unfoldable pub parse_chal : Conn → ℕ → List ℕ → Option (ℕ × Conn)
  unfolding parse_body
  parse_chal c len buf = parse_body env c len (trip_unpack sod len buf chal_format)

  -- `_tripc_parse_data` and `_tripc_parse_disconnect` know no packet yet.
  unfoldable pub parse_data : Conn → ℕ × Conn
  parse_data c = (einval, c)

  unfoldable pub parse_disconnect : Conn → ℕ × Conn
  parse_disconnect c = (einval, c)

  -- The length that `trip_unpack` returned, against `len`.
  unfoldable pub ping_code : ℕ → Outcome → Option ℕ
  ping_code len (next u) = some (if u.len == len then 0 else einval)
  ping_code len (npos _) = some (if (2 ^ 64 - 1) == len then 0 else einval)
  ping_code len fault = none

  -- `_tripc_parse_ping`. The call of `_tripc_prep_nonce` writes an uninitialised buffer over the peer's
  -- nonce, with the sequence number for the control and the other way round.
  unfoldable pub parse_ping : Conn → ℕ → List ℕ → Prefix → Option (ℕ × Conn)
  unfolding ping_code prep_nonce
  parse_ping c len buf prefix =
      if c.hassend && (c.ping.isactive || c.incoming)
      then elim c.peer.nonce [
        | none ↦ none
        | some _ ↦
            let written = record (c.peer) {
              nonce = some (prep_nonce env.garbage prefix.seq prefix.control);
            } in
            Option.map (λ code. (code, record c { hassend = false; peer = written }))
              (ping_code len (trip_unpack sod len buf ping_format))
      ]
      else some (einval, c)
