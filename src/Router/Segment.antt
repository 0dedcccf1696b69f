-- ===== src/Router/Segment.antt =====
-- src/trip.c: `_trip_segment`, which filters what arrives from a source and hands it to a connection.
pub mod Laws
pub mod Refusals
mod Tests
use mathlib.Core.Option
use libtrp.Base.{
  ℕ, ◌+◌, ◌-◌, ◌%◌, ◌^◌, bit_and, Bool, true, false, not, ◌&&◌, ◌||◌, Option, none, some, List, [],
  ◌∷◌, take, drop, u64, ◌==◌, ltb, leb, if◌then◌else◌,
}
use libtrp.Pack.Format.{Sodium, Spec, uint8, uint64, var64, uint16, binary, seal_open, seal_close}
use libtrp.Pack.Decode.{Outcome, next, npos, fault, Stored, number, at_offset, trip_unpack}
use libtrp.Connection.State
use libtrp.Connection.State.{Conn, Prefix, control_open, control_chal, control_max, prefix_emask}
use libtrp.Connection.Timing.{set_send}
use libtrp.Connection.Change.{begin}
use libtrp.Connection.Read.{read}
use libtrp.Connmap.{Connmap}
use libtrp.Connmap
use libtrp.Router.State.{Flags}
use libtrp.Router.Hub.{
  Hub, Screen, Outside, Verdict, reject, ignore, taken, Result, unsign, init_conn, set_screen,
  ids_of, put, get_conn_by_src,
}

-- The prefix, and how many bytes it takes; an error is the reason of the rejection.
pub data Parsed : Type 0 where
  parsed : Prefix → ℕ → Parsed
  refused : ℕ → Parsed
  broken : Parsed

-- "CQW"
abbrev pub prefix_format : List Spec
prefix_format = uint8 ∷ uint64 ∷ var64 ∷ []

-- "Hb"
abbrev pub route_format : List Spec
route_format = uint16 ∷ binary ∷ []

-- "oO"
abbrev pub sealed_format : List Spec
sealed_format = seal_open ∷ seal_close ∷ []

unfoldable pub split_control : List Stored → ℕ → Parsed
split_control (number c ∷ number id ∷ number seq ∷ []) len =
    let control = bit_and c 0x7f in
    if leb control_max control
    then refused 12
    else parsed
        (record {
          encrypted = not (bit_and c prefix_emask == 0);
          control = control;
          id = id;
          seq = seq;
        })
        len
split_control _ len = broken

unfoldable pub parse_prefix : Sodium → ℕ → List ℕ → Parsed
unfolding split_control
parse_prefix sod len buf = elim (trip_unpack sod len buf prefix_format) [
  | fault ↦ broken
  | npos _ ↦ refused 1
  | next u ↦ if u.len == 0 then refused 1 else split_control u.stored u.len
]

abbrev pub is_some : Option (List ℕ) → Bool
is_some none = false
is_some (some _) = true

-- `a - b` of `size_t`
abbrev pub minus : ℕ → ℕ → ℕ
minus a b = (a + 2 ^ 64 - b) % 2 ^ 64

module _ (sod : Sodium) (out : Outside) (src len : ℕ) (buf : List ℕ) where
  -- `_tripc_read` of what is left of the segment by the connection `h`; what an error is rejected with.
  unfoldable pub hand_over : ℕ → Prefix → ℕ → ℕ → ℕ → (Conn → Conn) → Hub → Result
  hand_over h p len end reason finish hub =
      Option.map
        (λ (code, c).
          if code == 0
          then (taken, record hub { conns = put hub.conns h (finish c) })
          else (reject reason, record hub { conns = put hub.conns h c }))
        (read sod out.env p (minus len end) (drop end buf) (hub.conns h))

  -- The `else` branch, for all packets but OPEN.
  unfoldable pub other_segment : Prefix → ℕ → Hub → Result
  unfolding hand_over unsign
  other_segment p end hub =
      if not p.encrypted && not hub.flag.plain_comm
      then some (reject 7, hub)
      else elim (Connmap.get p.id hub.conn (ids_of hub.conns)) [
        | none ↦ none
        | some none ↦ some (reject 88, hub)
        | some (some h) ↦
            let pk = (hub.conns h).peer.signpk in
            let checked = (p.control == control_chal) && (is_some pk || not hub.flag.plain_osig) in
            let rest = hand_over h p (minus len sod.sign_bytes) end 79 (λ c. c) hub in
            if checked && not (unsign sod out len buf pk == 0) then some (reject 203, hub) else rest
      ]

  -- The decryption of an OPEN, and its body.
  unfoldable pub open_body : ℕ → Prefix → ℕ → Hub → Result
  unfolding hand_over
  open_body h p end hub =
      let len = minus len sod.sign_bytes in
      elim (trip_unpack sod (minus (minus len end) sod.sign_bytes) (drop end buf) sealed_format) [
        | fault ↦ none
        | npos _ ↦ some (reject 201, hub)
        | next u ↦
            let rest = hand_over h p len (u64 (end + u.len)) 22 set_send hub in
            if u.len == 0 then some (reject 201, hub) else rest
      ]

  -- A connection is created, put into the map and started.
  unfoldable pub create : Screen → ℕ → Hub → Option (ℕ × Hub)
  unfolding init_conn set_screen begin
  create s h hub =
      let conns = put hub.conns h (record (init_conn true) { src = src }) in
      let r = Connmap.random out.draws.0 out.draws.1 in
      elim (Connmap.add out.map_ok r h hub.conn (ids_of conns)) [
        | none ↦ none
        | some (code, map, ids) ↦
            let c = conns h in
            let named = record c { self = record (c.self) { id = ids h } } in
            some (
              code,
              if code == 0
                  then record hub {
                    conn = map;
                    conns = put conns h (begin out.env (set_screen s named));
                  }
                  else record hub { conn = map },
            )
      ]

  -- A source without a connection: the user is asked, and the signature checked if it has to be.
  unfoldable pub open_new : Screen → Prefix → ℕ → Hub → Result
  unfolding create open_body unsign
  open_new s p end hub =
      if not s.allow
      then some (ignore, hub)
      else if (is_some s.signpk || not hub.flag.plain_isig)
          && not (unsign sod out len buf s.signpk == 0)
      then some (reject 203, hub)
      else elim out.fresh [
        | none ↦ some (reject 6, hub)
        | some h ↦ elim (create s h hub) [
          | none ↦ none
          | some (code, made) ↦
              let rest = open_body h p end made in
              if code == 0 then rest else some (reject 50, made)
        ]
      ]

  -- A source with a connection: it is only moved to the source.
  unfoldable pub open_again : ℕ → Hub → Result
  unfolding unsign
  open_again h hub =
      let c = hub.conns h in
      if (is_some c.peer.signpk || not hub.flag.plain_isig)
        && not (unsign sod out len buf c.peer.signpk == 0)
      then some (reject 203, hub)
      else some (ignore, record hub { conns = put hub.conns h (record c { src = src }) })

  -- Version and route, and the connection for the source.
  unfoldable pub open_route : Prefix → ℕ → Hub → List Stored → ℕ → Result
  unfolding open_new open_again get_conn_by_src
  open_route p end hub (number version ∷ number n ∷ at_offset at ∷ []) used =
      if not (version == 0) then some (reject 5, hub) else elim (get_conn_by_src hub src p.id) [
        | none ↦ open_new (out.screen version n (end + at)) p (u64 (end + used)) hub
        | some h ↦ open_again h hub
      ]
  open_route p end hub _ used = none

  -- The branch for OPEN.
  unfoldable pub open_segment : Prefix → ℕ → Hub → Result
  unfolding open_route
  open_segment p end hub =
      if not hub.flag.allow_in
      then some (reject 2, hub)
      else if not p.encrypted && not hub.flag.plain_open
      then some (reject 3, hub)
      else elim (trip_unpack sod (minus len end) (drop end buf) route_format) [
        | fault ↦ none
        | npos _ ↦ some (reject 4, hub)
        | next u ↦
            let rest = open_route p end hub u.stored u.len in
            if u.len == 0 then some (reject 4, hub) else rest
      ]

  -- `_trip_segment`; `_trip_router_is_reported` is false for every source.
  unfoldable pub segment : Hub → Result
  unfolding parse_prefix open_segment other_segment
  segment hub = if ltb len 16 then some (reject 0, hub) else elim (parse_prefix sod len buf) [
    | broken ↦ none
    | refused n ↦ some (reject n, hub)
    | parsed p end ↦
        if p.control == control_open then open_segment p end hub else other_segment p end hub
  ]
