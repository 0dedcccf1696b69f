-- ===== src/Router/Segment/Laws.antt =====
-- What `_trip_segment` lets through.
use mathlib.Core.Path.{subst}
use native.Mathlib.Decide.{ℕ_discrete}
use libtrp.Base.{
  ℕ, ◌+◌, ◌≤◌, u64, [], ◌∷◌, ◌⊎◌, inl, inr, ◌≡◌, ◌≢◌, refl, arith, true, not, ◌||◌, Option-cases,
  ap, ◌∙◌, none, some, List, drop,
}
use libtrp.Pack.Format.{Sodium}
use libtrp.Pack.Decode.{Outcome, next, npos, fault, Stored, number, at_offset, trip_unpack}
use libtrp.Connection.State.{Conn, Prefix, control_open, control_chal}
use libtrp.Connection.Read.{read}
use libtrp.Connmap
use libtrp.Router.Hub.{Hub, Outside, Screen, taken, ids_of, put, get_conn_by_src, unsign}
use libtrp.Router.Segment.{
  is_some, minus, Parsed, parsed, refused, broken, route_format, open_new, open_again, open_route,
  open_segment, hand_over, other_segment, parse_prefix, segment,
}

pub Outcome-cases :
    (o : Outcome) → (o ≡ fault) ⊎ (((u : _) × (o ≡ npos u)) ⊎ ((u : _) × (o ≡ next u)))
Outcome-cases fault = inl refl
Outcome-cases (npos u) = inr (inl (u, refl))
Outcome-cases (next u) = inr (inr (u, refl))

pub Parsed-cases :
    (r : Parsed)
    → (r ≡ broken) ⊎ (((n : ℕ) × (r ≡ refused n)) ⊎ ((p : Prefix) × (end : ℕ) × (r ≡ parsed p end)))
Parsed-cases broken = inl refl
Parsed-cases (refused n) = inr (inl (n, refl))
Parsed-cases (parsed p end) = inr (inr (p, end, refl))

module _ (sod : Sodium) (out : Outside) (src len : ℕ) (buf : List ℕ) where
  -- The segment went to the connection `h`, all of whose guards it passed.
  pub record IsReceived (p : Prefix) (end : ℕ) (hub hub' : Hub) : Type 0 where
    pub h : ℕ
    pub c : Conn
    pub sealed : (p.encrypted || hub.flag.plain_comm) ≡ true
    pub found : Connmap.get p.id hub.conn (ids_of hub.conns) ≡ some (some h)
    pub signed :
        p.control ≡ control_chal
        → (is_some (hub.conns h).peer.signpk || not hub.flag.plain_osig) ≡ true
        → unsign sod out len buf (hub.conns h).peer.signpk ≡ 0
    pub accepted :
        read sod out.env p (minus (minus len sod.sign_bytes) end) (drop end buf) (hub.conns h)
        ≡ some (0, c)
    pub only : hub' ≡ record hub { conns = put hub.conns h c }

  hand_over-taken :
      (h : ℕ) (p : Prefix) (n end reason : ℕ) (finish : Conn → Conn) (hub hub' : Hub)
      → hand_over sod out src len buf h p n end reason finish hub ≡ some (taken, hub')
      → (c : Conn) × (read sod out.env p (minus n end) (drop end buf) (hub.conns h) ≡ some (0, c))
        × (hub' ≡ record hub { conns = put hub.conns h (finish c) })
  unfolding hand_over
  hand_over-taken h p n end reason finish hub hub' e =
      elim (Option-cases (read sod out.env p (minus n end) (drop end buf) (hub.conns h))) [
        | inl q ↦ ground (arith, e, q)
        | inr ((code, c), q) ↦
            let z : code ≡ 0 = ground (arith, e, q) in
            (c, q ∙ ap (λ n. some (n, c)) z, ground (arith, e, q))
      ]

  other_segment-taken :
      (p : Prefix) (end : ℕ) (hub hub' : Hub)
      → other_segment sod out src len buf p end hub ≡ some (taken, hub')
      → IsReceived p end hub hub'
  unfolding other_segment
  other_segment-taken p end hub hub' e =
      elim (Option-cases (Connmap.get p.id hub.conn (ids_of hub.conns))) [
        | inl q ↦ ground (arith, e, q)
        | inr (none, q) ↦ ground (arith, e, q)
        | inr (some h, q) ↦
            let pk = (hub.conns h).peer.signpk in
            let n = minus len sod.sign_bytes in
            let t : hand_over sod out src len buf h p n end 79 (λ c. c) hub ≡ some (taken, hub') =
              ground (arith, e, q) in
            let (c, r, o) = hand_over-taken h p n end 79 (λ c. c) hub hub' t in
            record {
              h = h;
              c = c;
              sealed = ground (arith, e);
              found = q;
              signed = λ is_chal on. ground (arith, e, q, is_chal, on);
              accepted = r;
              only = o;
            }
      ]

  -- The OPEN made a connection: all the guards that it passed.
  pub record IsOpened (p : Prefix) (end : ℕ) (hub : Hub) : Type 0 where
    pub n : ℕ
    pub place : ℕ
    pub permitted : hub.flag.allow_in ≡ true
    pub sealed : (p.encrypted || hub.flag.plain_open) ≡ true
    pub unknown : get_conn_by_src hub src p.id ≡ none
    pub allowed : (out.screen 0 n place).allow ≡ true
    pub signed :
        (is_some (out.screen 0 n place).signpk || not hub.flag.plain_isig) ≡ true
        → unsign sod out len buf (out.screen 0 n place).signpk ≡ 0

  open_again-taken :
      (h : ℕ) (hub hub' : Hub) → open_again sod out src len buf h hub ≢ some (taken, hub')
  unfolding open_again
  open_again-taken h hub hub' e = ground (arith, e)

  open_new-taken :
      (s : Screen) (p : Prefix) (end : ℕ) (hub hub' : Hub)
      → open_new sod out src len buf s p end hub ≡ some (taken, hub')
      → (s.allow ≡ true)
        × ((is_some s.signpk || not hub.flag.plain_isig) ≡ true
            → unsign sod out len buf s.signpk ≡ 0)
  unfolding open_new
  open_new-taken s p end hub hub' e = (ground (arith, e), λ on. ground (arith, e, on))

  open_route-taken :
      (p : Prefix) (end : ℕ) (hub hub' : Hub) (stored : List Stored) (used : ℕ)
      → open_route sod out src len buf p end hub stored used ≡ some (taken, hub')
      → hub.flag.allow_in ≡ true
      → (p.encrypted || hub.flag.plain_open) ≡ true
      → IsOpened p end hub
  unfolding open_route
  open_route-taken p end hub hub' (number version ∷ number n ∷ at_offset at ∷ []) used e permitted
        sealed =
      elim (Option-cases (get_conn_by_src hub src p.id)) [
        | inr (h, q) ↦ absurd (open_again-taken h hub hub' (ground (arith, e, q)))
        | inl q ↦
            let v : version ≡ 0 = ground (arith, e) in
            let s = out.screen 0 n (end + at) in
            let t : open_new sod out src len buf s p (u64 (end + used)) hub ≡ some (taken, hub') =
              subst
                (λ w.
                  open_new sod out src len buf (out.screen w n (end + at)) p (u64 (end + used)) hub
                  ≡ some (taken, hub'))
                v (ground (arith, e, q)) in
            let (allowed, signed) = open_new-taken s p (u64 (end + used)) hub hub' t in
            record {
              n = n;
              place = end + at;
              permitted = permitted;
              sealed = sealed;
              unknown = q;
              allowed = allowed;
              signed = signed;
            }
      ]
  open_route-taken p end hub hub' _ used e permitted sealed = ground (arith, e)

  open_segment-taken :
      (p : Prefix) (end : ℕ) (hub hub' : Hub)
      → open_segment sod out src len buf p end hub ≡ some (taken, hub')
      → IsOpened p end hub
  unfolding open_segment
  open_segment-taken p end hub hub' e =
      elim (Outcome-cases (trip_unpack sod (minus len end) (drop end buf) route_format)) [
        | inl q ↦ ground (arith, e, q)
        | inr (inl (u, q)) ↦ ground (arith, e, q)
        | inr (inr (u, q)) ↦
            open_route-taken p end hub hub' u.stored u.len (ground (arith, e, q))
              (ground (arith, e)) (ground (arith, e))
      ]

  parse_prefix-taken :
      (hub hub' : Hub)
      → segment sod out src len buf hub ≡ some (taken, hub')
      → (p : Prefix) × (end : ℕ) × (parse_prefix sod len buf ≡ parsed p end)
  unfolding segment
  parse_prefix-taken hub hub' e = ground (arith, e, Parsed-cases (parse_prefix sod len buf))

  -- Only what passes the filter gets to a connection. A segment that is taken has 16 bytes and a prefix. If
  -- it is an OPEN, incoming requests are permitted, it is encrypted or plain OPENs are permitted, the source
  -- had no connection of this id, the user's screen allowed it, and its signature is good if a key is given
  -- or a signature asked for. If it is not, it is encrypted or plain packets are permitted, the id is mapped
  -- to a connection, which accepts it, the signature of a CHAL is good where it has to be, and nothing
  -- but this connection changes.
  pub segment-taken :
      (hub hub' : Hub)
      → segment sod out src len buf hub ≡ some (taken, hub')
      → (16 ≤ len)
        × (p : Prefix) × (end : ℕ) × (parse_prefix sod len buf ≡ parsed p end)
        × (((p.control ≡ control_open) × IsOpened p end hub)
            ⊎ ((p.control ≢ control_open) × IsReceived p end hub hub'))
  unfolding segment
  segment-taken hub hub' e =
      let (p, end, q) = parse_prefix-taken hub hub' e in
      (
        ground (arith, e),
        p,
        end,
        q,
        elim (ℕ_discrete p.control control_open) [
          | yes o ↦ inl (o, open_segment-taken p end hub hub' (ground (arith, e, q, o)))
          | no o ↦ inr (o, other_segment-taken p end hub hub' (ground (arith, e, q, o)))
        ],
      )
