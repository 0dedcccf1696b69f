-- ===== src/Router/Segment/Refusals.antt =====
-- What `_trip_segment` leaves unchanged when it refuses.
use libtrp.Base.{
  ℕ, ◌+◌, u64, [], ◌∷◌, ◌⊎◌, inl, inr, ◌≡◌, arith, Option-cases, none, some, List, drop,
}
use libtrp.Pack.Format.{Sodium}
use libtrp.Pack.Decode.{Stored, number, at_offset, trip_unpack}
use libtrp.Connection.State.{Conn, Prefix}
use libtrp.Connmap
use libtrp.Connection.Timing.{set_send}
use libtrp.Router.Hub.{Hub, Outside, Screen, reject, ids_of, get_conn_by_src}
use libtrp.Router.Segment.{
  minus, sealed_format, route_format, create, open_body, open_new, open_again, open_route,
  open_segment, hand_over, other_segment, parse_prefix, segment,
}
use libtrp.Router.Segment.Laws.{Outcome-cases, Parsed-cases}

-- The rejections that come after a connection was made or asked: 22, 50, 79 and 201.
abbrev pub IsLate : ℕ → Type 0
IsLate n = (n ≡ 22) ⊎ ((n ≡ 50) ⊎ ((n ≡ 79) ⊎ (n ≡ 201)))

module _ (sod : Sodium) (out : Outside) (src len : ℕ) (buf : List ℕ) where
  hand_over-rejected :
      (h : ℕ) (p : Prefix) (n end reason : ℕ) (finish : Conn → Conn) (hub hub' : Hub) (code : ℕ)
      → hand_over sod out src len buf h p n end reason finish hub ≡ some (reject code, hub')
      → code ≡ reason
  unfolding hand_over
  hand_over-rejected h p n end reason finish hub hub' code e = ground (arith, e)

  other_segment-rejected :
      (p : Prefix) (end : ℕ) (hub hub' : Hub) (code : ℕ)
      → other_segment sod out src len buf p end hub ≡ some (reject code, hub')
      → IsLate code ⊎ (hub' ≡ hub)
  unfolding other_segment
  other_segment-rejected p end hub hub' code e =
      elim (Option-cases (Connmap.get p.id hub.conn (ids_of hub.conns))) [
        | inl q ↦ ground (arith, e, q)
        | inr (none, q) ↦ ground (arith, e, q)
        | inr (some h, q) ↦ ground (
          arith,
          e,
          q,
          hand_over-rejected h p (minus len sod.sign_bytes) end 79 (λ c. c) hub hub' code,
        )
      ]

  open_body-rejected :
      (h : ℕ) (p : Prefix) (end : ℕ) (hub hub' : Hub) (code : ℕ)
      → open_body sod out src len buf h p end hub ≡ some (reject code, hub')
      → (code ≡ 201) ⊎ (code ≡ 22)
  unfolding open_body
  open_body-rejected h p end hub hub' code e =
      let n = minus (minus len sod.sign_bytes) end in
      let m = minus len sod.sign_bytes in
      elim (Outcome-cases (trip_unpack sod (minus n sod.sign_bytes) (drop end buf) sealed_format)) [
        | inl q ↦ ground (arith, e, q)
        | inr (inl (u, q)) ↦ ground (arith, e, q)
        | inr (inr (u, q)) ↦
            ground
              (arith, e, q, hand_over-rejected h p m (u64 (end + u.len)) 22 set_send hub hub' code)
      ]

  open_again-rejected :
      (h : ℕ) (hub hub' : Hub) (code : ℕ)
      → open_again sod out src len buf h hub ≡ some (reject code, hub')
      → hub' ≡ hub
  unfolding open_again
  open_again-rejected h hub hub' code e = ground (arith, e)

  open_new-rejected :
      (s : Screen) (p : Prefix) (end : ℕ) (hub hub' : Hub) (code : ℕ)
      → open_new sod out src len buf s p end hub ≡ some (reject code, hub')
      → IsLate code ⊎ (hub' ≡ hub)
  unfolding open_new
  open_new-rejected s p end hub hub' code e = elim (Option-cases out.fresh) [
    | inl q ↦ ground (arith, e, q)
    | inr (h, q) ↦ elim (Option-cases (create sod out src len buf s h hub)) [
      | inl r ↦ ground (arith, e, q, r)
      | inr ((c, made), r) ↦ ground (arith, e, q, r, open_body-rejected h p end made hub' code)
    ]
  ]

  open_route-rejected :
      (p : Prefix) (end : ℕ) (hub hub' : Hub) (stored : List Stored) (used code : ℕ)
      → open_route sod out src len buf p end hub stored used ≡ some (reject code, hub')
      → IsLate code ⊎ (hub' ≡ hub)
  unfolding open_route
  open_route-rejected p end hub hub' (number version ∷ number n ∷ at_offset at ∷ []) used code e =
      elim (Option-cases (get_conn_by_src hub src p.id)) [
        | inr (h, q) ↦ ground (arith, e, q, open_again-rejected h hub hub' code)
        | inl q ↦ ground (
          arith,
          e,
          q,
          open_new-rejected (out.screen version n (end + at)) p (u64 (end + used)) hub hub' code,
        )
      ]
  open_route-rejected p end hub hub' _ used code e = ground (arith, e)

  open_segment-rejected :
      (p : Prefix) (end : ℕ) (hub hub' : Hub) (code : ℕ)
      → open_segment sod out src len buf p end hub ≡ some (reject code, hub')
      → IsLate code ⊎ (hub' ≡ hub)
  unfolding open_segment
  open_segment-rejected p end hub hub' code e =
      elim (Outcome-cases (trip_unpack sod (minus len end) (drop end buf) route_format)) [
        | inl q ↦ ground (arith, e, q)
        | inr (inl (u, q)) ↦ ground (arith, e, q)
        | inr (inr (u, q)) ↦
            ground (arith, e, q, open_route-rejected p end hub hub' u.stored u.len code)
      ]

  -- A segment that is rejected leaves the router's connections and their map as they were, unless the
  -- rejection is one of the four after a connection was made or asked (22, 50, 79 and 201).
  pub segment-rejected :
      (hub hub' : Hub) (code : ℕ)
      → segment sod out src len buf hub ≡ some (reject code, hub')
      → IsLate code ⊎ (hub' ≡ hub)
  unfolding segment
  segment-rejected hub hub' code e = elim (Parsed-cases (parse_prefix sod len buf)) [
    | inl q ↦ ground (arith, e, q)
    | inr (inl (n, q)) ↦ ground (arith, e, q)
    | inr (inr (p, end, q)) ↦ ground (
      arith,
      e,
      q,
      open_segment-rejected p end hub hub' code,
      other_segment-rejected p end hub hub' code,
    )
  ]
