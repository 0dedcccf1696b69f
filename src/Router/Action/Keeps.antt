-- ===== src/Router/Action/Keeps.antt =====
-- src/trip.c: no callback takes the packet interface of a router away.
use libtrp.Base.{
  ℕ, zero, suc, ◌+◌, ◌≡◌, refl, ◌∙◌, arith, true, false, inl, inr, Bool-cases, Option-cases, u64,
  none, some, List, [], if◌then◌else◌,
}
use libtrp.Router.State
use libtrp.Router.State.{
  State, start, bind, listen, close, unbind, ended, failed, Router, Env, Packet, Reply, later,
  ready, unready, fails, Run, done, crash, too_deep, and_then,
}
use libtrp.Router.Change.{
  call, arm, on_leave, needs_packet, set_error_by, ready_by, unready_by, react, on_enter, set_state,
  set_error,
}
use libtrp.Router.Change.Laws.{arm-fields, on_leave-fields}
use libtrp.Router.Setup.{einval}
use libtrp.Router.Action.{Outside, some_text, fail, hear, at_deadline, dispatch}

-- A run that leaves a packet interface where there was one.
abbrev pub Keeps : Run → Type 0
Keeps (done r) = r.haspacket ≡ true
Keeps crash = Unit
Keeps too_deep = Unit

and_then-Keeps :
    (m : Run) (f : Router → Run)
    → Keeps m
    → ((r : Router) → r.haspacket ≡ true → Keeps (f r))
    → Keeps (and_then m f)
and_then-Keeps (done r) f h k = k r h
and_then-Keeps crash f h k = tt
and_then-Keeps too_deep f h k = tt

module _ (env : Env) (packet : Packet) (go : State → Router → Run)
    (keeps : (s : State) (r : Router) → r.haspacket ≡ true → Keeps (go s r)) where
  set_error_by-Keeps :
      (e : ℕ) (msg : List ℕ) (r : Router) → r.haspacket ≡ true → Keeps (set_error_by env go e msg r)
  unfolding set_error_by
  set_error_by-Keeps e msg r p =
      let r1 = record r { error = e; errmsg = if env.message_ok then some msg else none } in
      ground (arith, p, keeps failed r1 p)

  react-Keeps : (reply : Reply) (r : Router) → r.haspacket ≡ true → Keeps (react env go reply r)
  unfolding react ready_by unready_by
  react-Keeps later r p = p
  react-Keeps ready r p = ground (arith, keeps listen r p, keeps failed r p)
  react-Keeps (unready e) r p = ground (arith, keeps ended r p, set_error_by-Keeps e [] r p)
  react-Keeps (fails e msg) r p = set_error_by-Keeps e msg r p

  needs_packet-Keeps : (r : Router) (m : Run) → Keeps m → Keeps (needs_packet r m)
  unfolding needs_packet
  needs_packet-Keeps r m h = elim (Bool-cases r.haspacket) [ inl y ↦ rw y h | inr n ↦ rw n tt ]

  on_enter-Keeps :
      (s : State) (r : Router) → r.haspacket ≡ true → Keeps (on_enter env packet go s r)
  unfolding on_enter call
  on_enter-Keeps start r p = p
  on_enter-Keeps bind r p =
      let r0 = record r { statedeadline = u64 (env.now + r.timeout_bind) } in
      let r1 = call State.packet_bind (arm env r.timeout_bind r0) in
      needs_packet-Keeps r1 (react env go (packet.bind r1) r1)
        (react-Keeps (packet.bind r1) r1 ((arm-fields env r.timeout_bind r0).3 ∙ p))
  on_enter-Keeps listen r p = p
  on_enter-Keeps close r p =
      let r1 = record (call (State.close_connections r.timeout_close) r) {
        statedeadline = u64 (env.now + r.timeout_close);
      } in
      (arm-fields env r.timeout_close r1).3 ∙ p
  on_enter-Keeps unbind r p =
      let r1 = call State.packet_unbind (call (State.close_connections 0) r) in
      let rearm : Router → Run = λ r. done (
        arm env r.timeout_unbind (record r { statedeadline = u64 (env.now + r.timeout_unbind) })) in
      needs_packet-Keeps r1 (and_then (react env go (packet.unbind r1) r1) rearm) (
        and_then-Keeps (react env go (packet.unbind r1) r1) rearm
          (react-Keeps (packet.unbind r1) r1 p)
          (λ r q.
            (arm-fields env r.timeout_unbind
              (record r { statedeadline = u64 (env.now + r.timeout_unbind) })).3
            ∙ q))
  on_enter-Keeps ended r p = p
  on_enter-Keeps failed r p =
      let r1 = call State.packet_unbind (arm env r.timeout_unbind r) in
      let there : r1.haspacket ≡ true = (arm-fields env r.timeout_unbind r).3 ∙ p in
      ground (arith, p, react-Keeps (packet.unbind r1) r1 there)

module _ (env : Env) (packet : Packet) where
  set_state-Keeps :
      (fuel : ℕ) (s : State) (r : Router)
      → r.haspacket ≡ true
      → Keeps (set_state env packet fuel s r)
  unfolding set_state
  set_state-Keeps zero s r p = tt
  set_state-Keeps (suc fuel) s r p =
      let (s', r') = on_leave env s r in
      on_enter-Keeps env packet (set_state env packet fuel) (λ s r p. set_state-Keeps fuel s r p) s'
        (record r' { state = s' }) ((on_leave-fields env packet s r).1 ∙ p)

  set_error-Keeps :
      (fuel e : ℕ) (msg : List ℕ) (r : Router)
      → r.haspacket ≡ true
      → Keeps (set_error env packet fuel e msg r)
  unfolding set_error
  set_error-Keeps fuel e msg r p =
      set_error_by-Keeps env packet (set_state env packet fuel)
        (λ s r p. set_state-Keeps fuel s r p) e msg r p

module _ (out : Outside) (fuel : ℕ) where
  hear-Keeps : (r : Router) → r.haspacket ≡ true → Keeps (hear out fuel r)
  unfolding hear
  hear-Keeps r p = elim (Option-cases out.heard) [
    | inl e ↦ rw e p
    | inr (x, e) ↦ rw e (set_error-Keeps out.env out.packet fuel x [] r p)
  ]

  at_deadline-Keeps :
      (s : State) (r : Router) → r.haspacket ≡ true → Keeps (at_deadline out fuel s r)
  unfolding at_deadline
  at_deadline-Keeps s r p = ground (arith, p, set_state-Keeps out.env out.packet fuel s r p)

  -- A descriptor with events: the switch of `trip_action`.
  pub untimed-Keeps : (r : Router) → r.haspacket ≡ true → Keeps (dispatch out fuel false r)
  unfolding dispatch fail
  untimed-Keeps r p = at_state r.state refl
    where
      failing : Keeps (fail out fuel einval r)
      failing = set_error-Keeps out.env out.packet fuel einval some_text r p

      closing_in : Keeps (and_then (hear out fuel r) (at_deadline out fuel unbind))
      closing_in =
          and_then-Keeps (hear out fuel r) (at_deadline out fuel unbind) (hear-Keeps r p)
            (λ r p. at_deadline-Keeps unbind r p)

      at_state : (s : State) → r.state ≡ s → Keeps (dispatch out fuel false r)
      at_state start e = ground (arith, e, failing)
      at_state bind e = ground (arith, e, failing)
      at_state listen e = ground (arith, e, hear-Keeps r p)
      at_state close e = ground (arith, e, closing_in)
      at_state unbind e = ground (arith, e, at_deadline-Keeps ended r p)
      at_state ended e = ground (arith, e, p)
      at_state failed e = ground (arith, e, p)
