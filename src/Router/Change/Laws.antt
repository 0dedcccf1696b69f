-- ===== src/Router/Change/Laws.antt =====
-- `_trip_set_state`: how deep its changes nest, and where they end.
use mathlib.Core.Path.{subst}
use libtrp.Base.{
  ℕ, zero, suc, ◌+◌, ◌≡◌, ◌≢◌, refl, ◌∙◌, sym, ap, arith, true, not, ◌&&◌, ◌⊎◌, inl, inr, none,
  some, List, [], u64, if◌then◌else◌, Bool-cases,
}
use libtrp.Router.State.{
  State, start, bind, listen, close, unbind, ended, failed, Router, Env, Packet, Reply, later,
  ready, unready, fails, packet_bind, packet_unbind, close_connections, Run, done, and_then,
}
use libtrp.Router.Change.{
  call, add_timeout, needs_packet, arm, disarm, on_leave, set_error_by, ready_by, unready_by, react,
  on_enter, set_state, set_error,
}

-- A run that ends, in a router that satisfies a predicate.
abbrev pub Ends : (Router → Type 0) → Run → Type 0
Ends P m = (r : Router) × (m ≡ done r) × P r

-- The ERROR state is not left: whatever state is asked for, it ends there with its error.
abbrev Stuck : ℕ → Router → Type 0
Stuck e r = (r.state ≡ failed) × (r.error ≡ e)

failed_cases : (s : State) → (s ≡ failed) ⊎ (s ≢ failed)
failed_cases failed = inl refl
failed_cases start = inr (λ e. cc)
failed_cases bind = inr (λ e. cc)
failed_cases listen = inr (λ e. cc)
failed_cases close = inr (λ e. cc)
failed_cases unbind = inr (λ e. cc)
failed_cases ended = inr (λ e. cc)

pub arm-fields :
    (env : Env) (ms : ℕ) (r : Router)
    → let r' = arm env ms r in
      (r'.state ≡ r.state)
      × (r'.error ≡ r.error)
      × (r'.statetimer ≡ env.timer_ok)
      × (r'.haspacket ≡ r.haspacket)
      × (r'.attached ≡ r.attached)
unfolding arm add_timeout call
arm-fields env ms r = ground arith

pub needs_packet-eq : (r : Router) (m : Run) → r.haspacket ≡ true → needs_packet r m ≡ m
unfolding needs_packet
needs_packet-eq r m p = rw p refl

module _ (env : Env) (packet : Packet) where
  -- In ERROR with a timer, nothing nests.
  failed-timed :
      (fuel : ℕ) (s : State) (r : Router)
      → r.state ≡ failed
      → r.haspacket ≡ true
      → r.statetimer ≡ true
      → set_state env packet (suc fuel) s r ≡ done r
  unfolding set_state on_leave on_enter
  failed-timed fuel s r e p t = ground (arith, e, p, t)

  react-failed :
      (fuel : ℕ) (reply : Reply) (r : Router)
      → r.state ≡ failed
      → r.haspacket ≡ true
      → r.statetimer ≡ true
      → react env (set_state env packet (suc fuel)) reply r ≡ done r
  unfolding react ready_by unready_by set_error_by
  react-failed fuel later r e p t = refl
  react-failed fuel ready r e p t = ground (arith, e, failed-timed fuel failed r e p t)
  react-failed fuel (unready n) r e p t = ground (arith, e, failed-timed fuel ended r e p t)
  react-failed fuel (fails n msg) r e p t = ground (arith, e)

  -- What is common to all ways into ERROR: the state is recorded, the error is kept.
  abbrev pub IsFailed : Router → Router → Type 0
  IsFailed r r' = (r'.state ≡ failed) × (r'.error ≡ r.error) × (r'.haspacket ≡ r.haspacket)

  enter-failed :
      (fuel : ℕ) (r : Router)
      → env.timer_ok ≡ true
      → r.state ≡ failed
      → r.haspacket ≡ true
      → Ends (IsFailed r) (on_enter env packet (set_state env packet (suc fuel)) failed r)
  unfolding on_enter call
  enter-failed fuel r ok e p = elim (Bool-cases (r.attached && not r.statetimer)) [
    | inr no_timer ↦ (r, ground (arith, p, no_timer), (e, refl, refl))
    | inl armed ↦
        let a = arm-fields env r.timeout_unbind r in
        let r1 = call packet_unbind (arm env r.timeout_unbind r) in
        let q = react-failed fuel (packet.unbind r1) r1 (a.0 ∙ e) (a.3 ∙ p) (a.2 ∙ ok) in
        (r1, ground (arith, p, armed, q), (a.0 ∙ e, a.1, a.3))
  ]

  pub on_leave-fields :
      (s : State) (r : Router)
      → let (s', r') = on_leave env s r in
        (r'.error ≡ r.error)
        × (r'.haspacket ≡ r.haspacket)
        × ((r.state ≡ failed) ⊎ (s ≡ failed) → s' ≡ failed)
        × (r.state ≢ failed → s' ≡ s)
  unfolding on_leave disarm call
  on_leave-fields s r = ground arith

  -- ERROR is entered, and is not left, whatever state is asked for.
  pub set_state-failed :
      (fuel : ℕ) (s : State) (r : Router)
      → env.timer_ok ≡ true
      → r.haspacket ≡ true
      → (r.state ≡ failed) ⊎ (s ≡ failed)
      → Ends (IsFailed r) (set_state env packet (suc (suc fuel)) s r)
  unfolding set_state
  set_state-failed fuel s r ok p either =
      let (same, has, into, _) = on_leave-fields s r in
      let r1 = (on_leave env s r).1 in
      let (r', e, (f, kept, hp)) =
        enter-failed fuel (record r1 { state = failed }) ok refl (has ∙ p) in
      subst
        (λ t.
          Ends (IsFailed r)
            (on_enter env packet (set_state env packet (suc fuel)) t (record r1 { state = t })))
        (sym (into either)) (r', e, (f, kept ∙ same, hp ∙ has))

  pub set_error-failed :
      (fuel e : ℕ) (msg : List ℕ) (r : Router)
      → env.timer_ok ≡ true
      → r.haspacket ≡ true
      → r.state ≢ failed
      → Ends
          (λ r'. (r'.state ≡ failed) × (r'.error ≡ e) × (r'.haspacket ≡ r.haspacket))
          (set_error env packet (suc (suc fuel)) e msg r)
  unfolding set_error set_error_by
  set_error-failed fuel e msg r ok p live =
      let r1 = record r { error = e; errmsg = if env.message_ok then some msg else none } in
      let (r', d, f) = set_state-failed fuel failed r1 ok p (inr refl) in
      (r', ground (arith, live, d), f)

  -- What a packet interface makes of a router in BIND or UNBIND before it returns.
  react-Reached :
      (fuel : ℕ) (reply : Reply) (r : Router)
      → env.timer_ok ≡ true
      → r.haspacket ≡ true
      → (r.state ≡ bind) ⊎ (r.state ≡ unbind)
      → Ends
          (λ r'.
            (r'.state ≡ r.state)
            ⊎ ((r.state ≡ bind) × (r'.state ≡ listen))
            ⊎ (r'.state ≡ ended)
            ⊎ (r'.state ≡ failed))
          (react env (set_state env packet (suc (suc fuel))) reply r)
  unfolding react ready_by unready_by set_error_by set_state on_leave on_enter disarm call set_error
  react-Reached fuel later r ok p at = (r, refl, inl refl)
  react-Reached fuel ready r ok p (inl b) =
      let r1 = disarm (record r { statedeadline = env.now }) in
      (record r1 { state = listen; statedeadline = 0 }, ground (arith, b), inr (inl (b, refl)))
  react-Reached fuel ready r ok p (inr u) =
      let (r', d, f) = set_state-failed fuel failed r ok p (inr refl) in
      (r', ground (arith, u, d), inr (inr (inr (f.0))))
  react-Reached fuel (unready zero) r ok p at =
      let r1 = disarm (record r { statedeadline = env.now }) in
      (record r1 { state = ended }, ground (arith, at), inr (inr (inl refl)))
  react-Reached fuel (unready (suc n)) r ok p at =
      let (r', d, f) = set_error-failed fuel (suc n) [] r ok p (ground (arith, at)) in
      (r', ground (arith, d), inr (inr (inr (f.0))))
  react-Reached fuel (fails n msg) r ok p at =
      let (r', d, f) = set_error-failed fuel n msg r ok p (ground (arith, at)) in
      (r', d, inr (inr (inr (f.0))))

  -- Where a change to a state can end.
  abbrev pub Reached : State → State → Type 0
  Reached bind t = (t ≡ bind) ⊎ (t ≡ listen) ⊎ (t ≡ ended) ⊎ (t ≡ failed)
  Reached unbind t = (t ≡ unbind) ⊎ (t ≡ ended) ⊎ (t ≡ failed)
  Reached s t = t ≡ s

  enter-Reached :
      (fuel : ℕ) (s : State) (r : Router)
      → env.timer_ok ≡ true
      → r.haspacket ≡ true
      → r.state ≡ s
      → Ends
          (λ r'. Reached s r'.state)
          (on_enter env packet (set_state env packet (suc (suc fuel))) s r)
  unfolding on_enter call
  enter-Reached fuel start r ok p e = (r, refl, e)
  enter-Reached fuel bind r ok p e =
      let r0 = record r { statedeadline = u64 (env.now + r.timeout_bind) } in
      let a = arm-fields env r.timeout_bind r0 in
      let r1 = call packet_bind (arm env r.timeout_bind r0) in
      let (r', d, post) = react-Reached fuel (packet.bind r1) r1 ok (a.3 ∙ p) (inl (a.0 ∙ e)) in
      (r', needs_packet-eq r1 _ (a.3 ∙ p) ∙ d, ground (arith, post, a.0, e))
  enter-Reached fuel listen r ok p e = (_, refl, e)
  enter-Reached fuel close r ok p e =
      let r1 = record (call (close_connections r.timeout_close) r) {
        statedeadline = u64 (env.now + r.timeout_close);
      } in
      (arm env r.timeout_close r1, refl, (arm-fields env r.timeout_close r1).0 ∙ e)
  enter-Reached fuel unbind r ok p e =
      let r1 = call packet_unbind (call (close_connections 0) r) in
      let (r', d, post) = react-Reached fuel (packet.unbind r1) r1 ok p (inr e) in
      let r2 = record r' { statedeadline = u64 (env.now + r'.timeout_unbind) } in
      let a = arm-fields env r'.timeout_unbind r2 in
      (
        arm env r'.timeout_unbind r2,
        needs_packet-eq r1 _ p
            ∙ ap
                (λ m. and_then m λ r. done (
                  arm env r.timeout_unbind
                    (record r { statedeadline = u64 (env.now + r.timeout_unbind) })))
                d,
        ground (arith, post, a.0, e),
      )
  enter-Reached fuel ended r ok p e = (r, refl, e)
  enter-Reached fuel failed r ok p e =
      let (r', d, f) = enter-failed (suc fuel) r ok e p in (r', d, f.0)

  -- Where the timer wheel has memory and there is a packet interface, whatever that calls back, a change of
  -- state nests at most two others. It ends in ERROR, with the error as it was, if the router was in ERROR;
  -- else in the state asked for, or, from BIND, in LISTEN, END or ERROR, or, from UNBIND, in END or ERROR.
  pub set_state-Ends :
      (fuel : ℕ) (s : State) (r : Router)
      → env.timer_ok ≡ true
      → r.haspacket ≡ true
      → Ends
          (λ r'.
            ((r.state ≡ failed) × (r'.state ≡ failed) × (r'.error ≡ r.error))
            ⊎ ((r.state ≢ failed) × Reached s r'.state))
          (set_state env packet (suc (suc (suc fuel))) s r)
  unfolding set_state
  set_state-Ends fuel s r ok p = elim (failed_cases r.state) [
    | inl f ↦
        let (r', d, (g, kept, hp)) = set_state-failed (suc fuel) s r ok p (inl f) in
        (r', d, inl (f, g, kept))
    | inr live ↦
        let (_, has, _, into) = on_leave-fields s r in
        let r1 = (on_leave env s r).1 in
        let (r', d, at) = enter-Reached fuel s (record r1 { state = s }) ok (has ∙ p) refl in
        subst
          (λ t.
            Ends
              (λ r'.
                ((r.state ≡ failed) × (r'.state ≡ failed) × (r'.error ≡ r.error))
                ⊎ ((r.state ≢ failed) × Reached s r'.state))
              (on_enter env packet (set_state env packet (suc (suc fuel))) t
                (record r1 { state = t })))
          (sym (into live)) (r', d, inr (live, at))
  ]
