-- ===== src/Router/Action/Laws.antt =====
-- Which states an action takes a router to.
use libtrp.Base.{
  ℕ, suc, ◌≡◌, ◌≢◌, refl, sym, ap, ◌∙◌, arith, Bool, true, false, ◌⊎◌, inl, inr, Bool-cases,
  Option-cases, [], ltb, leb, if◌then◌else◌,
}
use libtrp.Poll.{triptime_timeout}
use libtrp.Router.State.{State, start, bind, listen, close, unbind, ended, failed, Router, and_then}
use libtrp.Router.Change.{arm, etime}
use libtrp.Router.Change.Laws.{Ends, Reached, arm-fields, set_state-Ends, set_error-failed}
use libtrp.Router.Setup.{packet, setopt, has_required, einval}
use libtrp.Router.Action.{Outside, some_text, fail, on_start, on_bind, hear, at_deadline, dispatch}

-- Where one step of `trip_action` can take a state.
abbrev pub Moves : State → State → Type 0
Moves start t = (t ≡ bind) ⊎ (t ≡ listen) ⊎ (t ≡ ended) ⊎ (t ≡ failed)
Moves bind t = (t ≡ bind) ⊎ (t ≡ failed)
Moves listen t = (t ≡ listen) ⊎ (t ≡ failed)
Moves close t = (t ≡ close) ⊎ (t ≡ unbind) ⊎ (t ≡ ended) ⊎ (t ≡ failed)
Moves unbind t = (t ≡ unbind) ⊎ (t ≡ ended)
Moves ended t = t ≡ ended
Moves failed t = t ≡ failed

module _ (out : Outside) (fuel : ℕ) (ok : out.env.timer_ok ≡ true) where
  fail-Ends :
      (e : ℕ) (r : Router)
      → r.haspacket ≡ true
      → r.state ≢ failed
      → Ends (λ r'. r'.state ≡ failed) (fail out (suc (suc (suc fuel))) e r)
  unfolding fail
  fail-Ends e r p live =
      let (r', d, f) = set_error-failed out.env out.packet (suc fuel) e some_text r ok p live in
      (r', d, f.0)

  hear-Ends :
      (r : Router)
      → r.haspacket ≡ true
      → r.state ≢ failed
      → Ends
          (λ r'. ((r' ≡ r) ⊎ (r'.state ≡ failed)) × (r'.haspacket ≡ true))
          (hear out (suc (suc (suc fuel))) r)
  unfolding hear
  hear-Ends r p live = elim (Option-cases out.heard) [
    | inl e ↦ (r, ground (arith, e), (inl refl, p))
    | inr (x, e) ↦
        let (r', d, f) = set_error-failed out.env out.packet (suc fuel) x [] r ok p live in
        (r', ground (arith, e, d), (inr (f.0), f.2 ∙ p))
  ]

  at_deadline-Ends :
      (s : State) (r : Router)
      → r.haspacket ≡ true
      → Ends
          (λ r'.
            (r'.state ≡ r.state) ⊎ ((r.state ≢ failed) × Reached out.env out.packet s r'.state))
          (at_deadline out (suc (suc (suc fuel))) s r)
  unfolding at_deadline
  at_deadline-Ends s r p = elim (Bool-cases (leb r.statedeadline out.env.now)) [
    | inr early ↦ (r, ground (arith, early), inl refl)
    | inl late ↦
        let (r', d, at) = set_state-Ends out.env out.packet fuel s r ok p in
        (
          r',
          ground (arith, late, d),
          elim at [ inl (f, g, kept) ↦ inl (g ∙ sym f) | inr there ↦ inr there ],
        )
  ]

  on_bind-Ends :
      (r : Router)
      → r.haspacket ≡ true
      → r.state ≡ bind
      → Ends (λ r'. Moves bind r'.state) (on_bind out (suc (suc (suc fuel))) r)
  unfolding on_bind
  on_bind-Ends r p e = elim (Bool-cases (ltb r.statedeadline out.env.now)) [
    | inl late ↦
        let (r', d, f) = fail-Ends etime r p (ground (arith, e)) in
        (r', ground (arith, late, d), inr f)
    | inr early ↦
        let ms = triptime_timeout r.statedeadline out.env.now in
        (arm out.env ms r, ground (arith, early), inl ((arm-fields out.env ms r).0 ∙ e))
  ]

  -- The router of `START` with the default packet interface where it had none.
  abbrev filled : Router → Router
  filled r = if r.haspacket then r else (setopt out.env (packet false) r).1

  filled-fields :
      (r : Router)
      → (r.haspacket ≡ true) ⊎ (out.env.packet_ok ≡ true)
      → ((filled r).haspacket ≡ true) × ((filled r).state ≡ r.state)
  unfolding setopt
  filled-fields r p = ground (arith, p)

  on_start-Ends :
      (r : Router)
      → (r.haspacket ≡ true) ⊎ (out.env.packet_ok ≡ true)
      → r.state ≡ start
      → Ends (λ r'. Moves start r'.state) (on_start out (suc (suc (suc fuel))) r)
  unfolding on_start
  on_start-Ends r p e =
      let (q, same) = filled-fields r p in
      let r0 = record (filled r) { attached = true } in
      elim (Bool-cases (has_required (filled r))) [
        | inr missing ↦
            let (r', d, f) = fail-Ends einval (filled r) q (ground (arith, same, e)) in
            (r', ground (arith, q, missing, d), inr (inr (inr f)))
        | inl there ↦
            let (r', d, at) = set_state-Ends out.env out.packet fuel bind r0 ok q in
            (r', ground (arith, q, there, d), ground (arith, at, same, e))
      ]

  close-Ends :
      (r : Router)
      → r.haspacket ≡ true
      → r.state ≡ close
      → Ends
          (λ r'. Moves close r'.state)
          (and_then
            (hear out (suc (suc (suc fuel))) r)
            (at_deadline out (suc (suc (suc fuel))) unbind))
  close-Ends r p e =
      let (r1, d, (post, q)) = hear-Ends r p (ground (arith, e)) in
      let (r2, g, at) = at_deadline-Ends unbind r1 q in
      (
        r2,
        ap (λ m. and_then m (at_deadline out (suc (suc (suc fuel))) unbind)) d ∙ g,
        ground (arith, at, ap (λ r. r.state) {x = r1} {y = r}, post, e),
      )

  -- Where the timer wheel has memory and the router has a packet interface, or is in START with memory for
  -- the default one, an action, after the due timers, ends whatever the packet interface calls back, and
  -- takes the router along an edge of the table: START to BIND, LISTEN, END or ERROR; BIND, LISTEN and CLOSE
  -- to themselves or ERROR, CLOSE also to UNBIND or END; UNBIND to itself or END; END and ERROR to
  -- themselves.
  pub dispatch-Moves :
      (timed : Bool) (r : Router)
      → (r.haspacket ≡ true) ⊎ ((r.state ≡ start) × (timed ≡ true) × (out.env.packet_ok ≡ true))
      → Ends (λ r'. Moves r.state r'.state) (dispatch out (suc (suc (suc fuel))) timed r)
  unfolding dispatch
  dispatch-Moves timed r p = at_state r.state refl
    where
      at_state :
          (s : State)
          → r.state ≡ s
          → Ends (λ r'. Moves r.state r'.state) (dispatch out (suc (suc (suc fuel))) timed r)
      at_state ended e = (r, ground (arith, e), ground (arith, e))
      at_state failed e = (r, ground (arith, e), ground (arith, e))
      at_state unbind e =
          let (r', d, at) = at_deadline-Ends ended r (ground (arith, p, e)) in
          (r', ground (arith, e, d), ground (arith, at, e))
      at_state close e =
          let (r', d, at) = close-Ends r (ground (arith, p, e)) e in
          (r', ground (arith, e, d), ground (arith, at, e))
      at_state listen e =
          let (r', d, (post, q)) = hear-Ends r (ground (arith, p, e)) (ground (arith, e)) in
          (r', ground (arith, e, d), ground (arith, ap (λ r. r.state) {x = r'} {y = r}, post, e))
      at_state bind e = elim (Bool-cases timed) [
        | inl t ↦
            let (r', d, at) = on_bind-Ends r (ground (arith, p, e)) e in
            (r', ground (arith, e, t, d), ground (arith, at, e))
        | inr u ↦
            let (r', d, f) = fail-Ends einval r (ground (arith, p, e)) (ground (arith, e)) in
            (r', ground (arith, e, u, d), ground (arith, f, e))
      ]
      at_state start e = elim (Bool-cases timed) [
        | inl t ↦
            let (r', d, at) = on_start-Ends r (ground (arith, p)) e in
            (r', ground (arith, e, t, d), ground (arith, at, e))
        | inr u ↦
            let (r', d, f) = fail-Ends einval r (ground (arith, p, u)) (ground (arith, e)) in
            (r', ground (arith, e, u, d), ground (arith, f, e))
      ]
