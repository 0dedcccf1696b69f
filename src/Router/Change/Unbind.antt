-- ===== src/Router/Change/Unbind.antt =====
-- What a packet interface that ends its unbind at once leaves behind.
use mathlib.Core.Path.{subst}
use libtrp.Base.{ℕ, suc, ◌+◌, ◌≡◌, ◌≢◌, refl, ◌∙◌, sym, arith, true, false, [], u64}
use libtrp.Router.State.{
  unbind, ended, failed, Router, Env, Packet, unready, packet_unbind, close_connections, done,
}
use libtrp.Router.Change.{
  call, arm, disarm, on_leave, unready_by, react, on_enter, set_state, set_error, on_timeout, etime,
}
use libtrp.Router.Change.Laws.{needs_packet-eq, arm-fields, on_leave-fields, set_error-failed}

module _ (env : Env) (packet : Packet) where
  abbrev unbound : Router → Router
  unbound r =
      let r2 = call packet_unbind (call (close_connections 0) r) in
      record (disarm (record r2 { statedeadline = env.now })) { state = ended }

  unbound-fields :
      (r : Router) → ((unbound r).state ≡ ended) × ((unbound r).haspacket ≡ r.haspacket)
  unfolding disarm call
  unbound-fields r = ground arith

  enter_unbind :
      (fuel : ℕ) (r : Router)
      → r.state ≡ unbind
      → r.haspacket ≡ true
      → ((q : Router) → packet.unbind q ≡ unready 0)
      → let r3 = unbound r in
        on_enter env packet (set_state env packet (suc fuel)) unbind r
        ≡ done (
            arm env r3.timeout_unbind
              (record r3 { statedeadline = u64 (env.now + r3.timeout_unbind) }))
  unfolding on_enter react unready_by set_state on_leave call
  enter_unbind fuel r e p replies =
      let r2 = call packet_unbind (call (close_connections 0) r) in
      needs_packet-eq r2 _ p ∙ ground (arith, e, replies r2)

  -- An interface that reports the end of its `unbind` before it returns leaves a timer behind that runs in
  -- END; when that fires, the router that had ended is in ERROR with ETIME.
  pub unbind_at_once :
      (fuel : ℕ) (r : Router)
      → env.timer_ok ≡ true
      → r.haspacket ≡ true
      → r.state ≢ failed
      → ((q : Router) → packet.unbind q ≡ unready 0)
      → (r' : Router) × (r'' : Router) × (set_state env packet (suc (suc (suc fuel))) unbind r
          ≡ done r')
        × (r'.state ≡ ended)
        × (r'.statetimer ≡ true)
        × (on_timeout env packet (suc (suc fuel)) r' ≡ done r'')
        × (r''.state ≡ failed)
        × (r''.error ≡ etime)
  unfolding set_state on_timeout set_error
  unbind_at_once fuel r ok p live replies =
      let (_, has, _, into) = on_leave-fields env packet unbind r in
      let r1 = record ((on_leave env unbind r).1) { state = unbind } in
      let r3 = unbound r1 in
      let f = unbound-fields r1 in
      let r4 = record r3 { statedeadline = u64 (env.now + r3.timeout_unbind) } in
      let a = arm-fields env r3.timeout_unbind r4 in
      let r5 = arm env r3.timeout_unbind r4 in
      let r6 = record r5 { statetimer = false } in
      let ended5 : r5.state ≡ ended = a.0 ∙ f.0 in
      let live5 : r5.state ≢ failed = ground (arith, ended5) in
      let (r7, d, g) =
        set_error-failed env packet fuel etime [] r6 ok (a.3 ∙ f.1 ∙ has ∙ p) live5 in
      let entered =
        subst
          (λ t.
            on_enter env packet (set_state env packet (suc (suc fuel))) t
              (record ((on_leave env unbind r).1) { state = t })
            ≡ done r5)
          (sym (into live)) (enter_unbind (suc fuel) r1 refl (has ∙ p) replies) in
      (r5, r7, entered, ended5, a.2 ∙ ok, ground (arith, live5, d), g.0, g.1)
