-- ===== src/Router/Action/Leak.antt =====
-- The timers of a router that is acted on while it binds.
use libtrp.Base.{ℕ, suc, ◌+◌, ◌≤◌, ◌≡◌, refl, ◌∙◌, arith, true, false, List, [], ◌∷◌, ◌++◌}
use libtrp.Poll.{triptime_timeout}
use libtrp.Router.State.{
  bind, listen, failed, Router, Env, done, Call, set_timeout, cancel_timeout, wait, router_cb,
  stop_cb, send_immediately_cb, packet_bind, packet_unbind, close_connections,
}
use libtrp.Router.Change.{
  call, set_state, set_error, add_timeout, arm, disarm, on_leave, on_enter, ready_by, on_timeout,
  etime,
}
use libtrp.Router.Change.Laws.{set_error-failed}
use libtrp.Router.Action.{Outside, on_bind, dispatch}

-- The timers of the router's states that were added, and those that were canceled.
abbrev pub armed : List Call → ℕ
armed [] = 0
armed (set_timeout ms router_cb ∷ cs) = suc (armed cs)
armed (_ ∷ cs) = armed cs

abbrev pub canceled : List Call → ℕ
canceled [] = 0
canceled (cancel_timeout ∷ cs) = suc (canceled cs)
canceled (_ ∷ cs) = canceled cs

armed-append : (xs ys : List Call) → armed (xs ++ ys) ≡ armed xs + armed ys
armed-append [] ys = omega arith
armed-append (set_timeout ms router_cb ∷ xs) ys = omega (arith, armed-append xs ys)
armed-append (set_timeout ms send_immediately_cb ∷ xs) ys = armed-append xs ys
armed-append (set_timeout ms stop_cb ∷ xs) ys = armed-append xs ys
armed-append (cancel_timeout ∷ xs) ys = armed-append xs ys
armed-append (wait ms ∷ xs) ys = armed-append xs ys
armed-append (packet_bind ∷ xs) ys = armed-append xs ys
armed-append (packet_unbind ∷ xs) ys = armed-append xs ys
armed-append (close_connections ms ∷ xs) ys = armed-append xs ys

canceled-append : (xs ys : List Call) → canceled (xs ++ ys) ≡ canceled xs + canceled ys
canceled-append [] ys = omega arith
canceled-append (set_timeout ms cb ∷ xs) ys = canceled-append xs ys
canceled-append (cancel_timeout ∷ xs) ys = omega (arith, canceled-append xs ys)
canceled-append (wait ms ∷ xs) ys = canceled-append xs ys
canceled-append (packet_bind ∷ xs) ys = canceled-append xs ys
canceled-append (packet_unbind ∷ xs) ys = canceled-append xs ys
canceled-append (close_connections ms ∷ xs) ys = canceled-append xs ys

arm-counts :
    (env : Env) (ms : ℕ) (r : Router)
    → env.timer_ok ≡ true
    → let r' = arm env ms r in
      (armed r'.calls ≡ armed r.calls + 1)
      × (canceled r'.calls ≡ canceled r.calls)
      × (r'.state ≡ r.state)
      × (r'.statetimer ≡ true)
      × (r'.haspacket ≡ r.haspacket)
unfolding arm add_timeout call
arm-counts env ms r ok =
    let cs = r.calls ++ set_timeout ms router_cb ∷ [] in
    ground (
      arith,
      ok,
      armed-append r.calls (set_timeout ms router_cb ∷ []),
      canceled-append r.calls (set_timeout ms router_cb ∷ []),
      armed-append cs (wait ms ∷ []),
      canceled-append cs (wait ms ∷ []),
    )

disarm-counts :
    (r : Router)
    → r.statetimer ≡ true
    → let r' = disarm r in
      (armed r'.calls ≡ armed r.calls)
      × (canceled r'.calls ≡ canceled r.calls + 1)
      × (r'.statetimer ≡ false)
      × (r'.haspacket ≡ r.haspacket)
unfolding disarm call
disarm-counts r t = ground (
  arith,
  t,
  armed-append r.calls (cancel_timeout ∷ []),
  canceled-append r.calls (cancel_timeout ∷ []),
)

module _ (out : Outside) (fuel : ℕ) (ok : out.env.timer_ok ≡ true) where
  -- A router in BIND with its one timer running, a packet interface and memory for timers, that is acted on
  -- before its deadline: a second timer is added. When the packet interface is ready the router is in LISTEN
  -- and keeps no timer, but one still runs, and when that fires, the router is in ERROR with ETIME.
  pub bind_again :
      (r : Router)
      → r.state ≡ bind
      → r.haspacket ≡ true
      → r.statetimer ≡ true
      → out.env.now ≤ r.statedeadline
      → armed r.calls ≡ canceled r.calls + 1
      → (r1 : Router) × (r2 : Router) × (r3 : Router) × (dispatch out (suc (suc fuel)) true r
          ≡ done r1)
        × (ready_by out.env (set_state out.env out.packet (suc (suc fuel))) r1 ≡ done r2)
        × (r2.state ≡ listen)
        × (r2.statetimer ≡ false)
        × (armed r2.calls ≡ canceled r2.calls + 1)
        × (on_timeout out.env out.packet (suc (suc fuel)) r2 ≡ done r3)
        × (r3.state ≡ failed)
        × (r3.error ≡ etime)
  unfolding dispatch on_bind ready_by set_state on_leave on_enter on_timeout set_error
  bind_again r e p t early one =
      let ms = triptime_timeout r.statedeadline out.env.now in
      let r1 = arm out.env ms r in
      let a = arm-counts out.env ms r ok in
      let r1' = record r1 { statedeadline = out.env.now } in
      let d = disarm-counts r1' a.3 in
      let r2 = record (disarm r1') { state = listen; statedeadline = 0 } in
      let r2' = record r2 { statetimer = false } in
      let (r3, g, f) =
        set_error-failed out.env out.packet fuel etime [] r2' ok (d.3 ∙ (a.4 ∙ p)) (ground arith) in
      (
        r1,
        r2,
        r3,
        ground (arith, e, early),
        ground (arith, a.2, e),
        refl,
        d.2,
        omega (arith, a.0, a.1, d.0, d.1, one),
        ground (arith, g),
        f.0,
        f.1,
      )
