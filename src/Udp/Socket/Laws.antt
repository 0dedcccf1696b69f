-- ===== src/Udp/Socket/Laws.antt =====
-- What starting a router makes of the answers of the system to its UDP interface.
use native.Mathlib.Decide.{ℕ_discrete}
use libtrp.Base.{
  ℕ, suc, ◌+◌, ◌≡◌, ◌≢◌, refl, ap, ◌∙◌, arith, Bool, true, ◌&&◌, ◌⊎◌, inl, inr, Option-cases,
  Option, none, some, List, [], ◌∷◌, u64, ◌==◌, if◌then◌else◌,
}
use libtrp.Router.State.{start, bind, listen, failed, Router, Env, ready, fails, packet_bind, done}
use libtrp.Router.Change.{
  call, arm, disarm, on_leave, ready_by, react, on_enter, set_state, set_error,
}
use libtrp.Router.Change.Laws.{Ends, arm-fields, needs_packet-eq, set_error-failed}
use libtrp.Udp.Socket.{
  Addr, Context, Socket, opened, refused, Net, einval, some_text, choose, Bound, report, udp_bind,
  interface,
}

-- The first element that passes a test.
abbrev pub first_of : (Addr → Bool) → List Addr → Option Addr
first_of test [] = none
first_of test (p ∷ ps) = if test p then some p else first_of test ps

-- A datagram address of the protocol.
abbrev pub is_udp : Net → Addr → Bool
is_udp net a = a.datagram && a.protocol == elim net.getprotobyname [ none ↦ 0 | some p ↦ p ]

choose-kept : (protocol : ℕ) (c : Addr) (l : List Addr) → choose protocol (some c) l ≡ some c
unfolding choose
choose-kept protocol c [] = refl
choose-kept protocol c (p ∷ ps) = ground (arith, choose-kept protocol c ps)

choose-first_of :
    (net : Net) (l : List Addr)
    → choose (elim net.getprotobyname [ none ↦ 0 | some p ↦ p ]) none l ≡ first_of (is_udp net) l
unfolding choose
choose-first_of net [] = refl
choose-first_of net (p ∷ ps) = ground (
  arith,
  choose-first_of net ps,
  choose-kept (elim net.getprotobyname [ none ↦ 0 | some p ↦ p ]) p ps,
)

-- The system serves a descriptor that is bound to the first address of the kind.
pub record Serves (net : Net) (c : Context) (fd : ℕ) : Type 0 where
  pub servinfo : List Addr
  pub choice : Addr
  pub known : net.getaddrinfo c.info ≡ some servinfo
  pub chosen : first_of (is_udp net) servinfo ≡ some choice
  pub socket : net.socket choice ≡ opened fd
  pub bound : net.bind fd choice ≡ 0

-- Where it fails, with which error, and the descriptor that is closed.
pub data Fails (net : Net) (c : Context) : ℕ → Option ℕ → Type 0 where
  no_info : net.getaddrinfo c.info ≡ none → Fails net c einval none
  no_addr :
      (servinfo : List Addr)
      → net.getaddrinfo c.info ≡ some servinfo
      → first_of (is_udp net) servinfo ≡ none
      → Fails net c einval none
  no_socket :
      (servinfo : List Addr) (choice : Addr) (errno : ℕ)
      → net.getaddrinfo c.info ≡ some servinfo
      → first_of (is_udp net) servinfo ≡ some choice
      → net.socket choice ≡ refused errno
      → Fails net c errno none
  no_bind :
      (servinfo : List Addr) (choice : Addr) (fd errno : ℕ)
      → net.getaddrinfo c.info ≡ some servinfo
      → first_of (is_udp net) servinfo ≡ some choice
      → net.socket choice ≡ opened fd
      → net.bind fd choice ≡ errno
      → Fails net c errno (some fd)

abbrev pub listening : Context → ℕ → Bound
listening c fd = record {
  reply = ready;
  context = record c { fd = fd };
  watched = some fd;
  closed = none;
}

abbrev pub failing : Context → ℕ → Option ℕ → Bound
failing c error closed = record {
  reply = fails error some_text;
  context = c;
  watched = none;
  closed = closed;
}

Socket-cases : (s : Socket) → ((fd : ℕ) × (s ≡ opened fd)) ⊎ ((e : ℕ) × (s ≡ refused e))
Socket-cases (opened fd) = inl (fd, refl)
Socket-cases (refused e) = inr (e, refl)

disarm-error : (r : Router) → (disarm r).error ≡ r.error
unfolding disarm call
disarm-error r = ground arith

module _ (net : Net) (c : Context) (errs : (a : Addr) → net.socket a ≢ refused 0) where
  -- Which it is.
  abbrev BoundTo : Bound → Type 0
  BoundTo b =
      ((fd : ℕ) × Serves net c fd × (b ≡ listening c fd))
      ⊎ ((e : ℕ) × (closed : Option ℕ) × Fails net c e closed × (e ≢ 0) × (b ≡ failing c e closed))

  udp_bind-cases : BoundTo (udp_bind net c)
  unfolding udp_bind report
  udp_bind-cases = elim (Option-cases (net.getaddrinfo c.info)) [
    | inl n ↦ inr (einval, none, no_info n, ground arith, ground (arith, n))
    | inr (servinfo, known) ↦
        let picks = choose-first_of net servinfo in
        elim (Option-cases (first_of (is_udp net) servinfo)) [
          | inl n ↦ inr (
            einval,
            none,
            no_addr servinfo known n,
            ground arith,
            ground (arith, known, picks, n),
          )
          | inr (choice, chosen) ↦ elim (Socket-cases (net.socket choice)) [
            | inr (e, lost) ↦
                let bad : e ≢ 0 = λ z. errs choice (lost ∙ ap refused z) in
                inr (
                  e,
                  none,
                  no_socket servinfo choice e known chosen lost,
                  bad,
                  ground (arith, known, picks, chosen, lost, bad),
                )
            | inl (s, got) ↦ elim (ℕ_discrete (net.bind s choice) 0) [
              | yes ok ↦ inl (
                s,
                record {
                  servinfo = servinfo;
                  choice = choice;
                  known = known;
                  chosen = chosen;
                  socket = got;
                  bound = ok;
                },
                ground (arith, known, picks, chosen, got, ok),
              )
              | no bad ↦ inr (
                net.bind s choice,
                some s,
                no_bind servinfo choice s (net.bind s choice) known chosen got refl,
                bad,
                ground (arith, known, picks, chosen, got, bad),
              )
            ]
          ]
        ]
  ]

  module _ (env : Env) (fuel : ℕ) (r : Router) (ok : env.timer_ok ≡ true) (p : r.haspacket ≡ true)
      (at_start : r.state ≡ start) where
    -- The router in BIND as the packet interface is asked.
    abbrev asked : Router
    asked =
        let r0 = record (record r { state = bind }) {
          statedeadline = u64 (env.now + r.timeout_bind);
        } in
        call packet_bind (arm env r.timeout_bind r0)

    asked-fields : (asked.state ≡ bind) × (asked.haspacket ≡ true) × (asked.error ≡ r.error)
    unfolding call
    asked-fields =
        let r0 = record (record r { state = bind }) {
          statedeadline = u64 (env.now + r.timeout_bind);
        } in
        let a = arm-fields env r.timeout_bind r0 in (a.0, a.3 ∙ p, a.1)

    starts :
        set_state env (interface net c) (suc (suc (suc fuel))) bind r
        ≡ react env (set_state env (interface net c) (suc (suc fuel))) (udp_bind net c).reply asked
    unfolding set_state on_leave on_enter interface
    starts =
        ground (arith, at_start)
        ∙ needs_packet-eq asked
            (react env (set_state env (interface net c) (suc (suc fuel))) (udp_bind net c).reply
              asked)
            asked-fields.1

    replies-ready :
        Ends
          (λ r'. (r'.state ≡ listen) × (r'.error ≡ r.error))
          (react env (set_state env (interface net c) (suc (suc fuel))) ready asked)
    unfolding react ready_by set_state on_leave on_enter disarm call arm
    replies-ready =
        let left = disarm (record asked { statedeadline = env.now }) in
        (
          record left { state = listen; statedeadline = 0 },
          ground (arith, asked-fields.0),
          (refl, disarm-error (record asked { statedeadline = env.now }) ∙ asked-fields.2),
        )

    replies-fails :
        (e : ℕ)
        → Ends
            (λ r'. (r'.state ≡ failed) × (r'.error ≡ e))
            (react env (set_state env (interface net c) (suc (suc fuel))) (fails e some_text) asked)
    unfolding react set_error
    replies-fails e =
        let (r', d, f) =
          set_error-failed env (interface net c) fuel e some_text asked ok asked-fields.1
            (ground (arith, asked-fields.0)) in
        (r', d, (f.0, f.1))

    -- A router in START with this packet interface and memory for timers, that is asked to bind, where a
    -- failing `socket` has an `errno` other than 0: either the first datagram address of the protocol that
    -- the system gives for the port gets a socket and is bound, and the router is in LISTEN without a new
    -- error, with that descriptor kept and watched; or the router is in ERROR with the error of the call that
    -- failed, nothing is watched, and a socket that could not be bound is closed.
    pub set_state-udp_bind :
        (r' : Router) × (set_state env (interface net c) (suc (suc (suc fuel))) bind r ≡ done r')
        × (((fd : ℕ) × Serves net c fd
              × (udp_bind net c ≡ listening c fd)
              × (r'.state ≡ listen)
              × (r'.error ≡ r.error))
            ⊎ ((e : ℕ) × (closed : Option ℕ) × Fails net c e closed
                × (udp_bind net c ≡ failing c e closed)
                × (r'.state ≡ failed)
                × (r'.error ≡ e)))
    set_state-udp_bind = elim udp_bind-cases [
      | inl (fd, serves, b) ↦
          let (r', d, f) = replies-ready in
          (
            r',
            starts
                ∙ ap
                    (λ b.
                      react env (set_state env (interface net c) (suc (suc fuel))) b.reply asked)
                    b
                ∙ d,
            inl (fd, serves, b, f.0, f.1),
          )
      | inr (e, closed, why, bad, b) ↦
          let (r', d, f) = replies-fails e in
          (
            r',
            starts
                ∙ ap
                    (λ b.
                      react env (set_state env (interface net c) (suc (suc fuel))) b.reply asked)
                    b
                ∙ d,
            inr (e, closed, why, b, f.0, f.1),
          )
    ]
