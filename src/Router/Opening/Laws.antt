-- ===== src/Router/Opening/Laws.antt =====
-- From the call of the user to the first packet, and what a refusal leaves.
use libtrp.Base.{
  ℕ, ◌+◌, ◌^◌, ◌<◌, ◌≡◌, ◌≢◌, ap, ◌∙◌, arith, true, false, ◌⊎◌, inl, inr, Option-cases, Option,
  none, some, ◌==◌, if◌then◌else◌,
}
use libtrp.Connection.State
use libtrp.Connection.State.{Conn, start, resolve, open_sent}
use libtrp.Connection.Timing.{disarm}
use libtrp.Connection.Change.{set_state, set_error, begin, resolved}
use libtrp.Connection.Change.Laws.{set_state-state}
use libtrp.Connmap
use libtrp.Resolveq
use libtrp.Resolveq.Laws
use libtrp.Resolveq.Laws.{IsPut, put-IsPut, pop-view, view}
use libtrp.Router.Hub.{init_conn, ids_of, put}
use libtrp.Router.Opening.{
  Opening, Memory, Opened, refused, opened, ebusy, enomem, named, fail, open_connection,
  start_opening, success, trip_resolve, on_success,
}

-- The place of an opened connection: its key, and its state before it starts.
pub record IsKept (h : ℕ) (o : Opening) : Type 0 where
  pub key : ℕ
  pub kept : o.keys h ≡ some key
  pub valid : Laws.IsValid o.queue
  pub mapped : view key o.queue ≡ some h
  pub fresh : (o.hub.conns h).state ≡ start
  pub outgoing : (o.hub.conns h).incoming ≡ false
  pub clean : (o.hub.conns h).error ≡ 0

-- What is left of a connection that was refused and freed: it has failed with the code that the user is told,
-- and its key is mapped to it.
pub record IsLost (e h : ℕ) (o : Opening) : Type 0 where
  pub key : ℕ
  pub kept : o.keys h ≡ some key
  pub valid : Laws.IsValid o.queue
  pub mapped : view key o.queue ≡ some h
  pub failed : (o.hub.conns h).state ≡ State.failed
  pub error : (o.hub.conns h).error ≡ e

-- The connection with its key and, if it has one, its id.
abbrev with_key : Opening → ℕ → ℕ → Resolveq.Resolveq → Connmap.Connmap → (ℕ → ℕ) → Opening
with_key o h k q m ids = record {
  hub = record (o.hub) { conn = m; conns = named (put o.hub.conns h (init_conn false)) ids h };
  queue = q;
  keys = λ g. if g == h then some k else o.keys g;
}

-- The rest of `trip_open_connection` once the connection has its key.
after_put :
    (env : State.Env) (mem : Memory) (o : Opening) (h k : ℕ) (q : Resolveq.Resolveq) (r : Opened)
    → Resolveq.put mem.slot_ok h o.queue ≡ some (some k, q)
    → mem.fresh ≡ some h
    → o.hub.flag.allow_out ≡ true
    → open_connection env mem o ≡ some r
    → (m : Connmap.Connmap) × (ids : ℕ → ℕ) × let o' = with_key o h k q m ids in
        (r ≡ refused ebusy (fail env h ebusy o'))
        ⊎ (r ≡ refused enomem (fail env h enomem o'))
        ⊎ (r ≡ opened h o')
unfolding open_connection
after_put env mem o h k q r p f a e =
    elim (Option-cases (
      Connmap.add mem.map_ok (Connmap.random mem.draws.0 mem.draws.1) h o.hub.conn
        (ids_of (put o.hub.conns h (init_conn false))))) [
          | inl n ↦ ground (arith, p, f, a, e, n)
          | inr ((code, m, ids), n) ↦ (m, ids, ground (arith, p, f, a, e, n))
        ]

module _ (env : State.Env) (o : Opening) (h k : ℕ) (q : Resolveq.Resolveq) (m : Connmap.Connmap)
    (ids : ℕ → ℕ) (valid : Laws.IsValid q) (mapped : view k q ≡ some h) where
  with_key-IsKept : IsKept h (with_key o h k q m ids)
  unfolding init_conn
  with_key-IsKept = record {
    key = k;
    kept = ground arith;
    valid = valid;
    mapped = mapped;
    fresh = ground arith;
    outgoing = ground arith;
    clean = ground arith;
  }

  fail-IsLost : (e : ℕ) → IsLost e h (fail env h e (with_key o h k q m ids))
  unfolding fail set_error set_state init_conn
  fail-IsLost e = record {
    key = k;
    kept = ground arith;
    valid = valid;
    mapped = mapped;
    failed = ground arith;
    error = ground arith;
  }

-- With outgoing connections permitted, memory for the connection and for its key, and a valid queue of less
-- than 2^31 - 1 slots, an opened connection has a key that is mapped to it, and is in START without error. One
-- that is refused for want of an id or of a timer has failed with EBUSY or ENOMEM and is freed, but it still
-- has a key that is mapped to it.
pub open_connection-IsKept :
    (env : State.Env) (mem : Memory) (o : Opening) (h : ℕ) (r : Opened)
    → Laws.IsValid o.queue
    → o.queue.len + 1 < 2 ^ 31
    → o.hub.flag.allow_out ≡ true
    → mem.fresh ≡ some h
    → mem.slot_ok ≡ true
    → open_connection env mem o ≡ some r
    → (o' : Opening) × (((r ≡ refused ebusy o') × IsLost ebusy h o')
        ⊎ ((r ≡ refused enomem o') × IsLost enomem h o')
        ⊎ ((r ≡ opened h o') × IsKept h o'))
open_connection-IsKept env mem o h r v small a f s e =
    elim (put-IsPut mem.slot_ok h o.queue v small) [
      | inl (poor, _) ↦ absurd (ground (arith, s, poor))
      | inr (k, q, p, w) ↦
          let (m, ids, which) = after_put env mem o h k q r p f a e in
          let at : view k q ≡ some h = w.views k ∙ ground arith in
          elim which [
            | inl busy ↦ (_, inl (busy, fail-IsLost env o h k q m ids w.valid at ebusy))
            | inr (inl poor) ↦
                (_, inr (inl (poor, fail-IsLost env o h k q m ids w.valid at enomem)))
            | inr (inr ok) ↦ (_, inr (inr (ok, with_key-IsKept env o h k q m ids w.valid at)))
          ]
    ]

set_state-sends :
    (env : State.Env) (c : Conn)
    → ((set_state env c open_sent).hassend ≡ true) × ((set_state env c open_sent).src ≡ c.src)
unfolding set_state
set_state-sends env c = ground arith

put_self : (conns : ℕ → Conn) (h : ℕ) (c : Conn) → put conns h c h ≡ c
put_self conns h c = ground arith

if_self : (k : ℕ) (o : Option ℕ) → (if k == k then none else o) ≡ none
if_self k o = ground arith

disarm-error : (c : Conn) → (disarm c).error ≡ c.error
unfolding disarm
disarm-error c = ground arith

begin-error : (env : State.Env) (c : Conn) → c.state ≡ start → (begin env c).error ≡ c.error
unfolding begin
begin-error env c e =
    ground (arith, e, set_state-state env c State.chal, set_state-state env c resolve)

-- An opened connection that has started, and whose key the packet interface answers with a source and no
-- error, with memory for a timer, is in OPEN without error, with a packet due for that source, and its key is
-- free again.
pub start_opening-trip_resolve :
    (env answer later : State.Env) (h src : ℕ) (o : Opening)
    → h ≢ 0
    → answer.timer_ok ≡ true
    → (kept : IsKept h o)
    → let (key, o1) = start_opening env h o in
      (key ≡ some (kept.key))
      × (o2 : Opening) × (trip_resolve answer key src 0 false o1 ≡ some (success h o2))
      × (((on_success later h o2).hub.conns h).state ≡ open_sent)
      × (((on_success later h o2).hub.conns h).hassend ≡ true)
      × (((on_success later h o2).hub.conns h).src ≡ src)
      × (((on_success later h o2).hub.conns h).error ≡ 0)
      × (view (kept.key) o2.queue ≡ none)
unfolding start_opening trip_resolve on_success resolved
start_opening-trip_resolve env answer later h src o live ok kept =
    let (q, p, v, views) = pop-view kept.key o.queue kept.valid in
    let c1 = begin env (o.hub.conns h) in
    let started = put o.hub.conns h c1 in
    let c = record (disarm (started h)) { src = src } in
    let o2 : Opening = record {
      hub = record (o.hub) { conns = put started h c };
      queue = q;
      keys = o.keys;
    } in
    let popped : Resolveq.pop (o.keys h) o.queue ≡ some (h, q) =
      ap (λ k. Resolveq.pop k o.queue) kept.kept
      ∙ (p ∙ ap (λ w. some (elim w as (λ _. ℕ) [ none ↦ 0 | some d ↦ d ], q)) kept.mapped) in
    let at : (on_success later h o2).hub.conns h ≡ set_state later c open_sent =
      put_self (put started h c) h (resolved later (put started h c h))
      ∙ ap (resolved later) (put_self started h c) in
    let field = set_state-state later c open_sent in
    let sends = set_state-sends later c in
    let unfailed : c.error ≡ 0 =
      disarm-error (started h)
      ∙ (ap (λ c. c.error) (put_self o.hub.conns h c1)
          ∙ (begin-error env (o.hub.conns h) kept.fresh ∙ kept.clean)) in
    (
      kept.kept,
      o2,
      ground (arith, popped, live, ok),
      ap (λ c. c.state) at ∙ field.0,
      ap (λ c. c.hassend) at ∙ sends.0,
      ap (λ c. c.src) at ∙ sends.1,
      ap (λ c. c.error) at ∙ (field.1 ∙ unfailed),
      views kept.key ∙ if_self kept.key _,
    )
