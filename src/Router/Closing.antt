-- ===== src/Router/Closing.antt =====
-- src/trip.c: how connections are closed, one or all; `tripc_close` does nothing yet. Freed connections are
-- listed.
mod Laws
pub mod Gone
mod Tests
use mathlib.Core.Option
use libtrp.Base.{ℕ, zero, suc, ◌+◌, false, Option, none, some, List, [], ◌∷◌, ◌==◌, if◌then◌else◌}
use libtrp.Connection.State
use libtrp.Connection.State.{Conn, etime}
use libtrp.Connection.Timing.{disarm}
use libtrp.Connection.Change.{set_error}
use libtrp.Sendq
use libtrp.Sendq.{Sendq}
use libtrp.Streammap
use libtrp.Streammap.{Streammap}
use libtrp.Resolveq
use libtrp.Resolveq.{Resolveq}
use libtrp.Router.Hub.{put}
use libtrp.Connmap
use libtrp.Connmap.{Connmap, Ids, iter_get, iter_end, clear}

-- What keeps connections, by their handles: the map and their ids, the send queue, their own states, their
-- streams, and the resolve queue with the `resolvekey` of each.
pub record Holdings : Type 0 where
  pub map : Connmap
  pub ids : Ids
  pub sendq : Sendq
  pub conns : ℕ → Conn
  pub streams : ℕ → Streammap
  pub queue : Resolveq
  pub keys : ℕ → Option ℕ

-- `_tripc_destroy`, on fuel for the send queue.
unfoldable pub destroy : ℕ → ℕ → Holdings → Option Holdings
unfolding disarm
destroy fuel c s =
    Option.map
      (λ sendq. record s {
        sendq = sendq;
        conns = put s.conns c (record (disarm (s.conns c)) { errmsg = none });
        streams = λ d. if d == c then Streammap.destroy (s.streams c) else s.streams d;
      })
      (Sendq.del fuel c s.sendq)

-- `_trip_close_connection`, after the user was told. `none` is undefined behaviour, or too little fuel.
unfoldable pub close_connection : ℕ → ℕ → Holdings → Option Holdings
unfolding destroy
close_connection fuel c s = elim (Connmap.del (s.ids c) s.map s.ids) [
  | none ↦ none
  | some (found, map) ↦ destroy fuel c (record s { map = map })
]

-- `_tripc_timeout_state_resolve_cb`
unfoldable pub resolve_timeout : State.Env → ℕ → ℕ → Holdings → Option Holdings
unfolding close_connection set_error
resolve_timeout env fuel c s = elim (Resolveq.del (s.keys c) s.queue) [
  | none ↦ none
  | some queue ↦
      let conn = set_error env (record (s.conns c) { statetimer = false }) etime [] in
      close_connection fuel c (record s { queue = queue; conns = put s.conns c conn })
]

-- The loop of `_trip_close` from slot `i` on, with `n` slots left: what it frees.
unfoldable pub close_from : ℕ → ℕ → ℕ → Connmap → Option (List ℕ)
unfolding iter_get
close_from zero i grace m = some []
close_from (suc n) i grace m =
    let rest = close_from n (i + 1) grace m in
    elim (iter_get i m) [
      | none ↦ none
      | some none ↦ rest
      | some (some c) ↦ if grace == 0 then Option.map (λ l. c ∷ l) rest else rest
    ]

-- `_trip_close`
unfoldable pub close_all : ℕ → Connmap → Option (List ℕ × Connmap)
unfolding close_from iter_end clear
close_all grace m = Option.map (λ freed. (freed, clear m)) (close_from (iter_end m) 0 grace m)
