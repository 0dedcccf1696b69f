-- ===== src/Connection/Send/Defined.antt =====
-- src/conn.c: where `_tripc_send` has no undefined behaviour.
use mathlib.Core.Path.{subst}
use libtrp.Base.{
  ℕ, ◌-◌, ◌^◌, ◌≤◌, ◌<◌, ◌≡◌, refl, sym, ap, arith, Bool, true, false, ◌&&◌, Option, some, List,
  length, length-append, length-drop,
}
use libtrp.Pack.Format.{Sodium, IsSodium}
use libtrp.Pack.Encode.{Outcome, next, npos, fault}
use libtrp.Pack.Encode.Total.{trip_pack-Ends, Ends}
use libtrp.Connection.State.{
  State, start, resolve, open_sent, chal, pinging, ready, ready_ping, closing, ended, failed, Conn,
  Env, einval,
}
use libtrp.Connection.Timing.{next_seq}
use libtrp.Connection.Change.{set_error}
use libtrp.Connection.Change.Laws.{set_error-state}
use libtrp.Connection.Send.{
  open_sent_format, chal_sent_format, open_args, chal_args, send_open, send_chal, send, when_due,
  returned, sending_in_start, unknown_state,
}
use libtrp.Connection.Send.Laws.{Fits, open_args-accepts, chal_args-accepts}

-- A connection whose keys have the sizes that libsodium reads, or are NULL, where it sends them, and that has
-- no ping to send.
abbrev pub Sendable : Sodium → State → Conn → Type 0
Sendable sod open_sent c = Fits sod.nonce_bytes c.self.nonce × Fits sod.key_bytes c.self.pk
Sendable sod chal c = Fits sod.nonce_bytes c.self.nonce × Fits sod.key_bytes c.self.pk
Sendable sod pinging c = (c.hassend && c.ping.isactive) ≡ false
Sendable sod ready_ping c = (c.hassend && c.ping.isactive) ≡ false
Sendable sod _ c = Unit

abbrev pub IsSendable : Sodium → Conn → Type 0
IsSendable sod c = Sendable sod c.state c

-- A result that is defined: the buffer keeps its room, and the connection stays sendable.
abbrev pub Defined : Sodium → ℕ → Option (ℕ × List ℕ × Conn) → Type 0
Defined sod len r =
    (n : ℕ) × (out : List ℕ) × (c' : Conn) × (r ≡ some (n, out, c'))
    × (len ≤ length out)
    × IsSendable sod c'

when_due-Defined :
    (sod : Sodium) (len : ℕ) (buf : List ℕ) (c c' : Conn) (m : Outcome) (due : Bool)
    → len ≤ length buf
    → Ends buf len m
    → IsSendable sod c
    → IsSendable sod (record c' { hassend = false })
    → Defined sod len (when_due sod len buf due (m, c') c)
unfolding when_due returned Ends
when_due-Defined sod len buf c c' m false le h s s' = (_, _, _, refl, le, s)
when_due-Defined sod len buf c c' (next p) true le h s s' = (
  _,
  _,
  _,
  refl,
  omega (arith, h, le, length-append p.out p.rest, ap length h.2, length-drop p.size buf),
  s',
)
when_due-Defined sod len buf c c' (npos p) true le h s s' = (
  _,
  _,
  _,
  refl,
  omega (arith, h, le, length-append p.out p.rest, ap length h.1, length-drop (length p.out) buf),
  s',
)
when_due-Defined sod len buf c c' fault true le h s s' = absurd h

module _ (sod : Sodium) (env : Env) (len : ℕ) (buf : List ℕ) (laws : IsSodium sod)
    (le : len ≤ length buf) (small : len < 2 ^ 63) where
  as_it_is : (c : Conn) (st : State) → c.state ≡ st → Sendable sod st c → IsSendable sod c
  as_it_is c st e s = subst (λ t. Sendable sod t c) (sym e) s

  from :
      (c : Conn) (r : Option (ℕ × List ℕ × Conn))
      → send sod len buf env c ≡ r
      → Defined sod len r
      → Defined sod len (send sod len buf env c)
  from c r e d = subst (Defined sod len) (sym e) d

  in_state :
      (c : Conn) (st : State)
      → c.state ≡ st
      → Sendable sod st c
      → Defined sod len (send sod len buf env c)
  unfolding send send_open send_chal next_seq when_due
  in_state c start e s = (
    2 ^ 64 - 1,
    buf,
    set_error env c einval sending_in_start,
    ground (arith, e),
    le,
    as_it_is (set_error env c einval sending_in_start) failed
        (set_error-state env c einval sending_in_start) tt,
  )
  in_state c resolve e s = (0, buf, c, ground (arith, e), le, as_it_is c resolve e s)
  in_state c open_sent e s =
      let d = (next_seq c).1 in
      from c (when_due sod len buf c.hassend (send_open sod len buf c) c) (ground (arith, e)) (
        when_due-Defined sod len buf c d _ c.hassend le
          (trip_pack-Ends sod len buf open_sent_format (open_args c.self.sequence d) laws le small
            (open_args-accepts sod c.self.sequence d s.0 s.1))
          (as_it_is c open_sent e s) (as_it_is _ open_sent e s))
  in_state c chal e s =
      let d = (next_seq c).1 in
      from c (when_due sod len buf c.hassend (send_chal sod len buf c) c) (ground (arith, e)) (
        when_due-Defined sod len buf c d _ c.hassend le
          (trip_pack-Ends sod len buf chal_sent_format (chal_args c.self.sequence d) laws le small
            (chal_args-accepts sod c.self.sequence d s.0 s.1))
          (as_it_is c chal e s) (as_it_is _ chal e s))
  in_state c pinging e s = (0, buf, c, ground (arith, e, s), le, as_it_is c pinging e s)
  in_state c ready e s = (2 ^ 64 - 1, buf, c, ground (arith, e), le, as_it_is c ready e s)
  in_state c ready_ping e s = (0, buf, c, ground (arith, e, s), le, as_it_is c ready_ping e s)
  in_state c closing e s = (
    2 ^ 64 - 1,
    buf,
    set_error env c einval unknown_state,
    ground (arith, e),
    le,
    as_it_is (set_error env c einval unknown_state) failed
        (set_error-state env c einval unknown_state) tt,
  )
  in_state c ended e s = (2 ^ 64 - 1, buf, c, ground (arith, e), le, as_it_is c ended e s)
  in_state c failed e s = (2 ^ 64 - 1, buf, c, ground (arith, e), le, as_it_is c failed e s)

  -- On a sendable connection, and a buffer that has its length, sending is defined, and leaves both so.
  pub send-Defined : (c : Conn) → IsSendable sod c → Defined sod len (send sod len buf env c)
  send-Defined c s = in_state c c.state refl s
