-- ===== src/Connection/Send/Laws.antt =====
-- The first packets of both sides stay inside the caller's buffer.
use libtrp.Base.{
  ℕ, ◌-◌, ◌^◌, ◌≤◌, ◌<◌, ◌≡◌, refl, sym, arith, true, false, ◌⊎◌, inl, inr, Option, none, some,
  List, length,
}
use mathlib.Core.Path.{subst}
use libtrp.Pack.Format.{Sodium, IsSodium}
use libtrp.Pack.Encode.{Outcome, next, npos, fault}
use libtrp.Pack.Encode.Total.{trip_pack-Ends, Ends, accepts}
use libtrp.Connection.State.{open_sent, chal, Conn, Env}
use libtrp.Connection.Timing.{next_seq}
use libtrp.Connection.Send.{
  open_sent_format, chal_sent_format, open_args, chal_args, send_open, send_chal, send, when_due,
  returned,
}

-- A key that is NULL, or has the bytes that are read through it.
abbrev pub Fits : ℕ → Option (List ℕ) → Type 0
Fits n none = Unit
Fits n (some k) = n ≤ length k

module _ (sod : Sodium) (seq : ℕ) (c : Conn) (fits_nonce : Fits sod.nonce_bytes c.self.nonce)
    (fits_pk : Fits sod.key_bytes c.self.pk) where
  pub open_args-accepts : accepts sod open_sent_format false (open_args seq c) ≡ true
  unfolding accepts
  open_args-accepts = ground arith

  pub chal_args-accepts : accepts sod chal_sent_format false (chal_args seq c) ≡ true
  unfolding accepts
  chal_args-accepts = ground arith

-- What a packet that is due comes to.
pub IsSent : ℕ → Conn → Option (ℕ × List ℕ × Conn) → Type 0
IsSent len c r =
    (n : ℕ) × (out : List ℕ) × (c' : Conn) × (r ≡ some (n, out, c'))
    × ((n ≤ len) ⊎ (n ≡ 2 ^ 64 - 1))
    × (c'.state ≡ c.state)
    × (c'.hassend ≡ false)

when_due-IsSent :
    (sod : Sodium) (len : ℕ) (buf : List ℕ) (c c' : Conn) (m : Outcome)
    → c'.state ≡ c.state
    → Ends buf len m
    → IsSent len c (when_due sod len buf true (m, c') c)
unfolding IsSent when_due returned Ends
when_due-IsSent sod len buf c c' (next p) same h = (_, _, _, refl, inl (h.1), same, refl)
when_due-IsSent sod len buf c c' (npos p) same h = (_, _, _, refl, inr refl, same, refl)
when_due-IsSent sod len buf c c' fault same h = elim h [ ]

-- In `OPEN` and in `CHAL`, with a packet due, a nonce and a key of the sizes that libsodium reads or
-- NULL, and a buffer of `len` bytes below 2^63, `_tripc_send` has no undefined behaviour: it returns at
-- most `len`, or NPOS, the state is kept and nothing is due any more.
pub send-IsSent :
    (sod : Sodium) (env : Env) (len : ℕ) (buf : List ℕ) (c : Conn)
    → IsSodium sod
    → len ≤ length buf
    → len < 2 ^ 63
    → Fits sod.nonce_bytes c.self.nonce
    → Fits sod.key_bytes c.self.pk
    → c.hassend ≡ true
    → (c.state ≡ open_sent) ⊎ (c.state ≡ chal)
    → IsSent len c (send sod len buf env c)
unfolding send send_open send_chal next_seq
send-IsSent sod env len buf c laws le small fn fk due (inl s) =
    let d = (next_seq c).1 in
    let e : send sod len buf env c ≡ when_due sod len buf true (send_open sod len buf c) c =
      ground (arith, s, due) in
    subst (IsSent len c) (sym e) (
      when_due-IsSent sod len buf c d _ refl (
        trip_pack-Ends sod len buf open_sent_format (open_args c.self.sequence d) laws le small
          (open_args-accepts sod c.self.sequence d fn fk)))
send-IsSent sod env len buf c laws le small fn fk due (inr s) =
    let d = (next_seq c).1 in
    let e : send sod len buf env c ≡ when_due sod len buf true (send_chal sod len buf c) c =
      ground (arith, s, due) in
    subst (IsSent len c) (sym e) (
      when_due-IsSent sod len buf c d _ refl (
        trip_pack-Ends sod len buf chal_sent_format (chal_args c.self.sequence d) laws le small
          (chal_args-accepts sod c.self.sequence d fn fk)))
