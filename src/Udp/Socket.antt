-- ===== src/Udp/Socket.antt =====
-- src/packet.c: the UDP interface that a router is given by default. The system's calls are functions of
-- their arguments; a descriptor or an `errno` is a number.
pub mod Laws
mod Tests
use mathlib.Core.Option
use libtrp.Base.{
  ℕ, Bool, true, false, not, ◌&&◌, Option, none, some, List, [], ◌∷◌, ◌==◌, if◌then◌else◌,
}
use libtrp.Udp.{validate_info}
use libtrp.Router.State.{Reply, ready, unready, fails, Packet}

-- What is read of a `struct addrinfo`: whether its type is `SOCK_DGRAM` and its family `AF_INET`, its
-- protocol, and the address.
pub record Addr : Type 0 where
  pub datagram : Bool
  pub inet : Bool
  pub protocol : ℕ
  pub address : ℕ

-- `_trip_udp_context_t`; `info` is the string without its end.
pub record Context : Type 0 where
  pub info : List ℕ
  pub fd : ℕ

-- What the system answers: `getaddrinfo`, the protocol of UDP, NULL if it is not known, `socket` with a
-- descriptor or an `errno`, and the errors of `bind` and `close`, 0 for none.
pub data Socket : Type 0 where
  opened refused : ℕ → Socket

pub record Net : Type 0 where
  pub getaddrinfo : List ℕ → Option (List Addr)
  pub getprotobyname : Option ℕ
  pub socket : Addr → Socket
  pub bind : ℕ → Addr → ℕ
  pub close : ℕ → ℕ

abbrev pub einval : ℕ
einval = 22

-- A message that is not NULL; its text is left out.
abbrev pub some_text : List ℕ
some_text = 63 ∷ []

-- The loop on `servinfo`; the branches for IPv4 and IPv6 are alike.
unfoldable pub choose : ℕ → Option Addr → List Addr → Option Addr
choose protocol choice [] = choice
choose protocol choice (p ∷ ps) =
    let kept : Option Addr = elim choice [ none ↦ some p | some c ↦ some c ] in
    choose protocol
      (if p.datagram && p.protocol == protocol then (if p.inet then kept else kept) else choice) ps

-- What `_trip_udp_bind` leaves: what it calls back, the context, the descriptor that it watches for
-- `TRIP_IN`, and the one that it closes.
pub record Bound : Type 0 where
  pub reply : Reply
  pub context : Context
  pub watched : Option ℕ
  pub closed : Option ℕ

-- The end of `_trip_udp_bind`.
unfoldable pub report : ℕ → Option ℕ → Context → Bound
report error closed c =
    if error == 0
    then record { reply = ready; context = c; watched = some c.fd; closed = closed }
    else record { reply = fails error some_text; context = c; watched = none; closed = closed }

-- `_trip_udp_bind`
unfoldable pub udp_bind : Net → Context → Bound
unfolding choose report
udp_bind net c = elim (net.getaddrinfo c.info) [
  | none ↦ report einval none c
  | some servinfo ↦
      let protocol : ℕ = elim net.getprotobyname [ none ↦ 0 | some p ↦ p ] in
      elim (choose protocol none servinfo) [
        | none ↦ report einval none c
        | some choice ↦ elim (net.socket choice) [
          | refused errno ↦ report errno none c
          | opened s ↦
              let err = net.bind s choice in
              if err == 0 then report 0 none (record c { fd = s }) else report err (some s) c
        ]
      ]
]

-- `_trip_udp_unbind`: the descriptor that is closed, which is never negative, and what is called back.
unfoldable pub udp_unbind : Net → Context → ℕ × Reply
udp_unbind net c = (c.fd, unready (net.close c.fd))

-- The packet interface of a context.
abbrev pub interface : Net → Context → Packet
unfolding udp_bind udp_unbind
interface net c = record {
  bind = λ r. (udp_bind net c).reply;
  unbind = λ r. (udp_unbind net (udp_bind net c).context).1;
}

-- "42423"
abbrev pub default_port : List ℕ
default_port = b'4' ∷ b'2' ∷ b'4' ∷ b'2' ∷ b'3' ∷ []

-- The bytes of a string in front of its end.
abbrev pub text_of : List ℕ → List ℕ
text_of [] = []
text_of (c ∷ s) = if c == 0 then [] else c ∷ text_of s

-- `trip_packet_new_udp`: `info` is NULL or a string; the interface needs three blocks of memory. The outer
-- `none` is undefined behaviour, the inner one NULL.
unfoldable pub new_udp : Option (List ℕ) → Bool → Option (Option Context)
unfolding validate_info
new_udp none mem_ok = some (if mem_ok then some (record { info = default_port; fd = 0 }) else none)
new_udp (some info) mem_ok =
    Option.map
      (λ valid. if valid && mem_ok then some (record { info = text_of info; fd = 0 }) else none)
      (validate_info info)
