-- ===== src/Messages/Tests.antt =====
-- Messages in the two queues of a connection and in a stream.
use libtrp.Base.{
  ℕ, ◌^◌, ◌≡◌, ◌≢◌, ◌≤◌, ◌<◌, ◌↔◌, refl, arith, true, ◌⊎◌, Option, none, some, List, [], ◌∷◌,
  bit_and, ◌==◌, if◌then◌else◌,
}
use libtrp.Linked.{Next, Ends}
use libtrp.Linked.Laws.{Links, IsList, link, done}
use libtrp.Messages.{
  Messageq, Stream, priority, queue, other, send_clear, send_pick, send, is_bad, priority_of,
}
use libtrp.Messages.Pick.{picks, send_pick-whenever}
use libtrp.Messages.Queues.{AreQueues, send_clear-AreQueues}
use libtrp.Messages.Sending.{send_codes, send_cuts}

-- Message 1 before message 2.
abbrev nx : Next
nx m = if m == 1 then some 2 else none

abbrev pair : Ends
pair = record { head = some 1; tail = some 2 }

abbrev waiting : Messageq
waiting = record {
  sendmask = 1;
  sendwhich = 0;
  first = pair;
  second = record { head = some 7; tail = some 7 };
}

abbrev both : List ℕ
both = 1 ∷ 2 ∷ []

abbrev fresh : Option ℕ
fresh = some 3

pair-Links : Links nx (some 1) (1 ∷ 2 ∷ [])
pair-Links = link 1 (2 ∷ []) refl (link 2 [] refl done)

waiting-AreQueues : AreQueues priority waiting nx (1 ∷ 2 ∷ []) (7 ∷ [])
unfolding queue other
waiting-AreQueues = record {
  own = record { links = pair-Links; tail = refl };
  rest = record { links = link 7 [] refl done; tail = refl };
  apart = λ p h. ground (arith, h);
}

send_pick-whenever_example : (i : ℕ) × (i < 2 ^ 1) × ((send_pick (picks i waiting)).0 ≡ some 7)
send_pick-whenever_example = send_pick-whenever waiting 1 7 refl (omega arith) (omega arith) refl

send_clear-AreQueues_example :
    let (q, next) = send_clear priority 1 waiting nx in
    AreQueues priority q next (2 ∷ []) (7 ∷ []) × (next 1 ≡ none)
send_clear-AreQueues_example =
    send_clear-AreQueues priority 1 waiting nx (2 ∷ []) (7 ∷ []) waiting-AreQueues

abbrev stream : Ends → Stream
stream list = record { hasconn = true; flags = 0; list = list }

pair-IsList : IsList pair nx (1 ∷ 2 ∷ [])
pair-IsList = record { links = pair-Links; tail = refl }

send_codes_example :
    let s = stream pair in
    let r = send fresh true 10 5 s waiting nx in
    ((r.0 ≡ 0) ⊎ (r ≡ (r.0, s, waiting, nx)))
    × ((r.0 ≡ 0) ↔ (
        (s.hasconn ≡ true)
        × (bit_and s.flags 32 ≡ 0)
        × (bit_and s.flags 80 ≡ 0)
        × (true ≡ true)
        × (0 < 5)
        × (5 < 2 ^ 31)
        × (5 ≤ 10)
        × (fresh ≢ none)))
send_codes_example = send_codes fresh true 10 5 (stream pair) waiting nx

-- A stream whose last message is message 1.
abbrev single : Stream
single = stream (record { head = some 1; tail = some 1 })

single_sent : (send fresh true 10 5 single waiting nx).0 ≡ 0
unfolding send is_bad
single_sent = refl

single_queue : AreQueues (priority_of single) waiting nx (1 ∷ 2 ∷ []) (7 ∷ [])
unfolding priority_of
single_queue = waiting-AreQueues

send_cuts_example :
    let r = send fresh true 10 5 single waiting nx in
    Links r.3 (queue (priority_of single) r.2).head (1 ∷ 3 ∷ [])
send_cuts_example =
    send_cuts 3 10 5 single waiting nx (7 ∷ []) [] (2 ∷ []) 1 single_queue refl refl refl
      single_sent
