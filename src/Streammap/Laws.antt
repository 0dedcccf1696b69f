-- ===== src/Streammap/Laws.antt =====
-- The streams that a connection opens, one after the other.
use mathlib.Core.Option
use libtrp.Base.{
  ℕ, zero, suc, ◌+◌, ◌*◌, ◌^◌, ◌<◌, ◌≡◌, ◌↔◌, refl, sym, ap, ◌∙◌, arith, Bool, true, Option, none,
  some, List, [], ◌∷◌, ◌++◌, append_assoc, append-nil, map, length, length-append, get_elem?, set,
  bit_and,
}
use libtrp.Streammap.{
  Cell, null, stream, slot, Streammap, init, links, allocate, place, add, has_space, Opened,
  pubmask, open_stream,
}

-- The stream in a word.
abbrev stream_of : Option Cell → Option ℕ
stream_of none = none
stream_of (some null) = none
stream_of (some (slot i)) = none
stream_of (some (stream s)) = some s

abbrev pub view : ℕ → Streammap → Option ℕ
view i m = stream_of (get_elem? m.cells i)

-- The map of `length ss + k` slots with the streams `ss` in order.
abbrev holding : List ℕ → ℕ → Streammap
holding ss k = record {
  size = length ss;
  cap = (length ss + k) * 2;
  hasmap = true;
  cells = map stream ss ++ links (length ss) k;
  free = some (length ss);
}

get_elem?-after :
    (ss : List ℕ) (c : Cell) (l : List Cell)
    → get_elem? (map stream ss ++ c ∷ l) (length ss) ≡ some c
get_elem?-after [] c l = refl
get_elem?-after (s ∷ ss) c l = get_elem?-after ss c l

get_elem?-behind : (ss : List ℕ) → get_elem? (map stream ss ++ []) (length ss) ≡ none
get_elem?-behind [] = refl
get_elem?-behind (s ∷ ss) = get_elem?-behind ss

set-after :
    (ss : List ℕ) (c d : Cell) (l : List Cell)
    → set (map stream ss ++ c ∷ l) (length ss) d ≡ map stream ss ++ d ∷ l
set-after [] c d l = refl
set-after (s ∷ ss) c d l = ap (λ l. stream s ∷ l) (set-after ss c d l)

map-snoc :
    (ss : List ℕ) (s : ℕ) (l : List Cell)
    → map stream (ss ++ s ∷ []) ++ l ≡ map stream ss ++ stream s ∷ l
map-snoc [] s l = refl
map-snoc (x ∷ ss) s l = ap (λ l. stream x ∷ l) (map-snoc ss s l)

view-links : (i n k : ℕ) → stream_of (get_elem? (links i n) k) ≡ none
view-links i zero k = refl
view-links i (suc n) zero = refl
view-links i (suc n) (suc k) = view-links (i + 1) n k

view-holding :
    (ss : List ℕ) (n k i : ℕ)
    → stream_of (get_elem? (map stream ss ++ links n k) i) ≡ get_elem? ss i
view-holding [] n k i = view-links n k i
view-holding (s ∷ ss) n k zero = refl
view-holding (s ∷ ss) n k (suc i) = view-holding ss n k i

place-holding :
    (ss : List ℕ) (k s : ℕ)
    → place s (holding ss (suc k)) ≡ some (length ss, holding (ss ++ s ∷ []) k)
unfolding place
place-holding ss k s =
    let n = length ss in
    let m : Streammap = record (holding ss (suc k)) {
      free = some (n + 1);
      cells = set (holding ss (suc k)).cells n (stream s);
      size = n + 1;
    } in
    let len : length (ss ++ s ∷ []) ≡ n + 1 = length-append ss (s ∷ []) in
    let cells : m.cells ≡ (holding (ss ++ s ∷ []) k).cells =
      set-after ss (slot (n + 1)) (stream s) (links (n + 1) k)
      ∙ (sym (map-snoc ss s (links (n + 1) k))
          ∙ ap (λ j. map stream (ss ++ s ∷ []) ++ links j k) (sym len)) in
    let same : m ≡ holding (ss ++ s ∷ []) k = ground (arith, cells, len) in
    ground (arith, get_elem?-after ss (slot (n + 1)) (links (n + 1) k)) ∙ ap (λ m. some (n, m)) same

add-full : (mem_ok : Bool) (ss : List ℕ) (s : ℕ) → add mem_ok s (holding ss 0) ≡ none
unfolding add place
add-full mem_ok ss s = ground (arith, get_elem?-behind ss)

-- What `tripc_open_stream` gives for the streams of a list, one after the other.
abbrev pub open_all : ℕ → ℕ → List ℕ → Streammap → Option (List (Option Opened) × Streammap)
unfolding open_stream
open_all sid options [] m = some ([], m)
open_all sid options (s ∷ ss) m = elim (open_stream (some s) true sid options m) [
  | none ↦ none
  | some (o, m) ↦ Option.map (λ (os, m). (o ∷ os, m)) (open_all sid options ss m)
]

-- The streams of a list with the ids from `i` on.
abbrev pub numbered : ℕ → ℕ → List ℕ → List (Option Opened)
numbered options i [] = []
numbered options i (s ∷ ss) =
    some (record { handle = s; id = i; flags = bit_and options pubmask })
    ∷ numbered options (i + 1) ss

opens :
    (sid options s k : ℕ) (ss : List ℕ)
    → open_stream (some s) true sid options (holding ss (suc k))
      ≡ some (
        some (record { handle = s; id = length ss; flags = bit_and options pubmask }),
        holding (ss ++ s ∷ []) k,
      )
unfolding open_stream add
opens sid options s k ss = ground (arith, place-holding ss k s)

open_all-holding :
    (sid options k : ℕ) (done ss : List ℕ)
    → open_all sid options ss (holding done (length ss + k))
      ≡ some (numbered options (length done) ss, holding (done ++ ss) k)
unfolding open_all
open_all-holding sid options k done [] =
    let e : 0 + k ≡ k = omega arith in
    ap (λ m. some ([], m)) (ap (holding done) e ∙ ap (λ l. holding l k) (sym (append-nil done)))
open_all-holding sid options k done (s ∷ ss) =
    let h = open_all-holding sid options k (done ++ s ∷ []) ss in
    let len : length (done ++ s ∷ []) ≡ length done + 1 = length-append done (s ∷ []) in
    let n : suc (length ss) + k ≡ suc (length ss + k) = omega arith in
    let first =
      ap (λ n. open_stream (some s) true sid options (holding done n)) n
      ∙ opens sid options s (length ss + k) done in
    ground (arith, first, h, len, append_assoc done (s ∷ []) ss)

-- The first stream allocates the array.
init-holding :
    (sid options s max : ℕ)
    → max * 2 < 2 ^ 31
    → open_stream (some s) true sid options (init max)
      ≡ open_stream (some s) true sid options (holding [] max)
unfolding open_stream add init allocate
init-holding sid options s max h = ground (arith, h)

ends : (k t : ℕ) (ss : List ℕ) → (add true t (holding ss k) ≡ none) ↔ (k ≡ 0)
unfolding add
ends zero t ss = (λ e. refl, λ e. add-full true ss t)
ends (suc k) t ss =
    (λ e. absurd (ground (arith, e, place-holding ss k t)), λ e. absurd (omega (arith, e)))

-- With memory, and room for `ss` and `k` more streams below 2^30, a connection opens the streams `ss` with the
-- ids 0, 1 and so on, whatever id is asked for, and each is found by its id. That there is space is always
-- said, but there is room for another stream exactly if `k` is not 0: else its slot is outside the array.
pub open_all-view :
    (sid options k s t : ℕ) (ss : List ℕ)
    → (length (s ∷ ss) + k) * 2 < 2 ^ 31
    → (m : Streammap) × (open_all sid options (s ∷ ss) (init (length (s ∷ ss) + k))
        ≡ some (numbered options 0 (s ∷ ss), m))
      × ((i : ℕ) → view i m ≡ get_elem? (s ∷ ss) i)
      × (has_space m ≡ true)
      × ((add true t m ≡ none) ↔ (k ≡ 0))
unfolding has_space open_all
open_all-view sid options k s t ss h =
    let m = holding (s ∷ ss) k in
    let n = length (s ∷ ss) + k in
    let all = open_all-holding sid options k [] (s ∷ ss) in
    let first = init-holding sid options s n h in
    (
      m,
      ap
            (λ r. elim r as (λ _. Option (List (Option Opened) × Streammap)) [
              | none ↦ none
              | some (o, m) ↦ Option.map (λ (os, m). (o ∷ os, m)) (open_all sid options ss m)
            ])
            first
          ∙ all,
      view-holding (s ∷ ss) (length (s ∷ ss)) k,
      ground arith,
      ends k t (s ∷ ss),
    )
