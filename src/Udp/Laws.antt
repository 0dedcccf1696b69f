-- ===== src/Udp/Laws.antt =====
-- The strings that are ports.
use libtrp.Base.{
  ℕ, zero, suc, ◌+◌, ◌-◌, ◌*◌, ◌≤◌, ◌<◌, ◌≡◌, ◌≢◌, inl, inr, refl, arith, Bool, true, false, ◌&&◌,
  Bool-cases, Option, none, some, List, [], ◌∷◌, ◌++◌, length, get_elem?, leb,
}
use libtrp.Udp.{isdigit, atoi, Scan, stopped, bad, scan, validate_info}

-- The characters of a string, before its end.
abbrev pub AreChars : List ℕ → Type 0
AreChars [] = Unit
AreChars (c ∷ cs) = (c ≢ 0) × AreChars cs

abbrev pub are_digits : List ℕ → Bool
are_digits [] = true
are_digits (c ∷ cs) = isdigit c && are_digits cs

-- The value of decimal digits, the highest first.
abbrev pub value : ℕ → List ℕ → ℕ
value n [] = n
value n (c ∷ cs) = value (n * 10 + (c - 48)) cs

-- The strings that name a port.
abbrev pub is_port : List ℕ → Bool
is_port cs = are_digits cs && leb (length cs) 5 && leb 1 (value 0 cs) && leb (value 0 cs) 65535

atoi-value :
    (n : ℕ) (cs junk : List ℕ) → are_digits cs ≡ true → atoi n (cs ++ 0 ∷ junk) ≡ value n cs
unfolding atoi
atoi-value n [] junk d = refl
atoi-value n (c ∷ cs) junk d = ground (arith, d, atoi-value (n * 10 + (c - 48)) cs junk)

shift : Option Scan → Option Scan
shift none = none
shift (some bad) = some bad
shift (some (stopped i)) = some (stopped (suc i))

scan-cons : (fuel i c : ℕ) (s : List ℕ) → scan fuel (suc i) (c ∷ s) ≡ shift (scan fuel i s)
unfolding scan shift
scan-cons zero i c s = refl
scan-cons (suc fuel) i c s = ground (arith, scan-cons fuel (i + 1) c s)

-- Where the loop ends, on the characters of a string: at its end, at a character that is no digit, or
-- after its last round at a character.
data Ends (fuel : ℕ) (cs junk : List ℕ) : Type 0 where
  all :
      length cs ≤ fuel
      → are_digits cs ≡ true
      → scan fuel 0 (cs ++ 0 ∷ junk) ≡ some (stopped (length cs))
      → get_elem? (cs ++ 0 ∷ junk) (length cs) ≡ some 0
      → Ends fuel cs junk
  stray : are_digits cs ≡ false → scan fuel 0 (cs ++ 0 ∷ junk) ≡ some bad → Ends fuel cs junk
  long :
      (i c : ℕ)
      → fuel < length cs
      → scan fuel 0 (cs ++ 0 ∷ junk) ≡ some (stopped i)
      → get_elem? (cs ++ 0 ∷ junk) i ≡ some c
      → c ≢ 0
      → Ends fuel cs junk

scan-Ends : (fuel : ℕ) (cs junk : List ℕ) → AreChars cs → Ends fuel cs junk
unfolding scan shift
scan-Ends zero [] junk h = all (omega arith) refl refl refl
scan-Ends (suc fuel) [] junk h = all (omega arith) refl refl refl
scan-Ends zero (c ∷ cs) junk h = long 0 c (omega arith) refl refl h.0
scan-Ends (suc fuel) (c ∷ cs) junk h =
    let next = scan-cons fuel 0 c (cs ++ 0 ∷ junk) in
    elim (Bool-cases (isdigit c)) [
      | inr n ↦ stray (ground (arith, n)) (ground (arith, n, h.0))
      | inl y ↦ elim (scan-Ends fuel cs junk h.1) [
        | all le d e g ↦
            all (omega (arith, le)) (ground (arith, y, d)) (ground (arith, y, h.0, next, e)) g
        | stray d e ↦ stray (ground (arith, d)) (ground (arith, y, h.0, next, e))
        | long i x lt e g ne ↦
            long (suc i) x (omega (arith, lt)) (ground (arith, y, h.0, next, e)) g ne
      ]
    ]

-- On every string, whatever lies behind its end, `_trip_udp_validate_info` reads no further than that, and
-- answers whether the string is one to five digits that name a port from 1 to 65535.
pub validate_info-is_port :
    (cs junk : List ℕ) → AreChars cs → validate_info (cs ++ 0 ∷ junk) ≡ some (is_port cs)
unfolding validate_info
validate_info-is_port cs junk h = elim (scan-Ends 5 cs junk h) [
  | all le d e g ↦ ground (arith, e, g, atoi-value 0 cs junk d, le, d)
  | stray d e ↦ ground (arith, d, e)
  | long i c lt e g ne ↦ ground (arith, lt, e, g, ne)
]
