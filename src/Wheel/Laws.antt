-- ===== src/Wheel/Laws.antt =====
-- A walk ends, and leaves no timer that is due.
use libtrp.Base.{
  ℕ, zero, suc, ◌+◌, ◌*◌, ◌≤◌, ◌<◌, ◌≡◌, refl, ap, arith, Bool, true, not, ◌&&◌, ◌||◌, inl, inr,
  Bool-cases, Option, none, some, List, [], ◌∷◌, ◌++◌, length, leb, if◌then◌else◌,
}
use native.Mathlib.Nat.{mul-suc}
use libtrp.Wheel.{Entry, Effect, Walked, cancel, lesser, fire, walk_loop, walk_with}

-- No timer of the list is due.
abbrev pub NoneDue : ℕ → List Entry → Type 0
NoneDue now [] = Unit
NoneDue now (e ∷ l) = (now < e.deadline) × NoneDue now l

-- The rounds that a list takes, where each timer that is due adds at most `b`.
abbrev rounds : ℕ → ℕ → List Entry → ℕ
rounds b now [] = 0
rounds b now (e ∷ l) = (if leb e.deadline now then suc b else 1) + rounds b now l

rounds-append :
    (b now : ℕ) (xs ys : List Entry) → rounds b now (xs ++ ys) ≡ rounds b now xs + rounds b now ys
rounds-append b now [] ys = omega arith
rounds-append b now (e ∷ xs) ys = omega (arith, rounds-append b now xs ys)

rounds-cancel :
    (b now : ℕ) (which : ℕ → Bool) (l : List Entry) → rounds b now (cancel which l) ≡ rounds b now l
unfolding cancel
rounds-cancel b now which [] = refl
rounds-cancel b now which (e ∷ l) =
    ap (λ n. (if leb e.deadline now then suc b else 1) + n) (rounds-cancel b now which l)

rounds-NoneDue : (b now : ℕ) (l : List Entry) → NoneDue now l → rounds b now l ≡ length l
rounds-NoneDue b now [] h = refl
rounds-NoneDue b now (e ∷ l) h = ground (arith, h.0, rounds-NoneDue b now l h.1)

rounds_le : (b now : ℕ) (l : List Entry) → rounds b now l ≤ suc b * length l
rounds_le b now [] = omega arith
rounds_le b now (e ∷ l) =
    let step : suc b * suc (length l) ≡ suc b * length l + suc b = mul-suc (suc b) (length l) in
    ground (arith, step, rounds_le b now l)

append-NoneDue :
    (now : ℕ) (xs ys : List Entry) → NoneDue now xs → NoneDue now ys → NoneDue now (xs ++ ys)
append-NoneDue now [] ys h g = g
append-NoneDue now (e ∷ xs) ys h g = (h.0, append-NoneDue now xs ys h.1 g)

cancel-NoneDue :
    (now : ℕ) (which : ℕ → Bool) (l : List Entry) → NoneDue now l → NoneDue now (cancel which l)
unfolding cancel
cancel-NoneDue now which [] h = tt
cancel-NoneDue now which (e ∷ l) h = (h.0, cancel-NoneDue now which l h.1)

module _ {W : Type 0} (now b : ℕ) (cb : Entry → W → Effect W)
    (few : (e : Entry) (w : W) → length ((cb e w).added) ≤ b)
    (later : (e : Entry) (w : W) → NoneDue now ((cb e w).added)) where
  fire-few :
      (e : Entry) (w : W)
      → (length ((fire now cb e w).added) ≤ b) × NoneDue now ((fire now cb e w).added)
  unfolding fire
  fire-few e w = elim (Bool-cases (e.hascb && not e.canceled)) [
    | inl y ↦ rw y (few e w, later e w)
    | inr n ↦ rw n (omega arith, tt)
  ]

  fire-cost :
      (e : Entry) (w : W)
      → (leb e.deadline now || e.canceled) ≡ true
      → length ((fire now cb e w).added) < (if leb e.deadline now then suc b else 1)
  unfolding fire
  fire-cost e w h = elim (Bool-cases (leb e.deadline now)) [
    | inl y ↦ ground (arith, y, (fire-few e w).0)
    | inr n ↦ let c : e.canceled ≡ true = ground (arith, n, h) in ground (arith, n, c)
  ]

  abbrev Ends : Option (Walked W) → Type 0
  Ends r = (v : Walked W) × (r ≡ some v) × NoneDue now v.list

  walk_loop-Ends :
      (fuel : ℕ) (w : W) (kept : List Entry) (min : Option Entry) (rest : List Entry)
      → NoneDue now kept
      → rounds b now rest ≤ fuel
      → Ends (walk_loop now cb fuel w kept min rest)
  unfolding walk_loop
  walk_loop-Ends fuel w kept min [] k h = (_, refl, k)
  walk_loop-Ends zero w kept min (e ∷ rest) k h = absurd (ground (arith, h))
  walk_loop-Ends (suc fuel) w [] min (e ∷ rest) k h =
      let f = fire now cb e w in
      elim (Bool-cases (leb e.deadline now || e.canceled)) [
        | inr stays ↦ rw stays (
            walk_loop-Ends fuel w (e ∷ []) (lesser min e) rest (ground (arith, stays), tt)
              (ground (arith, stays, h)))
        | inl y ↦ rw y (
            walk_loop-Ends fuel f.world [] min (f.added ++ cancel f.cancels rest) tt (
              ground (
                arith,
                h,
                fire-cost e w y,
                (fire-few e w).1,
                rounds-NoneDue b now f.added,
                rounds-append b now f.added (cancel f.cancels rest),
                rounds-cancel b now f.cancels rest,
              )))
      ]
  walk_loop-Ends (suc fuel) w (k' ∷ kept) min (e ∷ rest) k h =
      let f = fire now cb e w in
      elim (Bool-cases (leb e.deadline now || e.canceled)) [
        | inr stays ↦ rw stays (
            walk_loop-Ends fuel w (k' ∷ (kept ++ e ∷ [])) (lesser min e) rest
              (append-NoneDue now (k' ∷ kept) (e ∷ []) k (ground (arith, stays), tt))
              (ground (arith, stays, h)))
        | inl y ↦ rw y (
            walk_loop-Ends fuel f.world (f.added ++ cancel f.cancels (k' ∷ kept)) min
              (cancel f.cancels rest)
              (append-NoneDue now f.added (cancel f.cancels (k' ∷ kept)) ((fire-few e w).1)
                (cancel-NoneDue now f.cancels (k' ∷ kept) k))
              (ground (arith, h, fire-cost e w y, rounds-cancel b now f.cancels rest)))
      ]

  -- Where each callback adds at most `b` timers, and none that is due already, a walk takes at most
  -- `b + 1` rounds for each timer, and leaves no timer that is due.
  pub walk_with-NoneDue :
      (w : W) (l : List Entry)
      → (v : Walked W) × (walk_with now cb (suc b * length l) w l ≡ some v) × NoneDue now v.list
  unfolding walk_with
  walk_with-NoneDue w l = walk_loop-Ends (suc b * length l) w [] none l tt (rounds_le b now l)
