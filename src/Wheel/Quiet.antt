-- ===== src/Wheel/Quiet.antt =====
-- A walk whose callbacks leave the wheel alone, against a description without the loop.
use mathlib.Core.Path.{subst}
use libtrp.Base.{
  ℕ, zero, suc, ◌≤◌, ◌≡◌, refl, ap, ap₂, ◌∙◌, arith, Bool, true, false, not, ◌&&◌, ◌||◌, inl, inr,
  Bool-cases, Option, none, some, List, [], ◌∷◌, ◌++◌, append_assoc, append-nil, length, ltb, leb,
  if◌then◌else◌,
}
use libtrp.Wheel.{Entry, Effect, Walked, cancel, lesser, fire, walk_loop, walk_with}

abbrev pub resolves : ℕ → Entry → Bool
resolves now e = leb e.deadline now || e.canceled

-- The timers that stay, in their order.
abbrev pub pending : ℕ → List Entry → List Entry
pending now [] = []
pending now (e ∷ l) = if resolves now e then pending now l else e ∷ pending now l

-- The first timer of the nearest deadline.
abbrev pub nearer : Entry → Option Entry → Option Entry
nearer e none = some e
nearer e (some m) = if ltb m.deadline e.deadline then some m else some e

abbrev pub nearest : List Entry → Option Entry
nearest [] = none
nearest (e ∷ l) = nearer e (nearest l)

-- The callbacks of the timers that are due, not canceled, and have one, in the order of the list.
abbrev pub run_due : {W : Type 0} → ℕ → (Entry → W → W) → W → List Entry → W
run_due now act w [] = w
run_due now act w (e ∷ l) =
    run_due now act (if leb e.deadline now && not e.canceled && e.hascb then act e w else w) l

-- A callback that neither adds nor cancels.
abbrev pub quiet : {W : Type 0} → (Entry → W → W) → Entry → W → Effect W
quiet act e w = record { world = act e w; added = []; cancels = λ id. false }

cancel-none : (l : List Entry) → cancel (λ id. false) l ≡ l
unfolding cancel
cancel-none [] = refl
cancel-none (e ∷ l) = ap₂ (λ c r. record e { canceled = c } ∷ r) or_false (cancel-none l)
  where
    or_false : (e.canceled || false) ≡ e.canceled
    or_false = ground arith

nearer-lesser : (e x : Entry) (n : Option Entry) → nearer x (lesser n e) ≡ lesser (nearer x n) e
unfolding lesser
nearer-lesser e x none = refl
nearer-lesser e x (some m) = ground arith

nearest-append : (e : Entry) (l : List Entry) → nearest (l ++ e ∷ []) ≡ lesser (nearest l) e
unfolding lesser
nearest-append e [] = refl
nearest-append e (x ∷ l) = ap (nearer x) (nearest-append e l) ∙ nearer-lesser e x (nearest l)

module _ {W : Type 0} (now : ℕ) (act : Entry → W → W) where
  -- What a walk comes to.
  abbrev result : W → List Entry → List Entry → Walked W
  result w kept rest =
      let l = kept ++ pending now rest in
      record { world = run_due now act w rest; list = l; min = nearest l }

  fire-quiet :
      (e : Entry) (w : W)
      → resolves now e ≡ true
      → fire now (quiet act) e w ≡ record {
        world = if leb e.deadline now && not e.canceled && e.hascb then act e w else w;
        added = [];
        cancels = λ id. false;
      }
  unfolding fire
  fire-quiet e w h = ground (arith, h)

  resolved :
      (fuel : ℕ) (w : W) (kept : List Entry) (min : Option Entry) (e : Entry) (rest : List Entry)
      → resolves now e ≡ true
      → walk_loop now (quiet act) (suc fuel) w kept min (e ∷ rest)
        ≡ walk_loop now
            (quiet act)
            fuel
            (if leb e.deadline now && not e.canceled && e.hascb then act e w else w)
            kept
            min
            rest
  unfolding walk_loop
  resolved fuel w [] min e rest h = rw (h, fire-quiet e w h, cancel-none rest) refl
  resolved fuel w (k ∷ kept) min e rest h =
      let go : Effect W → Option (Walked W) = λ f.
        walk_loop now (quiet act) fuel f.world (f.added ++ cancel f.cancels (k ∷ kept)) min
          (cancel f.cancels rest) in
      let w' = if leb e.deadline now && not e.canceled && e.hascb then act e w else w in
      let step : walk_loop now (quiet act) (suc fuel) w (k ∷ kept) min (e ∷ rest)
          ≡ go (fire now (quiet act) e w) =
        rw h refl in
      step
      ∙ (ap go (fire-quiet e w h)
          ∙ ap₂ (λ a b. walk_loop now (quiet act) fuel w' a min b) (cancel-none (k ∷ kept))
              (cancel-none rest))

  stays :
      (fuel : ℕ) (w : W) (kept : List Entry) (min : Option Entry) (e : Entry) (rest : List Entry)
      → resolves now e ≡ false
      → walk_loop now (quiet act) (suc fuel) w kept min (e ∷ rest)
        ≡ walk_loop now (quiet act) fuel w (kept ++ e ∷ []) (lesser min e) rest
  unfolding walk_loop
  stays fuel w kept min e rest h = rw h refl

  walk_loop-quiet :
      (fuel : ℕ) (w : W) (kept rest : List Entry)
      → length rest ≤ fuel
      → walk_loop now (quiet act) fuel w kept (nearest kept) rest ≡ some (result w kept rest)
  unfolding walk_loop
  walk_loop-quiet fuel w kept [] h = rw (append-nil kept) refl
  walk_loop-quiet zero w kept (e ∷ rest) h = absurd (omega (arith, h))
  walk_loop-quiet (suc fuel) w kept (e ∷ rest) h = elim (Bool-cases (resolves now e)) [
    | inl y ↦
        resolved fuel w kept (nearest kept) e rest y
        ∙ rw y (walk_loop-quiet fuel _ kept rest (omega (arith, h)))
    | inr n ↦
        let due : leb e.deadline now ≡ false = ground (arith, n) in
        let rounds =
          subst
            (λ m.
              walk_loop now (quiet act) fuel w (kept ++ e ∷ []) m rest
              ≡ some (result w (kept ++ e ∷ []) rest))
            (nearest-append e kept)
            (walk_loop-quiet fuel w (kept ++ e ∷ []) rest (omega (arith, h))) in
        let same : some (result w (kept ++ e ∷ []) rest) ≡ some (result w kept (e ∷ rest)) =
          rw (n, due)
            (ap (λ l. some (record { world = run_due now act w rest; list = l; min = nearest l }))
              (append_assoc kept (e ∷ []) (pending now rest))) in
        stays fuel w kept (nearest kept) e rest n ∙ (rounds ∙ same)
  ]

  -- Where callbacks neither add nor cancel timers, one round for each timer is enough: the walk calls
  -- back those that are due and not canceled, in the order of the list, leaves exactly those neither due
  -- nor canceled, in order, and returns the first of the nearest deadline among these.
  pub walk_with-pending :
      (w : W) (l : List Entry)
      → walk_with now (quiet act) (length l) w l
        ≡ some (record {
          world = run_due now act w l;
          list = pending now l;
          min = nearest (pending now l);
        })
  unfolding walk_with
  walk_with-pending w l = walk_loop-quiet (length l) w [] l (omega arith)
