-- ===== src/Wheel/Tests.antt =====
-- A wheel with a timer that is due, one that is canceled and one that stays.
use libtrp.Base.{ℕ, ◌+◌, ◌≡◌, arith, true, false, some, List, [], ◌∷◌}
use libtrp.Wheel.{Entry, Effect, Walked, walk_with}
use libtrp.Wheel.Laws.{NoneDue, walk_with-NoneDue}
use libtrp.Wheel.Quiet.{pending, nearest, run_due, quiet, walk_with-pending}

abbrev timers : List Entry
timers =
    record { id = 1; deadline = 900; hascb = true; canceled = false }
    ∷ record { id = 2; deadline = 2000; hascb = true; canceled = true }
    ∷ record { id = 3; deadline = 1700; hascb = true; canceled = false }
    ∷ []

abbrev count : Entry → ℕ → ℕ
count e n = n + e.id

-- A callback that sets its timer again.
abbrev again : Entry → ℕ → Effect ℕ
again e n = record {
  world = n + 1;
  added = record { id = 9; deadline = 1001; hascb = true; canceled = false } ∷ [];
  cancels = λ id. false;
}

walk_with-pending_example :
    walk_with 1000 (quiet count) 3 0 timers
    ≡ some (record {
      world = run_due 1000 count 0 timers;
      list = pending 1000 timers;
      min = nearest (pending 1000 timers);
    })
walk_with-pending_example = walk_with-pending 1000 count 0 timers

walk_with-NoneDue_example :
    (v : Walked ℕ) × (walk_with 1000 again 6 0 timers ≡ some v) × NoneDue 1000 v.list
walk_with-NoneDue_example =
    walk_with-NoneDue 1000 1 again (λ e w. omega arith) (λ e w. (omega arith, tt)) 0 timers
