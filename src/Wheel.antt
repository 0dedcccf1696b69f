-- ===== src/Wheel.antt =====
-- src/timerwheel.c: the list of timers. A callback may add timers, which stand at the head of the list,
-- and cancel others.
pub mod Laws
pub mod Quiet
mod Tests
use mathlib.Core.Option
use libtrp.Base.{
  ℕ, zero, suc, ◌+◌, Bool, true, false, not, ◌&&◌, ◌||◌, Option, none, some, List, [], ◌∷◌, ◌++◌,
  map, u64, ◌==◌, ltb, leb, if◌then◌else◌,
}

-- `timer_entry_t`: a handle, and whether the callback is not NULL.
pub record Entry : Type 0 where
  pub id : ℕ
  pub deadline : ℕ
  pub hascb : Bool
  pub canceled : Bool

-- `timerwheel_add` of a timer for which there is memory.
unfoldable pub add : ℕ → ℕ → ℕ → Bool → List Entry → List Entry
add now timeout id hascb l =
    record { id = id; deadline = u64 (now + timeout); hascb = hascb; canceled = false } ∷ l

-- `timerwheel_cancel` of the timers in a set.
unfoldable pub cancel : (ℕ → Bool) → List Entry → List Entry
cancel which [] = []
cancel which (e ∷ l) = record e { canceled = e.canceled || which e.id } ∷ cancel which l

-- What a callback does: to what it works on, the timers it adds, the last one first, and those it cancels.
pub record Effect (W : Type 0) : Type 0 where
  pub world : W
  pub added : List Entry
  pub cancels : ℕ → Bool

-- The list after a walk, the entry that it returns, and what the callbacks work on.
pub record Walked (W : Type 0) : Type 0 where
  pub world : W
  pub list : List Entry
  pub min : Option Entry

-- `if (curr->deadline < min->deadline)`, where there is a `min`.
unfoldable pub lesser : Option Entry → Entry → Option Entry
lesser none e = some e
lesser (some m) e = if ltb e.deadline m.deadline then some e else some m

module _ {W : Type 0} (now : ℕ) (cb : Entry → W → Effect W) where
  -- The callback of a timer that is resolved.
  unfoldable pub fire : Entry → W → Effect W
  fire e w =
      if e.hascb && not e.canceled
      then cb e w
      else record { world = w; added = []; cancels = λ id. false }

  -- The loop of `timerwheel_walk_with`: `kept` stands before the rest. What is added at the head is walked
  -- only while `kept` is empty. `none` is too little fuel.
  unfoldable pub walk_loop : ℕ → W → List Entry → Option Entry → List Entry → Option (Walked W)
  unfolding fire cancel lesser
  walk_loop fuel w kept min [] = some (record { world = w; list = kept; min = min })
  walk_loop zero w kept min (e ∷ rest) = none
  walk_loop (suc fuel) w kept min (e ∷ rest) =
      let f = fire e w in
      let first = walk_loop fuel f.world [] min (f.added ++ cancel f.cancels rest) in
      let later =
        walk_loop fuel f.world (f.added ++ cancel f.cancels kept) min (cancel f.cancels rest) in
      let resolved : Option (Walked W) = elim kept [ [] ↦ first | _ ∷ _ ↦ later ] in
      let stays = walk_loop fuel w (kept ++ e ∷ []) (lesser min e) rest in
      if leb e.deadline now || e.canceled then resolved else stays

  -- `timerwheel_walk_with`
  unfoldable pub walk_with : ℕ → W → List Entry → Option (Walked W)
  unfolding walk_loop
  walk_with fuel w l = walk_loop fuel w [] none l
