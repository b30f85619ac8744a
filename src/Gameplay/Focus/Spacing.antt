-- ===== src/Gameplay/Focus/Spacing.antt =====
-- However often the controller asks, the game is brought to the front at most three times.
use winecx_gptk.Common.{ℕ, ◌+◌, ◌*◌, ◌^◌, ◌≤◌, Option, none, some, List, [], ◌∷◌, arith, length}
use winecx_gptk.Gameplay.Focus.{FocusRecovery, fresh, attempt, recoveries}

-- Each time lies at least `gap` after the one before it.
abbrev pub SpacedAfter : ℕ → Option ℕ → List ℕ → Type 0
SpacedAfter gap last [] = Unit {0}
SpacedAfter gap none (t ∷ ts) = SpacedAfter gap (some t) ts
SpacedAfter gap (some last) (t ∷ ts) = (last + gap ≤ t) × SpacedAfter gap (some t) ts

recoveries-SpacedAfter :
    (times : List ℕ) (r : FocusRecovery)
    → r.count ≤ 3
    → (r.count + length (recoveries times r) ≤ 3)
      × SpacedAfter (10 * 10 ^ 9) r.last_ns (recoveries times r)
unfolding recoveries
recoveries-SpacedAfter [] r h = ground arith
recoveries-SpacedAfter (now ∷ later) r h =
    ground (arith, recoveries-SpacedAfter later (attempt now r).1)

-- Whenever `attempt` is called, at most three calls go through, each at least ten seconds
-- after the last that did.
pub recoveries_are_spaced :
    (times : List ℕ)
    → (length (recoveries times fresh) ≤ 3)
      × SpacedAfter (10 * 10 ^ 9) none (recoveries times fresh)
unfolding fresh
recoveries_are_spaced times = let h = recoveries-SpacedAfter times fresh in ground arith
