-- ===== src/Gameplay/Focus.antt =====
-- class FocusRecovery of runtime/kosmickrisp/gameplay.py: at most three attempts to bring the
-- game back to the front, ten seconds apart.
pub mod Spacing
use winecx_gptk.Common.{
  ℕ, ◌+◌, ◌*◌, ◌^◌, Bool, true, false, ◌&&◌, Option, none, some, ltb, sub_ge, if◌then◌else◌, List,
  [], ◌∷◌,
}

pub record FocusRecovery : Type 0 where
  pub count : ℕ
  pub last_ns : Option ℕ

unfoldable pub fresh : FocusRecovery
fresh = record { count = 0; last_ns = none }

abbrev rested : ℕ → Option ℕ → Bool
rested now none = true
rested now (some last) = sub_ge now last (10 * 10 ^ 9)

unfoldable pub allowed : ℕ → FocusRecovery → Bool
allowed now r = ltb r.count 3 && rested now r.last_ns

unfoldable pub attempt : ℕ → FocusRecovery → Bool × FocusRecovery
unfolding allowed
attempt now r =
    if allowed now r then (true, record { count = r.count + 1; last_ns = some now }) else (false, r)

-- The times of the attempts that went through, when `attempt` is called at the given times.
unfoldable pub recoveries : List ℕ → FocusRecovery → List ℕ
unfolding attempt
recoveries [] r = []
recoveries (now ∷ later) r =
    let (done, r') = attempt now r in
    let rest = recoveries later r' in if done then now ∷ rest else rest
