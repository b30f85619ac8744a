-- ===== src/Gameplay/DriveTests.antt =====
-- Runs of class Session and class FocusRecovery of runtime/kosmickrisp/gameplay.py.
use mathlib.Core.List.{head?}
use winecx_gptk.Common.{
  ℕ, ◌+◌, ◌*◌, ◌^◌, ◌≤◌, ◌<◌, ◌≡◌, refl, true, none, some, List, [], ◌∷◌, length, AllOf,
}
use winecx_gptk.Common.Int.{pos}
use winecx_gptk.Common.Text.{Text, codes, upper}
use winecx_gptk.Gameplay.Session
use winecx_gptk.Gameplay.Session.{Session}
use winecx_gptk.Gameplay.Session.Drive.{
  Screen, Spans, drive, race_times, drive_records, valid_exit_needs_drive,
}
use winecx_gptk.Gameplay.Focus.{fresh, recoveries}
use winecx_gptk.Gameplay.Focus.Spacing.{SpacedAfter, recoveries_are_spaced}

abbrev screen : ℕ → Text → Screen
screen seconds text = record { now = seconds * 10 ^ 9; uptime = seconds * 10 ^ 9; text = text }

abbrev screens : List Screen
screens =
    screen 5 (codes "loading")
    ∷ screen 10 (codes "Boonta classic, lap 1")
    ∷ screen 70 (codes "Boonta classic, lap 2")
    ∷ screen 130 (codes "Boonta classic, lap 3")
    ∷ []

abbrev driven : Session
driven = record {
  previous_now = 130 * 10 ^ 9;
  previous_uptime = 130 * 10 ^ 9;
  deadline = 1200 * 10 ^ 9;
  seconds = 120;
  playing = some (10 * 10 ^ 9);
  finished = true;
  observations = 10 * 10 ^ 9 ∷ 70 * 10 ^ 9 ∷ 130 * 10 ^ 9 ∷ [];
}

drive-screens : drive screens (Session.init 0 0 120 1200) ≡ some driven
unfolding drive Session.init Session.observe Session.racing Session.paused upper
drive-screens = refl

drive_records_example :
    (driven.observations ≡ race_times screens)
    × (driven.playing ≡ head? (race_times screens))
    × AllOf (λ (v : Screen). v.now < 0 + 1200 * 10 ^ 9) screens
drive_records_example = drive_records 0 0 120 1200 screens driven drive-screens

driven-valid : Session.valid_exit (pos 0) true driven ≡ true
unfolding Session.valid_exit
driven-valid = refl

valid_exit_needs_drive_example :
    (pos 0 ≡ pos 0)
    × (true ≡ true)
    × (driven.finished ≡ true)
    × (3 ≤ length (race_times screens))
    × Spans (race_times screens) (90 * 10 ^ 9)
valid_exit_needs_drive_example =
    valid_exit_needs_drive 0 0 120 1200 screens driven (pos 0) true drive-screens driven-valid

abbrev calls : List ℕ
calls = 1 * 10 ^ 9 ∷ 5 * 10 ^ 9 ∷ 12 * 10 ^ 9 ∷ 30 * 10 ^ 9 ∷ 99 * 10 ^ 9 ∷ []

recoveries_are_spaced_example :
    (length (recoveries calls fresh) ≤ 3) × SpacedAfter (10 * 10 ^ 9) none (recoveries calls fresh)
recoveries_are_spaced_example = recoveries_are_spaced calls

recoveries-calls : recoveries calls fresh ≡ 1 * 10 ^ 9 ∷ 12 * 10 ^ 9 ∷ 30 * 10 ^ 9 ∷ []
unfolding recoveries fresh
recoveries-calls = refl
