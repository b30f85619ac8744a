-- ===== src/Gameplay/Tests.antt =====
-- Runs of the session classes of runtime/kosmickrisp/gameplay.py at concrete inputs.
use winecx_gptk.Common.{
  ℕ, ◌*◌, ◌^◌, ◌+◌, ◌≤◌, ◌<◌, ◌≡◌, refl, true, false, Option, none, some, List, [], ◌∷◌, arith,
}
use winecx_gptk.Common.Int.{pos}
use winecx_gptk.Common.Text.{Text, codes}
use winecx_gptk.Gameplay.Screen.{key, startup_menu, startup_action}
use winecx_gptk.Gameplay.Startup
use winecx_gptk.Gameplay.Startup.{StartupSession, passed, crashed, stalled}
use winecx_gptk.Gameplay.Startup.Run.{Look, watch, Trace, begin, look, ask, newest, asked_at}
use winecx_gptk.Gameplay.Startup.Menu.{second_menu, watch_verifies}
use winecx_gptk.Gameplay.Startup.Exit.{Before, passed_after_menu, running_is_bounded}

abbrev menu_text : Text
menu_text = codes "Continue  Game / Select"

menu-seen : startup_menu menu_text ≡ true
unfolding startup_menu
menu-seen = refl

paused-is-no-menu : startup_menu (codes "Paused. Continue game. Select") ≡ false
unfolding startup_menu
paused-is-no-menu = refl

skip-action : startup_action (codes "press A to skip") ≡ some (key 3 (some 3))
unfolding startup_action
skip-action = refl

abbrev at : ℕ → Option Text → Look
at seconds text = record {
  now = seconds * 10 ^ 9;
  uptime = seconds * 10 ^ 9;
  text = text;
  present_ns = some (seconds * 10 ^ 9);
  compile_ns = none;
}

abbrev looks : List Look
looks = at 11 (some menu_text) ∷ at 13 none ∷ at 15 (some menu_text) ∷ []

abbrev fresh : StartupSession
fresh = Startup.init (10 * 10 ^ 9) (10 * 10 ^ 9) 600 45 60

watch_verifies_example : (watch looks fresh).menu_verified_ns ≡ second_menu false looks
watch_verifies_example = watch_verifies (10 * 10 ^ 9) (10 * 10 ^ 9) 600 45 60 looks

second_menu-looks : second_menu false looks ≡ some (15 * 10 ^ 9)
unfolding second_menu startup_menu
second_menu-looks = refl

abbrev seen : StartupSession
seen = watch looks fresh

abbrev asked : StartupSession
asked = record seen { exit_requested_ns = some (16 * 10 ^ 9) }

asked-Trace : Trace (10 * 10 ^ 9) 600 45 60 (16 * 10 ^ 9) asked
unfolding watch Startup.init Startup.observe Startup.note_clock Startup.note_present
    Startup.note_compile Startup.note_text startup_menu Startup.request_exit
asked-Trace =
    ask (16 * 10 ^ 9)
      (look (at 15 (some menu_text))
        (look (at 13 none) (look (at 11 (some menu_text)) (begin (10 * 10 ^ 9)) (omega arith))
          (omega arith))
        (omega arith))
      (omega arith) refl

asked-passes : Startup.outcome (20 * 10 ^ 9) (some (pos 0)) asked ≡ some passed
unfolding watch Startup.init Startup.observe Startup.note_clock Startup.note_present
    Startup.note_compile Startup.note_text startup_menu Startup.outcome
asked-passes = refl

passed_after_menu_example :
    (verified : ℕ) × (requested : ℕ) × (pos 0 ≡ pos 0)
    × (asked.failure ≡ none)
    × (asked.menu_verified_ns ≡ some verified)
    × (asked.exit_requested_ns ≡ some requested)
    × (10 * 10 ^ 9 ≤ verified)
    × (verified ≤ requested)
    × (requested ≤ 16 * 10 ^ 9)
passed_after_menu_example = passed_after_menu (pos 0) (20 * 10 ^ 9) asked-Trace asked-passes

asked-runs : Startup.outcome (20 * 10 ^ 9) none asked ≡ none
unfolding watch Startup.init Startup.observe Startup.note_clock Startup.note_present
    Startup.note_compile Startup.note_text startup_menu Startup.outcome
asked-runs = refl

running_is_bounded_example :
    (20 * 10 ^ 9 < 10 * 10 ^ 9 + 600 * 10 ^ 9)
    × (20 * 10 ^ 9 < newest asked-Trace + 45 * 10 ^ 9)
    × Before (20 * 10 ^ 9) (60 * 10 ^ 9) (asked_at asked-Trace)
running_is_bounded_example = running_is_bounded (20 * 10 ^ 9) asked-Trace asked-runs
