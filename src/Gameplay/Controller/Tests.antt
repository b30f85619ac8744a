-- ===== src/Gameplay/Controller/Tests.antt =====
-- A run of startup_controller of runtime/kosmickrisp/gameplay.py: it passes a first screen, sees the menu
-- twice, and quits.
use winecx_gptk.Common.{
  ℕ, ◌+◌, ◌*◌, ◌^◌, ◌<◌, true, false, none, some, List, [], ◌∷◌, AllOf, ◌≡◌, refl, arith,
}
use winecx_gptk.Common.Text.{Text, codes}
use winecx_gptk.Gameplay.Screen.{key, startup_menu, startup_action}
use winecx_gptk.Gameplay.Startup.{stalled, note_text, note_compile, note_present, note_clock}
use winecx_gptk.Gameplay.Controller.{fails, answers, Frame, Control, press, quit}
use winecx_gptk.Gameplay.Controller.Loop.{startup_controller}
use winecx_gptk.Gameplay.Controller.Commands.{control}
use winecx_gptk.Gameplay.Controller.Sending.{Sent, startup_controller-Sent}
use winecx_gptk.Gameplay.Controller.Rounds.{until}
use winecx_gptk.Gameplay.Controller.Report.{
  Reported, startup_controller-Reported, startup_controller-deadline,
}

abbrev frame_at : ℕ → Text → Frame
frame_at seconds text = record {
  alive = true;
  guardian_stop = false;
  now = seconds * 10 ^ 9;
  uptime = seconds * 10 ^ 9;
  presents = seconds * 10 ^ 9 ∷ [];
  compiles = [];
  capture = answers tt;
  ocr = answers text;
  seen_now = seconds * 10 ^ 9 + 1;
  seen_uptime = seconds * 10 ^ 9 + 1;
  quit_alive = answers tt;
  status = answers (some 7);
  owner = none;
  fresh = fails tt;
  activate = fails tt;
  checked = fails tt;
  input = answers tt;
}

abbrev frames : List Frame
frames =
    frame_at 20 (codes "Press any key")
    ∷ frame_at 22 (codes "Continue game / Select")
    ∷ frame_at 24 (codes "Continue game / Select")
    ∷ frame_at 26 []
    ∷ []

abbrev start : ℕ
start = 10 * 10 ^ 9

abbrev final : Control
unfolding startup_controller startup_action startup_menu
final = control (startup_controller start start start 600 7 false (answers tt) frames)

sent_commands :
    final.commands ≡ quit (24 * 10 ^ 9 + 1) ∷ press (20 * 10 ^ 9 + 1) (some 7) (key 49 none) ∷ []
unfolding final note_text note_compile note_present note_clock
sent_commands = refl

startup_controller-Sent_example : Sent 7 final
unfolding startup_controller startup_action startup_menu
startup_controller-Sent_example =
    startup_controller-Sent start start start 600 7 false (answers tt) frames

startup_controller-Reported_example : Reported start 600 (until start frames) final
unfolding startup_controller startup_action startup_menu
startup_controller-Reported_example =
    startup_controller-Reported start 600 start start 7 false (answers tt) frames (omega arith)
      (omega arith)

startup_controller-deadline_example : AllOf (λ (f : Frame). f.now < start + 600 * 10 ^ 9) frames
unfolding final startup_controller startup_action startup_menu note_text note_compile note_present
    note_clock
startup_controller-deadline_example =
    startup_controller-deadline start 600 start start 7 false (answers tt) frames final
      (omega arith) (omega arith) refl

-- A game that shows nothing for 45 seconds ends the controller.
silent-stalled :
    (control (
      startup_controller start start start 600 7 false
        (answers tt)
        (record (frame_at 60 []) { presents = [] } ∷ []))).outcome
    ≡ some stalled
unfolding startup_controller note_text note_compile note_present note_clock
silent-stalled = refl
