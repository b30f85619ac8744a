-- ===== src/Gameplay/Controller/Loop.antt =====
-- The loop of startup_controller of runtime/kosmickrisp/gameplay.py: a look at the progress and at the
-- screen, and what it makes of them.
use winecx_gptk.Common.{
  ℕ, ◌+◌, ◌-◌, ◌*◌, ◌^◌, Bool, true, false, not, ◌&&◌, ◌||◌, Option, none, some, is_some, List, [],
  ◌∷◌, ltb, leb, max, sub_ge, if◌then◌else◌,
}
use winecx_gptk.Common.Text.{Text, codes}
use winecx_gptk.Gameplay.Screen.{Input, startup_action}
use winecx_gptk.Gameplay.Startup.{
  StartupSession, Outcome, invalid, init, observe, outcome, request_exit, menu_verified,
}
use winecx_gptk.Gameplay.Startup
use winecx_gptk.Gameplay.Focus
use winecx_gptk.Gameplay.Focus.{FocusRecovery, fresh, allowed, attempt}
use winecx_gptk.Gameplay.Controller.{
  fail, blocked, send, with_status, Ui, CaptureFailure, Frame, Setup, Control, Step, raises, fails,
  answers, quit, going, ended,
}

abbrev pub act : Setup → Frame → Option Input → Control → Step
act u f none c = going c
act u f (some input) c = with_status u f input f.status c

abbrev pub quitted : Ui Bool (Unit {0}) → Control → Step
quitted (raises e) c = fail e c
quitted (fails true) c = fail (codes "normal_exit_request_failed") c
quitted (fails false) c = going c
quitted (answers _) c = going c

abbrev pub asked : Frame → Option StartupSession → Control → Step
asked f none c = fail (codes "menu_not_verified") c
asked f (some s) c =
    quitted f.quit_alive
      (record (send (quit f.seen_now) c) { session = s; quit_requested_ns = some f.seen_now })

-- After the text was observed.
unfoldable pub respond : Setup → Frame → Option Input → Control → Step
unfolding with_status request_exit
respond u f next c =
    if menu_verified c.session
    then asked f (request_exit f.seen_now c.session) c
    else if sub_ge f.seen_now c.last_action (5 * 10 ^ 9)
    then act u f next c
    else going c

abbrev pub note_screen : Frame → Text → Control → Control
note_screen f text c =
    let s = observe f.seen_now f.seen_uptime (some text) none none c.session in
    record c {
      session = s;
      menu_verified_ns = s.menu_verified_ns;
      last_observation_ns = some f.seen_now;
    }

-- A text that asks for no input ends the time in which input was blocked.
abbrev pub unblock : Frame → Option Input → Control → Control
unblock f none c = blocked false f.seen_now c
unblock f (some _) c = c

unfoldable pub with_text : Setup → Frame → Ui (Unit {0}) Text → Control → Step
unfolding observe startup_action respond
with_text u f (raises e) c = fail e c
with_text u f (fails _) c = fail (codes "ocr_failed") c
with_text u f (answers text) c =
    let next = startup_action text in respond u f next (unblock f next (note_screen f text c))

unfoldable pub with_capture : Setup → Frame → Ui CaptureFailure (Unit {0}) → Control → Step
unfolding with_text
with_capture u f (raises e) c = fail e c
with_capture u f (fails x) c =
    if x.not_interactive
    then fail (codes "desktop_not_interactive") c
    else if not c.window_seen && ltb x.later u.acquisition_deadline
    then going c
    else fail
        (if c.window_seen then codes "window_capture_lost" else codes "initial_window_timeout") c
with_capture u f (answers _) c = with_text u f f.ocr (record c { window_seen = true })

-- `max(stamps, default=None)`
abbrev pub newest : List ℕ → Option ℕ
newest [] = none
newest (t ∷ ts) = elim (newest ts) [ none ↦ some t | some m ↦ some (max t m) ]

abbrev pub note_progress : Frame → Control → Control
note_progress f c =
    let s = observe f.now f.uptime none (newest f.presents) (newest f.compiles) c.session in
    record c { session = s; outcome = Startup.outcome f.now none s }

abbrev pub starved : Frame → Control → Control
starved f c =
    if leb c.session.deadline f.now && is_some c.input_blocked_since_ns
    then record c { outcome = some invalid; failure = some (codes "invalid_input_starvation") }
    else c

abbrev pub judged : Setup → Frame → Option Outcome → Control → Step
judged u f (some o) c = ended (starved f c)
judged u f none c =
    if is_some c.session.exit_requested_ns then going c else with_capture u f f.capture c

unfoldable pub round : Setup → Frame → Control → Step
unfolding with_capture observe outcome
round u f c =
    if not f.alive || f.guardian_stop
    then ended c
    else judged u f (note_progress f c).outcome (note_progress f c)

-- The rounds that were made; the controller may still be going after the last.
unfoldable pub rounds : Setup → List Frame → Control → Step
unfolding round
rounds u [] c = going c
rounds u (f ∷ fs) c = elim (round u f c) [ going c' ↦ rounds u fs c' | ended c' ↦ ended c' ]

-- Before the first round. The last action is set to 0, not to a time in the run.
unfoldable pub begin : (start_ns now uptime timeout : ℕ) → Control
unfolding init fresh
begin start_ns now uptime timeout = record {
  session = init start_ns (uptime - (now - start_ns)) timeout 45 60;
  recovery = Focus.fresh;
  last_action = 0;
  window_seen = false;
  menu_verified_ns = none;
  outcome = none;
  failure = none;
  last_observation_ns = none;
  quit_requested_ns = none;
  input_blocked_since_ns = none;
  total_input_blocked_ns = 0;
  focus_recovery_count = 0;
  commands = [];
}

abbrev pub first_activation : Ui (Unit {0}) (Unit {0}) → Step → Control → Step
first_activation (raises e) rest c = fail e c
first_activation _ rest c = rest

unfoldable pub startup_controller :
    (start_ns now uptime timeout pid : ℕ) → Bool → Ui (Unit {0}) (Unit {0}) → List Frame → Step
unfolding rounds begin
startup_controller start_ns now uptime timeout pid steam_only activation frames =
    let u : Setup = record {
      pid = pid;
      steam_only = steam_only;
      acquisition_deadline = now + 15 * 10 ^ 9;
    } in
    let c = begin start_ns now uptime timeout in first_activation activation (rounds u frames c) c
