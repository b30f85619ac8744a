-- ===== src/Gameplay/Controller/Screens.antt =====
-- The session of startup_controller of runtime/kosmickrisp/gameplay.py over its looks at the progress and
-- at the screen.
use winecx_gptk.Common.{
  ℕ, ◌≤◌, Bool, true, false, ◌&&◌, not, Option, none, some, ltb, if◌then◌else◌, ◌≡◌, refl, sym, ◌∙◌,
  arith,
}
use winecx_gptk.Common.Text.{Text, codes}
use winecx_gptk.Gameplay.Screen.{Input, startup_action}
use winecx_gptk.Gameplay.Startup.{invalid}
use winecx_gptk.Gameplay.Startup.Run.{Look, look}
use winecx_gptk.Gameplay.Startup.Kept.{observe-Kept, observe-quiet}
use winecx_gptk.Gameplay.Controller.{
  Ui, raises, fails, answers, CaptureFailure, Frame, Setup, Control, going, fail, blocked,
}
use winecx_gptk.Gameplay.Controller.Loop.{
  note_screen, unblock, with_text, with_capture, newest, note_progress,
}
use winecx_gptk.Gameplay.Controller.Timed.{
  Timed, TimedStep, if-Timed, fail-Timed, blocked-Timed, Timed-later, blocked_later, respond-Timed,
}

module _ (start timeout : ℕ) where
  module _ (u : Setup) (f : Frame) where
    pub screen-Timed :
        (text : Text) (c : Control)
        → f.now ≤ f.seen_now
        → Timed start timeout f.now c
        → Timed start timeout f.seen_now (note_screen f text c)
    screen-Timed text c h g =
        let l : Look = record {
          now = f.seen_now;
          uptime = f.seen_uptime;
          text = some text;
          present_ns = none;
          compile_ns = none;
        } in
        let k = observe-Kept f.seen_now f.seen_uptime (some text) none none c.session in
        record {
          seen = f.seen_now;
          trace = look l g.trace (omega (arith, h, g.seen_before));
          seen_before = omega arith;
          menu = refl;
          quitted = g.quitted ∙ sym k.requested;
          blocked =
              blocked_later start timeout f.now f.seen_now c.total_input_blocked_ns
                c.input_blocked_since_ns h g.blocked;
        }

    pub unblock-Timed :
        (next : Option Input) (c : Control)
        → Timed start timeout f.seen_now c
        → Timed start timeout f.seen_now (unblock f next c)
    unblock-Timed none c g = blocked-Timed start timeout false f.seen_now c g
    unblock-Timed (some _) c g = g

    pub unblock-unasked :
        (next : Option Input) (c : Control)
        → c.session.exit_requested_ns ≡ none
        → (unblock f next c).session.exit_requested_ns ≡ none
    unfolding blocked
    unblock-unasked none c e = e
    unblock-unasked (some _) c e = e

    pub with_text-Timed :
        (reply : Ui (Unit {0}) Text) (c : Control)
        → f.now ≤ f.seen_now
        → Timed start timeout f.now c
        → c.session.exit_requested_ns ≡ none
        → TimedStep start timeout f.seen_now (with_text u f reply c)
    unfolding with_text
    with_text-Timed (raises e) c h g q =
        fail-Timed start timeout f.seen_now e c (Timed-later start timeout f.now f.seen_now c h g)
    with_text-Timed (fails _) c h g q =
        fail-Timed start timeout f.seen_now _ c (Timed-later start timeout f.now f.seen_now c h g)
    with_text-Timed (answers text) c h g q =
        let next = startup_action text in
        let k = observe-Kept f.seen_now f.seen_uptime (some text) none none c.session in
        respond-Timed start timeout u f next (unblock f next (note_screen f text c))
          (unblock-Timed next (note_screen f text c) (screen-Timed text c h g))
          (unblock-unasked next (note_screen f text c) (k.requested ∙ q))

    pub with_capture-Timed :
        (reply : Ui CaptureFailure (Unit {0})) (c : Control)
        → f.now ≤ f.seen_now
        → Timed start timeout f.now c
        → c.session.exit_requested_ns ≡ none
        → TimedStep start timeout f.seen_now (with_capture u f reply c)
    unfolding with_capture
    with_capture-Timed (raises e) c h g q =
        fail-Timed start timeout f.seen_now e c (Timed-later start timeout f.now f.seen_now c h g)
    with_capture-Timed (fails x) c h g q =
        let waiting = not c.window_seen && ltb x.later u.acquisition_deadline in
        let lost =
          if c.window_seen then codes "window_capture_lost" else codes "initial_window_timeout" in
        let k = Timed-later start timeout f.now f.seen_now c h g in
        if-Timed start timeout f.seen_now x.not_interactive
          (fail (codes "desktop_not_interactive") c) (if waiting then going c else fail lost c)
          (fail-Timed start timeout f.seen_now _ c k)
          (if-Timed start timeout f.seen_now waiting (going c) (fail lost c) k
            (fail-Timed start timeout f.seen_now lost c k))
    with_capture-Timed (answers _) c h g q =
        with_text-Timed f.ocr (record c { window_seen = true }) h
          (record {
            seen = g.seen;
            trace = g.trace;
            seen_before = g.seen_before;
            menu = g.menu;
            quitted = g.quitted;
            blocked = g.blocked;
          })
          q

    pub starved-Timed :
        (now : ℕ) (b : Bool) (c : Control)
        → Timed start timeout now c
        → Timed start timeout now (
            if b
            then record c {
              outcome = some invalid;
              failure = some (codes "invalid_input_starvation");
            }
            else c)
    starved-Timed now true c g = record {
      seen = g.seen;
      trace = g.trace;
      seen_before = g.seen_before;
      menu = g.menu;
      quitted = g.quitted;
      blocked = g.blocked;
    }
    starved-Timed now false c g = g

    pub progress-Timed :
        (now : ℕ) (c : Control)
        → now ≤ f.now
        → Timed start timeout now c
        → Timed start timeout f.now (note_progress f c)
    progress-Timed now c h g =
        let l : Look = record {
          now = f.now;
          uptime = f.uptime;
          text = none;
          present_ns = newest f.presents;
          compile_ns = newest f.compiles;
        } in
        let k =
          observe-Kept f.now f.uptime none (newest f.presents) (newest f.compiles) c.session in
        record {
          seen = f.now;
          trace = look l g.trace (omega (arith, h, g.seen_before));
          seen_before = omega arith;
          menu =
              g.menu
              ∙ sym
                  (observe-quiet f.now f.uptime (newest f.presents) (newest f.compiles) c.session);
          quitted = g.quitted ∙ sym k.requested;
          blocked =
              blocked_later start timeout now f.now c.total_input_blocked_ns
                c.input_blocked_since_ns h g.blocked;
        }
