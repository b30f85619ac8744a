-- ===== src/Gameplay/Controller/Sending.antt =====
-- The rounds of startup_controller of runtime/kosmickrisp/gameplay.py, and all the commands that it sends
-- to the game, whatever its readings are.
use mathlib.Core.Path.{subst}
use winecx_gptk.Common.{
  ℕ, ◌+◌, ◌*◌, ◌^◌, ◌≤◌, Bool, true, false, ◌&&◌, ◌||◌, not, Option, none, some, is_some, List, [],
  ◌∷◌, ltb, leb, leb→le, sub_ge, if◌then◌else◌, ◌≡◌, refl, sym, ◌∙◌, arith,
}
use winecx_gptk.Common.Text.{Text, codes}
use winecx_gptk.Gameplay.Screen.{Input, startup_action}
use winecx_gptk.Gameplay.Startup.{StartupSession, Outcome, invalid, observe, request_exit, init}
use winecx_gptk.Gameplay.Startup.Kept.{Kept, observe-Kept}
use winecx_gptk.Gameplay.Focus.{fresh}
use winecx_gptk.Gameplay.Controller.{
  Ui, raises, fails, answers, CaptureFailure, Frame, Setup, quit, Control, Step, going, ended, fail,
  blocked, send,
}
use winecx_gptk.Gameplay.Controller.Loop.{
  act, quitted, asked, respond, note_screen, unblock, with_text, with_capture, newest,
  note_progress, judged, round, rounds, begin, startup_controller, first_activation,
}
use winecx_gptk.Gameplay.Controller.Commands.{
  Spaced, fronts, QuitLast, QuitLast-NoQuit, QuitLast-later, is_some-none, Good, GoodStep, if-Good,
  fail-Good, blocked-Good, Open, with_status-Good, control,
}

module _ (u : Setup) where
  act-Good :
      (f : Frame) (next : Option Input) (c : Control)
      → Open u c
      → c.last_action + 5 * 10 ^ 9 ≤ f.seen_now
      → GoodStep u (act u f next c)
  act-Good f none c g r = g.good
  act-Good f (some input) c g r = with_status-Good u f input f.status c g r

  quitted-Good :
      (reply : Ui Bool (Unit {0})) (c : Control) → Good u c → GoodStep u (quitted reply c)
  quitted-Good (raises e) c g = fail-Good u e c g
  quitted-Good (fails true) c g = fail-Good u _ c g
  quitted-Good (fails false) c g = g
  quitted-Good (answers _) c g = g

  asked-Good :
      (f : Frame) (o : Option StartupSession) (c : Control)
      → Open u c
      → request_exit f.seen_now c.session ≡ o
      → GoodStep u (asked f o c)
  unfolding request_exit
  asked-Good f none c g e = fail-Good u _ c g.good
  asked-Good f (some s) c g e =
      let quiet = QuitLast-NoQuit c.session.menu_verified_ns c.commands g.unasked g.good.last in
      let unasked = g.unasked in
      let requested : s.exit_requested_ns ≡ some f.seen_now = ground arith in
      let verified : is_some s.menu_verified_ns ≡ true = ground arith in
      quitted-Good f.quit_alive
        (record (send (quit f.seen_now) c) { session = s; quit_requested_ns = some f.seen_now })
        (record {
          spaced = g.good.spaced;
          fronted = g.good.fronted;
          at_most = g.good.at_most;
          last =
              subst (λ r. QuitLast r s.menu_verified_ns (quit f.seen_now ∷ c.commands))
                (sym requested) (refl, verified, quiet);
        })

  respond-Good :
      (f : Frame) (next : Option Input) (c : Control) → Open u c → GoodStep u (respond u f next c)
  unfolding respond
  respond-Good f next c g =
      let rested = sub_ge f.seen_now c.last_action (5 * 10 ^ 9) in
      let later = if rested then act u f next c else going c in
      if-Good u (is_some c.session.menu_verified_ns) (asked f (request_exit f.seen_now c.session) c)
        later (λ _. asked-Good f (request_exit f.seen_now c.session) c g refl)
        (λ _.
          if-Good u rested (act u f next c) (going c)
            (λ e. act-Good f next c g (leb→le (c.last_action + 5 * 10 ^ 9) f.seen_now e))
            (λ _. g.good))

  observed_Good :
      (s : StartupSession) (c : Control)
      → Kept c.session s
      → Good u c
      → Good u (record c { session = s })
  observed_Good s c k g = record {
    spaced = g.spaced;
    fronted = g.fronted;
    at_most = g.at_most;
    last =
        subst (λ r. QuitLast r s.menu_verified_ns c.commands) (sym k.requested)
          (QuitLast-later c.session.exit_requested_ns c.session.menu_verified_ns s.menu_verified_ns
            c.commands k.verified g.last);
  }

  looked : (f : Frame) (text : Text) (c : Control) → Open u c → Open u (note_screen f text c)
  looked f text c g =
      let k = observe-Kept f.seen_now f.seen_uptime (some text) none none c.session in
      let g' =
        observed_Good (observe f.seen_now f.seen_uptime (some text) none none c.session) c k
          g.good in
      record {
        good = record {
          spaced = g'.spaced;
          fronted = g'.fronted;
          at_most = g'.at_most;
          last = g'.last;
        };
        unasked = k.requested ∙ g.unasked;
      }

  unblocked : (f : Frame) (next : Option Input) (c : Control) → Open u c → Open u (unblock f next c)
  unfolding blocked
  unblocked f none c g = record {
    good = blocked-Good u false f.seen_now c g.good;
    unasked = g.unasked;
  }
  unblocked f (some _) c g = g

  with_text-Good :
      (f : Frame) (reply : Ui (Unit {0}) Text) (c : Control)
      → Open u c
      → GoodStep u (with_text u f reply c)
  unfolding with_text
  with_text-Good f (raises e) c g = fail-Good u e c g.good
  with_text-Good f (fails _) c g = fail-Good u _ c g.good
  with_text-Good f (answers text) c g =
      let next = startup_action text in
      respond-Good f next (unblock f next (note_screen f text c))
        (unblocked f next (note_screen f text c) (looked f text c g))

  with_capture-Good :
      (f : Frame) (reply : Ui CaptureFailure (Unit {0})) (c : Control)
      → Open u c
      → GoodStep u (with_capture u f reply c)
  unfolding with_capture
  with_capture-Good f (raises e) c g = fail-Good u e c g.good
  with_capture-Good f (fails x) c g =
      let waiting = not c.window_seen && ltb x.later u.acquisition_deadline in
      let lost =
        if c.window_seen then codes "window_capture_lost" else codes "initial_window_timeout" in
      let gone = if waiting then going c else fail lost c in
      if-Good u x.not_interactive (fail (codes "desktop_not_interactive") c) gone
        (λ _. fail-Good u _ c g.good)
        (λ _.
          if-Good u waiting (going c) (fail lost c) (λ _. g.good) (λ _. fail-Good u lost c g.good))
  with_capture-Good f (answers _) c g =
      let k = g.good in
      with_text-Good f f.ocr (record c { window_seen = true })
        (record {
          good = record {
            spaced = k.spaced;
            fronted = k.fronted;
            at_most = k.at_most;
            last = k.last;
          };
          unasked = g.unasked;
        })

  starved-Good :
      (b : Bool) (c : Control)
      → Good u c
      → Good u (
          if b
          then record c {
            outcome = some invalid;
            failure = some (codes "invalid_input_starvation");
          }
          else c)
  starved-Good true c g = record {
    spaced = g.spaced;
    fronted = g.fronted;
    at_most = g.at_most;
    last = g.last;
  }
  starved-Good false c g = g

  judged-Good :
      (f : Frame) (o : Option Outcome) (c : Control) → Good u c → GoodStep u (judged u f o c)
  judged-Good f (some o) c g =
      starved-Good (leb c.session.deadline f.now && is_some c.input_blocked_since_ns) c g
  judged-Good f none c g =
      if-Good u (is_some c.session.exit_requested_ns) (going c) (with_capture u f f.capture c)
        (λ _. g)
        (λ e.
          with_capture-Good f f.capture c
            (record { good = g; unasked = is_some-none c.session.exit_requested_ns e }))

  round-Good : (f : Frame) (c : Control) → Good u c → GoodStep u (round u f c)
  unfolding round
  round-Good f c g =
      let k = observe-Kept f.now f.uptime none (newest f.presents) (newest f.compiles) c.session in
      let s = observe f.now f.uptime none (newest f.presents) (newest f.compiles) c.session in
      let o = observed_Good s c k g in
      let n = note_progress f c in
      if-Good u (not f.alive || f.guardian_stop) (ended c) (judged u f n.outcome n) (λ _. g)
        (λ _.
          judged-Good f n.outcome n
            (record { spaced = o.spaced; fronted = o.fronted; at_most = o.at_most; last = o.last }))

  chain-Good :
      (s : Step) (fs : List Frame)
      → GoodStep u s
      → ((c : Control) → Good u c → GoodStep u (rounds u fs c))
      → GoodStep u (elim s [ going c' ↦ rounds u fs c' | ended c' ↦ ended c' ])
  chain-Good (going c) fs g k = k c g
  chain-Good (ended c) fs g k = g

  rounds-Good : (fs : List Frame) (c : Control) → Good u c → GoodStep u (rounds u fs c)
  unfolding rounds
  rounds-Good [] c g = g
  rounds-Good (f ∷ fs) c g =
      chain-Good (round u f c) fs (round-Good f c g) (λ c' g'. rounds-Good fs c' g')

  begin-Good : (start_ns now uptime timeout : ℕ) → Good u (begin start_ns now uptime timeout)
  unfolding begin init fresh
  begin-Good start_ns now uptime timeout = record {
    spaced = tt;
    fronted = refl;
    at_most = omega arith;
    last = tt;
  }

-- What the controller has sent.
pub record Sent (pid : ℕ) (c : Control) : Type 0 where
  pub spaced : Spaced pid (c.last_action + 5 * 10 ^ 9) c.commands
  pub recoveries : fronts c.commands ≤ 3
  pub last : QuitLast c.session.exit_requested_ns c.session.menu_verified_ns c.commands

Good-Sent : (u : Setup) (s : Step) → GoodStep u s → Sent u.pid (control s)
Good-Sent u (going c) g = record {
  spaced = g.spaced;
  recoveries = omega (arith, g.fronted, g.at_most);
  last = g.last;
}
Good-Sent u (ended c) g = record {
  spaced = g.spaced;
  recoveries = omega (arith, g.fronted, g.at_most);
  last = g.last;
}

activation-Good :
    (u : Setup) (reply : Ui (Unit {0}) (Unit {0})) (rest : Step) (c : Control)
    → GoodStep u rest
    → Good u c
    → GoodStep u (first_activation reply rest c)
activation-Good u (raises e) rest c h g = fail-Good u e c g
activation-Good u (fails _) rest c h g = h
activation-Good u (answers _) rest c h g = h

-- Whatever the controller reads: it quits the game at most once, after it has verified the menu
-- and as its last command, at the time that the session has for the request; each input that the
-- game has taken was sent with the game in front, at least five seconds after the one before; and
-- the game is brought to the front again at most three times.
pub startup_controller-Sent :
    (start_ns now uptime timeout pid : ℕ) (steam_only : Bool)
    (activation : Ui (Unit {0}) (Unit {0})) (frames : List Frame)
    → Sent pid
        (control (startup_controller start_ns now uptime timeout pid steam_only activation frames))
unfolding startup_controller
startup_controller-Sent start_ns now uptime timeout pid steam_only activation frames =
    let u : Setup = record {
      pid = pid;
      steam_only = steam_only;
      acquisition_deadline = now + 15 * 10 ^ 9;
    } in
    let c = begin start_ns now uptime timeout in
    let g = begin-Good u start_ns now uptime timeout in
    Good-Sent u (first_activation activation (rounds u frames c) c)
      (activation-Good u activation (rounds u frames c) c (rounds-Good u frames c g) g)
