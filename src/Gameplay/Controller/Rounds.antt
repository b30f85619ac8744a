-- ===== src/Gameplay/Controller/Rounds.antt =====
-- The rounds of startup_controller of runtime/kosmickrisp/gameplay.py on a clock that never goes back:
-- its session is a run of StartupSession, and a controller that goes on is in time.
use winecx_gptk.Common.{
  ℕ, ◌+◌, ◌-◌, ◌*◌, ◌^◌, ◌≤◌, ◌<◌, Bool, true, false, ◌&&◌, ◌||◌, not, Option, none, some, is_some,
  List, [], ◌∷◌, leb, AllOf, if◌then◌else◌, ◌≡◌, refl, arith,
}
use winecx_gptk.Gameplay.Startup.{Outcome, outcome}
use winecx_gptk.Gameplay.Startup.Run.{Look, Trace, look, ask}
use winecx_gptk.Gameplay.Startup.Run
use winecx_gptk.Gameplay.Startup.Exit.{running_is_bounded}
use winecx_gptk.Gameplay.Controller.{Frame, Setup, Control, Step, going, ended}
use winecx_gptk.Gameplay.Controller.Loop.{with_capture, note_progress, judged, round, rounds, begin}
use winecx_gptk.Gameplay.Controller.Commands.{is_some-none}
use winecx_gptk.Gameplay.Controller.Timed.{Timed, TimedStep, Timed-later}
use winecx_gptk.Gameplay.Controller.Screens.{with_capture-Timed, starved-Timed, progress-Timed}

-- The clocks of the rounds, from a time on.
abbrev pub Forward : ℕ → List Frame → Type 0
Forward now [] = Unit {0}
Forward now (f ∷ fs) = (now ≤ f.now) × (f.now ≤ f.seen_now) × Forward f.seen_now fs

-- The clock of the last round.
abbrev pub until : ℕ → List Frame → ℕ
until now [] = now
until now (f ∷ fs) = until f.seen_now fs

module _ (start timeout : ℕ) where
  module _ (u : Setup) (f : Frame) where
    -- A step that goes on was in time.
    abbrev InTime : Step → Type 0
    InTime (going c) = f.now < start + timeout * 10 ^ 9
    InTime (ended c) = Unit {0}

    record Rounded (s : Step) : Type 0 where
      timed : TimedStep start timeout f.seen_now s
      in_time : InTime s

    in_time : (s : Step) → f.now < start + timeout * 10 ^ 9 → InTime s
    in_time (going c) h = h
    in_time (ended c) h = tt

    if-Rounded : (b : Bool) (s t : Step) → Rounded s → Rounded t → Rounded (if b then s else t)
    if-Rounded true s t h k = h
    if-Rounded false s t h k = k

    going_or_seen :
        (b : Bool) (c : Control)
        → f.now ≤ f.seen_now
        → Timed start timeout f.now c
        → is_some c.session.exit_requested_ns ≡ b
        → TimedStep start timeout f.seen_now (if b then going c else with_capture u f f.capture c)
    going_or_seen true c h g e = Timed-later start timeout f.now f.seen_now c h g
    going_or_seen false c h g e =
        with_capture-Timed start timeout u f f.capture c h g
          (is_some-none c.session.exit_requested_ns e)

    judged-Rounded :
        (o : Option Outcome) (c : Control)
        → f.now ≤ f.seen_now
        → Timed start timeout f.now c
        → outcome f.now none c.session ≡ o
        → Rounded (judged u f o c)
    judged-Rounded (some o) c h g e =
        let late = leb c.session.deadline f.now && is_some c.input_blocked_since_ns in
        record {
          timed =
              starved-Timed start timeout u f f.seen_now late c
                (Timed-later start timeout f.now f.seen_now c h g);
          in_time = tt;
        }
    judged-Rounded none c h g e =
        let is_asked = is_some c.session.exit_requested_ns in
        record {
          timed = going_or_seen is_asked c h g refl;
          in_time =
              in_time (if is_asked then going c else with_capture u f f.capture c)
                (running_is_bounded f.now g.trace e).0;
        }

    round-Rounded :
        (now : ℕ) (c : Control)
        → now ≤ f.now
        → f.now ≤ f.seen_now
        → Timed start timeout now c
        → Rounded (round u f c)
    unfolding round
    round-Rounded now c h k g =
        if-Rounded (not f.alive || f.guardian_stop) (ended c)
          (judged u f (note_progress f c).outcome (note_progress f c))
          (record {
            timed = Timed-later start timeout now f.seen_now c (omega (arith, h, k)) g;
            in_time = tt;
          })
          (judged-Rounded (note_progress f c).outcome (note_progress f c) k
            (progress-Timed start timeout u f now c h g) refl)

  pub until-le : (now : ℕ) (fs : List Frame) → Forward now fs → now ≤ until now fs
  until-le now [] h = omega arith
  until-le now (f ∷ fs) h = omega (arith, h.0, h.1, until-le f.seen_now fs h.2)

  pub step-later :
      (now later : ℕ) (s : Step)
      → now ≤ later
      → TimedStep start timeout now s
      → TimedStep start timeout later s
  step-later now later (going c) h g = Timed-later start timeout now later c h g
  step-later now later (ended c) h g = Timed-later start timeout now later c h g

  -- The rounds up to the end, and that they were in time if the controller is still going.
  abbrev pub AllInTime : List Frame → Step → Type 0
  AllInTime fs (going c) = AllOf (λ (f : Frame). f.now < start + timeout * 10 ^ 9) fs
  AllInTime fs (ended c) = Unit {0}

  in_time_cons :
      (f : Frame) (fs : List Frame) (s : Step)
      → f.now < start + timeout * 10 ^ 9
      → AllInTime fs s
      → AllInTime (f ∷ fs) s
  in_time_cons f fs (going c) h k = (h, k)
  in_time_cons f fs (ended c) h k = tt

  pub record Ran (now : ℕ) (fs : List Frame) (s : Step) : Type 0 where
    pub timed : TimedStep start timeout (until now fs) s
    pub in_time : AllInTime fs s

  chain-Ran :
      (u : Setup) (f : Frame) (fs : List Frame) (now : ℕ) (s : Step)
      → Forward f.seen_now fs
      → Rounded u f s
      → ((c : Control) → Timed start timeout f.seen_now c → Ran f.seen_now fs (rounds u fs c))
      → Ran now (f ∷ fs) (elim s [ going c' ↦ rounds u fs c' | ended c' ↦ ended c' ])
  chain-Ran u f fs now (going c) h r k =
      let rest = k c r.timed in
      record {
        timed = rest.timed;
        in_time = in_time_cons f fs (rounds u fs c) r.in_time rest.in_time;
      }
  chain-Ran u f fs now (ended c) h r k = record {
    timed =
        step-later f.seen_now (until f.seen_now fs) (ended c) (until-le f.seen_now fs h) r.timed;
    in_time = tt;
  }

  pub rounds-Ran :
      (u : Setup) (fs : List Frame) (now : ℕ) (c : Control)
      → Forward now fs
      → Timed start timeout now c
      → Ran now fs (rounds u fs c)
  unfolding rounds
  rounds-Ran u [] now c h g = record { timed = g; in_time = tt }
  rounds-Ran u (f ∷ fs) now c h g =
      chain-Ran u f fs now (round u f c) h.2 (round-Rounded u f now c h.0 h.1 g)
        (λ c' g'. rounds-Ran u fs f.seen_now c' h.2 g')

  pub begin-Timed :
      (now uptime : ℕ) → start ≤ now → Timed start timeout now (begin start now uptime timeout)
  unfolding begin
  begin-Timed now uptime h = record {
    seen = start;
    trace = Run.begin (uptime - (now - start));
    seen_before = h;
    menu = refl;
    quitted = refl;
    blocked = omega (arith, h);
  }
