-- ===== src/Gameplay/Controller/Report.antt =====
-- What startup_controller of runtime/kosmickrisp/gameplay.py reports of its session, and when it ends.
use mathlib.Core.Path.{subst}
use winecx_gptk.Common.{
  ℕ, ◌+◌, ◌*◌, ◌^◌, ◌≤◌, ◌<◌, Bool, Option, none, some, List, AllOf, ◌≡◌, sym, arith,
}
use winecx_gptk.Gameplay.Startup.Exit.{Within, ExitAfterMenu, Trace-IsSound}
use winecx_gptk.Gameplay.Controller.{
  Ui, raises, fails, answers, Frame, Setup, Control, Step, going, ended,
}
use winecx_gptk.Gameplay.Controller.Loop.{rounds, begin, startup_controller, first_activation}
use winecx_gptk.Gameplay.Controller.Commands.{control}
use winecx_gptk.Gameplay.Controller.Timed.{Timed, TimedStep, fail-Timed, Timed-later, BlockedWithin}
use winecx_gptk.Gameplay.Controller.Rounds.{
  Forward, until, AllInTime, Ran, rounds-Ran, begin-Timed, until-le,
}

module _ (start timeout : ℕ) where
  -- The report agrees with the session, and its times with each other.
  pub record Reported (end : ℕ) (c : Control) : Type 0 where
    pub menu : c.menu_verified_ns ≡ c.session.menu_verified_ns
    pub quitted : c.quit_requested_ns ≡ c.session.exit_requested_ns
    pub verified : Within start end c.menu_verified_ns
    pub requested : Within start end c.quit_requested_ns
    pub ordered : ExitAfterMenu c.menu_verified_ns c.quit_requested_ns
    pub blocked : BlockedWithin start end c.total_input_blocked_ns c.input_blocked_since_ns

  within_later : (now end : ℕ) (o : Option ℕ) → now ≤ end → Within start now o → Within start end o
  within_later now end none h w = tt
  within_later now end (some t) h w = (w.0, omega (arith, h, w.1))

  Timed-Reported : (end : ℕ) (c : Control) → Timed start timeout end c → Reported end c
  Timed-Reported end c g =
      let h = Trace-IsSound g.trace in
      record {
        menu = g.menu;
        quitted = g.quitted;
        verified =
            subst (Within start end) (sym g.menu)
              (within_later g.seen end c.session.menu_verified_ns g.seen_before h.verified);
        requested =
            subst (Within start end) (sym g.quitted)
              (within_later g.seen end c.session.exit_requested_ns g.seen_before h.requested);
        ordered =
            subst (λ m. ExitAfterMenu m c.quit_requested_ns) (sym g.menu)
              (subst (ExitAfterMenu c.session.menu_verified_ns) (sym g.quitted) h.ordered);
        blocked = g.blocked;
      }

  step-Reported : (end : ℕ) (s : Step) → TimedStep start timeout end s → Reported end (control s)
  step-Reported end (going c) g = Timed-Reported end c g
  step-Reported end (ended c) g = Timed-Reported end c g

  abbrev within_limit : ℕ → ℕ → Bool → Setup
  within_limit now pid steam_only = record {
    pid = pid;
    steam_only = steam_only;
    acquisition_deadline = now + 15 * 10 ^ 9;
  }

  controller-Ran :
      (now uptime : ℕ) (u : Setup) (frames : List Frame)
      → start ≤ now
      → Forward now frames
      → Ran start timeout now frames (rounds u frames (begin start now uptime timeout))
  controller-Ran now uptime u frames h k =
      rounds-Ran start timeout u frames now (begin start now uptime timeout) k
        (begin-Timed start timeout now uptime h)

  first_activation-Timed :
      (end : ℕ) (reply : Ui (Unit {0}) (Unit {0})) (rest : Step) (c : Control)
      → TimedStep start timeout end rest
      → Timed start timeout end c
      → TimedStep start timeout end (first_activation reply rest c)
  first_activation-Timed end (raises e) rest c h g = fail-Timed start timeout end e c g
  first_activation-Timed end (fails _) rest c h g = h
  first_activation-Timed end (answers _) rest c h g = h

  -- On a clock that never goes back, the report of the controller agrees with its session: the
  -- menu was verified and the quit asked for in this order, within the run, and the time in which
  -- input was blocked is no longer than the run has lasted.
  pub startup_controller-Reported :
      (now uptime pid : ℕ) (steam_only : Bool) (activation : Ui (Unit {0}) (Unit {0}))
      (frames : List Frame)
      → start ≤ now
      → Forward now frames
      → Reported
          (until now frames)
          (control (startup_controller start now uptime timeout pid steam_only activation frames))
  unfolding startup_controller
  startup_controller-Reported now uptime pid steam_only activation frames h k =
      let u = within_limit now pid steam_only in
      let c = begin start now uptime timeout in
      let ran = controller-Ran now uptime u frames h k in
      let c' =
        Timed-later start timeout now (until now frames) c (until-le start timeout now frames k)
          (begin-Timed start timeout now uptime h) in
      step-Reported (until now frames) (first_activation activation (rounds u frames c) c)
        (first_activation-Timed (until now frames) activation (rounds u frames c) c ran.timed c')

  going_activation :
      (reply : Ui (Unit {0}) (Unit {0})) (rest : Step) (c c' : Control)
      → first_activation reply rest c ≡ going c'
      → rest ≡ going c'
  going_activation (raises e) rest c c' h = ground arith
  going_activation (fails _) rest c c' h = h
  going_activation (answers _) rest c c' h = h

  -- On a clock that never goes back, a controller that is still going after its rounds has looked
  -- at the game only before the deadline of the session: a round at the deadline or after it ends
  -- the controller, whatever it reads.
  pub startup_controller-deadline :
      (now uptime pid : ℕ) (steam_only : Bool) (activation : Ui (Unit {0}) (Unit {0}))
      (frames : List Frame) (c : Control)
      → start ≤ now
      → Forward now frames
      → startup_controller start now uptime timeout pid steam_only activation frames ≡ going c
      → AllOf (λ f. f.now < start + timeout * 10 ^ 9) frames
  unfolding startup_controller
  startup_controller-deadline now uptime pid steam_only activation frames c h k e =
      let u = within_limit now pid steam_only in
      let b = begin start now uptime timeout in
      subst (AllInTime start timeout frames) (going_activation activation (rounds u frames b) b c e)
        (controller-Ran now uptime u frames h k).in_time
