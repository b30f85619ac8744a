-- ===== src/Investigate/Guard/Verdict.antt =====
-- The part of `guard_run` of runtime/kosmickrisp/investigate.py after its loop: the verdict on a game
-- that has ended by itself, and the fields of the report.
use winecx_gptk.Common.{
  ℕ, ◌+◌, ◌-◌, ◌*◌, ◌^◌, Bool, false, ◌&&◌, not, Option, none, some, is_none, leb, length, sub_lt,
  if◌then◌else◌,
}
use winecx_gptk.Common.Int.{ℤ, is_zero}
use winecx_gptk.Investigate.Guard.Seen.{
  passed, invalid, crashed, stalled, timeout_progressing, instrumentation_progress_missing,
  menu_and_normal_exit, exit_after_deadline, exit_before_verified_menu, Plan, Controller, Ending,
  startup_ns,
}
use winecx_gptk.Investigate.Guard.Ladder.{Start, Verdict, truthy}
use winecx_gptk.Investigate.Guard.Loop.{
  Watch, Round, running, stopped, raised, and_then, read_controller, update_progress,
}
use winecx_gptk.Investigate.Tailing

-- `0 <= end_ns - quit_ns < 60 * 10**9`, where a quit was asked for
abbrev pub quit_lately : ℕ → Option ℕ → Bool
quit_lately end none = false
quit_lately end (some quit) = leb quit end && sub_lt end quit (60 * 10 ^ 9)

unfoldable pub within_deadline : Start → Plan → ℕ → Controller → Bool
within_deadline s plan end c =
    sub_lt end s.start_ns (startup_ns plan) && quit_lately end c.quit_requested_ns

-- `start_ns <= menu_ns <= quit_ns <= end_ns`, where both are there
abbrev pub in_order : (start : ℕ) → (menu quit : Option ℕ) → (end : ℕ) → Bool
in_order start none quit end = false
in_order start (some menu) none end = false
in_order start (some menu) (some quit) end = leb start menu && (leb menu quit && leb quit end)

unfoldable pub verified : Start → ℕ → Controller → Bool
verified s end c =
    c.menu_verified
    && (in_order s.start_ns c.menu_verified_ns c.quit_requested_ns end && is_none c.outcome)

unfoldable pub exit_verdict : Start → Plan → ℕ → ℤ → Watch → Verdict
unfolding within_deadline verified
exit_verdict s plan end returncode w =
    let c = w.controller in
    if is_zero returncode
      && (verified s end c
          && (w.loaded && (truthy w.progress.present.first && within_deadline s plan end c)))
    then record { outcome = passed; reason = menu_and_normal_exit }
    else if not (within_deadline s plan end c) && verified s end c
    then record {
      outcome = if Tailing.stalled end w.progress then stalled else timeout_progressing;
      reason = exit_after_deadline;
    }
    else record {
      outcome = if is_zero returncode then invalid else crashed;
      reason = exit_before_verified_menu;
    }

abbrev pub decide : Verdict → Watch → Watch
decide v w = record w { outcome = v.outcome; reason = v.reason }

unfoldable pub conclude : Start → Plan → Ending → ℤ → Watch → Round
unfolding exit_verdict and_then read_controller
conclude s plan e returncode w =
    and_then (read_controller e.controller (update_progress e.present_csv e.compile_csv e.end_ns w))
      (λ w'. running (decide (exit_verdict s plan e.end_ns returncode w') w'))

-- Only a loop that has no reason to stop waits for the end of the game.
unfoldable pub after_loop : Start → Plan → Ending → ℤ → Round → Round
unfolding conclude
after_loop s plan e returncode (running w) = conclude s plan e returncode w
after_loop s plan e returncode (stopped w) = stopped w
after_loop s plan e returncode (raised error w) = raised error w

-- A stall before the first frame says nothing of the game.
unfoldable pub without_present : Watch → Watch
without_present w = elim w.outcome [
  | stalled ↦
      if is_none w.progress.present.first
      then record w { outcome = invalid; reason = instrumentation_progress_missing }
      else w
  | _ ↦ w
]

-- The fields that the last `result.update` of the `try` block adds.
pub record Report : Type 0 where
  pub pid : ℕ
  pub start_ns : ℕ
  pub menu_verified : Bool
  pub menu_verified_ns : Option ℕ
  pub first_present_ns : Option ℕ
  pub last_present_ns : ℕ
  pub last_compile_ns : ℕ
  pub samples_requested : ℕ
  pub driver_verified : Bool
  pub input_blocked_since_ns : Option ℕ
  pub total_input_blocked_ns : ℕ
  pub focus_recovery_count : ℕ

-- `max(0, now - since)`, where the input is blocked
abbrev blocked_now : ℕ → Option ℕ → ℕ
blocked_now now none = 0
blocked_now now (some since) = now - since

unfoldable pub report : Start → ℕ → Watch → Report
report s now w = record {
  pid = s.pid;
  start_ns = s.start_ns;
  menu_verified = w.controller.menu_verified;
  menu_verified_ns = w.controller.menu_verified_ns;
  first_present_ns = w.progress.present.first;
  last_present_ns = w.progress.present.last;
  last_compile_ns = w.progress.compile.last;
  samples_requested = length w.samples;
  driver_verified = w.loaded;
  input_blocked_since_ns = w.controller.input_blocked_since_ns;
  total_input_blocked_ns =
      w.controller.total_input_blocked_ns + blocked_now now w.controller.input_blocked_since_ns;
  focus_recovery_count = w.controller.focus_recovery_count;
}
