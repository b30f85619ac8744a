-- ===== src/Investigate/Campaign/Run.antt =====
-- campaign and the coordinator's part of `main` of runtime/kosmickrisp/investigate.py: the checks before
-- the first run, the loop, and the status that is written at its end.
use winecx_gptk.Common.{ℕ, Bool, not, ◌&&◌, Option, none, some, List, length, if◌then◌else◌}
use winecx_gptk.Common.Int.{ℤ, is_zero}
use winecx_gptk.Common.Text.{Text, codes, text_eq}
use winecx_gptk.Investigate.Campaign.Plan.{
  Entry, PlanError, good, bad, CampaignPlan, validate_plan, limit_runs, planned_runs,
}
use winecx_gptk.Investigate.Campaign.Loop.{
  Trial, Runs, Reason, Progress, Step, going, stops, raises, begin, run_sequence,
}

-- What the checks before the loop find, in their order.
pub record Preflight : Type 0 where
  pub resume : Bool
  pub recover_error : Option Text
  pub same_plan : Bool
  pub helper_error : Option Text
  pub permission_error : Option Text
  pub desktop_interactive : Option Bool
  pub steam_error : Option Text
  pub probe_returncode : ℤ
  pub copy_error : Option Text
  pub seed_hash : Text
  pub recorded_hash : Option Text

abbrev or_error : Option Text → Option Text → Option Text
or_error none next = next
or_error (some e) next = some e

abbrev resume_error : Preflight → Option Text
resume_error c =
    if c.resume
    then or_error c.recover_error (if c.same_plan then none else some (codes "resume_plan_changed"))
    else none

abbrev desktop_error : Option Bool → Option Text
desktop_error none = none
desktop_error (some interactive) =
    if interactive then none else some (codes "desktop_not_interactive")

abbrev probe_error : ℤ → Option Text
probe_error code = if is_zero code then none else some (codes "wine_process_preflight_failed")

abbrev seed_error : Text → Option Text → Option Text
seed_error hash none = none
seed_error hash (some recorded) =
    if text_eq recorded hash then none else some (codes "immutable_seed_changed")

unfoldable pub preflight : Preflight → Option Text
preflight c = or_error (resume_error c) (
    or_error c.helper_error (
      or_error c.permission_error (
        or_error (desktop_error c.desktop_interactive) (
          or_error c.steam_error (
            or_error (probe_error c.probe_returncode)
              (or_error c.copy_error (seed_error c.seed_hash c.recorded_hash)))))))

-- status.json; no reason is `batch_complete`.
pub record Status : Type 0 where
  pub reason : Option Reason
  pub runs : ℕ

pub data Ended : Type 0 where
  reviewed : Status → Progress → Ended
  failed : Text → Progress → Ended

abbrev status_of : Option Reason → Progress → Ended
status_of reason p = reviewed (record { reason = reason; runs = length p.results }) p

unfoldable pub close : Step → Ended
close (going p) = status_of none p
close (stops why p) = status_of (some why) p
close (raises e p) = failed e p

unfoldable pub campaign : List Entry → Preflight → (Text → Trial) → Runs → Ended
campaign es c trials runs = elim (preflight c) [
  | some e ↦ failed e (begin runs)
  | none ↦ close (run_sequence trials es (begin runs))
]

-- How `main` ends: with a plan that is refused, with an output that is there already, or with the
-- campaign.
pub data Main : Type 0 where
  refused : PlanError → Main
  output_exists_use_resume : Main
  ran : Ended → Main

unfoldable pub main :
    CampaignPlan
    → (max_runs : Option ℤ) → (out_exists : Bool) → Preflight
    → (Text → Trial)
    → Runs
    → Main
main plan max_runs out_exists c trials runs = elim (validate_plan (limit_runs max_runs plan)) [
  | some e ↦ refused e
  | none ↦
      if out_exists && not c.resume
      then output_exists_use_resume
      else elim (planned_runs (limit_runs max_runs plan)) [
        | bad e ↦ refused e
        | good es ↦ ran (campaign es c trials runs)
      ]
]
