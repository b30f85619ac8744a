-- ===== src/Investigate/Guard/Run.antt =====
-- guard_run of runtime/kosmickrisp/investigate.py: the launch, the loop, the verdict, and the cleanup
-- that is done whatever happened before it.
use winecx_gptk.Common.{
  Bool, true, false, ◌&&◌, Option, none, some, List, [], ◌∷◌, ◌++◌, if◌then◌else◌,
}
use winecx_gptk.Common.Int.{ℤ}
use winecx_gptk.Common.Text.{Text, codes}
use winecx_gptk.Investigate.Guard.Seen.{
  Outcome, passed, invalid, Reason, said, serious_host_fault, host_evidence_incomplete, Plan, Tick,
  Ending,
}
use winecx_gptk.Investigate.Guard.Ladder.{Start}
use winecx_gptk.Investigate.Guard.Loop.{Round, running, stopped, raised, SampleRecord, begin, watch}
use winecx_gptk.Investigate.Guard.Verdict.{Report, report, after_loop, without_present}

-- How far the launch came: which of the child, the controller and the host monitor there is.
pub data Phase : Type 0 where
  nothing with_child with_controller with_monitor : Phase

-- The steps of the launch in their order, with the error of each that raises.
pub record Launch : Type 0 where
  pub game_already_running : Bool
  pub prepare_error : Option Text
  pub child_error : Option Text
  pub identity_known : Bool
  pub owner_error : Option Text
  pub controller_error : Option Text
  pub monitor_error : Option Text

pub record Stop : Type 0 where
  pub phase : Phase
  pub error : Text

abbrev fails_at : Phase → Option Text → Option Stop → Option Stop
fails_at phase none next = next
fails_at phase (some e) next = some (record { phase = phase; error = e })

unfoldable pub launch : Launch → Option Stop
launch l =
    if l.game_already_running
    then some (record { phase = nothing; error = codes "RuntimeError: game_already_running" })
    else fails_at nothing l.prepare_error (
        fails_at nothing l.child_error (
          if l.identity_known
          then fails_at with_child l.owner_error (
              fails_at with_child l.controller_error
                (fails_at with_controller l.monitor_error none))
          else some (record {
            phase = with_child;
            error = codes "RuntimeError: launch_identity_unavailable";
          })))

-- What the cleanup meets.
pub record Cleanup : Type 0 where
  pub sentinel_error : Option Text
  pub child_signal : Option Text
  pub controller_signal : Option Text
  pub sampler_signal : Option Text
  pub ui_group_error : Option Text
  pub child_reap : Option Text
  pub controller_reap : Option Text
  pub sampler_reap : Option Text
  pub child_alive : Bool
  pub returncode : Option ℤ
  pub restore_error : Option Text
  pub serious : Bool
  pub incomplete : Bool

pub record Result : Type 0 where
  pub outcome : Outcome
  pub reason : Reason
  pub report : Option Report
  pub returncode : Option ℤ
  pub restored : Bool
  pub restoration_error : Option Text
  pub host_monitor_incomplete : Bool
  pub cleanup_errors : List Text
  pub samples : List SampleRecord

-- What the `try` block leaves.
pub record Attempt : Type 0 where
  pub outcome : Outcome
  pub reason : Reason
  pub report : Option Report
  pub phase : Phase
  pub samples : List SampleRecord

unfoldable pub settle : Start → Ending → Round → Attempt
unfolding without_present report
settle s e (running w) = record {
  outcome = (without_present w).outcome;
  reason = (without_present w).reason;
  report = some (report s e.report_ns w);
  phase = with_monitor;
  samples = w.samples;
}
settle s e (stopped w) = record {
  outcome = (without_present w).outcome;
  reason = (without_present w).reason;
  report = some (report s e.report_ns w);
  phase = with_monitor;
  samples = w.samples;
}
settle s e (raised error w) = record {
  outcome = invalid;
  reason = said error;
  report = none;
  phase = with_monitor;
  samples = w.samples;
}

abbrev pub try_launched : Plan → Start → List Tick → Ending → ℤ → Option Stop → Attempt
try_launched plan s ticks e returncode (some stop) = record {
  outcome = invalid;
  reason = said stop.error;
  report = none;
  phase = stop.phase;
  samples = [];
}
try_launched plan s ticks e returncode none =
    settle s e (after_loop s plan e returncode (watch s plan ticks (begin s)))

unfoldable pub attempt : Plan → Launch → Start → List Tick → Ending → ℤ → Attempt
unfolding launch settle after_loop watch begin
attempt plan l s ticks e returncode = try_launched plan s ticks e returncode (launch l)

abbrev pub has_child : Phase → Bool
has_child nothing = false
has_child _ = true

abbrev pub has_controller : Phase → Bool
has_controller nothing = false
has_controller with_child = false
has_controller _ = true

abbrev pub has_monitor : Phase → Bool
has_monitor with_monitor = true
has_monitor _ = false

abbrev has_sampler : List SampleRecord → Bool
has_sampler [] = false
has_sampler (_ ∷ _) = true

abbrev note_error : Bool → Text → Option Text → List Text
note_error there prefix none = []
note_error there prefix (some e) = if there then (prefix ++ e) ∷ [] else []

unfoldable pub cleanup_errors : Attempt → Cleanup → List Text
cleanup_errors a c =
    note_error true (codes "sentinel: ") c.sentinel_error
    ++ (note_error (has_child a.phase) (codes "signal: ") c.child_signal
        ++ (note_error (has_controller a.phase) (codes "signal: ") c.controller_signal
            ++ (note_error (has_sampler a.samples) (codes "signal: ") c.sampler_signal
                ++ (note_error true (codes "ui_group: ") c.ui_group_error
                    ++ (note_error (has_child a.phase) (codes "reap: ") c.child_reap
                        ++ (note_error (has_controller a.phase) (codes "reap: ") c.controller_reap
                            ++ note_error (has_sampler a.samples) (codes "reap: ")
                                c.sampler_reap))))))

-- The error of the restoration, which a live game forbids.
unfoldable pub restoration : Attempt → Cleanup → Option Text
restoration a c =
    if has_child a.phase && c.child_alive
    then some (codes "live_game_blocks_restoration")
    else c.restore_error

-- `result` while the cleanup changes it.
pub record Ruling : Type 0 where
  pub outcome : Outcome
  pub reason : Reason

abbrev after_restoration : Option Text → Ruling → Ruling
after_restoration none r = r
after_restoration (some _) r = record r { outcome = invalid }

abbrev not_passed : Ruling → Ruling
not_passed r = elim r.outcome [
  | passed ↦ record { outcome = invalid; reason = host_evidence_incomplete }
  | _ ↦ r
]

abbrev after_monitor : Bool → Cleanup → Ruling → Ruling
after_monitor monitored c r =
    if monitored
    then if c.serious
      then record { outcome = invalid; reason = serious_host_fault }
      else if c.incomplete
      then not_passed r
      else r
    else r

abbrev after_cleanup : List Text → Ruling → Ruling
after_cleanup [] r = r
after_cleanup (_ ∷ _) r = record r { outcome = invalid }

unfoldable pub rule : Attempt → Cleanup → Ruling
rule a c = after_cleanup (cleanup_errors a c) (
    after_monitor (has_monitor a.phase) c
      (after_restoration (restoration a c) (record { outcome = a.outcome; reason = a.reason })))

abbrev code_of : Bool → Option ℤ → Option ℤ
code_of there code = if there then code else none

abbrev restored_by : Option Text → Bool
restored_by none = true
restored_by (some _) = false

unfoldable pub finally_step : Attempt → Cleanup → Result
unfolding rule
finally_step a c = record {
  outcome = (rule a c).outcome;
  reason = (rule a c).reason;
  report = a.report;
  returncode = code_of (has_child a.phase) c.returncode;
  restored = restored_by (restoration a c);
  restoration_error = restoration a c;
  host_monitor_incomplete =
      if has_monitor a.phase then (if c.serious then false else c.incomplete) else false;
  cleanup_errors = cleanup_errors a c;
  samples = a.samples;
}

unfoldable pub guard_run : Plan → Launch → Start → List Tick → Ending → ℤ → Cleanup → Result
unfolding attempt finally_step
guard_run plan l s ticks e returncode c = finally_step (attempt plan l s ticks e returncode) c
