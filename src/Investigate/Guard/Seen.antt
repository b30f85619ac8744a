-- ===== src/Investigate/Guard/Seen.antt =====
-- What `guard_run` of runtime/kosmickrisp/investigate.py reads while the game runs: the plan, the
-- state that the controller writes, the clocks, the two progress files and an inspection of the
-- process. Each may differ from round to round. A reading that raises carries the error's text.
use winecx_gptk.Common.{ℕ, ◌*◌, ◌^◌, ◌++◌, Bool, Option, none, some, List}
use winecx_gptk.Common.Text.{Text, codes}
use winecx_gptk.Investigate.Sampling.{Policy}

pub data Outcome : Type 0 where
  passed invalid crashed stalled timeout_progressing : Outcome

-- The reasons that the guard gives itself, and the texts of the controller and of errors.
pub data Reason : Type 0 where
  not_launched system_sleep serious_host_fault stop_requested : Reason
  controller_exited normal_exit_timeout : Reason
  instrumentation_progress_missing no_present_or_compile_progress : Reason
  invalid_input_starvation absolute_deadline : Reason
  process_inspection_failed owned_process_identity_changed : Reason
  unexpected_game_process wrong_driver_loaded : Reason
  menu_and_normal_exit exit_after_deadline exit_before_verified_menu : Reason
  host_evidence_incomplete : Reason
  said : Text → Reason

pub record Plan : Type 0 where
  pub startup_seconds : Option ℕ
  pub sampling_policy : Policy
  pub bundle : Text
  pub game_directory : Text
  pub has_dxvk : Bool

abbrev seconds_or_default : Option ℕ → ℕ
seconds_or_default none = 600
seconds_or_default (some n) = n

-- `plan.get('startup_seconds', 600) * 10**9`
abbrev pub startup_ns : Plan → ℕ
startup_ns p = seconds_or_default p.startup_seconds * 10 ^ 9

-- A value of controller-state.json that is a text, null or missing.
pub data Entry : Type 0 where
  absent null : Entry
  text : Text → Entry

-- controller-state.json, with `none` for a stamp or outcome that is missing or null
pub record Controller : Type 0 where
  pub outcome : Option Outcome
  pub failure : Entry
  pub reason : Entry
  pub menu_verified : Bool
  pub menu_verified_ns : Option ℕ
  pub quit_requested_ns : Option ℕ
  pub input_blocked_since_ns : Option ℕ
  pub total_input_blocked_ns : ℕ
  pub focus_recovery_count : ℕ

-- `controller_state = {}`
abbrev pub no_state : Controller
no_state = record {
  outcome = none;
  failure = absent;
  reason = absent;
  menu_verified = Bool.false;
  menu_verified_ns = none;
  quit_requested_ns = none;
  input_blocked_since_ns = none;
  total_input_blocked_ns = 0;
  focus_recovery_count = 0;
}

pub data Reading : Type 0 where
  missing : Reading
  unreadable : Text → Reading
  state : Controller → Reading

-- What `inspect_process` finds: its error, or whether the identity of the child is the one of the
-- launch, the processes of the game's executable, and the lines of `lsof`.
pub data Inspection : Type 0 where
  failed : Text → Inspection
  seen : (same_identity : Bool) → (processes : List ℕ) → (lines : List Text) → Inspection

-- One round of the loop, while the game has not ended.
pub record Tick : Type 0 where
  pub now_ns : ℕ
  pub uptime : ℕ
  pub present_csv : Option Text
  pub compile_csv : Option Text
  pub controller : Reading
  pub serious : Bool
  pub stop_request : Bool
  pub controller_ended : Bool
  pub stop_error : Option Text
  pub sampler_ended : Bool
  pub sampler_stop_error : Option Text
  pub sample_error : Option Text
  pub inspection : Option Inspection

-- What is read after the game has ended, and the time at which the report is made.
pub record Ending : Type 0 where
  pub end_ns : ℕ
  pub present_csv : Option Text
  pub compile_csv : Option Text
  pub controller : Reading
  pub report_ns : ℕ

-- `str(Path(directory) / name)`, for a directory without a slash at its end
abbrev pub join : Text → Text → Text
join directory name = directory ++ codes "/" ++ name
