-- ===== src/Investigate/Guard/Ladder.antt =====
-- The checks that `guard_run` of runtime/kosmickrisp/investigate.py makes in each round of its loop,
-- in their order: the first that applies gives an outcome and a reason.
use winecx_gptk.Common.{
  ℕ, ◌+◌, ◌*◌, ◌^◌, Bool, true, false, not, ◌&&◌, ◌||◌, Option, none, some, is_none, is_some, ltb,
  [], ◌∷◌, sub_ge, if◌then◌else◌,
}
use winecx_gptk.Common.Text.{codes}
use winecx_gptk.Investigate.Guard.Seen.{
  Outcome, invalid, crashed, stalled, passed, timeout_progressing, Reason, system_sleep,
  serious_host_fault, stop_requested, controller_exited, normal_exit_timeout,
  instrumentation_progress_missing, no_present_or_compile_progress, invalid_input_starvation,
  absolute_deadline, said, Plan, Controller, Entry, absent, null, text, Tick, startup_ns,
}
use winecx_gptk.Investigate.Tailing
use winecx_gptk.Investigate.Tailing.{Progress}

-- The child, and where the run started on both clocks.
pub record Start : Type 0 where
  pub pid : ℕ
  pub start_ns : ℕ
  pub start_uptime : ℕ

pub record Verdict : Type 0 where
  pub outcome : Outcome
  pub reason : Reason

-- `abs((now - start) - (uptime - start_uptime)) > 2 * 10**9`
abbrev pub slept : Start → Tick → Bool
slept s t =
    let wall = t.now_ns + s.start_uptime in
    let awake = t.uptime + s.start_ns in
    ltb (awake + 2 * 10 ^ 9) wall || ltb (wall + 2 * 10 ^ 9) awake

-- A stamp that is missing or zero is false.
abbrev pub truthy : Option ℕ → Bool
truthy none = false
truthy (some n) = ltb 0 n

abbrev pub bad_outcome : Option Outcome → Option Outcome
bad_outcome none = none
bad_outcome (some passed) = none
bad_outcome (some timeout_progressing) = none
bad_outcome (some invalid) = some invalid
bad_outcome (some crashed) = some crashed
bad_outcome (some stalled) = some stalled

-- `entry` with a default for a key that is missing; a reason of None is no reason, as an empty text.
abbrev entry_or : Reason → Entry → Reason
entry_or default absent = default
entry_or default null = said []
entry_or default (text t) = said t

-- `controller_state.get('failure', controller_state.get('reason', 'controller_failed'))`
abbrev failure_reason : Controller → Reason
failure_reason c = entry_or (entry_or (said (codes "controller_failed")) c.reason) c.failure

-- `now_ns - controller_state['quit_requested_ns'] >= 60 * 10**9`, where the quit was asked for
abbrev pub overdue : ℕ → Option ℕ → Bool
overdue now none = false
overdue now (some quit) = ltb 0 quit && sub_ge now quit (60 * 10 ^ 9)

abbrev stall_verdict : Progress → Verdict
stall_verdict p =
    if is_none p.present.first
    then record { outcome = invalid; reason = instrumentation_progress_missing }
    else record { outcome = stalled; reason = no_present_or_compile_progress }

abbrev deadline_verdict : Controller → Verdict
deadline_verdict c =
    if is_some c.input_blocked_since_ns
    then record { outcome = invalid; reason = invalid_input_starvation }
    else record { outcome = timeout_progressing; reason = absolute_deadline }

-- The last four checks.
abbrev time_rung : Start → Plan → Tick → Controller → Progress → Option Verdict
time_rung s plan t c p =
    if t.controller_ended && not (truthy c.quit_requested_ns)
    then some (record { outcome = invalid; reason = controller_exited })
    else if overdue t.now_ns c.quit_requested_ns
    then some (record { outcome = stalled; reason = normal_exit_timeout })
    else if Tailing.stalled t.now_ns p
    then some (stall_verdict p)
    else if sub_ge t.now_ns s.start_ns (startup_ns plan)
    then some (deadline_verdict c)
    else none

abbrev controller_rung :
    Start → Plan → Tick → Controller → Progress → Option Outcome → Option Verdict
controller_rung s plan t c p (some outcome) =
    some (record { outcome = outcome; reason = failure_reason c })
controller_rung s plan t c p none = time_rung s plan t c p

unfoldable pub rung : Start → Plan → Tick → Controller → Progress → Option Verdict
rung s plan t c p =
    if slept s t
    then some (record { outcome = invalid; reason = system_sleep })
    else if t.serious
    then some (record { outcome = invalid; reason = serious_host_fault })
    else if t.stop_request
    then some (record { outcome = invalid; reason = stop_requested })
    else controller_rung s plan t c p (bad_outcome c.outcome)

-- `if reason:`, which a text without characters is not
abbrev pub given : Reason → Bool
given (said []) = false
given (said (_ ∷ _)) = true
given _ = true
