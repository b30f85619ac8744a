-- ===== src/Gameplay/Startup.antt =====
-- class StartupSession of runtime/kosmickrisp/gameplay.py. Clock values are nanoseconds.
pub mod Run
pub mod Menu
pub mod Exit
mod Newest
pub mod Kept
use winecx_gptk.Common.{
  ℕ, ◌+◌, ◌*◌, ◌^◌, Bool, false, ◌&&◌, Option, none, some, ltb, leb, min, max, is_some, is_none,
  sub_gt, sub_ge, sub_lt, if◌then◌else◌,
}
use winecx_gptk.Common.Int.{ℤ, is_zero}
use winecx_gptk.Common.Text.{Text}
use winecx_gptk.Gameplay.Screen.{startup_menu}

pub data Failure : Type 0 where
  system_sleep : Failure

pub data Outcome : Type 0 where
  passed crashed stalled invalid timeout_progressing : Outcome

pub record StartupSession : Type 0 where
  pub started : ℕ
  pub previous_now : ℕ
  pub previous_uptime : ℕ
  pub deadline : ℕ
  pub no_progress_ns : ℕ
  pub exit_ns : ℕ
  pub last_progress : ℕ
  pub last_present : Option ℕ
  pub last_compile : Option ℕ
  pub menu_observations : ℕ
  pub menu_verified_ns : Option ℕ
  pub exit_requested_ns : Option ℕ
  pub failure : Option Failure

-- `__init__`; the defaults are 600, 45 and 60 seconds
unfoldable pub init : (now uptime timeout no_progress_seconds exit_seconds : ℕ) → StartupSession
init now uptime timeout no_progress_seconds exit_seconds = record {
  started = now;
  previous_now = now;
  previous_uptime = uptime;
  deadline = now + timeout * 10 ^ 9;
  no_progress_ns = no_progress_seconds * 10 ^ 9;
  exit_ns = exit_seconds * 10 ^ 9;
  last_progress = now;
  last_present = none;
  last_compile = none;
  menu_observations = 0;
  menu_verified_ns = none;
  exit_requested_ns = none;
  failure = none;
}

-- The test of the `for` loop in `observe`: a stamp counts if it lies in the run and is news.
abbrev is_news : ℕ → ℕ → Option ℕ → ℕ → Bool
is_news started now none stamp = leb started stamp && leb stamp now
is_news started now (some previous) stamp =
    leb started stamp && (leb stamp now && ltb previous stamp)

unfoldable pub note_present : ℕ → Option ℕ → StartupSession → StartupSession
note_present now none s = s
note_present now (some stamp) s =
    if is_news s.started now s.last_present stamp
    then record s { last_present = some stamp; last_progress = max s.last_progress stamp }
    else s

unfoldable pub note_compile : ℕ → Option ℕ → StartupSession → StartupSession
note_compile now none s = s
note_compile now (some stamp) s =
    if is_news s.started now s.last_compile stamp
    then record s { last_compile = some stamp; last_progress = max s.last_progress stamp }
    else s

unfoldable pub note_clock : ℕ → ℕ → StartupSession → StartupSession
note_clock now uptime s =
    -- (now - previous_now) - (uptime - previous_uptime) > 2 seconds, over the integers
    let asleep = sub_gt (now + s.previous_uptime) (s.previous_now + uptime) (2 * 10 ^ 9) in
    record s {
      failure = if asleep then some system_sleep else s.failure;
      previous_now = now;
      previous_uptime = uptime;
    }

note_menu : ℕ → Bool → StartupSession → StartupSession
note_menu now menu s =
    let seen = if menu then s.menu_observations + 1 else 0 in
    record s {
      menu_observations = seen;
      menu_verified_ns =
          if leb 2 seen && is_none s.menu_verified_ns then some now else s.menu_verified_ns;
    }

unfoldable pub note_text : ℕ → Option Text → StartupSession → StartupSession
unfolding note_menu
note_text now none s = s
note_text now (some text) s = note_menu now (startup_menu text) s

-- The new state; what `observe` returns is `menu_verified` of it.
unfoldable pub observe :
    (now uptime : ℕ) (text : Option Text) (present_ns compile_ns : Option ℕ)
    → StartupSession
    → StartupSession
observe now uptime text present_ns compile_ns s =
    note_text now text
      (note_compile now compile_ns (note_present now present_ns (note_clock now uptime s)))

abbrev pub menu_verified : StartupSession → Bool
menu_verified s = is_some s.menu_verified_ns

-- `none` is ValueError('menu_not_verified')
unfoldable pub request_exit : ℕ → StartupSession → Option StartupSession
request_exit now s =
    if is_none s.menu_verified_ns
    then none
    else some (if is_none s.exit_requested_ns then record s { exit_requested_ns = some now } else s)

unfoldable pub valid_exit : ℤ → StartupSession → Bool
valid_exit code s =
    is_zero code
    && (is_some s.menu_verified_ns && (is_some s.exit_requested_ns && is_none s.failure))

abbrev outcome_exited : ℤ → StartupSession → Outcome
outcome_exited code s =
    if valid_exit code s then passed else if is_zero code then invalid else crashed

abbrev exit_overdue : ℕ → StartupSession → Bool
exit_overdue now s = elim s.exit_requested_ns [
  | none ↦ false
  | some requested ↦ leb (min s.deadline (requested + s.exit_ns)) now
]

abbrev outcome_running : ℕ → StartupSession → Option Outcome
outcome_running now s =
    if exit_overdue now s
    then some (if sub_lt now s.last_progress s.no_progress_ns then timeout_progressing else stalled)
    else if sub_ge now s.last_progress s.no_progress_ns
    then some stalled
    else if leb s.deadline now
    then some timeout_progressing
    else none

-- `code` is the exit status of the game, once it has one.
unfoldable pub outcome : ℕ → Option ℤ → StartupSession → Option Outcome
unfolding valid_exit
outcome now code s =
    if is_some s.failure
    then some invalid
    else elim code [ none ↦ outcome_running now s | some c ↦ some (outcome_exited c s) ]
