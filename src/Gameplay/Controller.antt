-- ===== src/Gameplay/Controller.antt =====
-- startup_controller of runtime/kosmickrisp/gameplay.py: the loop that reads the screen, sends input,
-- and asks the game to quit. What a round reads is a record; a reading that raises carries the
-- text of the error. The clock is monotonic, so differences of its readings are naturals.
pub mod Loop
pub mod Commands
pub mod Sending
pub mod Timed
pub mod Screens
pub mod Rounds
pub mod Report
mod Tests
use winecx_gptk.Common.{
  ℕ, ◌+◌, ◌-◌, ◌*◌, ◌^◌, Bool, true, false, not, ◌&&◌, ◌||◌, Option, none, some, is_some, List, [],
  ◌∷◌, ◌==◌, ltb, leb, max, sub_ge, if◌then◌else◌,
}
use winecx_gptk.Common.Text.{Text, codes}
use winecx_gptk.Gameplay.Screen.{Input, startup_action}
use winecx_gptk.Gameplay.Startup.{
  StartupSession, Outcome, invalid, init, observe, outcome, request_exit, menu_verified,
}
use winecx_gptk.Gameplay.Startup
use winecx_gptk.Gameplay.Focus
use winecx_gptk.Gameplay.Focus.{FocusRecovery, fresh, allowed, attempt}

-- What a command of the helper brings: it raises (the process is not the owned one, the command
-- runs out of time, or its answer cannot be read), it fails, or it answers.
pub data Ui (R A : Type 0) : Type 0 where
  raises : Text → Ui R A
  fails : R → Ui R A
  answers : A → Ui R A

-- A capture that failed, with the clock after it.
pub record CaptureFailure : Type 0 where
  pub not_interactive : Bool
  pub later : ℕ

pub record Owner : Type 0 where
  pub pid : ℕ
  pub is_same : Bool

-- One round: the tests of the loop, the clocks, the stamps in present.csv and compile.csv, the
-- capture and its text, the clocks after it, and the answers to the commands that may follow.
-- A status is the pid of the process in front.
pub record Frame : Type 0 where
  pub alive : Bool
  pub guardian_stop : Bool
  pub now : ℕ
  pub uptime : ℕ
  pub presents : List ℕ
  pub compiles : List ℕ
  pub capture : Ui CaptureFailure (Unit {0})
  pub ocr : Ui (Unit {0}) Text
  pub seen_now : ℕ
  pub seen_uptime : ℕ
  pub quit_alive : Ui Bool (Unit {0})
  pub status : Ui (Unit {0}) (Option ℕ)
  pub owner : Option Owner
  pub fresh : Ui (Unit {0}) (Option ℕ)
  pub activate : Ui (Unit {0}) (Unit {0})
  pub checked : Ui (Unit {0}) (Option ℕ)
  pub input : Ui Bool (Unit {0})

pub record Setup : Type 0 where
  pub pid : ℕ
  pub steam_only : Bool
  pub acquisition_deadline : ℕ

-- The commands to the game, each at its time: input that it has taken, with the process that was in
-- front; the attempts to bring it to the front, and to quit it.
pub data Command : Type 0 where
  press : ℕ → Option ℕ → Input → Command
  front : ℕ → Command
  quit : ℕ → Command

-- The local variables and `state`. `commands` has the last one first.
pub record Control : Type 0 where
  pub session : StartupSession
  pub recovery : FocusRecovery
  pub last_action : ℕ
  pub window_seen : Bool
  pub menu_verified_ns : Option ℕ
  pub outcome : Option Outcome
  pub failure : Option Text
  pub last_observation_ns : Option ℕ
  pub quit_requested_ns : Option ℕ
  pub input_blocked_since_ns : Option ℕ
  pub total_input_blocked_ns : ℕ
  pub focus_recovery_count : ℕ
  pub commands : List Command

pub data Step : Type 0 where
  going : Control → Step
  ended : Control → Step

-- `except`: the controller ends with this failure.
abbrev pub fail : Text → Control → Step
fail e c = ended (record c { outcome = some invalid; failure = some e })

-- `blocked(deferred, now)`
unfoldable pub blocked : Bool → ℕ → Control → Control
blocked true now c = record c {
  input_blocked_since_ns = elim c.input_blocked_since_ns [ none ↦ some now | some b ↦ some b ];
}
blocked false now c = record c {
  total_input_blocked_ns =
      c.total_input_blocked_ns + elim c.input_blocked_since_ns [ none ↦ 0 | some b ↦ now - b ];
  input_blocked_since_ns = none;
}

abbrev pub defer : ℕ → Control → Step
defer now c = going (blocked true now c)

abbrev pub send : Command → Control → Control
send command c = record c { commands = command ∷ c.commands }

-- The answer to an input.
unfoldable pub pressed : ℕ → Option ℕ → Input → Ui Bool (Unit {0}) → Control → Step
unfolding blocked
pressed now before input (raises e) c = fail e c
pressed now before input (fails true) c = defer now c
pressed now before input (fails false) c = fail (codes "input_failed") c
pressed now before input (answers _) c =
    going (record (blocked false now (send (press now before input) c)) { last_action = now })

abbrev pub in_front : ℕ → Option ℕ → Bool
in_front pid none = false
in_front pid (some p) = p == pid

-- The status after the game was brought to the front.
unfoldable pub press_if_front :
    Setup → Frame → Input → Bool → Ui (Unit {0}) (Option ℕ) → Control → Step
unfolding pressed
press_if_front u f input activated (raises e) c = fail e c
press_if_front u f input activated (fails _) c = defer f.seen_now c
press_if_front u f input activated (answers before) c =
    if activated && in_front u.pid before
    then pressed f.seen_now before input f.input c
    else defer f.seen_now c

unfoldable pub activated : Setup → Frame → Input → Ui (Unit {0}) (Unit {0}) → Control → Step
unfolding press_if_front
activated u f input (raises e) c = fail e c
activated u f input (fails _) c = press_if_front u f input false f.checked c
activated u f input (answers _) c = press_if_front u f input true f.checked c

-- An attempt of the recovery, if it goes through.
abbrev pub attempted : Setup → Frame → Input → Bool × FocusRecovery → Control → Step
attempted u f input (false, r) c = defer f.seen_now c
attempted u f input (true, r) c =
    activated u f input f.activate
      (record (send (front f.seen_now) c) { recovery = r; focus_recovery_count = r.count })

abbrev pub still_owner : Owner → Ui (Unit {0}) (Option ℕ) → Bool
still_owner o (answers before) = in_front o.pid before && o.is_same
still_owner o _ = false

unfoldable pub recover :
    Setup → Frame → Input → Option Owner → Ui (Unit {0}) (Option ℕ) → Control → Step
unfolding attempt activated
recover u f input none second c = defer f.seen_now c
recover u f input (some o) (raises e) c = fail e c
recover u f input (some o) second c =
    if still_owner o second
    then attempted u f input (attempt f.seen_now c.recovery) c
    else defer f.seen_now c

unfoldable pub with_status : Setup → Frame → Input → Ui (Unit {0}) (Option ℕ) → Control → Step
unfolding recover pressed
with_status u f input (raises e) c = fail e c
with_status u f input (fails _) c = fail (codes "input_status_failed") c
with_status u f input (answers before) c =
    if in_front u.pid before
    then pressed f.seen_now before input f.input c
    else if u.steam_only && allowed f.seen_now c.recovery
    then recover u f input f.owner f.fresh c
    else defer f.seen_now c
