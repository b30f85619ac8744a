-- ===== src/Gameplay/Session.antt =====
-- class Session of runtime/kosmickrisp/gameplay.py: a measured drive, from the first recognised
-- lap to its end. Clock values are nanoseconds.
pub mod Drive
use winecx_gptk.Common.{
  ℕ, ◌+◌, ◌*◌, ◌^◌, Bool, false, not, ◌&&◌, ◌||◌, Option, none, some, List, [], ◌∷◌, ◌++◌, leb,
  length, is_some, sub_gt, sub_ge, if◌then◌else◌,
}
use winecx_gptk.Common.Int.{ℤ, is_zero}
use winecx_gptk.Common.Text.{Text, codes, contains, upper}

pub data SessionError : Type 0 where
  system_sleep run_time_limit gameplay_paused : SessionError

pub record Session : Type 0 where
  pub previous_now : ℕ
  pub previous_uptime : ℕ
  pub deadline : ℕ
  pub seconds : ℕ
  pub playing : Option ℕ
  pub finished : Bool
  pub observations : List ℕ

-- `__init__`; the defaults are 120 and 1200 seconds
unfoldable pub init : (now uptime seconds timeout : ℕ) → Session
init now uptime seconds timeout = record {
  previous_now = now;
  previous_uptime = uptime;
  deadline = now + timeout * 10 ^ 9;
  seconds = seconds;
  playing = none;
  finished = false;
  observations = [];
}

unfoldable pub racing : Text → Bool
racing text =
    contains (codes "BOONTA") text
    && (contains (codes "LAP") text && not (contains (codes "PAUSED") text))

unfoldable pub paused : Text → Bool
paused text = contains (codes "PAUSED") text

abbrev or_now : ℕ → Option ℕ → Option ℕ
or_now now none = some now
or_now now (some first) = some first

abbrev note_racing : ℕ → Bool → Session → Session
note_racing now seen s =
    if seen
    then record s { observations = s.observations ++ now ∷ []; playing = or_now now s.playing }
    else s

abbrev is_over : ℕ → Session → Bool
is_over now s = elim s.playing [ none ↦ false | some first ↦ leb (first + s.seconds * 10 ^ 9) now ]

-- The last two tests of `observe`.
abbrev note_finish : ℕ → Bool → Session → Option SessionError × Session
note_finish now stopped s =
    if is_some s.playing && (not s.finished && stopped)
    then (some gameplay_paused, s)
    else (none, record s { finished = s.finished || is_over now s })

-- The state is kept when an error is raised; without an error, `observe` returns `finished` of it.
unfoldable pub observe : (now uptime : ℕ) → Text → Session → Option SessionError × Session
unfolding racing paused
observe now uptime raw s =
    let asleep = sub_gt (now + s.previous_uptime) (s.previous_now + uptime) (2 * 10 ^ 9) in
    let s' = record s { previous_now = now; previous_uptime = uptime } in
    let text = upper raw in
    if asleep
    then (some system_sleep, s')
    else if leb s.deadline now
    then (some run_time_limit, s')
    else note_finish now (paused text) (note_racing now (racing text) s')

abbrev pub last_or : ℕ → List ℕ → ℕ
last_or d [] = d
last_or d (x ∷ xs) = last_or x xs

-- `observations[-1] - playing >= 90 s`; the length test before it makes both defined.
abbrev drove_long_enough : List ℕ → Option ℕ → Bool
drove_long_enough observations none = false
drove_long_enough observations (some first) = sub_ge (last_or 0 observations) first (90 * 10 ^ 9)

unfoldable pub valid_exit : (code : ℤ) (checkpoint : Bool) → Session → Bool
valid_exit code checkpoint s =
    is_zero code
    && (s.finished
        && (checkpoint
            && (leb 3 (length s.observations) && drove_long_enough s.observations s.playing)))
