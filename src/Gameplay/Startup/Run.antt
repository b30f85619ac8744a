-- ===== src/Gameplay/Startup/Run.antt =====
-- Sequences of the calls that the startup controller makes on its session.
use winecx_gptk.Common.{
  ℕ, ◌≤◌, ◌≡◌, ◌&&◌, leb, max, if◌then◌else◌, Option, none, some, List, [], ◌∷◌,
}
use winecx_gptk.Common.Text.{Text}
use winecx_gptk.Gameplay.Startup.{StartupSession, init, observe, request_exit}

-- The arguments of one call of `observe`.
pub record Look : Type 0 where
  pub now : ℕ
  pub uptime : ℕ
  pub text : Option Text
  pub present_ns : Option ℕ
  pub compile_ns : Option ℕ

unfoldable pub watch : List Look → StartupSession → StartupSession
watch [] s = s
watch (l ∷ ls) s = watch ls (observe l.now l.uptime l.text l.present_ns l.compile_ns s)

-- `Trace start timeout no_progress exit now s`: `s` is reached at the clock value `now`, from a
-- session that began at `start`, by calls of `observe` and `request_exit` on a clock that never
-- goes back.
pub data Trace (start timeout no_progress exit : ℕ) : ℕ → StartupSession → Type 0 where
  begin :
      (uptime : ℕ)
      → Trace start timeout no_progress exit start (init start uptime timeout no_progress exit)
  look :
      {now : ℕ} {s : StartupSession} (l : Look)
      → Trace start timeout no_progress exit now s
      → now ≤ l.now
      → Trace start timeout no_progress exit l.now
          (observe l.now l.uptime l.text l.present_ns l.compile_ns s)
  ask :
      {now : ℕ} {s s' : StartupSession} (later : ℕ)
      → Trace start timeout no_progress exit now s
      → now ≤ later
      → request_exit later s ≡ some s'
      → Trace start timeout no_progress exit later s'

-- A stamp as it counts in a run: the start, where it is missing or lies outside the time from the
-- start to the look that shows it.
abbrev pub counted : (start now : ℕ) → Option ℕ → ℕ
counted start now none = start
counted start now (some stamp) = if leb start stamp && leb stamp now then stamp else start

-- The newest stamp of a present or a compile that a look of the trace has shown.
unfoldable pub newest :
    {start timeout no_progress exit now : ℕ} {s : StartupSession}
    → Trace start timeout no_progress exit now s
    → ℕ
newest {start} (begin uptime) = start
newest {start} (look l t le) =
    max (max (newest t) (counted start l.now l.present_ns)) (counted start l.now l.compile_ns)
newest (ask later t le e) = newest t

abbrev pub first_ask : Option ℕ → ℕ → Option ℕ
first_ask none later = some later
first_ask (some before) later = some before

-- When the exit was asked for first.
unfoldable pub asked_at :
    {start timeout no_progress exit now : ℕ} {s : StartupSession}
    → Trace start timeout no_progress exit now s
    → Option ℕ
asked_at (begin uptime) = none
asked_at (look l t le) = asked_at t
asked_at (ask later t le e) = first_ask (asked_at t) later
