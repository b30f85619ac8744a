-- ===== src/Gameplay/Startup/Exit.antt =====
-- What the session's times say about each other on a clock that never goes back, when a passed
-- outcome is possible, and when a session must end.
use mathlib.Core.Path.{subst}
use winecx_gptk.Common.{
  ℕ, ◌+◌, ◌*◌, ◌^◌, ◌≤◌, ◌<◌, ◌≡◌, ◌∙◌, refl, ap, max, Option, none, some, arith, Option-cases, inl,
  inr,
}
use winecx_gptk.Common.Int.{ℤ, pos}
use winecx_gptk.Common.Text.{Text}
use winecx_gptk.Gameplay.Startup.{
  StartupSession, passed, init, note_clock, note_present, note_compile, note_text, observe,
  request_exit, valid_exit, outcome,
}
use winecx_gptk.Gameplay.Startup.Newest.{
  note_clock-last_progress, note_text-last_progress, request_exit-last_progress, observe-exit,
}
use winecx_gptk.Gameplay.Startup.Run.{
  Look, Trace, begin, look, ask, counted, newest, first_ask, asked_at,
}

abbrev pub Within : ℕ → ℕ → Option ℕ → Type 0
Within lo hi none = Unit {0}
Within lo hi (some t) = (lo ≤ t) × (t ≤ hi)

-- An exit is asked for only after the menu was verified.
abbrev pub ExitAfterMenu : Option ℕ → Option ℕ → Type 0
ExitAfterMenu verified none = Unit {0}
ExitAfterMenu none (some requested) = ⊥
ExitAfterMenu (some verified) (some requested) = verified ≤ requested

-- `at` lies before the end of the time that an event leaves, if there was such an event.
abbrev pub Before : ℕ → ℕ → Option ℕ → Type 0
Before at span none = Unit {0}
Before at span (some event) = at < event + span

pub record IsSound (start timeout no_progress exit now : ℕ) (s : StartupSession) : Type 0 where
  pub started : s.started ≡ start
  pub deadline : s.deadline ≡ start + timeout * 10 ^ 9
  pub no_progress_ns : s.no_progress_ns ≡ no_progress * 10 ^ 9
  pub exit_ns : s.exit_ns ≡ exit * 10 ^ 9
  pub begun : start ≤ now
  pub progress : (start ≤ s.last_progress) × (s.last_progress ≤ now)
  pub present : Within start s.last_progress s.last_present
  pub compile : Within start s.last_progress s.last_compile
  pub verified : Within start now s.menu_verified_ns
  pub requested : Within start now s.exit_requested_ns
  pub ordered : ExitAfterMenu s.menu_verified_ns s.exit_requested_ns

module _ {start timeout no_progress exit : ℕ} where
  init-IsSound :
      (uptime : ℕ)
      → IsSound start timeout no_progress exit start (init start uptime timeout no_progress exit)
  unfolding init
  init-IsSound uptime = ground arith

  note_clock-IsSound :
      {now : ℕ} {s : StartupSession} (later uptime : ℕ)
      → IsSound start timeout no_progress exit now s
      → now ≤ later
      → IsSound start timeout no_progress exit later (note_clock later uptime s)
  unfolding note_clock
  note_clock-IsSound later uptime h le = ground arith

  note_present-IsSound :
      {s : StartupSession} (now : ℕ) (stamp : Option ℕ)
      → IsSound start timeout no_progress exit now s
      → IsSound start timeout no_progress exit now (note_present now stamp s)
  unfolding note_present
  note_present-IsSound now none h = h
  note_present-IsSound now (some stamp) h = ground arith

  note_compile-IsSound :
      {s : StartupSession} (now : ℕ) (stamp : Option ℕ)
      → IsSound start timeout no_progress exit now s
      → IsSound start timeout no_progress exit now (note_compile now stamp s)
  unfolding note_compile
  note_compile-IsSound now none h = h
  note_compile-IsSound now (some stamp) h = ground arith

  note_text-IsSound :
      {s : StartupSession} (now : ℕ) (text : Option Text)
      → IsSound start timeout no_progress exit now s
      → IsSound start timeout no_progress exit now (note_text now text s)
  unfolding note_text
  note_text-IsSound now none h = h
  note_text-IsSound now (some text) h = ground arith

  observe-IsSound :
      {now : ℕ} {s : StartupSession} (l : Look)
      → IsSound start timeout no_progress exit now s
      → now ≤ l.now
      → IsSound start timeout no_progress exit l.now
          (observe l.now l.uptime l.text l.present_ns l.compile_ns s)
  unfolding observe
  observe-IsSound l h le = note_text-IsSound l.now l.text (
      note_compile-IsSound l.now l.compile_ns
        (note_present-IsSound l.now l.present_ns (note_clock-IsSound l.now l.uptime h le)))

  request_exit-IsSound :
      {now : ℕ} {s s' : StartupSession} (later : ℕ)
      → IsSound start timeout no_progress exit now s
      → now ≤ later
      → request_exit later s ≡ some s'
      → IsSound start timeout no_progress exit later s'
  unfolding request_exit
  request_exit-IsSound later h le e = ground arith

  pub Trace-IsSound :
      {now : ℕ} {s : StartupSession}
      → Trace start timeout no_progress exit now s
      → IsSound start timeout no_progress exit now s
  Trace-IsSound (begin uptime) = init-IsSound uptime
  Trace-IsSound (look l t le) = observe-IsSound l (Trace-IsSound t) le
  Trace-IsSound (ask later t le e) = request_exit-IsSound later (Trace-IsSound t) le e

  -- A session that was driven by `observe` and `request_exit` on a clock that never goes back
  -- passes only with exit status 0 and no recorded sleep, after the menu was verified and the exit
  -- was asked for, in this order, both within the run.
  pub passed_after_menu :
      {now : ℕ} {s : StartupSession} (code : ℤ) (at : ℕ)
      → Trace start timeout no_progress exit now s
      → outcome at (some code) s ≡ some passed
      → (verified : ℕ) × (requested : ℕ) × (code ≡ pos 0)
        × (s.failure ≡ none)
        × (s.menu_verified_ns ≡ some verified)
        × (s.exit_requested_ns ≡ some requested)
        × (start ≤ verified)
        × (verified ≤ requested)
        × (requested ≤ now)
  unfolding outcome valid_exit
  passed_after_menu {s = s} code at t e =
      let h = Trace-IsSound t in
      elim (Option-cases s.menu_verified_ns) [
        | inl unseen ↦ absurd (ground arith)
        | inr (verified, ev) ↦ elim (Option-cases s.exit_requested_ns) [
          | inl unasked ↦ absurd (ground arith)
          | inr (requested, er) ↦ (
            verified,
            requested,
            ground arith,
            ground arith,
            ev,
            er,
            ground arith,
            ground arith,
            ground arith,
          )
        ]
      ]

  note_present-last_progress :
      {s : StartupSession} (now : ℕ) (stamp : Option ℕ)
      → IsSound start timeout no_progress exit now s
      → (note_present now stamp s).last_progress ≡ max s.last_progress (counted start now stamp)
  unfolding note_present
  note_present-last_progress now none h = let p = h.progress in omega arith
  note_present-last_progress {s} now (some stamp) h =
      let p = h.progress in
      let b = h.started in
      let q = h.present in
      elim (Option-cases s.last_present) [ inl n ↦ ground arith | inr (t, e) ↦ ground arith ]

  note_compile-last_progress :
      {s : StartupSession} (now : ℕ) (stamp : Option ℕ)
      → IsSound start timeout no_progress exit now s
      → (note_compile now stamp s).last_progress ≡ max s.last_progress (counted start now stamp)
  unfolding note_compile
  note_compile-last_progress now none h = let p = h.progress in omega arith
  note_compile-last_progress {s} now (some stamp) h =
      let p = h.progress in
      let b = h.started in
      let q = h.compile in
      elim (Option-cases s.last_compile) [ inl n ↦ ground arith | inr (t, e) ↦ ground arith ]

  observe-last_progress :
      {now : ℕ} {s : StartupSession} (l : Look)
      → IsSound start timeout no_progress exit now s
      → now ≤ l.now
      → (observe l.now l.uptime l.text l.present_ns l.compile_ns s).last_progress
        ≡ max
            (max s.last_progress (counted start l.now l.present_ns))
            (counted start l.now l.compile_ns)
  unfolding observe
  observe-last_progress {s = s} l h le =
      let clocked = note_clock-IsSound l.now l.uptime h le in
      let present = note_present-IsSound l.now l.present_ns clocked in
      let s1 = note_clock l.now l.uptime s in
      let s2 = note_present l.now l.present_ns s1 in
      (note_text-last_progress l.now l.text (note_compile l.now l.compile_ns s2)).0
      ∙ note_compile-last_progress l.now l.compile_ns present
      ∙ ap (λ n. max n (counted start l.now l.compile_ns))
          (note_present-last_progress l.now l.present_ns clocked
            ∙ ap (λ n. max n (counted start l.now l.present_ns))
                (note_clock-last_progress l.now l.uptime s))

  -- The session's progress is the newest stamp that was shown.
  last_progress-newest :
      {now : ℕ} {s : StartupSession} (t : Trace start timeout no_progress exit now s)
      → s.last_progress ≡ newest t
  unfolding newest init
  last_progress-newest (begin uptime) = refl
  last_progress-newest (look l t le) =
      observe-last_progress l (Trace-IsSound t) le
      ∙ ap (λ n. max (max n (counted start l.now l.present_ns)) (counted start l.now l.compile_ns))
          (last_progress-newest t)
  last_progress-newest (ask {s = s} later t le e) =
      (request_exit-last_progress s later e).0 ∙ last_progress-newest t

  exit_requested-first :
      {now : ℕ} {s : StartupSession} (t : Trace start timeout no_progress exit now s)
      → s.exit_requested_ns ≡ asked_at t
  unfolding asked_at init
  exit_requested-first (begin uptime) = refl
  exit_requested-first (look {s = s} l t le) = observe-exit l s ∙ exit_requested-first t
  exit_requested-first (ask {s = s} later t le e) =
      (request_exit-last_progress s later e).1
      ∙ ap (λ o. first_ask o later) (exit_requested-first t)

  -- A running game is left alone only before the deadline, which counts from the start, only
  -- within the no-progress time after the newest present or compile stamp that any look has shown
  -- (the start, where none has; a stamp counts if it lies between the start and the time of its
  -- look), and, where an exit was asked for, only within the exit time after the first time that
  -- it was.
  pub running_is_bounded :
      {now : ℕ} {s : StartupSession} (at : ℕ) (t : Trace start timeout no_progress exit now s)
      → outcome at none s ≡ none
      → (at < start + timeout * 10 ^ 9)
        × (at < newest t + no_progress * 10 ^ 9)
        × Before at (exit * 10 ^ 9) (asked_at t)
  unfolding outcome
  running_is_bounded {s = s} at t e =
      let h = Trace-IsSound t in
      let n = last_progress-newest t in
      let bounds : (at < start + timeout * 10 ^ 9)
          × (at < s.last_progress + no_progress * 10 ^ 9)
          × Before at (exit * 10 ^ 9) s.exit_requested_ns =
        ground arith in
      (
        bounds.0,
        subst (λ p. at < p + no_progress * 10 ^ 9) n bounds.1,
        subst (Before at (exit * 10 ^ 9)) (exit_requested-first t) bounds.2,
      )
