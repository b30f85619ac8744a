-- ===== src/Gameplay/Startup/Newest.antt =====
-- What the calls of a StartupSession of runtime/kosmickrisp/gameplay.py leave as it is: the progress and the
-- time of the exit request.
use winecx_gptk.Common.{ℕ, ◌≡◌, ◌∙◌, refl, Option, none, some, arith, Option-cases, inl, inr}
use winecx_gptk.Common.Text.{Text}
use winecx_gptk.Gameplay.Startup.{
  StartupSession, note_clock, note_present, note_compile, note_text, observe, request_exit,
}
use winecx_gptk.Gameplay.Startup.Run.{Look, first_ask}

pub note_clock-last_progress :
    (now uptime : ℕ) (s : StartupSession)
    → (note_clock now uptime s).last_progress ≡ s.last_progress
unfolding note_clock
note_clock-last_progress now uptime s = refl

pub note_text-last_progress :
    (now : ℕ) (text : Option Text) (s : StartupSession)
    → ((note_text now text s).last_progress ≡ s.last_progress)
      × ((note_text now text s).exit_requested_ns ≡ s.exit_requested_ns)
unfolding note_text
note_text-last_progress now none s = (refl, refl)
note_text-last_progress now (some text) s = (refl, refl)

pub request_exit-last_progress :
    (s : StartupSession) {s' : StartupSession} (later : ℕ)
    → request_exit later s ≡ some s'
    → (s'.last_progress ≡ s.last_progress)
      × (s'.exit_requested_ns ≡ first_ask s.exit_requested_ns later)
unfolding request_exit
request_exit-last_progress s later e = elim (Option-cases s.exit_requested_ns) [
  | inl n ↦ ground arith
  | inr (t, q) ↦ ground arith
]

pub note_compile-exit :
    (now : ℕ) (stamp : Option ℕ) (s : StartupSession)
    → (note_compile now stamp s).exit_requested_ns ≡ s.exit_requested_ns
unfolding note_compile
note_compile-exit now none s = refl
note_compile-exit now (some stamp) s = ground arith

pub note_present-exit :
    (now : ℕ) (stamp : Option ℕ) (s : StartupSession)
    → (note_present now stamp s).exit_requested_ns ≡ s.exit_requested_ns
unfolding note_present
note_present-exit now none s = refl
note_present-exit now (some stamp) s = ground arith

pub observe-exit :
    (l : Look) (s : StartupSession)
    → (observe l.now l.uptime l.text l.present_ns l.compile_ns s).exit_requested_ns
      ≡ s.exit_requested_ns
unfolding observe note_clock
observe-exit l s =
    let s1 = note_clock l.now l.uptime s in
    let s2 = note_present l.now l.present_ns s1 in
    (note_text-last_progress l.now l.text (note_compile l.now l.compile_ns s2)).1
    ∙ note_compile-exit l.now l.compile_ns s2
    ∙ note_present-exit l.now l.present_ns s1
