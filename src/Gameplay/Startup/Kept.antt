-- ===== src/Gameplay/Startup/Kept.antt =====
-- What `observe` of StartupSession of runtime/kosmickrisp/gameplay.py leaves as it is.
use winecx_gptk.Common.{ℕ, true, Option, none, some, is_some, ◌≡◌, refl, ◌∙◌, arith}
use winecx_gptk.Common.Text.{Text}
use winecx_gptk.Gameplay.Startup.{
  StartupSession, note_clock, note_present, note_compile, note_text, observe,
}

pub record Kept (s s' : StartupSession) : Type 0 where
  pub requested : s'.exit_requested_ns ≡ s.exit_requested_ns
  pub verified : is_some s.menu_verified_ns ≡ true → is_some s'.menu_verified_ns ≡ true
  pub deadline : s'.deadline ≡ s.deadline

Kept-trans : (a b c : StartupSession) → Kept a b → Kept b c → Kept a c
Kept-trans a b c h k = record {
  requested = k.requested ∙ h.requested;
  verified = λ e. k.verified (h.verified e);
  deadline = k.deadline ∙ h.deadline;
}

note_clock-Kept : (now uptime : ℕ) (s : StartupSession) → Kept s (note_clock now uptime s)
unfolding note_clock
note_clock-Kept now uptime s = record { requested = refl; verified = λ e. e; deadline = refl }

note_present-Kept : (now : ℕ) (o : Option ℕ) (s : StartupSession) → Kept s (note_present now o s)
unfolding note_present
note_present-Kept now none s = record { requested = refl; verified = λ e. e; deadline = refl }
note_present-Kept now (some t) s = ground arith

note_compile-Kept : (now : ℕ) (o : Option ℕ) (s : StartupSession) → Kept s (note_compile now o s)
unfolding note_compile
note_compile-Kept now none s = record { requested = refl; verified = λ e. e; deadline = refl }
note_compile-Kept now (some t) s = ground arith

note_text-Kept : (now : ℕ) (o : Option Text) (s : StartupSession) → Kept s (note_text now o s)
unfolding note_text
note_text-Kept now none s = record { requested = refl; verified = λ e. e; deadline = refl }
note_text-Kept now (some t) s = ground arith

pub observe-Kept :
    (now uptime : ℕ) (text : Option Text) (present compile : Option ℕ) (s : StartupSession)
    → Kept s (observe now uptime text present compile s)
unfolding observe
observe-Kept now uptime text present compile s =
    let a = note_clock now uptime s in
    let b = note_present now present a in
    let c = note_compile now compile b in
    Kept-trans s c (note_text now text c)
      (Kept-trans s b c
        (Kept-trans s a b (note_clock-Kept now uptime s) (note_present-Kept now present a))
        (note_compile-Kept now compile b))
      (note_text-Kept now text c)

note_clock-menu :
    (now uptime : ℕ) (s : StartupSession)
    → (note_clock now uptime s).menu_verified_ns ≡ s.menu_verified_ns
unfolding note_clock
note_clock-menu now uptime s = refl

note_present-menu :
    (now : ℕ) (o : Option ℕ) (s : StartupSession)
    → (note_present now o s).menu_verified_ns ≡ s.menu_verified_ns
unfolding note_present
note_present-menu now none s = refl
note_present-menu now (some t) s = ground arith

note_compile-menu :
    (now : ℕ) (o : Option ℕ) (s : StartupSession)
    → (note_compile now o s).menu_verified_ns ≡ s.menu_verified_ns
unfolding note_compile
note_compile-menu now none s = refl
note_compile-menu now (some t) s = ground arith

-- A look without a text does not verify the menu.
pub observe-quiet :
    (now uptime : ℕ) (present compile : Option ℕ) (s : StartupSession)
    → (observe now uptime none present compile s).menu_verified_ns ≡ s.menu_verified_ns
unfolding observe note_text
observe-quiet now uptime present compile s =
    let a = note_clock now uptime s in
    let b = note_present now present a in
    note_compile-menu now compile b ∙ note_present-menu now present a ∙ note_clock-menu now uptime s
