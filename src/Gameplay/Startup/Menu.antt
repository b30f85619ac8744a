-- ===== src/Gameplay/Startup/Menu.antt =====
-- When a session counts the menu as verified: at the second of two menu texts with no other text
-- between them.
use winecx_gptk.Common.{
  ℕ, ◌+◌, ◌≡◌, refl, Bool, true, false, ◌&&◌, Option, none, some, List, [], ◌∷◌, arith, leb,
  if◌then◌else◌, Option-cases, inl, inr,
}
use winecx_gptk.Common.Text.{Text}
use winecx_gptk.Gameplay.Screen.{startup_menu}
use winecx_gptk.Gameplay.Startup.{
  StartupSession, init, observe, note_clock, note_present, note_compile, note_text,
}
use winecx_gptk.Gameplay.Startup.Run.{Look, watch}

-- The independent description: `before` says whether the last text was the menu.
unfoldable pub second_menu : Bool → List Look → Option ℕ
second_menu before [] = none
second_menu before (l ∷ ls) = elim l.text [
  | none ↦ second_menu before ls
  | some text ↦
      if startup_menu text
      then (if before then some l.now else second_menu true ls)
      else second_menu false ls
]

module _ (l : Look) (s : StartupSession) where
  abbrev next : StartupSession
  next = observe l.now l.uptime l.text l.present_ns l.compile_ns s

  menu-observe_none :
      l.text ≡ none
      → (next.menu_verified_ns ≡ s.menu_verified_ns)
        × (next.menu_observations ≡ s.menu_observations)
  unfolding observe note_clock note_present note_compile note_text
  menu-observe_none h = ground arith

  menu-observe_some :
      {text : Text}
      → l.text ≡ some text
      → s.menu_verified_ns ≡ none
      → (next.menu_verified_ns
          ≡ (if startup_menu text && leb 1 s.menu_observations then some l.now else none))
        × (next.menu_observations ≡ (if startup_menu text then s.menu_observations + 1 else 0))
  unfolding observe note_clock note_present note_compile note_text
  menu-observe_some h v = ground arith

  verified-observe : {m : ℕ} → s.menu_verified_ns ≡ some m → next.menu_verified_ns ≡ some m
  unfolding observe note_clock note_present note_compile note_text
  verified-observe h = ground arith

-- A verified menu stays verified, at the same time.
verified-watch :
    (ls : List Look) (s : StartupSession) {m : ℕ}
    → s.menu_verified_ns ≡ some m
    → (watch ls s).menu_verified_ns ≡ some m
unfolding watch
verified-watch [] s h = h
verified-watch (l ∷ ls) s h = verified-watch ls (next l s) (verified-observe l s h)

watch-eq-second_menu :
    (ls : List Look) (s : StartupSession)
    → s.menu_verified_ns ≡ none
    → (watch ls s).menu_verified_ns ≡ second_menu (leb 1 s.menu_observations) ls
unfolding watch second_menu
watch-eq-second_menu [] s h = h
watch-eq-second_menu (l ∷ ls) s h = elim (Option-cases l.text) [
  | inl quiet ↦ ground (arith, menu-observe_none l s quiet, watch-eq-second_menu ls (next l s))
  | inr (text, e) ↦ ground (
    arith,
    menu-observe_some l s e h,
    watch-eq-second_menu ls (next l s),
    verified-watch ls (next l s) {m = l.now},
  )
]

-- From a new session, the menu is verified exactly at the time of the second of the first two
-- menu texts that no other text separates, and not at all if there are no two such texts; looks
-- without a text do not count.
pub watch_verifies :
    (now uptime timeout no_progress_seconds exit_seconds : ℕ) (ls : List Look)
    → (watch ls (init now uptime timeout no_progress_seconds exit_seconds)).menu_verified_ns
      ≡ second_menu false ls
unfolding init
watch_verifies now uptime timeout no_progress_seconds exit_seconds ls =
    watch-eq-second_menu ls (init now uptime timeout no_progress_seconds exit_seconds) refl
