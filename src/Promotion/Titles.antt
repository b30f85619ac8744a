-- ===== src/Promotion/Titles.antt =====
-- The titles of the cases that campaign_blockers of runtime/kosmickrisp/promotion.py requires.
use winecx_gptk.Common.{
  true, Option, none, some, List, [], ◌∷◌, Bool-cases, inl, inr, ◌⊎◌, ◌≡◌, refl, arith,
}
use winecx_gptk.Promotion.{
  Floats, Title, hades_vulkan, hades_dxvk, portal2_d3d9, skywalker, steam_cef, same_title, lists,
  Case, all_cases,
}

same_title_sound : (t : Title) (o : Option Title) → same_title t o ≡ true → o ≡ some t
same_title_sound hades_vulkan none h = absurd (ground arith)
same_title_sound hades_vulkan (some hades_vulkan) h = refl
same_title_sound hades_vulkan (some hades_dxvk) h = absurd (ground arith)
same_title_sound hades_vulkan (some portal2_d3d9) h = absurd (ground arith)
same_title_sound hades_vulkan (some skywalker) h = absurd (ground arith)
same_title_sound hades_vulkan (some steam_cef) h = absurd (ground arith)
same_title_sound hades_dxvk none h = absurd (ground arith)
same_title_sound hades_dxvk (some hades_vulkan) h = absurd (ground arith)
same_title_sound hades_dxvk (some hades_dxvk) h = refl
same_title_sound hades_dxvk (some portal2_d3d9) h = absurd (ground arith)
same_title_sound hades_dxvk (some skywalker) h = absurd (ground arith)
same_title_sound hades_dxvk (some steam_cef) h = absurd (ground arith)
same_title_sound portal2_d3d9 none h = absurd (ground arith)
same_title_sound portal2_d3d9 (some hades_vulkan) h = absurd (ground arith)
same_title_sound portal2_d3d9 (some hades_dxvk) h = absurd (ground arith)
same_title_sound portal2_d3d9 (some portal2_d3d9) h = refl
same_title_sound portal2_d3d9 (some skywalker) h = absurd (ground arith)
same_title_sound portal2_d3d9 (some steam_cef) h = absurd (ground arith)
same_title_sound skywalker none h = absurd (ground arith)
same_title_sound skywalker (some hades_vulkan) h = absurd (ground arith)
same_title_sound skywalker (some hades_dxvk) h = absurd (ground arith)
same_title_sound skywalker (some portal2_d3d9) h = absurd (ground arith)
same_title_sound skywalker (some skywalker) h = refl
same_title_sound skywalker (some steam_cef) h = absurd (ground arith)
same_title_sound steam_cef none h = absurd (ground arith)
same_title_sound steam_cef (some hades_vulkan) h = absurd (ground arith)
same_title_sound steam_cef (some hades_dxvk) h = absurd (ground arith)
same_title_sound steam_cef (some portal2_d3d9) h = absurd (ground arith)
same_title_sound steam_cef (some skywalker) h = absurd (ground arith)
same_title_sound steam_cef (some steam_cef) h = refl

module _ {F : Type 0} (floats : Floats F) where
  -- One of the cases is that of the title.
  abbrev pub HasCase : Title → List (Case F) → Type 0
  HasCase t [] = ⊥
  HasCase t (c ∷ cs) = (c.id ≡ some t) ⊎ HasCase t cs

  lists-HasCase : (cs : List (Case F)) (t : Title) → lists floats cs t ≡ true → HasCase t cs
  lists-HasCase [] t h = ground arith
  lists-HasCase (c ∷ cs) t h =
      let ih = lists-HasCase cs t in
      elim (Bool-cases (same_title t c.id)) [
        | inl e ↦ inl (same_title_sound t c.id e)
        | inr e ↦ inr (ih (ground arith))
      ]

  pub titles_of : (cs : List (Case F)) → all_cases floats cs ≡ true → (t : Title) → HasCase t cs
  titles_of cs h t = elim t as (λ k. HasCase k cs) [
    | hades_vulkan ↦ lists-HasCase cs hades_vulkan (ground (arith, h))
    | hades_dxvk ↦ lists-HasCase cs hades_dxvk (ground (arith, h))
    | portal2_d3d9 ↦ lists-HasCase cs portal2_d3d9 (ground (arith, h))
    | skywalker ↦ lists-HasCase cs skywalker (ground (arith, h))
    | steam_cef ↦ lists-HasCase cs steam_cef (ground (arith, h))
  ]
