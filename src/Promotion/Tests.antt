-- ===== src/Promotion/Tests.antt =====
-- Two campaigns of runtime/kosmickrisp/promotion.py that let a runtime through. A measured run is its
-- frame rate and its frame time, as fractions.
use winecx_gptk.Common.{ℕ, ◌+◌, ◌*◌, true, false, Option, some, [], ◌∷◌, ltb, ◌≡◌, refl}
use winecx_gptk.Common.Text.{Text, codes}
use winecx_gptk.Promotion.{
  Floats, Title, hades_vulkan, hades_dxvk, portal2_d3d9, skywalker, steam_cef, File, Lane, Case,
  Validation, Campaign, Physical, regression, campaign_blockers, blockers,
}
use winecx_gptk.Promotion.Both.{Promotable, blockers-Promotable}

-- Fractions in place of floats.
abbrev fractions : Floats (ℕ × ℕ)
fractions = record {
  less = λ x y. ltb (x.0 * y.1) (y.0 * x.1);
  times_95 = λ x. (x.0 * 95, x.1 * 100);
  times_110 = λ x. (x.0 * 110, x.1 * 100);
}

abbrev file_with : Text → File
file_with t = record { is_absolute = false; is_inside = true; content = some t; has_digest = true }

abbrev old_runtime : Text
old_runtime = codes "00000000000000000000000000000000000000000000000000000000000000aa"

abbrev new_runtime : Text
new_runtime = codes "00000000000000000000000000000000000000000000000000000000000000bb"

abbrev lane : Text → ℕ → Lane (ℕ × ℕ)
lane runtime fps = record {
  runtime_sha256 = some runtime;
  warmups =
      record { completed = true; log = file_with [] }
      ∷ record { completed = true; log = file_with [] }
      ∷ [];
  measured = some ((fps + 1, 1), (20, 1)) ∷ some ((1, 1), (99, 1)) ∷ some ((fps, 1), (19, 1)) ∷ [];
}

abbrev case_of : ℕ → Title → Case (ℕ × ℕ)
case_of fps t = record {
  id = some t;
  fixed_display = true;
  settings = file_with [];
  scene = file_with [];
  harness = file_with [];
  game_build = file_with [];
  gameplay_confirmed = true;
  visual_evidence = file_with [];
  candidate_backend_log = file_with (codes "DXVK on KosmicKrisp");
  gpu_compositing = true;
  game_backend_preserved = true;
  baseline = lane old_runtime 60;
  candidate = lane new_runtime fps;
}

abbrev campaign : ℕ → Campaign (ℕ × ℕ)
campaign fps = record {
  schema = 1;
  manifest_sha256 = some (codes "m");
  os = some (codes "26");
  has_hardware = true;
  cases =
      case_of 60 steam_cef
      ∷ case_of 60 hades_vulkan
      ∷ case_of 61 hades_dxvk
      ∷ case_of fps portal2_d3d9
      ∷ case_of 60 skywalker
      ∷ [];
}

abbrev validation : Validation
validation = record {
  manifest_sha256 = some (codes "m");
  archive_sha256 = some new_runtime;
  os = some (codes "26");
}

abbrev physical : Option (Physical (ℕ × ℕ))
physical = some (record { validation = validation; campaign = campaign 60 })

blockers-Promotable_example : Promotable fractions physical physical
unfolding blockers
blockers-Promotable_example = blockers-Promotable fractions physical physical refl

slow_portal : campaign_blockers fractions (campaign 56) validation ≡ regression portal2_d3d9 ∷ []
unfolding campaign_blockers
slow_portal = refl

-- A loss of five percent is allowed.
portal_at_limit : campaign_blockers fractions (campaign 57) validation ≡ []
unfolding campaign_blockers
portal_at_limit = refl
