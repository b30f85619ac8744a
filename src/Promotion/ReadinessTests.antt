-- ===== src/Promotion/ReadinessTests.antt =====
-- Reports of the lane macos26 for blockers of runtime/kosmickrisp/readiness.py.
use winecx_gptk.Common.{true, false, some, [], ◌∷◌, ◌≡◌, ◌↔◌, refl}
use winecx_gptk.Promotion.{macos26, newer}
use winecx_gptk.Promotion.Readiness.Exact.{Ready, blockers-Ready}
use winecx_gptk.Promotion.Readiness.{Report, platform, check_failed, wrong_os, no_lane, blockers}

abbrev report : Report
report = record {
  schema = 1;
  passed = true;
  check_passed = λ c. elim c [ platform ↦ false | _ ↦ true ];
  major = some 26;
  lane = some macos26;
  migration_passed = λ v. true;
  known_missing = false;
}

blockers-Ready_example : (blockers macos26 report ≡ []) ↔ Ready macos26 report
blockers-Ready_example = blockers-Ready macos26 report

no_blockers : blockers macos26 report ≡ []
unfolding blockers
no_blockers = refl

-- The same report does not pass for the other lane.
other_lane : blockers newer report ≡ check_failed platform ∷ wrong_os ∷ no_lane ∷ []
unfolding blockers
other_lane = refl
