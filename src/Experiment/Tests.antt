-- ===== src/Experiment/Tests.antt =====
-- Two runs of an experiment that differ in the cache alone, for compare_runs of
-- runtime/kosmickrisp/investigation_analysis.py.
use winecx_gptk.Common.{Bool, false, not, some, [], ◌∷◌, ◌≡◌, refl}
use winecx_gptk.Common.Text.{Text, codes, text_eq}
use winecx_gptk.Experiment.{
  Field, cache_mode, cache_seed_sha256, variable, no_variable, Verdict, is_empty, Run, verdict,
  compare_runs, uncontrolled_differences,
}
use winecx_gptk.Experiment.Matched.{Matched, compare_runs-Matched}

abbrev truthy : Text → Bool
truthy t = not (is_empty t)

abbrev value : Text → Field → Text
value mode k = elim k [ cache_mode ↦ mode | cache_seed_sha256 ↦ mode | _ ↦ codes "x" ]

abbrev run_with : Text → Run Text
run_with mode = record {
  provenance = λ k. some (value mode k);
  menu_observed_ns = some 5000;
  has_issues = false;
  has_missing_logs = false;
  native_archive_hits = 3;
}

abbrev cache_experiment : Verdict
unfolding verdict
cache_experiment =
    verdict text_eq truthy (variable cache_mode) (run_with (codes "a")) (run_with (codes "b"))

compare_runs-Matched_example :
    Matched text_eq truthy (variable cache_mode) (run_with (codes "a")) (run_with (codes "b"))
unfolding compare_runs
compare_runs-Matched_example =
    compare_runs-Matched text_eq truthy (variable cache_mode) (run_with (codes "a"))
      (run_with (codes "b")) cache_experiment refl refl

-- Without a variable these runs differ in what they may not.
uncontrolled :
    (verdict text_eq truthy no_variable (run_with (codes "a")) (run_with (codes "b"))).reasons
    ≡ uncontrolled_differences ∷ []
unfolding verdict
uncontrolled = refl
