-- ===== src/Benchmark/Tests.antt =====
-- The comparison of runtime/kosmickrisp/benchmark.py with three repetitions of the three conditions of
-- the pipeline library.
use winecx_gptk.Common.{ℕ, true, false, none, some, List, [], ◌∷◌, length, AllOf, ◌≡◌, refl, arith}
use winecx_gptk.Common.Text.{Text, codes}
use winecx_gptk.Common.Int.{pos}
use winecx_gptk.Benchmark.Jobs.{
  Condition, conditions, gpl, Job, make_jobs, jobs_from, library_key, Frozen, Execution, run,
}
use winecx_gptk.Benchmark.Rotation.{nth, scheduled, nth-make_jobs}
use winecx_gptk.Benchmark.Analysis.{cold, warm, warm2, Label, Summary, Hashes, analyze, reasons_of}
use winecx_gptk.Benchmark.Complete.{Sequence, analyze-complete}
use winecx_gptk.Benchmark.Executing.{Through, jobs_of_plan, run-Through}

abbrev shuffled : List Condition
shuffled = conditions gpl (codes "Auto")

abbrev plan_jobs : List Job
unfolding jobs_from
plan_jobs = jobs_from 0 3 shuffled

made : make_jobs 3 shuffled ≡ some plan_jobs
unfolding make_jobs
made = refl

-- The last repetition ends with the condition that the second one began with.
nth-make_jobs_example : (length plan_jobs ≡ 9) × (nth 8 plan_jobs ≡ scheduled 2 2 shuffled)
unfolding conditions
nth-make_jobs_example = nth-make_jobs 3 2 2 shuffled plan_jobs made (omega arith) (omega arith)

too_few : make_jobs 2 shuffled ≡ none
unfolding make_jobs
too_few = refl

abbrev frozen : List Frozen
frozen = record { planned = codes "d"; found = some (codes "d") } ∷ []

abbrev went_well : Execution
went_well = record {
  inputs = frozen;
  has_results = false;
  timed_out = false;
  returncode = pos 0;
  summaries = record { frames_error = false; backend_verified = true } ∷ [];
}

abbrev auto_job : Job
auto_job = record { condition = codes "gpl-auto"; repetition = 1; settings = [] }

abbrev executions : List (Job × Execution)
executions = (auto_job, went_well) ∷ (auto_job, went_well) ∷ []

run-Through_example :
    ((run true frozen executions).done ≡ jobs_of_plan executions) × AllOf (Through true) executions
unfolding run
run-Through_example = run-Through true frozen executions refl

abbrev hashes : Hashes
hashes = record { driver = codes "k"; scene = codes "s" }

abbrev good_run : Label → Summary ℕ
good_run label = record {
  label = some label;
  frames = 60;
  frames_error = false;
  backend_verified = true;
  errors = false;
  rejections = false;
  effective = (library_key, codes "Auto") ∷ (library_key, codes "True") ∷ [];
  gpl = true;
  driver_sha256 = some (codes "k");
  scene_sha256 = some (codes "s");
  natural_exit = true;
  returncode = false;
}

abbrev with_runs : Text → ℕ → Job × List (Summary ℕ)
with_runs condition repetition = (
  record {
    condition = condition;
    repetition = repetition;
    settings = (library_key, codes "Auto") ∷ [];
  },
  good_run warm ∷ good_run cold ∷ good_run warm2 ∷ [],
)

abbrev campaign : List (Job × List (Summary ℕ))
campaign =
    with_runs (codes "a") 1
    ∷ with_runs (codes "b") 1
    ∷ with_runs (codes "c") 1
    ∷ with_runs (codes "b") 2
    ∷ with_runs (codes "c") 2
    ∷ with_runs (codes "a") 2
    ∷ []

analyze-complete_example : AllOf (Sequence hashes) campaign
unfolding analyze reasons_of
analyze-complete_example = analyze-complete hashes 2 campaign refl

-- A label that is there twice does not stand for one that is missing.
twice :
    (analyze hashes 1
      ((auto_job, good_run cold ∷ good_run cold ∷ good_run warm ∷ []) ∷ [])).complete
    ≡ false
unfolding analyze reasons_of
twice = refl
