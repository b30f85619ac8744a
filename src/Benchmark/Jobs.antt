-- ===== src/Benchmark/Jobs.antt =====
-- conditions, the jobs of make_plan, verify and run of runtime/kosmickrisp/benchmark.py. The shuffled
-- order of the conditions, the files and their digests are given.
use winecx_gptk.Common.{
  take, ℕ, zero, suc, ◌+◌, ◌%◌, Bool, true, false, not, ◌&&◌, Option, none, some, List, [], ◌∷◌,
  ◌++◌, ltb, length, map, if◌then◌else◌,
}
use winecx_gptk.Common.Int.{ℤ, is_zero}
use winecx_gptk.Common.Text.{Text, codes, text_eq}

abbrev pub Settings : Type 0
Settings = List (Text × Text)

pub record Condition : Type 0 where
  pub name : Text
  pub settings : Settings

pub data Stage : Type 0 where
  gpl threads latency sleep : Stage

abbrev pub library_key : Text
library_key = codes "dxvk.enableGraphicsPipelineLibrary"

abbrev gpl_condition : Text → Text → Condition
gpl_condition name value = record { name = name; settings = (library_key, value) ∷ [] }

abbrev threads_condition : Text → Text → Text → Condition
threads_condition mode name value = record {
  name = name;
  settings = (library_key, mode) ∷ (codes "dxvk.numCompilerThreads", value) ∷ [];
}

abbrev latency_condition : Text → Text → Text → Condition
latency_condition mode name value = record {
  name = name;
  settings =
      (library_key, mode)
      ∷ (codes "dxgi.maxFrameLatency", value)
      ∷ (codes "d3d9.maxFrameLatency", value)
      ∷ [];
}

abbrev sleep_condition : Text → Text → Text → Condition
sleep_condition mode name value = record {
  name = name;
  settings = (library_key, mode) ∷ (codes "dxvk.latencySleep", value) ∷ [];
}

-- The argument `gpl` is the mode of the pipeline library.
unfoldable pub conditions : Stage → Text → List Condition
conditions gpl mode =
    gpl_condition (codes "gpl-auto") (codes "Auto")
    ∷ gpl_condition (codes "gpl-true") (codes "True")
    ∷ gpl_condition (codes "gpl-false") (codes "False")
    ∷ []
conditions threads mode =
    threads_condition mode (codes "threads-0") (codes "0")
    ∷ threads_condition mode (codes "threads-2") (codes "2")
    ∷ threads_condition mode (codes "threads-4") (codes "4")
    ∷ []
conditions latency mode =
    latency_condition mode (codes "latency-0") (codes "0")
    ∷ latency_condition mode (codes "latency-1") (codes "1")
    ∷ latency_condition mode (codes "latency-2") (codes "2")
    ∷ []
conditions sleep mode =
    sleep_condition mode (codes "sleep-auto") (codes "Auto")
    ∷ sleep_condition mode (codes "sleep-true") (codes "True")
    ∷ sleep_condition mode (codes "sleep-false") (codes "False")
    ∷ []

module _ {ℓ} {A : Type ℓ} where
  unfoldable pub drop : ℕ → List A → List A
  drop zero xs = xs
  drop (suc n) [] = []
  drop (suc n) (x ∷ xs) = drop n xs

  -- `xs[n:] + xs[:n]`
  unfoldable pub rotate : ℕ → List A → List A
  unfolding drop
  rotate n xs = drop n xs ++ take n xs

pub record Job : Type 0 where
  pub condition : Text
  pub repetition : ℕ
  pub settings : Settings

abbrev pub job_of : ℕ → Condition → Job
job_of repetition c = record {
  condition = c.name;
  repetition = repetition + 1;
  settings = c.settings;
}

-- The jobs of one repetition, which counts from zero.
unfoldable pub jobs_of : ℕ → List Condition → List Job
jobs_of repetition cs = map (job_of repetition) cs

-- The remainder by the number of conditions, which is not zero.
abbrev pub turn : ℕ → List Condition → ℕ
turn repetition cs = repetition % length cs

-- The repetitions that are left, from one on.
unfoldable pub jobs_from : (repetition left : ℕ) → List Condition → List Job
unfolding rotate jobs_of
jobs_from repetition zero cs = []
jobs_from repetition (suc left) cs =
    jobs_of repetition (rotate (turn repetition cs) cs) ++ jobs_from (repetition + 1) left cs

-- `none`: at least three repetitions are required.
unfoldable pub make_jobs : (repeats : ℕ) → List Condition → Option (List Job)
unfolding jobs_from
make_jobs repeats shuffled = if ltb repeats 3 then none else some (jobs_from 0 repeats shuffled)

-- A frozen input: its digest in the plan, and that of the file, if it is there.
pub record Frozen : Type 0 where
  pub planned : Text
  pub found : Option Text

abbrev unchanged : Frozen → Bool
unchanged f = elim f.found [ none ↦ false | some digest ↦ text_eq digest f.planned ]

-- True: the plan may be used.
unfoldable pub verify : (supported : Bool) → List Frozen → Bool
verify supported [] = supported
verify supported (f ∷ fs) = let rest = verify supported fs in unchanged f && rest

-- What a summary of a run says of its own evidence.
pub record Evidence : Type 0 where
  pub frames_error : Bool
  pub backend_verified : Bool

unfoldable pub has_evidence : List Evidence → Bool
has_evidence [] = true
has_evidence (e ∷ es) =
    let rest = has_evidence es in not e.frames_error && (e.backend_verified && rest)

-- What happens to one job of `run`: its frozen inputs, whether it has results before it starts, and
-- how its command ends.
pub record Execution : Type 0 where
  pub inputs : List Frozen
  pub has_results : Bool
  pub timed_out : Bool
  pub returncode : ℤ
  pub summaries : List Evidence

pub data Failure : Type 0 where
  input_changed has_results_already timeout_expired benchmark_failed missing_evidence : Failure

-- The jobs whose command has ended, as execution.json lists them, and why the loop raised, if it did.
pub record Executed : Type 0 where
  pub done : List Job
  pub failure : Option Failure

unfoldable pub run_jobs : Bool → List (Job × Execution) → List Job → Executed
unfolding verify has_evidence
run_jobs supported [] done = record { done = done; failure = none }
run_jobs supported ((job, e) ∷ rest) done =
    let next = run_jobs supported rest (done ++ (job ∷ [])) in
    if not (verify supported e.inputs)
    then record { done = done; failure = some input_changed }
    else if e.has_results
    then record { done = done; failure = some has_results_already }
    else if e.timed_out
    then record { done = done; failure = some timeout_expired }
    else if not (is_zero e.returncode)
    then record { done = done ++ (job ∷ []); failure = some benchmark_failed }
    else if not (has_evidence e.summaries)
    then record { done = done ++ (job ∷ []); failure = some missing_evidence }
    else next

unfoldable pub run : Bool → List Frozen → List (Job × Execution) → Executed
unfolding run_jobs
run supported inputs jobs =
    if verify supported inputs
    then run_jobs supported jobs []
    else record { done = []; failure = some input_changed }
