-- ===== src/Benchmark/Executing.antt =====
-- `run` of runtime/kosmickrisp/benchmark.py: which jobs have been executed when it returns or raises.
use mathlib.Core.List.{append-nil}
use winecx_gptk.Common.{
  Bool, true, false, Option, none, some, List, [], ◌∷◌, ◌++◌, map, AllOf, Bool-cases, inl, inr, ◌≡◌,
  refl, ap, sym, ◌∙◌, arith,
}
use winecx_gptk.Common.Int.{ℤ, pos, negsuc, is_zero}
use winecx_gptk.Common.Text.{Text, text_eq, text_eq_sound}
use winecx_gptk.Benchmark.Jobs.{
  Job, Frozen, Evidence, Execution, Executed, verify, has_evidence, run_jobs, run,
}

-- The input is there, with the digest of the plan.
abbrev pub IsUnchanged : Frozen → Type 0
IsUnchanged f = f.found ≡ some f.planned

abbrev pub HasEvidence : Evidence → Type 0
HasEvidence v = (v.frames_error ≡ false) × (v.backend_verified ≡ true)

-- A job that went through.
pub record Through (supported : Bool) (je : Job × Execution) : Type 0 where
  pub is_supported : supported ≡ true
  pub unchanged : AllOf IsUnchanged je.1.inputs
  pub first_time : je.1.has_results ≡ false
  pub in_time : je.1.timed_out ≡ false
  pub status : je.1.returncode ≡ pos 0
  pub evidence : AllOf HasEvidence je.1.summaries

abbrev pub jobs_of_plan : List (Job × Execution) → List Job
jobs_of_plan = map (λ je. je.0)

append-cons {ℓ} :
    {A : Type ℓ} (xs : List A) (y : A) (zs : List A) → (xs ++ (y ∷ [])) ++ zs ≡ xs ++ (y ∷ zs)
append-cons [] y zs = refl
append-cons (x ∷ xs) y zs = ap (λ ys. x ∷ ys) (append-cons xs y zs)

unchanged-IsUnchanged :
    (f : Frozen) (o : Option Text)
    → f.found ≡ o
    → elim o [ none ↦ false | some digest ↦ text_eq digest f.planned ] ≡ true
    → IsUnchanged f
unchanged-IsUnchanged f none e h = absurd (ground arith)
unchanged-IsUnchanged f (some digest) e h = e ∙ ap some (text_eq_sound digest f.planned h)

verify-IsUnchanged :
    (supported : Bool) (fs : List Frozen)
    → verify supported fs ≡ true
    → (supported ≡ true) × AllOf IsUnchanged fs
unfolding verify
verify-IsUnchanged supported [] h = (h, tt)
verify-IsUnchanged supported (f ∷ fs) h =
    let ih = verify-IsUnchanged supported fs (ground arith) in
    (ih.0, (unchanged-IsUnchanged f f.found refl (ground arith), ih.1))

has_evidence-HasEvidence : (vs : List Evidence) → has_evidence vs ≡ true → AllOf HasEvidence vs
unfolding has_evidence
has_evidence-HasEvidence [] h = tt
has_evidence-HasEvidence (v ∷ vs) h =
    ((ground arith, ground arith), has_evidence-HasEvidence vs (ground arith))

is_zero-eq : (z : ℤ) → is_zero z ≡ true → z ≡ pos 0
is_zero-eq (pos n) h = let e : n ≡ 0 = ground arith in ap pos e
is_zero-eq (negsuc n) h = absurd (ground arith)

-- A step of the loop that does not raise is one that goes on.
record Goes (supported : Bool) (je : Job × Execution) (r next : Executed) : Type 0 where
  through : Through supported je
  is_next : r ≡ next

run_jobs-Goes :
    (supported : Bool) (job : Job) (e : Execution) (rest : List (Job × Execution)) (done : List Job)
    → (run_jobs supported ((job, e) ∷ rest) done).failure ≡ none
    → Goes supported
        (job, e)
        (run_jobs supported ((job, e) ∷ rest) done)
        (run_jobs supported rest (done ++ (job ∷ [])))
unfolding run_jobs
run_jobs-Goes supported job e rest done h = elim (Bool-cases (verify supported e.inputs)) [
  | inr a ↦ ground arith
  | inl a ↦ elim (Bool-cases (is_zero e.returncode)) [
    | inr b ↦ ground arith
    | inl b ↦ elim (Bool-cases (has_evidence e.summaries)) [
      | inr c ↦ ground arith
      | inl c ↦ record {
        through = record {
          is_supported = (verify-IsUnchanged supported e.inputs a).0;
          unchanged = (verify-IsUnchanged supported e.inputs a).1;
          first_time = ground arith;
          in_time = ground arith;
          status = is_zero-eq e.returncode b;
          evidence = has_evidence-HasEvidence e.summaries c;
        };
        is_next = ground arith;
      }
    ]
  ]
]

run_jobs-Through :
    (supported : Bool) (jobs : List (Job × Execution)) (done : List Job)
    → (run_jobs supported jobs done).failure ≡ none
    → ((run_jobs supported jobs done).done ≡ done ++ jobs_of_plan jobs)
      × AllOf (Through supported) jobs
unfolding run_jobs
run_jobs-Through supported [] done h = (sym (append-nil done), tt)
run_jobs-Through supported ((job, e) ∷ rest) done h =
    let g = run_jobs-Goes supported job e rest done h in
    let later = done ++ (job ∷ []) in
    let ih = run_jobs-Through supported rest later (ap (λ r. r.failure) (sym g.is_next) ∙ h) in
    (
      ap (λ r. r.done) g.is_next ∙ ih.0 ∙ append-cons done job (jobs_of_plan rest),
      (g.through, ih.1),
    )

-- If `run` does not raise, then the jobs of the plan have been executed, all of them and in their
-- order, and each found its frozen inputs unchanged and no results of its own, ended in time with
-- status 0, and left frame and driver evidence in all its summaries.
pub run-Through :
    (supported : Bool) (inputs : List Frozen) (jobs : List (Job × Execution))
    → (run supported inputs jobs).failure ≡ none
    → ((run supported inputs jobs).done ≡ jobs_of_plan jobs) × AllOf (Through supported) jobs
unfolding run
run-Through supported inputs jobs h = elim (Bool-cases (verify supported inputs)) [
  | inr a ↦ ground arith
  | inl a ↦
      let is : run supported inputs jobs ≡ run_jobs supported jobs [] = ground arith in
      let all = run_jobs-Through supported jobs [] (ap (λ r. r.failure) (sym is) ∙ h) in
      (ap (λ r. r.done) is ∙ all.0, all.1)
]
