-- ===== src/Investigate/Campaign/Limits.antt =====
-- `main` and `campaign` of runtime/kosmickrisp/investigate.py: how many runs a campaign launches, and
-- what a complete one has behind it.
use mathlib.Core.Path.{subst}
use winecx_gptk.Common.{
  take, ℕ, zero, suc, ◌≤◌, Bool, true, false, not, ◌||◌, Option, none, some, List, [], ◌∷◌, ◌++◌,
  length, AllOf, Option-cases, inl, inr, ◌⊎◌, ◌≡◌, refl, ap, sym, ◌∙◌, min, arith, if◌then◌else◌,
}
use winecx_gptk.Common.Int.{ℤ, pos, negsuc}
use winecx_gptk.Common.Text.{Text, codes}
use winecx_gptk.Investigate.Guard.Seen.{passed}
use winecx_gptk.Investigate.Campaign.Evidence.{
  selected_host_evidence, host_evidence_valid, serious_host_fault,
}
use winecx_gptk.Investigate.Campaign.Plan.{
  Entry, CampaignPlan, Checked, good, bad, PlanError, validate_plan, limit_runs, planned_runs,
  campaign_sequence, or_default, from_1_to_12, runs_of, check_values, missing_path,
  unapproved_limits,
}
use winecx_gptk.Investigate.Campaign.Loop.{
  RunFiles, Runs, Trial, Progress, Step, going, stops, raises, run_sequence, begin, acceptable,
}
use winecx_gptk.Investigate.Campaign.Run.{
  Preflight, preflight, Status, Ended, reviewed, failed, close, campaign, ran, main,
}
use winecx_gptk.Investigate.Campaign.Steps.{is_good}
use winecx_gptk.Investigate.Campaign.Complete.{
  run_sequence-good, run_sequence-results, outcomes, outcome_of-some,
}
use winecx_gptk.Investigate.Campaign.Launches.{left}
use winecx_gptk.Investigate.Campaign.Held.{Distinct, run_sequence-Held}

-- A run that passed, with complete evidence from the host and no serious fault in it.
pub record Accepted (f : RunFiles) : Type 0 where
  pub result : f.result ≡ some passed
  pub evidence : host_evidence_valid (selected_host_evidence f.host f.supplemental) ≡ true
  pub healthy : serious_host_fault (selected_host_evidence f.host f.supplemental) ≡ false

is_good-Accepted : (f : RunFiles) → is_good f ≡ true → Accepted f
unfolding acceptable
is_good-Accepted f h = record {
  result = ground arith;
  evidence = ground arith;
  healthy = ground arith;
}

all-Accepted :
    (runs : Runs) (es : List Entry)
    → AllOf (λ (e : Entry). is_good (runs e.label) ≡ true) es
    → AllOf (λ (e : Entry). Accepted (runs e.label)) es
all-Accepted runs [] h = tt
all-Accepted runs (e ∷ es) h = (is_good-Accepted (runs e.label) h.0, all-Accepted runs es h.1)

outcomes-length :
    (runs : Runs) (es : List Entry)
    → AllOf (λ (e : Entry). is_good (runs e.label) ≡ true) es
    → length (outcomes es runs) ≡ length es
outcomes-length runs [] h = refl
outcomes-length runs (e ∷ es) h = elim (Option-cases (runs e.label).result) [
  | inl k ↦ absurd (ground arith)
  | inr (o, k) ↦
      ap (λ os. length (os ++ outcomes es runs)) (outcome_of-some (runs e.label) o k)
      ∙ ap suc (outcomes-length runs es h.1)
]

close_complete :
    (s : Step) (t : Status) (p : Progress)
    → close s ≡ reviewed t p
    → t.reason ≡ none
    → (s ≡ going p) × (t.runs ≡ length p.results)
unfolding close
close_complete (going q) t p h k = ground arith
close_complete (stops why q) t p h k = absurd (ground arith)
close_complete (raises e q) t p h k = absurd cc

-- A campaign whose status is `batch_complete` has, for every entry of its sequence, a run that passed
-- with complete host evidence and no serious host fault, and counts them all.
pub campaign_complete :
    (es : List Entry) (c : Preflight) (trials : Text → Trial) (runs : Runs) (t : Status)
    (p : Progress)
    → campaign es c trials runs ≡ reviewed t p
    → t.reason ≡ none
    → AllOf (λ (e : Entry). Accepted (p.runs e.label)) es × (t.runs ≡ length es)
unfolding campaign
campaign_complete es c trials runs t p h k = elim (Option-cases (preflight c)) [
  | inr (e, q) ↦ absurd (ground arith)
  | inl q ↦
      let r : close (run_sequence trials es (begin runs)) ≡ reviewed t p = ground arith in
      let s = close_complete (run_sequence trials es (begin runs)) t p r k in
      let g = run_sequence-good trials es (begin runs) p s.0 in
      (
        all-Accepted p.runs es g,
        s.1
            ∙ (ap (length {0}) (run_sequence-results trials es (begin runs) p s.0)
                ∙ outcomes-length p.runs es g),
      )
]

take-length {ℓ} : {A : Type ℓ} (n : ℕ) (xs : List A) → length (take n xs) ≤ n
take-length zero xs = omega arith
take-length (suc n) [] = omega arith
take-length (suc n) (x ∷ xs) = omega (arith, take-length n xs)

if_none {ℓ} :
    {A : Type ℓ} (b : Bool) (x : A) (r : Option A) → (if b then some x else r) ≡ none → b ≡ false
if_none true x r h = absurd cc
if_none false x r h = refl

or_not : (a b : Bool) → (a || not b) ≡ false → b ≡ true
or_not a b h = ground arith

validate_plan-limits :
    (p : CampaignPlan)
    → validate_plan p ≡ none
    → from_1_to_12 (or_default (pos 12) p.max_runs) ≡ true
unfolding validate_plan
validate_plan-limits p h = elim (Option-cases (missing_path p.required)) [
  | inr (key, k) ↦ absurd (ground arith)
  | inl k ↦
      let v : check_values p ≡ none = ground arith in or_not _ _ (if_none _ unapproved_limits _ v)
]

-- The most that the argument `--max-runs` allows.
abbrev pub allowed : Option ℤ → ℕ
allowed none = 12
allowed (some (pos n)) = min n 12
allowed (some (negsuc n)) = 0

limit_runs-allowed :
    (m : Option ℤ) (p : CampaignPlan)
    → from_1_to_12 (or_default (pos 12) (limit_runs m p).max_runs) ≡ true
    → runs_of (or_default (pos 12) (limit_runs m p).max_runs) ≤ allowed m
unfolding limit_runs
limit_runs-allowed none p h = ground arith
limit_runs-allowed (some (pos n)) p h = ground arith
limit_runs-allowed (some (negsuc n)) p h = ground arith

Checked-cases {ℓ} :
    {A : Type ℓ} (c : Checked A) → ((a : A) × (c ≡ good a)) ⊎ ((e : PlanError) × (c ≡ bad e))
Checked-cases (good a) = inl (a, refl)
Checked-cases (bad e) = inr (e, refl)

planned_runs-length :
    (p : CampaignPlan) (es : List Entry)
    → planned_runs p ≡ good es
    → length es ≤ runs_of (or_default (pos 12) p.max_runs)
unfolding planned_runs
planned_runs-length p es h =
    elim (Checked-cases (campaign_sequence (or_default (codes "full") p.phase))) [
      | inr (e, k) ↦ absurd (ground arith)
      | inl (sequence, k) ↦
          let n = runs_of (or_default (pos 12) p.max_runs) in
          let same : es ≡ take n sequence = ground arith in
          subst (λ xs. length xs ≤ n) (sym same) (take-length n sequence)
    ]

abbrev pub progress_of : Ended → Progress
progress_of (reviewed t p) = p
progress_of (failed e p) = p

close-left : (s : Step) → progress_of (close s) ≡ left s
unfolding close
close-left (going p) = refl
close-left (stops why p) = refl
close-left (raises e p) = refl

campaign-launches :
    (es : List Entry) (c : Preflight) (trials : Text → Trial) (runs : Runs)
    → Distinct (progress_of (campaign es c trials runs)).launched
      × (length (progress_of (campaign es c trials runs)).launched ≤ length es)
unfolding campaign
campaign-launches es c trials runs = elim (Option-cases (preflight c)) [
  | inr (e, q) ↦
      let same : campaign es c trials runs ≡ failed e (begin runs) = ground arith in
      subst (λ r. Distinct (progress_of r).launched × (length (progress_of r).launched ≤ length es))
        (sym same) (tt, omega arith)
  | inl q ↦
      let same : campaign es c trials runs ≡ close (run_sequence trials es (begin runs)) =
        ground arith in
      let held = run_sequence-Held trials es (begin runs) (tt, tt) in
      subst (λ (r : Progress). Distinct r.launched × (length r.launched ≤ length es))
        (sym (ap progress_of same ∙ close-left (run_sequence trials es (begin runs))))
        ((held.0).1, omega (arith, held.1))
]

-- `main` with a plan that it accepts launches each run at most once, and at most twelve runs, or as
-- many as `--max-runs` allows where this is less, however the campaign ends and whatever runs were
-- there before.
pub main-launches :
    (plan : CampaignPlan) (max_runs : Option ℤ) (out_exists : Bool) (c : Preflight)
    (trials : Text → Trial) (runs : Runs) (e : Ended)
    → main plan max_runs out_exists c trials runs ≡ ran e
    → Distinct (progress_of e).launched × (length (progress_of e).launched ≤ allowed max_runs)
unfolding main
main-launches plan max_runs out_exists c trials runs e h =
    let p = limit_runs max_runs plan in
    elim (Option-cases (validate_plan p)) [
      | inr (x, q) ↦ absurd (ground arith)
      | inl q ↦ elim (Checked-cases (planned_runs p)) [
        | inr (x, k) ↦ absurd (ground arith)
        | inl (es, k) ↦
            let same : e ≡ campaign es c trials runs = ground arith in
            let l = campaign-launches es c trials runs in
            let a = limit_runs-allowed max_runs plan (validate_plan-limits p q) in
            let b = planned_runs-length p es k in
            subst
              (λ r.
                Distinct (progress_of r).launched
                × (length (progress_of r).launched ≤ allowed max_runs))
              (sym same) (l.0, omega (arith, l.1, a, b))
      ]
    ]
