-- ===== src/Investigate/Campaign/Complete.antt =====
-- A loop of `campaign` of runtime/kosmickrisp/investigate.py that reaches the end of its sequence.
use mathlib.Core.List.{append-nil, append_assoc}
use winecx_gptk.Common.{
  true, false, none, some, List, [], ◌∷◌, ◌++◌, AllOf, Option-cases, inl, inr, ◌≡◌, ap, sym, ◌∙◌,
  arith,
}
use winecx_gptk.Common.Text.{Text}
use winecx_gptk.Investigate.Guard.Seen.{Outcome}
use winecx_gptk.Investigate.Campaign.Evidence.{selected_host_evidence}
use winecx_gptk.Investigate.Campaign.Plan.{Entry}
use winecx_gptk.Investigate.Campaign.Loop.{
  RunFiles, Runs, Trial, Progress, going, step, chain, run_sequence, acceptable, previous,
  finished_run, launched_run, empty_run,
}
use winecx_gptk.Investigate.Campaign.Steps.{
  is_good, Went, earlier, launched, chain-going, step-going, write-other, write-same,
}

none-is_good : (f : RunFiles) → f.result ≡ none → is_good f ≡ false
none-is_good f h = ground arith

finished_run-is_good :
    (o : Outcome) (t : Trial) → acceptable o t.host ≡ true → is_good (finished_run o t) ≡ true
unfolding selected_host_evidence
finished_run-is_good o t h = ground arith

Went-good :
    (t : Trial) (e : Entry) (p p' : Progress) → Went t e p p' → is_good (p'.runs e.label) ≡ true
Went-good t e p p' (earlier o k good q) = ap (λ (x : Progress). is_good (x.runs e.label)) q ∙ good
Went-good t e p p' (launched o k ex c a q) =
    ap (λ (x : Progress). is_good (x.runs e.label)) q
    ∙ (ap is_good (write-same e.label (finished_run o t) (launched_run e.label p).runs)
        ∙ finished_run-is_good o t a)

Went-keeps :
    (t : Trial) (e : Entry) (p p' : Progress) (other : Text)
    → Went t e p p'
    → is_good (p.runs other) ≡ true
    → p'.runs other ≡ p.runs other
Went-keeps t e p p' other (earlier o k good q) h = ap (λ (x : Progress). x.runs other) q
Went-keeps t e p p' other (launched o k ex c a q) h =
    let one =
      write-other is_good e.label other empty_run p.runs (none-is_good (p.runs e.label) k) h in
    let two =
      write-other is_good e.label other (finished_run o t) (launched_run e.label p).runs
        (ap is_good (write-same e.label empty_run p.runs)) (ap is_good one ∙ h) in
    ap (λ (x : Progress). x.runs other) q ∙ (two ∙ one)

-- The outcome of a run, and those of the runs of a sequence.
abbrev pub outcome_of : RunFiles → List Outcome
outcome_of f = elim f.result [ none ↦ [] | some o ↦ o ∷ [] ]

abbrev pub outcomes : List Entry → Runs → List Outcome
outcomes [] runs = []
outcomes (e ∷ es) runs = outcome_of (runs e.label) ++ outcomes es runs

run_sequence-keeps :
    (trials : Text → Trial) (es : List Entry) (p p' : Progress) (other : Text)
    → run_sequence trials es p ≡ going p'
    → is_good (p.runs other) ≡ true
    → p'.runs other ≡ p.runs other
unfolding run_sequence
run_sequence-keeps trials [] p p' other h k = ground arith
run_sequence-keeps trials (e ∷ es) p p' other h k =
    let c = chain-going (step trials e p) (run_sequence trials es) p' h in
    let one = Went-keeps (trials e.label) e p c.0 other (step-going trials e p c.0 c.1) k in
    run_sequence-keeps trials es c.0 p' other c.2 (ap is_good one ∙ k) ∙ one

pub run_sequence-good :
    (trials : Text → Trial) (es : List Entry) (p p' : Progress)
    → run_sequence trials es p ≡ going p'
    → AllOf (λ (e : Entry). is_good (p'.runs e.label) ≡ true) es
unfolding run_sequence
run_sequence-good trials [] p p' h = tt
run_sequence-good trials (e ∷ es) p p' h =
    let c = chain-going (step trials e p) (run_sequence trials es) p' h in
    let good = Went-good (trials e.label) e p c.0 (step-going trials e p c.0 c.1) in
    let kept = run_sequence-keeps trials es c.0 p' e.label c.2 good in
    (ap is_good kept ∙ good, run_sequence-good trials es c.0 p' c.2)

pub outcome_of-some : (f : RunFiles) (o : Outcome) → f.result ≡ some o → outcome_of f ≡ o ∷ []
outcome_of-some f o h = ground arith

Went-results :
    (t : Trial) (e : Entry) (p p' : Progress)
    → Went t e p p'
    → p'.results ≡ p.results ++ outcome_of (p'.runs e.label)
Went-results t e p p' (earlier o k good q) =
    ap (λ (x : Progress). x.results) q
    ∙ ap (λ xs. p.results ++ xs)
        (sym (
          ap (λ (x : Progress). outcome_of (x.runs e.label)) q
          ∙ outcome_of-some (p.runs e.label) o k))
Went-results t e p p' (launched o k ex c a q) =
    ap (λ (x : Progress). x.results) q
    ∙ ap (λ xs. p.results ++ xs)
        (sym (
          ap (λ (x : Progress). outcome_of (x.runs e.label)) q
          ∙ ap outcome_of (write-same e.label (finished_run o t) (launched_run e.label p).runs)))

pub run_sequence-results :
    (trials : Text → Trial) (es : List Entry) (p p' : Progress)
    → run_sequence trials es p ≡ going p'
    → p'.results ≡ p.results ++ outcomes es p'.runs
unfolding run_sequence
run_sequence-results trials [] p p' h =
    let same : p'.results ≡ p.results = ground arith in same ∙ sym (append-nil p.results)
run_sequence-results trials (e ∷ es) p p' h =
    let c = chain-going (step trials e p) (run_sequence trials es) p' h in
    let w = step-going trials e p c.0 c.1 in
    let kept =
      run_sequence-keeps trials es c.0 p' e.label c.2 (Went-good (trials e.label) e p c.0 w) in
    run_sequence-results trials es c.0 p' c.2
    ∙ (ap (λ xs. xs ++ outcomes es p'.runs) (Went-results (trials e.label) e p c.0 w)
        ∙ (append_assoc p.results (outcome_of ((c.0).runs e.label)) (outcomes es p'.runs)
            ∙ ap (λ f. p.results ++ (outcome_of f ++ outcomes es p'.runs)) (sym kept)))

abbrev with_outcome : Entry → Progress → Progress
with_outcome e p = record p { results = p.results ++ outcome_of (p.runs e.label) }

step-is_good :
    (trials : Text → Trial) (e : Entry) (p : Progress)
    → is_good (p.runs e.label) ≡ true
    → step trials e p ≡ going (with_outcome e p)
unfolding step previous
step-is_good trials e p h = elim (Option-cases (p.runs e.label).result) [
  | inl k ↦ absurd (ground arith)
  | inr (o, k) ↦ ground arith
]

-- Over acceptable runs the loop only reads.
pub run_sequence-replays :
    (trials : Text → Trial) (es : List Entry) (p : Progress)
    → AllOf (λ (e : Entry). is_good (p.runs e.label) ≡ true) es
    → run_sequence trials es p ≡ going (record p { results = p.results ++ outcomes es p.runs })
unfolding run_sequence chain
run_sequence-replays trials [] p h =
    ap (λ xs. going (record p { results = xs })) (sym (append-nil p.results))
run_sequence-replays trials (e ∷ es) p h =
    let read = with_outcome e p in
    ap (λ s. chain s (run_sequence trials es)) (step-is_good trials e p h.0)
    ∙ (run_sequence-replays trials es read h.1
        ∙ ap (λ xs. going (record p { results = xs }))
            (append_assoc p.results (outcome_of (p.runs e.label)) (outcomes es p.runs)))
