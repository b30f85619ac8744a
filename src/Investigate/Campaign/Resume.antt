-- ===== src/Investigate/Campaign/Resume.antt =====
-- A campaign of runtime/kosmickrisp/investigate.py that is stopped between two runs and resumed.
use mathlib.Core.Path.{fun_ext}
use winecx_gptk.Common.{
  Option, none, some, Option-cases, inl, inr, List, [], ◌∷◌, ◌++◌, ◌≡◌, refl, ap, sym, ◌∙◌, arith,
}
use winecx_gptk.Common.Text.{Text}
use winecx_gptk.Investigate.Guard.Seen.{Outcome}
use winecx_gptk.Investigate.Campaign.Evidence.{HostRecord, selected_host_evidence}
use winecx_gptk.Investigate.Campaign.Plan.{Entry}
use winecx_gptk.Investigate.Campaign.Loop.{
  Runs, Trial, Progress, Step, going, stops, raises, step, chain, run_sequence, begin, previous,
  fresh_run, launch_run, review, with_result, with_files, ended, finished_run, launched_run,
  RunFiles, guardian_missing_result, empty_run, reviewed_run, Preparation, prepared, fails_early,
  fails_late, after_preparation, after_steam,
}
use winecx_gptk.Investigate.Campaign.Complete.{
  run_sequence-good, run_sequence-results, run_sequence-replays,
}

-- All but which runs were launched by this call.
abbrev pub forget : Progress → Progress
forget p = record p { launched = [] }

unfoldable pub outcome : Step → Step
outcome (going p) = going (forget p)
outcome (stops why p) = stops why (forget p)
outcome (raises e p) = raises e (forget p)

review-forget :
    (o : Outcome) (h : HostRecord) (p q : Progress)
    → forget p ≡ forget q
    → outcome (review o h p) ≡ outcome (review o h q)
unfolding outcome review
review-forget o h p q e = ground arith

previous-forget :
    (o : Outcome) (h : HostRecord) (p : Progress)
    → outcome (previous o h (forget p)) ≡ outcome (previous o h p)
unfolding outcome previous
previous-forget o h p = ground arith

with_result-forget :
    (o : Outcome) (p q : Progress)
    → forget p ≡ forget q
    → forget (with_result o p) ≡ forget (with_result o q)
with_result-forget o p q e = ap (λ r. with_result o r) e

with_files-forget :
    (label : Text) (f : RunFiles) (p q : Progress)
    → forget p ≡ forget q
    → forget (with_files label f p) ≡ forget (with_files label f q)
with_files-forget label f p q e = ap (λ r. with_files label f r) e

reviewed_run-forget :
    (label : Text) (t : Trial) (o : Outcome) (x : Option Text) (p q : Progress)
    → forget p ≡ forget q
    → outcome (reviewed_run label t o x p) ≡ outcome (reviewed_run label t o x q)
unfolding outcome
reviewed_run-forget label t o (some x) p q e =
    ap (λ r. raises x (with_files label (record empty_run { result = some o }) r)) e
reviewed_run-forget label t o none p q e = review-forget o t.host _ _ (
    with_result-forget o (with_files label (finished_run o t) p)
      (with_files label (finished_run o t) q) (with_files-forget label (finished_run o t) p q e))

ended-forget :
    (label : Text) (t : Trial) (r : Option Outcome) (p q : Progress)
    → forget p ≡ forget q
    → outcome (ended label t r p) ≡ outcome (ended label t r q)
unfolding outcome
ended-forget label t none p q e = ap (λ r. stops guardian_missing_result r) e
ended-forget label t (some o) p q e = reviewed_run-forget label t o t.review_error p q e

after_preparation-forget :
    (label : Text) (t : Trial) (x : Preparation) (p : Progress)
    → outcome (after_preparation label t x (forget p)) ≡ outcome (after_preparation label t x p)
unfolding outcome
after_preparation-forget label t prepared p =
    ended-forget label t t.result (launched_run label (forget p)) (launched_run label p) refl
after_preparation-forget label t (fails_early e) p = refl
after_preparation-forget label t (fails_late e) p = refl

after_steam-forget :
    (label : Text) (t : Trial) (x : Option Text) (p : Progress)
    → outcome (after_steam label t x (forget p)) ≡ outcome (after_steam label t x p)
unfolding outcome
after_steam-forget label t none p = after_preparation-forget label t t.preparation p
after_steam-forget label t (some e) p = refl

launch_run-forget :
    (label : Text) (t : Trial) (p : Progress)
    → outcome (launch_run label t (forget p)) ≡ outcome (launch_run label t p)
unfolding launch_run
launch_run-forget label t p = after_steam-forget label t t.steam_error p

fresh_run-forget :
    (e : Entry) (t : Trial) (p : Progress)
    → outcome (fresh_run e t (forget p)) ≡ outcome (fresh_run e t p)
unfolding outcome fresh_run
fresh_run-forget e t p = ground (arith, launch_run-forget e.label t p)

step-forget :
    (trials : Text → Trial) (e : Entry) (p : Progress)
    → outcome (step trials e (forget p)) ≡ outcome (step trials e p)
unfolding step
step-forget trials e p = elim (Option-cases (p.runs e.label).result) [
  | inl k ↦ ground (arith, fresh_run-forget e (trials e.label) p)
  | inr (o, k) ↦ ground (
    arith,
    previous-forget o (selected_host_evidence (p.runs e.label).host (p.runs e.label).supplemental)
        p,
  )
]

chain-outcome :
    (k : Progress → Step)
    → ((p : Progress) → outcome (k (forget p)) ≡ outcome (k p))
    → (s t : Step) → outcome s ≡ outcome t
    → outcome (chain s k) ≡ outcome (chain t k)
unfolding outcome chain
chain-outcome k h (going p) (going q) e =
    let same : forget p ≡ forget q = ground arith in
    sym (h p) ∙ (ap (λ r. outcome (k r)) same ∙ h q)
chain-outcome k h (going p) (stops why q) e = absurd cc
chain-outcome k h (going p) (raises x q) e = absurd cc
chain-outcome k h (stops why p) (going q) e = absurd cc
chain-outcome k h (stops why p) (stops why' q) e = e
chain-outcome k h (stops why p) (raises x q) e = absurd cc
chain-outcome k h (raises x p) (going q) e = absurd cc
chain-outcome k h (raises x p) (stops why q) e = absurd cc
chain-outcome k h (raises x p) (raises y q) e = e

run_sequence-forget :
    (trials : Text → Trial) (es : List Entry) (p : Progress)
    → outcome (run_sequence trials es (forget p)) ≡ outcome (run_sequence trials es p)
unfolding run_sequence outcome
run_sequence-forget trials [] p = refl
run_sequence-forget trials (e ∷ es) p =
    chain-outcome (run_sequence trials es) (run_sequence-forget trials es)
      (step trials e (forget p)) (step trials e p) (step-forget trials e p)

chain_assoc :
    (s : Step) (k l : Progress → Step) → chain (chain s k) l ≡ chain s (λ p. chain (k p) l)
unfolding chain
chain_assoc (going p) k l = refl
chain_assoc (stops why p) k l = refl
chain_assoc (raises e p) k l = refl

run_sequence-append :
    (trials : Text → Trial) (xs ys : List Entry) (p : Progress)
    → run_sequence trials (xs ++ ys) p ≡ chain (run_sequence trials xs p) (run_sequence trials ys)
unfolding run_sequence chain
run_sequence-append trials [] ys p = refl
run_sequence-append trials (x ∷ xs) ys p =
    ap (chain (step trials x p)) (fun_ext (run_sequence-append trials xs ys))
    ∙ sym (chain_assoc (step trials x p) (run_sequence trials xs) (run_sequence trials ys))

-- A campaign that is stopped between two runs, after the entries `xs` went through, and started again
-- over the runs that it left ends as the campaign that was not stopped: with the same reason or error,
-- the same files of every run and the same results.
pub resumed-eq-uninterrupted :
    (trials : Text → Trial) (xs ys : List Entry) (runs : Runs) (p : Progress)
    → run_sequence trials xs (begin runs) ≡ going p
    → outcome (run_sequence trials (xs ++ ys) (begin p.runs))
      ≡ outcome (run_sequence trials (xs ++ ys) (begin runs))
unfolding chain
resumed-eq-uninterrupted trials xs ys runs p h =
    let again =
      run_sequence-replays trials xs (begin p.runs)
        (run_sequence-good trials xs (begin runs) p h) in
    let same = run_sequence-results trials xs (begin runs) p h in
    let left : run_sequence trials (xs ++ ys) (begin p.runs) ≡ run_sequence trials ys (forget p) =
      run_sequence-append trials xs ys (begin p.runs)
      ∙ (ap (λ s. chain s (run_sequence trials ys)) again
          ∙ ap (λ rs. run_sequence trials ys (record p { launched = []; results = rs }))
              (sym same)) in
    let right : run_sequence trials (xs ++ ys) (begin runs) ≡ run_sequence trials ys p =
      run_sequence-append trials xs ys (begin runs)
      ∙ ap (λ s. chain s (run_sequence trials ys)) h in
    ap outcome left ∙ (run_sequence-forget trials ys p ∙ sym (ap outcome right))
