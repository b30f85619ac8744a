-- ===== src/Investigate/Campaign/Steps.antt =====
-- What the loop of `campaign` of runtime/kosmickrisp/investigate.py leaves of the runs: a run with a
-- result is not touched again, and a loop that goes on has only acceptable runs behind it.
use winecx_gptk.Common.{
  Bool, true, false, not, ◌||◌, Option, none, some, Bool-cases, Option-cases, inl, inr, ◌≡◌, refl,
  ap, sym, ◌∙◌, arith,
}
use winecx_gptk.Common.Text.{Text, text_eq, text_eq_refl, text_eq_sound}
use winecx_gptk.Investigate.Guard.Seen.{Outcome}
use winecx_gptk.Investigate.Campaign.Evidence.{HostRecord, selected_host_evidence}
use winecx_gptk.Investigate.Campaign.Plan.{Entry}
use winecx_gptk.Investigate.Campaign.Loop.{
  RunFiles, Runs, write, Trial, Progress, Step, going, stops, raises, acceptable, previous, review,
  launch_run, fresh_run, step, chain, is_archive, controls_hit, with_result, with_files,
  launched_run, ended, finished_run,
}

-- The files of a run that needs no review.
abbrev pub is_good : RunFiles → Bool
is_good f = elim f.result [
  | none ↦ false
  | some outcome ↦ acceptable outcome (selected_host_evidence f.host f.supplemental)
]

pub chain-going :
    (s : Step) (k : Progress → Step) (p' : Progress)
    → chain s k ≡ going p'
    → (p : Progress) × (s ≡ going p) × (k p ≡ going p')
unfolding chain
chain-going (going p) k p' h = (p, refl, h)
chain-going (stops why p) k p' h = absurd cc
chain-going (raises e p) k p' h = absurd cc

-- The two ways in which the loop goes on after an entry.
pub data Went (t : Trial) (e : Entry) (p p' : Progress) : Type 0 where
  earlier :
      (outcome : Outcome)
      → (p.runs e.label).result ≡ some outcome
      → is_good (p.runs e.label) ≡ true
      → p' ≡ with_result outcome p
      → Went t e p p'
  launched :
      (outcome : Outcome)
      → (p.runs e.label).result ≡ none
      → (p.runs e.label).exists ≡ false
      → (not (is_archive e.label) || controls_hit p.runs) ≡ true
      → acceptable outcome t.host ≡ true
      → p'
        ≡ with_result outcome (with_files e.label (finished_run outcome t) (launched_run e.label p))
      → Went t e p p'

previous-going :
    (o : Outcome) (h : HostRecord) (p p' : Progress)
    → previous o h p ≡ going p'
    → (acceptable o h ≡ true) × (p' ≡ with_result o p)
unfolding previous
previous-going o h p p' e = elim (Bool-cases (acceptable o h)) [
  | inl k ↦ (k, ground arith)
  | inr k ↦ absurd (ground arith)
]

review-going :
    (o : Outcome) (h : HostRecord) (p p' : Progress)
    → review o h p ≡ going p'
    → (acceptable o h ≡ true) × (p' ≡ p)
unfolding review acceptable
review-going o h p p' e = (ground arith, ground arith)

ended-going :
    (label : Text) (t : Trial) (r : Option Outcome) (p p' : Progress)
    → ended label t r p ≡ going p'
    → (outcome : Outcome) × (acceptable outcome t.host ≡ true)
      × (p' ≡ with_result outcome (with_files label (finished_run outcome t) p))
ended-going label t none p p' h = absurd cc
ended-going label t (some o) p p' h =
    let r : review o t.host (with_result o (with_files label (finished_run o t) p)) ≡ going p' =
      ground arith in
    let g = review-going o t.host _ p' r in (o, g.0, g.1)

-- A run that was launched went through to its review.
launch_run-going :
    (label : Text) (t : Trial) (p p' : Progress)
    → launch_run label t p ≡ going p'
    → (outcome : Outcome) × (acceptable outcome t.host ≡ true)
      × (p'
          ≡ with_result outcome (with_files label (finished_run outcome t) (launched_run label p)))
unfolding launch_run
launch_run-going label t p p' h =
    let r : ended label t t.result (launched_run label p) ≡ going p' = ground arith in
    ended-going label t t.result (launched_run label p) p' r

fresh_run-going :
    (e : Entry) (t : Trial) (p p' : Progress)
    → fresh_run e t p ≡ going p'
    → ((not (is_archive e.label) || controls_hit p.runs) ≡ true)
      × ((p.runs e.label).exists ≡ false)
      × (launch_run e.label t p ≡ going p')
unfolding fresh_run
fresh_run-going e t p p' h = (ground arith, ground arith, ground arith)

pub step-going :
    (trials : Text → Trial) (e : Entry) (p p' : Progress)
    → step trials e p ≡ going p'
    → Went (trials e.label) e p p'
unfolding step
step-going trials e p p' h = elim (Option-cases (p.runs e.label).result) [
  | inl k ↦
      let f : fresh_run e (trials e.label) p ≡ going p' = ground arith in
      let g = fresh_run-going e (trials e.label) p p' f in
      let l = launch_run-going e.label (trials e.label) p p' g.2 in launched l.0 k g.1 g.0 l.1 l.2
  | inr (o, k) ↦
      let q : previous o
            (selected_host_evidence (p.runs e.label).host (p.runs e.label).supplemental) p
          ≡ going p' =
        ground arith in
      let g = previous-going o _ p p' q in
      let good : is_good (p.runs e.label) ≡ true = ground arith in earlier o k good g.1
]

-- A write leaves the runs that differ from it in some respect.
pub write-other :
    (P : RunFiles → Bool) (label other : Text) (f : RunFiles) (runs : Runs)
    → P (runs label) ≡ false
    → P (runs other) ≡ true
    → write label f runs other ≡ runs other
unfolding write
write-other P label other f runs h k = elim (Bool-cases (text_eq other label)) [
  | inl e ↦
      let same = ap (λ l. P (runs l)) (text_eq_sound other label e) in
      let clash : true ≡ false = sym k ∙ (same ∙ h) in absurd (cc)
  | inr e ↦ ground arith
]

pub write-same : (label : Text) (f : RunFiles) (runs : Runs) → write label f runs label ≡ f
unfolding write
write-same label f runs = ground (arith, text_eq_refl label)
