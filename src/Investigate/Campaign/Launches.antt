-- ===== src/Investigate/Campaign/Launches.antt =====
-- Which runs the loop of `campaign` of runtime/kosmickrisp/investigate.py launches.
use mathlib.Core.Path.{subst}
use winecx_gptk.Common.{
  true, false, not, ◌&&◌, Option, none, some, List, ◌∷◌, Bool-cases, Option-cases, inl, inr, ◌⊎◌,
  ◌≡◌, refl, ap, sym, ◌∙◌, arith,
}
use winecx_gptk.Common.Text.{Text, text_eq_refl}
use winecx_gptk.Investigate.Guard.Seen.{Outcome}
use winecx_gptk.Investigate.Campaign.Evidence.{HostRecord, selected_host_evidence}
use winecx_gptk.Investigate.Campaign.Plan.{Entry}
use winecx_gptk.Investigate.Campaign.Loop.{
  RunFiles, Runs, write, Trial, Preparation, prepared, fails_early, fails_late, Progress, Step,
  going, stops, raises, step, previous, fresh_run, launch_run, review, with_result, with_files,
  ended, reviewed_run, finished_run, launched_run, empty_run, after_preparation, after_steam,
  is_archive, controls_hit,
}

abbrev pub left : Step → Progress
left (going p) = p
left (stops why p) = p
left (raises e p) = p

abbrev pub Grows : Runs → Runs → Type 0
Grows runs later = (l : Text) → (runs l).exists ≡ true → (later l).exists ≡ true

-- A step launches nothing, or the run of its entry, which had no directory before.
pub data Launches (label : Text) (p q : Progress) : Type 0 where
  nothing : q.launched ≡ p.launched → Grows p.runs q.runs → Launches label p q
  started :
      q.launched ≡ label ∷ p.launched
      → (q.runs label).exists ≡ true
      → Grows p.runs q.runs
      → Launches label p q

write-exists :
    (label : Text) (f : RunFiles) (runs : Runs) → f.exists ≡ true → Grows runs (write label f runs)
unfolding write
write-exists label f runs h l k = ground arith

write-label :
    (label : Text) (f : RunFiles) (runs : Runs)
    → f.exists ≡ true
    → (write label f runs label).exists ≡ true
unfolding write
write-label label f runs h = ground (arith, text_eq_refl label)

review-left : (o : Outcome) (h : HostRecord) (p : Progress) → left (review o h p) ≡ p
unfolding review
review-left o h p = ground arith

started-with :
    (label : Text) (f : RunFiles) (p q : Progress)
    → f.exists ≡ true
    → q ≡ with_files label f (launched_run label p)
    → Launches label p q
started-with label f p q h e = subst (Launches label p) (sym e) (
    started refl (write-label label f (launched_run label p).runs h) (λ l k.
      write-exists label f (launched_run label p).runs h l
        (write-exists label empty_run p.runs refl l k)))

-- Only the results differ.
Launches-results :
    (label : Text) (p q : Progress) (rs : List Outcome)
    → Launches label p q
    → Launches label p (record q { results = rs })
Launches-results label p q rs (nothing e g) = nothing e g
Launches-results label p q rs (started e x g) = started e x g

reviewed_run-Launches :
    (label : Text) (t : Trial) (o : Outcome) (x : Option Text) (p : Progress)
    → Launches label p (left (reviewed_run label t o x (launched_run label p)))
reviewed_run-Launches label t o (some e) p =
    started-with label (record empty_run { result = some o }) p _ refl refl
reviewed_run-Launches label t o none p =
    subst (Launches label p)
      (sym (
        review-left o t.host
          (with_result o (with_files label (finished_run o t) (launched_run label p)))))
      (Launches-results label p (with_files label (finished_run o t) (launched_run label p)) _
        (started-with label (finished_run o t) p _ refl refl))

ended-Launches :
    (label : Text) (t : Trial) (r : Option Outcome) (p : Progress)
    → Launches label p (left (ended label t r (launched_run label p)))
ended-Launches label t none p =
    started refl (write-label label empty_run p.runs refl)
      (write-exists label empty_run p.runs refl)
ended-Launches label t (some o) p = reviewed_run-Launches label t o t.review_error p

after_preparation-Launches :
    (label : Text) (t : Trial) (x : Preparation) (p : Progress)
    → Launches label p (left (after_preparation label t x p))
after_preparation-Launches label t prepared p = ended-Launches label t t.result p
after_preparation-Launches label t (fails_early e) p = nothing refl (λ l k. k)
after_preparation-Launches label t (fails_late e) p =
    nothing refl (write-exists label empty_run p.runs refl)

launch_run-Launches :
    (label : Text) (t : Trial) (x : Option Text) (p : Progress)
    → Launches label p (left (after_steam label t x p))
launch_run-Launches label t (some e) p = nothing refl (λ l k. k)
launch_run-Launches label t none p = after_preparation-Launches label t t.preparation p

idle :
    (label : Text) (p q : Progress) → q.launched ≡ p.launched → q.runs ≡ p.runs → Launches label p q
idle label p q e r = nothing e (λ l k. ap (λ (runs : Runs). (runs l).exists) r ∙ k)

fresh_run-Launches :
    (e : Entry) (t : Trial) (p : Progress)
    → ((left (fresh_run e t p)) ≡ p)
      ⊎ (((p.runs e.label).exists ≡ false) × (fresh_run e t p ≡ launch_run e.label t p))
unfolding fresh_run
fresh_run-Launches e t p = elim (Bool-cases (is_archive e.label && not (controls_hit p.runs))) [
  | inl k ↦ inl (ground arith)
  | inr k ↦ elim (Bool-cases (p.runs e.label).exists) [
    | inl x ↦ inl (ground arith)
    | inr x ↦ inr (x, ground arith)
  ]
]

previous-left :
    (o : Outcome) (h : HostRecord) (p : Progress) → left (previous o h p) ≡ with_result o p
unfolding previous
previous-left o h p = ground arith

-- What a step launches was not there before.
pub step-Launches :
    (trials : Text → Trial) (e : Entry) (p : Progress)
    → (Launches e.label p (left (step trials e p)) × ((p.runs e.label).exists ≡ false))
      ⊎ ((left (step trials e p)).launched ≡ p.launched) × ((left (step trials e p)).runs ≡ p.runs)
unfolding step launch_run
step-Launches trials e p = elim (Option-cases (p.runs e.label).result) [
  | inl k ↦
      let s : step trials e p ≡ fresh_run e (trials e.label) p = ground arith in
      elim (fresh_run-Launches e (trials e.label) p) [
        | inl q ↦
            let same = ap left s ∙ q in
            inr (ap (λ (r : Progress). r.launched) same, ap (λ (r : Progress). r.runs) same)
        | inr (x, q) ↦ inl (
          subst (Launches e.label p) (sym (ap left (s ∙ q)))
              (launch_run-Launches e.label (trials e.label) (trials e.label).steam_error p),
          x,
        )
      ]
  | inr (o, k) ↦
      let h = selected_host_evidence (p.runs e.label).host (p.runs e.label).supplemental in
      let s : step trials e p ≡ previous o h p = ground arith in
      let same = ap left s ∙ previous-left o h p in
      inr (ap (λ (r : Progress). r.launched) same, ap (λ (r : Progress). r.runs) same)
]
