-- ===== src/Investigate/Campaign/Held.antt =====
-- No run is launched twice by the loop of `campaign` of runtime/kosmickrisp/investigate.py.
use mathlib.Core.Path.{subst}
use winecx_gptk.Common.{
  ◌+◌, ◌≤◌, true, false, List, [], ◌∷◌, length, AllOf, Bool-cases, inl, inr, ◌⊎◌, ◌≡◌, refl, ap,
  sym, ◌∙◌, arith,
}
use winecx_gptk.Common.Text.{Text, text_eq, text_eq_sound}
use winecx_gptk.Investigate.Campaign.Plan.{Entry}
use winecx_gptk.Investigate.Campaign.Loop.{
  Runs, Trial, Progress, Step, going, stops, raises, step, chain, run_sequence,
}
use winecx_gptk.Investigate.Campaign.Launches.{
  left, Grows, Launches, nothing, started, step-Launches,
}

-- No two of the texts are equal.
abbrev pub Distinct : List Text → Type 0
Distinct [] = Unit {0}
Distinct (t ∷ ts) = AllOf (λ u. text_eq t u ≡ false) ts × Distinct ts

-- Every launched run has a directory, and none was launched twice.
abbrev Held : Progress → Type 0
Held p = AllOf (λ l. (p.runs l).exists ≡ true) p.launched × Distinct p.launched

AllOf-Grows :
    (runs later : Runs) (ls : List Text)
    → Grows runs later
    → AllOf (λ l. (runs l).exists ≡ true) ls
    → AllOf (λ l. (later l).exists ≡ true) ls
AllOf-Grows runs later [] g h = tt
AllOf-Grows runs later (l ∷ ls) g h = (g l h.0, AllOf-Grows runs later ls g h.1)

AllOf-new :
    (label : Text) (runs : Runs) (ls : List Text)
    → (runs label).exists ≡ false
    → AllOf (λ l. (runs l).exists ≡ true) ls
    → AllOf (λ l. text_eq label l ≡ false) ls
AllOf-new label runs [] x h = tt
AllOf-new label runs (l ∷ ls) x h = (
  elim (Bool-cases (text_eq label l)) [
    | inl e ↦
        let clash : true ≡ false =
          sym h.0 ∙ (ap (λ m. (runs m).exists) (sym (text_eq_sound label l e)) ∙ x) in
        absurd (cc)
    | inr e ↦ e
  ],
  AllOf-new label runs ls x h.1,
)

Launches-Held :
    (label : Text) (p q : Progress)
    → Launches label p q
    → (p.runs label).exists ≡ false
    → Held p
    → Held q × (length q.launched ≤ length p.launched + 1)
Launches-Held label p q (nothing e g) x h = (
  subst (λ ls. AllOf (λ l. (q.runs l).exists ≡ true) ls × Distinct ls) (sym e)
      (AllOf-Grows p.runs q.runs p.launched g h.0, h.1),
  omega (arith, ap (length {0}) e),
)
Launches-Held label p q (started e y g) x h = (
  subst (λ ls. AllOf (λ l. (q.runs l).exists ≡ true) ls × Distinct ls) (sym e)
      (
        (y, AllOf-Grows p.runs q.runs p.launched g h.0),
        (AllOf-new label p.runs p.launched x h.0, h.1),
      ),
  omega (arith, ap (length {0}) e),
)

step-Held :
    (trials : Text → Trial) (e : Entry) (p : Progress)
    → Held p
    → Held (left (step trials e p))
      × (length (left (step trials e p)).launched ≤ length p.launched + 1)
step-Held trials e p h = elim (step-Launches trials e p) [
  | inl (l, x) ↦ Launches-Held e.label p (left (step trials e p)) l x h
  | inr (l, r) ↦ (
    subst
        (λ (rs : Runs).
          AllOf (λ m. (rs m).exists ≡ true) (left (step trials e p)).launched
          × Distinct (left (step trials e p)).launched)
        (sym r) (subst (λ ls. AllOf (λ m. (p.runs m).exists ≡ true) ls × Distinct ls) (sym l) h),
    omega (arith, ap (length {0}) l),
  )
]

chain-left :
    (s : Step) (k : Progress → Step) → (left (chain s k) ≡ left s) ⊎ (chain s k ≡ k (left s))
unfolding chain
chain-left (going p) k = inr refl
chain-left (stops why p) k = inl refl
chain-left (raises e p) k = inl refl

pub run_sequence-Held :
    (trials : Text → Trial) (es : List Entry) (p : Progress)
    → Held p
    → Held (left (run_sequence trials es p))
      × (length (left (run_sequence trials es p)).launched ≤ length p.launched + length es)
unfolding run_sequence
run_sequence-Held trials [] p h = (h, omega arith)
run_sequence-Held trials (e ∷ es) p h =
    let one = step-Held trials e p h in
    elim (chain-left (step trials e p) (run_sequence trials es)) [
      | inl c ↦ (
        subst Held (sym c) one.0,
        omega (arith, one.1, ap (λ (r : Progress). length r.launched) c),
      )
      | inr c ↦
          let rest = run_sequence-Held trials es (left (step trials e p)) one.0 in
          (
            subst Held (sym (ap left c)) rest.0,
            omega (arith, one.1, rest.1, ap (λ (s : Step). length (left s).launched) c),
          )
    ]
