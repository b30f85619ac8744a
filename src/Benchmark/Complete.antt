-- ===== src/Benchmark/Complete.antt =====
-- What a report of `analyze` of runtime/kosmickrisp/benchmark.py has behind it that lists no invalid run
-- and no incomplete job.
use winecx_gptk.Common.{
  ℕ, ◌+◌, Bool, true, false, Option, none, some, List, [], ◌∷◌, ◌++◌, length, AllOf, Bool-cases,
  inl, inr, ◌≡◌, ◌≢◌, refl, ap, sym, ◌∙◌, arith,
}
use winecx_gptk.Benchmark.Jobs.{Job}
use winecx_gptk.Benchmark.Analysis.{
  Label, cold, warm, warm2, Summary, Hashes, reasons_of, Seen, has_seen, mark, unseen, all_seen,
  same_label, bad_label, bad_run, judged, incomplete, Reason, Tally, Scan, scan, scan_run,
  close_job, tally_jobs, analyze,
}
use winecx_gptk.Benchmark.Reasons.{Sound, reasons_of-Sound}

abbrev one_if : Bool → ℕ
one_if true = 1
one_if false = 0

abbrev has_label : Label → Option Label → Bool
has_label l none = false
has_label l (some m) = same_label l m

mark-has_seen :
    (l m : Label) (seen : Seen)
    → has_seen m seen ≡ false
    → one_if (same_label l m) + one_if (has_seen l seen) ≡ one_if (has_seen l (mark m seen))
mark-has_seen cold cold seen e = ground arith
mark-has_seen cold warm seen e = ground arith
mark-has_seen cold warm2 seen e = ground arith
mark-has_seen warm cold seen e = ground arith
mark-has_seen warm warm seen e = ground arith
mark-has_seen warm warm2 seen e = ground arith
mark-has_seen warm2 cold seen e = ground arith
mark-has_seen warm2 warm seen e = ground arith
mark-has_seen warm2 warm2 seen e = ground arith

all_seen-once :
    (l : Label) (n : ℕ) (after : Seen)
    → n + one_if (has_seen l unseen) ≡ one_if (has_seen l after)
    → all_seen after ≡ true
    → n ≡ 1
all_seen-once cold n after e k = ground arith
all_seen-once warm n after e k = ground arith
all_seen-once warm2 n after e k = ground arith

-- `xs + [x]` is not empty.
snoc-ne-nil {ℓ} : {A : Type ℓ} (xs : List A) (x : A) → xs ++ (x ∷ []) ≢ []
snoc-ne-nil [] x = λ e. ground arith
snoc-ne-nil (y ∷ xs) x = λ e. ground arith

abbrev count_seen : Seen → ℕ
count_seen seen = one_if seen.cold + (one_if seen.warm + one_if seen.warm2)

count_seen-mark :
    (m : Label) (seen : Seen)
    → has_seen m seen ≡ false
    → 1 + count_seen seen ≡ count_seen (mark m seen)
count_seen-mark cold seen e = ground arith
count_seen-mark warm seen e = ground arith
count_seen-mark warm2 seen e = ground arith

module _ {F : Type 0} where
  -- How many runs have this label.
  abbrev pub labelled : Label → List (Summary F) → ℕ
  labelled l [] = 0
  labelled l (s ∷ ss) = one_if (has_label l s.label) + labelled l ss

  -- Three runs, one for each cache state, and nothing to hold against any of them.
  pub record Sequence (h : Hashes) (j : Job × List (Summary F)) : Type 0 where
    pub size : length j.1 ≡ 3
    pub once : (l : Label) → labelled l j.1 ≡ 1
    pub sound : AllOf (Sound h j.0.settings) j.1

  all-Sound :
      (h : Hashes) (job : Job) (ss : List (Summary F))
      → AllOf (λ s. reasons_of h job.settings s ≡ []) ss
      → AllOf (Sound h job.settings) ss
  all-Sound h job [] e = tt
  all-Sound h job (s ∷ ss) e = (reasons_of-Sound h job.settings s e.0, all-Sound h job ss e.1)

  judged_sound :
      (job : Job) (l : Label) (f : F) (rs : List Reason) (t : Tally F)
      → (judged job l f rs t).invalid ≡ []
      → rs ≡ []
  judged_sound job l f [] t e = refl
  judged_sound job l f (r ∷ rs) t e = absurd (snoc-ne-nil t.invalid (bad_run (r ∷ rs)) e)

  module _ (h : Hashes) where
    scan_run-invalid :
        (job : Job) (s : Summary F) (l : Option Label) (sc : Scan F)
        → (scan_run h job s l sc).tally.invalid ≡ []
        → sc.tally.invalid ≡ []
    scan_run-invalid job s none sc e = ground arith
    scan_run-invalid job s (some l) sc e = elim (Bool-cases (has_seen l sc.seen)) [
      | inl b ↦ ground arith
      | inr b ↦ ground arith
    ]

    scan-invalid :
        (job : Job) (ss : List (Summary F)) (sc : Scan F)
        → (scan h job ss sc).tally.invalid ≡ []
        → sc.tally.invalid ≡ []
    unfolding scan
    scan-invalid job [] sc e = e
    scan-invalid job (s ∷ ss) sc e =
        scan_run-invalid job s s.label sc (scan-invalid job ss (scan_run h job s s.label sc) e)

    -- A run that is not listed as invalid has a new label and nothing against it.
    record Taken (job : Job) (s : Summary F) (l : Option Label) (sc : Scan F) : Type 0 where
      new : Label
      is_new : l ≡ some new
      fresh : has_seen new sc.seen ≡ false
      marked : (scan_run h job s l sc).seen ≡ mark new sc.seen
      sound : reasons_of h job.settings s ≡ []

    scan_run-Taken :
        (job : Job) (s : Summary F) (l : Option Label) (sc : Scan F)
        → (scan_run h job s l sc).tally.invalid ≡ []
        → Taken job s l sc
    scan_run-Taken job s none sc e = absurd (snoc-ne-nil sc.tally.invalid bad_label e)
    scan_run-Taken job s (some l) sc e = elim (Bool-cases (has_seen l sc.seen)) [
      | inl b ↦
          let e' : sc.tally.invalid ++ (bad_label ∷ []) ≡ [] = ground arith in
          absurd (snoc-ne-nil sc.tally.invalid bad_label e')
      | inr b ↦
          let rs = reasons_of h job.settings s in
          let e' : (judged job l s.frames rs sc.tally).invalid ≡ [] = ground arith in
          record {
            new = l;
            is_new = refl;
            fresh = b;
            marked = ground arith;
            sound = judged_sound job l s.frames rs sc.tally e';
          }
    ]

    scan_run-has_seen :
        (job : Job) (s : Summary F) (sc : Scan F) (t : Taken job s s.label sc) (l : Label)
        → one_if (has_label l s.label) + one_if (has_seen l sc.seen)
          ≡ one_if (has_seen l (scan_run h job s s.label sc).seen)
    scan_run-has_seen job s sc t l =
        ap (λ o. one_if (has_label l o) + one_if (has_seen l sc.seen)) t.is_new
        ∙ mark-has_seen l t.new sc.seen t.fresh
        ∙ ap (λ z. one_if (has_seen l z)) (sym t.marked)

    scan_run-count :
        (job : Job) (s : Summary F) (sc : Scan F)
        → Taken job s s.label sc
        → 1 + count_seen sc.seen ≡ count_seen (scan_run h job s s.label sc).seen
    scan_run-count job s sc t = count_seen-mark t.new sc.seen t.fresh ∙ ap count_seen (sym t.marked)

    -- The runs of a job none of which is invalid, and what the loop has seen before and after them.
    record Clean (job : Job) (ss : List (Summary F)) (before after : Seen) : Type 0 where
      each : (l : Label) → labelled l ss + one_if (has_seen l before) ≡ one_if (has_seen l after)
      number : length ss + count_seen before ≡ count_seen after
      good : AllOf (λ s. reasons_of h job.settings s ≡ []) ss

    scan-Clean :
        (job : Job) (ss : List (Summary F)) (sc : Scan F)
        → (scan h job ss sc).tally.invalid ≡ []
        → Clean job ss sc.seen (scan h job ss sc).seen
    unfolding scan
    scan-Clean job [] sc e = record { each = λ l. omega arith; number = omega arith; good = tt }
    scan-Clean job (s ∷ ss) sc e =
        let next = scan_run h job s s.label sc in
        let t = scan_run-Taken job s s.label sc (scan-invalid job ss next e) in
        let ih = scan-Clean job ss next e in
        record {
          each = λ l. omega (arith, ih.each l, scan_run-has_seen job s sc t l);
          number = omega (arith, ih.number, scan_run-count job s sc t);
          good = (t.sound, ih.good);
        }

    close_job-invalid :
        (job : Job) (sc : Scan F)
        → (close_job job sc).invalid ≡ []
        → (sc.tally.invalid ≡ []) × (all_seen sc.seen ≡ true)
    close_job-invalid job sc e = elim (Bool-cases (all_seen sc.seen)) [
      | inl b ↦ ground arith
      | inr b ↦
          let e' : sc.tally.invalid ++ (incomplete job ∷ []) ≡ [] = ground arith in
          absurd (snoc-ne-nil sc.tally.invalid (incomplete job) e')
    ]

    scan-Sequence :
        (j : Job × List (Summary F)) (after : Seen)
        → Clean j.0 j.1 unseen after
        → all_seen after ≡ true
        → Sequence h j
    scan-Sequence j after c e = record {
      size = let n = c.number in ground arith;
      once = λ l. all_seen-once l (labelled l j.1) after (c.each l) e;
      sound = all-Sound h j.0 j.1 c.good;
    }

    tally_jobs-invalid :
        (js : List (Job × List (Summary F))) (t : Tally F)
        → (tally_jobs h js t).invalid ≡ []
        → (t.invalid ≡ []) × AllOf (Sequence h) js
    unfolding tally_jobs
    tally_jobs-invalid [] t e = (e, tt)
    tally_jobs-invalid (j ∷ js) t e =
        let begun : Scan F = record { seen = unseen; tally = t } in
        let ended = scan h j.0 j.1 begun in
        let ih = tally_jobs-invalid js (close_job j.0 ended) e in
        let closed = close_job-invalid j.0 ended ih.0 in
        (
          scan-invalid j.0 j.1 begun closed.0,
          (scan-Sequence j ended.seen (scan-Clean j.0 j.1 begun closed.0) closed.1, ih.1),
        )

  -- A report is complete only if every job of the plan has exactly three runs, one for each of
  -- cold, warm and warm2, and each has its frames and its backend, no errors or rejections, every
  -- requested setting in effect, the pipeline library where it is not switched off, the driver and
  -- the scene of the plan, and no natural exit with an error.
  pub analyze-complete :
      (h : Hashes) (repetitions : ℕ) (jobs : List (Job × List (Summary F)))
      → (analyze h repetitions jobs).complete ≡ true
      → AllOf (Sequence h) jobs
  unfolding analyze
  analyze-complete h repetitions jobs e =
      (tally_jobs-invalid h jobs (record { groups = []; invalid = [] }) (ground arith)).1
