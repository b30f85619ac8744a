-- ===== src/Promotion/Agreed.antt =====
-- What a campaign has shown that campaign_blockers of runtime/kosmickrisp/promotion.py does not hold
-- against a runtime.
use winecx_gptk.Common.{
  Bool, true, false, not, ◌&&◌, Option, none, some, is_some, List, [], ◌∷◌, ◌++◌, ◌==◌, length, all,
  if◌then◌else◌, AllOf, Bool-cases, inl, inr, ◌⊎◌, ◌≡◌, refl, ap, sym, ◌∙◌, arith,
}
use winecx_gptk.Common.Text.{Text, text_eq_refl}
use winecx_gptk.Promotion.Titles.{HasCase, titles_of}
use winecx_gptk.Promotion.Medians.{KeepsUp, is_worse-KeepsUp}
use winecx_gptk.Promotion.{
  Floats, Title, Lane, Case, Validation, Campaign, Failure, check, or_else, same_text, is_cef,
  is_single, is_digest, warmups_error, lane_error, baseline_error, candidate_error, measured_error,
  case_error, is_worse, regressions, cases_failures, all_cases, baselines, several,
  campaign_blockers, cef_error, reads, names_backend, digest_file, case_failures, regression_of,
}

check-none :
    (b : Bool) (why : Failure) (next : Option Failure)
    → check b why next ≡ none
    → (b ≡ true) × (next ≡ none)
check-none true why next e = (refl, e)
check-none false why next e = ground arith

or_else-none : (first next : Option Failure) → or_else first next ≡ none → next ≡ none
or_else-none none next e = e
or_else-none (some why) next e = ground arith

same_text_refl : (t : Option Text) → same_text t t ≡ true
same_text_refl none = refl
same_text_refl (some t) = text_eq_refl t

is_single-all :
    (ds : List (Option Text))
    → is_single ds ≡ true
    → (d : Option Text) × (all (same_text d) ds ≡ true)
is_single-all [] e = ground arith
is_single-all (d ∷ ds) e = (d, let r = same_text_refl d in ground arith)

no_failures : (xs ys : List Failure) → xs ++ ys ≡ [] → (xs ≡ []) × (ys ≡ [])
no_failures [] ys e = (refl, e)
no_failures (x ∷ xs) ys e = ground arith

module _ {F : Type 0} (floats : Floats F) where
  lane_error-none :
      (l : Lane F) (next : Option Failure)
      → lane_error floats l next ≡ none
      → (length l.measured ≡ 3) × (next ≡ none)
  unfolding lane_error
  lane_error-none l next e =
      let c = check-none (length l.warmups == 2 && length l.measured == 3) _ _ e in
      (ground (arith, c.0), or_else-none (warmups_error floats l.warmups) next c.1)

  -- A case that compares the archive with the baseline `d`.
  pub record Compared (v : Validation) (d : Option Text) (c : Case F) : Type 0 where
    pub baseline_known : is_digest c.baseline.runtime_sha256 ≡ true
    pub baseline_frozen : same_text d c.baseline.runtime_sha256 ≡ true
    pub baseline_other : same_text c.baseline.runtime_sha256 v.archive_sha256 ≡ false
    pub candidate_is_archive : same_text c.candidate.runtime_sha256 v.archive_sha256 ≡ true
    pub baseline_measured : all is_some c.baseline.measured ≡ true
    pub candidate_measured : all is_some c.candidate.measured ≡ true
    pub baseline_runs : length c.baseline.measured ≡ 3
    pub candidate_runs : length c.candidate.measured ≡ 3
    pub not_worse : KeepsUp floats c

  record Measured (v : Validation) (c : Case F) : Type 0 where
    known : is_digest c.baseline.runtime_sha256 ≡ true
    other : same_text c.baseline.runtime_sha256 v.archive_sha256 ≡ false
    same : same_text c.candidate.runtime_sha256 v.archive_sha256 ≡ true
    old : all is_some c.baseline.measured ≡ true
    new : all is_some c.candidate.measured ≡ true
    old_three : length c.baseline.measured ≡ 3
    new_three : length c.candidate.measured ≡ 3

  measured_error-Measured :
      (v : Validation) (c : Case F) → measured_error floats v c ≡ none → Measured v c
  unfolding baseline_error candidate_error
  measured_error-Measured v c e =
      let b1 = check-none (is_digest c.baseline.runtime_sha256) _ _ e in
      let b2 = check-none (not (same_text c.baseline.runtime_sha256 v.archive_sha256)) _ _ b1.1 in
      let b3 = lane_error-none c.baseline _ b2.1 in
      let b4 = check-none (all is_some c.baseline.measured) _ _ b3.1 in
      let c1 = check-none (is_digest c.candidate.runtime_sha256) _ _ b4.1 in
      let c2 = lane_error-none c.candidate _ c1.1 in
      let c3 = check-none (same_text c.candidate.runtime_sha256 v.archive_sha256) _ _ c2.1 in
      let c4 = check-none (all is_some c.candidate.measured) _ _ c3.1 in
      record {
        known = b1.0;
        other = ground arith;
        same = c3.0;
        old = b4.0;
        new = c4.0;
        old_three = b3.0;
        new_three = c2.0;
      }

  case_error-none :
      (v : Validation) (c : Case F)
      → is_cef c.id ≡ false
      → case_error floats v c ≡ none
      → Measured v c
  unfolding case_error
  case_error-none v c k e =
      let e1 = check-none c.fixed_display _ _ e in
      let e2 =
        check-none (reads c.settings && (reads c.scene && (reads c.harness && reads c.game_build)))
          _ _ e1.1 in
      let e3 = check-none c.gameplay_confirmed _ _ e2.1 in
      let e4 = check-none (reads c.visual_evidence) _ _ e3.1 in
      let e5 = check-none (reads c.candidate_backend_log) _ _ e4.1 in
      let e6 = check-none (names_backend c.id (digest_file c.candidate_backend_log)) _ _ e5.1 in
      let e7 : measured_error floats v c ≡ none =
        ap (λ b. if b then cef_error floats c else measured_error floats v c) (sym k) ∙ e6.1 in
      measured_error-Measured v c e7

  -- A case that adds nothing to the failures.
  record Quiet (v : Validation) (c : Case F) : Type 0 where
    no_error : case_error floats v c ≡ none
    no_regression : regressions floats c ≡ []

  case_failures-Quiet :
      (v : Validation) (c : Case F) (o : Option Failure) (rest : List Failure)
      → case_error floats v c ≡ o
      → case_failures floats c o rest ≡ []
      → Quiet v c × (rest ≡ [])
  case_failures-Quiet v c none rest h e =
      let n = no_failures (regressions floats c) rest e in
      (record { no_error = h; no_regression = n.0 }, n.1)
  case_failures-Quiet v c (some why) rest h e = ground arith

  cases_failures-Quiet :
      (v : Validation) (cs : List (Case F)) (last : List Failure)
      → cases_failures floats v cs last ≡ []
      → AllOf (Quiet v) cs × (last ≡ [])
  unfolding cases_failures
  cases_failures-Quiet v [] last e = (tt, e)
  cases_failures-Quiet v (c ∷ cs) last e =
      let q =
        case_failures-Quiet v c (case_error floats v c) (cases_failures floats v cs last) refl e in
      let ih = cases_failures-Quiet v cs last q.1 in ((q.0, ih.0), ih.1)

  regression_of-nil :
      (o : Option Title) (b : Bool)
      → is_some o ≡ true
      → is_cef o ≡ false
      → regression_of floats o b ≡ []
      → b ≡ false
  regression_of-nil o false i k e = refl
  regression_of-nil none true i k e = ground arith
  regression_of-nil (some t) true i k e = ground arith

  quiet_not_worse :
      (v : Validation) (c : Case F)
      → Quiet v c
      → is_some c.id ≡ true
      → is_cef c.id ≡ false
      → is_worse floats c ≡ false
  quiet_not_worse v c q i k = regression_of-nil c.id (is_worse floats c) i k (
      ap (λ b. if b then [] else regression_of floats c.id (is_worse floats c)) (sym k)
      ∙ q.no_regression)

  quiet-Compared :
      (v : Validation) (d : Option Text) (cs : List (Case F))
      → AllOf (Quiet v) cs
      → all (λ c. is_some c.id) cs ≡ true
      → all (same_text d) (baselines floats cs) ≡ true
      → AllOf (λ c. (is_cef c.id ≡ true) ⊎ Compared v d c) cs
  quiet-Compared v d [] q i s = tt
  quiet-Compared v d (c ∷ cs) q i s = elim (Bool-cases (is_cef c.id)) [
    | inl k ↦ (inl k, quiet-Compared v d cs q.1 (ground arith) (ground arith))
    | inr k ↦
        let m = case_error-none v c k q.0.no_error in
        let w = quiet_not_worse v c q.0 (ground arith) k in
        (
          inr (record {
            baseline_known = m.known;
            baseline_frozen = ground arith;
            baseline_other = m.other;
            candidate_is_archive = m.same;
            baseline_measured = m.old;
            candidate_measured = m.new;
            baseline_runs = m.old_three;
            candidate_runs = m.new_three;
            not_worse = is_worse-KeepsUp floats c m.old_three m.new_three m.old m.new w;
          }),
          quiet-Compared v d cs q.1 (ground arith) (ground arith),
        )
  ]

  -- What a campaign without blockers has: the manifest and the cases, and one baseline digest.
  pub record Approved (c : Campaign F) (v : Validation) : Type 0 where
    pub same_manifest : same_text c.manifest_sha256 v.manifest_sha256 ≡ true
    pub same_os : same_text c.os v.os ≡ true
    pub five_cases : length c.cases ≡ 5
    pub each_title : (t : Title) → HasCase floats t c.cases
    pub frozen : Option Text
    pub compared : AllOf (λ k. (is_cef k.id ≡ true) ⊎ Compared v frozen k) c.cases

  ids_of : (cs : List (Case F)) → all_cases floats cs ≡ true → all (λ c. is_some c.id) cs ≡ true
  ids_of cs e = ground arith

  record Passed (c : Campaign F) (v : Validation) : Type 0 where
    manifest : same_text c.manifest_sha256 v.manifest_sha256 ≡ true
    os : same_text c.os v.os ≡ true
    cases : all_cases floats c.cases ≡ true
    rest : cases_failures floats v c.cases (several floats c.cases) ≡ []

  campaign_blockers-Passed :
      (c : Campaign F) (v : Validation) → campaign_blockers floats c v ≡ [] → Passed c v
  unfolding campaign_blockers
  campaign_blockers-Passed c v e = elim (Bool-cases (all_cases floats c.cases)) [
    | inr a ↦ ground arith
    | inl a ↦ record { manifest = ground arith; os = ground arith; cases = a; rest = ground arith }
  ]

  several-single :
      (cs : List (Case F)) → several floats cs ≡ [] → is_single (baselines floats cs) ≡ true
  several-single cs e = ground arith

  pub campaign_blockers-Approved :
      (c : Campaign F) (v : Validation) → campaign_blockers floats c v ≡ [] → Approved c v
  campaign_blockers-Approved c v e =
      let p = campaign_blockers-Passed c v e in
      let q = cases_failures-Quiet v c.cases (several floats c.cases) p.rest in
      let s = is_single-all (baselines floats c.cases) (several-single c.cases q.1) in
      let ids : all (λ k. is_some k.id) c.cases ≡ true = ids_of c.cases p.cases in
      record {
        same_manifest = p.manifest;
        same_os = p.os;
        five_cases = ground (arith, p.cases);
        each_title = titles_of floats c.cases p.cases;
        frozen = s.0;
        compared = quiet-Compared v s.0 c.cases q.0 ids s.1;
      }
