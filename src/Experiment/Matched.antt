-- ===== src/Experiment/Matched.antt =====
-- What two runs have in common that compare_runs of runtime/kosmickrisp/investigation_analysis.py finds
-- comparable.
use mathlib.Core.Option.{some-injective}
use winecx_gptk.Common.{
  ℕ, ◌<◌, Bool, true, false, not, ◌&&◌, ◌||◌, ◌==◌, any, is_none, none, Option, some, if◌then◌else◌,
  List, [], ◌∷◌, ◌++◌, AllOf, Bool-cases, inl, inr, ◌⊎◌, ◌≡◌, refl, ap, sym, ◌∙◌, arith,
}
use winecx_gptk.Experiment.{
  Field, driver_sha256, loader_sha256, game_sha256, dxvk_sha256, settings_sha256, steam_arguments,
  environment, cache_seed_sha256, cache_mode, archive_enabled, capture_mode, focus_policy,
  sampling_policy, interaction_mode, capture_backend, activation_backend, fields, Variable,
  no_variable, variable, unknown_variable, Reason, Verdict, filter, place, same_field, differ,
  is_truthy, is_empty, note, allowed, unchanged, observed, Run, is_missing, is_different,
  without_hits, is_incomplete, reasons_of, verdict, compare_runs,
}

is_empty-note :
    (b : Bool) (why : Reason) (rest : List Reason)
    → is_empty (note b why ++ rest) ≡ not b && is_empty rest
is_empty-note true why rest = refl
is_empty-note false why rest = refl

is_empty-note_last : (b : Bool) (why : Reason) → is_empty (note b why) ≡ not b
is_empty-note_last true why = refl
is_empty-note_last false why = refl

-- A filter that leaves nothing holds of none.
filter-AllOf :
    (p : Field → Bool) (ks : List Field)
    → is_empty (filter p ks) ≡ true
    → AllOf (λ k. p k ≡ false) ks
filter-AllOf p [] h = tt
filter-AllOf p (k ∷ ks) h = elim (Bool-cases (p k)) [
  | inl e ↦ ground arith
  | inr e ↦ (e, filter-AllOf p ks (ground arith))
]

filter-filter :
    (p q : Field → Bool) (ks : List Field)
    → is_empty (filter q (filter p ks)) ≡ true
    → AllOf (λ k. (p k ≡ false) ⊎ (q k ≡ false)) ks
filter-filter p q [] h = tt
filter-filter p q (k ∷ ks) h = elim (Bool-cases (p k)) [
  | inl e ↦ elim (Bool-cases (q k)) [
    | inl e' ↦ ground arith
    | inr e' ↦ (inr e', filter-filter p q ks (ground arith))
  ]
  | inr e ↦ (inl e, filter-filter p q ks (ground arith))
]

-- None of six reasons applies.
record Clear (missing unexpected varied left right incomplete hits : Bool) : Type 0 where
  no_missing : missing ≡ true
  no_unexpected : unexpected ≡ true
  does_vary : varied ≡ false
  has_left : left ≡ true
  has_right : right ≡ true
  no_gaps : incomplete ≡ false
  has_hits : hits ≡ false

none-Clear :
    (a b c d e f g : Bool)
    → not (not a) && (not (not b) && (not c && (not (not (d && e)) && (not f && not g)))) ≡ true
    → Clear a b c d e f g
none-Clear a b c d e f g h = record {
  no_missing = ground arith;
  no_unexpected = ground arith;
  does_vary = ground arith;
  has_left = ground arith;
  has_right = ground arith;
  no_gaps = ground arith;
  has_hits = ground arith;
}

-- The field of a place.
field_in : List Field → ℕ → Field
field_in [] n = driver_sha256
field_in (k ∷ ks) n = let rest = field_in ks n in if place k == n then k else rest

field_in-place : (k : Field) → field_in fields (place k) ≡ k
unfolding field_in
field_in-place k = elim k as (λ k. field_in fields (place k) ≡ k) [
  | driver_sha256 ↦ refl
  | loader_sha256 ↦ refl
  | game_sha256 ↦ refl
  | dxvk_sha256 ↦ refl
  | settings_sha256 ↦ refl
  | steam_arguments ↦ refl
  | environment ↦ refl
  | cache_seed_sha256 ↦ refl
  | cache_mode ↦ refl
  | archive_enabled ↦ refl
  | capture_mode ↦ refl
  | focus_policy ↦ refl
  | sampling_policy ↦ refl
  | interaction_mode ↦ refl
  | capture_backend ↦ refl
  | activation_backend ↦ refl
]

same_field_sound : (k m : Field) → same_field k m ≡ true → k ≡ m
unfolding same_field
same_field_sound k m h =
    let e : place k ≡ place m = ground arith in
    sym (field_in-place k) ∙ ap (field_in fields) e ∙ field_in-place m

-- The fields that an experiment with this variable may differ in.
abbrev MayDiffer : Variable → Field → Type 0
MayDiffer changed k =
    (changed ≡ variable k) ⊎ ((changed ≡ variable cache_mode) × (k ≡ cache_seed_sha256))

allowed-MayDiffer :
    (changed : Variable) (k : Field) → allowed changed k ≡ true → MayDiffer changed k
unfolding allowed
allowed-MayDiffer no_variable k h = ground arith
allowed-MayDiffer unknown_variable k h = ground arith
allowed-MayDiffer (variable cache_mode) k h = elim (Bool-cases (same_field k cache_mode)) [
  | inl e ↦ inl (ap variable (sym (same_field_sound k cache_mode e)))
  | inr e ↦ inr (refl, same_field_sound k cache_seed_sha256 (ground arith))
]
allowed-MayDiffer (variable v) k h = inl (ap variable (sym (same_field_sound k v h)))

any-filter :
    (p : Field → Bool) (k : Field) (ks : List Field)
    → any (same_field k) (filter p ks) ≡ true
    → p k ≡ true
any-filter p k [] h = ground arith
any-filter p k (m ∷ ks) h =
    let ih = any-filter p k ks in
    elim (Bool-cases (p m)) [
      | inl e ↦ elim (Bool-cases (same_field k m)) [
        | inl f ↦ ap p (same_field_sound k m f) ∙ e
        | inr f ↦ ih (ground arith)
      ]
      | inr e ↦ ih (ground arith)
    ]

not-false : (b : Bool) → not b ≡ false → b ≡ true
not-false true h = refl
not-false false h = ground arith

module _ {V : Type 0} (same : V → V → Bool) (truthy : V → Bool) where
  -- A field that both runs have, with the same value or one that may differ.
  abbrev Agrees : Variable → Run V → Run V → Field → Type 0
  Agrees changed l r k =
      (x : V) × ((y : V) × ((l.provenance k ≡ some x)
          × ((r.provenance k ≡ some y) × ((same x y ≡ true) ⊎ MayDiffer changed k))))

  -- The variable of the experiment has two different values.
  abbrev Varies : Variable → Run V → Run V → Type 0
  Varies (variable k) l r =
      (x : V) × ((y : V) × ((l.provenance k ≡ some x)
          × ((r.provenance k ≡ some y) × (same x y ≡ false))))
  Varies no_variable l r = Unit {0}
  Varies unknown_variable l r = Unit {0}

  -- The left run has the archive and hits in it, or it has no archive and the right has hits.
  abbrev ArchiveHits : Run V → Run V → Type 0
  ArchiveHits l r =
      (x : V) × ((l.provenance archive_enabled ≡ some x)
        × (((truthy x ≡ true) × (0 < l.native_archive_hits))
            ⊎ ((truthy x ≡ false) × (0 < r.native_archive_hits))))

  abbrev HasHits : Variable → Run V → Run V → Type 0
  HasHits (variable archive_enabled) l r = ArchiveHits l r
  HasHits _ l r = Unit {0}

  abbrev ReachedMenu : Run V → Type 0
  ReachedMenu run = (t : ℕ) × ((run.menu_observed_ns ≡ some t) × (0 < t))

  abbrev HasEvidence : Run V → Type 0
  HasEvidence run = (run.has_issues ≡ false) × (run.has_missing_logs ≡ false)

  -- Two runs that differ only in what the variable allows, with all that a comparison needs.
  pub record Matched (changed : Variable) (l r : Run V) : Type 0 where
    agree : AllOf (Agrees changed l r) fields
    varies : Varies changed l r
    left_menu : ReachedMenu l
    right_menu : ReachedMenu r
    left_evidence : HasEvidence l
    right_evidence : HasEvidence r
    hits : HasHits changed l r

  both :
      (changed : Variable) (l r : Run V) (k : Field) (a b : Option V)
      → l.provenance k ≡ a
      → r.provenance k ≡ b
      → (is_none a || is_none b) ≡ false
      → (differ same truthy a b ≡ false) ⊎ MayDiffer changed k
      → Agrees changed l r k
  both changed l r k none b p q h d = ground arith
  both changed l r k (some x) none p q h d = ground arith
  both changed l r k (some x) (some y) p q h (inl d) = (x, (y, (p, (q, inl (ground arith)))))
  both changed l r k (some x) (some y) p q h (inr d) = (x, (y, (p, (q, inr d))))

  agrees :
      (changed : Variable) (l r : Run V) (k : Field)
      → is_missing same truthy l r k ≡ false
      → (is_different same truthy l r k ≡ false) ⊎ (not (allowed changed k) ≡ false)
      → Agrees changed l r k
  agrees changed l r k h (inl d) =
      both changed l r k (l.provenance k) (r.provenance k) refl refl h (inl d)
  agrees changed l r k h (inr d) =
      both changed l r k (l.provenance k) (r.provenance k) refl refl h
        (inr (allowed-MayDiffer changed k (ground arith)))

  all_agree :
      (changed : Variable) (l r : Run V) (ks : List Field)
      → AllOf (λ k. is_missing same truthy l r k ≡ false) ks
      → AllOf (λ k. (is_different same truthy l r k ≡ false) ⊎ (not (allowed changed k) ≡ false)) ks
      → AllOf (Agrees changed l r) ks
  all_agree changed l r [] h d = tt
  all_agree changed l r (k ∷ ks) h d =
      (agrees changed l r k h.0 d.0, all_agree changed l r ks h.1 d.1)

  differ-Varies :
      (k : Field) (l r : Run V) (a b : Option V)
      → l.provenance k ≡ a
      → r.provenance k ≡ b
      → differ same truthy a b ≡ true
      → Varies (variable k) l r
  differ-Varies k l r none b p q h = ground arith
  differ-Varies k l r (some x) none p q h = ground arith
  differ-Varies k l r (some x) (some y) p q h = (x, (y, (p, (q, ground arith))))

  unchanged-Varies :
      (changed : Variable) (l r : Run V)
      → unchanged changed (filter (is_different same truthy l r) fields) ≡ false
      → Varies changed l r
  unchanged-Varies no_variable l r h = tt
  unchanged-Varies unknown_variable l r h = tt
  unchanged-Varies (variable k) l r h =
      differ-Varies k l r (l.provenance k) (r.provenance k) refl refl
        (any-filter (is_different same truthy l r) k fields (not-false _ h))

  archive-hits :
      (l r : Run V) (o : Option V)
      → l.provenance archive_enabled ≡ o
      → is_none o ≡ false
      → (if is_truthy same truthy o then l.native_archive_hits == 0 else r.native_archive_hits == 0)
        ≡ false
      → ArchiveHits l r
  archive-hits l r none p h e = ground arith
  archive-hits l r (some x) p h e = elim (Bool-cases (truthy x)) [
    | inl t ↦ (x, (p, inl (t, ground arith)))
    | inr t ↦ (x, (p, inr (t, ground arith)))
  ]

  without_hits-HasHits :
      (changed : Variable) (l r : Run V)
      → is_missing same truthy l r archive_enabled ≡ false
      → without_hits same truthy changed l r ≡ false
      → HasHits changed l r
  without_hits-HasHits (variable archive_enabled) l r m h =
      archive-hits l r (l.provenance archive_enabled) refl (ground arith) h
  without_hits-HasHits _ l r m h = tt

  observed-ReachedMenu :
      (run : Run V) (o : Option ℕ) → run.menu_observed_ns ≡ o → observed o ≡ true → ReachedMenu run
  observed-ReachedMenu run none p h = ground arith
  observed-ReachedMenu run (some t) p h = (t, (p, ground arith))

  reasons_of-empty :
      (changed : Variable) (l r : Run V) (missing differences unexpected : List Field)
      → is_empty (reasons_of same truthy changed l r missing differences unexpected)
        ≡ not (not (is_empty missing))
          && (not (not (is_empty unexpected))
              && (not (unchanged changed differences)
                  && (not (not (observed l.menu_observed_ns && observed r.menu_observed_ns))
                      && (not (is_incomplete same truthy l r)
                          && not (without_hits same truthy changed l r)))))
  unfolding reasons_of
  reasons_of-empty changed l r missing differences unexpected =
      simp (is_empty-note, is_empty-note_last)

  verdict-Matched :
      (changed : Variable) (l r : Run V)
      → (verdict same truthy changed l r).comparable ≡ true
      → Matched changed l r
  unfolding verdict
  verdict-Matched changed l r h =
      let missing = filter (is_missing same truthy l r) fields in
      let differences = filter (is_different same truthy l r) fields in
      let unexpected = filter (λ k. not (allowed changed k)) differences in
      let c =
        none-Clear (is_empty missing) (is_empty unexpected) (unchanged changed differences)
          (observed l.menu_observed_ns) (observed r.menu_observed_ns)
          (is_incomplete same truthy l r) (without_hits same truthy changed l r)
          (sym (reasons_of-empty changed l r missing differences unexpected) ∙ h) in
      let known = filter-AllOf (is_missing same truthy l r) fields c.no_missing in
      record {
        agree = all_agree changed l r fields known (
            filter-filter (is_different same truthy l r) (λ k. not (allowed changed k)) fields
              c.no_unexpected);
        varies = unchanged-Varies changed l r c.does_vary;
        left_menu = observed-ReachedMenu l l.menu_observed_ns refl c.has_left;
        right_menu = observed-ReachedMenu r r.menu_observed_ns refl c.has_right;
        left_evidence = (ground (arith, c.no_gaps), ground (arith, c.no_gaps));
        right_evidence = (ground (arith, c.no_gaps), ground (arith, c.no_gaps));
        hits = without_hits-HasHits changed l r known.1.1.1.1.1.1.1.1.1.0 c.has_hits;
      }

  -- `compare_runs` finds two runs comparable only if both have every field of their provenance,
  -- with equal values but for the variable of the experiment (and the seed of the cache, where
  -- the variable is its mode), the values of the variable differ, both runs have reached the
  -- menu, none has issues or missing logs, and, where the variable is the archive, the left run
  -- has hits in it if it has the archive, and the right run has hits in it if the left has not.
  pub compare_runs-Matched :
      (changed : Variable) (l r : Run V) (v : Verdict)
      → compare_runs same truthy changed l r ≡ some v
      → v.comparable ≡ true
      → Matched changed l r
  unfolding compare_runs
  compare_runs-Matched no_variable l r v e h =
      verdict-Matched no_variable l r
        (ap (λ (w : Verdict). w.comparable) (some-injective _ _ e) ∙ h)
  compare_runs-Matched (variable k) l r v e h =
      verdict-Matched (variable k) l r
        (ap (λ (w : Verdict). w.comparable) (some-injective _ _ e) ∙ h)
  compare_runs-Matched unknown_variable l r v e h = ground arith
