-- ===== src/Experiment.antt =====
-- compare_runs of runtime/kosmickrisp/investigation_analysis.py: whether two runs differ in nothing but
-- the variable of an experiment. The type of a field's values is given, with Python's `==` and
-- truth on it; a value that is `None` counts as missing.
mod Matched
mod Tests
use winecx_gptk.Common.{
  ℕ, Bool, true, false, not, ◌&&◌, ◌||◌, Option, none, some, is_none, List, [], ◌∷◌, ◌++◌, ◌==◌,
  ltb, any, if◌then◌else◌,
}

pub data Field : Type 0 where
  driver_sha256 loader_sha256 game_sha256 dxvk_sha256 : Field
  settings_sha256 steam_arguments environment cache_seed_sha256 : Field
  cache_mode archive_enabled capture_mode focus_policy : Field
  sampling_policy interaction_mode capture_backend activation_backend : Field

-- PROVENANCE_FIELDS
abbrev pub fields : List Field
fields =
    driver_sha256 ∷ loader_sha256 ∷ game_sha256 ∷ dxvk_sha256 ∷ settings_sha256 ∷ steam_arguments
    ∷ environment ∷ cache_seed_sha256 ∷ cache_mode ∷ archive_enabled ∷ capture_mode ∷ focus_policy
    ∷ sampling_policy ∷ interaction_mode ∷ capture_backend ∷ activation_backend ∷ []

abbrev place : Field → ℕ
place k = elim k [
  | driver_sha256 ↦ 0
  | loader_sha256 ↦ 1
  | game_sha256 ↦ 2
  | dxvk_sha256 ↦ 3
  | settings_sha256 ↦ 4
  | steam_arguments ↦ 5
  | environment ↦ 6
  | cache_seed_sha256 ↦ 7
  | cache_mode ↦ 8
  | archive_enabled ↦ 9
  | capture_mode ↦ 10
  | focus_policy ↦ 11
  | sampling_policy ↦ 12
  | interaction_mode ↦ 13
  | capture_backend ↦ 14
  | activation_backend ↦ 15
]

unfoldable pub same_field : Field → Field → Bool
same_field k m = place k == place m

-- The variable of the experiment.
pub data Variable : Type 0 where
  no_variable : Variable
  variable : Field → Variable
  unknown_variable : Variable

pub data Reason : Type 0 where
  missing_provenance uncontrolled_differences variable_unchanged_or_unknown : Reason
  menu_progress_unverified incomplete_evidence no_archive_hits : Reason

pub record Verdict : Type 0 where
  pub comparable : Bool
  pub reasons : List Reason
  pub missing_fields : List Field
  pub differences : List Field
  pub unexpected_differences : List Field

abbrev pub filter : (Field → Bool) → List Field → List Field
filter p [] = []
filter p (k ∷ ks) = let rest = filter p ks in if p k then k ∷ rest else rest

abbrev pub is_empty {ℓ} : {A : Type ℓ} → List A → Bool
is_empty [] = true
is_empty (_ ∷ _) = false

abbrev pub note : Bool → Reason → List Reason
note true r = r ∷ []
note false r = []

-- The fields that may differ.
unfoldable pub allowed : Variable → Field → Bool
unfolding same_field
allowed (variable cache_mode) k = same_field k cache_mode || same_field k cache_seed_sha256
allowed (variable v) k = same_field k v
allowed no_variable k = false
allowed unknown_variable k = false

abbrev pub unchanged : Variable → List Field → Bool
unchanged (variable v) differences = not (any (same_field v) differences)
unchanged _ differences = false

-- A time that is there and not zero.
abbrev pub observed : Option ℕ → Bool
observed none = false
observed (some n) = ltb 0 n

-- What `analyze_run` says of a run.
pub record Run (V : Type 0) : Type 0 where
  pub provenance : Field → Option V
  pub menu_observed_ns : Option ℕ
  pub has_issues : Bool
  pub has_missing_logs : Bool
  pub native_archive_hits : ℕ

module _ {V : Type 0} (same : V → V → Bool) (truthy : V → Bool) where
  abbrev pub is_missing : Run V → Run V → Field → Bool
  is_missing l r k = is_none (l.provenance k) || is_none (r.provenance k)

  abbrev differ : Option V → Option V → Bool
  differ (some x) (some y) = not (same x y)
  differ _ _ = false

  abbrev pub is_different : Run V → Run V → Field → Bool
  is_different l r k = differ (l.provenance k) (r.provenance k)

  abbrev is_truthy : Option V → Bool
  is_truthy none = false
  is_truthy (some v) = truthy v

  -- The run with the archive, in an experiment with it, has no hits in it.
  abbrev pub without_hits : Variable → Run V → Run V → Bool
  without_hits (variable archive_enabled) l r =
      if is_truthy (l.provenance archive_enabled)
      then l.native_archive_hits == 0
      else r.native_archive_hits == 0
  without_hits _ l r = false

  abbrev pub is_incomplete : Run V → Run V → Bool
  is_incomplete l r = l.has_issues || (r.has_issues || (l.has_missing_logs || r.has_missing_logs))

  unfoldable pub reasons_of :
      Variable → Run V → Run V → List Field → List Field → List Field → List Reason
  reasons_of changed l r missing differences unexpected =
      note (not (is_empty missing)) missing_provenance
      ++ (note (not (is_empty unexpected)) uncontrolled_differences
          ++ (note (unchanged changed differences) variable_unchanged_or_unknown
              ++ (note (not (observed l.menu_observed_ns && observed r.menu_observed_ns))
                    menu_progress_unverified
                  ++ (note (is_incomplete l r) incomplete_evidence
                      ++ note (without_hits changed l r) no_archive_hits))))

  unfoldable pub verdict : Variable → Run V → Run V → Verdict
  unfolding reasons_of allowed
  verdict changed l r =
      let missing = filter (is_missing l r) fields in
      let differences = filter (is_different l r) fields in
      let unexpected = filter (λ k. not (allowed changed k)) differences in
      let reasons = reasons_of changed l r missing differences unexpected in
      record {
        comparable = is_empty reasons;
        reasons = reasons;
        missing_fields = missing;
        differences = differences;
        unexpected_differences = unexpected;
      }

  -- `none`: an unknown variable raises.
  unfoldable pub compare_runs : Variable → Run V → Run V → Option Verdict
  unfolding verdict
  compare_runs unknown_variable l r = none
  compare_runs no_variable l r = some (verdict no_variable l r)
  compare_runs (variable v) l r = some (verdict (variable v) l r)
