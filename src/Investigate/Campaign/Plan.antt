-- ===== src/Investigate/Campaign/Plan.antt =====
-- campaign_sequence and validate_plan of runtime/kosmickrisp/investigate.py, and the limit on the runs
-- that `main` sets. What the plan's paths hold is given: whether they exist, and their digests.
use winecx_gptk.Common.{
  take, ℕ, Bool, true, false, not, ◌&&◌, ◌||◌, Option, none, some, List, [], ◌∷◌, ◌==◌, leb,
  if◌then◌else◌,
}
use winecx_gptk.Common.Int.{ℤ, pos, negsuc}
use winecx_gptk.Common.Text.{Text, codes, text_eq}

-- Where the cache of a run comes from.
pub data Seed : Type 0 where
  fresh snapshot baseline_cache : Seed

pub record Entry : Type 0 where
  pub label : Text
  pub seed : Seed
  pub archive : Bool

abbrev pub entry : Text → Seed → Bool → Entry
entry label seed archive = record { label = label; seed = seed; archive = archive }

abbrev pub comparisons : List Entry
comparisons =
    entry (codes "cold-1") fresh true
    ∷ entry (codes "warm-control-1") snapshot true
    ∷ entry (codes "warm-control-2") snapshot true
    ∷ entry (codes "cold-2") fresh true
    ∷ entry (codes "archive-on-1") snapshot true
    ∷ entry (codes "archive-off-1") snapshot false
    ∷ entry (codes "archive-off-2") snapshot false
    ∷ entry (codes "archive-on-2") snapshot true
    ∷ []

pub data PlanError : Type 0 where
  missing : Text → PlanError
  unapproved_limits supervised_conditions_not_enabled : PlanError
  invalid_focus_policy invalid_sampling_policy invalid_interaction_mode : PlanError
  invalid_campaign_phase driver_hash_mismatch : PlanError
  dxvk_hash_mismatch : Text → PlanError

pub data Checked {ℓ} (A : Type ℓ) : Type ℓ where
  good : A → Checked A
  bad : PlanError → Checked A

unfoldable pub campaign_sequence : (phase : Text) → Checked (List Entry)
campaign_sequence phase =
    if text_eq phase (codes "comparisons")
    then good comparisons
    else if text_eq phase (codes "full")
    then good (
        entry (codes "baseline") snapshot true
        ∷ entry (codes "warm-repeat") baseline_cache true
        ∷ comparisons)
    else bad invalid_campaign_phase

-- A path of the plan, and whether it exists.
pub record Required : Type 0 where
  pub key : Text
  pub exists : Bool

-- A file with the digest that the plan gives, and the one that it has.
pub record Pinned : Type 0 where
  pub name : Text
  pub planned : Text
  pub found : Text

pub record CampaignPlan : Type 0 where
  pub required : List Required
  pub startup_seconds : Option ℤ
  pub max_runs : Option ℤ
  pub windowed : Option Bool
  pub steam_gpu : Option Bool
  pub focus_policy : Option Text
  pub sampling_policy : Option Text
  pub interaction_mode : Option Text
  pub phase : Option Text
  pub driver : Pinned
  pub dxvk : List Pinned

abbrev pub or_default {ℓ} : {A : Type ℓ} → A → Option A → A
or_default d none = d
or_default d (some a) = a

abbrev pub same_pin : Pinned → Bool
same_pin p = text_eq p.found p.planned

-- The first path that does not exist.
unfoldable pub missing_path : List Required → Option Text
missing_path [] = none
missing_path (r ∷ rs) = let rest = missing_path rs in if r.exists then rest else some r.key

unfoldable pub changed_dll : List Pinned → Option Text
changed_dll [] = none
changed_dll (p ∷ ps) = let rest = changed_dll ps in if same_pin p then rest else some p.name

abbrev is_600 : ℤ → Bool
is_600 (pos n) = n == 600
is_600 (negsuc n) = false

-- `1 <= n <= 12`
abbrev pub from_1_to_12 : ℤ → Bool
from_1_to_12 (pos n) = leb 1 n && leb n 12
from_1_to_12 (negsuc n) = false

abbrev among : Text → Text → Text → Bool
among t a b = text_eq t a || text_eq t b

abbrev check_dlls : CampaignPlan → Option PlanError
check_dlls p = elim (changed_dll p.dxvk) [
  | none ↦ none
  | some name ↦ some (dxvk_hash_mismatch name)
]

abbrev pub check_values : CampaignPlan → Option PlanError
check_values p =
    if not (is_600 (or_default (pos 600) p.startup_seconds))
      || not (from_1_to_12 (or_default (pos 12) p.max_runs))
    then some unapproved_limits
    else if not (or_default true p.windowed) || or_default false p.steam_gpu
    then some supervised_conditions_not_enabled
    else if not
        (among (or_default (codes "manual") p.focus_policy) (codes "manual") (codes "steam_only"))
    then some invalid_focus_policy
    else if not
        (among (or_default (codes "gaps") p.sampling_policy) (codes "gaps") (codes "late_title"))
    then some invalid_sampling_policy
    else if not (
        among (or_default (codes "automated") p.interaction_mode) (codes "automated")
          (codes "supervised_foreground"))
    then some invalid_interaction_mode
    else if not (among (or_default (codes "full") p.phase) (codes "full") (codes "comparisons"))
    then some invalid_campaign_phase
    else if not (same_pin p.driver)
    then some driver_hash_mismatch
    else check_dlls p

unfoldable pub validate_plan : CampaignPlan → Option PlanError
validate_plan p = elim (missing_path p.required) [
  | some key ↦ some (missing key)
  | none ↦ check_values p
]

abbrev le_int : ℤ → ℤ → Bool
le_int (pos a) (pos b) = leb a b
le_int (pos a) (negsuc b) = false
le_int (negsuc a) (pos b) = true
le_int (negsuc a) (negsuc b) = leb b a

abbrev pub min_int : ℤ → ℤ → ℤ
min_int a b = if le_int b a then b else a

-- `plan['max_runs'] = min(plan.get('max_runs', 12), args.max_runs)`, where the argument is given
unfoldable pub limit_runs : Option ℤ → CampaignPlan → CampaignPlan
limit_runs none p = p
limit_runs (some n) p = record p { max_runs = some (min_int (or_default (pos 12) p.max_runs) n) }

-- The bound of `sequence[:n]`; a negative one, which drops that many from the end, is none of a valid plan.
abbrev pub runs_of : ℤ → ℕ
runs_of (pos n) = n
runs_of (negsuc n) = 0

unfoldable pub planned_runs : CampaignPlan → Checked (List Entry)
planned_runs p = elim (campaign_sequence (or_default (codes "full") p.phase)) [
  | good sequence ↦ good (take (runs_of (or_default (pos 12) p.max_runs)) sequence)
  | bad e ↦ bad e
]
