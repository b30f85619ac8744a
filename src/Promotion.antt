-- ===== src/Promotion.antt =====
-- digest_file, campaign_blockers and blockers of runtime/kosmickrisp/promotion.py: what keeps a runtime
-- from promotion. The metrics of a measured run are given,
-- and the floats of the language with the operations that compare the lanes.
mod Medians
mod Titles
mod Agreed
mod Both
mod Readiness
mod ReadinessTests
mod Tests
use winecx_gptk.Common.{
  ℕ, Bool, true, false, not, ◌&&◌, ◌||◌, Option, none, some, is_some, List, [], ◌∷◌, ◌++◌, ◌==◌,
  leb, length, all, map, if◌then◌else◌,
}
use winecx_gptk.Common.Text.{Text, codes, contains, text_eq}

-- Python's floats: `<`, and the products with .95 and 1.10.
pub record Floats (F : Type 0) : Type 0 where
  pub less : F → F → Bool
  pub times_95 : F → F
  pub times_110 : F → F

pub data Title : Type 0 where
  hades_vulkan hades_dxvk portal2_d3d9 skywalker steam_cef : Title

-- A file of evidence: its recorded path, the file there, and whether its digest is the recorded one.
pub record File : Type 0 where
  pub is_absolute : Bool
  pub is_inside : Bool
  pub content : Option Text
  pub has_digest : Bool

-- `none`: it raises.
unfoldable pub digest_file : File → Option Text
digest_file f =
    if f.is_absolute || not f.is_inside then none else if f.has_digest then f.content else none

pub record Warmup : Type 0 where
  pub completed : Bool
  pub log : File

-- A measured run is the mean frame rate and the 99th percentile of the frame time, or `none` where
-- `metrics` raises; a digest is `none` where it is no text.
pub record Lane (F : Type 0) : Type 0 where
  pub runtime_sha256 : Option Text
  pub warmups : List Warmup
  pub measured : List (Option (F × F))

-- The id of a case is `none` where it is no required title.
pub record Case (F : Type 0) : Type 0 where
  pub id : Option Title
  pub fixed_display : Bool
  pub settings : File
  pub scene : File
  pub harness : File
  pub game_build : File
  pub gameplay_confirmed : Bool
  pub visual_evidence : File
  pub candidate_backend_log : File
  pub gpu_compositing : Bool
  pub game_backend_preserved : Bool
  pub baseline : Lane F
  pub candidate : Lane F

pub record Validation : Type 0 where
  pub manifest_sha256 : Option Text
  pub archive_sha256 : Option Text
  pub os : Option Text

pub record Campaign (F : Type 0) : Type 0 where
  pub schema : ℕ
  pub manifest_sha256 : Option Text
  pub os : Option Text
  pub has_hardware : Bool
  pub cases : List (Case F)

pub data Failure : Type 0 where
  other_manifest other_os other_cases display fixture gameplay visual backend_log : Failure
  backend_identity cef missing_digest baseline_is_candidate repetitions warmup : Failure
  other_archive invalid_metrics several_baselines : Failure
  regression : Title → Failure

abbrev pub check : Bool → Failure → Option Failure → Option Failure
check true why next = next
check false why next = some why

abbrev pub same_text : Option Text → Option Text → Bool
same_text none none = true
same_text (some s) (some t) = text_eq s t
same_text _ _ = false

abbrev pub or_else : Option Failure → Option Failure → Option Failure
or_else none next = next
or_else (some why) next = some why

abbrev is_hex : ℕ → Bool
is_hex c = (leb 48 c && leb c 57) || (leb 97 c && leb c 102)

unfoldable pub is_digest : Option Text → Bool
is_digest none = false
is_digest (some t) = length t == 64 && all is_hex t

abbrev pub reads : File → Bool
reads f = is_some (digest_file f)

abbrev pub is_cef : Option Title → Bool
is_cef (some steam_cef) = true
is_cef _ = false

abbrev pub is_vulkan : Option Title → Bool
is_vulkan (some hades_vulkan) = true
is_vulkan _ = false

abbrev names_backend : Option Title → Option Text → Bool
names_backend id none = false
names_backend id (some log) =
    contains (codes "KosmicKrisp") log && (contains (codes "DXVK") log || is_vulkan id)

abbrev pub same_title : Title → Option Title → Bool
same_title hades_vulkan (some hades_vulkan) = true
same_title hades_dxvk (some hades_dxvk) = true
same_title portal2_d3d9 (some portal2_d3d9) = true
same_title skywalker (some skywalker) = true
same_title steam_cef (some steam_cef) = true
same_title _ _ = false

-- One digest in all.
abbrev pub is_single : List (Option Text) → Bool
is_single [] = false
is_single (d ∷ ds) = all (same_text d) ds

module _ {F : Type 0} (floats : Floats F) where
  unfoldable pub warmups_error : List Warmup → Option Failure
  unfolding digest_file
  warmups_error [] = none
  warmups_error (w ∷ ws) =
      let rest = warmups_error ws in check w.completed warmup (check (reads w.log) warmup rest)

  -- What follows the digest in either lane, up to the archive of a candidate.
  unfoldable pub lane_error : Lane F → Option Failure → Option Failure
  unfolding warmups_error
  lane_error l next =
      check (length l.warmups == 2 && length l.measured == 3) repetitions
        (or_else (warmups_error l.warmups) next)

  unfoldable pub baseline_error : Validation → Lane F → Option Failure → Option Failure
  unfolding lane_error is_digest
  baseline_error v l next = check (is_digest l.runtime_sha256) missing_digest (
      check (not (same_text l.runtime_sha256 v.archive_sha256)) baseline_is_candidate
        (lane_error l (check (all is_some l.measured) invalid_metrics next)))

  unfoldable pub candidate_error : Validation → Lane F → Option Failure
  unfolding lane_error is_digest
  candidate_error v l = check (is_digest l.runtime_sha256) missing_digest (
      lane_error l (
        check (same_text l.runtime_sha256 v.archive_sha256) other_archive
          (check (all is_some l.measured) invalid_metrics none)))

  abbrev pub cef_error : Case F → Option Failure
  cef_error c = check (c.gpu_compositing && c.game_backend_preserved) cef none

  abbrev pub measured_error : Validation → Case F → Option Failure
  measured_error v c = baseline_error v c.baseline (candidate_error v c.candidate)

  unfoldable pub case_error : Validation → Case F → Option Failure
  unfolding baseline_error candidate_error
  case_error v c = check c.fixed_display display (
      check (reads c.settings && (reads c.scene && (reads c.harness && reads c.game_build))) fixture
        (check c.gameplay_confirmed gameplay (
          check (reads c.visual_evidence) visual (
            check (reads c.candidate_backend_log) backend_log (
              check (names_backend c.id (digest_file c.candidate_backend_log)) backend_identity
                (if is_cef c.id then cef_error c else measured_error v c))))))

  abbrev regression_of : Option Title → Bool → List Failure
  regression_of (some t) true = regression t ∷ []
  regression_of _ _ = []

  abbrev insert_float : F → List F → List F
  insert_float x [] = x ∷ []
  insert_float x (y ∷ ys) =
      let rest = insert_float x ys in if floats.less y x then y ∷ rest else x ∷ y ∷ ys

  abbrev sort_floats : List F → List F
  sort_floats [] = []
  sort_floats (x ∷ xs) = insert_float x (sort_floats xs)

  -- The middle of three; a lane with another number of measured runs has raised before.
  abbrev middle : List F → Option F
  middle (x ∷ y ∷ z ∷ []) = some y
  middle _ = none

  -- `statistics.median`
  abbrev pub median : List F → Option F
  median xs = middle (sort_floats xs)

  abbrev pub samples : (F × F → F) → List (Option (F × F)) → List F
  samples part [] = []
  samples part (none ∷ runs) = samples part runs
  samples part (some run ∷ runs) = part run ∷ samples part runs

  abbrev both_less : Option F → Option F → Bool
  both_less (some x) (some y) = floats.less x y
  both_less _ _ = false

  abbrev scaled : (F → F) → Option F → Option F
  scaled by none = none
  scaled by (some x) = some (by x)

  -- `new[0] < old[0] * .95 or new[1] > old[1] * 1.10`
  abbrev pub is_worse : Case F → Bool
  is_worse c =
      let rate : F × F → F = λ run. run.0 in
      let frame_time : F × F → F = λ run. run.1 in
      let old = c.baseline.measured in
      let new = c.candidate.measured in
      both_less (median (samples rate new)) (scaled floats.times_95 (median (samples rate old)))
      || both_less (scaled floats.times_110 (median (samples frame_time old)))
          (median (samples frame_time new))

  abbrev pub regressions : Case F → List Failure
  regressions c = if is_cef c.id then [] else regression_of c.id (is_worse c)

  abbrev case_failures : Case F → Option Failure → List Failure → List Failure
  case_failures c none rest = regressions c ++ rest
  case_failures c (some why) rest = why ∷ []

  -- The cases that are left, with what follows the last of them.
  unfoldable pub cases_failures : Validation → List (Case F) → List Failure → List Failure
  unfolding case_error
  cases_failures v [] last = last
  cases_failures v (c ∷ cs) last = case_failures c (case_error v c) (cases_failures v cs last)

  abbrev pub required : List Title
  required = hades_vulkan ∷ hades_dxvk ∷ portal2_d3d9 ∷ skywalker ∷ steam_cef ∷ []

  abbrev pub lists : List (Case F) → Title → Bool
  lists [] t = false
  lists (c ∷ cs) t = same_title t c.id || lists cs t

  abbrev pub all_cases : List (Case F) → Bool
  all_cases cs = length cs == 5 && (all (λ c. is_some c.id) cs && all (lists cs) required)

  abbrev pub baselines : List (Case F) → List (Option Text)
  baselines [] = []
  baselines (c ∷ cs) =
      if is_cef c.id then baselines cs else c.baseline.runtime_sha256 ∷ baselines cs

  abbrev pub several : List (Case F) → List Failure
  several cs = if is_single (baselines cs) then [] else several_baselines ∷ []

  unfoldable pub campaign_blockers : Campaign F → Validation → List Failure
  unfolding cases_failures
  campaign_blockers c v =
      if not (c.schema == 1 && same_text c.manifest_sha256 v.manifest_sha256)
      then other_manifest ∷ []
      else if not (same_text c.os v.os && c.has_hardware)
      then other_os ∷ []
      else if not (all_cases c.cases)
      then other_cases ∷ []
      else cases_failures v c.cases (several c.cases)

-- What one physical system has left: `none` where a file is missing or invalid.
pub record Physical (F : Type 0) : Type 0 where
  pub validation : Validation
  pub campaign : Campaign F

pub data Platform : Type 0 where
  macos26 newer : Platform

pub data Blocker : Type 0 where
  blocked : Platform → Failure → Blocker
  missing_evidence : Platform → Blocker
  manifests_differ : Blocker

abbrev pub without_manifest : Platform → Option Text → List Blocker
without_manifest p none = missing_evidence p ∷ []
without_manifest p (some _) = []

abbrev pub manifest_of : {F : Type 0} → Option (Physical F) → List (Option Text)
manifest_of none = []
manifest_of (some e) =
    if is_some e.validation.manifest_sha256 then e.validation.manifest_sha256 ∷ [] else []

module _ {F : Type 0} (floats : Floats F) where
  unfoldable pub platform_blockers : Platform → Option (Physical F) → List Blocker
  unfolding campaign_blockers
  platform_blockers p none = missing_evidence p ∷ []
  platform_blockers p (some e) =
      map (blocked p) (campaign_blockers floats e.campaign e.validation)
      ++ without_manifest p e.validation.manifest_sha256

  unfoldable pub blockers : (old new : Option (Physical F)) → List Blocker
  unfolding platform_blockers
  blockers old new =
      platform_blockers macos26 old
      ++ (platform_blockers newer new
          ++ (if is_single (manifest_of old ++ manifest_of new) then [] else manifests_differ ∷ []))
