-- ===== src/Investigate/Campaign/Loop.antt =====
-- The loop of `campaign` of runtime/kosmickrisp/investigate.py over its sequence of runs. The state is
-- what the directories of the runs hold; how a new run goes is an input, one `Trial` to a label.
use winecx_gptk.Common.{
  ℕ, Bool, true, false, not, ◌&&◌, Option, none, some, List, [], ◌∷◌, ◌++◌, ltb, if◌then◌else◌,
}
use winecx_gptk.Common.Text.{Text, codes, starts_with, text_eq}
use winecx_gptk.Investigate.Guard.Seen.{Outcome, passed}
use winecx_gptk.Investigate.Campaign.Evidence.{
  HostRecord, Supplemental, host_evidence_valid, selected_host_evidence, serious_host_fault,
}
use winecx_gptk.Investigate.Campaign.Plan.{Entry}

-- The files of a run: result.json, host-result.json and its supplement, and the hits in analysis.json.
pub record RunFiles : Type 0 where
  pub exists : Bool
  pub result : Option Outcome
  pub host : Option HostRecord
  pub supplemental : Option Supplemental
  pub native_archive_hits : Option ℕ

abbrev pub Runs : Type 0
Runs = Text → RunFiles

unfoldable pub write : Text → RunFiles → Runs → Runs
write label files runs other = if text_eq other label then files else runs other

-- `prepare_run` may fail before or after it makes the directory.
pub data Preparation : Type 0 where
  prepared : Preparation
  fails_early fails_late : Text → Preparation

-- How a new run goes.
pub record Trial : Type 0 where
  pub steam_error : Option Text
  pub preparation : Preparation
  pub result : Option Outcome
  pub review_error : Option Text
  pub host : HostRecord
  pub native_archive_hits : ℕ

pub data Reason : Type 0 where
  previous_run_requires_review archive_comparison_has_no_enabled_hits : Reason
  incomplete_run_requires_review guardian_missing_result : Reason
  host_evidence_incomplete serious_host_fault_seen run_requires_review : Reason

-- The runs, the labels that were launched (the last stands first), and the results so far.
pub record Progress : Type 0 where
  pub runs : Runs
  pub launched : List Text
  pub results : List Outcome

pub data Step : Type 0 where
  going : Progress → Step
  stops : Reason → Progress → Step
  raises : Text → Progress → Step

abbrev pub is_passed : Outcome → Bool
is_passed o = elim o [ passed ↦ true | _ ↦ false ]

-- A run that needs no review.
unfoldable pub acceptable : Outcome → HostRecord → Bool
acceptable outcome host =
    is_passed outcome && (host_evidence_valid host && not (serious_host_fault host))

abbrev pub with_result : Outcome → Progress → Progress
with_result o p = record p { results = p.results ++ (o ∷ []) }

-- A run of an earlier campaign.
unfoldable pub previous : Outcome → HostRecord → Progress → Step
unfolding acceptable
previous outcome host p =
    if acceptable outcome host
    then going (with_result outcome p)
    else stops previous_run_requires_review (with_result outcome p)

abbrev pub has_hits : Option ℕ → Bool
has_hits none = false
has_hits (some n) = ltb 0 n

abbrev pub controls_hit : Runs → Bool
controls_hit runs =
    has_hits (runs (codes "warm-control-1")).native_archive_hits
    && has_hits (runs (codes "warm-control-2")).native_archive_hits

abbrev pub empty_run : RunFiles
empty_run = record {
  exists = true;
  result = none;
  host = none;
  supplemental = none;
  native_archive_hits = none;
}

abbrev pub with_files : Text → RunFiles → Progress → Progress
with_files label files p = record p { runs = write label files p.runs }

abbrev pub finished_run : Outcome → Trial → RunFiles
finished_run outcome t = record {
  exists = true;
  result = some outcome;
  host = some t.host;
  supplemental = none;
  native_archive_hits = some t.native_archive_hits;
}

-- The verdict on a run that has just ended.
unfoldable pub review : Outcome → HostRecord → Progress → Step
review outcome host p =
    if not (host_evidence_valid host)
    then stops host_evidence_incomplete p
    else if serious_host_fault host
    then stops serious_host_fault_seen p
    else if not (is_passed outcome)
    then stops run_requires_review p
    else going p

abbrev pub reviewed_run : Text → Trial → Outcome → Option Text → Progress → Step
reviewed_run label t outcome (some e) p =
    raises e (with_files label (record empty_run { result = some outcome }) p)
reviewed_run label t outcome none p =
    review outcome t.host (with_result outcome (with_files label (finished_run outcome t) p))

abbrev pub ended : Text → Trial → Option Outcome → Progress → Step
ended label t none p = stops guardian_missing_result p
ended label t (some outcome) p = reviewed_run label t outcome t.review_error p

abbrev pub launched_run : Text → Progress → Progress
launched_run label p = record p {
  runs = write label empty_run p.runs;
  launched = label ∷ p.launched;
}

abbrev pub after_preparation : Text → Trial → Preparation → Progress → Step
after_preparation label t (fails_early e) p = raises e p
after_preparation label t (fails_late e) p = raises e (with_files label empty_run p)
after_preparation label t prepared p = ended label t t.result (launched_run label p)

abbrev pub after_steam : Text → Trial → Option Text → Progress → Step
after_steam label t (some e) p = raises e p
after_steam label t none p = after_preparation label t t.preparation p

unfoldable pub launch_run : Text → Trial → Progress → Step
unfolding review
launch_run label t p = after_steam label t t.steam_error p

abbrev pub is_archive : Text → Bool
is_archive = starts_with (codes "archive-")

unfoldable pub fresh_run : Entry → Trial → Progress → Step
unfolding launch_run
fresh_run e t p =
    if is_archive e.label && not (controls_hit p.runs)
    then stops archive_comparison_has_no_enabled_hits p
    else if (p.runs e.label).exists
    then stops incomplete_run_requires_review p
    else launch_run e.label t p

unfoldable pub step : (Text → Trial) → Entry → Progress → Step
unfolding previous fresh_run
step trials e p = elim (p.runs e.label).result [
  | some outcome ↦
      previous outcome (selected_host_evidence (p.runs e.label).host (p.runs e.label).supplemental)
        p
  | none ↦ fresh_run e (trials e.label) p
]

unfoldable pub chain : Step → (Progress → Step) → Step
chain (going p) k = k p
chain (stops why p) k = stops why p
chain (raises e p) k = raises e p

unfoldable pub run_sequence : (Text → Trial) → List Entry → Progress → Step
unfolding chain step
run_sequence trials [] p = going p
run_sequence trials (e ∷ es) p = chain (step trials e p) (run_sequence trials es)

abbrev pub begin : Runs → Progress
begin runs = record { runs = runs; launched = []; results = [] }
