-- ===== src/Investigate/Campaign/Tests.antt =====
-- The campaign of runtime/kosmickrisp/investigate.py on a plan of three runs.
use winecx_gptk.Common.{◌≤◌, true, false, none, some, List, [], ◌∷◌, ◌++◌, length, AllOf, ◌≡◌, refl}
use winecx_gptk.Common.Int.{pos}
use winecx_gptk.Common.Text.{Text, codes}
use winecx_gptk.Investigate.Guard.Seen.{passed, stalled}
use winecx_gptk.Investigate.Campaign.Evidence.{
  HostRecord, host_evidence_valid, selected_host_evidence, serious_host_fault,
}
use winecx_gptk.Investigate.Campaign.Plan.{
  Entry, CampaignPlan, fresh, snapshot, entry, campaign_sequence, validate_plan, missing_path,
  changed_dll, limit_runs, planned_runs,
}
use winecx_gptk.Investigate.Campaign.Loop.{
  Runs, Trial, prepared, Progress, going, begin, write, run_sequence, chain, step, previous,
  fresh_run, launch_run, review, acceptable, run_requires_review,
}
use winecx_gptk.Investigate.Campaign.Run.{
  Preflight, preflight, Ended, reviewed, close, campaign, ran, main,
}
use winecx_gptk.Investigate.Campaign.Held.{Distinct}
use winecx_gptk.Investigate.Campaign.Limits.{
  Accepted, campaign_complete, allowed, progress_of, main-launches,
}
use winecx_gptk.Investigate.Campaign.Resume.{outcome, resumed-eq-uninterrupted}

abbrev calm_host : HostRecord
calm_host = record {
  capture = record {
    returncode = some (pos 0);
    timed_out = some false;
    truncated = some false;
    has_error = false;
  };
  unknown_timezone_lines = some 0;
  serious_host_fault = some false;
  has_counts = true;
  has_events = true;
}

abbrev trial : Text → Trial
trial label = record {
  steam_error = none;
  preparation = prepared;
  result = some passed;
  review_error = none;
  host = calm_host;
  native_archive_hits = 3;
}

abbrev no_runs : Runs
no_runs label = record {
  exists = false;
  result = none;
  host = none;
  supplemental = none;
  native_archive_hits = none;
}

abbrev checks : Preflight
checks = record {
  resume = false;
  recover_error = none;
  same_plan = true;
  helper_error = none;
  permission_error = none;
  desktop_interactive = some true;
  steam_error = none;
  probe_returncode = pos 0;
  copy_error = none;
  seed_hash = codes "d1";
  recorded_hash = none;
}

abbrev plan : CampaignPlan
plan = record {
  required = record { key = codes "runtime"; exists = true } ∷ [];
  startup_seconds = some (pos 600);
  max_runs = none;
  windowed = none;
  steam_gpu = none;
  focus_policy = none;
  sampling_policy = some (codes "late_title");
  interaction_mode = none;
  phase = some (codes "comparisons");
  driver = record { name = codes "driver"; planned = codes "aa"; found = codes "aa" };
  dxvk = [];
}

abbrev first_two : List Entry
first_two = entry (codes "cold-1") fresh true ∷ entry (codes "warm-control-1") snapshot true ∷ []

abbrev third : List Entry
third = entry (codes "warm-control-2") snapshot true ∷ []

abbrev after_two : Progress
after_two = elim (run_sequence trial first_two (begin no_runs)) [ going p ↦ p | _ ↦ begin no_runs ]

two_runs : run_sequence trial first_two (begin no_runs) ≡ going after_two
unfolding run_sequence chain step previous fresh_run launch_run review acceptable write
    host_evidence_valid serious_host_fault selected_host_evidence
two_runs = refl

resumed-eq-uninterrupted_example :
    outcome (run_sequence trial (first_two ++ third) (begin after_two.runs))
    ≡ outcome (run_sequence trial (first_two ++ third) (begin no_runs))
resumed-eq-uninterrupted_example =
    resumed-eq-uninterrupted trial first_two third no_runs after_two two_runs

abbrev end_of_two : Ended
end_of_two = reviewed (record { reason = none; runs = 2 }) after_two

two_runs_complete : campaign first_two checks trial no_runs ≡ end_of_two
unfolding campaign preflight close run_sequence chain step previous fresh_run launch_run review
    acceptable write host_evidence_valid serious_host_fault selected_host_evidence
two_runs_complete = refl

campaign_complete_example :
    AllOf (λ (e : Entry). Accepted (after_two.runs e.label)) first_two × (2 ≡ length first_two)
campaign_complete_example =
    campaign_complete first_two checks trial no_runs (record { reason = none; runs = 2 }) after_two
      two_runs_complete refl

main_of_two : main plan (some (pos 2)) false checks trial no_runs ≡ ran end_of_two
unfolding main validate_plan missing_path changed_dll limit_runs planned_runs campaign_sequence
    campaign preflight close run_sequence chain step previous fresh_run launch_run review acceptable
    write host_evidence_valid serious_host_fault selected_host_evidence
main_of_two = refl

main-launches_example :
    Distinct (progress_of end_of_two).launched
    × (length (progress_of end_of_two).launched ≤ allowed (some (pos 2)))
main-launches_example =
    main-launches plan (some (pos 2)) false checks trial no_runs end_of_two main_of_two

-- A run that stalls ends the campaign, and the next one is not launched.
stalled_run :
    campaign first_two checks (λ label. record (trial label) { result = some stalled }) no_runs
    ≡ reviewed
        (record { reason = some run_requires_review; runs = 1 })
        (record {
          runs =
              write
                (codes "cold-1")
                (record {
                  exists = true;
                  result = some stalled;
                  host = some calm_host;
                  supplemental = none;
                  native_archive_hits = some 3;
                })
                (write
                  (codes "cold-1")
                  (record {
                    exists = true;
                    result = none;
                    host = none;
                    supplemental = none;
                    native_archive_hits = none;
                  })
                  no_runs);
          launched = codes "cold-1" ∷ [];
          results = stalled ∷ [];
        })
unfolding campaign preflight close run_sequence chain step previous fresh_run launch_run review
    acceptable write host_evidence_valid serious_host_fault selected_host_evidence
stalled_run = refl
