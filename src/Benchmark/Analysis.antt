-- ===== src/Benchmark/Analysis.antt =====
-- analyze of runtime/kosmickrisp/benchmark.py: which runs of a campaign count, and whether they are
-- all. The frame statistics of a run are of a type that is given.
use winecx_gptk.Common.{
  ℕ, Bool, true, false, not, ◌&&◌, ◌||◌, Option, none, some, List, [], ◌∷◌, ◌++◌, ◌==◌, length, all,
  if◌then◌else◌,
}
use winecx_gptk.Common.Text.{Text, codes, text_eq}
use winecx_gptk.Benchmark.Jobs.{Settings, Job, library_key}

pub data Label : Type 0 where
  cold warm warm2 : Label

-- A summary.json. `label` is `none` where it is no label of a cache state; `gpl` is true only where
-- the file says so.
pub record Summary (F : Type 0) : Type 0 where
  pub label : Option Label
  pub frames : F
  pub frames_error : Bool
  pub backend_verified : Bool
  pub errors : Bool
  pub rejections : Bool
  pub effective : Settings
  pub gpl : Bool
  pub driver_sha256 : Option Text
  pub scene_sha256 : Option Text
  pub natural_exit : Bool
  pub returncode : Bool

-- The digests of the driver and of the scene in the plan.
pub record Hashes : Type 0 where
  pub driver : Text
  pub scene : Text

pub data Reason : Type 0 where
  missing_evidence dxvk_errors configuration_not_verified gpl_unsupported : Reason
  driver_differs scene_differs exited_with_error : Reason

unfoldable pub get : Text → Settings → Option Text
get key [] = none
get key (kv ∷ rest) = let later = get key rest in if text_eq key kv.0 then some kv.1 else later

abbrev pub is_text : Option Text → Text → Bool
is_text none t = false
is_text (some s) t = text_eq s t

abbrev pub note : Bool → Reason → List Reason
note true r = r ∷ []
note false r = []

unfoldable pub reasons_of : {F : Type 0} → Hashes → Settings → Summary F → List Reason
unfolding get
reasons_of h settings s =
    note (s.frames_error || not s.backend_verified) missing_evidence
    ++ (note (s.errors || s.rejections) dxvk_errors
        ++ (note (not (all (λ kv. is_text (get kv.0 s.effective) kv.1) settings))
              configuration_not_verified
            ++ (note (not (is_text (get library_key settings) (codes "False")) && not s.gpl)
                  gpl_unsupported
                ++ (note (not (is_text s.driver_sha256 h.driver)) driver_differs
                    ++ (note (not (is_text s.scene_sha256 h.scene)) scene_differs
                        ++ note (s.natural_exit && s.returncode) exited_with_error)))))

-- The labels that a job has shown.
pub record Seen : Type 0 where
  pub cold : Bool
  pub warm : Bool
  pub warm2 : Bool

abbrev pub unseen : Seen
unseen = record { cold = false; warm = false; warm2 = false }

abbrev pub has_seen : Label → Seen → Bool
has_seen cold seen = seen.cold
has_seen warm seen = seen.warm
has_seen warm2 seen = seen.warm2

abbrev pub mark : Label → Seen → Seen
mark cold seen = record seen { cold = true }
mark warm seen = record seen { warm = true }
mark warm2 seen = record seen { warm2 = true }

pub data Invalid : Type 0 where
  bad_label : Invalid
  bad_run : List Reason → Invalid
  incomplete : Job → Invalid

abbrev pub same_label : Label → Label → Bool
same_label cold cold = true
same_label warm warm = true
same_label warm2 warm2 = true
same_label _ _ = false

-- The runs that count for a condition and a cache state.
pub record Group (F : Type 0) : Type 0 where
  pub condition : Text
  pub label : Label
  pub frames : List F

pub record Tally (F : Type 0) : Type 0 where
  pub groups : List (Group F)
  pub invalid : List Invalid

-- What the loop over the runs of a job carries on.
pub record Scan (F : Type 0) : Type 0 where
  pub seen : Seen
  pub tally : Tally F

abbrev pub all_seen : Seen → Bool
all_seen seen = seen.cold && (seen.warm && seen.warm2)

-- The rows, in the order of their first runs.
pub record Report (F : Type 0) : Type 0 where
  pub rows : List (Group F)
  pub invalid : List Invalid
  pub complete : Bool

abbrev pub is_empty : List Invalid → Bool
is_empty [] = true
is_empty (_ ∷ _) = false

module _ {F : Type 0} where
  -- `groups.setdefault((condition, label), []).append(frames)`
  unfoldable pub append_run : Text → Label → F → List (Group F) → List (Group F)
  append_run condition label f [] =
      record { condition = condition; label = label; frames = f ∷ [] } ∷ []
  append_run condition label f (g ∷ gs) =
      let rest = append_run condition label f gs in
      if text_eq condition g.condition && same_label label g.label
      then record g { frames = g.frames ++ (f ∷ []) } ∷ gs
      else g ∷ rest

  abbrev pub reject : Invalid → Tally F → Tally F
  reject why t = record t { invalid = t.invalid ++ (why ∷ []) }

  abbrev pub judged : Job → Label → F → List Reason → Tally F → Tally F
  judged job label f [] t = record t { groups = append_run job.condition label f t.groups }
  judged job label f (r ∷ rs) t = reject (bad_run (r ∷ rs)) t

  abbrev pub scan_run : Hashes → Job → Summary F → Option Label → Scan F → Scan F
  scan_run h job s none sc = record sc { tally = reject bad_label sc.tally }
  scan_run h job s (some label) sc =
      if has_seen label sc.seen then record sc { tally = reject bad_label sc.tally } else record {
        seen = mark label sc.seen;
        tally = judged job label s.frames (reasons_of h job.settings s) sc.tally;
      }

  unfoldable pub scan : Hashes → Job → List (Summary F) → Scan F → Scan F
  unfolding append_run
  scan h job [] sc = sc
  scan h job (s ∷ ss) sc = scan h job ss (scan_run h job s s.label sc)

  abbrev pub close_job : Job → Scan F → Tally F
  close_job job sc = if all_seen sc.seen then sc.tally else reject (incomplete job) sc.tally

  unfoldable pub tally_jobs : Hashes → List (Job × List (Summary F)) → Tally F → Tally F
  unfolding scan
  tally_jobs h [] t = t
  tally_jobs h (j ∷ js) t =
      tally_jobs h js (close_job j.0 (scan h j.0 j.1 (record { seen = unseen; tally = t })))

  abbrev pub report_of : ℕ → Tally F → Report F
  report_of repetitions t = record {
    rows = t.groups;
    invalid = t.invalid;
    complete =
        is_empty t.invalid
        && (length t.groups == 9 && all (λ g. length g.frames == repetitions) t.groups);
  }

  unfoldable pub analyze : Hashes → ℕ → List (Job × List (Summary F)) → Report F
  unfolding tally_jobs
  analyze h repetitions jobs =
      report_of repetitions (tally_jobs h jobs (record { groups = []; invalid = [] }))
