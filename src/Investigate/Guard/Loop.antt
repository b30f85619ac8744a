-- ===== src/Investigate/Guard/Loop.antt =====
-- The loop of `guard_run` of runtime/kosmickrisp/investigate.py: each round reads the progress and the
-- controller's state, judges, samples the stack and takes in an inspection of the process. A round
-- goes on, stops the run with a reason, or raises.
use winecx_gptk.Common.{
  ℕ, ◌*◌, ◌^◌, Bool, true, false, not, ◌&&◌, ◌||◌, Option, none, some, is_none, List, [], ◌∷◌, map,
  ◌==◌, any, sub_ge, if◌then◌else◌,
}
use winecx_gptk.Common.Text.{Text, codes, contains, any_in, lower, text_eq}
use winecx_gptk.Investigate.Guard.Seen.{
  Outcome, invalid, Reason, not_launched, process_inspection_failed, owned_process_identity_changed,
  unexpected_game_process, wrong_driver_loaded, Plan, Controller, Reading, missing, unreadable,
  state, Inspection, failed, seen, Tick, join, no_state,
}
use winecx_gptk.Investigate.Guard.Ladder.{Start, Verdict, rung, given}
use winecx_gptk.Investigate.Sampling.{SeenProgress, Sample, Trigger, sampling_reason}
use winecx_gptk.Investigate.Tailing
use winecx_gptk.Investigate.Tailing.{Progress}

-- An entry of `sample_records`; the newest stands first.
pub record SampleRecord : Type 0 where
  pub sample : Sample
  pub timed_out : Bool
  pub finished_ns : Option ℕ

-- The variables of the loop, and `result['outcome']` and `result['reason']`.
pub record Watch : Type 0 where
  pub outcome : Outcome
  pub reason : Reason
  pub progress : Progress
  pub controller : Controller
  pub samples : List SampleRecord
  pub loaded : Bool

pub data Round : Type 0 where
  running : Watch → Round
  stopped : Watch → Round
  raised : Text → Watch → Round

unfoldable pub and_then : Round → (Watch → Round) → Round
and_then (running w) k = k w
and_then (stopped w) k = stopped w
and_then (raised e w) k = raised e w

unfoldable pub begin : Start → Watch
begin s = record {
  outcome = invalid;
  reason = not_launched;
  progress = Tailing.init s.start_ns;
  controller = no_state;
  samples = [];
  loaded = false;
}

abbrev pub with_progress : Progress → Watch → Watch
with_progress p w = record w { progress = p }

unfoldable pub read_controller : Reading → Watch → Round
read_controller missing w = running w
read_controller (unreadable e) w = raised e w
read_controller (state c) w = running (record w { controller = c })

abbrev or_raise : Option Text → Watch → Round → Round
or_raise none w r = r
or_raise (some e) w r = raised e w

abbrev with_verdict : Verdict → Watch → Watch
with_verdict v w = record w { outcome = v.outcome; reason = v.reason }

-- `result.update(outcome=...)`, and `break` where the reason is given
unfoldable pub judge : Option Verdict → Option Text → Watch → Round
judge none stop_error w = running w
judge (some v) stop_error w =
    if given v.reason
    then or_raise stop_error (with_verdict v w) (stopped (with_verdict v w))
    else running (record w { outcome = v.outcome })

abbrev seen_progress : Progress → SeenProgress
seen_progress p = record {
  first_present = p.present.first;
  last_present = some p.present.last;
  last_compile = some p.compile.last;
}

-- `sample_records[-1]['finished_ns'] = now_ns` where the sampler has ended and none is noted
unfoldable pub note_finished : ℕ → Bool → List SampleRecord → List SampleRecord
note_finished now ended [] = []
note_finished now ended (r ∷ rs) =
    if ended && is_none r.finished_ns then record r { finished_ns = some now } ∷ rs else r ∷ rs

-- The sampler has run for twenty seconds.
unfoldable pub overrun : ℕ → Bool → List SampleRecord → Bool
overrun now ended [] = false
overrun now ended (r ∷ rs) = not ended && sub_ge now r.sample.requested_ns (20 * 10 ^ 9)

unfoldable pub note_timed_out : ℕ → Bool → List SampleRecord → List SampleRecord
note_timed_out now ended [] = []
note_timed_out now ended (r ∷ rs) =
    if overrun now ended (r ∷ rs) then record r { timed_out = true } ∷ rs else r ∷ rs

abbrev idle : Bool → List SampleRecord → Bool
idle ended [] = true
idle ended (_ ∷ _) = ended

abbrev start_sample : Tick → Option Trigger → Watch → Round
start_sample t none w = running w
start_sample t (some trigger) w =
    if idle t.sampler_ended w.samples
    then or_raise t.sample_error w (
        running (record w {
          samples =
              record {
                sample = record { requested_ns = t.now_ns; trigger = trigger };
                timed_out = false;
                finished_ns = none;
              }
              ∷ w.samples;
        }))
    else running w

unfoldable pub sample_stack : Start → Plan → Tick → Watch → Round
unfolding note_finished overrun note_timed_out sampling_reason
sample_stack s plan t w =
    let records = note_finished t.now_ns t.sampler_ended w.samples in
    let marked = record w { samples = note_timed_out t.now_ns t.sampler_ended records } in
    let next =
      start_sample t
        (sampling_reason t.now_ns s.start_ns (seen_progress w.progress) w.controller.menu_verified
          (map (λ r. r.sample) marked.samples) plan.sampling_policy)
        marked in
    if overrun t.now_ns t.sampler_ended records
    then or_raise t.sampler_stop_error marked next
    else next

-- `line[1:]` for the lines that name a file of interest
abbrev path_of : Text → Option Text
path_of [] = none
path_of (c ∷ cs) =
    if c == b'n'
      && any_in
          (codes "kosmickrisp" ∷ codes "libvulkan" ∷ codes "d3d11.dll" ∷ codes "dxgi.dll" ∷ [])
          (lower (c ∷ cs))
    then some cs
    else none

unfoldable pub paths_of : List Text → List Text
paths_of [] = []
paths_of (line ∷ lines) =
    let rest = paths_of lines in elim (path_of line) [ none ↦ rest | some path ↦ path ∷ rest ]

-- `path in paths`
abbrev pub listed : Text → List Text → Bool
listed path paths = any (text_eq path) paths

unfoldable pub right_driver : Plan → List Text → Bool
right_driver plan paths =
    listed (join plan.bundle (codes "libvulkan_kosmickrisp.dylib")) paths
    && (not plan.has_dxvk
        || (listed (join plan.game_directory (codes "d3d11.dll")) paths
            && listed (join plan.game_directory (codes "dxgi.dll")) paths))

-- An inspection that failed without a text counts as one that found another process.
abbrev stop_with : Reason → Watch → Round
stop_with why w = stopped (record w { outcome = invalid; reason = why })

unfoldable pub take_inspection : Start → Plan → Option Inspection → Watch → Round
unfolding paths_of right_driver
take_inspection s plan none w = running w
take_inspection s plan (some (failed [])) w = stop_with owned_process_identity_changed w
take_inspection s plan (some (failed (_ ∷ _))) w = stop_with process_inspection_failed w
take_inspection s plan (some (seen same_identity processes lines)) w =
    if not same_identity
    then stop_with owned_process_identity_changed w
    else if any (λ pid. not (pid == s.pid)) processes
    then stop_with unexpected_game_process w
    else if any (contains (codes "libvulkan_kosmickrisp.dylib")) (paths_of lines)
    then if right_driver plan (paths_of lines)
      then running (record w { loaded = true })
      else stop_with wrong_driver_loaded (record w { loaded = false })
    else running w

abbrev pub update_progress : (present_csv compile_csv : Option Text) → ℕ → Watch → Watch
update_progress present_csv compile_csv now w =
    with_progress (Tailing.update present_csv compile_csv (some now) w.progress) w

unfoldable pub judged : Start → Plan → Tick → Watch → Round
unfolding rung judge
judged s plan t w = judge (rung s plan t w.controller w.progress) t.stop_error w

unfoldable pub round : Start → Plan → Tick → Watch → Round
unfolding and_then read_controller judged sample_stack take_inspection
round s plan t w =
    and_then (read_controller t.controller (update_progress t.present_csv t.compile_csv t.now_ns w))
      (λ w1.
        and_then (judged s plan t w1)
          (λ w2. and_then (sample_stack s plan t w2) (take_inspection s plan t.inspection)))

-- The rounds while the game runs.
unfoldable pub watch : Start → Plan → List Tick → Watch → Round
unfolding and_then round
watch s plan [] w = running w
watch s plan (t ∷ ts) w = and_then (round s plan t w) (watch s plan ts)
