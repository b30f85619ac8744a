-- ===== src/Waits/Report.antt =====
-- The report of attribute_waits of runtime/kosmickrisp/investigation_analysis.py, and exclusive_segments.
use mathlib.Core.Option
use winecx_gptk.Common.{
  ℕ, ◌-◌, Bool, true, false, ◌&&◌, Option, none, some, List, [], ◌∷◌, ◌++◌, map, ltb, leb, max, min,
  any, all, select, length, take, if◌then◌else◌,
}
use winecx_gptk.Common.Text.{Text}
use winecx_gptk.Waits.{pso_create, is_wait, Event, same_id, related_to}
use winecx_gptk.Waits.Segments.{
  Segment, work_in, queue_in, Label, unresolved, queued, Unresolved, segments_of, same_label,
  points_of, Part, part_of, durations, reasons, time_of, total_of,
}

abbrev pub part_ends : List Part → List ℕ
part_ends [] = []
part_ends (p ∷ ps) = p.begin ∷ p.finish ∷ part_ends ps

abbrev pub is_over : ℕ → ℕ → Part → Bool
is_over left right p = leb p.begin left && leb right p.finish

-- The label that all of the parts have, if there are parts.
abbrev pub agreed : List Part → Option Label
agreed [] = none
agreed (p ∷ ps) = some (if all (λ q. same_label p.label q.label) ps then p.label else unresolved)

abbrev pub kept_part : (left right : ℕ) → Option Label → List Part
kept_part left right none = []
kept_part left right (some l) = record { begin = left; finish = right; label = l } ∷ []

unfoldable pub exclusive_from : List Part → ℕ → List ℕ → List Part
exclusive_from segments left [] = []
exclusive_from segments left (right ∷ points) =
    kept_part left right (agreed (select (is_over left right) segments))
    ++ exclusive_from segments right points

abbrev pub exclusive_over : List Part → List ℕ → List Part
exclusive_over segments [] = []
exclusive_over segments (p ∷ ps) = exclusive_from segments p ps

unfoldable pub exclusive_segments : List Part → List Part
unfolding exclusive_from points_of
exclusive_segments segments = exclusive_over segments (points_of (part_ends segments))

-- A row of `waits`.
pub record Row : Type 0 where
  pub request_id : Option Text
  pub family_id : Option Text
  pub start_ns : ℕ
  pub end_ns : ℕ
  pub duration_ns : ℕ
  pub exclusive_ns : List (Label × ℕ)
  pub unresolved_reasons_ns : List (Unresolved × ℕ)
  pub evidence_event_indices : List ℕ

-- A row with the segments that it adds to `all_segments`, and the events that it found; `stops` if a
-- segment of it raises.
pub record Wait : Type 0 where
  pub stops : Bool
  pub row : Row
  pub segments : List Part
  pub related : List Event

unfoldable pub wait_of : List Event → (end : ℕ) → Event → (left right : ℕ) → List Event → Wait
unfolding segments_of work_in queue_in durations reasons
wait_of events end wait left right related =
    let works = work_in left right related in
    let queue = queue_in left right end events wait.request_id in
    let segments = segments_of left right works queue in
    let parts = map part_of segments in
    record {
      stops = any (λ (s : Segment). s.verdict.stops) segments;
      row = record {
        request_id = wait.request_id;
        family_id = wait.family_id;
        start_ns = left;
        end_ns = right;
        duration_ns = right - left;
        exclusive_ns = durations [] parts;
        unresolved_reasons_ns = reasons [] segments;
        evidence_event_indices = points_of (map (λ (e : Event). e.number) related);
      };
      segments = parts;
      related = related;
    }

-- The `continue`s of the loop.
abbrev pub is_counted : (start end : ℕ) → Event → Bool
is_counted start end wait =
    wait.is_draw && (is_wait wait.phase && ltb (max start wait.start_ns) (min end wait.end_ns))

abbrev pub joined : Wait → List Wait → Option (List Wait)
joined w waits = if w.stops then none else some (w ∷ waits)

abbrev pub with_related :
    List Event
    → (end : ℕ) → Event
    → (left right : ℕ) → Option (List Event)
    → Option (List Wait)
    → Option (List Wait)
with_related events end wait left right (some related) (some waits) =
    joined (wait_of events end wait left right related) waits
with_related events end wait left right _ _ = none

-- The loop over the events; `none` if a search runs out of fuel, or a segment raises.
unfoldable pub waits_of : List Event → (start end : ℕ) → List Event → Option (List Wait)
unfolding related_to wait_of
waits_of events start end [] = some []
waits_of events start end (e ∷ es) =
    let rest = waits_of events start end es in
    let left = max start e.start_ns in
    let right = min end e.end_ns in
    if is_counted start end e
    then with_related events end e left right (related_to events e e.request_id left right) rest
    else rest

abbrev pub all_segments : List Wait → List Part
all_segments [] = []
all_segments (w ∷ ws) = w.segments ++ all_segments ws

-- An event of the cache: the outcome of a pipeline.
pub data Outcome : Type 0 where
  archive_hit compiler_fallback other_outcome : Outcome

pub record CacheEvent : Type 0 where
  pub is_pso : Bool
  pub key : Option Text
  pub outcome : Outcome
  pub time_ns : ℕ

abbrev same_outcome : Outcome → Outcome → Bool
same_outcome archive_hit archive_hit = true
same_outcome compiler_fallback compiler_fallback = true
same_outcome _ _ = false

abbrev is_pso_create : Event → Bool
is_pso_create e = elim e.phase [ pso_create ↦ true | _ ↦ false ]

-- The outcome is that of a pipeline that the wait is for, during the wait.
abbrev counts_for : Outcome → List CacheEvent → Wait → Bool
counts_for o cache w =
    any
      (λ (c : CacheEvent).
        c.is_pso
        && any (λ (e : Event). is_pso_create e && same_id c.key e.request_id) w.related
        && same_outcome c.outcome o
        && leb w.row.start_ns c.time_ns
        && leb c.time_ns w.row.end_ns)
      cache

pub record Request : Type 0 where
  pub request_id : Option Text
  pub wait_count : ℕ
  pub pipeline_outcomes_during_wait : List Outcome
  pub wait_union_ns : ℕ
  pub exclusive_ns : List (Label × ℕ)

abbrev is_of : Option Text → Wait → Bool
is_of key w = same_id key w.row.request_id

abbrev outcome_if : Bool → Outcome → List Outcome
outcome_if true o = o ∷ []
outcome_if false o = []

unfoldable pub request_of : List CacheEvent → List Wait → Option Text → Request
unfolding exclusive_segments durations
request_of cache waits key =
    let own = select (is_of key) waits in
    let values = durations [] (exclusive_segments (all_segments own)) in
    record {
      request_id = key;
      wait_count = length own;
      pipeline_outcomes_during_wait =
          outcome_if (any (counts_for archive_hit cache) own) archive_hit
          ++ outcome_if (any (counts_for compiler_fallback cache) own) compiler_fallback;
      wait_union_ns = total_of values;
      exclusive_ns = values;
    }

-- The keys of `ranked`, in the order of their first waits.
unfoldable pub keys_of : List (Option Text) → List Wait → List (Option Text)
keys_of seen [] = []
keys_of seen (w ∷ ws) =
    let key = w.row.request_id in
    let old = keys_of seen ws in
    let new = keys_of (key ∷ seen) ws in if any (same_id key) seen then old else key ∷ new

-- `sorted(ranking, key=…, reverse=True)`, which keeps the order of equal keys.
unfoldable pub insert_request : Request → List Request → List Request
insert_request r [] = r ∷ []
insert_request r (q ∷ qs) =
    let rest = insert_request r qs in
    if leb q.wait_union_ns r.wait_union_ns then r ∷ q ∷ qs else q ∷ rest

unfoldable pub ranked : List Request → List Request
unfolding insert_request
ranked [] = []
ranked (r ∷ rs) = insert_request r (ranked rs)

pub record Attribution : Type 0 where
  pub draw_wait_union_ns : ℕ
  pub queued_ns : ℕ
  pub active_work_ns : ℕ
  pub unresolved_ns : ℕ
  pub exclusive_phase_ns : List (Label × ℕ)
  pub top_requests : List Request
  pub waits : List Row

unfoldable pub attribution : List CacheEvent → List Wait → Attribution
unfolding exclusive_segments durations request_of keys_of ranked
attribution cache waits =
    let totals = durations [] (exclusive_segments (all_segments waits)) in
    let total = total_of totals in
    let queue = time_of queued totals in
    let unknown = time_of unresolved totals in
    record {
      draw_wait_union_ns = total;
      queued_ns = queue;
      active_work_ns = total - queue - unknown;
      unresolved_ns = unknown;
      exclusive_phase_ns = totals;
      top_requests = take 10 (ranked (map (request_of cache waits) (keys_of [] waits)));
      waits = map (λ (w : Wait). w.row) waits;
    }

unfoldable pub attribute_waits : List Event → (start end : ℕ) → List CacheEvent → Option Attribution
unfolding waits_of attribution
attribute_waits events start end cache =
    Option.map (attribution cache) (waits_of events start end events)
