-- ===== src/Waits/Tests.antt =====
-- attribute_waits of runtime/kosmickrisp/investigation_analysis.py on the events of
-- tests/test_kosmickrisp_investigation_analysis.py.
use winecx_gptk.Common.{
  ℕ, ◌+◌, Bool, true, false, Option, none, some, List, [], ◌∷◌, AllOf, ◌≡◌, refl,
}
use winecx_gptk.Common.Text.{Text, codes}
use winecx_gptk.Intervals.{union_ns}
use winecx_gptk.Waits.{
  wait_spans, Phase, pso_wait, archive_load, native_create, pso_create, enqueue, complete,
  worker_start, Event, family, scan, search, related_to,
}
use winecx_gptk.Waits.Segments.{
  insert_point, points_of, work_in, queue_from, queue_in, spent, segment, segments_from,
  segments_of, add_time, durations, reasons, time_of,
}
use winecx_gptk.Waits.Report.{
  exclusive_from, exclusive_segments, wait_of, waits_of, Attribution, attribution, attribute_waits,
}
use winecx_gptk.Waits.Totals.{
  IsSplit, attribute_waits_ends, attribute_waits-eq-union_ns, attribute_waits-IsSplit,
}

abbrev event : ℕ → Phase → (left right : ℕ) → Text → Text → Bool → Event
event number phase left right key parent draw = record {
  number = number;
  request_id = some key;
  has_request_id = true;
  parent_id = some parent;
  family_id = none;
  is_draw = draw;
  phase = phase;
  thread_id = 1;
  start_ns = left;
  end_ns = right;
}

abbrev r_id : Text
r_id = codes "r"

abbrev nested : List Event
nested =
    event 0 enqueue 0 0 r_id r_id false
    ∷ event 1 worker_start 3 3 r_id r_id false
    ∷ event 2 complete 9 9 r_id r_id false
    ∷ event 3 pso_create 3 9 (codes "native") r_id false
    ∷ event 4 archive_load 4 6 (codes "archive") (codes "native") false
    ∷ event 5 native_create 6 9 (codes "native") r_id false
    ∷ event 6 pso_wait 1 10 r_id r_id true
    ∷ []

abbrev empty : Attribution
empty = record {
  draw_wait_union_ns = 0;
  queued_ns = 0;
  active_work_ns = 0;
  unresolved_ns = 0;
  exclusive_phase_ns = [];
  top_requests = [];
  waits = [];
}

abbrev or_empty : Option Attribution → Attribution
or_empty none = empty
or_empty (some r) = r

abbrev report : List Event → (start end : ℕ) → Attribution
report events start end = or_empty (attribute_waits events start end [])

abbrev Times : Type 0
Times = ℕ × (ℕ × (ℕ × (ℕ × ℕ)))

abbrev times : Attribution → Times
times r = (
  r.draw_wait_union_ns,
  (r.queued_ns, (r.active_work_ns, (r.unresolved_ns, time_of (spent 0) r.exclusive_phase_ns))),
)

abbrev nested_times : Times
nested_times = (9, (2, (6, (1, 2))))

nested_report : times (report nested 0 10) ≡ nested_times
unfolding attribute_waits attribution exclusive_segments exclusive_from wait_of waits_of related_to
    search scan family insert_point points_of work_in queue_from queue_in segment segments_from
    segments_of add_time durations reasons
nested_report = refl

some_report : (o : Option Attribution) (r : Attribution) → o ≡ some r → o ≡ some (or_empty o)
some_report none r h = absurd cc
some_report (some q) r h = refl

nested_returns : attribute_waits nested 0 10 [] ≡ some (report nested 0 10)
nested_returns =
    let returned = attribute_waits_ends nested 0 10 [] refl in
    some_report (attribute_waits nested 0 10 []) returned.0 returned.1

-- A child with work but no request id.
abbrev unnamed : List Event
unnamed =
    record (event 0 native_create 0 10 [] r_id false) { request_id = none; has_request_id = false }
    ∷ event 1 pso_wait 1 10 r_id r_id true
    ∷ []

unnamed_raises : attribute_waits unnamed 0 10 [] ≡ none
unfolding attribute_waits waits_of wait_of related_to search scan family insert_point points_of
    work_in queue_from queue_in segment segments_from segments_of
unnamed_raises = refl

attribute_waits_ends_example : (r : Attribution) × (attribute_waits nested 0 10 [] ≡ some r)
attribute_waits_ends_example = attribute_waits_ends nested 0 10 [] refl

attribute_waits-eq-union_ns_example :
    (report nested 0 10).draw_wait_union_ns ≡ union_ns (wait_spans nested) 0 10
attribute_waits-eq-union_ns_example =
    attribute_waits-eq-union_ns nested 0 10 [] (report nested 0 10) nested_returns

attribute_waits-IsSplit_example :
    let r = report nested 0 10 in
    AllOf IsSplit r.waits
    × (r.queued_ns + r.active_work_ns + r.unresolved_ns ≡ r.draw_wait_union_ns)
attribute_waits-IsSplit_example =
    attribute_waits-IsSplit nested 0 10 [] (report nested 0 10) nested_returns
