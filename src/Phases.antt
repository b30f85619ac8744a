-- ===== src/Phases.antt =====
-- What analyze_run of runtime/kosmickrisp/investigation_analysis.py makes of the times in the logs of a run:
-- its start and end, the menu, the phases, and the gaps between frames.
mod Tiling
mod Gaps
mod Agreement
mod Tests
use winecx_gptk.Common.{
  ℕ, ◌+◌, ◌-◌, Bool, true, false, not, ◌&&◌, Option, none, some, List, [], ◌∷◌, ◌++◌, map, ltb, leb,
  max, min, select, length, if◌then◌else◌,
}
use winecx_gptk.Common.Text.{Text, codes, contains, upper}
use winecx_gptk.Gameplay.Screen.{menu_observation}
use winecx_gptk.Intervals.{Interval, union_ns, maximum, Summary, duration_summary}
use winecx_gptk.Waits.{Event, wait_spans}
use winecx_gptk.Waits.Report.{CacheEvent, Attribution, attribute_waits}
use winecx_gptk.Waits.Segments.{points_of}

pub data CompileKind : Type 0 where
  deserialize shaders other_kind : CompileKind

pub record Compile : Type 0 where
  pub is_draw : Bool
  pub kind : CompileKind
  pub start_ns : ℕ
  pub end_ns : ℕ

-- An event of observations.jsonl or a screen of controller.jsonl, with a stamp, and with an end where
-- it has one.
pub record Observation : Type 0 where
  pub stamp : ℕ
  pub end_ns : Option ℕ
  pub text : Text

-- What the logs of a run hold. `variants` are the events of variants.jsonl that have an interval,
-- `metal` and `libraries` the intervals of metal.jsonl and of its libraries, `metal_ends` the ends of
-- metal.jsonl, and `stamps` the stamps and ends of the events of metal.jsonl, variants.jsonl and
-- cache.jsonl.
pub record Logs : Type 0 where
  pub present : List ℕ
  pub compiles : List Compile
  pub variants : List Event
  pub cache : List CacheEvent
  pub metal : List Interval
  pub libraries : List Interval
  pub metal_ends : List ℕ
  pub observations : List Observation
  pub stamps : List ℕ

-- `sorted(…, key=stamp)`
unfoldable pub insert_observation : Observation → List Observation → List Observation
insert_observation o [] = o ∷ []
insert_observation o (p ∷ ps) =
    let rest = insert_observation o ps in if leb o.stamp p.stamp then o ∷ p ∷ ps else p ∷ rest

unfoldable pub in_order : List Observation → List Observation
unfolding insert_observation
in_order [] = []
in_order (o ∷ os) = insert_observation o (in_order os)

abbrev pub waits_in_logs : Logs → List Interval
waits_in_logs logs = wait_spans logs.variants

abbrev compile_stamps : List Compile → List ℕ
compile_stamps [] = []
compile_stamps (c ∷ cs) = c.start_ns ∷ c.end_ns ∷ compile_stamps cs

abbrev observation_ends : List Observation → List ℕ
observation_ends [] = []
observation_ends (o ∷ os) =
    let rest = observation_ends os in elim o.end_ns [ none ↦ rest | some t ↦ t ∷ rest ]

abbrev pub others : Logs → List ℕ
others logs =
    logs.present
    ++ (compile_stamps logs.compiles ++ (observation_ends logs.observations ++ logs.stamps))

abbrev pub timestamps : Logs → List ℕ
timestamps logs = map (λ (o : Observation). o.stamp) logs.observations ++ others logs

-- `min(timestamps) if timestamps else 0`
abbrev minimum : List ℕ → ℕ
minimum [] = 0
minimum (t ∷ ts) = elim ts [ [] ↦ t | _ ∷ _ ↦ min t (minimum ts) ]

abbrev pub start_of : Logs → Option ℕ → ℕ
start_of logs none = minimum (timestamps logs)
start_of logs (some start) = start

abbrev pub finish_of : Logs → ℕ → ℕ
finish_of logs start = maximum (timestamps logs ++ (start ∷ []))

abbrev compile_span : Compile → Interval
compile_span c = (c.start_ns, c.end_ns)

abbrev is_ordered : Compile → Bool
is_ordered c = leb c.start_ns c.end_ns

abbrev is_deserialize : Compile → Bool
is_deserialize c = elim c.kind [ deserialize ↦ true | _ ↦ false ]

abbrev is_shaders : Compile → Bool
is_shaders c = elim c.kind [ shaders ↦ true | _ ↦ false ]

abbrev spans_of : (Compile → Bool) → List Compile → List Interval
spans_of p compiles = map compile_span (select (λ c. p c && is_ordered c) compiles)

abbrev is_menu_after : Observation → Observation → Bool
is_menu_after previous current =
    menu_observation previous.text
    && (menu_observation current.text
        && (ltb previous.stamp current.stamp && leb (current.stamp - previous.stamp) 10000000000))

-- The second of the first two menus that follow one another within ten seconds.
unfoldable pub menu_in : List Observation → Option ℕ
menu_in [] = none
menu_in (o ∷ os) = elim os [
  | [] ↦ none
  | p ∷ _ ↦ let later = menu_in os in if is_menu_after o p then some p.stamp else later
]

abbrev is_lap : Text → Bool
is_lap raw =
    let text = upper raw in
    contains (codes "BOONTA") text
    && (contains (codes "LAP") text && not (contains (codes "PAUSED") text))

unfoldable pub gameplay_in : List Observation → Option ℕ
gameplay_in [] = none
gameplay_in (o ∷ os) = let later = gameplay_in os in if is_lap o.text then some o.stamp else later

pub data PhaseName : Type 0 where
  startup menu_observed gameplay_observed : PhaseName

abbrev pub Boundary : Type 0
Boundary = PhaseName × ℕ

abbrev pub boundary_at : ℕ → PhaseName → Option ℕ → List Boundary
boundary_at start name none = []
boundary_at start name (some t) = if leb start t then (name, t) ∷ [] else []

-- `boundaries.sort(key=lambda item: item[1])`
unfoldable pub insert_boundary : Boundary → List Boundary → List Boundary
insert_boundary b [] = b ∷ []
insert_boundary b (c ∷ cs) =
    let rest = insert_boundary b cs in if leb b.1 c.1 then b ∷ c ∷ cs else c ∷ rest

unfoldable pub sort_boundaries : List Boundary → List Boundary
unfolding insert_boundary
sort_boundaries [] = []
sort_boundaries (b ∷ bs) = insert_boundary b (sort_boundaries bs)

unfoldable pub boundaries : ℕ → List Observation → List Boundary
unfolding menu_in gameplay_in
boundaries start os =
    (startup, start)
    ∷ (boundary_at start menu_observed (menu_in os)
        ++ boundary_at start gameplay_observed (gameplay_in os))

-- `compilation_work`
pub record CompilationWork : Type 0 where
  pub native_library : Summary
  pub shader_deserialization : Summary
  pub shader_compile_calls : Summary

unfoldable pub compilation_work : Logs → (start end : ℕ) → CompilationWork
compilation_work logs start end = record {
  native_library = duration_summary logs.libraries start end;
  shader_deserialization = duration_summary (spans_of is_deserialize logs.compiles) start end;
  shader_compile_calls = duration_summary (spans_of is_shaders logs.compiles) start end;
}

abbrev pub count_within : (begin end : ℕ) → List ℕ → ℕ
count_within begin end times = length (select (λ t. leb begin t && ltb t end) times)

pub record Phase : Type 0 where
  pub phase : PhaseName
  pub start_ns : ℕ
  pub end_ns : ℕ
  pub present_count : ℕ
  pub completed_compiles : ℕ
  pub draw_wait_union_ns : ℕ
  pub compilation_work : CompilationWork

unfoldable pub phase_of : Logs → PhaseName → (begin end : ℕ) → Phase
unfolding compilation_work points_of
phase_of logs name begin end = record {
  phase = name;
  start_ns = begin;
  end_ns = end;
  present_count = count_within begin end (points_of logs.present);
  completed_compiles = count_within begin end (map (λ (c : Compile). c.end_ns) logs.compiles);
  draw_wait_union_ns = union_ns (waits_in_logs logs) begin end;
  compilation_work = compilation_work logs begin end;
}

abbrev pub next_time : ℕ → List Boundary → ℕ
next_time finish [] = finish
next_time finish (b ∷ bs) = b.1

unfoldable pub phases_from : Logs → (finish : ℕ) → List Boundary → List Phase
unfolding phase_of
phases_from logs finish [] = []
phases_from logs finish (b ∷ bs) =
    phase_of logs b.0 b.1 (next_time finish bs) ∷ phases_from logs finish bs

pub record Gap : Type 0 where
  pub start_ns : ℕ
  pub end_ns : ℕ
  pub duration_ns : ℕ
  pub draw_wait_overlap_ns : ℕ
  pub outside_logged_draw_waits_ns : ℕ
  pub draw_compile_overlap_ns : ℕ
  pub metal_overlap_ns : ℕ
  pub metal_completed : ℕ
  pub compilation_work : CompilationWork

unfoldable pub gap_of : Logs → (left right : ℕ) → Gap
unfolding compilation_work
gap_of logs left right =
    let covered = union_ns (waits_in_logs logs) left right in
    record {
      start_ns = left;
      end_ns = right;
      duration_ns = right - left;
      draw_wait_overlap_ns = covered;
      outside_logged_draw_waits_ns = right - left - covered;
      draw_compile_overlap_ns =
          union_ns (spans_of (λ (c : Compile). c.is_draw) logs.compiles) left right;
      metal_overlap_ns = union_ns logs.metal left right;
      metal_completed = length (select (λ t. ltb left t && leb t right) logs.metal_ends);
      compilation_work = compilation_work logs left right;
    }

-- The loop over the frames and the frames that follow them.
unfoldable pub gaps_from : Logs → (start left : ℕ) → List ℕ → List Gap
unfolding gap_of
gaps_from logs start left [] = []
gaps_from logs start left (right ∷ frames) =
    let begin = max left start in
    let rest = gaps_from logs start right frames in
    if ltb right (begin + 2000000000) then rest else gap_of logs begin right ∷ rest

abbrev pub gaps_between : Logs → ℕ → List ℕ → List Gap
gaps_between logs start [] = []
gaps_between logs start (p ∷ ps) = gaps_from logs start p ps

-- `sorted(gaps, key=…, reverse=True)`
unfoldable pub insert_gap : Gap → List Gap → List Gap
insert_gap g [] = g ∷ []
insert_gap g (h ∷ hs) =
    let rest = insert_gap g hs in if leb h.duration_ns g.duration_ns then g ∷ h ∷ hs else h ∷ rest

unfoldable pub longest_first : List Gap → List Gap
unfolding insert_gap
longest_first [] = []
longest_first (g ∷ gs) = insert_gap g (longest_first gs)

-- `next(iter, None)`
abbrev first_of : List ℕ → Option ℕ
first_of [] = none
first_of (t ∷ ts) = some t

-- What the report says of the times.
pub record Times : Type 0 where
  pub start_ns : ℕ
  pub end_ns : ℕ
  pub menu_observed_ns : Option ℕ
  pub gameplay_observed_ns : Option ℕ
  pub phases : List Phase
  pub first_present_ns : Option ℕ
  pub present_count : ℕ
  pub draw_wait_count : ℕ
  pub draw_wait_union_ns : ℕ
  pub wait_attribution : Option Attribution
  pub compilation_work : CompilationWork
  pub gaps : List Gap

unfoldable pub times_of : Logs → Option ℕ → Times
unfolding attribute_waits compilation_work phases_from gaps_from longest_first in_order menu_in
    gameplay_in boundaries sort_boundaries points_of
times_of logs caller =
    let start = start_of logs caller in
    let finish = finish_of logs start in
    let os = in_order logs.observations in
    let frames = points_of logs.present in
    record {
      start_ns = start;
      end_ns = finish;
      menu_observed_ns = menu_in os;
      gameplay_observed_ns = gameplay_in os;
      phases = phases_from logs finish (sort_boundaries (boundaries start os));
      first_present_ns = first_of (select (leb start) frames);
      present_count = length (select (leb start) frames);
      draw_wait_count = length (select (λ (w : Interval). ltb start w.1) (waits_in_logs logs));
      draw_wait_union_ns = union_ns (waits_in_logs logs) start finish;
      wait_attribution = attribute_waits logs.variants start finish logs.cache;
      compilation_work = compilation_work logs start finish;
      gaps = longest_first (gaps_between logs start frames);
    }
