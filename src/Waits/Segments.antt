-- ===== src/Waits/Segments.antt =====
-- The rest of attribute_waits of runtime/kosmickrisp/investigation_analysis.py: the time of a wait is cut
-- at the ends of its work and its queueing, and each part is put down to one phase, to the queue, or to
-- nothing that is known. A Counter is a list of keys with their sums.
use winecx_gptk.Common.{
  ℕ, ◌+◌, ◌-◌, Bool, true, false, not, ◌&&◌, Option, none, some, List, [], ◌∷◌, ◌++◌, map, ◌==◌,
  ltb, leb, max, min, any, all, select, if◌then◌else◌,
}
use winecx_gptk.Common.Text.{Text}
use winecx_gptk.Intervals.{Interval, sum}
use winecx_gptk.Waits.{
  Phase, archive_load, archive_lookup, native_create, fs_prepare, pso_create, enqueue, complete,
  worker_start, Event, is_id, same_id,
}

-- `sorted(set(points))`
unfoldable pub insert_point : ℕ → List ℕ → List ℕ
insert_point x [] = x ∷ []
insert_point x (y ∷ ys) =
    let rest = insert_point x ys in
    if ltb x y then x ∷ y ∷ ys else if x == y then y ∷ ys else y ∷ rest

unfoldable pub points_of : List ℕ → List ℕ
unfolding insert_point
points_of [] = []
points_of (x ∷ xs) = insert_point x (points_of xs)

-- The place of a phase in WORK_PHASES.
abbrev pub rank : Phase → Option ℕ
rank p = elim p [
  | archive_load ↦ some 0
  | archive_lookup ↦ some 1
  | native_create ↦ some 2
  | fs_prepare ↦ some 3
  | pso_create ↦ some 4
  | _ ↦ none
]

pub record Work : Type 0 where
  pub span : Interval
  pub rank : ℕ
  pub event : Event

abbrev pub work_of_event : ℕ → ℕ → Event → Option ℕ → List Work
work_of_event left right e none = []
work_of_event left right e (some r) =
    if ltb left e.end_ns && ltb e.start_ns right
    then record { span = (max left e.start_ns, min right e.end_ns); rank = r; event = e } ∷ []
    else []

unfoldable pub work_in : (left right : ℕ) → List Event → List Work
work_in left right [] = []
work_in left right (e ∷ es) = work_of_event left right e (rank e.phase) ++ work_in left right es

abbrev is_enqueue : Event → Bool
is_enqueue e = elim e.phase [ enqueue ↦ true | _ ↦ false ]

abbrev is_complete : Event → Bool
is_complete e = elim e.phase [ complete ↦ true | _ ↦ false ]

abbrev is_worker_start : Event → Bool
is_worker_start e = elim e.phase [ worker_start ↦ true | _ ↦ false ]

abbrev starts : List Event → List ℕ
starts = map (λ (e : Event). e.start_ns)

-- `min(times, default=…)`
abbrev earliest : ℕ → List ℕ → ℕ
earliest default [] = default
earliest default (t ∷ ts) = elim ts [ [] ↦ t | _ ∷ _ ↦ min t (earliest default ts) ]

abbrev pub next_or : ℕ → List ℕ → ℕ
next_or default [] = default
next_or default (t ∷ ts) = t

-- The time in the queue, if exactly one worker started.
abbrev pub in_queue_until : (left right queued_at : ℕ) → List ℕ → List Interval
in_queue_until left right queued_at [] = []
in_queue_until left right queued_at (_ ∷ _ ∷ _) = []
in_queue_until left right queued_at (d ∷ []) =
    if ltb left d && ltb queued_at right then (max left queued_at, min right d) ∷ [] else []

abbrev pub workers : List Event → (queued_at next : ℕ) → List ℕ
workers own queued_at next =
    let completes = select (λ t. leb queued_at t && ltb t next) (starts (select is_complete own)) in
    let boundary = earliest next completes in
    points_of
      (select (λ t. leb queued_at t && leb t boundary) (starts (select is_worker_start own)))

unfoldable pub queue_from : (left right end : ℕ) → List Event → List ℕ → List Interval
unfolding points_of
queue_from left right end own [] = []
queue_from left right end own (q ∷ qs) =
    in_queue_until left right q (workers own q (next_or (end + 1) qs))
    ++ queue_from left right end own qs

abbrev pub enqueues : List Event → List ℕ
enqueues own = points_of (starts (select is_enqueue own))

abbrev pub own_events : List Event → Option Text → List Event
own_events events none = []
own_events events (some key) = select (λ e. is_id key e.request_id) events

unfoldable pub queue_in : (left right end : ℕ) → List Event → Option Text → List Interval
unfolding queue_from
queue_in left right end events key =
    let own = own_events events key in queue_from left right end own (enqueues own)

pub data Label : Type 0 where
  unresolved queued : Label
  spent : ℕ → Label

pub data Unresolved : Type 0 where
  queue_and_active_work_overlap ambiguous_active_events no_unique_correlated_interval : Unresolved

pub record Verdict : Type 0 where
  pub label : Label
  pub reason : Option Unresolved
  pub stops : Bool

abbrev pub spans : ℕ → ℕ → Interval → Bool
spans begin finish (a, b) = leb a begin && leb finish b

abbrev pub best_rank : ℕ → List Work → ℕ
best_rank r [] = r
best_rank r (w ∷ ws) = min w.rank (best_rank r ws)

abbrev same_signature : Event → Event → Bool
same_signature e f =
    same_id e.request_id f.request_id
    && (e.start_ns == f.start_ns && (e.end_ns == f.end_ns && e.thread_id == f.thread_id))

abbrev one_signature : List Work → Bool
one_signature [] = false
one_signature (w ∷ ws) = all (λ v. same_signature w.event v.event) ws

abbrev pub lacks_id : Work → Bool
lacks_id w = not w.event.has_request_id

abbrev pub of_best : List Work → Verdict
of_best [] = record { label = unresolved; reason = none; stops = false }
of_best (w ∷ ws) =
    let best = best_rank w.rank ws in
    let candidates = select (λ v. v.rank == best) (w ∷ ws) in
    if any lacks_id candidates
    then record { label = unresolved; reason = none; stops = true }
    else if one_signature candidates
    then record { label = spent best; reason = none; stops = false }
    else record { label = unresolved; reason = some ambiguous_active_events; stops = false }

-- `stops`: the id of a candidate without the key is read, which raises a KeyError.
abbrev pub judge : List Work → Bool → Verdict
judge [] true = record { label = queued; reason = none; stops = false }
judge [] false = record {
  label = unresolved;
  reason = some no_unique_correlated_interval;
  stops = false;
}
judge (w ∷ ws) true = record {
  label = unresolved;
  reason = some queue_and_active_work_overlap;
  stops = false;
}
judge (w ∷ ws) false = of_best (w ∷ ws)

pub record Segment : Type 0 where
  pub begin : ℕ
  pub finish : ℕ
  pub verdict : Verdict

unfoldable pub segment : List Work → List Interval → (begin finish : ℕ) → Segment
segment works queue begin finish = record {
  begin = begin;
  finish = finish;
  verdict = judge (select (λ w. spans begin finish w.span) works) (any (spans begin finish) queue);
}

-- The parts between a point and the points after it.
unfoldable pub segments_from : List Work → List Interval → ℕ → List ℕ → List Segment
unfolding segment
segments_from works queue begin [] = []
segments_from works queue begin (p ∷ ps) =
    segment works queue begin p ∷ segments_from works queue p ps

abbrev pub ends : List Interval → List ℕ
ends [] = []
ends ((a, b) ∷ rest) = a ∷ b ∷ ends rest

abbrev pub cuts : (left right : ℕ) → List Work → List Interval → List ℕ
cuts left right works queue =
    points_of (left ∷ right ∷ ends (map (λ (w : Work). w.span) works ++ queue))

abbrev pub between : List Work → List Interval → List ℕ → List Segment
between works queue [] = []
between works queue (p ∷ ps) = segments_from works queue p ps

unfoldable pub segments_of : (left right : ℕ) → List Work → List Interval → List Segment
unfolding segments_from points_of
segments_of left right works queue = between works queue (cuts left right works queue)

abbrev pub same_label : Label → Label → Bool
same_label unresolved unresolved = true
same_label queued queued = true
same_label (spent r) (spent s) = r == s
same_label _ _ = false

abbrev pub same_reason : Unresolved → Unresolved → Bool
same_reason queue_and_active_work_overlap queue_and_active_work_overlap = true
same_reason ambiguous_active_events ambiguous_active_events = true
same_reason no_unique_correlated_interval no_unique_correlated_interval = true
same_reason _ _ = false

-- `counter[key] += time`
unfoldable pub add_time : {K : Type 0} → (K → K → Bool) → K → ℕ → List (K × ℕ) → List (K × ℕ)
add_time same k time [] = (k, time) ∷ []
add_time same k time ((m, n) ∷ rest) =
    let later = add_time same k time rest in
    if same k m then (m, n + time) ∷ rest else (m, n) ∷ later

-- A segment as the lists keep it: begin, finish, label.
pub record Part : Type 0 where
  pub begin : ℕ
  pub finish : ℕ
  pub label : Label

abbrev pub part_of : Segment → Part
part_of s = record { begin = s.begin; finish = s.finish; label = s.verdict.label }

unfoldable pub durations : List (Label × ℕ) → List Part → List (Label × ℕ)
unfolding add_time
durations counter [] = counter
durations counter (p ∷ ps) = durations (add_time same_label p.label (p.finish - p.begin) counter) ps

abbrev note_reason : Option Unresolved → ℕ → List (Unresolved × ℕ) → List (Unresolved × ℕ)
note_reason none time counter = counter
note_reason (some r) time counter = add_time same_reason r time counter

unfoldable pub reasons : List (Unresolved × ℕ) → List Segment → List (Unresolved × ℕ)
unfolding add_time
reasons counter [] = counter
reasons counter (s ∷ ss) = reasons (note_reason s.verdict.reason (s.finish - s.begin) counter) ss

-- `counter.get(label, 0)`
abbrev pub time_of : Label → List (Label × ℕ) → ℕ
time_of l [] = 0
time_of l ((m, n) ∷ rest) = if same_label l m then n else time_of l rest

-- `sum(counter.values())`
abbrev pub total_of : List (Label × ℕ) → ℕ
total_of counter = sum (map (λ (c : Label × ℕ). c.1) counter)
