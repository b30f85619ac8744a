-- ===== src/Waits.antt =====
-- attribute_waits and exclusive_segments of runtime/kosmickrisp/investigation_analysis.py: what the time
-- that draws wait for pipelines is spent on. Waits has the events that belong to a wait,
-- Waits/Segments what the parts of its time are put down to.
mod Ends
pub mod Segments
pub mod Report
pub mod Points
mod Partition
pub mod Exclusive
pub mod Named
pub mod Totals
mod Tests
use winecx_gptk.Common.{
  ℕ, zero, suc, ◌+◌, ◌*◌, Bool, true, false, not, ◌&&◌, ◌||◌, Option, none, some, List, [], ◌∷◌,
  ◌++◌, ◌==◌, ltb, any, select, length, if◌then◌else◌,
}
use winecx_gptk.Common.Text.{Text, text_eq}
use winecx_gptk.Intervals.{Interval}

-- WAIT_PHASES, then WORK_PHASES in their order, then the phases of a queue.
pub data Phase : Type 0 where
  pso_wait fs_wait raster_wait : Phase
  archive_load archive_lookup native_create fs_prepare pso_create : Phase
  enqueue complete worker_start other_phase : Phase

abbrev pub is_wait : Phase → Bool
is_wait p = elim p [ pso_wait ↦ true | fs_wait ↦ true | raster_wait ↦ true | _ ↦ false ]

-- An event that has an interval, with its place in the list. An id that is missing or null is
-- `none`, and no id is empty; `has_request_id` tells whether the key of the request id is there.
pub record Event : Type 0 where
  pub number : ℕ
  pub request_id : Option Text
  pub has_request_id : Bool
  pub parent_id : Option Text
  pub family_id : Option Text
  pub is_draw : Bool
  pub phase : Phase
  pub thread_id : ℕ
  pub start_ns : ℕ
  pub end_ns : ℕ

-- The intervals of the draws that wait.
abbrev pub wait_spans : List Event → List Interval
wait_spans [] = []
wait_spans (e ∷ es) =
    let rest = wait_spans es in
    if e.is_draw && is_wait e.phase then (e.start_ns, e.end_ns) ∷ rest else rest

abbrev pub is_id : Text → Option Text → Bool
is_id t none = false
is_id t (some s) = text_eq t s

abbrev pub same_id : Option Text → Option Text → Bool
same_id none none = true
same_id (some s) (some t) = text_eq s t
same_id _ _ = false

abbrev pub member : Text → List Text → Bool
member t = any (text_eq t)

abbrev pub parent_seen : Option Text → List Text → Bool
parent_seen none visited = false
parent_seen (some p) visited = member p visited

-- `by_id[parent] + children[parent]`
unfoldable pub family : List Event → Text → List Event
family events parent =
    select (λ e. is_id parent e.request_id) events
    ++ select (λ e. is_id parent e.parent_id && not (same_id e.parent_id e.request_id)) events

-- The search for what belongs to a wait. `pending` has the id that is taken next first.
pub record Search : Type 0 where
  pub pending : List Text
  pub visited : List Text
  pub shared : List Text
  pub related : List Event

abbrev pub other_family : Option Text → Option Text → Bool
other_family (some f) (some g) = not (text_eq f g)
other_family _ _ = false

abbrev add_shared : Option Text → List Text → List Text
add_shared none shared = shared
add_shared (some t) shared = t ∷ shared

-- `related[number] = event`
abbrev add_related : Event → List Event → List Event
add_related e related =
    if any (λ r. r.number == e.number) related then related else related ++ (e ∷ [])

abbrev push_child : Text → Event → Option Text → List Text → List Text
push_child parent e none pending = pending
push_child parent e (some t) pending =
    if is_id parent e.parent_id && not (text_eq t parent) then t ∷ pending else pending

module _ (wait : Event) (key : Text) (left right : ℕ) where
  -- The event passes the three tests of the inner loop.
  abbrev pub belongs : Text → Event → Search → Bool
  belongs parent e s =
      not (ltb e.end_ns left || ltb right e.start_ns)
      && ((text_eq parent key || (member parent s.shared || parent_seen e.parent_id s.visited))
          && (member parent s.shared || not (other_family wait.family_id e.family_id)))

  abbrev take_event : Text → Event → Search → Search
  take_event parent e s = record s {
    related = add_related e s.related;
    shared =
        if is_wait e.phase && not (is_id key e.request_id)
        then add_shared e.request_id s.shared
        else s.shared;
    pending = push_child parent e e.request_id s.pending;
  }

  unfoldable pub scan : Text → List Event → Search → Search
  scan parent [] s = s
  scan parent (e ∷ es) s = scan parent es (if belongs parent e s then take_event parent e s else s)

  -- The `while` loop; `none` if the fuel runs out.
  unfoldable pub search : List Event → ℕ → Search → Option (List Event)
  unfolding scan family
  search events zero s = elim s.pending [ [] ↦ some s.related | _ ∷ _ ↦ none ]
  search events (suc fuel) s = elim s.pending [
    | [] ↦ some s.related
    | parent ∷ rest ↦
        if member parent s.visited
        then search events fuel (record s { pending = rest })
        else search events fuel (
            scan parent (family events parent)
              (record s { pending = rest; visited = parent ∷ s.visited }))
  ]

-- Each id is expanded once, and an expansion pushes at most two ids for each event.
abbrev pub enough : List Event → ℕ
enough events = suc (length events) * suc (length events + length events) + 1

-- A wait without an id has no related events.
unfoldable pub related_to :
    List Event → Event → Option Text → (left right : ℕ) → Option (List Event)
unfolding search
related_to events wait none left right = some []
related_to events wait (some key) left right =
    search wait key left right events (enough events)
      (record { pending = key ∷ []; visited = []; shared = []; related = [] })
