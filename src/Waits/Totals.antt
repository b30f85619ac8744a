-- ===== src/Waits/Totals.antt =====
-- What attribute_waits of runtime/kosmickrisp/investigation_analysis.py reports of the time of the waits.
use mathlib.Core.Option
use mathlib.Core.Option.{some-injective}
use mathlib.Core.Path.{subst}
use winecx_gptk.Common.{
  Option, none, if◌then◌else◌, any, ℕ, ◌+◌, ◌≤◌, ◌<◌, true, false, ◌||◌, List, [], ◌∷◌, ◌++◌, map,
  min, max, AllOf, Bool-cases, some, inl, inr, ◌≡◌, refl, sym, ◌∙◌, ap, arith,
}
use winecx_gptk.Intervals.{union_ns}
use winecx_gptk.Intervals.Count.{count_in_congr}
use winecx_gptk.Intervals.Sorting.{covers}
use winecx_gptk.Intervals.Union.{union_ns-eq-count}
use winecx_gptk.Waits.{related_to, wait_spans, Event}
use winecx_gptk.Waits.Ends.{related_to_ends}
use winecx_gptk.Waits.Segments.{
  Label, unresolved, queued, spent, time_of, durations, total_of, Part, work_in, queue_in,
  segments_of, part_of,
}
use winecx_gptk.Waits.Named.{is_unnamed, work_in_named, segments_of_named, related_to_named}
use winecx_gptk.Waits.Report.{
  with_related, exclusive_segments, part_ends, Row, Wait, wait_of, is_counted, waits_of,
  all_segments, CacheEvent, Attribution, attribution, attribute_waits,
}
use winecx_gptk.Waits.Exclusive.{
  covered_by, total_of-durations, PartsWithin, total_of-exclusive_segments,
}
use winecx_gptk.Waits.Partition.{Between, segments_of-Tiles}

covers-append :
    (t : ℕ) (ps qs : List Part) → covered_by (ps ++ qs) t ≡ (covered_by ps t || covered_by qs t)
unfolding covers
covers-append t [] qs = refl
covers-append t (p ∷ ps) qs = let ih = covers-append t ps qs in ground arith

part_ends-append :
    (P : ℕ → Type 0) (ps qs : List Part)
    → AllOf P (part_ends ps)
    → AllOf P (part_ends qs)
    → AllOf P (part_ends (ps ++ qs))
part_ends-append P [] qs h k = k
part_ends-append P (p ∷ ps) qs h k = (h.0, (h.1.0, part_ends-append P ps qs h.1.1 k))

AllOf-weaken : (P Q : ℕ → Type 0) (xs : List ℕ) → ((x : ℕ) → P x → Q x) → AllOf P xs → AllOf Q xs
AllOf-weaken P Q [] f h = tt
AllOf-weaken P Q (x ∷ xs) f h = (f x h.0, AllOf-weaken P Q xs f h.1)

-- The times of the row add up to its duration.
abbrev pub IsSplit : Row → Type 0
IsSplit r = total_of r.exclusive_ns ≡ r.duration_ns

abbrev row_of : Wait → Row
row_of w = w.row

-- The waits that the loop has found in the events.
record Found (start end : ℕ) (es : List Event) (ws : List Wait) : Type 0 where
  cover : (t : ℕ) → start ≤ t → t < end → covered_by (all_segments ws) t ≡ covers (wait_spans es) t
  within : PartsWithin start end (all_segments ws)
  rows : AllOf IsSplit (map row_of ws)

module _ (events : List Event) (start end : ℕ) (e : Event) (es : List Event) where
  abbrev left : ℕ
  left = max start e.start_ns

  abbrev right : ℕ
  right = min end e.end_ns

  Found-cons :
      (related : List Event) (ws : List Wait)
      → is_counted start end e ≡ true
      → Found start end es ws
      → Found start end (e ∷ es) (wait_of events end e left right related ∷ ws)
  unfolding wait_of covers
  Found-cons related ws c f =
      let ordered : left < right = ground arith in
      let tiles = segments_of-Tiles left right end events related e.request_id ordered in
      let parts = map part_of (
        segments_of left right (work_in left right related)
          (queue_in left right end events e.request_id)) in
      let total = total_of-durations [] parts in
      record {
        cover = λ t a b.
            let one = tiles.cover t in
            let rest = f.cover t a b in covers-append t parts (all_segments ws) ∙ ground arith;
        within =
            part_ends-append (Between start end) parts (all_segments ws)
              (AllOf-weaken (Between left right) (Between start end) (part_ends parts)
                (λ x h. (omega (arith, h.0), omega (arith, h.1))) tiles.within)
              f.within;
        rows = (omega (arith, total, tiles.total), f.rows);
      }

  Found-skip :
      (ws : List Wait)
      → is_counted start end e ≡ false
      → Found start end es ws
      → Found start end (e ∷ es) ws
  unfolding covers
  Found-skip ws c f = record {
    cover = λ t a b. let rest = f.cover t a b in ground arith;
    within = f.within;
    rows = f.rows;
  }

abbrev IfFound : ℕ → ℕ → List Event → Option (List Wait) → Type 0
IfFound start end es none = Unit {0}
IfFound start end es (some ws) = Found start end es ws

with_related-IfFound :
    (events : List Event) (start end : ℕ) (e : Event) (es : List Event)
    (related : Option (List Event)) (rest : Option (List Wait))
    → is_counted start end e ≡ true
    → IfFound start end es rest
    → IfFound start end
        (e ∷ es)
        (with_related events end e (max start e.start_ns) (min end e.end_ns) related rest)
with_related-IfFound events start end e es none none c f = tt
with_related-IfFound events start end e es none (some ws) c f = tt
with_related-IfFound events start end e es (some related) none c f = tt
with_related-IfFound events start end e es (some related) (some ws) c f =
    let w = wait_of events end e (max start e.start_ns) (min end e.end_ns) related in
    elim (Bool-cases w.stops) [
      | inl b ↦
          subst (λ b. IfFound start end (e ∷ es) (if b then none else some (w ∷ ws))) (sym b) tt
      | inr b ↦
          subst (λ b. IfFound start end (e ∷ es) (if b then none else some (w ∷ ws))) (sym b)
            (Found-cons events start end e es related ws c f)
    ]

skip-IfFound :
    (events : List Event) (start end : ℕ) (e : Event) (es : List Event) (rest : Option (List Wait))
    → is_counted start end e ≡ false
    → IfFound start end es rest
    → IfFound start end (e ∷ es) rest
skip-IfFound events start end e es none c f = tt
skip-IfFound events start end e es (some ws) c f = Found-skip events start end e es ws c f

waits_of-IfFound :
    (events : List Event) (start end : ℕ) (es : List Event)
    → IfFound start end es (waits_of events start end es)
unfolding waits_of
waits_of-IfFound events start end [] = record {
  cover = λ t a b. unfold covers in refl;
  within = tt;
  rows = tt;
}
waits_of-IfFound events start end (e ∷ es) =
    let ih = waits_of-IfFound events start end es in
    let rest = waits_of events start end es in
    let l = max start e.start_ns in
    let r = min end e.end_ns in
    let related = related_to events e e.request_id l r in
    elim (Bool-cases (is_counted start end e)) [
      | inl c ↦
          subst
            (λ b.
              IfFound start end (e ∷ es)
                (if b then with_related events end e l r related rest else rest))
            (sym c) (with_related-IfFound events start end e es related rest c ih)
      | inr c ↦
          subst
            (λ b.
              IfFound start end (e ∷ es)
                (if b then with_related events end e l r related rest else rest))
            (sym c) (skip-IfFound events start end e es rest c ih)
    ]

wait_of_named :
    (events : List Event) (end : ℕ) (e : Event) (left right : ℕ) (related : List Event)
    → any is_unnamed related ≡ false
    → (wait_of events end e left right related).stops ≡ false
unfolding wait_of
wait_of_named events end e left right related h =
    segments_of_named (work_in left right related) (queue_in left right end events e.request_id)
      (work_in_named left right related h) left right

waits_of_ends :
    (events : List Event) (start end : ℕ) (es : List Event)
    → any is_unnamed events ≡ false
    → (ws : List Wait) × (waits_of events start end es ≡ some ws)
unfolding waits_of
waits_of_ends events start end [] h = ([], refl)
waits_of_ends events start end (e ∷ es) h =
    let ih = waits_of_ends events start end es h in
    let l = max start e.start_ns in
    let r = min end e.end_ns in
    let search = related_to_ends events e e.request_id l r in
    let w = wait_of events end e l r search.0 in
    let goes =
      wait_of_named events end e l r search.0
        (related_to_named events e e.request_id l r search.0 h search.1) in
    elim (Bool-cases (is_counted start end e)) [
      | inl c ↦ (w ∷ ih.0, ground (arith, search.1, ih.1, c, goes))
      | inr c ↦ (ih.0, ground (arith, ih.1, c))
    ]

-- If every event of a work phase has the key of a request id (it may be null), attribute_waits
-- returns a report: no segment raises, and the loop over the events and every search for the
-- events that belong to a wait come to an end with the fuel `enough`.
pub attribute_waits_ends :
    (events : List Event) (start end : ℕ) (cache : List CacheEvent)
    → any is_unnamed events ≡ false
    → (r : Attribution) × (attribute_waits events start end cache ≡ some r)
unfolding attribute_waits
attribute_waits_ends events start end cache h =
    let f = waits_of_ends events start end events h in
    (attribution cache f.0, ap (Option.map (attribution cache)) f.1)

-- The waits that the report is made of.
record Reported (start end : ℕ) (events : List Event) (cache : List CacheEvent) (r : Attribution)
    : Type 0 where
  waits : List Wait
  made : attribution cache waits ≡ r
  found : Found start end events waits

report_from :
    (start end : ℕ) (events : List Event) (cache : List CacheEvent) (r : Attribution)
    (o : Option (List Wait))
    → Option.map (attribution cache) o ≡ some r
    → IfFound start end events o
    → Reported start end events cache r
report_from start end events cache r none h f = absurd cc
report_from start end events cache r (some ws) h f = record {
  waits = ws;
  made = some-injective _ _ h;
  found = f;
}

reported :
    (events : List Event) (start end : ℕ) (cache : List CacheEvent) (r : Attribution)
    → attribute_waits events start end cache ≡ some r
    → Reported start end events cache r
unfolding attribute_waits
reported events start end cache r h =
    report_from start end events cache r (waits_of events start end events) h
      (waits_of-IfFound events start end events)

-- If attribute_waits returns a report, its `draw_wait_union_ns`, which is added up from the
-- labels of the exclusive segments, is what `union_ns` measures in the window of the intervals of
-- the draws that wait: no time is counted twice, and none is lost.
pub attribute_waits-eq-union_ns :
    (events : List Event) (start end : ℕ) (cache : List CacheEvent) (r : Attribution)
    → attribute_waits events start end cache ≡ some r
    → r.draw_wait_union_ns ≡ union_ns (wait_spans events) start end
unfolding attribution
attribute_waits-eq-union_ns events start end cache r h =
    let f = reported events start end cache r h in
    let ss = all_segments f.waits in
    let total = total_of-exclusive_segments start end ss f.found.within in
    let same =
      count_in_congr (covered_by ss) (covers (wait_spans events)) {a = start} {b = end}
        f.found.cover in
    ap (λ (r : Attribution). r.draw_wait_union_ns) (sym f.made)
    ∙ total
    ∙ same
    ∙ sym (union_ns-eq-count (wait_spans events) start end)

time_of-le : (l : Label) (c : List (Label × ℕ)) → time_of l c ≤ total_of c
time_of-le l [] = omega arith
time_of-le l ((m, n) ∷ c) = let ih = time_of-le l c in ground arith

times_of-le : (c : List (Label × ℕ)) → time_of queued c + time_of unresolved c ≤ total_of c
times_of-le [] = omega arith
times_of-le ((queued, n) ∷ c) = let u = time_of-le unresolved c in omega (arith, u)
times_of-le ((unresolved, n) ∷ c) = let q = time_of-le queued c in omega (arith, q)
times_of-le ((spent r, n) ∷ c) = let ih = times_of-le c in omega (arith, ih)

-- If attribute_waits returns a report, in every row of `waits` the exclusive times of the labels
-- add up to the duration of the wait, and the queued, the active and the unresolved time of the
-- report add up to its `draw_wait_union_ns`.
pub attribute_waits-IsSplit :
    (events : List Event) (start end : ℕ) (cache : List CacheEvent) (r : Attribution)
    → attribute_waits events start end cache ≡ some r
    → AllOf IsSplit r.waits
      × (r.queued_ns + r.active_work_ns + r.unresolved_ns ≡ r.draw_wait_union_ns)
unfolding attribution
attribute_waits-IsSplit events start end cache r h =
    let f = reported events start end cache r h in
    let le = times_of-le (durations [] (exclusive_segments (all_segments f.waits))) in
    subst
      (λ (a : Attribution).
        AllOf IsSplit a.waits
        × (a.queued_ns + a.active_work_ns + a.unresolved_ns ≡ a.draw_wait_union_ns))
      f.made (f.found.rows, omega (arith, le))
