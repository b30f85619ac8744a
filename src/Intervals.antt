-- ===== src/Intervals.antt =====
-- Interval arithmetic on nanosecond stamps: union_ns and duration_summary of
-- runtime/kosmickrisp/investigation_analysis.py, overlap and covered of
-- runtime/kosmickrisp/stutter.py. An interval is a pair of stamps.
pub mod Count
pub mod Sorting
pub mod Union
pub mod Covered
pub mod Durations
mod Tests
use winecx_gptk.Common.{
  ℕ, ◌+◌, ◌-◌, Bool, false, ◌&&◌, ◌||◌, List, [], ◌∷◌, map, ltb, leb, ◌==◌, min, max, select,
  length, if◌then◌else◌,
}

abbrev pub Interval : Type 0
Interval = ℕ × ℕ

-- Python's order on pairs of numbers.
abbrev pub pair_le : Interval → Interval → Bool
pair_le (a, b) (c, d) = ltb a c || (a == c && leb b d)

unfoldable pub insert : Interval → List Interval → List Interval
insert x [] = x ∷ []
insert x (y ∷ ys) = let rest = insert x ys in if pair_le x y then x ∷ y ∷ ys else y ∷ rest

-- `sorted(intervals)`
unfoldable pub sort : List Interval → List Interval
unfolding insert
sort [] = []
sort (x ∷ xs) = insert x (sort xs)

-- The loop of `union_ns`.
unfoldable pub union_from : (start end cursor total : ℕ) → List Interval → ℕ
union_from start end cursor total [] = total
union_from start end cursor total ((l, r) ∷ rest) =
    let left = max (max l start) cursor in
    let right = min r end in
    let grown = union_from start end right (total + (right - left)) rest in
    let same = union_from start end cursor total rest in if ltb left right then grown else same

unfoldable pub union_ns : List Interval → (start end : ℕ) → ℕ
union_ns intervals start end = union_from start end start 0 (sort intervals)

-- `overlap` of stutter.py: `max(0, min(a_end, b_end) - max(a_start, b_start))`, where the
-- truncated difference of the naturals is the `max(0, …)`.
unfoldable pub overlap : (a_start a_end b_start b_end : ℕ) → ℕ
overlap a_start a_end b_start b_end = min a_end b_end - max a_start b_start

abbrev meets : ℕ → ℕ → Interval → Bool
meets a b (s, e) = ltb s b && ltb a e

abbrev clip : ℕ → ℕ → Interval → Interval
clip a b (s, e) = (max a s, min b e)

-- The loop of `covered`.
unfoldable pub covered_from : (total end : ℕ) → List Interval → ℕ
covered_from total end [] = total
covered_from total end ((s, e) ∷ rest) =
    let s' = max s end in
    let grown = covered_from (total + (e - s')) e rest in
    let same = covered_from total end rest in if ltb s' e then grown else same

-- `covered` of stutter.py
unfoldable pub covered : (a b : ℕ) → List Interval → ℕ
covered a b intervals = covered_from 0 a (sort (map (clip a b) (select (meets a b) intervals)))

pub record Summary : Type 0 where
  pub count : ℕ
  pub summed_duration_ns : ℕ
  pub union_duration_ns : ℕ
  pub maximum_duration_ns : ℕ

-- `right > start and left < end and right > left`
abbrev pub touches : ℕ → ℕ → Interval → Bool
touches start end (l, r) = ltb start r && (ltb l end && ltb l r)

unfoldable pub clipped : List Interval → ℕ → ℕ → List Interval
clipped intervals start end = map (clip start end) (select (touches start end) intervals)

abbrev pub width : Interval → ℕ
width (l, r) = r - l

abbrev pub sum : List ℕ → ℕ
sum [] = 0
sum (x ∷ xs) = x + sum xs

-- `max(durations, default=0)`
abbrev pub maximum : List ℕ → ℕ
maximum [] = 0
maximum (x ∷ xs) = max x (maximum xs)

unfoldable pub duration_summary : List Interval → (start end : ℕ) → Summary
unfolding clipped
duration_summary intervals start end =
    let inside = clipped intervals start end in
    let durations = map width inside in
    record {
      count = length durations;
      summed_duration_ns = sum durations;
      union_duration_ns = union_ns inside start end;
      maximum_duration_ns = maximum durations;
    }
