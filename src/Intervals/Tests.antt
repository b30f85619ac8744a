-- ===== src/Intervals/Tests.antt =====
-- The interval functions at concrete inputs.
use winecx_gptk.Common.{◌-◌, ◌≤◌, ◌≡◌, refl, List, [], ◌∷◌, arith}
use winecx_gptk.Intervals.{
  Interval, sort, union_from, union_ns, covered_from, covered, overlap, duration_summary,
}
use winecx_gptk.Intervals.Count.{count_in}
use winecx_gptk.Intervals.Sorting.{covers}
use winecx_gptk.Intervals.Union.{union_ns-eq-count}
use winecx_gptk.Intervals.Covered.{covered-eq-union_ns}
use winecx_gptk.Intervals.Durations.{duration_summary_bounds}

abbrev waits : List Interval
waits = (50, 70) ∷ (10, 30) ∷ (20, 40) ∷ (65, 66) ∷ (90, 200) ∷ []

union-waits : union_ns waits 15 100 ≡ 55
unfolding union_ns union_from sort
union-waits = refl

covered-waits : covered 15 100 waits ≡ 55
unfolding covered covered_from sort
covered-waits = refl

overlap-apart : overlap 10 20 30 40 ≡ 0
unfolding overlap
overlap-apart = refl

union_ns-eq-count_example : union_ns waits 15 100 ≡ count_in (covers waits) 15 100
union_ns-eq-count_example = union_ns-eq-count waits 15 100

covered-eq-union_ns_example : covered 15 100 waits ≡ union_ns waits 15 100
covered-eq-union_ns_example = covered-eq-union_ns 15 100 waits

duration_summary_bounds_example :
    let s = duration_summary waits 15 100 in
    (s.maximum_duration_ns ≤ s.union_duration_ns)
    × (s.union_duration_ns ≤ s.summed_duration_ns)
    × (s.union_duration_ns ≤ 100 - 15)
duration_summary_bounds_example = duration_summary_bounds 15 100 (omega arith) waits
