-- ===== src/Phases/Tests.antt =====
-- The times of analyze_run of runtime/kosmickrisp/investigation_analysis.py at concrete logs.
use mathlib.Core.Option
use winecx_gptk.Common.{ℕ, true, none, some, List, [], ◌∷◌, map, AllOf, ◌≡◌, refl}
use winecx_gptk.Common.Text.{codes, any_in, upper}
use winecx_gptk.Gameplay.Screen.{menu_observation}
use winecx_gptk.Intervals.{sort, union_from, union_ns}
use winecx_gptk.Waits.{pso_wait, Event}
use winecx_gptk.Waits.Report.{Attribution}
use winecx_gptk.Waits.Segments.{insert_point, points_of}
use winecx_gptk.Phases.{
  shaders, Logs, insert_observation, in_order, menu_in, gameplay_in, insert_boundary,
  sort_boundaries, boundaries, Phase, phase_of, phases_from, Gap, gap_of, gaps_from, insert_gap,
  longest_first, Times, times_of,
}
use winecx_gptk.Phases.Tiling.{IsDivided, waits_in, times_of-IsDivided}
use winecx_gptk.Phases.Agreement.{times_of-agrees}
use winecx_gptk.Phases.Gaps.{IsGap, times_of-gaps}

abbrev wait : ℕ → (left right : ℕ) → Event
wait number left right = record {
  number = number;
  request_id = some (codes "r");
  has_request_id = true;
  parent_id = none;
  family_id = none;
  is_draw = true;
  phase = pso_wait;
  thread_id = 1;
  start_ns = left;
  end_ns = right;
}

abbrev logs : Logs
logs = record {
  present = 1000000000 ∷ 9000000000 ∷ 1500000000 ∷ 4000000000 ∷ [];
  compiles =
      record { is_draw = true; kind = shaders; start_ns = 1600000000; end_ns = 1900000000 } ∷ [];
  variants =
      wait 0 1600000000 2600000000
      ∷ wait 1 2000000000 3000000000
      ∷ wait 2 4500000000 5000000000
      ∷ [];
  cache = [];
  metal = [];
  libraries = [];
  metal_ends = [];
  observations =
      record { stamp = 4000000000; end_ns = none; text = codes "Continue Game  Back" }
      ∷ record { stamp = 3000000000; end_ns = none; text = codes "Continue Game  Select" }
      ∷ [];
  stamps = [];
}

abbrev Shown : Type 0
Shown = List (ℕ × (ℕ × ℕ))

abbrev show_phases : Times → Shown
show_phases r = map (λ (p : Phase). (p.start_ns, (p.end_ns, p.draw_wait_union_ns))) r.phases

abbrev show_gaps : Times → Shown
show_gaps r = map (λ (g : Gap). (g.start_ns, (g.end_ns, g.draw_wait_overlap_ns))) r.gaps

abbrev expected_phases : Shown
expected_phases =
    (1000000000, (4000000000, 1400000000)) ∷ (4000000000, (9000000000, 500000000)) ∷ []

abbrev expected_gaps : Shown
expected_gaps = (4000000000, (9000000000, 500000000)) ∷ (1500000000, (4000000000, 1400000000)) ∷ []

phases_of_logs : show_phases (times_of logs none) ≡ expected_phases
unfolding times_of boundaries sort_boundaries insert_boundary in_order insert_observation menu_in
    gameplay_in phases_from phase_of menu_observation any_in upper union_ns union_from sort
    insert_point points_of
phases_of_logs = refl

gaps_of_logs : show_gaps (times_of logs none) ≡ expected_gaps
unfolding times_of gaps_from gap_of insert_gap longest_first union_ns union_from sort insert_point
    points_of
gaps_of_logs = refl

times_of-IsDivided_example :
    let r = times_of logs none in
    IsDivided logs r.start_ns r.end_ns r.phases × (waits_in r.phases ≡ r.draw_wait_union_ns)
times_of-IsDivided_example = times_of-IsDivided logs none

times_of-gaps_example :
    let r = times_of logs none in AllOf (IsGap r.start_ns (points_of logs.present)) r.gaps
times_of-gaps_example = times_of-gaps logs none

times_of-agrees_example :
    let r = times_of logs none in
    Option.map (λ (a : Attribution). a.draw_wait_union_ns) r.wait_attribution
    ≡ some r.draw_wait_union_ns
times_of-agrees_example = times_of-agrees logs none refl
