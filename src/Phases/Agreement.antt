-- ===== src/Phases/Agreement.antt =====
-- The two measures of the waits in the report of analyze_run of
-- runtime/kosmickrisp/investigation_analysis.py.
use mathlib.Core.Option
use winecx_gptk.Common.{false, any, ℕ, Option, some, ◌≡◌, ◌∙◌, ap}
use winecx_gptk.Waits.Named.{is_unnamed}
use winecx_gptk.Waits.Report.{Attribution}
use winecx_gptk.Waits.Totals.{attribute_waits_ends, attribute_waits-eq-union_ns}
use winecx_gptk.Phases.{Logs, start_of, finish_of, times_of}

-- If every event of a work phase in variants.jsonl has the key of a request id (it may be null),
-- the report of analyze_run has one time for the waits of draws: the `draw_wait_union_ns` that
-- `union_ns` measures for the run is the one that attribute_waits adds up from its segments.
pub times_of-agrees :
    (logs : Logs) (caller : Option ℕ)
    → any is_unnamed logs.variants ≡ false
    → let r = times_of logs caller in
      Option.map (λ (a : Attribution). a.draw_wait_union_ns) r.wait_attribution
      ≡ some r.draw_wait_union_ns
unfolding times_of
times_of-agrees logs caller h =
    let start = start_of logs caller in
    let finish = finish_of logs start in
    let made = attribute_waits_ends logs.variants start finish logs.cache h in
    let same = attribute_waits-eq-union_ns logs.variants start finish logs.cache made.0 made.1 in
    ap (Option.map (λ (a : Attribution). a.draw_wait_union_ns)) made.1 ∙ ap some same
