-- ===== src/Investigate/Guard/Tests.antt =====
-- `guard_run` of runtime/kosmickrisp/investigate.py on a run of two minutes.
use winecx_gptk.Common.{
  ℕ, ◌+◌, ◌*◌, ◌^◌, ◌++◌, true, false, none, some, List, [], ◌∷◌, ◌≡◌, ◌≢◌, refl,
}
use winecx_gptk.Common.Int.{pos}
use winecx_gptk.Common.Text.{Text, codes, lower, any_in}
use winecx_gptk.Investigate.Sampling.{gaps, sampling_reason}
use winecx_gptk.Investigate.Guard.Seen.{
  Plan, Controller, no_state, missing, state, seen, Tick, Ending, passed, invalid,
}
use winecx_gptk.Investigate.Guard.Ladder.{Start, rung}
use winecx_gptk.Investigate.Guard.Loop.{
  running, watch, begin, round, and_then, read_controller, judge, judged, sample_stack,
  take_inspection, paths_of, right_driver, note_finished, note_timed_out, overrun,
}
use winecx_gptk.Investigate.Guard.Verdict.{
  after_loop, conclude, exit_verdict, verified, within_deadline, without_present, report,
}
use winecx_gptk.Investigate.Guard.Run.{
  Launch, launch, Cleanup, guard_run, attempt, settle, finally_step, rule, restoration,
  cleanup_errors,
}
use winecx_gptk.Investigate.Guard.Passed.{GoodEnd, GoodCleanup}
use winecx_gptk.Investigate.Guard.Safety.{guard_run-passed, guard_run-faulty}
use winecx_gptk.Investigate.Guard.Deadline.{watch-deadline}
use winecx_gptk.Investigate.Tailing
use winecx_gptk.Investigate.Tailing.{
  update, read_file, lines, partial, drop, note_lines, stamp, stalled,
}

abbrev plan : Plan
plan = record {
  startup_seconds = none;
  sampling_policy = gaps;
  bundle = codes "/b";
  game_directory = codes "/g";
  has_dxvk = true;
}

abbrev clean_launch : Launch
clean_launch = record {
  game_already_running = false;
  prepare_error = none;
  child_error = none;
  identity_known = true;
  owner_error = none;
  controller_error = none;
  monitor_error = none;
}

abbrev start : Start
start = record { pid = 7; start_ns = 1000; start_uptime = 400 }

abbrev second : ℕ → ℕ
second n = n * 10 ^ 9

abbrev at_menu : Controller
at_menu = record no_state {
  menu_verified = true;
  menu_verified_ns = some (1000 + second 100);
  quit_requested_ns = some (1000 + second 100);
}

abbrev tick_at : ℕ → Tick
tick_at n = record {
  now_ns = 1000 + second n;
  uptime = 400 + second n;
  present_csv = some (codes "5000,1" ++ 10 ∷ codes "99900000000,1" ++ 10 ∷ []);
  compile_csv = none;
  controller = missing;
  serious = false;
  stop_request = false;
  controller_ended = false;
  stop_error = none;
  sampler_ended = false;
  sampler_stop_error = none;
  sample_error = none;
  inspection = none;
}

abbrev driver_lines : List Text
driver_lines =
    codes "p7"
    ∷ codes "n/b/libvulkan_kosmickrisp.dylib"
    ∷ codes "n/g/d3d11.dll"
    ∷ codes "n/g/dxgi.dll"
    ∷ codes "n/usr/lib/other"
    ∷ []

abbrev ticks : List Tick
ticks =
    record (tick_at 100) { inspection = some (seen true (7 ∷ []) driver_lines) }
    ∷ record (tick_at 101) { controller = state at_menu }
    ∷ []

abbrev ending : Ending
ending = record {
  end_ns = 1000 + second 110;
  present_csv = none;
  compile_csv = none;
  controller = missing;
  report_ns = 1000 + second 111;
}

abbrev clean : Cleanup
clean = record {
  sentinel_error = none;
  child_signal = none;
  controller_signal = none;
  sampler_signal = none;
  ui_group_error = none;
  child_reap = none;
  controller_reap = none;
  sampler_reap = none;
  child_alive = false;
  returncode = some (pos 0);
  restore_error = none;
  serious = false;
  incomplete = false;
}

run_passes : (guard_run plan clean_launch start ticks ending (pos 0) clean).outcome ≡ passed
unfolding guard_run attempt launch settle after_loop watch begin round and_then read_controller
    judged sample_stack take_inspection paths_of right_driver note_finished note_timed_out overrun
    conclude exit_verdict verified within_deadline without_present report finally_step rule
    restoration cleanup_errors rung judge sampling_reason lower update read_file lines partial drop
    note_lines stamp stalled Tailing.init any_in
run_passes = refl

guard_run-passed_example :
    GoodEnd plan start ticks ending (pos 0)
    × GoodCleanup clean_launch (guard_run plan clean_launch start ticks ending (pos 0) clean) clean
guard_run-passed_example =
    guard_run-passed plan clean_launch start ticks ending (pos 0) clean run_passes

guard_run-faulty_example :
    (guard_run plan clean_launch start ticks ending
      (pos 0)
      (record clean { restore_error = some (codes "owned_user_settings_changed") })).outcome
    ≡ invalid
guard_run-faulty_example =
    guard_run-faulty plan clean_launch start ticks ending (pos 0)
      (record clean { restore_error = some (codes "owned_user_settings_changed") }) refl

watch-deadline_example :
    watch start plan (tick_at 100 ∷ tick_at 600 ∷ []) (begin start) ≢ running (begin start)
watch-deadline_example =
    watch-deadline start plan (tick_at 100 ∷ tick_at 600 ∷ []) (refl, (refl, tt)) refl (begin start)
