-- ===== src/Investigate/Guard/Safety.antt =====
-- `guard_run` of runtime/kosmickrisp/investigate.py as a whole: what a passed run has behind it, and
-- which faults make a result invalid.
use winecx_gptk.Common.{
  Bool, true, false, not, is_some, ◌||◌, ◌&&◌, Option, none, some, List, [], ◌∷◌, ◌≡◌, refl, ap,
  sym, ◌∙◌, inl, inr, Bool-cases, arith,
}
use winecx_gptk.Common.Int.{ℤ}
use winecx_gptk.Investigate.Guard.Seen.{
  Plan, Tick, Ending, Reading, missing, unreadable, state, passed, invalid,
}
use winecx_gptk.Investigate.Guard.Ladder.{Start}
use winecx_gptk.Investigate.Guard.Loop.{
  Round, running, stopped, raised, watch, begin, Watch, SampleRecord, and_then, read_controller,
  update_progress,
}
use winecx_gptk.Investigate.Guard.Verdict.{after_loop, conclude, decide, exit_verdict}
use winecx_gptk.Investigate.Guard.Run.{
  Launch, Stop, launch, Cleanup, Attempt, settle, attempt, cleanup_errors, restoration, rule,
  finally_step, try_launched, guard_run, with_monitor,
}
use winecx_gptk.Investigate.Guard.Passed.{GoodEnd, GoodCleanup, settle-GoodEnd}

settle-monitored :
    (s : Start) (e : Ending) (r : Round)
    → (settle s e r).outcome ≡ passed
    → (settle s e r).phase ≡ with_monitor
unfolding settle
settle-monitored s e (running w) h = refl
settle-monitored s e (stopped w) h = refl
settle-monitored s e (raised _ w) h = refl

rule-passed :
    (a : Attempt) (c : Cleanup)
    → (rule a c).outcome ≡ passed
    → (a.outcome ≡ passed) × (restoration a c ≡ none) × (cleanup_errors a c ≡ [])
unfolding rule
rule-passed a c h = ground arith

try_launched-launched :
    (plan : Plan) (s : Start) (ts : List Tick) (e : Ending) (code : ℤ) (o : Option Stop)
    → (try_launched plan s ts e code o).outcome ≡ passed
    → (o ≡ none)
      × ((settle s e (after_loop s plan e code (watch s plan ts (begin s)))).outcome ≡ passed)
      × ((try_launched plan s ts e code o).phase ≡ with_monitor)
try_launched-launched plan s ts e code none h = (refl, h, settle-monitored s e _ h)
try_launched-launched plan s ts e code (some stop) h = absurd cc

finally_step-GoodCleanup :
    (l : Launch) (a : Attempt) (c : Cleanup)
    → launch l ≡ none
    → a.phase ≡ with_monitor
    → (rule a c).outcome ≡ passed
    → restoration a c ≡ none
    → cleanup_errors a c ≡ []
    → GoodCleanup l (finally_step a c) c
unfolding finally_step rule restoration
finally_step-GoodCleanup l a c launched phase h restored clean = record {
  launched = launched;
  restored = ground arith;
  ended = ground arith;
  no_errors = clean;
  healthy = ground arith;
  complete = ground arith;
}

-- A result is `passed` only if the launch went through, no round saw a sleep, a host fault or a stop
-- request, the game ended by itself with status 0, the controller saw the menu and asked for the quit
-- in this order since the start, the quit was less than 60 seconds before the end and the end before
-- the deadline, a first present was seen, an inspection found the driver of the plan loaded in the
-- launched process with no other game beside it, the profile was restored after the game's end, the
-- cleanup had no error, and the host evidence is complete and free of serious faults.
pub guard_run-passed :
    (plan : Plan) (l : Launch) (s : Start) (ts : List Tick) (e : Ending) (code : ℤ) (c : Cleanup)
    → (guard_run plan l s ts e code c).outcome ≡ passed
    → GoodEnd plan s ts e code × GoodCleanup l (guard_run plan l s ts e code c) c
unfolding guard_run attempt
guard_run-passed plan l s ts e code c h =
    let a = try_launched plan s ts e code (launch l) in
    let r = rule-passed a c h in
    let t = try_launched-launched plan s ts e code (launch l) r.0 in
    (settle-GoodEnd plan s ts e code t.1, finally_step-GoodCleanup l a c t.0 t.2 h r.1 r.2)

-- The launch raises: the game runs already, or a step has an error.
abbrev pub raises : Launch → Bool
raises l =
    l.game_already_running
    || (is_some l.prepare_error
        || (is_some l.child_error
            || (not l.identity_known
                || (is_some l.owner_error
                    || (is_some l.controller_error || is_some l.monitor_error)))))

-- The cleanup after a launch meets an error, a game that is still alive, or a host fault.
abbrev pub is_faulty : Cleanup → Bool
is_faulty c =
    is_some c.sentinel_error
    || (is_some c.child_signal
        || (is_some c.controller_signal
            || (is_some c.ui_group_error
                || (is_some c.child_reap
                    || (is_some c.controller_reap
                        || (c.child_alive || (is_some c.restore_error || c.serious)))))))

or_right : (a b : Bool) → a ≡ false → (a || b) ≡ true → b ≡ true
or_right a b h k = ground arith

launch-raises : (l : Launch) → raises l ≡ is_some (launch l)
unfolding launch
launch-raises l = ground arith

rule-faulty :
    (a : Attempt) (c : Cleanup)
    → a.phase ≡ with_monitor
    → is_faulty c ≡ true
    → (rule a c).outcome ≡ invalid
unfolding rule restoration cleanup_errors
rule-faulty a c h k = ground arith

rule-invalid : (a : Attempt) (c : Cleanup) → a.outcome ≡ invalid → (rule a c).outcome ≡ invalid
unfolding rule
rule-invalid a c h = ground arith

abbrev pub is_raised : Round → Bool
is_raised (raised _ _) = true
is_raised (running _) = false
is_raised (stopped _) = false

settle-phase : (s : Start) (e : Ending) (r : Round) → (settle s e r).phase ≡ with_monitor
unfolding settle
settle-phase s e (running w) = refl
settle-phase s e (stopped w) = refl
settle-phase s e (raised _ w) = refl

settle-is_raised :
    (s : Start) (plan : Plan) (e : Ending) (code : ℤ) (r : Round)
    → is_raised r ≡ true
    → (settle s e (after_loop s plan e code r)).outcome ≡ invalid
unfolding settle after_loop
settle-is_raised s plan e code (running w) h = absurd cc
settle-is_raised s plan e code (stopped w) h = absurd cc
settle-is_raised s plan e code (raised _ w) h = refl

-- The cleanup of a sampler meets an error.
abbrev pub is_sampler_faulty : Cleanup → Bool
is_sampler_faulty c = is_some c.sampler_signal || is_some c.sampler_reap

abbrev some_sample : List SampleRecord → Bool
some_sample [] = false
some_sample (_ ∷ _) = true

-- A sampler was started in the rounds.
abbrev pub has_sampled : Round → Bool
has_sampled (running w) = some_sample w.samples
has_sampled (stopped w) = some_sample w.samples
has_sampled (raised _ w) = some_sample w.samples

-- The loop went through, and the controller's state cannot be read after it.
abbrev pub is_lost : Round → Reading → Bool
is_lost (running _) (unreadable _) = true
is_lost _ _ = false

-- A fault of a launched run: of its rounds, of what follows them, or of the cleanup.
abbrev pub has_fault : Round → Ending → Cleanup → Bool
has_fault r e c =
    is_faulty c
    || (is_raised r || (is_lost r e.controller || (has_sampled r && is_sampler_faulty c)))

rule-sampler_faulty :
    (a : Attempt) (c : Cleanup)
    → some_sample a.samples ≡ true
    → is_sampler_faulty c ≡ true
    → (rule a c).outcome ≡ invalid
unfolding rule cleanup_errors
rule-sampler_faulty a c h k = ground arith

conclude-samples :
    (s : Start) (plan : Plan) (e : Ending) (code : ℤ) (w : Watch) (o : Reading)
    → (settle s e (
        and_then
          (read_controller o (update_progress e.present_csv e.compile_csv e.end_ns w))
          (λ w'. running (decide (exit_verdict s plan e.end_ns code w') w')))).samples
      ≡ w.samples
unfolding settle and_then read_controller
conclude-samples s plan e code w missing = refl
conclude-samples s plan e code w (unreadable _) = refl
conclude-samples s plan e code w (state _) = refl

-- No sample is lost on the way to the cleanup.
settle-samples :
    (s : Start) (plan : Plan) (e : Ending) (code : ℤ) (r : Round)
    → some_sample (settle s e (after_loop s plan e code r)).samples ≡ has_sampled r
unfolding settle after_loop conclude
settle-samples s plan e code (running w) =
    ap some_sample (conclude-samples s plan e code w e.controller)
settle-samples s plan e code (stopped w) = refl
settle-samples s plan e code (raised _ w) = refl

lost-invalid :
    (s : Start) (plan : Plan) (e : Ending) (code : ℤ) (w : Watch) (o : Reading)
    → is_lost (running w) o ≡ true
    → (settle s e (
        and_then
          (read_controller o (update_progress e.present_csv e.compile_csv e.end_ns w))
          (λ w'. running (decide (exit_verdict s plan e.end_ns code w') w')))).outcome
      ≡ invalid
unfolding settle and_then read_controller
lost-invalid s plan e code w missing h = absurd cc
lost-invalid s plan e code w (unreadable _) h = refl
lost-invalid s plan e code w (state _) h = absurd cc

settle-is_lost :
    (s : Start) (plan : Plan) (e : Ending) (code : ℤ) (r : Round)
    → is_lost r e.controller ≡ true
    → (settle s e (after_loop s plan e code r)).outcome ≡ invalid
unfolding settle after_loop conclude
settle-is_lost s plan e code (running w) h = lost-invalid s plan e code w e.controller h
settle-is_lost s plan e code (stopped w) h = absurd cc
settle-is_lost s plan e code (raised _ w) h = refl

and_both : (a b : Bool) → (a && b) ≡ true → (a ≡ true) × (b ≡ true)
and_both a b h = (ground arith, ground arith)

rule-has_fault :
    (plan : Plan) (s : Start) (e : Ending) (code : ℤ) (c : Cleanup) (r : Round)
    → has_fault r e c ≡ true
    → (rule (settle s e (after_loop s plan e code r)) c).outcome ≡ invalid
rule-has_fault plan s e code c r h =
    let a = settle s e (after_loop s plan e code r) in
    elim (Bool-cases (is_faulty c)) [
      | inl k ↦ rule-faulty a c (settle-phase s e (after_loop s plan e code r)) k
      | inr k ↦ elim (Bool-cases (is_raised r)) [
        | inl b ↦ rule-invalid a c (settle-is_raised s plan e code r b)
        | inr b ↦ elim (Bool-cases (is_lost r e.controller)) [
          | inl l ↦ rule-invalid a c (settle-is_lost s plan e code r l)
          | inr l ↦
              let both =
                and_both (has_sampled r) (is_sampler_faulty c)
                  (or_right _ _ l (or_right _ _ b (or_right _ _ k h))) in
              rule-sampler_faulty a c (settle-samples s plan e code r ∙ both.0) both.1
        ]
      ]
    ]

rule-try_launched :
    (plan : Plan) (s : Start) (ts : List Tick) (e : Ending) (code : ℤ) (c : Cleanup)
    (o : Option Stop)
    → (is_some o || has_fault (watch s plan ts (begin s)) e c) ≡ true
    → (rule (try_launched plan s ts e code o) c).outcome ≡ invalid
rule-try_launched plan s ts e code c (some stop) h =
    rule-invalid (try_launched plan s ts e code (some stop)) c refl
rule-try_launched plan s ts e code c none h =
    rule-has_fault plan s e code c (watch s plan ts (begin s)) h

-- A fault anywhere makes the result invalid, whatever else the run has shown: a launch that
-- raises, a loop that raises, a controller state that cannot be read after a loop that went
-- through, an error of the sentinel, of signalling or of reaping the game, the controller or the
-- UI group, the same for the sampler where one was started, an error of the restoration, a game
-- that outlives the cleanup, or a serious host fault that the monitor has found by then.
pub guard_run-faulty :
    (plan : Plan) (l : Launch) (s : Start) (ts : List Tick) (e : Ending) (code : ℤ) (c : Cleanup)
    → (raises l || has_fault (watch s plan ts (begin s)) e c) ≡ true
    → (guard_run plan l s ts e code c).outcome ≡ invalid
unfolding guard_run attempt finally_step
guard_run-faulty plan l s ts e code c h =
    rule-try_launched plan s ts e code c (launch l)
      (ap (λ b. b || has_fault (watch s plan ts (begin s)) e c) (sym (launch-raises l)) ∙ h)
