-- ===== src/Investigate/Guard/Passed.antt =====
-- What a run has gone through whose result is `passed`, for `guard_run` of
-- runtime/kosmickrisp/investigate.py.
use mathlib.Core.Path.{subst}
use winecx_gptk.Common.{
  ℕ, ◌+◌, ◌*◌, ◌^◌, ◌≤◌, ◌<◌, true, false, ◌&&◌, Option, none, some, List, [], AllOf, ◌≡◌, refl, ap,
  sym, ◌∙◌, arith, sub_lt, ◌≢◌, ◌⊎◌, inl, inr,
}
use winecx_gptk.Common.Int.{ℤ, is_zero}
use winecx_gptk.Investigate.Guard.Seen.{
  Plan, Controller, Tick, passed, Ending, startup_ns, no_state,
}
use winecx_gptk.Investigate.Guard.Ladder.{Start, truthy}
use winecx_gptk.Investigate.Guard.Loop.{
  Watch, Round, running, stopped, raised, and_then, read_controller, watch, begin, update_progress,
}
use winecx_gptk.Investigate.Guard.Verdict.{
  exit_verdict, within_deadline, verified, conclude, after_loop, without_present, quit_lately,
  in_order,
}
use winecx_gptk.Investigate.Guard.Run.{Launch, launch, Cleanup, settle, Result}
use winecx_gptk.Investigate.Guard.Advance.{
  latest, latest_of, progress_of, driver_seen, Quiet, watch-running, and_then-running,
  read_controller-running,
}
use winecx_gptk.Investigate.Guard.Stopped.{and_then-stopped, read_controller-stopped, watch-stopped}
use winecx_gptk.Investigate.Tailing
use winecx_gptk.Investigate.Tailing.{Progress}

-- The menu and the quit that the controller reports, in the order of the run and in time.
abbrev pub Timely : Start → Plan → ℕ → Controller → Type 0
Timely s plan end c =
    (menu : ℕ) × (quit : ℕ) × (c.menu_verified_ns ≡ some menu)
    × (c.quit_requested_ns ≡ some quit)
    × (s.start_ns ≤ menu)
    × (menu ≤ quit)
    × (quit ≤ end)
    × (end < quit + 60 * 10 ^ 9)
    × (end < s.start_ns + startup_ns plan)

-- The last state of the controller, and the progress after all files.
abbrev pub final_state : List Tick → Ending → Controller
final_state ts e = latest e.controller (latest_of ts no_state)

abbrev pub final_progress : Start → List Tick → Ending → Progress
final_progress s ts e =
    Tailing.update e.present_csv e.compile_csv (some e.end_ns)
      (progress_of ts (Tailing.init s.start_ns))

-- The game's own end, as the rounds and the last reading show it.
pub record GoodEnd (plan : Plan) (s : Start) (ts : List Tick) (e : Ending) (code : ℤ) : Type 0 where
  pub quiet : AllOf (Quiet s) ts
  pub status : is_zero code ≡ true
  pub menu : (final_state ts e).menu_verified ≡ true
  pub no_failure : (final_state ts e).outcome ≡ none
  pub timely : Timely s plan e.end_ns (final_state ts e)
  pub drawn : truthy (final_progress s ts e).present.first ≡ true
  pub driver : driver_seen s plan ts ≡ true

-- The cleanup that leaves nothing to do.
pub record GoodCleanup (l : Launch) (r : Result) (c : Cleanup) : Type 0 where
  pub launched : launch l ≡ none
  pub restored : r.restored ≡ true
  pub ended : c.child_alive ≡ false
  pub no_errors : r.cleanup_errors ≡ []
  pub healthy : c.serious ≡ false
  pub complete : c.incomplete ≡ false

timely :
    (start limit end : ℕ) (menu quit : Option ℕ)
    → in_order start menu quit end ≡ true
    → (sub_lt end start limit && quit_lately end quit) ≡ true
    → (m : ℕ) × (q : ℕ) × (menu ≡ some m)
      × (quit ≡ some q)
      × (start ≤ m)
      × (m ≤ q)
      × (q ≤ end)
      × (end < q + 60 * 10 ^ 9)
      × (end < start + limit)
timely start limit end none quit h k = absurd cc
timely start limit end (some m) none h k = absurd cc
timely start limit end (some m) (some q) h k =
    (m, q, refl, refl, ground arith, ground arith, ground arith, ground arith, ground arith)

verified-Timely :
    (s : Start) (plan : Plan) (end : ℕ) (c : Controller)
    → verified s end c ≡ true
    → within_deadline s plan end c ≡ true
    → (c.menu_verified ≡ true) × (c.outcome ≡ none) × (Timely s plan end c)
unfolding verified within_deadline
verified-Timely s plan end c h k = (
  ground arith,
  ground arith,
  timely s.start_ns (startup_ns plan) end c.menu_verified_ns c.quit_requested_ns (ground arith) k,
)

exit_verdict-passed :
    (s : Start) (plan : Plan) (end : ℕ) (code : ℤ) (w : Watch)
    → (exit_verdict s plan end code w).outcome ≡ passed
    → (is_zero code ≡ true)
      × (verified s end w.controller ≡ true)
      × (w.loaded ≡ true)
      × (truthy w.progress.present.first ≡ true)
      × (within_deadline s plan end w.controller ≡ true)
unfolding exit_verdict
exit_verdict-passed s plan end code w h = ground arith

running-outcome : (w w' : Watch) → running w ≡ running w' → w.outcome ≡ w'.outcome
running-outcome w w' h = ground arith

conclude-passed :
    (s : Start) (plan : Plan) (e : Ending) (code : ℤ) (w w' : Watch)
    → conclude s plan e code w ≡ running w'
    → w'.outcome ≡ passed
    → (u : Watch) × (u.controller ≡ latest e.controller w.controller)
      × (u.progress ≡ Tailing.update e.present_csv e.compile_csv (some e.end_ns) w.progress)
      × (u.loaded ≡ w.loaded)
      × ((exit_verdict s plan e.end_ns code u).outcome ≡ passed)
unfolding conclude and_then read_controller
conclude-passed s plan e code w w' h k =
    let r =
      and_then-running
        (read_controller e.controller (update_progress e.present_csv e.compile_csv e.end_ns w)) _ w'
        h in
    let a = read_controller-running e.controller _ r.0 r.1 in
    (r.0, a.0, a.1, a.2, running-outcome _ w' r.2 ∙ k)

conclude-stopped :
    (s : Start) (plan : Plan) (e : Ending) (code : ℤ) (w w' : Watch)
    → conclude s plan e code w ≢ stopped w'
unfolding conclude
conclude-stopped s plan e code w w' h =
    elim (and_then-stopped
      (read_controller e.controller (update_progress e.present_csv e.compile_csv e.end_ns w)) _ w'
      h) [ inl k ↦ read_controller-stopped e.controller _ w' k | inr (u, k, j) ↦ absurd (cc) ]

without_present-passed : (w : Watch) → (without_present w).outcome ≡ passed → w.outcome ≡ passed
unfolding without_present
without_present-passed w h = ground arith

settle-passed :
    (s : Start) (e : Ending) (r : Round)
    → (settle s e r).outcome ≡ passed
    → (w : Watch) × (w.outcome ≡ passed) × ((r ≡ running w) ⊎ (r ≡ stopped w))
unfolding settle
settle-passed s e (running w) h = (w, without_present-passed w h, inl refl)
settle-passed s e (stopped w) h = (w, without_present-passed w h, inr refl)
settle-passed s e (raised error w) h = absurd cc

after_loop-passed :
    (s : Start) (plan : Plan) (e : Ending) (code : ℤ) (r : Round) (w' : Watch)
    → ((u : Watch) → r ≡ stopped u → u.outcome ≢ passed)
    → w'.outcome ≡ passed
    → (after_loop s plan e code r ≡ running w') ⊎ (after_loop s plan e code r ≡ stopped w')
    → (u : Watch) × (r ≡ running u) × (conclude s plan e code u ≡ running w')
unfolding after_loop
after_loop-passed s plan e code (running u) w' safe p (inl h) = (u, refl, h)
after_loop-passed s plan e code (running u) w' safe p (inr h) =
    absurd (conclude-stopped s plan e code u w' h)
after_loop-passed s plan e code (stopped u) w' safe p (inl h) = absurd cc
after_loop-passed s plan e code (stopped u) w' safe p (inr h) =
    let n = safe u refl in absurd (ground arith)
after_loop-passed s plan e code (raised _ u) w' safe p (inl h) = absurd cc
after_loop-passed s plan e code (raised _ u) w' safe p (inr h) = absurd cc

-- The `try` block passes only after a good end.
pub settle-GoodEnd :
    (plan : Plan) (s : Start) (ts : List Tick) (e : Ending) (code : ℤ)
    → (settle s e (after_loop s plan e code (watch s plan ts (begin s)))).outcome ≡ passed
    → GoodEnd plan s ts e code
unfolding begin
settle-GoodEnd plan s ts e code h =
    let a = settle-passed s e (after_loop s plan e code (watch s plan ts (begin s))) h in
    let b =
      after_loop-passed s plan e code (watch s plan ts (begin s)) a.0
        (watch-stopped s plan ts (begin s)) a.1 a.2 in
    let c = watch-running s plan ts (begin s) b.0 b.1 in
    let d = conclude-passed s plan e code b.0 a.0 b.2 a.1 in
    let v = exit_verdict-passed s plan e.end_ns code d.0 d.4 in
    let state_eq = d.1 ∙ ap (latest e.controller) c.controller in
    let progress_eq =
      d.2 ∙ ap (Tailing.update e.present_csv e.compile_csv (some e.end_ns)) c.progress in
    let t =
      subst
        (λ (k : Controller).
          (k.menu_verified ≡ true) × (k.outcome ≡ none) × Timely s plan e.end_ns k)
        state_eq (verified-Timely s plan e.end_ns (d.0).controller v.1 v.4) in
    record {
      quiet = c.quiet;
      status = v.0;
      menu = t.0;
      no_failure = t.1;
      timely = t.2;
      drawn = subst (λ (k : Progress). truthy k.present.first ≡ true) progress_eq v.3;
      driver = c.loaded (sym d.3 ∙ v.2);
    }
