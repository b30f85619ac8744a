-- ===== src/Investigate/Guard/Advance.antt =====
-- The rounds of `guard_run` of runtime/kosmickrisp/investigate.py that go on: what they have checked
-- and what they leave. The controller's state, the progress and the driver are described by folds
-- over the rounds that know nothing of the checks.
use mathlib.Core.Path.{subst}
use winecx_gptk.Common.{
  ◌+◌, ◌*◌, ◌^◌, ◌≤◌, Bool, true, false, not, ◌&&◌, ◌||◌, Option, none, some, List, [], ◌∷◌, ◌==◌,
  any, AllOf, Bool-cases, inl, inr, ◌⊎◌, ◌≡◌, refl, ap, ◌∙◌, arith,
}
use winecx_gptk.Common.Text.{Text}
use winecx_gptk.Investigate.Guard.Seen.{
  Plan, Controller, Reading, missing, unreadable, state, Inspection, failed, seen, Tick,
}
use winecx_gptk.Investigate.Guard.Ladder.{Start, Verdict, rung, given}
use winecx_gptk.Investigate.Guard.Loop.{
  Watch, Round, running, stopped, raised, and_then, read_controller, judge, judged, sample_stack,
  take_inspection, paths_of, right_driver, round, watch, update_progress,
}
use winecx_gptk.Investigate.Tailing
use winecx_gptk.Investigate.Tailing.{Progress}

-- The last state that could be read.
abbrev pub latest : Reading → Controller → Controller
latest missing c = c
latest (unreadable _) c = c
latest (state c') c = c'

abbrev pub latest_of : List Tick → Controller → Controller
latest_of [] c = c
latest_of (t ∷ ts) c = latest_of ts (latest t.controller c)

-- The progress after the files of all rounds.
abbrev pub progress_after : Tick → Progress → Progress
progress_after t p = Tailing.update t.present_csv t.compile_csv (some t.now_ns) p

abbrev pub progress_of : List Tick → Progress → Progress
progress_of [] p = p
progress_of (t ∷ ts) p = progress_of ts (progress_after t p)

-- An inspection that finds the child, no other game, and the driver of the plan.
abbrev pub proves_driver : Start → Plan → Option Inspection → Bool
proves_driver s plan none = false
proves_driver s plan (some (failed _)) = false
proves_driver s plan (some (seen same_identity processes lines)) =
    same_identity
    && (not (any (λ pid. not (pid == s.pid)) processes) && right_driver plan (paths_of lines))

abbrev pub driver_seen : Start → Plan → List Tick → Bool
driver_seen s plan ts = any (λ t. proves_driver s plan t.inspection) ts

-- The clocks agree within two seconds, no host fault is known and nobody asked for a stop.
pub record Quiet (s : Start) (t : Tick) : Type 0 where
  pub wall : t.now_ns + s.start_uptime ≤ t.uptime + s.start_ns + 2 * 10 ^ 9
  pub awake : t.uptime + s.start_ns ≤ t.now_ns + s.start_uptime + 2 * 10 ^ 9
  pub healthy : t.serious ≡ false
  pub wanted : t.stop_request ≡ false

pub and_then-running :
    (r : Round) (k : Watch → Round) (w' : Watch)
    → and_then r k ≡ running w'
    → (w : Watch) × (r ≡ running w) × (k w ≡ running w')
unfolding and_then
and_then-running (running w) k w' h = (w, refl, h)
and_then-running (stopped w) k w' h = absurd cc
and_then-running (raised e w) k w' h = absurd cc

pub read_controller-running :
    (r : Reading) (w w' : Watch)
    → read_controller r w ≡ running w'
    → (w'.controller ≡ latest r w.controller) × (w'.progress ≡ w.progress) × (w'.loaded ≡ w.loaded)
unfolding read_controller
read_controller-running missing w w' h = ground arith
read_controller-running (unreadable e) w w' h = absurd cc
read_controller-running (state c) w w' h = ground arith

judge-running :
    (v : Option Verdict) (e : Option Text) (w w' : Watch)
    → judge v e w ≡ running w'
    → (w'.controller ≡ w.controller) × (w'.progress ≡ w.progress) × (w'.loaded ≡ w.loaded)
unfolding judge
judge-running none e w w' h = ground arith
judge-running (some v) none w w' h = ground arith
judge-running (some v) (some e) w w' h = ground arith

pub judge-silent :
    (v : Option Verdict) (e : Option Text) (w w' : Watch)
    → judge v e w ≡ running w'
    → (v ≡ none) ⊎ ((r : Verdict) × (v ≡ some r) × (given r.reason ≡ false))
unfolding judge
judge-silent none e w w' h = inl refl
judge-silent (some v) none w w' h = elim (Bool-cases (given v.reason)) [
  | inl g ↦ absurd (ground arith)
  | inr g ↦ inr (v, refl, g)
]
judge-silent (some v) (some e) w w' h = elim (Bool-cases (given v.reason)) [
  | inl g ↦ absurd (ground arith)
  | inr g ↦ inr (v, refl, g)
]

-- No check applies, or only one without a reason.
abbrev pub Silent : Start → Plan → Tick → Controller → Progress → Type 0
Silent s plan t c p =
    (rung s plan t c p ≡ none)
    ⊎ ((r : Verdict) × (rung s plan t c p ≡ some r) × (given r.reason ≡ false))

rung-Quiet :
    (s : Start) (plan : Plan) (t : Tick) (c : Controller) (p : Progress)
    → Silent s plan t c p
    → Quiet s t
unfolding rung
rung-Quiet s plan t c p h = record {
  wall = ground arith;
  awake = ground arith;
  healthy = ground arith;
  wanted = ground arith;
}

sample_stack-running :
    (s : Start) (plan : Plan) (t : Tick) (w w' : Watch)
    → sample_stack s plan t w ≡ running w'
    → (w'.controller ≡ w.controller) × (w'.progress ≡ w.progress) × (w'.loaded ≡ w.loaded)
unfolding sample_stack
sample_stack-running s plan t w w' h = ground arith

take_inspection-running :
    (s : Start) (plan : Plan) (i : Option Inspection) (w w' : Watch)
    → take_inspection s plan i w ≡ running w'
    → (w'.controller ≡ w.controller)
      × (w'.progress ≡ w.progress)
      × (w'.loaded ≡ true → (w.loaded || proves_driver s plan i) ≡ true)
unfolding take_inspection
take_inspection-running s plan none w w' h = ground arith
take_inspection-running s plan (some (failed [])) w w' h = absurd cc
take_inspection-running s plan (some (failed (_ ∷ _))) w w' h = absurd cc
take_inspection-running s plan (some (seen same processes lines)) w w' h = ground arith

-- What a round that goes on has checked, and what it leaves.
pub record Advances (s : Start) (plan : Plan) (t : Tick) (w w' : Watch) : Type 0 where
  pub silent : Silent s plan t (latest t.controller w.controller) (progress_after t w.progress)
  pub controller : w'.controller ≡ latest t.controller w.controller
  pub progress : w'.progress ≡ progress_after t w.progress
  pub loaded : w'.loaded ≡ true → (w.loaded || proves_driver s plan t.inspection) ≡ true

pub round-running :
    (s : Start) (plan : Plan) (t : Tick) (w w' : Watch)
    → round s plan t w ≡ running w'
    → Advances s plan t w w'
unfolding round judged
round-running s plan t w w' h =
    let r1 =
      and_then-running
        (read_controller t.controller (update_progress t.present_csv t.compile_csv t.now_ns w)) _ w'
        h in
    let r2 = and_then-running (judged s plan t r1.0) _ w' r1.2 in
    let r3 = and_then-running (sample_stack s plan t r2.0) _ w' r2.2 in
    let v = rung s plan t (r1.0).controller (r1.0).progress in
    let a = read_controller-running t.controller _ r1.0 r1.1 in
    let b = judge-running v t.stop_error r1.0 r2.0 r2.1 in
    let c = sample_stack-running s plan t r2.0 r3.0 r3.1 in
    let d = take_inspection-running s plan t.inspection r3.0 w' r3.2 in
    record {
      silent =
          subst (λ c. Silent s plan t c (progress_after t w.progress)) a.0
            (subst (Silent s plan t (r1.0).controller) a.1
              (judge-silent v t.stop_error r1.0 r2.0 r2.1));
      controller = d.0 ∙ (c.0 ∙ (b.0 ∙ a.0));
      progress = d.1 ∙ (c.1 ∙ (b.1 ∙ a.1));
      loaded = λ k. ground arith;
    }

or_later :
    (old new p q : Bool)
    → (new ≡ true → (old || p) ≡ true)
    → (new || q) ≡ true
    → (old || (p || q)) ≡ true
or_later true new p q h k = refl
or_later false new true q h k = refl
or_later false true false q h k = absurd (ground (arith, h refl))
or_later false false false q h k = k

-- The rounds of a loop that goes on to the end.
pub record Watched (s : Start) (plan : Plan) (ts : List Tick) (w w' : Watch) : Type 0 where
  pub quiet : AllOf (Quiet s) ts
  pub controller : w'.controller ≡ latest_of ts w.controller
  pub progress : w'.progress ≡ progress_of ts w.progress
  pub loaded : w'.loaded ≡ true → (w.loaded || driver_seen s plan ts) ≡ true

pub watch-running :
    (s : Start) (plan : Plan) (ts : List Tick) (w w' : Watch)
    → watch s plan ts w ≡ running w'
    → Watched s plan ts w w'
unfolding watch
watch-running s plan [] w w' h = record {
  quiet = tt;
  controller = ground arith;
  progress = ground arith;
  loaded = λ k. ground arith;
}
watch-running s plan (t ∷ ts) w w' h =
    let r = and_then-running (round s plan t w) _ w' h in
    let a = round-running s plan t w r.0 r.1 in
    let b = watch-running s plan ts r.0 w' r.2 in
    record {
      quiet = (
        rung-Quiet s plan t (latest t.controller w.controller) (progress_after t w.progress)
            a.silent,
        b.quiet,
      );
      controller = b.controller ∙ ap (latest_of ts) a.controller;
      progress = b.progress ∙ ap (progress_of ts) a.progress;
      loaded = λ k. or_later w.loaded (r.0).loaded _ _ a.loaded (b.loaded k);
    }
