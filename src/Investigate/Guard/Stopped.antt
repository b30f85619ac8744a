-- ===== src/Investigate/Guard/Stopped.antt =====
-- A loop of `guard_run` of runtime/kosmickrisp/investigate.py that breaks has not passed.
use winecx_gptk.Common.{Option, none, some, List, [], ◌∷◌, ◌≡◌, ◌≢◌, refl, ◌⊎◌, inl, inr, arith}
use winecx_gptk.Common.Text.{Text}
use winecx_gptk.Investigate.Guard.Seen.{
  Plan, Controller, Reading, missing, unreadable, state, Inspection, failed, seen, Tick, passed,
}
use winecx_gptk.Investigate.Guard.Ladder.{Start, Verdict, rung}
use winecx_gptk.Investigate.Guard.Loop.{
  Watch, Round, running, stopped, raised, and_then, read_controller, judge, judged, sample_stack,
  take_inspection, round, watch, update_progress,
}
use winecx_gptk.Investigate.Tailing.{Progress}

pub and_then-stopped :
    (r : Round) (k : Watch → Round) (w' : Watch)
    → and_then r k ≡ stopped w'
    → (r ≡ stopped w') ⊎ ((w : Watch) × (r ≡ running w) × (k w ≡ stopped w'))
unfolding and_then
and_then-stopped (running w) k w' h = inr (w, refl, h)
and_then-stopped (stopped w) k w' h = inl h
and_then-stopped (raised e w) k w' h = absurd cc

rung-passed :
    (s : Start) (plan : Plan) (t : Tick) (c : Controller) (p : Progress) (v : Verdict)
    → rung s plan t c p ≡ some v
    → v.outcome ≢ passed
unfolding rung
rung-passed s plan t c p v h = ground arith

pub read_controller-stopped : (r : Reading) (w w' : Watch) → read_controller r w ≢ stopped w'
unfolding read_controller
read_controller-stopped missing w w' = ground arith
read_controller-stopped (unreadable e) w w' = ground arith
read_controller-stopped (state c) w w' = ground arith

judge-stopped :
    (v : Option Verdict) (e : Option Text) (w w' : Watch)
    → ((r : Verdict) → v ≡ some r → r.outcome ≢ passed)
    → judge v e w ≡ stopped w'
    → w'.outcome ≢ passed
unfolding judge
judge-stopped none e w w' safe h = absurd cc
judge-stopped (some v) none w w' safe h = let n = safe v refl in ground arith
judge-stopped (some v) (some e) w w' safe h = let n = safe v refl in ground arith

sample_stack-stopped :
    (s : Start) (plan : Plan) (t : Tick) (w w' : Watch) → sample_stack s plan t w ≢ stopped w'
unfolding sample_stack
sample_stack-stopped s plan t w w' = ground arith

take_inspection-stopped :
    (s : Start) (plan : Plan) (i : Option Inspection) (w w' : Watch)
    → take_inspection s plan i w ≡ stopped w'
    → w'.outcome ≢ passed
unfolding take_inspection
take_inspection-stopped s plan none w w' h = absurd cc
take_inspection-stopped s plan (some (failed [])) w w' h = ground arith
take_inspection-stopped s plan (some (failed (_ ∷ _))) w w' h = ground arith
take_inspection-stopped s plan (some (seen same processes lines)) w w' h = ground arith

round-stopped :
    (s : Start) (plan : Plan) (t : Tick) (w w' : Watch)
    → round s plan t w ≡ stopped w'
    → w'.outcome ≢ passed
unfolding round judged
round-stopped s plan t w w' h =
    elim (and_then-stopped
      (read_controller t.controller (update_progress t.present_csv t.compile_csv t.now_ns w)) _ w'
      h) [
        | inl e ↦ absurd (read_controller-stopped t.controller _ w' e)
        | inr (w1, e1, h1) ↦ elim (and_then-stopped (judged s plan t w1) _ w' h1) [
          | inl e ↦
              judge-stopped (rung s plan t w1.controller w1.progress) t.stop_error w1 w'
                (rung-passed s plan t w1.controller w1.progress) e
          | inr (w2, e2, h2) ↦ elim (and_then-stopped (sample_stack s plan t w2) _ w' h2) [
            | inl e ↦ absurd (sample_stack-stopped s plan t w2 w' e)
            | inr (w3, e3, h3) ↦ take_inspection-stopped s plan t.inspection w3 w' h3
          ]
        ]
      ]

pub watch-stopped :
    (s : Start) (plan : Plan) (ts : List Tick) (w w' : Watch)
    → watch s plan ts w ≡ stopped w'
    → w'.outcome ≢ passed
unfolding watch
watch-stopped s plan [] w w' h = absurd cc
watch-stopped s plan (t ∷ ts) w w' h = elim (and_then-stopped (round s plan t w) _ w' h) [
  | inl e ↦ round-stopped s plan t w w' e
  | inr (u, e, k) ↦ watch-stopped s plan ts u w' k
]
