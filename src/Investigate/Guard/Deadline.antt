-- ===== src/Investigate/Guard/Deadline.antt =====
-- The loop of `guard_run` of runtime/kosmickrisp/investigate.py does not go on past the deadline.
use mathlib.Core.Path.{subst}
use winecx_gptk.Common.{
  Bool, true, false, ◌&&◌, ◌||◌, List, [], ◌∷◌, AllOf, any, sub_ge, ◌≡◌, ◌≢◌, refl, sym, arith,
}
use winecx_gptk.Investigate.Guard.Seen.{
  Plan, Controller, Entry, absent, null, text, Reading, missing, unreadable, state, Tick,
  startup_ns,
}
use winecx_gptk.Investigate.Guard.Ladder.{Start, rung}
use winecx_gptk.Investigate.Guard.Loop.{Watch, running, round, watch, begin}
use winecx_gptk.Investigate.Guard.Advance.{
  and_then-running, latest, round-running, Silent, progress_after,
}
use winecx_gptk.Investigate.Tailing.{Progress}

-- A text with characters, where there is an entry.
abbrev pub has_text : Entry → Bool
has_text absent = true
has_text null = false
has_text (text []) = false
has_text (text (_ ∷ _)) = true

-- A state whose failure and reason are neither null nor an empty text.
abbrev pub speaks : Reading → Bool
speaks missing = true
speaks (unreadable _) = true
speaks (state c) = has_text c.failure && has_text c.reason

abbrev pub is_overdue : Start → Plan → Tick → Bool
is_overdue s plan t = sub_ge t.now_ns s.start_ns (startup_ns plan)

or_false : (a b : Bool) → a ≡ false → b ≡ false → (a || b) ≡ false
or_false a b h k = ground arith

rung-overdue :
    (s : Start) (plan : Plan) (t : Tick) (c : Controller) (p : Progress)
    → Silent s plan t c p
    → speaks (state c) ≡ true
    → is_overdue s plan t ≡ false
unfolding rung
rung-overdue s plan t c p h k = ground arith

speaks-latest :
    (r : Reading) (c : Controller)
    → speaks r ≡ true
    → speaks (state c) ≡ true
    → speaks (state (latest r c)) ≡ true
speaks-latest missing c h k = k
speaks-latest (unreadable _) c h k = k
speaks-latest (state c') c h k = h

watch-overdue :
    (s : Start) (plan : Plan) (ts : List Tick) (w w' : Watch)
    → AllOf (λ (t : Tick). speaks t.controller ≡ true) ts
    → speaks (state w.controller) ≡ true
    → watch s plan ts w ≡ running w'
    → any (is_overdue s plan) ts ≡ false
unfolding watch
watch-overdue s plan [] w w' h k e = refl
watch-overdue s plan (t ∷ ts) w w' h k e =
    let r = and_then-running (round s plan t w) _ w' e in
    let a = round-running s plan t w r.0 r.1 in
    let spoken = speaks-latest t.controller w.controller h.0 k in
    let rest =
      watch-overdue s plan ts r.0 w' h.1
        (subst (λ c. speaks (state c) ≡ true) (sym a.controller) spoken) r.2 in
    let now =
      rung-overdue s plan t (latest t.controller w.controller) (progress_after t w.progress)
        a.silent spoken in
    or_false (is_overdue s plan t) (any (is_overdue s plan) ts) now rest

-- The loop goes on only while no round is at the deadline or after it: a run with such a round stops
-- with a reason or raises by then, whatever the files, the game and the controller do, as long as a
-- failure or reason that the controller writes is not null and not an empty text.
pub watch-deadline :
    (s : Start) (plan : Plan) (ts : List Tick)
    → AllOf (λ (t : Tick). speaks t.controller ≡ true) ts
    → any (is_overdue s plan) ts ≡ true
    → (w : Watch) → watch s plan ts (begin s) ≢ running w
unfolding begin
watch-deadline s plan ts h k w e =
    let f = watch-overdue s plan ts (begin s) w h refl e in absurd (cc)
