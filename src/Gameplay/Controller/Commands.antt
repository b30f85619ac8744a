-- ===== src/Gameplay/Controller/Commands.antt =====
-- Which commands startup_controller of runtime/kosmickrisp/gameplay.py sends to the game, whatever its
-- readings are.
use mathlib.Core.Path.{subst}
use winecx_gptk.Common.{
  ℕ, ◌+◌, ◌*◌, ◌^◌, ◌≤◌, Bool, true, false, ◌&&◌, Option, none, some, is_some, List, [], ◌∷◌,
  if◌then◌else◌, inl, inr, ◌⊎◌, ◌≡◌, refl, sym, arith,
}
use winecx_gptk.Common.Text.{Text}
use winecx_gptk.Gameplay.Screen.{Input}
use winecx_gptk.Gameplay.Focus.{FocusRecovery, allowed, attempt}
use winecx_gptk.Gameplay.Controller.{
  Ui, raises, fails, answers, Owner, Frame, Setup, Command, press, front, quit, Control, Step,
  going, ended, fail, blocked, defer, send, pressed, in_front, press_if_front, activated, attempted,
  still_owner, recover, with_status,
}

-- The input was taken with the game in front, each at least five seconds before the one after it,
-- the last at least five seconds before `limit`.
abbrev pub Spaced : (pid limit : ℕ) → List Command → Type 0
Spaced pid limit [] = Unit {0}
Spaced pid limit (press t before input ∷ cs) =
    (in_front pid before ≡ true) × (t + 5 * 10 ^ 9 ≤ limit) × Spaced pid t cs
Spaced pid limit (front t ∷ cs) = Spaced pid limit cs
Spaced pid limit (quit t ∷ cs) = Spaced pid limit cs

abbrev pub fronts : List Command → ℕ
fronts [] = 0
fronts (front t ∷ cs) = 1 + fronts cs
fronts (press t before input ∷ cs) = fronts cs
fronts (quit t ∷ cs) = fronts cs

abbrev pub NoQuit : List Command → Type 0
NoQuit [] = Unit {0}
NoQuit (quit t ∷ cs) = ⊥
NoQuit (front t ∷ cs) = NoQuit cs
NoQuit (press t before input ∷ cs) = NoQuit cs

-- No quit was sent, or it is the last command, at the time that the session has for it, and the
-- menu was verified.
abbrev pub QuitLast : (requested verified : Option ℕ) → List Command → Type 0
QuitLast none verified cs = NoQuit cs
QuitLast (some r) verified [] = ⊥
QuitLast (some r) verified (quit t ∷ cs) = (t ≡ r) × (is_some verified ≡ true) × NoQuit cs
QuitLast (some r) verified (front t ∷ cs) = ⊥
QuitLast (some r) verified (press t before input ∷ cs) = ⊥

Spaced-weaken :
    (pid limit later : ℕ) (cs : List Command)
    → limit ≤ later
    → Spaced pid limit cs
    → Spaced pid later cs
Spaced-weaken pid limit later [] h s = tt
Spaced-weaken pid limit later (press t before input ∷ cs) h s = (s.0, omega (arith, h, s.1), s.2)
Spaced-weaken pid limit later (front t ∷ cs) h s = Spaced-weaken pid limit later cs h s
Spaced-weaken pid limit later (quit t ∷ cs) h s = Spaced-weaken pid limit later cs h s

pub QuitLast-NoQuit :
    {requested : Option ℕ} (verified : Option ℕ) (cs : List Command)
    → requested ≡ none
    → QuitLast requested verified cs
    → NoQuit cs
QuitLast-NoQuit verified cs e q = subst (λ r. QuitLast r verified cs) e q

NoQuit-QuitLast :
    {requested : Option ℕ} (verified : Option ℕ) (cs : List Command)
    → requested ≡ none
    → NoQuit cs
    → QuitLast requested verified cs
NoQuit-QuitLast verified cs e q = subst (λ r. QuitLast r verified cs) (sym e) q

pub QuitLast-later :
    (requested verified later : Option ℕ) (cs : List Command)
    → (is_some verified ≡ true → is_some later ≡ true)
    → QuitLast requested verified cs
    → QuitLast requested later cs
QuitLast-later none verified later cs h q = q
QuitLast-later (some r) verified later [] h q = q
QuitLast-later (some r) verified later (quit t ∷ cs) h q = (q.0, h q.1, q.2)
QuitLast-later (some r) verified later (front t ∷ cs) h q = q
QuitLast-later (some r) verified later (press t before input ∷ cs) h q = q

pub is_some-none {ℓ} : {A : Type ℓ} (o : Option A) → is_some o ≡ false → o ≡ none
is_some-none none e = refl
is_some-none (some a) e = absurd cc

abbrev pub control : Step → Control
control (going c) = c
control (ended c) = c

module _ (u : Setup) where
  pub record Good (c : Control) : Type 0 where
    pub spaced : Spaced u.pid (c.last_action + 5 * 10 ^ 9) c.commands
    pub fronted : fronts c.commands ≡ c.recovery.count
    pub at_most : c.recovery.count ≤ 3
    pub last : QuitLast c.session.exit_requested_ns c.session.menu_verified_ns c.commands

  abbrev pub GoodStep : Step → Type 0
  GoodStep (going c) = Good c
  GoodStep (ended c) = Good c

  pub fail-Good : (e : Text) (c : Control) → Good c → GoodStep (fail e c)
  fail-Good e c g = record {
    spaced = g.spaced;
    fronted = g.fronted;
    at_most = g.at_most;
    last = g.last;
  }

  pub blocked-Good : (b : Bool) (now : ℕ) (c : Control) → Good c → Good (blocked b now c)
  unfolding blocked
  blocked-Good true now c g = record {
    spaced = g.spaced;
    fronted = g.fronted;
    at_most = g.at_most;
    last = g.last;
  }
  blocked-Good false now c g = record {
    spaced = g.spaced;
    fronted = g.fronted;
    at_most = g.at_most;
    last = g.last;
  }

  pub if-Good :
      (b : Bool) (s t : Step)
      → (b ≡ true → GoodStep s)
      → (b ≡ false → GoodStep t)
      → GoodStep (if b then s else t)
  if-Good true s t h k = h refl
  if-Good false s t h k = k refl

  -- While no quit was asked for.
  pub record Open (c : Control) : Type 0 where
    pub good : Good c
    pub unasked : c.session.exit_requested_ns ≡ none

  pressed-Good :
      (now : ℕ) (before : Option ℕ) (input : Input) (reply : Ui Bool (Unit {0})) (c : Control)
      → Open c
      → in_front u.pid before ≡ true
      → c.last_action + 5 * 10 ^ 9 ≤ now
      → GoodStep (pressed now before input reply c)
  unfolding pressed
  pressed-Good now before input (raises e) c g h k = fail-Good e c g.good
  pressed-Good now before input (fails true) c g h k = blocked-Good true now c g.good
  pressed-Good now before input (fails false) c g h k = fail-Good _ c g.good
  pressed-Good now before input (answers _) c g h k =
      let spaced = g.good.spaced in
      let quiet = QuitLast-NoQuit c.session.menu_verified_ns c.commands g.unasked g.good.last in
      record {
        spaced = (
          h,
          omega arith,
          Spaced-weaken u.pid (c.last_action + 5 * 10 ^ 9) now c.commands k spaced,
        );
        fronted = g.good.fronted;
        at_most = g.good.at_most;
        last =
            NoQuit-QuitLast c.session.menu_verified_ns (press now before input ∷ c.commands)
              g.unasked quiet;
      }

  module _ (f : Frame) (input : Input) where
    abbrev Rested : Control → Type 0
    Rested c = c.last_action + 5 * 10 ^ 9 ≤ f.seen_now

    press_if_front-Good :
        (on : Bool) (reply : Ui (Unit {0}) (Option ℕ)) (c : Control)
        → Open c
        → Rested c
        → GoodStep (press_if_front u f input on reply c)
    unfolding press_if_front
    press_if_front-Good on (raises e) c g r = fail-Good e c g.good
    press_if_front-Good on (fails _) c g r = blocked-Good true f.seen_now c g.good
    press_if_front-Good false (answers before) c g r = blocked-Good true f.seen_now c g.good
    press_if_front-Good true (answers before) c g r =
        if-Good (in_front u.pid before) (pressed f.seen_now before input f.input c)
          (defer f.seen_now c) (λ e. pressed-Good f.seen_now before input f.input c g e r)
          (λ e. blocked-Good true f.seen_now c g.good)

    activated-Good :
        (reply : Ui (Unit {0}) (Unit {0})) (c : Control)
        → Open c
        → Rested c
        → GoodStep (activated u f input reply c)
    unfolding activated
    activated-Good (raises e) c g r = fail-Good e c g.good
    activated-Good (fails _) c g r = press_if_front-Good false f.checked c g r
    activated-Good (answers _) c g r = press_if_front-Good true f.checked c g r

    brought_to_front :
        (c : Control) (r : FocusRecovery)
        → Open c
        → r.count ≡ c.recovery.count + 1
        → r.count ≤ 3
        → Open (record (send (front f.seen_now) c) { recovery = r; focus_recovery_count = r.count })
    brought_to_front c r g e h =
        let quiet = QuitLast-NoQuit c.session.menu_verified_ns c.commands g.unasked g.good.last in
        record {
          good = record {
            spaced = g.good.spaced;
            fronted = omega (arith, g.good.fronted, e);
            at_most = h;
            last =
                NoQuit-QuitLast c.session.menu_verified_ns (front f.seen_now ∷ c.commands) g.unasked
                  quiet;
          };
          unasked = g.unasked;
        }

    attempt_counts :
        (now : ℕ) (r : FocusRecovery)
        → ((attempt now r).0 ≡ false)
          ⊎ (((attempt now r).1.count ≡ r.count + 1) × ((attempt now r).1.count ≤ 3))
    unfolding attempt allowed
    attempt_counts now r = ground arith

    attempted-Good :
        (p : Bool × FocusRecovery) (c : Control)
        → Open c
        → Rested c
        → (p.0 ≡ false) ⊎ ((p.1.count ≡ c.recovery.count + 1) × (p.1.count ≤ 3))
        → GoodStep (attempted u f input p c)
    attempted-Good (false, r) c g k h = blocked-Good true f.seen_now c g.good
    attempted-Good (true, r) c g k h = elim h [
      | inl e ↦ absurd cc
      | inr (e, most) ↦
          activated-Good f.activate
            (record (send (front f.seen_now) c) { recovery = r; focus_recovery_count = r.count })
            (brought_to_front c r g e most) k
    ]

    second-Good :
        (o : Owner) (second : Ui (Unit {0}) (Option ℕ)) (c : Control)
        → Open c
        → Rested c
        → GoodStep (
            if still_owner o second
            then attempted u f input (attempt f.seen_now c.recovery) c
            else defer f.seen_now c)
    second-Good o second c g r =
        if-Good (still_owner o second) (attempted u f input (attempt f.seen_now c.recovery) c)
          (defer f.seen_now c)
          (λ _.
            attempted-Good (attempt f.seen_now c.recovery) c g r
              (attempt_counts f.seen_now c.recovery))
          (λ _. blocked-Good true f.seen_now c g.good)

    recover-Good :
        (o : Option Owner) (second : Ui (Unit {0}) (Option ℕ)) (c : Control)
        → Open c
        → Rested c
        → GoodStep (recover u f input o second c)
    unfolding recover
    recover-Good none second c g r = blocked-Good true f.seen_now c g.good
    recover-Good (some o) (raises e) c g r = fail-Good e c g.good
    recover-Good (some o) (fails x) c g r = second-Good o (fails x) c g r
    recover-Good (some o) (answers b) c g r = second-Good o (answers b) c g r

    pub with_status-Good :
        (reply : Ui (Unit {0}) (Option ℕ)) (c : Control)
        → Open c
        → Rested c
        → GoodStep (with_status u f input reply c)
    unfolding with_status
    with_status-Good (raises e) c g r = fail-Good e c g.good
    with_status-Good (fails _) c g r = fail-Good _ c g.good
    with_status-Good (answers before) c g r =
        let may = u.steam_only && allowed f.seen_now c.recovery in
        let other = if may then recover u f input f.owner f.fresh c else defer f.seen_now c in
        if-Good (in_front u.pid before) (pressed f.seen_now before input f.input c) other
          (λ e. pressed-Good f.seen_now before input f.input c g e r)
          (λ _.
            if-Good may (recover u f input f.owner f.fresh c) (defer f.seen_now c)
              (λ _. recover-Good f.owner f.fresh c g r)
              (λ _. blocked-Good true f.seen_now c g.good))
