-- ===== src/Gameplay/Controller/Timed.antt =====
-- The session and the report of startup_controller of runtime/kosmickrisp/gameplay.py while it answers
-- a screen, on a clock that never goes back.
use winecx_gptk.Common.{
  ℕ, ◌+◌, ◌-◌, ◌*◌, ◌^◌, ◌≤◌, Bool, true, false, ◌&&◌, Option, none, some, is_some, sub_ge,
  if◌then◌else◌, ◌≡◌, refl, sym, ◌∙◌, arith,
}
use winecx_gptk.Common.Text.{Text}
use winecx_gptk.Gameplay.Screen.{Input}
use winecx_gptk.Gameplay.Startup.{StartupSession, request_exit}
use winecx_gptk.Gameplay.Startup.Run.{Trace, ask}
use winecx_gptk.Gameplay.Focus.{FocusRecovery, allowed, attempt}
use winecx_gptk.Gameplay.Controller.{
  Ui, raises, fails, answers, Owner, Frame, Setup, press, front, quit, Control, Step, going, ended,
  fail, blocked, defer, send, pressed, in_front, press_if_front, activated, attempted, still_owner,
  recover, with_status,
}
use winecx_gptk.Gameplay.Controller.Loop.{act, quitted, asked, respond}

-- Input was blocked for no longer than the run has lasted, the time that still runs included.
abbrev pub BlockedWithin : (start now total : ℕ) (since : Option ℕ) → Type 0
BlockedWithin start now total none = start + total ≤ now
BlockedWithin start now total (some b) = (start + total ≤ b) × (b ≤ now)

request_exit-fields :
    (now : ℕ) (s s' : StartupSession)
    → s.exit_requested_ns ≡ none
    → request_exit now s ≡ some s'
    → (s'.menu_verified_ns ≡ s.menu_verified_ns) × (s'.exit_requested_ns ≡ some now)
unfolding request_exit
request_exit-fields now s s' h e = ground arith

module _ (start timeout : ℕ) where
  pub record Timed (now : ℕ) (c : Control) : Type 0 where
    pub seen : ℕ
    pub trace : Trace start timeout 45 60 seen c.session
    pub seen_before : seen ≤ now
    pub menu : c.menu_verified_ns ≡ c.session.menu_verified_ns
    pub quitted : c.quit_requested_ns ≡ c.session.exit_requested_ns
    pub blocked : BlockedWithin start now c.total_input_blocked_ns c.input_blocked_since_ns

  abbrev pub TimedStep : ℕ → Step → Type 0
  TimedStep now (going c) = Timed now c
  TimedStep now (ended c) = Timed now c

  pub if-Timed :
      (now : ℕ) (b : Bool) (s t : Step)
      → TimedStep now s
      → TimedStep now t
      → TimedStep now (if b then s else t)
  if-Timed now true s t h k = h
  if-Timed now false s t h k = k

  pub fail-Timed : (now : ℕ) (e : Text) (c : Control) → Timed now c → TimedStep now (fail e c)
  fail-Timed now e c g = record {
    seen = g.seen;
    trace = g.trace;
    seen_before = g.seen_before;
    menu = g.menu;
    quitted = g.quitted;
    blocked = g.blocked;
  }

  unblocked_within :
      (now total : ℕ) (since : Option ℕ)
      → BlockedWithin start now total since
      → start + (total + elim since [ none ↦ 0 | some b ↦ now - b ]) ≤ now
  unblocked_within now total none h = omega (arith, h)
  unblocked_within now total (some b) h = omega (arith, h.0, h.1)

  blocked_within :
      (now total : ℕ) (since : Option ℕ)
      → BlockedWithin start now total since
      → BlockedWithin start now total (elim since [ none ↦ some now | some b ↦ some b ])
  blocked_within now total none h = (h, omega arith)
  blocked_within now total (some b) h = h

  pub blocked-Timed : (b : Bool) (now : ℕ) (c : Control) → Timed now c → Timed now (blocked b now c)
  unfolding blocked
  blocked-Timed true now c g = record {
    seen = g.seen;
    trace = g.trace;
    seen_before = g.seen_before;
    menu = g.menu;
    quitted = g.quitted;
    blocked = blocked_within now c.total_input_blocked_ns c.input_blocked_since_ns g.blocked;
  }
  blocked-Timed false now c g = record {
    seen = g.seen;
    trace = g.trace;
    seen_before = g.seen_before;
    menu = g.menu;
    quitted = g.quitted;
    blocked = unblocked_within now c.total_input_blocked_ns c.input_blocked_since_ns g.blocked;
  }

  pub blocked_later :
      (now later total : ℕ) (since : Option ℕ)
      → now ≤ later
      → BlockedWithin start now total since
      → BlockedWithin start later total since
  blocked_later now later total none h b = omega (arith, h, b)
  blocked_later now later total (some x) h b = (b.0, omega (arith, h, b.1))

  pub Timed-later : (now later : ℕ) (c : Control) → now ≤ later → Timed now c → Timed later c
  Timed-later now later c h g = record {
    seen = g.seen;
    trace = g.trace;
    seen_before = omega (arith, h, g.seen_before);
    menu = g.menu;
    quitted = g.quitted;
    blocked = blocked_later now later c.total_input_blocked_ns c.input_blocked_since_ns h g.blocked;
  }

  pressed-Timed :
      (now : ℕ) (before : Option ℕ) (input : Input) (reply : Ui Bool (Unit {0})) (c : Control)
      → Timed now c
      → TimedStep now (pressed now before input reply c)
  unfolding pressed
  pressed-Timed now before input (raises e) c g = fail-Timed now e c g
  pressed-Timed now before input (fails true) c g = blocked-Timed true now c g
  pressed-Timed now before input (fails false) c g = fail-Timed now _ c g
  pressed-Timed now before input (answers _) c g =
      let sent : Timed now (send (press now before input) c) = record {
        seen = g.seen;
        trace = g.trace;
        seen_before = g.seen_before;
        menu = g.menu;
        quitted = g.quitted;
        blocked = g.blocked;
      } in
      let h = blocked-Timed false now (send (press now before input) c) sent in
      record {
        seen = h.seen;
        trace = h.trace;
        seen_before = h.seen_before;
        menu = h.menu;
        quitted = h.quitted;
        blocked = h.blocked;
      }

  module _ (u : Setup) (f : Frame) where
    module _ (input : Input) where
      press_if_front-Timed :
          (on : Bool) (reply : Ui (Unit {0}) (Option ℕ)) (c : Control)
          → Timed f.seen_now c
          → TimedStep f.seen_now (press_if_front u f input on reply c)
      unfolding press_if_front
      press_if_front-Timed on (raises e) c g = fail-Timed f.seen_now e c g
      press_if_front-Timed on (fails _) c g = blocked-Timed true f.seen_now c g
      press_if_front-Timed on (answers before) c g =
          if-Timed f.seen_now (on && in_front u.pid before)
            (pressed f.seen_now before input f.input c) (defer f.seen_now c)
            (pressed-Timed f.seen_now before input f.input c g) (blocked-Timed true f.seen_now c g)

      activated-Timed :
          (reply : Ui (Unit {0}) (Unit {0})) (c : Control)
          → Timed f.seen_now c
          → TimedStep f.seen_now (activated u f input reply c)
      unfolding activated
      activated-Timed (raises e) c g = fail-Timed f.seen_now e c g
      activated-Timed (fails _) c g = press_if_front-Timed false f.checked c g
      activated-Timed (answers _) c g = press_if_front-Timed true f.checked c g

      attempted-Timed :
          (p : Bool × FocusRecovery) (c : Control)
          → Timed f.seen_now c
          → TimedStep f.seen_now (attempted u f input p c)
      attempted-Timed (false, r) c g = blocked-Timed true f.seen_now c g
      attempted-Timed (true, r) c g =
          activated-Timed f.activate
            (record (send (front f.seen_now) c) { recovery = r; focus_recovery_count = r.count })
            (record {
              seen = g.seen;
              trace = g.trace;
              seen_before = g.seen_before;
              menu = g.menu;
              quitted = g.quitted;
              blocked = g.blocked;
            })

      second-Timed :
          (o : Owner) (second : Ui (Unit {0}) (Option ℕ)) (c : Control)
          → Timed f.seen_now c
          → TimedStep f.seen_now (
              if still_owner o second
              then attempted u f input (attempt f.seen_now c.recovery) c
              else defer f.seen_now c)
      second-Timed o second c g =
          if-Timed f.seen_now (still_owner o second)
            (attempted u f input (attempt f.seen_now c.recovery) c) (defer f.seen_now c)
            (attempted-Timed (attempt f.seen_now c.recovery) c g)
            (blocked-Timed true f.seen_now c g)

      recover-Timed :
          (o : Option Owner) (second : Ui (Unit {0}) (Option ℕ)) (c : Control)
          → Timed f.seen_now c
          → TimedStep f.seen_now (recover u f input o second c)
      unfolding recover
      recover-Timed none second c g = blocked-Timed true f.seen_now c g
      recover-Timed (some o) (raises e) c g = fail-Timed f.seen_now e c g
      recover-Timed (some o) (fails x) c g = second-Timed o (fails x) c g
      recover-Timed (some o) (answers b) c g = second-Timed o (answers b) c g

      with_status-Timed :
          (reply : Ui (Unit {0}) (Option ℕ)) (c : Control)
          → Timed f.seen_now c
          → TimedStep f.seen_now (with_status u f input reply c)
      unfolding with_status
      with_status-Timed (raises e) c g = fail-Timed f.seen_now e c g
      with_status-Timed (fails _) c g = fail-Timed f.seen_now _ c g
      with_status-Timed (answers before) c g =
          let may = u.steam_only && allowed f.seen_now c.recovery in
          let deferred = blocked-Timed true f.seen_now c g in
          if-Timed f.seen_now (in_front u.pid before) (pressed f.seen_now before input f.input c)
            (if may then recover u f input f.owner f.fresh c else defer f.seen_now c)
            (pressed-Timed f.seen_now before input f.input c g)
            (if-Timed f.seen_now may (recover u f input f.owner f.fresh c) (defer f.seen_now c)
              (recover-Timed f.owner f.fresh c g) deferred)

    act-Timed :
        (next : Option Input) (c : Control)
        → Timed f.seen_now c
        → TimedStep f.seen_now (act u f next c)
    act-Timed none c g = g
    act-Timed (some input) c g = with_status-Timed input f.status c g

    quitted-Timed :
        (reply : Ui Bool (Unit {0})) (c : Control)
        → Timed f.seen_now c
        → TimedStep f.seen_now (quitted reply c)
    quitted-Timed (raises e) c g = fail-Timed f.seen_now e c g
    quitted-Timed (fails true) c g = fail-Timed f.seen_now _ c g
    quitted-Timed (fails false) c g = g
    quitted-Timed (answers _) c g = g

    asked-Timed :
        (o : Option StartupSession) (c : Control)
        → Timed f.seen_now c
        → c.session.exit_requested_ns ≡ none
        → request_exit f.seen_now c.session ≡ o
        → TimedStep f.seen_now (asked f o c)
    asked-Timed none c g h e = fail-Timed f.seen_now _ c g
    asked-Timed (some s) c g h e =
        let q = request_exit-fields f.seen_now c.session s h e in
        quitted-Timed f.quit_alive
          (record (send (quit f.seen_now) c) { session = s; quit_requested_ns = some f.seen_now })
          (record {
            seen = f.seen_now;
            trace = ask f.seen_now g.trace g.seen_before e;
            seen_before = omega arith;
            menu = g.menu ∙ sym q.0;
            quitted = sym q.1;
            blocked = g.blocked;
          })

    pub respond-Timed :
        (next : Option Input) (c : Control)
        → Timed f.seen_now c
        → c.session.exit_requested_ns ≡ none
        → TimedStep f.seen_now (respond u f next c)
    unfolding respond
    respond-Timed next c g h =
        let rested = sub_ge f.seen_now c.last_action (5 * 10 ^ 9) in
        if-Timed f.seen_now (is_some c.session.menu_verified_ns)
          (asked f (request_exit f.seen_now c.session) c)
          (if rested then act u f next c else going c)
          (asked-Timed (request_exit f.seen_now c.session) c g h refl)
          (if-Timed f.seen_now rested (act u f next c) (going c) (act-Timed next c g) g)
