-- ===== src/Gameplay/Session/Drive.antt =====
-- A whole drive: what a session remembers of the screens that it was shown.
use mathlib.Core.Path.{subst}
use mathlib.Core.List.{head?, append_assoc, append-nil}
use winecx_gptk.Common.{
  ℕ, ◌+◌, ◌*◌, ◌^◌, ◌≤◌, ◌<◌, ◌≡◌, refl, Bool, true, Option, none, some, List, [], ◌∷◌, ◌++◌, arith,
  length, AllOf, if◌then◌else◌, ◌∙◌, ap, Option-cases, inl, inr,
}
use winecx_gptk.Common.Int.{ℤ, pos}
use winecx_gptk.Common.Text.{Text, upper}
use winecx_gptk.Gameplay.Session.{
  SessionError, Session, init, racing, or_now, observe, drove_long_enough, valid_exit, last_or,
}

pub record Screen : Type 0 where
  pub now : ℕ
  pub uptime : ℕ
  pub text : Text

-- The screens in turn; `none` if one of them raises an error.
unfoldable pub drive : List Screen → Session → Option Session
drive [] s = some s
drive (v ∷ vs) s =
    let (error, s') = observe v.now v.uptime v.text s in
    elim error [ none ↦ drive vs s' | some _ ↦ none ]

-- The times of the screens that show the race.
unfoldable pub race_times : List Screen → List ℕ
race_times [] = []
race_times (v ∷ vs) =
    let rest = race_times vs in if racing (upper v.text) then v.now ∷ rest else rest

head?-snoc : (x : ℕ) (xs : List ℕ) → head? (xs ++ x ∷ []) ≡ or_now x (head? xs)
head?-snoc x [] = refl
head?-snoc x (y ∷ ys) = refl

abbrev after : Screen → Session → Option SessionError × Session
after v s = observe v.now v.uptime v.text s

abbrev seen : Screen → List ℕ
seen v = if racing (upper v.text) then v.now ∷ [] else []

module _ (v : Screen) (s : Session) (e : (after v s).0 ≡ none) where
  observations-observe : (after v s).1.observations ≡ s.observations ++ seen v
  unfolding observe
  observations-observe = ground (arith, append-nil s.observations)

  playing-observe :
      s.playing ≡ head? s.observations → (after v s).1.playing ≡ head? (after v s).1.observations
  unfolding observe
  playing-observe h = ground (arith, head?-snoc v.now s.observations, append-nil s.observations)

  deadline-observe : (v.now < s.deadline) × ((after v s).1.deadline ≡ s.deadline)
  unfolding observe
  deadline-observe = ground arith

-- What a drive without an error leaves behind.
abbrev Recorded : List Screen → Session → Session → Type 0
Recorded vs s s' =
    (s'.observations ≡ s.observations ++ race_times vs)
    × (s'.playing ≡ head? s'.observations)
    × (s'.deadline ≡ s.deadline)
    × AllOf (λ (v : Screen). v.now < s.deadline) vs

race_times-cons : (v : Screen) (vs : List Screen) → race_times (v ∷ vs) ≡ seen v ++ race_times vs
unfolding race_times
race_times-cons v vs = ground arith

drive-Recorded :
    (vs : List Screen) (s s' : Session)
    → drive vs s ≡ some s'
    → s.playing ≡ head? s.observations
    → Recorded vs s s'
unfolding drive
drive-Recorded [] s s' e h =
    (unfold race_times in ground (arith, append-nil s.observations), ground arith, ground arith, tt)
drive-Recorded (v ∷ vs) s s' e h = elim (Option-cases (after v s).0) [
  | inr (error, raised) ↦ absurd (ground arith)
  | inl fine ↦
      let t = (after v s).1 in
      let ih = drive-Recorded vs t s' (ground arith) (playing-observe v s fine h) in
      let (inside, same) = deadline-observe v s fine in
      let joined = append_assoc s.observations (seen v) (race_times vs) in
      (
        cc (ih.0, observations-observe v s fine, joined, race_times-cons v vs),
        ih.1,
        ih.2 ∙ same,
        (inside, subst (λ d. AllOf (λ (v : Screen). v.now < d) vs) same ih.3),
      )
]

-- The span between the first and the last recorded race time.
abbrev pub Spans : List ℕ → ℕ → Type 0
Spans [] span = ⊥
Spans (t ∷ ts) span = t + span ≤ last_or t ts

spans_lem :
    (times : List ℕ) → drove_long_enough times (head? times) ≡ true → Spans times (90 * 10 ^ 9)
spans_lem [] h = cc
spans_lem (t ∷ ts) h = ground arith

-- After any screens that raise no error, a new session has recorded exactly the times of the
-- screens that show the race, counts the play from the first of them, and saw every screen before
-- its deadline.
pub drive_records :
    (now uptime seconds timeout : ℕ) (vs : List Screen) (s : Session)
    → drive vs (init now uptime seconds timeout) ≡ some s
    → (s.observations ≡ race_times vs)
      × (s.playing ≡ head? (race_times vs))
      × AllOf (λ (v : Screen). v.now < now + timeout * 10 ^ 9) vs
unfolding init
drive_records now uptime seconds timeout vs s e =
    let h = drive-Recorded vs (init now uptime seconds timeout) s e refl in
    (h.0, h.1 ∙ ap (head? {A = ℕ}) h.0, h.3)

-- A drive ends validly only with exit status 0, a finished checkpoint, and at least three race
-- screens, the last of them 90 seconds or more after the first.
pub valid_exit_needs_drive :
    (now uptime seconds timeout : ℕ) (vs : List Screen) (s : Session) (code : ℤ) (checkpoint : Bool)
    → drive vs (init now uptime seconds timeout) ≡ some s
    → valid_exit code checkpoint s ≡ true
    → (code ≡ pos 0)
      × (checkpoint ≡ true)
      × (s.finished ≡ true)
      × (3 ≤ length (race_times vs))
      × Spans (race_times vs) (90 * 10 ^ 9)
unfolding valid_exit
valid_exit_needs_drive now uptime seconds timeout vs s code checkpoint e h =
    let r = drive_records now uptime seconds timeout vs s e in
    ground (arith, spans_lem (race_times vs), ap (length {A = ℕ}) r.0)
