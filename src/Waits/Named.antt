-- ===== src/Waits/Named.antt =====
-- attribute_waits of runtime/kosmickrisp/investigation_analysis.py raises nothing if every event of a work
-- phase has the key of a request id.
use mathlib.Core.Path.{subst}
use winecx_gptk.Common.{
  ℕ, zero, suc, Bool, true, false, not, ◌&&◌, ◌||◌, Option, none, some, is_some, List, [], ◌∷◌,
  ◌++◌, ◌==◌, any, select, Bool-cases, inl, inr, if◌then◌else◌, ◌≡◌, refl, sym, ◌∙◌, arith,
}
use winecx_gptk.Common.Text.{Text}
use winecx_gptk.Intervals.{Interval}
use winecx_gptk.Waits.{
  Event, is_id, same_id, member, family, Search, belongs, take_event, add_related, scan, search,
  enough, related_to,
}
use winecx_gptk.Waits.Segments.{
  rank, Work, work_of_event, work_in, lacks_id, of_best, best_rank, judge, Segment, segment,
  segments_from, between, segments_of, cuts, spans,
}

-- The event is work, and the key of its request id is missing.
abbrev pub is_unnamed : Event → Bool
is_unnamed e = is_some (rank e.phase) && not e.has_request_id

any-append {ℓ} :
    {A : Type ℓ} (p : A → Bool) (xs ys : List A) → any p (xs ++ ys) ≡ (any p xs || any p ys)
any-append p [] ys = refl
any-append p (x ∷ xs) ys = ground (arith, any-append p xs ys)

any-select {ℓ} :
    {A : Type ℓ} (p q : A → Bool) (xs : List A) → any p xs ≡ false → any p (select q xs) ≡ false
any-select p q [] h = refl
any-select p q (x ∷ xs) h =
    let ih = any-select p q xs in
    elim (Bool-cases (q x)) [ inl b ↦ ground arith | inr b ↦ ground arith ]

work_of_event_named :
    (left right : ℕ) (e : Event) (o : Option ℕ)
    → (is_some o && not e.has_request_id) ≡ false
    → any lacks_id (work_of_event left right e o) ≡ false
work_of_event_named left right e none h = refl
work_of_event_named left right e (some r) h = ground arith

pub work_in_named :
    (left right : ℕ) (es : List Event)
    → any is_unnamed es ≡ false
    → any lacks_id (work_in left right es) ≡ false
unfolding work_in
work_in_named left right [] h = refl
work_in_named left right (e ∷ es) h =
    let one = work_of_event_named left right e (rank e.phase) (ground arith) in
    let rest = work_in_named left right es (ground arith) in
    any-append lacks_id (work_of_event left right e (rank e.phase)) (work_in left right es)
    ∙ ground (arith, one, rest)

of_best_named : (works : List Work) → any lacks_id works ≡ false → (of_best works).stops ≡ false
of_best_named [] h = refl
of_best_named (w ∷ ws) h =
    let c = any-select lacks_id (λ v. v.rank == best_rank w.rank ws) (w ∷ ws) h in ground arith

judge_named :
    (works : List Work) (queue : Bool)
    → any lacks_id works ≡ false
    → (judge works queue).stops ≡ false
judge_named [] true h = refl
judge_named [] false h = refl
judge_named (w ∷ ws) true h = refl
judge_named (w ∷ ws) false h = of_best_named (w ∷ ws) h

abbrev stopped : List Segment → Bool
stopped = any (λ s. s.verdict.stops)

module _ (works : List Work) (queue : List Interval) (named : any lacks_id works ≡ false) where
  segments_from_named : (p : ℕ) (ps : List ℕ) → stopped (segments_from works queue p ps) ≡ false
  unfolding segments_from segment
  segments_from_named p [] = refl
  segments_from_named p (q ∷ ps) =
      let ih = segments_from_named q ps in
      let chosen = select (λ w. spans p q w.span) works in
      let here =
        judge_named chosen (any (spans p q) queue)
          (any-select lacks_id (λ w. spans p q w.span) works named) in
      ground (arith, ih, here)

  between_named : (ps : List ℕ) → stopped (between works queue ps) ≡ false
  between_named [] = refl
  between_named (p ∷ ps) = segments_from_named p ps

  pub segments_of_named : (left right : ℕ) → stopped (segments_of left right works queue) ≡ false
  unfolding segments_of
  segments_of_named left right = between_named (cuts left right works queue)

module _ (wait : Event) (key : Text) (left right : ℕ) where
  add_related_named :
      (e : Event) (es : List Event)
      → is_unnamed e ≡ false
      → any is_unnamed es ≡ false
      → any is_unnamed (add_related e es) ≡ false
  add_related_named e es h k =
      let both = any-append is_unnamed es (e ∷ []) in
      elim (Bool-cases (any (λ r. r.number == e.number) es)) [
        | inl b ↦ ground arith
        | inr b ↦ ground arith
      ]

  abbrev offered : Text → Event → Bool → Search → Search
  offered parent e b s = if b then take_event wait key left right parent e s else s

  offered_named :
      (parent : Text) (e : Event) (b : Bool) (s : Search)
      → is_unnamed e ≡ false
      → any is_unnamed s.related ≡ false
      → any is_unnamed (offered parent e b s).related ≡ false
  offered_named parent e true s h k = add_related_named e s.related h k
  offered_named parent e false s h k = k

  scan_named :
      (parent : Text) (es : List Event) (s : Search)
      → any is_unnamed es ≡ false
      → any is_unnamed s.related ≡ false
      → any is_unnamed (scan wait key left right parent es s).related ≡ false
  unfolding scan
  scan_named parent [] s h k = k
  scan_named parent (e ∷ es) s h k =
      let b = belongs wait key left right parent e s in
      scan_named parent es (offered parent e b s) (ground arith)
        (offered_named parent e b s (ground arith) k)

  family_named :
      (events : List Event) (parent : Text)
      → any is_unnamed events ≡ false
      → any is_unnamed (family events parent) ≡ false
  unfolding family
  family_named events parent h =
      let own = select (λ e. is_id parent e.request_id) events in
      let children =
        select (λ e. is_id parent e.parent_id && not (same_id e.parent_id e.request_id)) events in
      let one = any-select is_unnamed (λ e. is_id parent e.request_id) events h in
      let two =
        any-select is_unnamed
          (λ e. is_id parent e.parent_id && not (same_id e.parent_id e.request_id)) events h in
      any-append is_unnamed own children ∙ ground (arith, one, two)

  abbrev IfNamed : Option (List Event) → Type 0
  IfNamed none = Unit {0}
  IfNamed (some es) = any is_unnamed es ≡ false

  search_named :
      (fuel : ℕ) (events : List Event) (pending : List Text) (s : Search)
      → s.pending ≡ pending
      → any is_unnamed events ≡ false
      → any is_unnamed s.related ≡ false
      → IfNamed (search wait key left right events fuel s)
  unfolding search
  search_named zero events [] s e h k =
      let done : search wait key left right events zero s ≡ some s.related = ground arith in
      subst IfNamed (sym done) k
  search_named zero events (p ∷ ps) s e h k =
      let done : search wait key left right events zero s ≡ none = ground arith in
      subst IfNamed (sym done) tt
  search_named (suc fuel) events [] s e h k =
      let done : search wait key left right events (suc fuel) s ≡ some s.related = ground arith in
      subst IfNamed (sym done) k
  search_named (suc fuel) events (p ∷ ps) s e h k =
      let skipped : Search = record s { pending = ps } in
      let fresh : Search = record s { pending = ps; visited = p ∷ s.visited } in
      let next : Search = scan wait key left right p (family events p) fresh in
      elim (Bool-cases (member p s.visited)) [
        | inl v ↦
            let done : search wait key left right events (suc fuel) s
                ≡ search wait key left right events fuel skipped =
              ground arith in
            subst IfNamed (sym done) (search_named fuel events ps skipped refl h k)
        | inr v ↦
            let done : search wait key left right events (suc fuel) s
                ≡ search wait key left right events fuel next =
              ground arith in
            let named = scan_named p (family events p) fresh (family_named events p h) k in
            subst IfNamed (sym done) (search_named fuel events next.pending next refl h named)
      ]

pub related_to_named :
    (events : List Event) (wait : Event) (key : Option Text) (left right : ℕ) (related : List Event)
    → any is_unnamed events ≡ false
    → related_to events wait key left right ≡ some related
    → any is_unnamed related ≡ false
unfolding related_to
related_to_named events wait none left right related h e =
    subst (λ o. IfNamed wait [] left right o) e refl
related_to_named events wait (some key) left right related h e =
    let s : Search = record { pending = key ∷ []; visited = []; shared = []; related = [] } in
    subst (IfNamed wait key left right) e
      (search_named wait key left right (enough events) events (key ∷ []) s refl h refl)
