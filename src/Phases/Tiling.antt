-- ===== src/Phases/Tiling.antt =====
-- The phases of analyze_run of runtime/kosmickrisp/investigation_analysis.py divide the time of the run.
use mathlib.Core.Path.{subst}
use winecx_gptk.Common.{
  ℕ, ◌+◌, ◌-◌, ◌≤◌, Bool, true, false, Option, none, some, List, [], ◌∷◌, ◌++◌, map, leb, AllOf,
  AllOf-left, AllOf-right, AllOf-append, Bool-cases, inl, inr, if◌then◌else◌, ◌≡◌, refl, sym, arith,
}
use winecx_gptk.Intervals.{Interval, union_ns, maximum}
use winecx_gptk.Intervals.Count.{count_in-split, count_from-le}
use winecx_gptk.Intervals.Sorting.{covers}
use winecx_gptk.Intervals.Union.{union_ns-eq-count}
use winecx_gptk.Waits.Segments.{points_of}
use winecx_gptk.Phases.{
  waits_in_logs, Observation, Logs, insert_observation, in_order, others, timestamps, start_of,
  finish_of, menu_in, is_menu_after, is_lap, gameplay_in, PhaseName, startup, menu_observed,
  gameplay_observed, Boundary, boundary_at, insert_boundary, sort_boundaries, boundaries,
  count_within, Phase, phase_of, next_time, phases_from, times_of,
}

-- Each phase begins where the one before it ends, and the last one ends at `finish`.
abbrev pub Tiles : ℕ → ℕ → List Phase → Type 0
Tiles start finish [] = start ≡ finish
Tiles start finish (p ∷ ps) = (p.start_ns ≡ start) × ((start ≤ p.end_ns) × Tiles p.end_ns finish ps)

abbrev pub waits_in : List Phase → ℕ
waits_in [] = 0
waits_in (p ∷ ps) = p.draw_wait_union_ns + waits_in ps

abbrev pub frames_in : List Phase → ℕ
frames_in [] = 0
frames_in (p ∷ ps) = p.present_count + frames_in ps

abbrev Ascending : ℕ → ℕ → List Boundary → Type 0
Ascending begin finish [] = begin ≤ finish
Ascending begin finish (b ∷ bs) = (begin ≤ b.1) × Ascending b.1 finish bs

Ascending-le : (begin finish : ℕ) (bs : List Boundary) → Ascending begin finish bs → begin ≤ finish
Ascending-le begin finish [] h = h
Ascending-le begin finish (b ∷ bs) h =
    let ih = Ascending-le b.1 finish bs h.1 in omega (arith, ih, h.0)

next_time-bounds :
    (begin finish : ℕ) (bs : List Boundary)
    → Ascending begin finish bs
    → (begin ≤ next_time finish bs) × (next_time finish bs ≤ finish)
next_time-bounds begin finish [] h = (h, omega arith)
next_time-bounds begin finish (b ∷ bs) h = (h.0, Ascending-le b.1 finish bs h.1)

union_ns-split :
    (xs : List Interval) (a b c : ℕ)
    → a ≤ b
    → b ≤ c
    → union_ns xs a c ≡ union_ns xs a b + union_ns xs b c
union_ns-split xs a b c h k = omega (
  arith,
  union_ns-eq-count xs a c,
  union_ns-eq-count xs a b,
  union_ns-eq-count xs b c,
  count_in-split (covers xs) {a = a} {b = b} {c = c} h k,
)

union_ns-empty : (xs : List Interval) (a : ℕ) → union_ns xs a a ≡ 0
union_ns-empty xs a =
    let l = count_from-le (covers xs) (a - a) a in omega (arith, union_ns-eq-count xs a a, l)

count_within-split :
    (a b c : ℕ) (ts : List ℕ)
    → a ≤ b
    → b ≤ c
    → count_within a c ts ≡ count_within a b ts + count_within b c ts
count_within-split a b c [] h k = refl
count_within-split a b c (t ∷ ts) h k = let ih = count_within-split a b c ts h k in ground arith

-- What is said of the phases from `start` to `finish`.
pub record IsDivided (logs : Logs) (start finish : ℕ) (ps : List Phase) : Type 0 where
  pub tiles : Tiles start finish ps
  pub waits : waits_in ps ≡ union_ns (waits_in_logs logs) start finish
  pub frames : frames_in ps ≡ count_within start finish (points_of logs.present)

module _ (logs : Logs) (finish : ℕ) where
  phases_from-IsDivided :
      (b : Boundary) (bs : List Boundary)
      → Ascending b.1 finish bs
      → IsDivided logs b.1 finish (phases_from logs finish (b ∷ bs))
  unfolding phases_from phase_of
  phases_from-IsDivided b [] h = record {
    tiles = (refl, (h, refl));
    waits = omega arith;
    frames = omega arith;
  }
  phases_from-IsDivided b (c ∷ bs) h =
      let ih = phases_from-IsDivided c bs h.1 in
      let l = Ascending-le c.1 finish bs h.1 in
      record {
        tiles = (refl, (h.0, ih.tiles));
        waits = omega (arith, ih.waits, union_ns-split (waits_in_logs logs) b.1 c.1 finish h.0 l);
        frames =
            omega
              (arith, ih.frames, count_within-split b.1 c.1 finish (points_of logs.present) h.0 l);
      }

  abbrev AtMost : Option ℕ → Type 0
  AtMost none = Unit {0}
  AtMost (some t) = t ≤ finish

  abbrev Early : List Observation → Type 0
  Early = AllOf (λ o. o.stamp ≤ finish)

  insert_observation-Early :
      (o : Observation) (os : List Observation)
      → o.stamp ≤ finish
      → Early os
      → Early (insert_observation o os)
  unfolding insert_observation
  insert_observation-Early o [] h k = (h, tt)
  insert_observation-Early o (p ∷ ps) h k =
      let ih = insert_observation-Early o ps h k.1 in
      elim (Bool-cases (leb o.stamp p.stamp)) [
        | inl e ↦
            subst (λ b. Early (if b then o ∷ p ∷ ps else p ∷ insert_observation o ps)) (sym e)
              (h, k)
        | inr e ↦
            subst (λ b. Early (if b then o ∷ p ∷ ps else p ∷ insert_observation o ps)) (sym e)
              (k.0, ih)
      ]

  in_order-Early : (os : List Observation) → Early os → Early (in_order os)
  unfolding in_order
  in_order-Early [] h = tt
  in_order-Early (o ∷ os) h = insert_observation-Early o (in_order os) h.0 (in_order-Early os h.1)

  if-AtMost :
      (b : Bool) (t : ℕ) (o : Option ℕ) → t ≤ finish → AtMost o → AtMost (if b then some t else o)
  if-AtMost true t o h k = h
  if-AtMost false t o h k = k

  menu_in-AtMost : (os : List Observation) → Early os → AtMost (menu_in os)
  unfolding menu_in
  menu_in-AtMost [] h = tt
  menu_in-AtMost (o ∷ []) h = tt
  menu_in-AtMost (o ∷ p ∷ os) h =
      if-AtMost (is_menu_after o p) p.stamp (menu_in (p ∷ os)) h.1.0 (menu_in-AtMost (p ∷ os) h.1)

  gameplay_in-AtMost : (os : List Observation) → Early os → AtMost (gameplay_in os)
  unfolding gameplay_in
  gameplay_in-AtMost [] h = tt
  gameplay_in-AtMost (o ∷ os) h =
      if-AtMost (is_lap o.text) o.stamp (gameplay_in os) h.0 (gameplay_in-AtMost os h.1)

  module _ (start : ℕ) where
    abbrev Between : List Boundary → Type 0
    Between = AllOf (λ b. (start ≤ b.1) × (b.1 ≤ finish))

    boundary_at-Between :
        (name : PhaseName) (o : Option ℕ) → AtMost o → Between (boundary_at start name o)
    boundary_at-Between name none h = tt
    boundary_at-Between name (some t) h = elim (Bool-cases (leb start t)) [
      | inl e ↦
          subst (λ b. Between (if b then (name, t) ∷ [] else [])) (sym e) ((ground arith, h), tt)
      | inr e ↦ subst (λ b. Between (if b then (name, t) ∷ [] else [])) (sym e) tt
    ]

  if-Ascending :
      (b : Bool) (begin : ℕ) (xs ys : List Boundary)
      → (b ≡ true → Ascending begin finish xs)
      → (b ≡ false → Ascending begin finish ys)
      → Ascending begin finish (if b then xs else ys)
  if-Ascending true begin xs ys h k = h refl
  if-Ascending false begin xs ys h k = k refl

  insert_boundary-Ascending :
      (begin : ℕ) (b : Boundary) (bs : List Boundary)
      → begin ≤ b.1
      → b.1 ≤ finish
      → Ascending begin finish bs
      → Ascending begin finish (insert_boundary b bs)
  unfolding insert_boundary
  insert_boundary-Ascending begin b [] h k a = (h, k)
  insert_boundary-Ascending begin b (c ∷ cs) h k a =
      let ih = insert_boundary-Ascending c.1 b cs in
      if-Ascending (leb b.1 c.1) begin (b ∷ c ∷ cs) (c ∷ insert_boundary b cs)
        (λ e. (h, (ground arith, a.1))) (λ e. (a.0, ih (ground arith) k a.1))

  sort_boundaries-Ascending :
      (start : ℕ) (bs : List Boundary)
      → start ≤ finish
      → Between start bs
      → Ascending start finish (sort_boundaries bs)
  unfolding sort_boundaries
  sort_boundaries-Ascending start [] l h = l
  sort_boundaries-Ascending start (b ∷ bs) l h =
      insert_boundary-Ascending start b (sort_boundaries bs) h.0.0 h.0.1
        (sort_boundaries-Ascending start bs l h.1)

  -- A boundary that no other is before comes first.
  insert_boundary-first :
      (b : Boundary) (bs : List Boundary) → Ascending b.1 finish bs → insert_boundary b bs ≡ b ∷ bs
  unfolding insert_boundary
  insert_boundary-first b [] h = refl
  insert_boundary-first b (c ∷ cs) h = let l = h.0 in ground arith

maximum-AllOf : (bound : ℕ) (xs : List ℕ) → maximum xs ≤ bound → AllOf (λ x. x ≤ bound) xs
maximum-AllOf bound [] h = tt
maximum-AllOf bound (x ∷ xs) h = (omega (arith, h), maximum-AllOf bound xs (omega (arith, h)))

Early-map :
    (bound : ℕ) (os : List Observation)
    → AllOf (λ x. x ≤ bound) (map (λ (o : Observation). o.stamp) os)
    → AllOf (λ o. o.stamp ≤ bound) os
Early-map bound [] h = tt
Early-map bound (o ∷ os) h = (h.0, Early-map bound os h.1)

-- The phases that analyze_run reports follow one another from the start to the end that it
-- reports, whatever the logs hold and the caller gives: the times of their draw waits add up to
-- the `draw_wait_union_ns` of the run, and their frames to the frames from the start to before
-- the end.
pub times_of-IsDivided :
    (logs : Logs) (caller : Option ℕ)
    → let r = times_of logs caller in
      IsDivided logs r.start_ns r.end_ns r.phases × (waits_in r.phases ≡ r.draw_wait_union_ns)
unfolding times_of boundaries sort_boundaries
times_of-IsDivided logs caller =
    let start = start_of logs caller in
    let finish = finish_of logs start in
    let os = in_order logs.observations in
    let stamps = map (λ (o : Observation). o.stamp) logs.observations in
    let all = maximum-AllOf finish (timestamps logs ++ (start ∷ [])) (omega arith) in
    let here = AllOf-right (λ x. x ≤ finish) (timestamps logs) (start ∷ []) all in
    let seen = AllOf-left (λ x. x ≤ finish) (timestamps logs) (start ∷ []) all in
    let early = in_order-Early logs finish logs.observations (
      Early-map finish logs.observations
        (AllOf-left (λ x. x ≤ finish) stamps (others logs) seen)) in
    let menu = boundary_at start menu_observed (menu_in os) in
    let race = boundary_at start gameplay_observed (gameplay_in os) in
    let sorted = sort_boundaries-Ascending logs finish start (menu ++ race) here.0 (
      AllOf-append (λ (b : Boundary). (start ≤ b.1) × (b.1 ≤ finish)) menu race
        (boundary_at-Between logs finish start menu_observed (menu_in os)
          (menu_in-AtMost logs finish os early))
        (boundary_at-Between logs finish start gameplay_observed (gameplay_in os)
          (gameplay_in-AtMost logs finish os early))) in
    let first =
      insert_boundary-first logs finish (startup, start) (sort_boundaries (menu ++ race)) sorted in
    let divided =
      phases_from-IsDivided logs finish (startup, start) (sort_boundaries (menu ++ race)) sorted in
    let whole =
      subst (λ bs. IsDivided logs start finish (phases_from logs finish bs)) (sym first) divided in
    (whole, whole.waits)
