-- ===== src/Waits/Partition.antt =====
-- The segments that attribute_waits of runtime/kosmickrisp/investigation_analysis.py makes of a wait: they
-- follow one another from its start to its end.
use winecx_gptk.Common.{
  ℕ, ◌+◌, ◌-◌, ◌≤◌, ◌<◌, true, false, ◌&&◌, List, [], ◌∷◌, ◌++◌, map, ltb, AllOf, AllOf-append,
  Bool-cases, ◌⊎◌, Option, none, some, inl, inr, ◌≡◌, ◌∙◌, ap, arith,
}
use winecx_gptk.Common.Text.{Text}
use winecx_gptk.Intervals.{Interval}
use winecx_gptk.Intervals.Sorting.{holds, covers}
use winecx_gptk.Waits.{Event}
use winecx_gptk.Waits.Segments.{
  points_of, rank, Work, work_of_event, work_in, in_queue_until, next_or, workers, queue_from,
  queue_in, enqueues, own_events, segments_from, ends, between, segments_of, Part, part_of,
}
use winecx_gptk.Waits.Points.{
  Rising, IsRising, has, last_of, last_of-le, has-Rising, points_of-IsRising, has-points_of,
  points_of-AllOf, AllOf-last_of,
}
use winecx_gptk.Waits.Report.{part_ends}
use winecx_gptk.Waits.Exclusive.{covered_by, lengths}

abbrev pub Between : ℕ → ℕ → ℕ → Type 0
Between left right x = (left ≤ x) × (x ≤ right)

abbrev SpansBetween : ℕ → ℕ → List Interval → Type 0
SpansBetween left right = AllOf (λ i. Between left right i.0 × Between left right i.1)

ends-Between :
    (left right : ℕ) (is : List Interval)
    → SpansBetween left right is
    → AllOf (Between left right) (ends is)
ends-Between left right [] h = tt
ends-Between left right ((a, b) ∷ is) h = (h.0.0, (h.0.1, ends-Between left right is h.1))

module _ (left right : ℕ) (ordered : left < right) where
  abbrev spans : List Work → List Interval
  spans = map (λ (w : Work). w.span)

  work_of_event-Between :
      (e : Event) (o : Option ℕ) → SpansBetween left right (spans (work_of_event left right e o))
  work_of_event-Between e none = tt
  work_of_event-Between e (some r) =
      if_work (Bool-cases (ltb left e.end_ns && ltb e.start_ns right))
    where
      if_work :
          (ltb left e.end_ns && ltb e.start_ns right ≡ true)
            ⊎ (ltb left e.end_ns && ltb e.start_ns right ≡ false)
          → SpansBetween left right (spans (work_of_event left right e (some r)))
      if_work (inl b) = rw b ((ground arith, ground arith), tt)
      if_work (inr b) = rw b tt

  spans-append :
      (ws vs : List Work)
      → SpansBetween left right (spans ws)
      → SpansBetween left right (spans vs)
      → SpansBetween left right (spans (ws ++ vs))
  spans-append [] vs h k = k
  spans-append (w ∷ ws) vs h k = (h.0, spans-append ws vs h.1 k)

  work_in-Between : (es : List Event) → SpansBetween left right (spans (work_in left right es))
  unfolding work_in
  work_in-Between [] = tt
  work_in-Between (e ∷ es) =
      spans-append (work_of_event left right e (rank e.phase)) (work_in left right es)
        (work_of_event-Between e (rank e.phase)) (work_in-Between es)

  in_queue_until-Between :
      (q : ℕ) (ds : List ℕ) → SpansBetween left right (in_queue_until left right q ds)
  in_queue_until-Between q [] = tt
  in_queue_until-Between q (d ∷ _ ∷ _) = tt
  in_queue_until-Between q (d ∷ []) = if_queued (Bool-cases (ltb left d && ltb q right))
    where
      if_queued :
          (ltb left d && ltb q right ≡ true) ⊎ (ltb left d && ltb q right ≡ false)
          → SpansBetween left right (in_queue_until left right q (d ∷ []))
      if_queued (inl b) = rw b ((ground arith, ground arith), tt)
      if_queued (inr b) = rw b tt

  queue_from-Between :
      (end : ℕ) (own : List Event) (qs : List ℕ)
      → SpansBetween left right (queue_from left right end own qs)
  unfolding queue_from
  queue_from-Between end own [] = tt
  queue_from-Between end own (q ∷ qs) =
      let ds = workers own q (next_or (end + 1) qs) in
      AllOf-append (λ (i : Interval). Between left right i.0 × Between left right i.1)
        (in_queue_until left right q ds) (queue_from left right end own qs)
        (in_queue_until-Between q ds) (queue_from-Between end own qs)

-- Parts that follow one another cover the time from the first point to the last.
abbrev parts_from : List Work → List Interval → ℕ → List ℕ → List Part
parts_from works queue p ps = map part_of (segments_from works queue p ps)

module _ (works : List Work) (queue : List Interval) where
  lengths-parts :
      (p : ℕ) (ps : List ℕ) → Rising p ps → lengths (parts_from works queue p ps) ≡ last_of p ps - p
  unfolding segments_from
  lengths-parts p [] h = omega arith
  lengths-parts p (q ∷ qs) h =
      let ih = lengths-parts q qs h.1 in let l = last_of-le q qs h.1 in omega (arith, ih, l, h.0)

  covered_by-parts :
      (t p : ℕ) (ps : List ℕ)
      → Rising p ps
      → covered_by (parts_from works queue p ps) t ≡ holds t (p, last_of p ps)
  unfolding segments_from covers
  covered_by-parts t p [] h = ground arith
  covered_by-parts t p (q ∷ qs) h =
      let ih = covered_by-parts t q qs h.1 in let l = last_of-le q qs h.1 in ground arith

  part_ends-AllOf :
      (P : ℕ → Type 0) (p : ℕ) (ps : List ℕ)
      → P p
      → AllOf P ps
      → AllOf P (part_ends (parts_from works queue p ps))
  unfolding segments_from
  part_ends-AllOf P p [] h k = tt
  part_ends-AllOf P p (q ∷ qs) h k = (h, (k.0, part_ends-AllOf P q qs k.0 k.1))

-- What the parts of a wait from `left` to `right` are like.
pub record Tiles (left right : ℕ) (ps : List Part) : Type 0 where
  pub total : lengths ps ≡ right - left
  pub cover : (t : ℕ) → covered_by ps t ≡ holds t (left, right)
  pub within : AllOf (Between left right) (part_ends ps)

between-Tiles :
    (left right : ℕ) (works : List Work) (queue : List Interval) (points : List ℕ)
    → IsRising points
    → AllOf (Between left right) points
    → has left points ≡ true
    → has right points ≡ true
    → Tiles left right (map part_of (between works queue points))
between-Tiles left right works queue [] h w l r = absurd cc
between-Tiles left right works queue (p ∷ ps) h w l r =
    let first : p ≡ left = let k = has-Rising left p ps h in ground arith in
    let low = last_of-le p ps h in
    let high = AllOf-last_of (Between left right) p ps w.0 w.1 in
    let last : last_of p ps ≡ right = let k = has-Rising right p ps h in ground arith in
    record {
      total = omega (arith, lengths-parts works queue p ps h, first, last);
      cover = λ t.
          covered_by-parts works queue t p ps h
          ∙ ap (λ a. holds t (a, last_of p ps)) first
          ∙ ap (λ b. holds t (left, b)) last;
      within = part_ends-AllOf works queue (Between left right) p ps w.0 w.1;
    }

pub segments_of-Tiles :
    (left right end : ℕ) (events related : List Event) (key : Option Text)
    → left < right
    → Tiles left right (
        map part_of (
          segments_of left right (work_in left right related) (queue_in left right end events key)))
unfolding segments_of queue_in
segments_of-Tiles left right end events related key ordered =
    let works = work_in left right related in
    let own = own_events events key in
    let queue = queue_in left right end events key in
    let all = left ∷ right ∷ ends (map (λ (w : Work). w.span) works ++ queue) in
    let spans =
      AllOf-append (λ (i : Interval). Between left right i.0 × Between left right i.1)
        (map (λ (w : Work). w.span) works) queue (work_in-Between left right ordered related)
        (queue_from-Between left right ordered end own (enqueues own)) in
    between-Tiles left right works queue (points_of all) (points_of-IsRising all)
      (points_of-AllOf (Between left right) all (
        (omega arith, omega arith),
        (
          (omega arith, omega arith),
          ends-Between left right (map (λ (w : Work). w.span) works ++ queue) spans,
        ),
      ))
      (has-points_of left all ∙ ground arith) (has-points_of right all ∙ ground arith)
