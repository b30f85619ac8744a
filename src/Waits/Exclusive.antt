-- ===== src/Waits/Exclusive.antt =====
-- exclusive_segments of runtime/kosmickrisp/investigation_analysis.py counts no time twice: its parts are as
-- long, all together, as the time that the segments cover.
use winecx_gptk.Common.{
  ℕ, ◌+◌, ◌-◌, ◌≤◌, ◌<◌, Bool, true, false, List, [], ◌∷◌, ◌++◌, map, ◌==◌, any, select, AllOf,
  Bool-cases, ◌⊎◌, inl, inr, if◌then◌else◌, ◌≡◌, refl, sym, ◌∙◌, ap, arith,
}
use winecx_gptk.Intervals.{Interval}
use winecx_gptk.Intervals.Count.{
  count_in, count_in-split, count_in_full, count_in_none, count_in_empty,
}
use winecx_gptk.Intervals.Sorting.{covers}
use winecx_gptk.Waits.Segments.{Label, same_label, add_time, durations, total_of, Part, points_of}
use winecx_gptk.Waits.Report.{
  part_ends, is_over, agreed, kept_part, exclusive_from, exclusive_over, exclusive_segments,
}
use winecx_gptk.Waits.Points.{
  Rising, IsRising, has, last_of, last_of-le, has-Rising, points_of-IsRising, has-points_of,
  points_of-AllOf, AllOf-last_of,
}

abbrev pub span_of : Part → Interval
span_of p = (p.begin, p.finish)

abbrev pub covered_by : List Part → ℕ → Bool
covered_by ps t = covers (map span_of ps) t

-- How long the parts are, all together.
abbrev pub lengths : List Part → ℕ
lengths [] = 0
lengths (p ∷ ps) = (p.finish - p.begin) + lengths ps

pub lengths-append : (ps qs : List Part) → lengths (ps ++ qs) ≡ lengths ps + lengths qs
lengths-append [] qs = omega arith
lengths-append (p ∷ ps) qs = omega (arith, lengths-append ps qs)

add_time-total :
    (l : Label) (n : ℕ) (c : List (Label × ℕ))
    → total_of (add_time same_label l n c) ≡ total_of c + n
unfolding add_time
add_time-total l n [] = omega arith
add_time-total l n ((m, k) ∷ c) = let ih = add_time-total l n c in ground arith

-- A counter of the parts adds up to their lengths.
pub total_of-durations :
    (c : List (Label × ℕ)) (ps : List Part) → total_of (durations c ps) ≡ total_of c + lengths ps
unfolding durations
total_of-durations c [] = omega arith
total_of-durations c (p ∷ ps) =
    let n = p.finish - p.begin in
    let one = add_time-total p.label n c in
    let rest = total_of-durations (add_time same_label p.label n c) ps in omega (arith, one, rest)

-- An end is not after a point, or it is among the points that follow.
abbrev pub Known : ℕ → List ℕ → ℕ → Type 0
Known p ps x = (x ≤ p) ⊎ (has x ps ≡ true)

abbrev EndsKnown : ℕ → List ℕ → List Part → Type 0
EndsKnown p ps = AllOf (λ s. Known p ps s.begin × Known p ps s.finish)

pub Known-next : (p q x : ℕ) (ps : List ℕ) → p < q → Known p (q ∷ ps) x → Known q ps x
Known-next p q x ps h (inl e) = inl (omega arith)
Known-next p q x ps h (inr e) = elim (Bool-cases (x == q)) [
  | inl f ↦ inl (ground arith)
  | inr f ↦ inr (ground arith)
]

EndsKnown-next :
    (p q : ℕ) (ps : List ℕ) (ss : List Part) → p < q → EndsKnown p (q ∷ ps) ss → EndsKnown q ps ss
EndsKnown-next p q ps [] h k = tt
EndsKnown-next p q ps (s ∷ ss) h k = (
  (Known-next p q s.begin ps h k.0.0, Known-next p q s.finish ps h k.0.1),
  EndsKnown-next p q ps ss h k.1,
)

pub Known-clear :
    (p q x : ℕ) (ps : List ℕ) → Rising p (q ∷ ps) → Known p (q ∷ ps) x → (x ≤ p) ⊎ (q ≤ x)
Known-clear p q x ps h (inl e) = inl e
Known-clear p q x ps h (inr e) = elim (Bool-cases (x == q)) [
  | inl f ↦ inr (ground arith)
  | inr f ↦ let r = has-Rising x q ps h.1 (ground arith) in inr (omega (arith, r.0))
]

module _ (p q : ℕ) (ps : List ℕ) (rising : Rising p (q ∷ ps)) (t : ℕ) (low : p ≤ t)
    (high : t < q) where
  -- Between two points that follow one another a part covers all or nothing.
  covered_by-any :
      (ss : List Part) → EndsKnown p (q ∷ ps) ss → covered_by ss t ≡ any (is_over p q) ss
  unfolding covers
  covered_by-any [] k = refl
  covered_by-any (s ∷ ss) k =
      let b = Known-clear p q s.begin ps rising k.0.0 in
      let f = Known-clear p q s.finish ps rising k.0.1 in
      let ih = covered_by-any ss k.1 in ground arith

lengths-kept :
    (p q : ℕ) (ss : List Part)
    → lengths (kept_part p q (agreed (select (is_over p q) ss)))
      ≡ (if any (is_over p q) ss then q - p else 0)
lengths-kept p q [] = refl
lengths-kept p q (s ∷ ss) = let ih = lengths-kept p q ss in ground arith

count-kept :
    (p q : ℕ) (ps : List ℕ) (ss : List Part)
    → Rising p (q ∷ ps)
    → EndsKnown p (q ∷ ps) ss
    → lengths (kept_part p q (agreed (select (is_over p q) ss))) ≡ count_in (covered_by ss) p q
count-kept p q ps ss h k =
    let c = covered_by-any p q ps h in
    let l = lengths-kept p q ss in
    elim (Bool-cases (any (is_over p q) ss)) [
      | inl e ↦
          let n = count_in_full (covered_by ss) {a = p} {b = q} (λ t a b. c t a b ss k ∙ e) in
          l ∙ ap (λ b. if b then q - p else 0) e ∙ sym n
      | inr e ↦
          let n = count_in_none (covered_by ss) {a = p} {b = q} (λ t a b. c t a b ss k ∙ e) in
          l ∙ ap (λ b. if b then q - p else 0) e ∙ sym n
    ]

lengths-exclusive_from :
    (p : ℕ) (ps : List ℕ) (ss : List Part)
    → Rising p ps
    → EndsKnown p ps ss
    → lengths (exclusive_from ss p ps) ≡ count_in (covered_by ss) p (last_of p ps)
unfolding exclusive_from
lengths-exclusive_from p [] ss h k =
    sym (count_in_empty (covered_by ss) {a = p} {b = p} (omega arith))
lengths-exclusive_from p (q ∷ ps) ss h k =
    let kept = kept_part p q (agreed (select (is_over p q) ss)) in
    let one = count-kept p q ps ss h k in
    let rest = lengths-exclusive_from q ps ss h.1 (EndsKnown-next p q ps ss h.0 k) in
    let l = last_of-le q ps h.1 in
    let split =
      count_in-split (covered_by ss) {a = p} {b = q} {c = last_of q ps} (omega (arith, h.0)) l in
    lengths-append kept (exclusive_from ss q ps) ∙ omega (arith, one, rest, split)

abbrev Within : ℕ → ℕ → ℕ → Type 0
Within start end x = (start ≤ x) × (x ≤ end)

abbrev pub PartsWithin : ℕ → ℕ → List Part → Type 0
PartsWithin start end ss = AllOf (Within start end) (part_ends ss)

abbrev AllIn : ℕ → List ℕ → List Part → Type 0
AllIn p ps = AllOf (λ s. (has s.begin (p ∷ ps) ≡ true) × (has s.finish (p ∷ ps) ≡ true))

AllIn-known : (p : ℕ) (ps : List ℕ) (ss : List Part) → AllIn p ps ss → EndsKnown p ps ss
AllIn-known p ps [] h = tt
AllIn-known p ps (s ∷ ss) h = ((known s.begin h.0.0, known s.finish h.0.1), AllIn-known p ps ss h.1)
  where
    known : (x : ℕ) → has x (p ∷ ps) ≡ true → Known p ps x
    known x k = elim (Bool-cases (x == p)) [
      | inl e ↦ inl (ground arith)
      | inr e ↦ inr (ground arith)
    ]

uncovered :
    (p t : ℕ) (ps : List ℕ) (ss : List Part)
    → Rising p ps
    → AllIn p ps ss
    → (t < p) ⊎ (last_of p ps ≤ t)
    → covered_by ss t ≡ false
unfolding covers
uncovered p t ps [] h k o = refl
uncovered p t ps (s ∷ ss) h k o =
    let b = has-Rising s.begin p ps h in
    let f = has-Rising s.finish p ps h in
    let l = last_of-le p ps h in let ih = uncovered p t ps ss h k.1 o in ground arith

AllIn-ends :
    (p : ℕ) (ps : List ℕ) (ss : List Part)
    → ((x : ℕ) → has x (part_ends ss) ≡ true → has x (p ∷ ps) ≡ true)
    → AllIn p ps ss
AllIn-ends p ps [] h = tt
AllIn-ends p ps (s ∷ ss) h = (
  (h s.begin (ground arith), h s.finish (ground arith)),
  AllIn-ends p ps ss (λ x k. h x (ground arith)),
)

lengths-exclusive_over :
    (start end : ℕ) (ss : List Part) (points : List ℕ)
    → IsRising points
    → AllOf (Within start end) points
    → ((x : ℕ) → has x points ≡ has x (part_ends ss))
    → lengths (exclusive_over ss points) ≡ count_in (covered_by ss) start end
lengths-exclusive_over start end [] [] h w m =
    sym (count_in_none (covered_by []) {a = start} {b = end} (λ t a b. unfold covers in refl))
lengths-exclusive_over start end (s ∷ ss) [] h w m = let b = m s.begin in absurd (ground arith)
lengths-exclusive_over start end ss (p ∷ ps) h w m =
    let known = AllIn-ends p ps ss (λ x k. m x ∙ k) in
    let last = last_of p ps in
    let low = last_of-le p ps h in
    let high = AllOf-last_of (Within start end) p ps w.0 w.1 in
    let c = covered_by ss in
    let main = lengths-exclusive_from p ps ss h (AllIn-known p ps ss known) in
    let before =
      count_in_none c {a = start} {b = p} (λ t a b. uncovered p t ps ss h known (inl b)) in
    let after =
      count_in_none c {a = last} {b = end} (λ t a b. uncovered p t ps ss h known (inr a)) in
    let one = count_in-split c {a = start} {b = p} {c = end} (w.0.0) (omega (arith, low, high.1)) in
    let two = count_in-split c {a = p} {b = last} {c = end} low high.1 in
    main ∙ omega (arith, before, after, one, two)

-- The total of the exclusive parts is the number of stamps that the segments cover.
pub total_of-exclusive_segments :
    (start end : ℕ) (ss : List Part)
    → PartsWithin start end ss
    → total_of (durations [] (exclusive_segments ss)) ≡ count_in (covered_by ss) start end
unfolding exclusive_segments
total_of-exclusive_segments start end ss w =
    let points = points_of (part_ends ss) in
    let main =
      lengths-exclusive_over start end ss points (points_of-IsRising (part_ends ss))
        (points_of-AllOf (Within start end) (part_ends ss) w)
        (λ x. has-points_of x (part_ends ss)) in
    let sum = total_of-durations [] (exclusive_over ss points) in omega (arith, sum, main)
