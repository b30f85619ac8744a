-- ===== src/Intervals/Durations.antt =====
-- The numbers of `duration_summary` bound one another.
use winecx_gptk.Common.{
  ℕ, ◌+◌, ◌-◌, ◌≤◌, ◌<◌, ◌≡◌, refl, ◌∙◌, Bool, true, false, List, [], ◌∷◌, arith, map, min, max,
  inl, inr, Bool-cases,
}
use winecx_gptk.Intervals.{Interval, touches, clipped, width, sum, maximum, duration_summary}
use winecx_gptk.Intervals.Count.{
  count_in, count_in-split, count_in_full, count_in_none, count_in_congr, count_in_mono,
  count_in_or, count_from-le,
}
use winecx_gptk.Intervals.Sorting.{holds, covers}
use winecx_gptk.Intervals.Union.{union_ns-eq-count}

abbrev inside : Interval → ℕ → Bool
inside x t = holds t x

module _ (start end : ℕ) (ordered : start ≤ end) where
  -- An interval holds as many stamps of the window as its clipped part is long.
  count_in-inside :
      (l r : ℕ)
      → touches start end (l, r) ≡ true
      → count_in (inside (l, r)) start end ≡ min r end - max l start
  count_in-inside l r h =
      let p = inside (l, r) in
      let left = max l start in
      let right = min r end in
      let low : (start ≤ left) × (left ≤ right) × (right ≤ end) = ground arith in
      let whole = count_in-split p {a = start} {b = left} {c = end} (low.0) (omega arith) in
      let rest = count_in-split p {a = left} {b = right} {c = end} (low.1) (low.2) in
      let before = count_in_none p {a = start} {b = left} (λ t a b. ground arith) in
      let within = count_in_full p {a = left} {b = right} (λ t a b. ground arith) in
      let after = count_in_none p {a = right} {b = end} (λ t a b. ground arith) in omega arith

  count_in-outside :
      (l r : ℕ) → touches start end (l, r) ≡ false → count_in (inside (l, r)) start end ≡ 0
  count_in-outside l r h =
      count_in_none (inside (l, r)) {a = start} {b = end} (λ t a b. ground arith)

  count-cons :
      (x : Interval) (xs : List Interval)
      → count_in (covers (x ∷ xs)) start end
        ≤ count_in (inside x) start end + count_in (covers xs) start end
  unfolding covers
  count-cons x xs =
      count_in_or (inside x) (covers xs) (covers (x ∷ xs)) start end (λ t h. ground arith)

  count-ge_head :
      (x : Interval) (xs : List Interval)
      → count_in (inside x) start end ≤ count_in (covers (x ∷ xs)) start end
  unfolding covers
  count-ge_head x xs = count_in_mono (inside x) (covers (x ∷ xs)) start end (λ t h. ground arith)

  count-ge_tail :
      (x : Interval) (xs : List Interval)
      → count_in (covers xs) start end ≤ count_in (covers (x ∷ xs)) start end
  unfolding covers
  count-ge_tail x xs = count_in_mono (covers xs) (covers (x ∷ xs)) start end (λ t h. ground arith)

  abbrev widths : List Interval → List ℕ
  widths xs = map width (clipped xs start end)

  widths_bound :
      (xs : List Interval)
      → (maximum (widths xs) ≤ count_in (covers xs) start end)
        × (count_in (covers xs) start end ≤ sum (widths xs))
  unfolding clipped
  widths_bound [] =
      omega
        (arith, count_in_none (covers []) {a = start} {b = end} (λ t a b. unfold covers in refl))
  widths_bound ((l, r) ∷ xs) =
      let ih = widths_bound xs in
      let head = count-ge_head (l, r) xs in
      let tail = count-ge_tail (l, r) xs in
      let both = count-cons (l, r) xs in
      elim (Bool-cases (touches start end (l, r))) [
        | inl on ↦ ground (arith, count_in-inside l r on)
        | inr off ↦ ground (arith, count_in-outside l r off)
      ]

  covers-clipped :
      (t : ℕ) (xs : List Interval)
      → start ≤ t
      → t < end
      → covers (clipped xs start end) t ≡ covers xs t
  unfolding covers clipped
  covers-clipped t [] h k = refl
  covers-clipped t ((l, r) ∷ xs) h k =
      let ih = covers-clipped t xs h k in
      elim (Bool-cases (touches start end (l, r))) [ inl b ↦ ground arith | inr b ↦ ground arith ]

  -- In a window that does not end before it starts, the longest clipped interval is at most the
  -- union, the union at most the sum of the durations, and the union at most the window.
  pub duration_summary_bounds :
      (xs : List Interval)
      → let s = duration_summary xs start end in
        (s.maximum_duration_ns ≤ s.union_duration_ns)
        × (s.union_duration_ns ≤ s.summed_duration_ns)
        × (s.union_duration_ns ≤ end - start)
  unfolding duration_summary
  duration_summary_bounds xs =
      let b = widths_bound xs in
      let inside = clipped xs start end in
      let same =
        count_in_congr (covers inside) (covers xs) {a = start} {b = end}
          (λ t h k. covers-clipped t xs h k) in
      let u = union_ns-eq-count inside start end ∙ same in
      let w = count_from-le (covers xs) (end - start) start in
      (omega arith, omega arith, omega arith)
