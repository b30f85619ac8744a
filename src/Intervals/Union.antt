-- ===== src/Intervals/Union.antt =====
-- `union_ns` and `covered` measure the same thing: how many stamps of the window the intervals
-- cover. `duration_summary` lies on both sides of it.
use winecx_gptk.Common.{
  ℕ, ◌+◌, ◌-◌, ◌≤◌, ◌<◌, ◌≡◌, refl, ◌∙◌, false, ◌||◌, List, [], ◌∷◌, arith, min, max,
}
use winecx_gptk.Intervals.{Interval, sort, union_from, union_ns}
use winecx_gptk.Intervals.Count.{
  count_in, count_in-split, count_in_full, count_in_none, count_in_congr,
}
use winecx_gptk.Intervals.Sorting.{holds, covers, StartsFrom, IsSorted, sort-IsSorted, covers-sort}

-- A stamp below the left end of a sorted list is not covered by it.
uncovered_before :
    (t : ℕ) (xs : List Interval)
    → IsSorted xs
    → (l : ℕ) → StartsFrom l xs
    → t < l
    → covers xs t ≡ false
unfolding covers
uncovered_before t [] h l s k = refl
uncovered_before t ((a, b) ∷ xs) h l s k = ground (arith, uncovered_before t xs h.1 a h.0)

pub covers-cons :
    (x : Interval) (xs : List Interval) (t : ℕ) → covers (x ∷ xs) t ≡ (holds t x || covers xs t)
unfolding covers
covers-cons x xs t = refl

module _ (start end : ℕ) (l r : ℕ) (xs : List Interval)
    (ordered : StartsFrom l xs × IsSorted xs) where
  -- One round of the loop that finds new time.
  count-cons_grown :
      {cursor : ℕ}
      → start ≤ cursor
      → max (max l start) cursor < min r end
      → count_in (covers ((l, r) ∷ xs)) cursor end
        ≡ (min r end - max (max l start) cursor) + count_in (covers xs) (min r end) end
  count-cons_grown {cursor} h k =
      let p = covers ((l, r) ∷ xs) in
      let left = max (max l start) cursor in
      let right = min r end in
      let whole = count_in-split p {a = cursor} {b = left} {c = end} (omega arith) (omega arith) in
      let rest = count_in-split p {a = left} {b = right} {c = end} (omega arith) (omega arith) in
      let before = count_in_none p {a = cursor} {b = left} (λ t a b.
        ground (arith, covers-cons (l, r) xs t, uncovered_before t xs ordered.1 l ordered.0)) in
      let within =
        count_in_full p {a = left} {b = right} (λ t a b. ground (arith, covers-cons (l, r) xs t)) in
      let later =
        count_in_congr p (covers xs) {a = right} {b = end}
          (λ t a b. ground (arith, covers-cons (l, r) xs t)) in
      omega arith

  -- A round that finds none.
  count-cons_same :
      {cursor : ℕ}
      → start ≤ cursor
      → min r end ≤ max (max l start) cursor
      → count_in (covers ((l, r) ∷ xs)) cursor end ≡ count_in (covers xs) cursor end
  count-cons_same {cursor} h k =
      count_in_congr (covers ((l, r) ∷ xs)) (covers xs)
        (λ t a b. ground (arith, covers-cons (l, r) xs t))

pub union_from-eq-count :
    (start end cursor total : ℕ) (xs : List Interval)
    → IsSorted xs
    → start ≤ cursor
    → union_from start end cursor total xs ≡ total + count_in (covers xs) cursor end
unfolding union_from
union_from-eq-count start end cursor total [] h k =
    omega (arith, count_in_none (covers []) {a = cursor} {b = end} (λ t a b. unfold covers in refl))
union_from-eq-count start end cursor total ((l, r) ∷ xs) h k = ground (
  arith,
  count-cons_grown start end l r xs h {cursor = cursor} k,
  count-cons_same start end l r xs h {cursor = cursor} k,
  union_from-eq-count start end (min r end) (total + (min r end - max (max l start) cursor)) xs h.1,
  union_from-eq-count start end cursor total xs h.1 k,
)

-- `union_ns` of any intervals, in any order and with any overlaps, is the number of stamps
-- from `start` to before `end` that at least one of the intervals holds.
pub union_ns-eq-count :
    (xs : List Interval) (start end : ℕ) → union_ns xs start end ≡ count_in (covers xs) start end
unfolding union_ns
union_ns-eq-count xs start end =
    union_from-eq-count start end start 0 (sort xs) (sort-IsSorted xs) (omega arith)
    ∙ omega (
      arith,
      count_in_congr (covers (sort xs)) (covers xs) {a = start} {b = end}
          (λ t a b. covers-sort xs t),
    )
