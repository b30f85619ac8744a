-- ===== src/Intervals/Covered.antt =====
-- `covered` of stutter.py clips before it sorts and `union_ns` clips in its loop: they agree.
use winecx_gptk.Common.{
  ℕ, ◌+◌, ◌-◌, ◌≤◌, ◌<◌, ◌≡◌, refl, ◌∙◌, List, [], ◌∷◌, arith, map, select, min, max,
}
use winecx_gptk.Intervals.{
  Interval, insert, sort, union_from, union_ns, covered_from, covered, clip, meets,
}
use winecx_gptk.Intervals.Count.{count_in_congr}
use winecx_gptk.Intervals.Sorting.{covers, sort-IsSorted, covers-sort}
use winecx_gptk.Intervals.Union.{union_from-eq-count, union_ns-eq-count}

-- No interval ends after `b`.
abbrev EndsBy : ℕ → List Interval → Type 0
EndsBy b [] = Unit {0}
EndsBy b ((s, e) ∷ rest) = (e ≤ b) × EndsBy b rest

insert-EndsBy :
    (b : ℕ) (x : Interval) (ys : List Interval) → x.1 ≤ b → EndsBy b ys → EndsBy b (insert x ys)
unfolding insert
insert-EndsBy b x [] h k = ground arith
insert-EndsBy b x (y ∷ ys) h k = ground (arith, insert-EndsBy b x ys h k.1)

sort-EndsBy : (b : ℕ) (xs : List Interval) → EndsBy b xs → EndsBy b (sort xs)
unfolding sort
sort-EndsBy b [] h = tt
sort-EndsBy b (x ∷ xs) h = insert-EndsBy b x (sort xs) h.0 (sort-EndsBy b xs h.1)

abbrev kept : ℕ → ℕ → List Interval → List Interval
kept a b xs = map (clip a b) (select (meets a b) xs)

kept-EndsBy : (a b : ℕ) (xs : List Interval) → EndsBy b (kept a b xs)
kept-EndsBy a b [] = tt
kept-EndsBy a b ((s, e) ∷ xs) = ground (arith, kept-EndsBy a b xs)

covers-kept :
    (a b t : ℕ) (xs : List Interval) → a ≤ t → t < b → covers (kept a b xs) t ≡ covers xs t
unfolding covers
covers-kept a b t [] h k = refl
covers-kept a b t ((s, e) ∷ xs) h k = ground (arith, covers-kept a b t xs h k)

covered_from-eq-union_from :
    (a b total end : ℕ) (xs : List Interval)
    → a ≤ end
    → EndsBy b xs
    → covered_from total end xs ≡ union_from a b end total xs
unfolding covered_from union_from
covered_from-eq-union_from a b total end [] h k = refl
covered_from-eq-union_from a b total end ((s, e) ∷ xs) h k =
    let grown = covered_from-eq-union_from a b (total + (e - max s end)) e xs in
    let same = covered_from-eq-union_from a b total end xs h k.1 in
    let left : max (max s a) end ≡ max s end = omega arith in
    let right : min e b ≡ e = omega arith in rw (left, right) (ground (arith, grown, same))

-- The two modules' measures of overlapping intervals agree on every input: clipping every
-- interval first, as `covered` does, and clipping in the loop, as `union_ns` does.
pub covered-eq-union_ns : (a b : ℕ) (xs : List Interval) → covered a b xs ≡ union_ns xs a b
unfolding covered
covered-eq-union_ns a b xs =
    let ys = kept a b xs in
    covered_from-eq-union_from a b 0 a (sort ys) (omega arith)
      (sort-EndsBy b ys (kept-EndsBy a b xs))
    ∙ union_from-eq-count a b a 0 (sort ys) (sort-IsSorted ys) (omega arith)
    ∙ omega (
      arith,
      union_ns-eq-count xs a b,
      count_in_congr (covers (sort ys)) (covers xs) {a = a} {b = b}
          (λ t h k. covers-sort ys t ∙ covers-kept a b t xs h k),
    )
