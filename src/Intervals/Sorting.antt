-- ===== src/Intervals/Sorting.antt =====
-- `sort` puts the intervals in order, and keeps which stamps they cover.
use winecx_gptk.Common.{
  ℕ, ◌≤◌, ◌≡◌, refl, Bool, true, false, ◌&&◌, ◌||◌, List, [], ◌∷◌, arith, leb, ltb, any,
  if◌then◌else◌,
}
use winecx_gptk.Intervals.{Interval, pair_le, insert, sort}

-- The stamps that an interval holds: `left ≤ t < right`.
abbrev pub holds : ℕ → Interval → Bool
holds t (l, r) = leb l t && ltb t r

-- The stamps that some interval holds.
unfoldable pub covers : List Interval → ℕ → Bool
covers intervals t = any (holds t) intervals

abbrev pub StartsFrom : ℕ → List Interval → Type 0
StartsFrom l [] = Unit {0}
StartsFrom l ((l', r) ∷ rest) = l ≤ l'

-- The left ends do not fall.
abbrev pub IsSorted : List Interval → Type 0
IsSorted [] = Unit {0}
IsSorted ((l, r) ∷ rest) = StartsFrom l rest × IsSorted rest

StartsFrom-insert :
    (l : ℕ) (x : Interval) (ys : List Interval)
    → l ≤ x.0
    → StartsFrom l ys
    → StartsFrom l (insert x ys)
unfolding insert
StartsFrom-insert l x [] h k = h
StartsFrom-insert l x (y ∷ ys) h k = ground arith

if-IsSorted :
    (b : Bool) (xs ys : List Interval)
    → (b ≡ true → IsSorted xs)
    → (b ≡ false → IsSorted ys)
    → IsSorted (if b then xs else ys)
if-IsSorted true xs ys h k = h refl
if-IsSorted false xs ys h k = k refl

pair_le_left : (x y : Interval) → (pair_le x y ≡ true) → x.0 ≤ y.0
pair_le_left x y h = ground arith

not_pair_le_left : (x y : Interval) → (pair_le x y ≡ false) → y.0 ≤ x.0
not_pair_le_left x y h = ground arith

insert-IsSorted : (x : Interval) (ys : List Interval) → IsSorted ys → IsSorted (insert x ys)
unfolding insert
insert-IsSorted x [] h = (tt, tt)
insert-IsSorted x (y ∷ ys) h =
    let ih = insert-IsSorted x ys h.1 in
    if-IsSorted (pair_le x y) (x ∷ y ∷ ys) (y ∷ insert x ys) (λ e. (pair_le_left x y e, h))
      (λ e. (StartsFrom-insert y.0 x ys (not_pair_le_left x y e) h.0, ih))

pub sort-IsSorted : (xs : List Interval) → IsSorted (sort xs)
unfolding sort
sort-IsSorted [] = tt
sort-IsSorted (x ∷ xs) = insert-IsSorted x (sort xs) (sort-IsSorted xs)

any-insert :
    (p : Interval → Bool) (x : Interval) (ys : List Interval)
    → any p (insert x ys) ≡ (p x || any p ys)
unfolding insert
any-insert p x [] = refl
any-insert p x (y ∷ ys) = ground (arith, any-insert p x ys)

any-sort : (p : Interval → Bool) (xs : List Interval) → any p (sort xs) ≡ any p xs
unfolding sort
any-sort p [] = refl
any-sort p (x ∷ xs) = ground (arith, any-insert p x (sort xs), any-sort p xs)

-- Sorting does not change which stamps are covered.
pub covers-sort : (xs : List Interval) (t : ℕ) → covers (sort xs) t ≡ covers xs t
unfolding covers
covers-sort xs t = any-sort (holds t) xs
