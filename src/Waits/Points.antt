-- ===== src/Waits/Points.antt =====
-- `sorted(set(points))` in attribute_waits of runtime/kosmickrisp/investigation_analysis.py: the points rise,
-- and no point is lost or made up.
use winecx_gptk.Common.{
  ℕ, ◌≤◌, ◌<◌, Bool, true, false, ◌||◌, List, [], ◌∷◌, ◌==◌, ltb, any, AllOf, Bool-cases, inl, inr,
  if◌then◌else◌, ◌≡◌, refl, arith,
}
use winecx_gptk.Waits.Segments.{insert_point, points_of}

abbrev pub Rising : ℕ → List ℕ → Type 0
Rising p [] = Unit {0}
Rising p (q ∷ qs) = (p < q) × Rising q qs

abbrev pub IsRising : List ℕ → Type 0
IsRising [] = Unit {0}
IsRising (p ∷ ps) = Rising p ps

abbrev pub has : ℕ → List ℕ → Bool
has x = any (λ y. x == y)

abbrev pub last_of : ℕ → List ℕ → ℕ
last_of p [] = p
last_of p (q ∷ qs) = last_of q qs

if-Rising :
    (b : Bool) (p : ℕ) (xs ys : List ℕ)
    → (b ≡ true → Rising p xs)
    → (b ≡ false → Rising p ys)
    → Rising p (if b then xs else ys)
if-Rising true p xs ys h k = h refl
if-Rising false p xs ys h k = k refl

insert_point-Rising : (p x : ℕ) (ys : List ℕ) → p < x → Rising p ys → Rising p (insert_point x ys)
unfolding insert_point
insert_point-Rising p x [] h k = (h, tt)
insert_point-Rising p x (y ∷ ys) h k =
    let ih = insert_point-Rising y x ys in
    if-Rising (ltb x y) p (x ∷ y ∷ ys) (if x == y then y ∷ ys else y ∷ insert_point x ys)
      (λ e. (h, (ground arith, k.1)))
      (λ e.
        if-Rising (x == y) p (y ∷ ys) (y ∷ insert_point x ys) (λ f. k)
          (λ f. (k.0, ih (ground arith) k.1)))

if-IsRising :
    (b : Bool) (xs ys : List ℕ)
    → (b ≡ true → IsRising xs)
    → (b ≡ false → IsRising ys)
    → IsRising (if b then xs else ys)
if-IsRising true xs ys h k = h refl
if-IsRising false xs ys h k = k refl

insert_point-IsRising : (x : ℕ) (ys : List ℕ) → IsRising ys → IsRising (insert_point x ys)
unfolding insert_point
insert_point-IsRising x [] h = tt
insert_point-IsRising x (y ∷ ys) h =
    if-IsRising (ltb x y) (x ∷ y ∷ ys) (if x == y then y ∷ ys else y ∷ insert_point x ys)
      (λ e. (ground arith, h))
      (λ e.
        if-IsRising (x == y) (y ∷ ys) (y ∷ insert_point x ys) (λ f. h)
          (λ f. insert_point-Rising y x ys (ground arith) h))

pub points_of-IsRising : (xs : List ℕ) → IsRising (points_of xs)
unfolding points_of
points_of-IsRising [] = tt
points_of-IsRising (x ∷ xs) = insert_point-IsRising x (points_of xs) (points_of-IsRising xs)

has-insert_point : (t x : ℕ) (ys : List ℕ) → has t (insert_point x ys) ≡ (t == x || has t ys)
unfolding insert_point
has-insert_point t x [] = refl
has-insert_point t x (y ∷ ys) = ground (arith, has-insert_point t x ys)

pub has-points_of : (t : ℕ) (xs : List ℕ) → has t (points_of xs) ≡ has t xs
unfolding points_of
has-points_of t [] = refl
has-points_of t (x ∷ xs) = ground (arith, has-insert_point t x (points_of xs), has-points_of t xs)

module _ (P : ℕ → Type 0) where
  if-AllOf : (b : Bool) (xs ys : List ℕ) → AllOf P xs → AllOf P ys → AllOf P (if b then xs else ys)
  if-AllOf true xs ys h k = h
  if-AllOf false xs ys h k = k

  insert_point-AllOf : (x : ℕ) (ys : List ℕ) → P x → AllOf P ys → AllOf P (insert_point x ys)
  unfolding insert_point
  insert_point-AllOf x [] h k = (h, tt)
  insert_point-AllOf x (y ∷ ys) h k =
      let ih = insert_point-AllOf x ys h k.1 in
      if-AllOf (ltb x y) (x ∷ y ∷ ys) (if x == y then y ∷ ys else y ∷ insert_point x ys) (h, k)
        (if-AllOf (x == y) (y ∷ ys) (y ∷ insert_point x ys) k (k.0, ih))

  pub points_of-AllOf : (xs : List ℕ) → AllOf P xs → AllOf P (points_of xs)
  unfolding points_of
  points_of-AllOf [] h = tt
  points_of-AllOf (x ∷ xs) h = insert_point-AllOf x (points_of xs) h.0 (points_of-AllOf xs h.1)

  pub AllOf-last_of : (p : ℕ) (ps : List ℕ) → P p → AllOf P ps → P (last_of p ps)
  AllOf-last_of p [] h k = h
  AllOf-last_of p (q ∷ qs) h k = AllOf-last_of q qs k.0 k.1

pub last_of-le : (p : ℕ) (ps : List ℕ) → Rising p ps → p ≤ last_of p ps
last_of-le p [] h = omega arith
last_of-le p (q ∷ qs) h = let ih = last_of-le q qs h.1 in omega (arith, ih, h.0)

-- What is among the points that follow lies after this point, and not after the last one.
pub has-Rising :
    (x p : ℕ) (ps : List ℕ) → Rising p ps → has x ps ≡ true → (p < x) × (x ≤ last_of p ps)
has-Rising x p [] h k = absurd cc
has-Rising x p (q ∷ qs) h k =
    let l = last_of-le q qs h.1 in
    let rest = has-Rising x q qs h.1 in
    elim (Bool-cases (x == q)) [
      | inl e ↦ ground arith
      | inr e ↦ let r = rest (ground arith) in (omega (arith, h.0, r.0), r.1)
    ]
