-- ===== src/Benchmark/Rotation.antt =====
-- The order of the jobs of runtime/kosmickrisp/benchmark.py.
use mathlib.Core.Option
use native.Mathlib.Nat.{mod-add-mod, mod-eq_of_lt, mod-eq-sub-mod, mod-lt, suc-mul, zero-mul}
use winecx_gptk.Common.{
  take, ℕ, zero, suc, ◌+◌, ◌-◌, ◌*◌, ◌%◌, ◌<◌, ◌≤◌, Option, none, some, List, [], ◌∷◌, ◌++◌, length,
  length-append, map, inl, inr, Bool-cases, ltb, ◌≡◌, refl, ap, sym, ◌∙◌, arith,
}
use winecx_gptk.Benchmark.Jobs.{
  Condition, drop, rotate, jobs_of, jobs_from, make_jobs, job_of, turn, Job,
}

module _ {ℓ} {A : Type ℓ} where
  -- `xs[n]`
  unfoldable pub nth : ℕ → List A → Option A
  nth n [] = none
  nth zero (x ∷ xs) = some x
  nth (suc n) (x ∷ xs) = nth n xs

  nth-append : (i : ℕ) (xs ys : List A) → i < length xs → nth i (xs ++ ys) ≡ nth i xs
  unfolding nth
  nth-append i [] ys h = ground arith
  nth-append zero (x ∷ xs) ys h = refl
  nth-append (suc i) (x ∷ xs) ys h = nth-append i xs ys (omega arith)

  nth-append_after : (i : ℕ) (xs ys : List A) → nth (length xs + i) (xs ++ ys) ≡ nth i ys
  unfolding nth
  nth-append_after i [] ys = ground arith
  nth-append_after i (x ∷ xs) ys = let ih = nth-append_after i xs ys in ground arith

  nth-drop : (n i : ℕ) (xs : List A) → nth i (drop n xs) ≡ nth (n + i) xs
  unfolding nth drop
  nth-drop zero i xs = ground arith
  nth-drop (suc n) i [] = refl
  nth-drop (suc n) i (x ∷ xs) = let ih = nth-drop n i xs in ground arith

  nth-take : (n i : ℕ) (xs : List A) → i < n → nth i (take n xs) ≡ nth i xs
  unfolding nth
  nth-take zero i xs h = ground arith
  nth-take (suc n) i [] h = refl
  nth-take (suc n) zero (x ∷ xs) h = refl
  nth-take (suc n) (suc i) (x ∷ xs) h = nth-take n i xs (omega (arith, h))

  length-drop : (n : ℕ) (xs : List A) → n ≤ length xs → length (drop n xs) + n ≡ length xs
  unfolding drop
  length-drop zero xs h = omega arith
  length-drop (suc n) [] h = omega (arith, h)
  length-drop (suc n) (x ∷ xs) h = omega (arith, length-drop n xs (omega (arith, h)))

  length-take : (n : ℕ) (xs : List A) → n ≤ length xs → length (take n xs) ≡ n
  length-take zero xs h = refl
  length-take (suc n) [] h = omega (arith, h)
  length-take (suc n) (x ∷ xs) h = omega (arith, length-take n xs (omega (arith, h)))

  length-rotate : (n : ℕ) (xs : List A) → n ≤ length xs → length (rotate n xs) ≡ length xs
  unfolding rotate
  length-rotate n xs h =
      omega (arith, length-append (drop n xs) (take n xs), length-drop n xs h, length-take n xs h)

  nth-rotate_before :
      (n i : ℕ) (xs : List A)
      → n ≤ length xs
      → n + i < length xs
      → nth i (rotate n xs) ≡ nth (n + i) xs
  unfolding rotate
  nth-rotate_before n i xs h k =
      nth-append i (drop n xs) (take n xs) (omega (arith, length-drop n xs h, k)) ∙ nth-drop n i xs

  nth-rotate_after :
      (n i : ℕ) (xs : List A)
      → n ≤ length xs
      → i < n
      → nth (length (drop n xs) + i) (rotate n xs) ≡ nth i xs
  unfolding rotate
  nth-rotate_after n i xs h k = nth-append_after i (drop n xs) (take n xs) ∙ nth-take n i xs k

  nth-rotate :
      (n i : ℕ) (xs : List A)
      → n < length xs
      → i < length xs
      → nth i (rotate n xs) ≡ nth ((n + i) % length xs) xs
  nth-rotate n i xs h k = elim (Bool-cases (ltb (n + i) (length xs))) [
    | inl e ↦
        nth-rotate_before n i xs (omega (arith, h)) (ground arith)
        ∙ ap (λ j. nth j xs) (sym (mod-eq_of_lt (ground arith)))
    | inr e ↦
        let l : length xs ≤ n + i = ground arith in
        let j = n + i - length xs in
        let at : length (drop n xs) + j ≡ i =
          omega (arith, length-drop n xs (omega (arith, h)), l, h) in
        let end : (n + i) % length xs ≡ j =
          mod-eq-sub-mod l ∙ mod-eq_of_lt (omega (arith, h, k, l)) in
        ap (λ m. nth m (rotate n xs)) (sym at)
        ∙ nth-rotate_after n j xs (omega (arith, h)) (omega (arith, h, k, l))
        ∙ ap (λ m. nth m xs) (sym end)
  ]

module _ {ℓ ℓ'} {A : Type ℓ} {B : Type ℓ'} (f : A → B) where
  nth-map : (i : ℕ) (xs : List A) → nth i (map f xs) ≡ Option.map f (nth i xs)
  unfolding nth
  nth-map i [] = refl
  nth-map zero (x ∷ xs) = refl
  nth-map (suc i) (x ∷ xs) = nth-map i xs

  length-map : (xs : List A) → length (map f xs) ≡ length xs
  length-map [] = refl
  length-map (x ∷ xs) = ap suc (length-map xs)

length-jobs_of :
    (r : ℕ) (cs : List Condition)
    → 0 < length cs
    → length (jobs_of r (rotate (turn r cs) cs)) ≡ length cs
unfolding jobs_of
length-jobs_of r cs h =
    length-map (job_of r) (rotate (turn r cs) cs)
    ∙ length-rotate (turn r cs) cs (omega (arith, mod-lt r h))

-- The job that stands at a place of a repetition, both counted from zero.
abbrev pub scheduled : (repetition place : ℕ) → List Condition → Option Job
scheduled r i cs = Option.map (job_of r) (nth ((r + i) % length cs) cs)

nth-jobs_of :
    (r i : ℕ) (cs : List Condition)
    → i < length cs
    → nth i (jobs_of r (rotate (turn r cs) cs)) ≡ scheduled r i cs
unfolding jobs_of
nth-jobs_of r i cs h =
    nth-map (job_of r) i (rotate (turn r cs) cs)
    ∙ ap (Option.map (job_of r)) (
        nth-rotate (turn r cs) i cs (mod-lt r (omega (arith, h))) h
        ∙ ap (λ m. nth m cs) (mod-add-mod r (length cs) i))

nth-jobs_from :
    (r left k i : ℕ) (cs : List Condition)
    → k < left
    → i < length cs
    → nth (k * length cs + i) (jobs_from r left cs) ≡ scheduled (r + k) i cs
unfolding jobs_from
nth-jobs_from r zero k i cs h l = ground arith
nth-jobs_from r (suc left) zero i cs h l =
    let turned = jobs_of r (rotate (turn r cs) cs) in
    let rest = jobs_from (r + 1) left cs in
    let at : 0 * length cs + i ≡ i = omega (arith, zero-mul (length cs)) in
    let size = length-jobs_of r cs (omega (arith, l)) in
    ap (λ m. nth m (turned ++ rest)) at
    ∙ nth-append i turned rest (omega (arith, size, l))
    ∙ nth-jobs_of r i cs l
    ∙ ap (λ m. scheduled m i cs) (omega arith)
nth-jobs_from r (suc left) (suc k) i cs h l =
    let turned = jobs_of r (rotate (turn r cs) cs) in
    let rest = jobs_from (r + 1) left cs in
    let size = length-jobs_of r cs (omega (arith, l)) in
    let at : suc k * length cs + i ≡ length turned + (k * length cs + i) =
      omega (arith, suc-mul k (length cs), size) in
    ap (λ m. nth m (turned ++ rest)) at
    ∙ nth-append_after (k * length cs + i) turned rest
    ∙ nth-jobs_from (r + 1) left k i cs (omega (arith, h)) l
    ∙ ap (λ m. scheduled m i cs) (omega arith)

length-jobs_from :
    (r left : ℕ) (cs : List Condition)
    → 0 < length cs
    → length (jobs_from r left cs) ≡ left * length cs
unfolding jobs_from
length-jobs_from r zero cs h = omega (arith, zero-mul (length cs))
length-jobs_from r (suc left) cs h = omega (
  arith,
  length-append (jobs_of r (rotate (turn r cs) cs)) (jobs_from (r + 1) left cs),
  length-jobs_of r cs h,
  length-jobs_from (r + 1) left cs h,
  suc-mul left (length cs),
)

accepted_jobs :
    (repeats : ℕ) (cs : List Condition) (jobs : List Job)
    → make_jobs repeats cs ≡ some jobs
    → jobs_from 0 repeats cs ≡ jobs
unfolding make_jobs
accepted_jobs repeats cs jobs e = ground arith

-- The plan of `make_jobs` has as many jobs for each repetition as there are conditions, and its
-- job at place `i` of repetition `r`, both counted from zero, runs condition `r + i` of the
-- shuffled order, counted around: each repetition runs every condition once and begins one
-- condition later than the last.
pub nth-make_jobs :
    (repeats r i : ℕ) (cs : List Condition) (jobs : List Job)
    → make_jobs repeats cs ≡ some jobs
    → r < repeats
    → i < length cs
    → (length jobs ≡ repeats * length cs) × (nth (r * length cs + i) jobs ≡ scheduled r i cs)
nth-make_jobs repeats r i cs jobs e h l =
    let is = accepted_jobs repeats cs jobs e in
    (
      ap length (sym is) ∙ length-jobs_from 0 repeats cs (omega (arith, l)),
      ap (nth (r * length cs + i)) (sym is)
          ∙ nth-jobs_from 0 repeats r i cs h l
          ∙ ap (λ m. scheduled m i cs) (omega arith),
    )
