-- ===== src/Common/Lists.antt =====
-- Lists measured by native numbers, tests over lists, and Python's stable `sorted`.
use Prim.Native.Nat.{ℕ, zero, suc, ◌+◌}
use mathlib.Core.Path.{◌≡◌}
use mathlib.Core.Bool.{Bool, true, false, ◌&&◌, ◌||◌}
use mathlib.Core.List.{List, [], ◌∷◌, ◌++◌}
use native.Mathlib.Omega.{arith}
use winecx_gptk.Common.Tests.{if◌then◌else◌}

module _ {ℓ} {A : Type ℓ} where
  abbrev pub length : List A → ℕ
  length [] = 0
  length (x ∷ xs) = suc (length xs)

  abbrev pub take : ℕ → List A → List A
  take zero xs = []
  take (suc n) [] = []
  take (suc n) (x ∷ xs) = x ∷ take n xs

  abbrev pub any : (A → Bool) → List A → Bool
  any p [] = false
  any p (x ∷ xs) = p x || any p xs

  abbrev pub all : (A → Bool) → List A → Bool
  all p [] = true
  all p (x ∷ xs) = p x && all p xs

  -- `[x for x in xs if p(x)]`
  abbrev pub select : (A → Bool) → List A → List A
  select p [] = []
  select p (x ∷ xs) = let rest = select p xs in if p x then x ∷ rest else rest

  abbrev pub AllOf {κ} : (A → Type κ) → List A → Type κ
  AllOf P [] = Unit
  AllOf P (x ∷ xs) = P x × AllOf P xs

  pub length-append : (xs ys : List A) → length (xs ++ ys) ≡ length xs + length ys
  length-append [] ys = omega arith
  length-append (x ∷ xs) ys = omega (arith, length-append xs ys)

module _ {ℓ κ} {A : Type ℓ} (P : A → Type κ) where
  pub AllOf-append : (xs ys : List A) → AllOf P xs → AllOf P ys → AllOf P (xs ++ ys)
  AllOf-append [] ys h k = k
  AllOf-append (x ∷ xs) ys h k = (h.0, AllOf-append xs ys h.1 k)

  pub AllOf-left : (xs ys : List A) → AllOf P (xs ++ ys) → AllOf P xs
  AllOf-left [] ys h = tt
  AllOf-left (x ∷ xs) ys h = (h.0, AllOf-left xs ys h.1)

  pub AllOf-right : (xs ys : List A) → AllOf P (xs ++ ys) → AllOf P ys
  AllOf-right [] ys h = h
  AllOf-right (x ∷ xs) ys h = AllOf-right xs ys h.1
