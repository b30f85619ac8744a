-- ===== src/Intervals/Count.antt =====
-- The number of stamps in a window that a test accepts: the measure by which the interval
-- functions are described.
use Prim.Native.Nat.add
use winecx_gptk.Common.{
  ℕ, zero, suc, ◌+◌, ◌-◌, ◌≤◌, ◌<◌, ◌≡◌, refl, Bool, true, false, if◌then◌else◌, arith, ◌⊎◌,
}

-- How many stamps `t` with `a ≤ t < a + n` pass the test.
unfoldable pub count_from : (ℕ → Bool) → ℕ → ℕ → ℕ
count_from p a zero = 0
count_from p a (suc n) = (if p a then 1 else 0) + count_from p (a + 1) n

-- How many stamps `t` with `a ≤ t < b` pass the test.
abbrev pub count_in : (ℕ → Bool) → ℕ → ℕ → ℕ
count_in p a b = count_from p a (b - a)

module _ (p : ℕ → Bool) where
  count_from-add :
      (m n a k : ℕ) → a + m ≡ k → count_from p a (m + n) ≡ count_from p a m + count_from p k n
  unfolding count_from
  count_from-add zero n a k e =
      let same : a ≡ k = omega arith in rw (add.zero n, same) (omega arith)
  count_from-add (suc m) n a k e =
      rw (add.suc m n) (omega (arith, count_from-add m n (a + 1) k (omega arith)))

  pub count_in-split :
      {a b c : ℕ} → a ≤ b → b ≤ c → count_in p a c ≡ count_in p a b + count_in p b c
  count_in-split {a} {b} {c} h k =
      let e : c - a ≡ (b - a) + (c - b) = omega arith in
      rw e (count_from-add (b - a) (c - b) a b (omega arith))

  count_from_full : (n a : ℕ) → ((t : ℕ) → a ≤ t → t < a + n → p t ≡ true) → count_from p a n ≡ n
  unfolding count_from
  count_from_full zero a h = refl
  count_from_full (suc n) a h =
      rw (h a (omega arith) (omega arith))
        (omega (arith, count_from_full n (a + 1) (λ t l u. h t (omega arith) (omega arith))))

  pub count_in_full : {a b : ℕ} → ((t : ℕ) → a ≤ t → t < b → p t ≡ true) → count_in p a b ≡ b - a
  count_in_full {a} {b} h = count_from_full (b - a) a (λ t l u. h t l (omega arith))

  count_from_none : (n a : ℕ) → ((t : ℕ) → a ≤ t → t < a + n → p t ≡ false) → count_from p a n ≡ 0
  unfolding count_from
  count_from_none zero a h = refl
  count_from_none (suc n) a h =
      rw (h a (omega arith) (omega arith))
        (omega (arith, count_from_none n (a + 1) (λ t l u. h t (omega arith) (omega arith))))

  pub count_in_none : {a b : ℕ} → ((t : ℕ) → a ≤ t → t < b → p t ≡ false) → count_in p a b ≡ 0
  count_in_none {a} {b} h = count_from_none (b - a) a (λ t l u. h t l (omega arith))

  pub count_from-le : (n a : ℕ) → count_from p a n ≤ n
  unfolding count_from
  count_from-le zero a = omega arith
  count_from-le (suc n) a = ground (arith, count_from-le n (a + 1))

  pub count_in_empty : {a b : ℕ} → b ≤ a → count_in p a b ≡ 0
  unfolding count_from
  count_in_empty {a} {b} h = let e : b - a ≡ 0 = omega arith in rw e

module _ (p q : ℕ → Bool) where
  count_from_congr :
      (n a : ℕ) → ((t : ℕ) → a ≤ t → t < a + n → p t ≡ q t) → count_from p a n ≡ count_from q a n
  unfolding count_from
  count_from_congr zero a h = refl
  count_from_congr (suc n) a h =
      rw (h a (omega arith) (omega arith))
        (omega (arith, count_from_congr n (a + 1) (λ t l u. h t (omega arith) (omega arith))))

  pub count_in_congr :
      {a b : ℕ} → ((t : ℕ) → a ≤ t → t < b → p t ≡ q t) → count_in p a b ≡ count_in q a b
  count_in_congr {a} {b} h = count_from_congr (b - a) a (λ t l u. h t l (omega arith))

  count_from_mono :
      (n a : ℕ) → ((t : ℕ) → p t ≡ true → q t ≡ true) → count_from p a n ≤ count_from q a n
  unfolding count_from
  count_from_mono zero a h = omega arith
  count_from_mono (suc n) a h = ground (arith, h a, count_from_mono n (a + 1) h)

  pub count_in_mono :
      (a b : ℕ) → ((t : ℕ) → p t ≡ true → q t ≡ true) → count_in p a b ≤ count_in q a b
  count_in_mono a b h = count_from_mono (b - a) a h

module _ (p q r : ℕ → Bool) where
  count_from_or :
      (n a : ℕ)
      → ((t : ℕ) → r t ≡ true → (p t ≡ true) ⊎ (q t ≡ true))
      → count_from r a n ≤ count_from p a n + count_from q a n
  unfolding count_from
  count_from_or zero a h = omega arith
  count_from_or (suc n) a h = ground (arith, h a, count_from_or n (a + 1) h)

  -- What two tests accept together is at most what they accept one by one.
  pub count_in_or :
      (a b : ℕ)
      → ((t : ℕ) → r t ≡ true → (p t ≡ true) ⊎ (q t ≡ true))
      → count_in r a b ≤ count_in p a b + count_in q a b
  count_in_or a b h = count_from_or (b - a) a h
