-- ===== src/Promotion/Medians.antt =====
-- The medians of two lanes that campaign_blockers of runtime/kosmickrisp/promotion.py compares.
use mathlib.Core.Path.{subst}
use winecx_gptk.Common.{
  Bool, true, false, ◌||◌, Option, none, some, is_some, List, [], ◌∷◌, length, all, if◌then◌else◌,
  Bool-cases, inl, inr, ◌≡◌, refl, sym, ap, ◌∙◌, arith,
}
use winecx_gptk.Promotion.{
  Floats, Case, insert_float, sort_floats, middle, median, samples, both_less, scaled, is_worse,
}

module _ {F : Type 0} (floats : Floats F) where
  abbrev HasMiddle : List F → Type 0
  HasMiddle xs = (m : F) × (middle floats xs ≡ some m)

  insert-HasMiddle : (x p q : F) → HasMiddle (insert_float floats x (p ∷ q ∷ []))
  insert-HasMiddle x p q = elim (Bool-cases (floats.less p x)) [
    | inl e ↦ elim (Bool-cases (floats.less q x)) [
      | inl f ↦ (q, rw (e, f) refl)
      | inr f ↦ (x, rw (e, f) refl)
    ]
    | inr e ↦ (p, rw e refl)
  ]

  sorted-HasMiddle : (x y z : F) → HasMiddle (sort_floats floats (x ∷ y ∷ z ∷ []))
  sorted-HasMiddle x y z = elim (Bool-cases (floats.less z y)) [
    | inl e ↦
        subst (λ b. HasMiddle (insert_float floats x (if b then z ∷ y ∷ [] else y ∷ z ∷ [])))
          (sym e) (insert-HasMiddle x z y)
    | inr e ↦
        subst (λ b. HasMiddle (insert_float floats x (if b then z ∷ y ∷ [] else y ∷ z ∷ [])))
          (sym e) (insert-HasMiddle x y z)
  ]

  median_of_three :
      (part : F × F → F) (runs : List (Option (F × F)))
      → length runs ≡ 3
      → all is_some runs ≡ true
      → (m : F) × (median floats (samples floats part runs) ≡ some m)
  median_of_three part [] n h = absurd (ground arith)
  median_of_three part (a ∷ []) n h = absurd (ground arith)
  median_of_three part (a ∷ b ∷ []) n h = absurd (ground arith)
  median_of_three part (a ∷ b ∷ c ∷ d ∷ runs) n h = absurd (omega (arith, n))
  median_of_three part (none ∷ b ∷ c ∷ []) n h = absurd (ground arith)
  median_of_three part (some a ∷ none ∷ c ∷ []) n h = absurd (ground arith)
  median_of_three part (some a ∷ some b ∷ none ∷ []) n h = absurd (ground arith)
  median_of_three part (some a ∷ some b ∷ some c ∷ []) n h =
      sorted-HasMiddle (part a) (part b) (part c)

  abbrev rate : F × F → F
  rate run = run.0

  abbrev frame_time : F × F → F
  frame_time run = run.1

  abbrev IsMedian : (F × F → F) → List (Option (F × F)) → F → Type 0
  IsMedian part runs m = median floats (samples floats part runs) ≡ some m

  -- The candidate has lost no more than five percent of the median frame rate, and its median
  -- frame time has grown by no more than ten.
  pub record KeepsUp (c : Case F) : Type 0 where
    pub old : F × F
    pub new : F × F
    pub old_rate : IsMedian rate c.baseline.measured old.0
    pub old_time : IsMedian frame_time c.baseline.measured old.1
    pub new_rate : IsMedian rate c.candidate.measured new.0
    pub new_time : IsMedian frame_time c.candidate.measured new.1
    pub fast : floats.less new.0 (floats.times_95 old.0) ≡ false
    pub smooth : floats.less (floats.times_110 old.1) new.1 ≡ false

  worse_of : (a b c d : Option F) → Bool
  worse_of a b c d =
      both_less floats b (scaled floats floats.times_95 a)
      || both_less floats (scaled floats floats.times_110 c) d

  not_worse :
      (x y z w : F)
      → worse_of (some x) (some y) (some z) (some w) ≡ false
      → (floats.less y (floats.times_95 x) ≡ false) × (floats.less (floats.times_110 z) w ≡ false)
  unfolding worse_of
  not_worse x y z w h = (ground arith, ground arith)

  pub is_worse-KeepsUp :
      (c : Case F)
      → length c.baseline.measured ≡ 3
      → length c.candidate.measured ≡ 3
      → all is_some c.baseline.measured ≡ true
      → all is_some c.candidate.measured ≡ true
      → is_worse floats c ≡ false
      → KeepsUp c
  unfolding worse_of
  is_worse-KeepsUp c n m h k e =
      let a = median_of_three rate c.baseline.measured n h in
      let b = median_of_three rate c.candidate.measured m k in
      let t = median_of_three frame_time c.baseline.measured n h in
      let u = median_of_three frame_time c.candidate.measured m k in
      let w : worse_of (some a.0) (some b.0) (some t.0) (some u.0) ≡ false =
        ap (λ o. worse_of o (some b.0) (some t.0) (some u.0)) (sym a.1)
        ∙ ap
            (λ o.
              worse_of (median floats (samples floats rate c.baseline.measured)) o (some t.0)
                (some u.0))
            (sym b.1)
        ∙ ap
            (λ o.
              worse_of (median floats (samples floats rate c.baseline.measured))
                (median floats (samples floats rate c.candidate.measured)) o (some u.0))
            (sym t.1)
        ∙ ap
            (λ o.
              worse_of (median floats (samples floats rate c.baseline.measured))
                (median floats (samples floats rate c.candidate.measured))
                (median floats (samples floats frame_time c.baseline.measured)) o)
            (sym u.1)
        ∙ e in
      let r = not_worse a.0 b.0 t.0 u.0 w in
      record {
        old = (a.0, t.0);
        new = (b.0, u.0);
        old_rate = a.1;
        old_time = t.1;
        new_rate = b.1;
        new_time = u.1;
        fast = r.0;
        smooth = r.1;
      }
