-- ===== src/Gameplay/Launch/Walked.antt =====
-- The settings of `--env` that the loops of `command_for` of runtime/kosmickrisp/gameplay.py make assign
-- the new values.
use mathlib.Core.Path.{subst}
use winecx_gptk.Common.{
  Bool, true, false, List, [], ◌∷◌, ◌++◌, ◌==◌, any, AllOf, Bool-cases, inl, inr, if◌then◌else◌,
  ◌≡◌, refl, sym, ◌∙◌, ap, arith,
}
use winecx_gptk.Common.Text.{Text, codes, text_eq, text_eq_sound, starts_with}
use winecx_gptk.Gameplay.Launch.Assigned.{settings, end_mode, reading}
use winecx_gptk.Gameplay.Launch.{
  replacements, name_of, value_of, get_or, assignment, redirected, Mode, option_next,
  old_value_next, assignment_next, mode_after, Built, built, via_steam, no_assignment, after_items,
  items_of, walk, with_cache_log, assigns, assign, assign_missing,
}

-- What assigns a variable that is replaced assigns the new value.
abbrev pub IsRedirected : Text → Text → Type 0
IsRedirected directory s =
    AllOf (λ r. starts_with (r.0 ++ (b'=' ∷ [])) s ≡ true → s ≡ assignment r)
      (replacements directory)

-- No code point of the name is `=`.
abbrev IsName : Text → Type 0
IsName = AllOf (λ c. (c == b'=') ≡ false)

name_of-IsName : (t : Text) → IsName (name_of t)
name_of-IsName [] = tt
name_of-IsName (c ∷ cs) =
    let ih = name_of-IsName cs in
    elim (Bool-cases (c == b'=')) [
      | inl e ↦ subst (λ b. IsName (if b then [] else c ∷ name_of cs)) (sym e) tt
      | inr e ↦ subst (λ b. IsName (if b then [] else c ∷ name_of cs)) (sym e) (e, ih)
    ]

-- Two assignments that begin alike are of one name.
same_name :
    (a b w : Text)
    → IsName a
    → IsName b
    → starts_with (a ++ (b'=' ∷ [])) (b ++ (b'=' ∷ w)) ≡ true
    → text_eq a b ≡ true
same_name [] [] w h k e = refl
same_name [] (d ∷ b) w h k e = absurd (ground arith)
same_name (c ∷ a) [] w h k e = absurd (ground arith)
same_name (c ∷ a) (d ∷ b) w h k e = let ih = same_name a b w h.1 k.1 in ground arith

-- The three names, and what `get` finds for them.
abbrev pub metal_log : Text
metal_log = codes "MESA_KK_METAL_CONCURRENCY_LOG"

abbrev pub variant_log : Text
variant_log = codes "MESA_KK_VARIANT_LOG"

abbrev pub idle_trigger : Text
idle_trigger = codes "KK_TEST_IDLE_TRIGGER"

module _ (directory : Text) where
  named :
      (n v w : Text) (r : Text × Text)
      → IsName r.0
      → IsName n
      → get_or r.0 v (replacements directory) ≡ r.1
      → starts_with (r.0 ++ (b'=' ∷ [])) (assignment (n, get_or n v (replacements directory)))
        ≡ true
      → assignment (n, get_or n v (replacements directory)) ≡ assignment r
  named n v w r h k g e =
      let same : r.0 ≡ n =
        text_eq_sound r.0 n (same_name r.0 n (get_or n v (replacements directory)) h k e) in
      ap (λ m. assignment (m, get_or m v (replacements directory))) (sym same)
      ∙ ap (λ x. assignment (r.0, x)) g

  redirected-IsRedirected : (item : Text) → IsRedirected directory (redirected directory item)
  unfolding redirected
  redirected-IsRedirected item =
      let n = name_of item in
      let v = value_of item in
      let k = name_of-IsName item in
      (
        named n v v (metal_log, directory ++ codes "/metal.jsonl") (name_of-IsName metal_log) k
            refl,
        (
          named n v v (variant_log, directory ++ codes "/variants.jsonl")
              (name_of-IsName variant_log) k refl,
          (
            named n v v (idle_trigger, directory ++ codes "/idle-trigger")
                (name_of-IsName idle_trigger) k refl,
            tt,
          ),
        ),
      )

  -- The items read in this mode assign what they should, and leave no option open.
  unfoldable pub Well : Mode → List Text → Type 0
  Well mode items =
      AllOf (IsRedirected directory) (settings mode items) × (end_mode mode items ≡ option_next)

  Well-append :
      (mode : Mode) (xs ys : List Text) → Well mode xs → Well option_next ys → Well mode (xs ++ ys)
  unfolding Well
  Well-append mode [] ys h k = subst (λ m. Well m ys) (sym h.1) k
  Well-append option_next (x ∷ xs) ys h k = Well-append (mode_after x) xs ys h k
  Well-append old_value_next (x ∷ xs) ys h k = Well-append option_next xs ys h k
  Well-append assignment_next (x ∷ xs) ys h k =
      let ih = Well-append option_next xs ys (h.0.1, h.1) k in ((h.0.0, ih.0), ih.1)

  abbrev pub WellBuilt : Mode → Built → Type 0
  WellBuilt mode (built items) = Well mode items
  WellBuilt mode via_steam = Unit {0}
  WellBuilt mode no_assignment = Unit {0}

  module _ (label timeout : Text) where
    abbrev Step : List Text → Text → Type 0
    Step rest item =
        Well (reading (mode_after item)) rest
        → Well option_next (items_of label directory timeout item ++ rest)

    step :
        (option item : Text) (rest : List Text)
        → text_eq option item ≡ true
        → Step rest option
        → Step rest item
    step option item rest e f = subst (Step rest) (text_eq_sound option item e) f

    items_of-Well :
        (item : Text) (b : Built)
        → WellBuilt (reading (mode_after item)) b
        → WellBuilt option_next (after_items (items_of label directory timeout item) b)
    unfolding Well
    items_of-Well item (built rest) h = elim (Bool-cases (text_eq (codes "--runs") item)) [
      | inl e ↦ step (codes "--runs") item rest e (λ k. k) h
      | inr e ↦ elim (Bool-cases (text_eq (codes "--seconds") item)) [
        | inl f ↦ step (codes "--seconds") item rest f (λ k. k) h
        | inr f ↦ elim (Bool-cases (text_eq (codes "--env") item)) [
          | inl g ↦ step (codes "--env") item rest g (λ k. k) h
          | inr g ↦
              let m : mode_after item ≡ option_next = ground arith in
              let i : items_of label directory timeout item ≡ item ∷ [] = ground arith in
              subst (λ is. Well option_next (is ++ rest)) (sym i)
                (subst (λ m. Well m rest) (sym m) (subst (λ m. Well (reading m) rest) m h))
        ]
      ]
    ]
    items_of-Well item via_steam h = tt
    items_of-Well item no_assignment h = tt

    if-WellBuilt :
        (c : Bool) (b : Built)
        → WellBuilt option_next b
        → WellBuilt option_next (if c then via_steam else b)
    if-WellBuilt true b h = tt
    if-WellBuilt false b h = h

    redirected-Well :
        (item : Text) (b : Built)
        → WellBuilt option_next b
        → WellBuilt assignment_next (after_items (redirected directory item ∷ []) b)
    unfolding Well
    redirected-Well item (built rest) h = ((redirected-IsRedirected item, h.0), h.1)
    redirected-Well item via_steam h = tt
    redirected-Well item no_assignment h = tt

    pub walk-Well :
        (mode : Mode) (base : List Text)
        → WellBuilt (reading mode) (walk label directory timeout mode base)
    unfolding walk Well
    walk-Well option_next [] = (tt, refl)
    walk-Well old_value_next [] = (tt, refl)
    walk-Well assignment_next [] = tt
    walk-Well option_next (item ∷ rest) =
        let ih = walk-Well (mode_after item) rest in
        if-WellBuilt (text_eq (codes "--via-steam") item)
          (after_items (items_of label directory timeout item)
            (walk label directory timeout (mode_after item) rest))
          (items_of-Well item (walk label directory timeout (mode_after item) rest) ih)
    walk-Well old_value_next (item ∷ rest) = walk-Well option_next rest
    walk-Well assignment_next (item ∷ rest) =
        redirected-Well item (walk label directory timeout option_next rest)
          (walk-Well option_next rest)

  pub with_cache_log-Well :
      (command : List Text) → Well option_next command → Well option_next (with_cache_log command)
  unfolding Well
  with_cache_log-Well command h = elim (Bool-cases (any (text_eq (codes "--cache-log")) command)) [
    | inl c ↦
        subst (λ b. Well option_next (if b then command else command ++ (codes "--cache-log" ∷ [])))
          (sym c) h
    | inr c ↦
        subst (λ b. Well option_next (if b then command else command ++ (codes "--cache-log" ∷ [])))
          (sym c) (Well-append option_next command (codes "--cache-log" ∷ []) h (tt, refl))
  ]

  assign-Well :
      (command : List Text) (r : Text × Text)
      → IsRedirected directory (assignment r)
      → Well option_next command
      → Well option_next (assign command r)
  unfolding Well
  assign-Well command r s h =
      let more = codes "--env" ∷ assignment r ∷ [] in
      elim (Bool-cases (assigns command r)) [
        | inl c ↦ subst (λ b. Well option_next (if b then command else command ++ more)) (sym c) h
        | inr c ↦
            subst (λ b. Well option_next (if b then command else command ++ more)) (sym c)
              (Well-append option_next command more h ((s, tt), refl))
      ]

  pub assign_missing-Well :
      (command : List Text) (rs : List (Text × Text))
      → AllOf (λ r. IsRedirected directory (assignment r)) rs
      → Well option_next command
      → Well option_next (assign_missing command rs)
  unfolding assign_missing
  assign_missing-Well command [] s h = h
  assign_missing-Well command (r ∷ rs) s h =
      assign_missing-Well (assign command r) rs s.1 (assign-Well command r s.0 h)

  pub replacements-IsRedirected :
      AllOf (λ r. IsRedirected directory (assignment r)) (replacements directory)
  unfolding redirected
  replacements-IsRedirected = (
    redirected-IsRedirected (codes "MESA_KK_METAL_CONCURRENCY_LOG="),
    (
      redirected-IsRedirected (codes "MESA_KK_VARIANT_LOG="),
      (redirected-IsRedirected (codes "KK_TEST_IDLE_TRIGGER="), tt),
    ),
  )
