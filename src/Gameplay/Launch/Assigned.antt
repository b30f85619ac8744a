-- ===== src/Gameplay/Launch/Assigned.antt =====
-- The settings of `--env` in the command that `command_for` of runtime/kosmickrisp/gameplay.py makes:
-- what an item outside of them is.
use mathlib.Core.Path.{subst}
use winecx_gptk.Common.{
  Bool, true, false, ◌||◌, List, [], ◌∷◌, ◌++◌, any, Bool-cases, inl, inr, if◌then◌else◌, ◌≡◌, refl,
  sym, ◌∙◌, ap, arith,
}
use winecx_gptk.Common.Text.{Text, codes, text_eq, text_eq_sound}
use winecx_gptk.Gameplay.Launch.{
  assignment, redirected, Mode, option_next, old_value_next, assignment_next, mode_after, Built,
  built, via_steam, no_assignment, after_items, items_of, walk, with_cache_log, assigns, assign,
  assign_missing,
}

-- The arguments of `--env` in a command.
abbrev pub settings : Mode → List Text → List Text
settings mode [] = []
settings option_next (x ∷ xs) = settings (mode_after x) xs
settings old_value_next (x ∷ xs) = settings option_next xs
settings assignment_next (x ∷ xs) = x ∷ settings option_next xs

-- The items of a command but for those arguments and the old values.
abbrev pub loose : Mode → List Text → List Text
loose mode [] = []
loose option_next (x ∷ xs) = x ∷ loose (mode_after x) xs
loose old_value_next (x ∷ xs) = loose option_next xs
loose assignment_next (x ∷ xs) = loose option_next xs

abbrev pub end_mode : Mode → List Text → Mode
end_mode mode [] = mode
end_mode option_next (x ∷ xs) = end_mode (mode_after x) xs
end_mode old_value_next (x ∷ xs) = end_mode option_next xs
end_mode assignment_next (x ∷ xs) = end_mode option_next xs

-- How a mode reads what is put for an item: the value of `--runs` is there already.
abbrev pub reading : Mode → Mode
reading option_next = option_next
reading old_value_next = option_next
reading assignment_next = assignment_next

pub any-append : (p : Text → Bool) (xs ys : List Text) → any p (xs ++ ys) ≡ (any p xs || any p ys)
any-append p [] ys = refl
any-append p (x ∷ xs) ys = ground (arith, any-append p xs ys)

module _ (p : Text → Bool) where
  -- Only settings satisfy `p`, and no option is left open.
  pub Only : Mode → List Text → Type 0
  Only mode items =
      (any p items ≡ any p (settings mode items)) × (end_mode mode items ≡ option_next)

  abbrev pub OnlyBuilt : Mode → Built → Type 0
  OnlyBuilt mode (built items) = Only mode items
  OnlyBuilt mode via_steam = Unit {0}
  OnlyBuilt mode no_assignment = Unit {0}

  module _ (label directory timeout : Text) where
    abbrev Step : List Text → Text → Type 0
    Step rest item =
        p item ≡ false
        → Only (reading (mode_after item)) rest
        → Only option_next (items_of label directory timeout item ++ rest)

    step :
        (option item : Text) (rest : List Text)
        → text_eq option item ≡ true
        → Step rest option
        → Step rest item
    step option item rest e f = subst (Step rest) (text_eq_sound option item e) f

    items_of-Only :
        (item : Text) (b : Built)
        → p label ≡ false
        → p timeout ≡ false
        → p item ≡ false
        → OnlyBuilt (reading (mode_after item)) b
        → OnlyBuilt option_next (after_items (items_of label directory timeout item) b)
    unfolding Only
    items_of-Only item via_steam l t i h = tt
    items_of-Only item no_assignment l t i h = tt
    items_of-Only item (built rest) l t i h = elim (Bool-cases (text_eq (codes "--runs") item)) [
      | inl e ↦ step (codes "--runs") item rest e (λ j k. (rw (j, l) k.0, k.1)) i h
      | inr e ↦ elim (Bool-cases (text_eq (codes "--seconds") item)) [
        | inl f ↦ step (codes "--seconds") item rest f (λ j k. (rw (j, t) k.0, k.1)) i h
        | inr f ↦ elim (Bool-cases (text_eq (codes "--env") item)) [
          | inl g ↦ step (codes "--env") item rest g (λ j k. (rw j k.0, k.1)) i h
          | inr g ↦
              let m : mode_after item ≡ option_next = ground arith in
              let is : items_of label directory timeout item ≡ item ∷ [] = ground arith in
              let k = subst (λ m. Only (reading m) rest) m h in
              subst (λ is. Only option_next (is ++ rest)) (sym is)
                (subst
                  (λ m.
                    ((p item || any p rest) ≡ any p (settings m rest))
                    × (end_mode m rest ≡ option_next))
                  (sym m) (rw i k.0, k.1))
        ]
      ]
    ]

    if-OnlyBuilt :
        (c : Bool) (b : Built)
        → OnlyBuilt option_next b
        → OnlyBuilt option_next (if c then via_steam else b)
    if-OnlyBuilt true b h = tt
    if-OnlyBuilt false b h = h

    redirected-Only :
        (item : Text) (b : Built)
        → OnlyBuilt option_next b
        → OnlyBuilt assignment_next (after_items (redirected directory item ∷ []) b)
    unfolding Only
    redirected-Only item (built rest) h = (ap (λ b. p (redirected directory item) || b) h.0, h.1)
    redirected-Only item via_steam h = tt
    redirected-Only item no_assignment h = tt

    walk-Only :
        (mode : Mode) (base : List Text)
        → p label ≡ false
        → p timeout ≡ false
        → any p (loose mode base) ≡ false
        → OnlyBuilt (reading mode) (walk label directory timeout mode base)
    unfolding walk Only
    walk-Only option_next [] l t h = (refl, refl)
    walk-Only old_value_next [] l t h = (refl, refl)
    walk-Only assignment_next [] l t h = tt
    walk-Only option_next (item ∷ rest) l t h =
        let ih = walk-Only (mode_after item) rest l t (ground arith) in
        if-OnlyBuilt (text_eq (codes "--via-steam") item)
          (after_items (items_of label directory timeout item)
            (walk label directory timeout (mode_after item) rest))
          (items_of-Only item (walk label directory timeout (mode_after item) rest) l t
            (ground arith) ih)
    walk-Only old_value_next (item ∷ rest) l t h = walk-Only option_next rest l t h
    walk-Only assignment_next (item ∷ rest) l t h =
        redirected-Only item (walk label directory timeout option_next rest)
          (walk-Only option_next rest l t h)

  settings-append :
      (mode : Mode) (xs ys : List Text)
      → end_mode mode xs ≡ option_next
      → settings mode (xs ++ ys) ≡ settings mode xs ++ settings option_next ys
  settings-append mode [] ys e = ap (λ m. settings m ys) e
  settings-append option_next (x ∷ xs) ys e = settings-append (mode_after x) xs ys e
  settings-append old_value_next (x ∷ xs) ys e = settings-append option_next xs ys e
  settings-append assignment_next (x ∷ xs) ys e =
      ap (λ (l : List Text). x ∷ l) (settings-append option_next xs ys e)

  end_mode-append :
      (mode : Mode) (xs ys : List Text)
      → end_mode mode xs ≡ option_next
      → end_mode mode (xs ++ ys) ≡ end_mode option_next ys
  end_mode-append mode [] ys e = ap (λ m. end_mode m ys) e
  end_mode-append option_next (x ∷ xs) ys e = end_mode-append (mode_after x) xs ys e
  end_mode-append old_value_next (x ∷ xs) ys e = end_mode-append option_next xs ys e
  end_mode-append assignment_next (x ∷ xs) ys e = end_mode-append option_next xs ys e

  Only-append :
      (xs ys : List Text) → Only option_next xs → Only option_next ys → Only option_next (xs ++ ys)
  unfolding Only
  Only-append xs ys h k = (
    any-append p xs ys
        ∙ ap (λ b. b || any p ys) h.0
        ∙ ap (λ b. any p (settings option_next xs) || b) k.0
        ∙ sym (any-append p (settings option_next xs) (settings option_next ys))
        ∙ ap (any p) (sym (settings-append option_next xs ys h.1)),
    end_mode-append option_next xs ys h.1 ∙ k.1,
  )

  with_cache_log-Only :
      (command : List Text)
      → p (codes "--cache-log") ≡ false
      → Only option_next command
      → Only option_next (with_cache_log command)
  unfolding Only
  with_cache_log-Only command q h =
      elim (Bool-cases (any (text_eq (codes "--cache-log")) command)) [
        | inl c ↦
            subst
              (λ b. Only option_next (if b then command else command ++ (codes "--cache-log" ∷ [])))
              (sym c) h
        | inr c ↦
            subst
              (λ b. Only option_next (if b then command else command ++ (codes "--cache-log" ∷ [])))
              (sym c) (Only-append command (codes "--cache-log" ∷ []) h (rw q refl, refl))
      ]

  assign-Only :
      (command : List Text) (r : Text × Text)
      → p (codes "--env") ≡ false
      → Only option_next command
      → Only option_next (assign command r)
  unfolding Only
  assign-Only command r q h =
      let more = codes "--env" ∷ assignment r ∷ [] in
      elim (Bool-cases (assigns command r)) [
        | inl c ↦ subst (λ b. Only option_next (if b then command else command ++ more)) (sym c) h
        | inr c ↦
            subst (λ b. Only option_next (if b then command else command ++ more)) (sym c)
              (Only-append command more h (rw q refl, refl))
      ]

  assign_missing-Only :
      (command : List Text) (rs : List (Text × Text))
      → p (codes "--env") ≡ false
      → Only option_next command
      → Only option_next (assign_missing command rs)
  unfolding assign_missing
  assign_missing-Only command [] q h = h
  assign_missing-Only command (r ∷ rs) q h =
      assign_missing-Only (assign command r) rs q (assign-Only command r q h)

  -- What a finished command has in all its items, it has in its settings.
  pub completed-Only :
      (label directory timeout : Text) (base command : List Text) (rs : List (Text × Text))
      → p (codes "--env") ≡ false
      → p (codes "--cache-log") ≡ false
      → any p (label ∷ timeout ∷ loose option_next base) ≡ false
      → walk label directory timeout option_next base ≡ built command
      → any p (assign_missing (with_cache_log command) rs)
        ≡ any p (settings option_next (assign_missing (with_cache_log command) rs))
  unfolding Only
  completed-Only label directory timeout base command rs q c h e =
      let w =
        walk-Only label directory timeout option_next base (ground arith) (ground arith)
          (ground arith) in
      let k : Only option_next command = subst (OnlyBuilt option_next) e w in
      let only =
        assign_missing-Only (with_cache_log command) rs q (with_cache_log-Only command c k) in
      only.0
