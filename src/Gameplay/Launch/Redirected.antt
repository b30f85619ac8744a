-- ===== src/Gameplay/Launch/Redirected.antt =====
-- The assignments of a command that `command_for` of runtime/kosmickrisp/gameplay.py makes.
use mathlib.Core.Path.{subst}
use winecx_gptk.Common.{
  Bool, true, false, List, [], ◌∷◌, ◌++◌, any, AllOf, Bool-cases, inl, inr, if◌then◌else◌, ◌≡◌,
  refl, sym, ◌∙◌, ap, arith,
}
use winecx_gptk.Common.Text.{Text, codes, text_eq, text_eq_refl, starts_with}
use winecx_gptk.Gameplay.Launch.Assigned.{settings, loose, end_mode, any-append, completed-Only}
use winecx_gptk.Gameplay.Launch.{
  replacements, assignment, redirected, Mode, option_next, old_value_next, assignment_next,
  mode_after, Built, built, via_steam, after_items, items_of, walk, with_cache_log, assigns, assign,
  assign_missing, completed, command_for,
}
use winecx_gptk.Gameplay.Launch.Walked.{
  IsRedirected, metal_log, variant_log, idle_trigger, Well, WellBuilt, walk-Well,
  with_cache_log-Well, assign_missing-Well, replacements-IsRedirected,
}

starts_with-append : (a w : Text) → starts_with (a ++ (b'=' ∷ [])) (a ++ (b'=' ∷ w)) ≡ true
starts_with-append [] w = refl
starts_with-append (c ∷ a) w = ground (arith, starts_with-append a w)

assigns-assign :
    (command : List Text) (q r : Text × Text)
    → assigns command q ≡ true
    → assigns (assign command r) q ≡ true
assigns-assign command q r h =
    let more =
      any-append (starts_with (q.0 ++ (b'=' ∷ []))) command (codes "--env" ∷ assignment r ∷ []) in
    elim (Bool-cases (assigns command r)) [ inl c ↦ ground arith | inr c ↦ ground arith ]

assigns-assign_same : (command : List Text) (r : Text × Text) → assigns (assign command r) r ≡ true
assigns-assign_same command r =
    let more =
      any-append (starts_with (r.0 ++ (b'=' ∷ []))) command (codes "--env" ∷ assignment r ∷ []) in
    let self = starts_with-append r.0 r.1 in
    elim (Bool-cases (assigns command r)) [ inl c ↦ ground arith | inr c ↦ ground arith ]

assigns-missing :
    (command : List Text) (q : Text × Text) (rs : List (Text × Text))
    → assigns command q ≡ true
    → assigns (assign_missing command rs) q ≡ true
unfolding assign_missing
assigns-missing command q [] h = h
assigns-missing command q (r ∷ rs) h =
    assigns-missing (assign command r) q rs (assigns-assign command q r h)

assign_missing-all :
    (command : List Text) (rs : List (Text × Text))
    → AllOf (λ r. assigns (assign_missing command rs) r ≡ true) rs
unfolding assign_missing
assign_missing-all command [] = tt
assign_missing-all command (r ∷ rs) = (
  assigns-missing (assign command r) r rs (assigns-assign_same command r),
  assign_missing-all (assign command r) rs,
)

any-transfer :
    (p q : Text → Bool) (xs : List Text)
    → AllOf (λ x. p x ≡ true → q x ≡ true) xs
    → any p xs ≡ true
    → any q xs ≡ true
any-transfer p q [] h e = e
any-transfer p q (x ∷ xs) h e =
    let ih = any-transfer p q xs h.1 in
    elim (Bool-cases (p x)) [
      | inl c ↦ rw (h.0 c) refl
      | inr c ↦ let k = ih (ground arith) in ground arith
    ]

-- The item assigns the variable, by its beginning.
abbrev pub sets : Text × Text → Text → Bool
sets r = starts_with (r.0 ++ (b'=' ∷ []))

-- None of the items looks like an assignment of a variable that is replaced.
abbrev pub SetNone : Text → List Text → Type 0
SetNone directory items = AllOf (λ r. any (sets r) items ≡ false) (replacements directory)

-- An argument of `--env` assigns its file to each variable that is replaced, and none assigns
-- another value to it.
abbrev pub IsLaunch : Text → List Text → Type 0
IsLaunch directory command =
    AllOf (IsRedirected directory) (settings option_next command)
    × AllOf (λ r. any (text_eq (assignment r)) (settings option_next command) ≡ true)
        (replacements directory)

AllOf-second :
    {P Q : Text → Type 0} (xs : List Text) → AllOf P xs → ((x : Text) → P x → Q x) → AllOf Q xs
AllOf-second [] h f = tt
AllOf-second (x ∷ xs) h f = (f x h.0, AllOf-second xs h.1 f)

module _ (directory label timeout : Text) (base command : List Text) where
  -- One of the variables: its assignment is an argument of `--env`.
  set_by :
      (r : Text × Text)
      → sets r (codes "--env") ≡ false
      → sets r (codes "--cache-log") ≡ false
      → any (sets r) (label ∷ timeout ∷ loose option_next base) ≡ false
      → walk label directory timeout option_next base ≡ built command
      → assigns (assign_missing (with_cache_log command) (replacements directory)) r ≡ true
      → AllOf
          (λ s. sets r s ≡ true → s ≡ assignment r)
          (settings option_next (assign_missing (with_cache_log command) (replacements directory)))
      → any
          (text_eq (assignment r))
          (settings option_next (assign_missing (with_cache_log command) (replacements directory)))
        ≡ true
  set_by r q c h e a s =
      let all = assign_missing (with_cache_log command) (replacements directory) in
      let only =
        completed-Only (sets r) label directory timeout base command (replacements directory) q c h
          e in
      any-transfer (sets r) (text_eq (assignment r)) (settings option_next all)
        (AllOf-second (settings option_next all) s
          (λ x f k. ap (text_eq (assignment r)) (f k) ∙ text_eq_refl (assignment r)))
        (sym only ∙ a)

  completed-IsLaunch :
      SetNone directory (label ∷ timeout ∷ loose option_next base)
      → walk label directory timeout option_next base ≡ built command
      → IsLaunch directory (assign_missing (with_cache_log command) (replacements directory))
  unfolding Well
  completed-IsLaunch h e =
      let logged = with_cache_log command in
      let all = assign_missing logged (replacements directory) in
      let w : Well directory option_next command =
        subst (WellBuilt directory option_next) e
          (walk-Well directory label timeout option_next base) in
      let well =
        assign_missing-Well directory logged (replacements directory)
          (replacements-IsRedirected directory) (with_cache_log-Well directory command w) in
      let given = assign_missing-all logged (replacements directory) in
      (
        well.0,
        (
          set_by (metal_log, directory ++ codes "/metal.jsonl") refl refl h.0 e given.0
              (AllOf-second (settings option_next all) well.0 (λ x f. f.0)),
          (
            set_by (variant_log, directory ++ codes "/variants.jsonl") refl refl h.1.0 e given.1.0
                (AllOf-second (settings option_next all) well.0 (λ x f. f.1.0)),
            (
              set_by (idle_trigger, directory ++ codes "/idle-trigger") refl refl h.1.1.0 e
                  given.1.1.0 (AllOf-second (settings option_next all) well.0 (λ x f. f.1.1.0)),
              tt,
            ),
          ),
        ),
      )

abbrev pub is_open : Mode → Bool
is_open option_next = false
is_open old_value_next = false
is_open assignment_next = true

abbrev IsBuilt : Built → Type 0
IsBuilt b = (command : List Text) × (b ≡ built command)

after_items-IsBuilt : (items : List Text) (b : Built) → IsBuilt b → IsBuilt (after_items items b)
after_items-IsBuilt items b h = (items ++ h.0, ap (after_items items) h.1)

walk-IsBuilt :
    (label directory timeout : Text) (mode : Mode) (base : List Text)
    → any (text_eq (codes "--via-steam")) base ≡ false
    → is_open (end_mode mode base) ≡ false
    → IsBuilt (walk label directory timeout mode base)
unfolding walk
walk-IsBuilt label directory timeout option_next [] h k = ([], refl)
walk-IsBuilt label directory timeout old_value_next [] h k = ([], refl)
walk-IsBuilt label directory timeout assignment_next [] h k = absurd cc
walk-IsBuilt label directory timeout option_next (item ∷ rest) h k =
    let later = walk label directory timeout (mode_after item) rest in
    let ih = walk-IsBuilt label directory timeout (mode_after item) rest (ground arith) k in
    let steam : text_eq (codes "--via-steam") item ≡ false = ground arith in
    subst
      (λ b.
        IsBuilt
          (if b then via_steam else after_items (items_of label directory timeout item) later))
      (sym steam) (after_items-IsBuilt (items_of label directory timeout item) later ih)
walk-IsBuilt label directory timeout old_value_next (item ∷ rest) h k =
    walk-IsBuilt label directory timeout option_next rest (ground arith) k
walk-IsBuilt label directory timeout assignment_next (item ∷ rest) h k =
    after_items-IsBuilt (redirected directory item ∷ [])
      (walk label directory timeout option_next rest)
      (walk-IsBuilt label directory timeout option_next rest (ground arith) k)

-- A base command without `--via-steam` that does not end in an `--env` whose assignment is
-- missing is built. If no item besides the arguments of `--env` and the old values, nor the label
-- or the timeout, begins with the name of a replaced variable and `=`, then for each of the three
-- an argument of `--env` in the command assigns its file in the new directory, and no argument of
-- `--env` assigns another value to it, whatever the base command had.
pub command_for-Launches :
    (base : List Text) (label directory timeout : Text)
    → any (text_eq (codes "--via-steam")) base ≡ false
    → is_open (end_mode option_next base) ≡ false
    → SetNone directory (label ∷ timeout ∷ loose option_next base)
    → (command : List Text) × ((command_for base label directory timeout ≡ built command)
        × IsLaunch directory command)
unfolding command_for completed
command_for-Launches base label directory timeout h k n =
    let w = walk-IsBuilt label directory timeout option_next base h k in
    let command = assign_missing (with_cache_log w.0) (replacements directory) in
    (
      command,
      (ap (completed directory) w.1, completed-IsLaunch directory label timeout base w.0 n w.1),
    )
