-- ===== src/Registry/Edit.antt =====
-- Reading an edited registry gives the edit back.
use mathlib.Core.Path.{subst}
use mathlib.Core.List.{append-nil}
use winecx_gptk.Common.{
  ℕ, zero, suc, true, false, ◌≡◌, refl, sym, ap, ◌∙◌, Option, none, some, List, [], ◌∷◌, ◌++◌,
  AllOf, AllOf-append, AllOf-left, AllOf-right, arith, is_none, Bool-cases, Option-cases, inl, inr,
  ◌==◌,
}
use winecx_gptk.Common.Text.{Text, lower}
use winecx_gptk.Registry.{
  Dll, Overrides, no_overrides, values, registry_values, values_from, find_section, is_header,
  opens, body, after_body, unmanaged, managed, section, truthy, value_lines, rstrip_newlines,
  newline, new_header, append_section, edit_registry,
}
use winecx_gptk.Registry.Lines.{
  Line, split_lines, join, IsComplete, AllComplete, split_lines-append, split_lines-newline,
  join-split_lines,
}
use winecx_gptk.Registry.Scan.{
  is_tidy, NoHeader, Tidy, AreValues, IsValue, scan-before, scan-header, scan-kept, scan-after,
  scan-quiet, scan-values,
}

-- The first header splits the lines.
pub find_section-some :
    (ls : List Line) {pre : List Line} {h : Line} {rest : List Line}
    → find_section ls ≡ some (pre, h, rest)
    → (ls ≡ pre ++ h ∷ rest) × NoHeader pre × (is_header h ≡ true)
unfolding find_section
find_section-some [] e = absurd (cc)
find_section-some (l ∷ ls) {pre = []} e = ground (arith)
find_section-some (l ∷ ls) {pre = p ∷ ps} {h = h} {rest = rest} e =
    ground (arith, find_section-some ls {pre = ps} {h = h} {rest = rest})

find_section-none : (ls : List Line) → find_section ls ≡ none → NoHeader ls
unfolding find_section
find_section-none [] e = tt
find_section-none (l ∷ ls) e = ground (arith, find_section-none ls)

module _ (P : Line → Type 0) where
  AllOf-kept : (ls : List Line) → AllOf P ls → AllOf P (unmanaged (body ls))
  unfolding unmanaged body
  AllOf-kept [] h = tt
  AllOf-kept (l ∷ ls) h =
      let ih = AllOf-kept ls h.1 in
      elim (Bool-cases (opens l)) [
        | inl e ↦ rw e tt
        | inr e ↦
            rw e
              (elim (Bool-cases (is_none (managed l))) [ inl f ↦ rw f (h.0, ih) | inr f ↦ rw f ih ])
      ]

  AllOf-after_body : (ls : List Line) → AllOf P ls → AllOf P (after_body ls)
  unfolding after_body
  AllOf-after_body [] h = tt
  AllOf-after_body (l ∷ ls) h =
      let ih = AllOf-after_body ls h.1 in
      elim (Bool-cases (opens l)) [ inl e ↦ rw e h | inr e ↦ rw e ih ]

abbrev pub later_lines : Option (List Line × Line × List Line) → List Line
later_lines none = []
later_lines (some (pre, header, rest)) = rest

-- A registry as Wine writes it: every line ends with its only break, every line that starts with
-- `[` is a section line, and the overrides have at most one section.
pub record IsRegistry (text : Text) : Type 0 where
  pub complete : AllComplete (split_lines text)
  pub tidy : Tidy (split_lines text)
  pub single : NoHeader (later_lines (find_section (split_lines text)))

IsValue-complete : (name : Dll) (v : Option Line) → IsValue name v → AllComplete (truthy v)
IsValue-complete name none h = tt
IsValue-complete name (some []) h = tt
IsValue-complete name (some (c ∷ cs)) h = (h.complete, tt)

AreValues-complete : (w : Overrides) → AreValues w → AllComplete (value_lines w)
AreValues-complete w h =
    AllOf-append IsComplete (truthy w.d3d8_line) _ (IsValue-complete _ _ h.for_d3d8) (
      AllOf-append IsComplete (truthy w.d3d9_line) _ (IsValue-complete _ _ h.for_d3d9) (
        AllOf-append IsComplete (truthy w.d3d10core_line) _ (IsValue-complete _ _ h.for_d3d10core) (
          AllOf-append IsComplete (truthy w.d3d11_line) _ (IsValue-complete _ _ h.for_d3d11)
            (IsValue-complete _ _ h.for_dxgi))))

pub split_lines-join : (ls : List Line) → AllComplete ls → split_lines (join ls) ≡ ls
split_lines-join ls h =
    ap split_lines (sym (append-nil (join ls)))
    ∙ split_lines-append ls [] h
    ∙ unfold split_lines in append-nil ls

unfoldable pub edited_lines : Overrides → List Line → Line → List Line → List Line
edited_lines w pre header rest =
    pre ++ header ∷ (unmanaged (body rest) ++ (value_lines w ++ after_body rest))

module _ (w : Overrides) (are : AreValues w) where
  values-edited_lines :
      (pre : List Line) (header : Line) (rest : List Line)
      → NoHeader pre
      → is_header header ≡ true
      → NoHeader rest
      → Tidy rest
      → values_from false no_overrides (edited_lines w pre header rest) ≡ values w
  unfolding edited_lines
  values-edited_lines pre header rest before e after tidy =
      scan-before no_overrides pre
        (header ∷ (unmanaged (body rest) ++ (value_lines w ++ after_body rest))) before
      ∙ scan-header false no_overrides header
          (unmanaged (body rest) ++ (value_lines w ++ after_body rest)) e
      ∙ scan-kept no_overrides rest (value_lines w ++ after_body rest)
      ∙ scan-values w (after_body rest) are
      ∙ scan-after w rest after tidy

  pub edited_lines_complete :
      (pre : List Line) (header : Line) (rest : List Line)
      → AllComplete (pre ++ header ∷ rest)
      → AllComplete (edited_lines w pre header rest)
  unfolding edited_lines
  edited_lines_complete pre header rest h =
      let right = AllOf-right IsComplete pre (header ∷ rest) h in
      AllOf-append IsComplete pre _ (AllOf-left IsComplete pre (header ∷ rest) h) (
        right.0,
        AllOf-append IsComplete (unmanaged (body rest)) _ (AllOf-kept IsComplete rest right.1) (
            AllOf-append IsComplete (value_lines w) _ (AreValues-complete w are)
              (AllOf-after_body IsComplete rest right.1)),
      )

  -- An existing section is edited in place.
  values-edit_some :
      (text : Text) (pre : List Line) (header : Line) (rest : List Line)
      → IsRegistry text
      → find_section (split_lines text) ≡ some (pre, header, rest)
      → registry_values (edit_registry text w) ≡ values w
  unfolding registry_values edit_registry edited_lines
  values-edit_some text pre header rest h e =
      let found = find_section-some (split_lines text) e in
      let complete = subst AllComplete found.0 h.complete in
      let tidy =
        AllOf-right (λ l. is_tidy l ≡ true) pre (header ∷ rest) (subst Tidy found.0 h.tidy) in
      let single = subst (λ o. NoHeader (later_lines o)) e h.single in
      rw (e, edit_registry)
        (ap (values_from false no_overrides) (
            split_lines-join (edited_lines w pre header rest)
              (edited_lines_complete pre header rest complete))
          ∙ values-edited_lines pre header rest found.1 found.2 single tidy.1)

newlines : ℕ → Text
newlines zero = []
newlines (suc k) = 10 ∷ newlines k

-- What `rstrip` takes away are newlines.
rstrip_rest : (text : Text) → (k : ℕ) × (text ≡ rstrip_newlines text ++ newlines k)
unfolding rstrip_newlines newlines
rstrip_rest [] = (0, refl)
rstrip_rest (c ∷ cs) = step (rstrip_newlines cs) refl (rstrip_rest cs)
  where
    step :
        (r : Text)
        → rstrip_newlines cs ≡ r
        → ((k : ℕ) × (cs ≡ rstrip_newlines cs ++ newlines k))
        → (k : ℕ) × (c ∷ cs ≡ rstrip_newlines (c ∷ cs) ++ newlines k)
    step [] e (k, f) = elim (Bool-cases (c == 10)) [
      | inl nl ↦ (suc k, ground arith)
      | inr other ↦ (k, ground arith)
    ]
    step (d ∷ ds) e (k, f) = (k, ground arith)

plain-newline : is_header newline ≡ false
unfolding is_header lower
plain-newline = refl

abbrev NoHeaderLine : Line → Type 0
NoHeaderLine line = is_header line ≡ false

new_header_found : is_header new_header ≡ true
unfolding is_header lower
new_header_found = refl

last_newline : (w : Overrides) → values_from true w (newline ∷ []) ≡ values w
unfolding values_from section managed
last_newline w = refl

newline-lines : split_lines newline ≡ newline ∷ []
unfolding split_lines
newline-lines = refl

NoHeader-rstrip :
    (text : Text)
    → AllComplete (split_lines text)
    → NoHeader (split_lines text)
    → NoHeader (split_lines (rstrip_newlines text ++ newline))
unfolding newlines
NoHeader-rstrip text complete h = step (rstrip_rest text)
  where
    step :
        ((k : ℕ) × (text ≡ rstrip_newlines text ++ newlines k))
        → NoHeader (split_lines (rstrip_newlines text ++ newline))
    step (zero, f) =
        let ls = split_lines text in
        let same : rstrip_newlines text ≡ join ls =
          sym (f ∙ append-nil (rstrip_newlines text)) ∙ sym (join-split_lines text) in
        let e =
          ap (λ (t : Text). split_lines (t ++ newline)) same
          ∙ split_lines-append ls newline complete
          ∙ ap (λ (t : List Line). ls ++ t) newline-lines in
        subst NoHeader (sym e) (AllOf-append NoHeaderLine ls (newline ∷ []) h (plain-newline, tt))
    step (suc k, f) =
        let e = ap split_lines f ∙ split_lines-newline (rstrip_newlines text) (newlines k) in
        AllOf-left NoHeaderLine (split_lines (rstrip_newlines text ++ newline))
          (split_lines (newlines k)) (subst NoHeader e h)

header-lines :
    (rest : Text)
    → split_lines (newline ++ (new_header ++ rest)) ≡ newline ∷ (new_header ∷ split_lines rest)
unfolding split_lines
header-lines rest = refl

new_section-lines :
    (text : Text) (vals : List Line)
    → AllComplete vals
    → split_lines
        (rstrip_newlines text ++ (newline ++ (newline ++ (new_header ++ (join vals ++ newline)))))
      ≡ split_lines (rstrip_newlines text ++ newline)
        ++ (newline ∷ (new_header ∷ (vals ++ newline ∷ [])))
new_section-lines text vals h =
    let kept = split_lines (rstrip_newlines text ++ newline) in
    split_lines-newline (rstrip_newlines text) (newline ++ (new_header ++ (join vals ++ newline)))
    ∙ ap (λ (t : List Line). kept ++ t) (header-lines (join vals ++ newline))
    ∙ ap (λ (t : List Line). kept ++ (newline ∷ (new_header ∷ t)))
        (split_lines-append vals newline h ∙ ap (λ (t : List Line). vals ++ t) newline-lines)

module _ (w : Overrides) (are : AreValues w) where
  -- A new section is read like an old one.
  values-new_section :
      (pre : List Line)
      → NoHeader pre
      → values_from false no_overrides
          (pre ++ (newline ∷ (new_header ∷ (value_lines w ++ newline ∷ []))))
        ≡ values w
  values-new_section pre h =
      scan-before no_overrides pre (newline ∷ (new_header ∷ (value_lines w ++ newline ∷ []))) h
      ∙ scan-before no_overrides (newline ∷ []) (new_header ∷ (value_lines w ++ newline ∷ []))
          (plain-newline, tt)
      ∙ scan-header false no_overrides new_header (value_lines w ++ newline ∷ []) new_header_found
      ∙ scan-values w (newline ∷ []) are
      ∙ last_newline w

  append_section-values :
      (text : Text)
      → AllComplete (split_lines text)
      → NoHeader (split_lines text)
      → (vals : List Line) → value_lines w ≡ vals
      → registry_values (append_section text vals) ≡ values w
  unfolding append_section registry_values
  append_section-values text complete h [] e =
      scan-quiet no_overrides (split_lines text) h
      ∙ unfold values_from in
        refl
        ∙ ap (λ (t : List Line). values_from true no_overrides (t ++ [])) (sym e)
        ∙ scan-values w [] are
        ∙ unfold values_from in refl
  append_section-values text complete h (v ∷ vs) e =
      let pre = split_lines (rstrip_newlines text ++ newline) in
      ap (values_from false no_overrides) (
        new_section-lines text (v ∷ vs) (subst AllComplete e (AreValues-complete w are))
        ∙ ap (λ (t : List Line). pre ++ (newline ∷ (new_header ∷ (t ++ newline ∷ [])))) (sym e))
      ∙ values-new_section pre (NoHeader-rstrip text complete h)

  values-edit_none :
      (text : Text)
      → IsRegistry text
      → find_section (split_lines text) ≡ none
      → registry_values (edit_registry text w) ≡ values w
  unfolding edit_registry
  values-edit_none text h e =
      rw (e, edit_registry)
        (append_section-values text h.complete (find_section-none (split_lines text) e)
          (value_lines w) refl)

-- For a registry as Wine writes it (its lines are complete, each line that starts with a bracket
-- is a section line, the overrides have at most one section) and a dictionary of well-formed
-- override lines, `registry_values` of `edit_registry` returns exactly that dictionary, whether
-- the section was there or not.
pub registry_values-edit_registry :
    (text : Text) (w : Overrides)
    → IsRegistry text
    → AreValues w
    → registry_values (edit_registry text w) ≡ values w
registry_values-edit_registry text w h are = elim (Option-cases (find_section (split_lines text))) [
  | inl absent ↦ values-edit_none w are text h absent
  | inr ((pre, header, rest), e) ↦ values-edit_some w are text pre header rest h e
]
