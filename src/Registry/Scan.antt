-- ===== src/Registry/Scan.antt =====
-- How `registry_values` goes through the parts of an edited file: the lines before the section,
-- its header, the kept lines, the new override lines, and the lines after the section.
use mathlib.Core.List.{append_assoc}
use winecx_gptk.Common.{
  Bool, true, false, not, ◌||◌, ◌≡◌, refl, ap, ◌∙◌, Option, none, some, List, [], ◌∷◌, ◌++◌, AllOf,
  arith, is_some, Bool-cases, inl, inr,
}
use winecx_gptk.Registry.{
  Dll, d3d8, d3d9, d3d10core, d3d11, dxgi, Overrides, get, set, no_overrides, values, managed,
  section, is_header, values_from, opens, body, after_body, unmanaged, truthy, value_lines,
}
use winecx_gptk.Registry.Lines.{Line, IsComplete}
use winecx_gptk.Registry.Headers.{is_header-section, section-none}

-- Every line that starts with `[` is a section line.
abbrev pub is_tidy : Line → Bool
is_tidy line = not (opens line) || is_some (section line)

abbrev pub NoHeader : List Line → Type 0
NoHeader = AllOf (λ line. is_header line ≡ false)

abbrev pub Tidy : List Line → Type 0
Tidy = AllOf (λ line. is_tidy line ≡ true)

pub scan-before :
    (o : Overrides) (pre rest : List Line)
    → NoHeader pre
    → values_from false o (pre ++ rest) ≡ values_from false o rest
unfolding values_from
scan-before o [] rest h = refl
scan-before o (l ∷ pre) rest h =
    let ih = scan-before o pre rest h.1 in let e = is_header-section l in ground arith

pub scan-header :
    (active : Bool) (o : Overrides) (l : Line) (rest : List Line)
    → is_header l ≡ true
    → values_from active o (l ∷ rest) ≡ values_from true o rest
unfolding values_from
scan-header active o l rest h = let e = is_header-section l in ground arith

pub scan-kept :
    (o : Overrides) (lines rest : List Line)
    → values_from true o (unmanaged (body lines) ++ rest) ≡ values_from true o rest
unfolding values_from unmanaged body
scan-kept o [] rest = refl
scan-kept o (l ∷ ls) rest =
    let ih = scan-kept o ls rest in let plain = section-none l in ground arith

pub scan-quiet :
    (o : Overrides) (lines : List Line) → NoHeader lines → values_from false o lines ≡ values o
unfolding values_from
scan-quiet o [] h = refl
scan-quiet o (l ∷ ls) h =
    let ih = scan-quiet o ls h.1 in let e = is_header-section l in ground arith

scan-leave :
    (o : Overrides) (l : Line) (ls : List Line)
    → opens l ≡ true
    → is_header l ≡ false
    → is_tidy l ≡ true
    → NoHeader ls
    → values_from true o (l ∷ ls) ≡ values o
unfolding values_from
scan-leave o l ls e n t h =
    let quiet = scan-quiet o ls h in let f = is_header-section l in ground arith

-- Nothing more is read once the section is over.
pub scan-after :
    (o : Overrides) (lines : List Line)
    → NoHeader lines
    → Tidy lines
    → values_from true o (after_body lines) ≡ values o
unfolding after_body
scan-after o [] h t = unfold values_from in refl
scan-after o (l ∷ ls) h t =
    let ih = scan-after o ls h.1 t.1 in
    elim (Bool-cases (opens l)) [ inl e ↦ rw e (scan-leave o l ls e h.0 t.0 h.1) | inr e ↦ rw e ih ]

-- The line overrides the given name, and `splitlines` and `registry_values` take it as one.
pub record IsValueLine (name : Dll) (line : Line) : Type 0 where
  pub complete : IsComplete line
  pub no_section : section line ≡ none
  pub named : managed line ≡ some name

-- A value of the dictionary: absent, or such a line.
abbrev pub IsValue : Dll → Option Line → Type 0
IsValue name none = Unit {0}
IsValue name (some line) = IsValueLine name line

pub record AreValues (w : Overrides) : Type 0 where
  pub for_d3d8 : IsValue d3d8 w.d3d8_line
  pub for_d3d9 : IsValue d3d9 w.d3d9_line
  pub for_d3d10core : IsValue d3d10core w.d3d10core_line
  pub for_d3d11 : IsValue d3d11 w.d3d11_line
  pub for_dxgi : IsValue dxgi w.dxgi_line

abbrev put : Dll → Option Line → Overrides → Overrides
put d3d8 v o = record o { d3d8_line = v }
put d3d9 v o = record o { d3d9_line = v }
put d3d10core v o = record o { d3d10core_line = v }
put d3d11 v o = record o { d3d11_line = v }
put dxgi v o = record o { dxgi_line = v }

put-none : (name : Dll) (o : Overrides) → get name o ≡ none → o ≡ put name none o
put-none d3d8 o e = λ i. record o { d3d8_line = e i }
put-none d3d9 o e = λ i. record o { d3d9_line = e i }
put-none d3d10core o e = λ i. record o { d3d10core_line = e i }
put-none d3d11 o e = λ i. record o { d3d11_line = e i }
put-none dxgi o e = λ i. record o { dxgi_line = e i }

put-some : (name : Dll) (line : Line) (o : Overrides) → set name line o ≡ put name (some line) o
put-some d3d8 line o = refl
put-some _ line o = refl

scan-line :
    (name : Dll) (line : Line) (o : Overrides) (rest : List Line)
    → IsValueLine name line
    → get name o ≡ none
    → values_from true o (line ∷ rest) ≡ values_from true (set name line o) rest
unfolding values_from
scan-line name line o rest h e = let absent = h.no_section in let named = h.named in ground arith

scan-value :
    (name : Dll) (v : Option Line) (o : Overrides) (rest : List Line)
    → IsValue name v
    → get name o ≡ none
    → values_from true o (truthy v ++ rest) ≡ values_from true (put name v o) rest
scan-value name none o rest h e =
    ap (λ (t : Overrides). values_from true t rest) (put-none name o e)
scan-value name (some []) o rest h e = absurd h.complete
scan-value name (some (c ∷ cs)) o rest h e =
    scan-line name (c ∷ cs) o rest h e
    ∙ ap (λ (t : Overrides). values_from true t rest) (put-some name (c ∷ cs) o)

-- The new lines of a dictionary are read back as that dictionary.
pub scan-values :
    (w : Overrides) (rest : List Line)
    → AreValues w
    → values_from true no_overrides (value_lines w ++ rest) ≡ values_from true w rest
scan-values w rest h =
    let o1 = put d3d8 w.d3d8_line no_overrides in
    let o2 = put d3d9 w.d3d9_line o1 in
    let o3 = put d3d10core w.d3d10core_line o2 in
    let o4 = put d3d11 w.d3d11_line o3 in
    let r4 = truthy w.dxgi_line ++ rest in
    let r3 = truthy w.d3d11_line ++ r4 in
    let r2 = truthy w.d3d10core_line ++ r3 in
    let r1 = truthy w.d3d9_line ++ r2 in
    let parted : value_lines w ++ rest ≡ truthy w.d3d8_line ++ r1 = simp append_assoc in
    ap (values_from true no_overrides) parted
    ∙ scan-value d3d8 w.d3d8_line no_overrides r1 h.for_d3d8 refl
    ∙ scan-value d3d9 w.d3d9_line o1 r2 h.for_d3d9 refl
    ∙ scan-value d3d10core w.d3d10core_line o2 r3 h.for_d3d10core refl
    ∙ scan-value d3d11 w.d3d11_line o3 r4 h.for_d3d11 refl
    ∙ scan-value dxgi w.dxgi_line o4 rest h.for_dxgi refl
