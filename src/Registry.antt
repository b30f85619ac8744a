-- ===== src/Registry.antt =====
-- The DLL overrides in user.reg: registry_values, edit_registry and installed_values of
-- runtime/kosmickrisp/dxvk-prefix.py. A text is a list of code points. It was read with universal
-- newlines, so it has no carriage return; letters are compared without case in ASCII.
pub mod Lines
pub mod Headers
pub mod Scan
pub mod Edit
mod Others
pub mod Again
pub mod Installed
mod Tests
use winecx_gptk.Common.{
  ℕ, ◌+◌, Bool, true, false, not, ◌&&◌, ◌||◌, Option, none, some, List, [], ◌∷◌, ◌++◌, map, ◌==◌,
  leb, any, is_none, is_some, if◌then◌else◌,
}
use winecx_gptk.Common.Text.{Text, codes, starts_with, text_eq, lower}
use Lines.{Line, split_lines, join}

-- NAMES
pub data Dll : Type 0 where
  d3d8 d3d9 d3d10core d3d11 dxgi : Dll

abbrev pub names : List Dll
names = d3d8 ∷ d3d9 ∷ d3d10core ∷ d3d11 ∷ dxgi ∷ []

abbrev pub spelled : Dll → Text
spelled d3d8 = codes "d3d8"
spelled d3d9 = codes "d3d9"
spelled d3d10core = codes "d3d10core"
spelled d3d11 = codes "d3d11"
spelled dxgi = codes "dxgi"

-- The dictionary that `registry_values` returns: the override line of each name, or None.
pub record Overrides : Type 0 where
  pub d3d8_line : Option Line
  pub d3d9_line : Option Line
  pub d3d10core_line : Option Line
  pub d3d11_line : Option Line
  pub dxgi_line : Option Line

abbrev pub get : Dll → Overrides → Option Line
get d3d8 o = o.d3d8_line
get d3d9 o = o.d3d9_line
get d3d10core o = o.d3d10core_line
get d3d11 o = o.d3d11_line
get dxgi o = o.dxgi_line

abbrev pub set : Dll → Line → Overrides → Overrides
set d3d8 l o = record o { d3d8_line = some l }
set d3d9 l o = record o { d3d9_line = some l }
set d3d10core l o = record o { d3d10core_line = some l }
set d3d11 l o = record o { d3d11_line = some l }
set dxgi l o = record o { dxgi_line = some l }

abbrev pub no_overrides : Overrides
no_overrides = record {
  d3d8_line = none;
  d3d9_line = none;
  d3d10core_line = none;
  d3d11_line = none;
  dxgi_line = none;
}

-- `text.lower() in NAMES`, and which of them it is
find_name : List Dll → Text → Option Dll
find_name [] name = none
find_name (d ∷ ds) name =
    let rest = find_name ds name in if text_eq (spelled d) (lower name) then some d else rest

abbrev push : ℕ → Option Text → Option Text
push c none = none
push c (some cs) = some (c ∷ cs)

-- The characters up to the first `"`, which must be followed by `=`; a backslash ends the match.
quoted : Text → Option Text
quoted [] = none
quoted (c ∷ cs) =
    let longer = push c (quoted cs) in
    if c == b'"'
    then (if starts_with (codes "=") cs then some [] else none)
    else if c == 92
    then none
    else longer

abbrev nonempty : Option Text → Option Text
nonempty none = none
nonempty (some []) = none
nonempty (some (c ∷ cs)) = some (c ∷ cs)

-- `re.match(r'^"([^"\\]+)"=', line)`
value_name : Line → Option Text
unfolding quoted
value_name [] = none
value_name (c ∷ cs) = if c == b'"' then nonempty (quoted cs) else none

-- The name whose override the line is.
unfoldable pub managed : Line → Option Dll
unfolding find_name value_name
managed line = elim (value_name line) [ none ↦ none | some name ↦ find_name names name ]

-- The characters up to the first `]`
bracketed : Text → Option Text
bracketed [] = none
bracketed (c ∷ cs) = let longer = push c (bracketed cs) in if c == 93 then some [] else longer

-- `re.match(r'^\[([^]]+)\]', line)`
unfoldable pub section : Line → Option Text
unfolding bracketed
section [] = none
section (c ∷ cs) = if c == 91 then nonempty (bracketed cs) else none

-- SECTION, in the registry's spelling with doubled backslashes
abbrev pub section_text : Text
section_text = codes "Software" ++ 92 ∷ 92 ∷ codes "Wine" ++ 92 ∷ 92 ∷ codes "DllOverrides"

unfoldable pub is_overrides : Text → Bool
is_overrides name = text_eq (lower name) (lower section_text)

pub data RegistryError : Type 0 where
  duplicate_override : Dll → RegistryError

pub data Parsed : Type 0 where
  values : Overrides → Parsed
  failed : RegistryError → Parsed

-- The loop of `registry_values`.
unfoldable pub values_from : (active : Bool) → Overrides → List Line → Parsed
values_from active o [] = values o
values_from active o (line ∷ lines) = elim (section line) [
  | some name ↦ values_from (is_overrides name) o lines
  | none ↦ elim active [
    | false ↦ values_from false o lines
    | true ↦ elim (managed line) [
      | none ↦ values_from true o lines
      | some name ↦ elim (get name o) [
        | some _ ↦ failed (duplicate_override name)
        | none ↦ values_from true (set name line o) lines
      ]
    ]
  ]
]

unfoldable pub registry_values : Text → Parsed
registry_values text = values_from false no_overrides (split_lines text)

-- `re.match(r'^\[' + re.escape(SECTION) + r'\]', line, re.I)`
unfoldable pub is_header : Line → Bool
is_header line = starts_with (lower (91 ∷ section_text ++ 93 ∷ [])) (lower line)

-- The lines before the first header, the header, and the lines after it.
unfoldable pub find_section : List Line → Option (List Line × Line × List Line)
find_section [] = none
find_section (line ∷ lines) =
    let later = find_section lines in
    if is_header line
    then some ([], line, lines)
    else elim later [ none ↦ none | some (pre, header, rest) ↦ some (line ∷ pre, header, rest) ]

abbrev pub opens : Line → Bool
opens line = starts_with (91 ∷ []) line

-- The lines up to the next that starts with `[`, and those from it on.
unfoldable pub body : List Line → List Line
body [] = []
body (line ∷ lines) = let rest = body lines in if opens line then [] else line ∷ rest

unfoldable pub after_body : List Line → List Line
after_body [] = []
after_body (line ∷ lines) = let rest = after_body lines in if opens line then line ∷ lines else rest

-- The lines of the section that are kept.
unfoldable pub unmanaged : List Line → List Line
unmanaged [] = []
unmanaged (line ∷ lines) =
    let rest = unmanaged lines in if is_none (managed line) then line ∷ rest else rest

-- `v` if it is not None and not empty
abbrev pub truthy : Option Line → List Line
truthy none = []
truthy (some []) = []
truthy (some (c ∷ cs)) = (c ∷ cs) ∷ []

-- `[v for v in values.values() if v]`
abbrev pub value_lines : Overrides → List Line
value_lines o =
    truthy o.d3d8_line
    ++ (truthy o.d3d9_line
        ++ (truthy o.d3d10core_line ++ (truthy o.d3d11_line ++ truthy o.dxgi_line)))

-- `text.rstrip('\n')`
unfoldable pub rstrip_newlines : Text → Text
rstrip_newlines [] = []
rstrip_newlines (c ∷ cs) = elim (rstrip_newlines cs) [
  | [] ↦ if c == 10 then [] else c ∷ []
  | d ∷ ds ↦ c ∷ d ∷ ds
]

abbrev pub newline : Line
newline = 10 ∷ []

-- `'[' + SECTION + ']\n'`
abbrev pub new_header : Line
new_header = 91 ∷ section_text ++ 93 ∷ newline

append_section : Text → List Line → Text
append_section text [] = text
append_section text (v ∷ vs) =
    rstrip_newlines text ++ (newline ++ (newline ++ (new_header ++ (join (v ∷ vs) ++ newline))))

unfoldable pub edit_registry : Text → Overrides → Text
unfolding append_section
edit_registry text o = elim (find_section (split_lines text)) [
  | none ↦ append_section text (value_lines o)
  | some (pre, header, rest) ↦
      join (pre ++ header ∷ (unmanaged (body rest) ++ (value_lines o ++ after_body rest)))
]

-- `'"{name}"="native"\n'`
abbrev pub native_line : Dll → Line
native_line name = b'"' ∷ spelled name ++ codes "\"=\"native\"" ++ newline

abbrev pub installed_values : Overrides
installed_values = record {
  d3d8_line = some (native_line d3d8);
  d3d9_line = some (native_line d3d9);
  d3d10core_line = some (native_line d3d10core);
  d3d11_line = some (native_line d3d11);
  dxgi_line = some (native_line dxgi);
}
