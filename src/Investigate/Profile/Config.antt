-- ===== src/Investigate/Profile/Config.antt =====
-- The settings that `prepare` of runtime/kosmickrisp/investigate.py sets in PCCONFIG.TXT, by
-- `re.subn(r'(?m)^(KEY[ \t]+)[^\r\n]+', …)`, on a text whose lines end with a newline alone.
use winecx_gptk.Common.{
  ℕ, suc, Bool, ◌||◌, Option, none, some, List, [], ◌∷◌, ◌++◌, ◌==◌, if◌then◌else◌,
}
use winecx_gptk.Common.Text.{Text, codes}

abbrev is_tab_or_space : ℕ → Bool
is_tab_or_space c = c == 32 || c == 9

-- `[ \t]+` of a rest with at least one more character: the blanks, but not the last character.
unfoldable pub blanks : Text → Text
blanks [] = []
blanks (c ∷ []) = []
blanks (c ∷ d ∷ cs) = let more = c ∷ blanks (d ∷ cs) in if is_tab_or_space c then more else []

-- What stands after the prefix, if the text starts with it.
unfoldable pub strip_prefix : Text → Text → Option Text
strip_prefix [] t = some t
strip_prefix (p ∷ ps) [] = none
strip_prefix (p ∷ ps) (c ∷ cs) = let rest = strip_prefix ps cs in if p == c then rest else none

-- The line with a new value, if it sets the key.
unfoldable pub set_line : Text → Text → Text → Option Text
unfolding blanks strip_prefix
set_line key value line = elim (strip_prefix key line) [
  | none ↦ none
  | some rest ↦ elim (blanks rest) [ [] ↦ none | b ∷ bs ↦ some (key ++ ((b ∷ bs) ++ value)) ]
]

abbrev pub or_line : Option Text → Text → Text
or_line none line = line
or_line (some new) line = new

abbrev count_line : Option Text → ℕ → ℕ
count_line none n = n
count_line (some _) n = suc n

-- The lines with their new values, and the number of lines that were set.
unfoldable pub set_lines : Text → Text → List Text → List Text × ℕ
unfolding set_line
set_lines key value [] = ([], 0)
set_lines key value (line ∷ lines) =
    let rest = set_lines key value lines in
    let new = set_line key value line in (or_line new line ∷ rest.0, count_line new rest.1)

-- The text between newlines.
unfoldable pub split : Text → Text → List Text
split read [] = read ∷ []
split read (c ∷ cs) =
    let cut = read ∷ split [] cs in
    let more = split (read ++ (c ∷ [])) cs in if c == 10 then cut else more

unfoldable pub join : List Text → Text
join [] = []
join (line ∷ []) = line
join (line ∷ next ∷ lines) = line ++ (10 ∷ join (next ∷ lines))

-- `none` where a key is not set exactly once.
unfoldable pub set_all : List (Text × Text) → List Text → Option (List Text)
unfolding set_lines
set_all [] lines = some lines
set_all ((key, value) ∷ settings) lines =
    let (new, count) = set_lines key value lines in
    let rest = set_all settings new in if count == 1 then rest else none

abbrev pub settings : List (Text × Text)
settings =
    (codes "Windowed", codes "1")
    ∷ (codes "BorderlessWindow", codes "0")
    ∷ (codes "FullscreenWindow", codes "0")
    ∷ (codes "WindowTop", codes "0")
    ∷ []

unfoldable pub configured : Text → Option Text
unfolding set_all split join
configured text = elim (set_all settings (split [] text)) [ none ↦ none | some ls ↦ some (join ls) ]
