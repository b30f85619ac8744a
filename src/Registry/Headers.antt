-- ===== src/Registry/Headers.antt =====
-- The two spellings of one test agree: `edit_registry` finds its section by a prefix of the line,
-- `registry_values` by the text between the brackets.
use winecx_gptk.Common.{
  ℕ, Bool, false, ◌&&◌, ◌≡◌, refl, Option, none, some, [], ◌∷◌, ◌++◌, ◌==◌, AllOf, arith, ap, sym,
  ◌∙◌,
}
use winecx_gptk.Common.Text.{Text, starts_with, text_eq, lower, lower_char}
use winecx_gptk.Registry.{
  bracketed, nonempty, section, section_text, is_overrides, is_header, opens,
}
use winecx_gptk.Registry.Lines.{Line}

abbrev NoBracket : Text → Type 0
NoBracket = AllOf (λ c. (c == 93) ≡ false)

abbrev name_is : Text → Option Text → Bool
name_is t none = false
name_is t (some name) = text_eq (lower name) t

name_is-bracketed :
    (t cs : Text) → NoBracket t → name_is t (bracketed cs) ≡ starts_with (t ++ 93 ∷ []) (lower cs)
unfolding bracketed lower
name_is-bracketed [] [] h = refl
name_is-bracketed (x ∷ t) [] h = refl
name_is-bracketed [] (c ∷ cs) h = ground (arith)
name_is-bracketed (x ∷ t) (c ∷ cs) h = ground (arith, name_is-bracketed t cs h.1)

-- What `registry_values` makes of a section line.
abbrev pub activates : Option Text → Bool
activates none = false
activates (some name) = is_overrides name

name_is-nonempty :
    (t : Text) (c : ℕ) (o : Option Text) → name_is (c ∷ t) (nonempty o) ≡ name_is (c ∷ t) o
unfolding lower
name_is-nonempty t c none = refl
name_is-nonempty t c (some []) = refl
name_is-nonempty t c (some (d ∷ ds)) = refl

activates-eq-name_is : (o : Option Text) → activates o ≡ name_is (lower section_text) o
unfolding is_overrides
activates-eq-name_is none = refl
activates-eq-name_is (some name) = refl

section_text-NoBracket : NoBracket (lower section_text)
unfolding lower
section_text-NoBracket = ground arith

open_same : (c : ℕ) (b : Bool) → (91 == lower_char c && b) ≡ ((c == 91) && b)
unfolding lower_char
open_same c b = ground arith

pub is_header-cons :
    (c : ℕ) (cs : Text)
    → is_header (c ∷ cs) ≡ ((c == 91) && starts_with (lower section_text ++ 93 ∷ []) (lower cs))
unfolding is_header lower
is_header-cons c cs = open_same c (starts_with (lower section_text ++ 93 ∷ []) (lower cs))

named :
    (cs : Text)
    → activates (nonempty (bracketed cs)) ≡ starts_with (lower section_text ++ 93 ∷ []) (lower cs)
named cs =
    activates-eq-name_is (nonempty (bracketed cs))
    ∙ unfold lower in
      name_is-nonempty _ _ (bracketed cs)
      ∙ name_is-bracketed (lower section_text) cs section_text-NoBracket

section-cons :
    (c : ℕ) (cs : Text)
    → activates (section (c ∷ cs)) ≡ ((c == 91) && activates (nonempty (bracketed cs)))
unfolding section
section-cons c cs = ground arith

-- A line is a header for `edit_registry` exactly when it activates `registry_values`.
pub is_header-section : (line : Line) → is_header line ≡ activates (section line)
is_header-section [] = unfold is_header section lower in refl
is_header-section (c ∷ cs) =
    is_header-cons c cs ∙ ap (λ b. (c == 91) && b) (sym (named cs)) ∙ sym (section-cons c cs)

-- A line that does not start with `[` is no section.
pub section-none : (line : Line) → opens line ≡ false → section line ≡ none
unfolding section
section-none [] h = refl
section-none (c ∷ cs) h = ground arith
