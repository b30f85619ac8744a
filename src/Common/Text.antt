-- ===== src/Common/Text.antt =====
-- Text as a list of code points: substring tests, ASCII upper case, prefixes.
use Prim.Native.Char.{code}
use Prim.Native.String.{String}
use winecx_gptk.Common.{
  ℕ, ◌+◌, ◌-◌, Bool, true, false, ◌&&◌, ◌||◌, List, [], ◌∷◌, map, ◌==◌, leb, if◌then◌else◌, ◌≡◌,
  refl, arith,
}

abbrev pub Text : Type 0
Text = List ℕ

abbrev pub codes : String → Text
codes String.[] = []
codes (String.◌∷◌ c s) = code c ∷ codes s

-- `text.startswith(prefix)`
abbrev pub starts_with : Text → Text → Bool
starts_with [] text = true
starts_with (p ∷ ps) [] = false
starts_with (p ∷ ps) (c ∷ cs) = p == c && starts_with ps cs

-- `needle in text`
abbrev pub contains : Text → Text → Bool
contains needle [] = starts_with needle []
contains needle (c ∷ cs) = starts_with needle (c ∷ cs) || contains needle cs

-- `text.upper()` on ASCII letters; other code points stay as they are
upper_char : ℕ → ℕ
upper_char c = if leb b'a' c && leb c b'z' then c - 32 else c

unfoldable pub upper : Text → Text
unfolding upper_char
upper = map upper_char

-- Every member of the first list that the tests ask for: `any(word in text for word in words)`.
unfoldable pub any_in : List Text → Text → Bool
any_in [] text = false
any_in (w ∷ ws) text = contains w text || any_in ws text

-- `a == b`
abbrev pub text_eq : Text → Text → Bool
text_eq [] [] = true
text_eq [] (_ ∷ _) = false
text_eq (_ ∷ _) [] = false
text_eq (a ∷ as') (b ∷ bs) = a == b && text_eq as' bs

unfoldable pub lower_char : ℕ → ℕ
lower_char c = if leb b'A' c && leb c b'Z' then c + 32 else c

-- `text.lower()` on ASCII letters
unfoldable pub lower : Text → Text
unfolding lower_char
lower = map lower_char

pub text_eq_refl : (t : Text) → text_eq t t ≡ true
text_eq_refl [] = refl
text_eq_refl (c ∷ cs) = ground (arith, text_eq_refl cs)

pub text_eq_sound : (t u : Text) → text_eq t u ≡ true → t ≡ u
text_eq_sound [] [] h = refl
text_eq_sound [] (d ∷ ds) h = absurd cc
text_eq_sound (c ∷ cs) [] h = absurd cc
text_eq_sound (c ∷ cs) (d ∷ ds) h = let ih = text_eq_sound cs ds in ground arith

pub text_eq_sym : (t u : Text) → text_eq t u ≡ text_eq u t
text_eq_sym [] [] = refl
text_eq_sym [] (d ∷ ds) = refl
text_eq_sym (c ∷ cs) [] = refl
text_eq_sym (c ∷ cs) (d ∷ ds) = let ih = text_eq_sym cs ds in ground arith
