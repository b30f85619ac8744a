-- ===== src/Registry/Lines.antt =====
-- `str.splitlines(keepends=True)` on texts without carriage returns, and its inverse.
use mathlib.Core.List.{append_assoc}
use winecx_gptk.Common.{
  ℕ, Bool, true, false, ◌&&◌, ◌||◌, ◌≡◌, refl, List, [], ◌∷◌, ◌++◌, ◌==◌, leb, AllOf, arith,
  if◌then◌else◌, Bool-cases, inl, inr,
}
use winecx_gptk.Common.Text.{Text}

abbrev pub Line : Type 0
Line = Text

-- The characters at which `splitlines` cuts: \n \v \f, the separators 1c to 1e, 85, 2028, 2029.
unfoldable pub is_break : ℕ → Bool
is_break c =
    (leb 10 c && leb c 12) || ((leb 28 c && leb c 30) || (c == 133 || (leb 8232 c && leb c 8233)))

abbrev emit : Line → List Line
emit [] = []
emit (c ∷ cs) = (c ∷ cs) ∷ []

-- With the line that is being read.
lines_from : Line → Text → List Line
lines_from read [] = emit read
lines_from read (c ∷ cs) =
    let cut = (read ++ c ∷ []) ∷ lines_from [] cs in
    let more = lines_from (read ++ c ∷ []) cs in if is_break c then cut else more

unfoldable pub split_lines : Text → List Line
unfolding lines_from is_break
split_lines = lines_from []

-- `''.join(lines)`
unfoldable pub join : List Line → Text
join [] = []
join (l ∷ ls) = l ++ join ls

-- No break among these characters.
abbrev Plain : Text → Type 0
Plain = AllOf (λ c. is_break c ≡ false)

-- A line that ends with its only break.
abbrev pub IsComplete : Line → Type 0
IsComplete [] = ⊥
IsComplete (c ∷ []) = is_break c ≡ true
IsComplete (c ∷ d ∷ ds) = (is_break c ≡ false) × IsComplete (d ∷ ds)

abbrev pub AllComplete : List Line → Type 0
AllComplete = AllOf IsComplete

lines_from-append :
    (read line rest : Text)
    → IsComplete line
    → lines_from read (line ++ rest) ≡ (read ++ line) ∷ lines_from [] rest
unfolding lines_from
lines_from-append read [] rest h = absurd h
lines_from-append read (c ∷ []) rest h = rw h
lines_from-append read (c ∷ d ∷ ds) rest h = rw h.0 (
    rw (lines_from-append (read ++ c ∷ []) (d ∷ ds) rest h.1)
      (rw (append_assoc read (c ∷ []) (d ∷ ds))))

-- Complete lines, joined and split again, come back as they were.
pub split_lines-append :
    (ls : List Line) (rest : Text)
    → AllComplete ls
    → split_lines (join ls ++ rest) ≡ ls ++ split_lines rest
unfolding split_lines join
split_lines-append [] rest h = refl
split_lines-append (l ∷ ls) rest h =
    rw (append_assoc l (join ls) rest)
      (rw (lines_from-append [] l (join ls ++ rest) h.0) (rw (split_lines-append ls rest h.1)))

-- Splitting loses nothing.
join-lines_from : (read text : Text) → join (lines_from read text) ≡ read ++ text
unfolding lines_from join
join-lines_from [] [] = refl
join-lines_from (r ∷ rs) [] = refl
join-lines_from read (c ∷ cs) = elim (Bool-cases (is_break c)) [
  | inl cut ↦ rw cut (rw (join-lines_from [] cs) (append_assoc read (c ∷ []) cs))
  | inr more ↦ rw more (rw (join-lines_from (read ++ c ∷ []) cs) (append_assoc read (c ∷ []) cs))
]

pub join-split_lines : (text : Text) → join (split_lines text) ≡ text
unfolding split_lines
join-split_lines text = join-lines_from [] text

lines_from-newline :
    (read text rest : Text)
    → lines_from read (text ++ 10 ∷ rest) ≡ lines_from read (text ++ 10 ∷ []) ++ lines_from [] rest
unfolding lines_from is_break
lines_from-newline read [] rest = refl
lines_from-newline read (c ∷ cs) rest =
    ground (arith, lines_from-newline [] cs rest, lines_from-newline (read ++ c ∷ []) cs rest)

-- A newline ends a line whatever follows it.
pub split_lines-newline :
    (text rest : Text)
    → split_lines (text ++ 10 ∷ rest) ≡ split_lines (text ++ 10 ∷ []) ++ split_lines rest
unfolding split_lines
split_lines-newline text rest = lines_from-newline [] text rest
