-- ===== src/Investigate/Tailing.antt =====
-- Progress of runtime/kosmickrisp/investigate.py: how the guard follows present.csv and compile.csv
-- while the game appends to them. A file is its text; the place in it counts characters.
pub mod Growth
pub mod Pieces
use winecx_gptk.Common.{
  ℕ, suc, zero, ◌+◌, ◌-◌, ◌*◌, ◌^◌, Bool, true, false, not, ◌&&◌, ◌||◌, Option, none, some, List,
  [], ◌∷◌, ◌++◌, ◌==◌, leb, ltb, length, all, max, is_some, is_none, sub_ge, if◌then◌else◌,
}
use winecx_gptk.Common.Text.{Text}

-- What is known of one file: where to read on, the last stamp, and the first.
pub record Tail : Type 0 where
  pub offset : ℕ
  pub last : ℕ
  pub first : Option ℕ

pub record Progress : Type 0 where
  pub start_ns : ℕ
  pub present : Tail
  pub compile : Tail

unfoldable pub init : ℕ → Progress
init start_ns = record {
  start_ns = start_ns;
  present = record { offset = 0; last = start_ns; first = none };
  compile = record { offset = 0; last = start_ns; first = none };
}

-- The complete lines from a place on, without their newlines, with the line that is being read.
unfoldable pub lines : Text → Text → List Text
lines read [] = []
lines read (c ∷ cs) =
    let cut = read ∷ lines [] cs in
    let more = lines (read ++ c ∷ []) cs in if c == 10 then cut else more

-- The line that has no newline yet.
unfoldable pub partial : Text → Text → Text
partial read [] = read
partial read (c ∷ cs) =
    let cut = partial [] cs in
    let more = partial (read ++ c ∷ []) cs in if c == 10 then cut else more

unfoldable pub drop : ℕ → Text → Text
drop zero text = text
drop (suc n) [] = []
drop (suc n) (c ∷ cs) = drop n cs

-- `line.strip()` and `split(',')`, a field at a time
abbrev is_blank : ℕ → Bool
is_blank c = c == 32 || ((leb 9 c && leb c 13) || (leb 28 c && leb c 31))

strip_left : Text → Text
strip_left [] = []
strip_left (c ∷ cs) = let rest = strip_left cs in if is_blank c then rest else c ∷ cs

strip_right : Text → Text
strip_right [] = []
strip_right (c ∷ cs) = elim (strip_right cs) [
  | [] ↦ if is_blank c then [] else c ∷ []
  | d ∷ ds ↦ c ∷ d ∷ ds
]

fields : Text → Text → List Text
fields read [] = read ∷ []
fields read (c ∷ cs) =
    let cut = read ∷ fields [] cs in
    let more = fields (read ++ c ∷ []) cs in if c == b',' then cut else more

abbrev nth : ℕ → List Text → Option Text
nth n [] = none
nth zero (f ∷ fs) = some f
nth (suc n) (f ∷ fs) = nth n fs

abbrev is_digit : ℕ → Bool
is_digit c = leb b'0' c && leb c b'9'

number : ℕ → Text → ℕ
number read [] = read
number read (c ∷ cs) = number (read * 10 + (c - b'0')) cs

-- `int(row[column])`, if the row has that column and it is digits
abbrev to_number : Option Text → Option ℕ
to_number none = none
to_number (some []) = none
to_number (some (c ∷ cs)) = if all is_digit (c ∷ cs) then some (number 0 (c ∷ cs)) else none

unfoldable pub stamp : (column : ℕ) → Text → Option ℕ
unfolding strip_left strip_right fields number
stamp column line = to_number (nth column (fields [] (strip_right (strip_left line))))

abbrev is_later : ℕ → Option ℕ → Bool
is_later value none = false
is_later value (some now) = ltb now value

abbrev or_first : Bool → ℕ → Option ℕ → Option ℕ
or_first false value first = first
or_first true value none = some value
or_first true value (some first) = some first

-- One line; `keeps_first` for present.csv.
abbrev note : (start_ns : ℕ) → (now_ns : Option ℕ) → (keeps_first : Bool) → Option ℕ → Tail → Tail
note start_ns now_ns keeps_first none t = t
note start_ns now_ns keeps_first (some value) t =
    if ltb value start_ns || is_later value now_ns then t else record {
      offset = t.offset;
      last = max t.last value;
      first = or_first keeps_first value t.first;
    }

unfoldable pub note_lines :
    (start_ns : ℕ)
    → (now_ns : Option ℕ) → (keeps_first : Bool) → (column : ℕ) → List Text
    → Tail
    → Tail
note_lines start_ns now_ns keeps_first column [] t = t
note_lines start_ns now_ns keeps_first column (l ∷ ls) t =
    note_lines start_ns now_ns keeps_first column ls
      (note start_ns now_ns keeps_first (stamp column l) t)

abbrev pub at_offset : ℕ → Tail → Tail
at_offset offset t = record { offset = offset; last = t.last; first = t.first }

-- A file that has become shorter is read from its start.
unfoldable pub read_file :
    (start_ns : ℕ) → (now_ns : Option ℕ) → (keeps_first : Bool) → (column : ℕ) → Text → Tail → Tail
unfolding lines partial drop note_lines
read_file start_ns now_ns keeps_first column text t =
    let offset = if ltb (length text) t.offset then 0 else t.offset in
    let rest = drop offset text in
    at_offset (offset + (length rest - length (partial [] rest)))
      (note_lines start_ns now_ns keeps_first column (lines [] rest) t)

abbrev read_if_there :
    (start_ns : ℕ)
    → (now_ns : Option ℕ) → (keeps_first : Bool) → (column : ℕ) → Option Text
    → Tail
    → Tail
read_if_there start_ns now_ns keeps_first column none t = t
read_if_there start_ns now_ns keeps_first column (some text) t =
    read_file start_ns now_ns keeps_first column text t

unfoldable pub update :
    (present_csv compile_csv : Option Text) → (now_ns : Option ℕ) → Progress → Progress
unfolding read_file
update present_csv compile_csv now_ns p = record {
  start_ns = p.start_ns;
  present = read_if_there p.start_ns now_ns true 0 present_csv p.present;
  compile = read_if_there p.start_ns now_ns false 3 compile_csv p.compile;
}

unfoldable pub stalled : ℕ → Progress → Bool
stalled now_ns p = sub_ge now_ns (max p.present.last p.compile.last) (45 * 10 ^ 9)
