-- ===== src/Investigate/Tailing/Pieces.antt =====
-- `Progress.update` of runtime/kosmickrisp/investigate.py on files that grow between two calls.
use winecx_gptk.Common.{
  ℕ, ◌+◌, ◌-◌, ◌≤◌, Bool, true, false, ◌≡◌, refl, sym, ap, ◌∙◌, Option, some, List, [], ◌++◌, ltb,
  length, length-append, arith,
}
use winecx_gptk.Common.Text.{Text}
use winecx_gptk.Investigate.Tailing.{
  Tail, Progress, lines, partial, drop, note_lines, at_offset, read_file, update,
}
use winecx_gptk.Investigate.Tailing.Growth.{
  lines-append, partial-append, Unbroken-partial, lines-Unbroken, partial-Unbroken, drop-append,
  drop-drop, length-drop, partial-bound, drop-partial, note_lines-append, note_lines-at_offset,
}

not_shorter : (n m : ℕ) → n ≤ m → ltb m n ≡ false
not_shorter n m h = ground arith

module _ (start : ℕ) (now : Option ℕ) (keeps : Bool) (column : ℕ) where
  -- The place after the complete lines from `o` on.
  abbrev next_place : ℕ → Text → ℕ
  next_place o rest = o + (length rest - length (partial [] rest))

  read_on : Text → Tail → Tail
  read_on rest t =
      at_offset (next_place t.offset rest) (note_lines start now keeps column (lines [] rest) t)

  read_file-read_on :
      (text : Text) (t : Tail)
      → t.offset ≤ length text
      → read_file start now keeps column text t ≡ read_on (drop t.offset text) t
  unfolding read_file read_on
  read_file-read_on text t h = rw (not_shorter t.offset (length text) h) refl

  -- After the first reading the file goes on with the line that was not complete.
  left_over :
      (o : ℕ) (text more : Text)
      → o ≤ length text
      → drop (next_place o (drop o text)) (text ++ more) ≡ partial [] (drop o text) ++ more
  left_over o text more h =
      let rest = drop o text in
      let size = length-drop o text in
      let bound = partial-bound [] rest in
      drop-append (next_place o rest) text more (omega (arith, size, bound, h))
      ∙ ap (λ (x : Text). x ++ more)
          (drop-drop o (length rest - length (partial [] rest)) (next_place o rest) text refl
            ∙ drop-partial [] rest (length rest - length (partial [] rest)) (omega (arith, bound)))

  -- The place and the lines of a second reading, together with those of the first.
  read_on-twice :
      (rest more : Text) (t : Tail)
      → read_on (partial [] rest ++ more) (read_on rest t) ≡ read_on (rest ++ more) t
  unfolding read_on
  read_on-twice rest more t =
      let q = partial [] rest in
      let whole = Unbroken-partial [] rest tt in
      let o1 = next_place t.offset rest in
      let t1 = note_lines start now keeps column (lines [] rest) t in
      let again = partial-Unbroken [] q more whole in
      let at_once = partial-append [] rest more in
      let places : next_place o1 (q ++ more) ≡ next_place t.offset (rest ++ more) = omega (
        arith,
        ap (length {A = ℕ}) again,
        ap (length {A = ℕ}) at_once,
        length-append q more,
        length-append rest more,
        partial-bound q more,
        partial-bound [] rest,
      ) in
      let place = next_place o1 (q ++ more) in
      ap (at_offset place)
        (note_lines-at_offset start now keeps column (lines [] (q ++ more)) o1 t1)
      ∙ ap (λ (ls : List Text). at_offset place (note_lines start now keeps column ls t1))
          (lines-Unbroken [] q more whole)
      ∙ ap (at_offset place)
          (sym (note_lines-append start now keeps column (lines [] rest) (lines q more) t))
      ∙ ap (λ (ls : List Text). at_offset place (note_lines start now keeps column ls t))
          (sym (lines-append [] rest more))
      ∙ ap (λ (k : ℕ). at_offset k (note_lines start now keeps column (lines [] (rest ++ more)) t))
          places

  offset-read_on : (rest : Text) (t : Tail) → (read_on rest t).offset ≡ next_place t.offset rest
  unfolding read_on
  offset-read_on rest t = refl

  read_file-twice :
      (text more : Text) (t : Tail)
      → t.offset ≤ length text
      → read_file start now keeps column (text ++ more) (read_file start now keeps column text t)
        ≡ read_file start now keeps column (text ++ more) t
  read_file-twice text more t h =
      let rest = drop t.offset text in
      let size = length-drop t.offset text in
      let bound = partial-bound [] rest in
      let both = length-append text more in
      let t' = read_on rest t in
      let place = offset-read_on rest t in
      ap (read_file start now keeps column (text ++ more)) (read_file-read_on text t h)
      ∙ read_file-read_on (text ++ more) t' (omega (arith, place, size, bound, both, h))
      ∙ ap (λ (k : ℕ). read_on (drop k (text ++ more)) t') place
      ∙ ap (λ (x : Text). read_on x t') (left_over t.offset text more h)
      ∙ read_on-twice rest more t
      ∙ ap (λ (x : Text). read_on x t) (sym (drop-append t.offset text more h))
      ∙ sym (read_file-read_on (text ++ more) t (omega (arith, both, h)))

-- Where both files have only grown since the last reading, two readings at the same limit on the
-- stamps, one before and one after the files grew, leave what a single reading of the grown files
-- leaves, wherever the first one cut a line.
pub update-twice :
    (now : Option ℕ) (present compile more_present more_compile : Text) (p : Progress)
    → p.present.offset ≤ length present
    → p.compile.offset ≤ length compile
    → update
        (some (present ++ more_present))
        (some (compile ++ more_compile))
        now
        (update (some present) (some compile) now p)
      ≡ update (some (present ++ more_present)) (some (compile ++ more_compile)) now p
unfolding update
update-twice now present compile more_present more_compile p h k =
    let a = read_file-twice p.start_ns now true 0 present more_present p.present h in
    let b = read_file-twice p.start_ns now false 3 compile more_compile p.compile k in
    λ i. record { start_ns = p.start_ns; present = a i; compile = b i }
