-- ===== src/Investigate/Tailing/Growth.antt =====
-- Progress of runtime/kosmickrisp/investigate.py reads a growing file in pieces as it would read it at
-- once.
use mathlib.Core.List.{append_assoc, append-nil}
use winecx_gptk.Common.{
  ℕ, suc, zero, ◌+◌, ◌-◌, ◌≤◌, Bool, false, ◌≡◌, refl, sym, ap, ◌∙◌, Option, none, some, List, [],
  ◌∷◌, ◌++◌, ◌==◌, length, length-append, AllOf, arith, Bool-cases, inl, inr,
}
use winecx_gptk.Common.Text.{Text}
use winecx_gptk.Investigate.Tailing.{Tail, lines, partial, drop, note, note_lines, stamp, at_offset}

pub lines-append :
    (read r more : Text) → lines read (r ++ more) ≡ lines read r ++ lines (partial read r) more
unfolding lines partial
lines-append read [] more = refl
lines-append read (c ∷ cs) more =
    let cut = lines-append [] cs more in
    let on = lines-append (read ++ c ∷ []) cs more in ground arith

pub partial-append : (read r more : Text) → partial read (r ++ more) ≡ partial (partial read r) more
unfolding partial
partial-append read [] more = refl
partial-append read (c ∷ cs) more =
    let cut = partial-append [] cs more in
    let on = partial-append (read ++ c ∷ []) cs more in ground arith

abbrev Unbroken : Text → Type 0
Unbroken = AllOf (λ c. (c == 10) ≡ false)

Unbroken-snoc :
    (read : Text) (c : ℕ) → Unbroken read → (c == 10) ≡ false → Unbroken (read ++ c ∷ [])
Unbroken-snoc [] c h e = (e, tt)
Unbroken-snoc (d ∷ ds) c h e = (h.0, Unbroken-snoc ds c h.1 e)

pub Unbroken-partial : (read r : Text) → Unbroken read → Unbroken (partial read r)
unfolding partial
Unbroken-partial read [] h = h
Unbroken-partial read (c ∷ cs) h = elim (Bool-cases (c == 10)) [
  | inl cut ↦ rw cut (Unbroken-partial [] cs tt)
  | inr on ↦ rw on (Unbroken-partial (read ++ c ∷ []) cs (Unbroken-snoc read c h on))
]

pub lines-Unbroken :
    (read q more : Text) → Unbroken q → lines read (q ++ more) ≡ lines (read ++ q) more
unfolding lines
lines-Unbroken read [] more h = ap (λ (x : Text). lines x more) (sym (append-nil read))
lines-Unbroken read (c ∷ cs) more h = rw h.0 (
    lines-Unbroken (read ++ c ∷ []) cs more h.1
    ∙ ap (λ (x : Text). lines x more) (append_assoc read (c ∷ []) cs))

pub partial-Unbroken :
    (read q more : Text) → Unbroken q → partial read (q ++ more) ≡ partial (read ++ q) more
unfolding partial
partial-Unbroken read [] more h = ap (λ (x : Text). partial x more) (sym (append-nil read))
partial-Unbroken read (c ∷ cs) more h = rw h.0 (
    partial-Unbroken (read ++ c ∷ []) cs more h.1
    ∙ ap (λ (x : Text). partial x more) (append_assoc read (c ∷ []) cs))

-- `drop` by an equation on the number, as the arithmetic sees it.
drop-next : (n m : ℕ) (c : ℕ) (cs : Text) → m ≡ n + 1 → drop m (c ∷ cs) ≡ drop n cs
unfolding drop
drop-next n zero c cs e = absurd (omega (arith, e))
drop-next n (suc m) c cs e = ap (λ k. drop k cs) (omega (arith, e))

drop_zero : (n : ℕ) (text : Text) → n ≡ 0 → drop n text ≡ text
unfolding drop
drop_zero zero text e = refl
drop_zero (suc n) text e = absurd (omega (arith, e))

drop-length : (a b : Text) (n m : ℕ) → m ≡ length a + n → drop m (a ++ b) ≡ drop n b
drop-length [] b n m e = ap (λ k. drop k b) (omega (arith, e))
drop-length (c ∷ cs) b n m e =
    drop-next (length cs + n) m c (cs ++ b) (omega (arith, e))
    ∙ drop-length cs b n (length cs + n) refl

pub drop-append :
    (n : ℕ) (text more : Text) → n ≤ length text → drop n (text ++ more) ≡ drop n text ++ more
unfolding drop
drop-append zero text more h = refl
drop-append (suc n) [] more h = absurd (omega arith)
drop-append (suc n) (c ∷ cs) more h = drop-append n cs more (omega arith)

drop-nil : (n : ℕ) → drop n [] ≡ []
unfolding drop
drop-nil zero = refl
drop-nil (suc n) = refl

pub drop-drop : (n m k : ℕ) (text : Text) → k ≡ n + m → drop k text ≡ drop m (drop n text)
unfolding drop
drop-drop zero m k text e = ap (λ x. drop x text) (omega (arith, e))
drop-drop (suc n) m k [] e = drop-nil k ∙ sym (drop-nil m)
drop-drop (suc n) m k (c ∷ cs) e =
    drop-next (n + m) k c cs (omega (arith, e)) ∙ drop-drop n m (n + m) cs refl

pub length-drop : (n : ℕ) (text : Text) → length (drop n text) ≡ length text - n
unfolding drop
length-drop zero text = omega arith
length-drop (suc n) [] = omega arith
length-drop (suc n) (c ∷ cs) = omega (arith, length-drop n cs)

-- What has no newline yet is what is left behind the complete lines.
pub partial-bound : (read r : Text) → length (partial read r) ≤ length read + length r
unfolding partial
partial-bound read [] = omega arith
partial-bound read (c ∷ cs) =
    let cut = partial-bound [] cs in
    let on = partial-bound (read ++ c ∷ []) cs in
    let one = length-append read (c ∷ []) in ground arith

pub drop-partial :
    (read r : Text) (n : ℕ)
    → n + length (partial read r) ≡ length read + length r
    → drop n (read ++ r) ≡ partial read r
unfolding partial
drop-partial read [] n h = drop_zero n (read ++ []) (omega (arith, h)) ∙ append-nil read
drop-partial read (c ∷ cs) n h = elim (Bool-cases (c == 10)) [
  | inl cut ↦
      let q = partial [] cs in
      let bound = partial-bound [] cs in
      let same : partial read (c ∷ cs) ≡ q = rw cut refl in
      let size = ap (length {A = ℕ}) same in
      rw cut (
        drop-length read (c ∷ cs) (length cs - length q + 1) n (omega (arith, h, size, bound))
        ∙ drop-next (length cs - length q) (length cs - length q + 1) c cs refl
        ∙ drop-partial [] cs (length cs - length q) (omega (arith, bound)))
  | inr on ↦
      let same : partial read (c ∷ cs) ≡ partial (read ++ c ∷ []) cs = rw on refl in
      let size = ap (length {A = ℕ}) same in
      let one = length-append read (c ∷ []) in
      rw on (
        ap (drop n) (sym (append_assoc read (c ∷ []) cs))
        ∙ drop-partial (read ++ c ∷ []) cs n (omega (arith, h, size, one)))
]

-- The lines of a pair of texts, one after the other.
pub note_lines-append :
    (start : ℕ) (now : Option ℕ) (keeps : Bool) (column : ℕ) (ls ms : List Text) (t : Tail)
    → note_lines start now keeps column (ls ++ ms) t
      ≡ note_lines start now keeps column ms (note_lines start now keeps column ls t)
unfolding note_lines
note_lines-append start now keeps column [] ms t = refl
note_lines-append start now keeps column (l ∷ ls) ms t =
    note_lines-append start now keeps column ls ms (note start now keeps (stamp column l) t)

note-at_offset :
    (start : ℕ) (now : Option ℕ) (keeps : Bool) (value : Option ℕ) (o : ℕ) (t : Tail)
    → note start now keeps value (at_offset o t) ≡ at_offset o (note start now keeps value t)
note-at_offset start now keeps none o t = refl
note-at_offset start now keeps (some value) o t = ground arith

pub note_lines-at_offset :
    (start : ℕ) (now : Option ℕ) (keeps : Bool) (column : ℕ) (ls : List Text) (o : ℕ) (t : Tail)
    → note_lines start now keeps column ls (at_offset o t)
      ≡ at_offset o (note_lines start now keeps column ls t)
unfolding note_lines
note_lines-at_offset start now keeps column [] o t = refl
note_lines-at_offset start now keeps column (l ∷ ls) o t =
    ap (note_lines start now keeps column ls) (note-at_offset start now keeps (stamp column l) o t)
    ∙ note_lines-at_offset start now keeps column ls o (note start now keeps (stamp column l) t)
