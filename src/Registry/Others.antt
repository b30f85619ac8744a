-- ===== src/Registry/Others.antt =====
-- What edit_registry of runtime/kosmickrisp/dxvk-prefix.py leaves as it was: the lines of a file that
-- are no override lines.
use winecx_gptk.Common.{
  Bool, not, ◌&&◌, if◌then◌else◌, true, false, ◌≡◌, refl, sym, ap, ◌∙◌, List, [], ◌∷◌, ◌++◌, AllOf,
  arith, is_none, Bool-cases, inl, inr,
}
use winecx_gptk.Common.Text.{lower}
use winecx_gptk.Registry.{is_header, opens, body, after_body, unmanaged, managed}
use winecx_gptk.Registry.Headers.{is_header-cons}
use winecx_gptk.Registry.Lines.{Line}
use winecx_gptk.Registry.Scan.{NoHeader}

-- A line that overrides a name: it starts with a quotation mark.
abbrev pub IsOverride : Line → Type 0
IsOverride line = (is_none (managed line) ≡ false) × (opens line ≡ false)

-- The lines of a file less the override lines of its sections of overrides.
pub others : (active : Bool) → List Line → List Line
others active [] = []
others active (line ∷ lines) =
    let after = others (is_header line) lines in
    let later = others active lines in
    if opens line
    then line ∷ after
    else if active && not (is_none (managed line))
    then later
    else line ∷ later

is_header-opens : (line : Line) → is_header line ≡ true → opens line ≡ true
is_header-opens [] h = absurd (unfold is_header lower in ground arith)
is_header-opens (c ∷ cs) h = let e = is_header-cons c cs in ground arith

-- Before the header every line stays.
others-append :
    (pre : List Line) (header : Line) (rest : List Line)
    → NoHeader pre
    → is_header header ≡ true
    → others false (pre ++ header ∷ rest) ≡ pre ++ header ∷ others true rest
unfolding others
others-append [] header rest h e = let o = is_header-opens header e in rw (o, e) refl
others-append (p ∷ ps) header rest h e =
    let ih = others-append ps header rest h.1 e in
    elim (Bool-cases (opens p)) [
      | inl o ↦ rw (o, h.0) (ap (λ (t : List Line). p ∷ t) ih)
      | inr o ↦ rw o (ap (λ (t : List Line). p ∷ t) ih)
    ]

others-NoHeader : (lines : List Line) → NoHeader lines → others false lines ≡ lines
unfolding others
others-NoHeader [] h = refl
others-NoHeader (l ∷ ls) h =
    let ih = others-NoHeader ls h.1 in
    elim (Bool-cases (opens l)) [
      | inl o ↦ rw (o, h.0) (ap (λ (t : List Line). l ∷ t) ih)
      | inr o ↦ rw o (ap (λ (t : List Line). l ∷ t) ih)
    ]

-- In the section the override lines fall out.
others-section :
    (lines : List Line)
    → NoHeader lines
    → others true lines ≡ unmanaged (body lines) ++ after_body lines
unfolding others unmanaged body after_body
others-section [] h = refl
others-section (l ∷ ls) h =
    let ih = others-section ls h.1 in
    let plain = others-NoHeader ls h.1 in
    elim (Bool-cases (opens l)) [
      | inl o ↦ rw (o, h.0) (ap (λ (t : List Line). l ∷ t) plain)
      | inr o ↦ elim (Bool-cases (is_none (managed l))) [
        | inl m ↦ rw (o, m) (ap (λ (t : List Line). l ∷ t) ih)
        | inr m ↦ rw (o, m) ih
      ]
    ]

others-values :
    (vals later : List Line)
    → AllOf IsOverride vals
    → others true (vals ++ later) ≡ others true later
unfolding others
others-values [] later h = refl
others-values (v ∷ vs) later h = rw (h.0.1, h.0.0) (others-values vs later h.1)

others-kept :
    (lines more : List Line)
    → others true (unmanaged (body lines) ++ more) ≡ unmanaged (body lines) ++ others true more
unfolding others unmanaged body
others-kept [] more = refl
others-kept (l ∷ ls) more =
    let ih = others-kept ls more in
    elim (Bool-cases (opens l)) [
      | inl o ↦ rw o refl
      | inr o ↦ elim (Bool-cases (is_none (managed l))) [
        | inl m ↦ rw (o, m) (rw (o, m) (ap (λ (t : List Line). l ∷ t) ih))
        | inr m ↦ rw (o, m) ih
      ]
    ]

others-after :
    (lines : List Line) → NoHeader lines → others true (after_body lines) ≡ after_body lines
unfolding others after_body
others-after [] h = refl
others-after (l ∷ ls) h =
    let plain = others-NoHeader ls h.1 in
    elim (Bool-cases (opens l)) [
      | inl o ↦ rw (o, h.0) (rw o (ap (λ (t : List Line). l ∷ t) plain))
      | inr o ↦ rw o (others-after ls h.1)
    ]

-- What a file has besides its override lines, from the parts of it that an edit keeps.
pub others-parts :
    (pre : List Line) (header : Line) (rest vals : List Line)
    → NoHeader pre
    → is_header header ≡ true
    → NoHeader rest
    → AllOf IsOverride vals
    → others false (pre ++ header ∷ (unmanaged (body rest) ++ (vals ++ after_body rest)))
      ≡ others false (pre ++ header ∷ rest)
others-parts pre header rest vals n e r o =
    let tail = unmanaged (body rest) ++ (vals ++ after_body rest) in
    let same : others true tail ≡ others true rest =
      others-kept rest (vals ++ after_body rest)
      ∙ ap (λ (t : List Line). unmanaged (body rest) ++ t)
          (others-values vals (after_body rest) o ∙ others-after rest r)
      ∙ sym (others-section rest r) in
    others-append pre header tail n e
    ∙ ap (λ (t : List Line). pre ++ header ∷ t) same
    ∙ sym (others-append pre header rest n e)
