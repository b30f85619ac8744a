-- ===== src/Prefix/Recovery/Entries.antt =====
-- The entries that `install` of runtime/kosmickrisp/dxvk-prefix.py writes to its receipt: they say what
-- was there, and no two of them name one path.
use winecx_gptk.Common.{
  true, false, ◌≡◌, refl, sym, ap, ◌∙◌, Option, List, [], ◌∷◌, AllOf, any, arith,
}
use winecx_gptk.Common.Text.{Text, text_eq, text_eq_refl, text_eq_sound, text_eq_sym}
use winecx_gptk.Registry.{Dll}
use winecx_gptk.Prefix.Disk.{FilePath, Digest, Node, Identity, Arch, Entry, ok}
use winecx_gptk.Prefix.Checks.{Tree, Target, distinct, destinations, checked}
use winecx_gptk.Prefix.Status.{identity, same_targets}
use winecx_gptk.Prefix.Install.{Payload, entry_of, entries}
use winecx_gptk.Prefix.Triples.{Spec, Spec-bind, Spec-pure, Spec-gets, Spec-given, Spec-lift}
use winecx_gptk.Prefix.Recovery.{SameContent, Clean}

abbrev Apart : Entry → Entry → Type 0
Apart e e' = text_eq e.target e'.target ≡ false

apart :
    (t : Target) (e : Entry) (ts : List Target) (es : List Entry)
    → t.path ≡ e.target
    → any (λ (u : Target). text_eq t.path u.path) ts ≡ false
    → same_targets ts es ≡ true
    → AllOf (Apart e) es
unfolding same_targets
apart t e [] [] same far paths = tt
apart t e [] (e' ∷ es) same far paths = absurd cc
apart t e (u ∷ us) [] same far paths = absurd cc
apart t e (u ∷ us) (e' ∷ es) same far paths =
    let rest = apart t e us es same in
    let sound = text_eq_sound u.path e'.target in
    (
      ap (λ (x : FilePath). text_eq x e'.target) (sym same)
          ∙ ap (λ (x : FilePath). text_eq t.path x) (sym (sound (ground arith)))
          ∙ ground arith,
      rest (ground arith) (ground arith),
    )

same_far : (e : Entry) (es : List Entry) → AllOf (Apart e) es → AllOf (SameContent e) es
same_far e [] h = tt
same_far e (x ∷ xs) h = (λ on. absurd cc, same_far e xs h.1)

same_more :
    (e : Entry) (es xs : List Entry)
    → AllOf (Apart e) xs
    → AllOf (λ x. AllOf (SameContent x) es) xs
    → AllOf (λ x. AllOf (SameContent x) (e ∷ es)) xs
same_more e es [] far h = tt
same_more e es (x ∷ xs) far h =
    let turn = text_eq_sym e.target x.target in
    ((λ on. absurd cc, h.0), same_more e es xs far.1 h.1)

-- One path, one content.
pub distinct-SameContent :
    (ts : List Target) (es : List Entry)
    → distinct ts ≡ true
    → same_targets ts es ≡ true
    → AllOf (λ e. AllOf (SameContent e) es) es
unfolding distinct same_targets
distinct-SameContent [] [] d h = tt
distinct-SameContent [] (e ∷ es) d h = absurd cc
distinct-SameContent (t ∷ ts) [] d h = absurd cc
distinct-SameContent (t ∷ ts) (e ∷ es) d h =
    let far =
      apart t e ts es (text_eq_sound t.path e.target (ground arith)) (ground arith)
        (ground arith) in
    let rest = distinct-SameContent ts es (ground arith) (ground arith) in
    ((λ on. refl, same_far e es far), same_more e es es far rest)

checked-distinct : (ts us : List Target) → checked ts ≡ ok us → distinct us ≡ true
checked-distinct ts us h = ground arith

pub destinations-distinct :
    (t : Tree) (game_dir : Option FilePath) (arch : Option Arch) (dlls : List Dll)
    (targets : List Target)
    → destinations t game_dir arch dlls ≡ ok targets
    → distinct targets ≡ true
unfolding destinations
destinations-distinct t game_dir arch dlls targets h = ground arith

module _ (sha : Text → Digest) (p : Payload) (nodes0 : FilePath → Node) (before : Text) where
  pub record Entered (ts : List Target) (es : List Entry) : Type 0 where
    pub originals : AllOf (λ (e : Entry). identity sha (nodes0 e.target) ≡ ok e.original) es
    pub targets : same_targets ts es ≡ true

  Entered-cons :
      (t : Target) (ts : List Target) (es : List Entry) (original : Option Identity)
      → identity sha (nodes0 t.path) ≡ ok original
      → Entered ts es
      → Entered (t ∷ ts) (entry_of p t original ∷ es)
  unfolding same_targets
  Entered-cons t ts es original is h = record {
    originals = (is, h.originals);
    targets = rw (text_eq_refl t.path) h.targets;
  }

  Entered-nil : Entered [] []
  unfolding same_targets
  Entered-nil = record { originals = tt; targets = refl }

  pub entries-Spec :
      (ts : List Target)
      → Spec true
          (Clean nodes0 before)
          (entries sha p ts)
          (λ es n g r k. Clean nodes0 before n g r k × Entered ts es)
          (Clean nodes0 before)
  unfolding entries
  entries-Spec [] = Spec-pure [] (λ d h. (h, Entered-nil))
  entries-Spec (t ∷ ts) =
      Spec-bind {Q = λ found n g r k. Clean nodes0 before n g r k × (found ≡ nodes0 t.path)}
        (Spec-gets (λ d. d.nodes t.path) (λ d h. (h, (h.0).nodes t.path)))
        (λ found. Spec-given (λ same.
          Spec-bind (Spec-lift (identity sha found) (λ d h. h)) (λ original. Spec-given (λ is.
            Spec-bind (entries-Spec ts) (λ rest. Spec-given (λ later.
              Spec-pure (entry_of p t original ∷ rest) (λ d h. (
                h,
                Entered-cons t ts rest original (ap (identity sha) (sym same) ∙ is) later,
              ))))))))
