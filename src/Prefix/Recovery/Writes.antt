-- ===== src/Prefix/Recovery/Writes.antt =====
-- What one write to a target does to the conditions of a transaction of
-- runtime/kosmickrisp/dxvk-prefix.py.
use winecx_gptk.Common.{
  true, false, ◌≡◌, refl, sym, ap, ◌∙◌, Option, none, some, List, [], ◌∷◌, inl, inr, AllOf,
  if◌then◌else◌, Bool-cases, arith,
}
use winecx_gptk.Common.Text.{Text, text_eq, text_eq_refl, text_eq_sound}
use winecx_gptk.Prefix.Disk.{
  FilePath, Digest, Node, absent, other, link, file, Identity, content, link_to, Entry, Receipt, ok,
  same_identity,
}
use winecx_gptk.Prefix.Status.{identity}
use winecx_gptk.Prefix.Triples.{CanCopy}
use winecx_gptk.Prefix.Recovery.{targets_path, SameContent, IsMixed, Others}

abbrev pub place : Entry → Node → (FilePath → Node) → FilePath → Node
place e x n path = if text_eq e.target path then x else n path

pub place-there : (e : Entry) (x : Node) (n : FilePath → Node) → place e x n e.target ≡ x
place-there e x n = rw (text_eq_refl e.target) refl

place-same :
    (e : Entry) (x : Node) (n : FilePath → Node) (path : FilePath)
    → text_eq e.target path ≡ true
    → place e x n path ≡ x
place-same e x n path h = rw h refl

place-apart :
    (e : Entry) (x : Node) (n : FilePath → Node) (path : FilePath)
    → text_eq e.target path ≡ false
    → place e x n path ≡ n path
place-apart e x n path h = rw h refl

pub same_identity_refl : (x : Option Identity) → same_identity x x ≡ true
same_identity_refl none = refl
same_identity_refl (some (link_to a)) = text_eq_refl a
same_identity_refl (some (content a)) = text_eq_refl a

pub same_identity_sound : (x y : Option Identity) → same_identity x y ≡ true → x ≡ y
same_identity_sound none none h = refl
same_identity_sound none (some (link_to b)) h = absurd cc
same_identity_sound none (some (content b)) h = absurd cc
same_identity_sound (some (link_to a)) none h = absurd cc
same_identity_sound (some (content a)) none h = absurd cc
same_identity_sound (some (link_to a)) (some (link_to b)) h =
    ap (λ t. some (link_to t)) (text_eq_sound a b h)
same_identity_sound (some (content a)) (some (content b)) h =
    ap (λ t. some (content t)) (text_eq_sound a b h)
same_identity_sound (some (link_to a)) (some (content b)) h = absurd cc
same_identity_sound (some (content a)) (some (link_to b)) h = absurd cc

module _ (sha : Text → Digest) where
  pub identity-none : (n : Node) → identity sha n ≡ ok none → n ≡ absent
  unfolding identity
  identity-none absent h = refl
  identity-none other h = absurd cc
  identity-none (link t) h = absurd cc
  identity-none (file t) h = absurd cc

  pub identity-some : (n : Node) (x : Identity) → identity sha n ≡ ok (some x) → CanCopy n
  unfolding identity
  identity-some absent x h = absurd cc
  identity-some other x h = absurd cc
  identity-some (link t) x h = tt
  identity-some (file t) x h = tt

  module _ (nodes0 : FilePath → Node) where
    -- A file put back leaves every file as it was that already was.
    pub place_back :
        (e : Entry) (n : FilePath → Node) (path : FilePath)
        → n path ≡ nodes0 path
        → place e (nodes0 e.target) n path ≡ nodes0 path
    place_back e n path h = elim (Bool-cases (text_eq e.target path)) [
      | inl on ↦
          place-same e (nodes0 e.target) n path on ∙ ap nodes0 (text_eq_sound e.target path on)
      | inr off ↦ place-apart e (nodes0 e.target) n path off ∙ h
    ]

abbrev pub IsTarget : List Entry → Entry → Type 0
IsTarget files e =
    (path : FilePath) → targets_path files path ≡ false → text_eq e.target path ≡ false

IsTarget-cons : (e x : Entry) (files : List Entry) → IsTarget files e → IsTarget (x ∷ files) e
IsTarget-cons e x files h path off = h path (ground arith)

AllOf-weaken :
    {P Q : Entry → Type 0} (xs : List Entry) → ((x : Entry) → P x → Q x) → AllOf P xs → AllOf Q xs
AllOf-weaken [] f h = tt
AllOf-weaken (x ∷ xs) f h = (f x h.0, AllOf-weaken xs f h.1)

-- Every entry of the receipt names one of its targets.
pub all_targets : (files : List Entry) → AllOf (IsTarget files) files
all_targets [] = tt
all_targets (x ∷ xs) =
    (λ path off. ground arith, AllOf-weaken xs (λ e. IsTarget-cons e x xs) (all_targets xs))

abbrev pub IsRestored : (FilePath → Node) → (FilePath → Node) → Entry → Type 0
IsRestored nodes0 n e = n e.target ≡ nodes0 e.target

-- With every target restored and no other path changed, all files are as they were.
pub restored_all :
    (nodes0 n : FilePath → Node) (xs : List Entry) (path : FilePath)
    → AllOf (IsRestored nodes0 n) xs
    → (targets_path xs path ≡ false → n path ≡ nodes0 path)
    → n path ≡ nodes0 path
restored_all nodes0 n [] path h other' = other' refl
restored_all nodes0 n (e ∷ es) path h other' = elim (Bool-cases (text_eq e.target path)) [
  | inl on ↦ let same = text_eq_sound e.target path on in sym (ap n same) ∙ h.0 ∙ ap nodes0 same
  | inr off ↦ restored_all nodes0 n es path h.1 (λ none'. other' (ground arith))
]

module _ (sha : Text → Digest) (nodes0 : FilePath → Node) (before : Text) (base : Receipt) where
  pub IsMixed-place_back :
      (e : Entry) (n : FilePath → Node) (xs : List Entry)
      → AllOf (IsMixed sha nodes0 before base n) xs
      → AllOf (IsMixed sha nodes0 before base (place e (nodes0 e.target) n)) xs
  IsMixed-place_back e n [] h = tt
  IsMixed-place_back e n (x ∷ xs) h = (
    elim h.0 [
      | inl same ↦ inl (place_back sha nodes0 e n x.target same)
      | inr new ↦ elim (Bool-cases (text_eq e.target x.target)) [
        | inl on ↦ inl (
            place-same e (nodes0 e.target) n x.target on
            ∙ ap nodes0 (text_eq_sound e.target x.target on))
        | inr off ↦ inr (ap (identity sha) (place-apart e (nodes0 e.target) n x.target off) ∙ new)
      ]
    ],
    IsMixed-place_back e n xs h.1,
  )

  -- An installed DLL in the place of a target.
  pub IsMixed-place :
      (e : Entry) (new : Node) (n : FilePath → Node) (xs : List Entry)
      → identity sha new ≡ ok (some (content e.installed_sha256))
      → AllOf (SameContent e) xs
      → AllOf (IsMixed sha nodes0 before base n) xs
      → AllOf (IsMixed sha nodes0 before base (place e new n)) xs
  IsMixed-place e new n [] is same h = tt
  IsMixed-place e new n (x ∷ xs) is same h = (
    elim (Bool-cases (text_eq e.target x.target)) [
      | inl on ↦ inr (
          ap (identity sha) (place-same e new n x.target on)
          ∙ is
          ∙ ap (λ t. ok (some (content t))) (sym (same.0 on)))
      | inr off ↦
          let there = place-apart e new n x.target off in
          elim h.0 [
            | inl old ↦ inl (there ∙ old)
            | inr installed' ↦ inr (ap (identity sha) there ∙ installed')
          ]
    ],
    IsMixed-place e new n xs is same.1 h.1,
  )

  pub Others-place :
      (e : Entry) (new : Node) (n : FilePath → Node)
      → IsTarget base.files e
      → Others sha nodes0 before base n
      → Others sha nodes0 before base (place e new n)
  Others-place e new n named h path off = place-apart e new n path (named path off) ∙ h path off

  pub Others-place_back :
      (e : Entry) (n : FilePath → Node)
      → Others sha nodes0 before base n
      → Others sha nodes0 before base (place e (nodes0 e.target) n)
  Others-place_back e n h path off = place_back sha nodes0 e n path (h path off)
