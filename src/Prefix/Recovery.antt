-- ===== src/Prefix/Recovery.antt =====
-- What a transaction of runtime/kosmickrisp/dxvk-prefix.py leaves behind when it stops early: the
-- conditions on the files, the receipt and the backup that its functions keep. The files and the
-- registry as they were before, and the receipt that `install` writes first, are parameters.
pub mod Writes
pub mod Restoring
pub mod Checking
pub mod Locked
pub mod Reload
pub mod Staging
pub mod BackingUp
pub mod Placing
pub mod Locking
pub mod Entries
use winecx_gptk.Common.{
  ℕ, ◌+◌, Bool, true, false, ◌≡◌, Option, none, some, List, [], ◌∷◌, ◌⊎◌, AllOf, any,
}
use winecx_gptk.Common.Text.{Text, text_eq}
use winecx_gptk.Registry.{values, registry_values, edit_registry, installed_values}
use winecx_gptk.Prefix.Disk.{
  FilePath, Digest, Node, file, Identity, content, Entry, State, preparing, installing, installed,
  restoring, restored, Receipt, Backup, Result, ok,
}
use winecx_gptk.Prefix.Checks.{Tree}
use winecx_gptk.Prefix.Status.{identity, check_receipt}
use winecx_gptk.Prefix.Restore.{with_state}
use winecx_gptk.Prefix.Triples.{Pred}

-- The states in which no file has been touched.
abbrev pub IsEarly : State → Type 0
IsEarly preparing = Unit {0}
IsEarly restored = Unit {0}
IsEarly _ = ⊥

abbrev pub IsLate : State → Type 0
IsLate installing = Unit {0}
IsLate installed = Unit {0}
IsLate restoring = Unit {0}
IsLate _ = ⊥

abbrev pub targets_path : List Entry → FilePath → Bool
targets_path es path = any (λ (e : Entry). text_eq e.target path) es

abbrev pub SameContent : Entry → Entry → Type 0
SameContent e e' = text_eq e.target e'.target ≡ true → e'.installed_sha256 ≡ e.installed_sha256

module _ (nodes0 : FilePath → Node) (before : Text) where
  pub record Untouched (n : FilePath → Node) (g : Node) : Type 0 where
    pub nodes : (path : FilePath) → n path ≡ nodes0 path
    pub registry : g ≡ file before

  abbrev pub Clean : Pred
  Clean n g r k = Untouched n g × (r ≡ none)

module _ (sha : Text → Digest) (nodes0 : FilePath → Node) (before : Text) (base : Receipt) where
  abbrev pub after : Text
  after = edit_registry before installed_values

  abbrev pub WasThere : Entry → Type 0
  WasThere e = identity sha (nodes0 e.target) ≡ ok e.original

  -- What `install` put in the receipt is true of the files as they were.
  pub record Plan (t : Tree) : Type 0 where
    pub originals : AllOf WasThere base.files
    pub consistent : AllOf (λ e. AllOf (SameContent e) base.files) base.files
    pub registry_original : base.registry_original ≡ some (content (sha before))
    pub registry_installed : base.registry_installed_sha256 ≡ sha after
    pub overrides : registry_values before ≡ values base.overrides_original
    pub read_back : registry_values after ≡ values installed_values
    pub accepted : check_receipt sha t base ≡ ok tt

  -- Every target holds its original or the installed DLL, and no other path has changed.
  abbrev pub IsMixed : (FilePath → Node) → Entry → Type 0
  IsMixed n e =
      (n e.target ≡ nodes0 e.target)
      ⊎ (identity sha (n e.target) ≡ ok (some (content e.installed_sha256)))

  abbrev pub Others : (FilePath → Node) → Type 0
  Others n = (path : FilePath) → targets_path base.files path ≡ false → n path ≡ nodes0 path

  abbrev pub RegistryOk : Node → Type 0
  RegistryOk g = (g ≡ file before) ⊎ (g ≡ file after)

  -- The backup of one entry, at its place.
  pub record IsSaved (e : Entry) (original payload : Node) : Type 0 where
    pub kept : (e.original ≡ none) ⊎ (original ≡ nodes0 e.target)
    pub staged : identity sha payload ≡ ok (some (content e.installed_sha256))

  abbrev pub WholeFrom : ℕ → List Entry → (originals payloads : ℕ → Node) → Type 0
  WholeFrom i [] originals payloads = Unit {0}
  WholeFrom i (e ∷ es) originals payloads =
      IsSaved e (originals i) (payloads i) × WholeFrom (i + 1) es originals payloads

  abbrev pub Whole : ℕ → List Entry → Backup → Type 0
  Whole i es b = WholeFrom i es b.originals b.payloads

  pub record Early (n : FilePath → Node) (g : Node) (r : Option Receipt) (k : Option Backup)
      : Type 0 where
    pub untouched : Untouched nodes0 before n g
    pub state : State
    pub early : IsEarly state
    pub receipt : r ≡ some (with_state state base)

  -- With the backup at hand.
  pub record LateWith (b : Backup) (n : FilePath → Node) (g : Node) (r : Option Receipt)
      (k : Option Backup) : Type 0 where
    pub mixed : AllOf (IsMixed n) base.files
    pub others : Others n
    pub registry : RegistryOk g
    pub state : State
    pub late : IsLate state
    pub receipt : r ≡ some (with_state state base)
    pub backup : k ≡ some b
    pub whole : Whole 0 base.files b
    pub copy : b.registry ≡ file before

  pub data Recoverable (n : FilePath → Node) (g : Node) (r : Option Receipt) (k : Option Backup)
      : Type 0 where
    clean : Untouched nodes0 before n g → r ≡ none → Recoverable n g r k
    early : Early n g r k → Recoverable n g r k
    late : (b : Backup) → LateWith b n g r k → Recoverable n g r k
