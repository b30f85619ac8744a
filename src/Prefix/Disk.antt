-- ===== src/Prefix/Disk.antt =====
-- What runtime/kosmickrisp/dxvk-prefix.py reads and writes, and the monad of its functions: they
-- change the disk and may raise. A write can fail before or after it took effect (an OSError at
-- the copy, or at the directory sync behind the rename); the list `faults` says which writes do.
use winecx_gptk.Common.{
  ℕ, Bool, true, false, Option, none, some, List, [], ◌∷◌, ◌==◌, if◌then◌else◌,
}
use winecx_gptk.Common.Text.{Text, text_eq}
use winecx_gptk.Registry.{Dll, Overrides}

abbrev pub FilePath : Type 0
FilePath = Text

abbrev pub Digest : Type 0
Digest = Text

-- What stands at a path. `other` is a directory or a special file.
pub data Node : Type 0 where
  absent other : Node
  link file : Text → Node

-- What `identity` returns: `{'link': …}` or `{'sha256': …}`
pub data Identity : Type 0 where
  link_to : Text → Identity
  content : Digest → Identity

pub data Arch : Type 0 where
  x64 x32 : Arch

pub record Entry : Type 0 where
  pub target : FilePath
  pub arch : Arch
  pub name : Dll
  pub original : Option Identity
  pub installed_sha256 : Digest

pub data State : Type 0 where
  preparing installing installed restoring restored : State

-- The receipt; its JSON text is read back as what was written.
pub record Receipt : Type 0 where
  pub state : State
  pub prefix : FilePath
  pub version : Text
  pub files : List Entry
  pub game_dir : Option FilePath
  pub arch : Option Arch
  pub dlls : List Dll
  pub registry_original : Option Identity
  pub overrides_original : Overrides
  pub registry_installed_sha256 : Digest

-- The directory BACKUP: `str(i)`, `payload-{i}` and `user.reg`.
pub record Backup : Type 0 where
  pub originals : ℕ → Node
  pub payloads : ℕ → Node
  pub registry : Node

pub data Fault : Type 0 where
  fine fails_before fails_after : Fault

pub record Disk : Type 0 where
  pub nodes : FilePath → Node
  pub registry : Node
  pub receipt : Option Receipt
  pub backup : Option Backup
  pub faults : List Fault

pub data Error : Type 0 where
  os_error not_a_file invalid_prefix wine_running invalid_game_dir invalid_arguments : Error
  duplicate_destination invalid_receipt transaction_running managed_installation : Error
  orphaned_backup duplicate_override payload_changed dll_changed original_changed : Error
  registry_changed nothing_to_restore dll_changed_outside backup_missing override_changed : Error
  registry_backup_missing : Error

pub data Result (A : Type 0) : Type 0 where
  ok : A → Result A
  err : Error → Result A

abbrev pub M : Type 0 → Type 0
M A = Disk → Result A × Disk

abbrev pub pure : {A : Type 0} → A → M A
pure a d = (ok a, d)

abbrev pub raise : {A : Type 0} → Error → M A
raise e d = (err e, d)

abbrev pub lift : {A : Type 0} → Result A → M A
lift r d = (r, d)

abbrev pub continue : {A B : Type 0} → Result A → (A → M B) → M B
continue (ok a) f d = f a d
continue (err e) f d = (err e, d)

infixl 5 ◌>>=◌ ◌>>◌
abbrev pub ◌>>=◌ : {A B : Type 0} → M A → (A → M B) → M B
◌>>=◌ m f d = let (r, d') = m d in continue r f d'

abbrev pub ◌>>◌ : {A B : Type 0} → M A → M B → M B
m >> k = m >>= λ _. k

abbrev pub gets : {A : Type 0} → (Disk → A) → M A
gets f d = (ok (f d), d)

-- `if not test: raise …`
abbrev pub require : Bool → Error → M (Unit {0})
require true e = pure tt
require false e = raise e

-- A write: it takes the next fault.
unfoldable pub write : (Disk → Disk) → M (Unit {0})
write change d = elim d.faults [
  | [] ↦ (ok tt, change d)
  | f ∷ later ↦
      let quiet = record d { faults = later } in
      elim f [
        | fine ↦ (ok tt, change quiet)
        | fails_before ↦ (err os_error, quiet)
        | fails_after ↦ (err os_error, change quiet)
      ]
]

-- `shutil.copy2` of the source, then the rename
unfoldable pub copy_node : Node → (Node → Disk → Disk) → M (Unit {0})
copy_node absent put = raise os_error
copy_node other put = raise os_error
copy_node (link t) put = write (put (link t))
copy_node (file t) put = write (put (file t))

abbrev pub put_node : FilePath → Node → Disk → Disk
put_node path n d = record d { nodes = λ p. if text_eq path p then n else d.nodes p }

abbrev pub put_registry : Node → Disk → Disk
put_registry n d = record d { registry = n }

abbrev pub put_receipt : Option Receipt → Disk → Disk
put_receipt r d = record d { receipt = r }

abbrev pub update : {A : Type 0} → ℕ → A → (ℕ → A) → ℕ → A
update i a f j = if i == j then a else f j

-- A write into the directory of the backup, which must be there.
abbrev pub in_backup : (Backup → Backup) → Disk → Disk
in_backup change d = record d { backup = elim d.backup [ none ↦ none | some b ↦ some (change b) ] }

abbrev pub put_original : ℕ → Node → Disk → Disk
put_original i n = in_backup (λ b. record b { originals = update i n b.originals })

abbrev pub put_payload : ℕ → Node → Disk → Disk
put_payload i n = in_backup (λ b. record b { payloads = update i n b.payloads })

abbrev pub put_registry_copy : Node → Disk → Disk
put_registry_copy n = in_backup (λ b. record b { registry = n })

-- What `identity(backup / …)` looks at.
abbrev pub original_at : ℕ → Disk → Node
original_at i d = elim d.backup [ none ↦ absent | some b ↦ b.originals i ]

abbrev pub payload_at : ℕ → Disk → Node
payload_at i d = elim d.backup [ none ↦ absent | some b ↦ b.payloads i ]

abbrev pub registry_copy : Disk → Node
registry_copy d = elim d.backup [ none ↦ absent | some b ↦ b.registry ]

abbrev pub empty_backup : Backup
empty_backup = record { originals = λ _. absent; payloads = λ _. absent; registry = absent }

-- `a == b` on what `identity` returns
abbrev pub same_identity : Option Identity → Option Identity → Bool
same_identity none none = true
same_identity (some (link_to a)) (some (link_to b)) = text_eq a b
same_identity (some (content a)) (some (content b)) = text_eq a b
same_identity _ _ = false
