-- ===== src/Prefix/Install.antt =====
-- install of runtime/kosmickrisp/dxvk-prefix.py. What `validate_payload` returns, and what is found
-- in the payload when it is copied, are parameters.
use winecx_gptk.Common.{
  ℕ, ◌+◌, Bool, not, ◌&&◌, ◌||◌, Option, none, some, List, [], ◌∷◌, is_some, is_none, all,
  if◌then◌else◌,
}
use winecx_gptk.Common.Text.{Text, text_eq}
use winecx_gptk.Registry.{Dll, Overrides, registry_values, edit_registry, installed_values}
use winecx_gptk.Prefix.Disk.{
  FilePath, Digest, Node, file, Identity, content, Arch, Entry, preparing, installing, installed,
  Receipt, Disk, managed_installation, orphaned_backup, payload_changed, dll_changed,
  original_changed, registry_changed, Result, ok, err, M, pure, raise, lift, gets, require, ◌>>=◌,
  ◌>>◌, write, copy_node, put_node, put_registry, put_original, put_payload, put_registry_copy,
  original_at, payload_at, registry_copy, empty_backup, same_identity,
}
use winecx_gptk.Prefix.Checks.{Tree, Target, destinations}
use winecx_gptk.Prefix.Status.{
  read_text, parsed_values, identity, load_receipt, same_targets, Report, status,
}
use winecx_gptk.Prefix.Restore.{with_state, journal, lock, restore_loaded}

-- DXVK_VERSION of the source and the hashes, as `validate_payload` returns them, and the files
-- of the payload.
pub record Payload : Type 0 where
  pub version : Text
  pub hashes : Arch → Dll → Digest
  pub files : Arch → Dll → Node

abbrev pub make_backup : Disk → Disk
make_backup d = record d { backup = some empty_backup }

abbrev pub handled : {A : Type 0} → M (Unit {0}) → Result A → M A
handled handler (ok a) d = (ok a, d)
handled handler (err e) d = (handler >> raise e) d

-- `try: … except Exception: … raise`
unfoldable pub on_error : {A : Type 0} → M A → M (Unit {0}) → M A
on_error m handler d = let (r, d') = m d in handled handler r d'

abbrev has_hash : Payload → Entry → Bool
has_hash p e = text_eq e.installed_sha256 (p.hashes e.arch e.name)

abbrev pub entry_of : Payload → Target → Option Identity → Entry
entry_of p target original = record {
  target = target.path;
  arch = target.arch;
  name = target.name;
  original = original;
  installed_sha256 = p.hashes target.arch target.name;
}

module _ (sha : Text → Digest) (p : Payload) where
  unfoldable pub entries : List Target → M (List Entry)
  unfolding identity
  entries [] = pure []
  entries (t ∷ ts) = do
    found ← gets (λ d. d.nodes t.path)
    original ← lift (identity sha found)
    rest ← entries ts
    pure (entry_of p t original ∷ rest)

  -- The first loop under `try`: the originals and the payload go to the backup.
  unfoldable pub stage : ℕ → List Entry → M (Unit {0})
  unfolding identity
  stage i [] = pure tt
  stage i (e ∷ es) = do
    found ← gets (λ d. d.nodes e.target)
    (if is_none e.original then pure tt else copy_node found (put_original i))
    copy_node (p.files e.arch e.name) (put_payload i)
    staged ← gets (payload_at i)
    now ← lift (identity sha staged)
    require (same_identity now (some (content e.installed_sha256))) payload_changed
    stage (i + 1) es

  -- The second loop: nothing changed while it was copied.
  unfoldable pub check_backup : ℕ → List Entry → M (Unit {0})
  unfolding identity
  check_backup i [] = pure tt
  check_backup i (e ∷ es) = do
    found ← gets (λ d. d.nodes e.target)
    now ← lift (identity sha found)
    require (same_identity now e.original) dll_changed
    saved ← gets (original_at i)
    kept ← (if is_none e.original then pure none else lift (identity sha saved))
    require (is_none e.original || same_identity kept e.original) original_changed
    check_backup (i + 1) es

  -- The third loop: the staged files replace the DLLs.
  unfoldable pub replace : ℕ → List Entry → M (Unit {0})
  unfolding identity
  replace i [] = pure tt
  replace i (e ∷ es) = do
    found ← gets (λ d. d.nodes e.target)
    now ← lift (identity sha found)
    require (same_identity now e.original) dll_changed
    staged ← gets (payload_at i)
    copy_node staged (put_node e.target)
    replace (i + 1) es

  -- What runs before the state becomes `installing`.
  unfoldable pub back_up : Receipt → M (Unit {0})
  unfolding stage check_backup identity
  back_up r = do
    write make_backup
    stage 0 r.files
    registry ← gets (λ d. d.registry)
    copy_node registry put_registry_copy
    check_backup 0 r.files
    registry' ← gets (λ d. d.registry)
    now ← lift (identity sha registry')
    saved ← gets registry_copy
    copy ← lift (identity sha saved)
    require (same_identity now r.registry_original && same_identity copy r.registry_original)
        registry_changed

  -- What runs from then on.
  unfoldable pub put_in_place : Receipt → Text → M (Unit {0})
  unfolding replace identity journal
  put_in_place r after = do
    journal (with_state installing r)
    replace 0 r.files
    registry ← gets (λ d. d.registry)
    now ← lift (identity sha registry)
    require (same_identity now r.registry_original) registry_changed
    write (put_registry (file after))
    journal (with_state installed r)

  module _ (t : Tree) where
    -- From the first receipt on.
    unfoldable pub transact : Receipt → Text → M Report
    unfolding back_up put_in_place on_error restore_loaded status journal
    transact r after = do
      journal r
      -- `except Exception: restore_locked(prefix, load_receipt(prefix))`
      on_error (back_up r >> put_in_place r after) (restore_loaded sha t)
      status sha t

  module _ (t : Tree) (game_dir : Option FilePath) (arch : Option Arch) (dlls : List Dll) where
    abbrev pub planned : List Entry → Option Identity → Overrides → Text → Receipt
    planned files original overrides after = record {
      state = preparing;
      prefix = t.prefix;
      version = p.version;
      files = files;
      game_dir = game_dir;
      arch = arch;
      dlls = dlls;
      registry_original = original;
      overrides_original = overrides;
      registry_installed_sha256 = sha after;
    }

    -- With the text of the registry.
    unfoldable pub install_read : List Entry → Text → M Report
    unfolding transact identity
    install_read files before = do
      let after = edit_registry before installed_values
      registry ← gets (λ d. d.registry)
      original ← lift (identity sha registry)
      overrides ← lift (parsed_values (registry_values before))
      transact t (planned files original overrides after) after

    unfoldable pub install_new : List Target → M Report
    unfolding entries install_read
    install_new targets = do
      there ← gets (λ d. is_some d.backup)
      require (not there) orphaned_backup
      files ← entries targets
      registry ← gets (λ d. d.registry)
      before ← lift (read_text registry)
      install_read files before

    abbrev matching : List Target → Receipt → Bool
    matching targets r = same_targets targets r.files && all (has_hash p) r.files

    install_existing : List Target → Receipt → M Report
    unfolding status
    install_existing targets r = do
      report ← status sha t
      require (report.valid && matching targets r) managed_installation
      pure report

    unfoldable pub install_by : List Target → Option Receipt → M Report
    unfolding install_new install_existing
    install_by targets none = install_new targets
    install_by targets (some r) = install_existing targets r

    unfoldable pub install : M Report
    unfolding lock destinations load_receipt install_by
    install = do
      lock t
      targets ← lift (destinations t game_dir arch dlls)
      existing ← load_receipt sha t
      install_by targets existing
