-- ===== src/Prefix/Restore.antt =====
-- restore_locked, locked and restore of runtime/kosmickrisp/dxvk-prefix.py. Every write is a call of
-- `write`, so any of them may fail, before or after its effect.
use winecx_gptk.Common.{
  ℕ, ◌+◌, Bool, true, false, not, ◌||◌, Option, none, some, List, [], ◌∷◌, is_some, is_none, all,
  if◌then◌else◌,
}
use winecx_gptk.Common.Text.{Text, text_eq}
use winecx_gptk.Registry.{
  Dll, names, get, Overrides, registry_values, edit_registry, installed_values,
}
use winecx_gptk.Prefix.Disk.{
  Digest, absent, file, content, Entry, State, preparing, restoring, restored, Receipt, Disk,
  nothing_to_restore, dll_changed_outside, backup_missing, override_changed,
  registry_backup_missing, transaction_running, M, pure, raise, lift, gets, require, ◌>>=◌, ◌>>◌,
  write, copy_node, put_node, put_registry, put_receipt, original_at, registry_copy, same_identity,
}
use winecx_gptk.Prefix.Checks.{Tree, validate_prefix}
use winecx_gptk.Prefix.Status.{read_text, parsed_values, identity, load_receipt}

abbrev pub with_state : State → Receipt → Receipt
with_state s r = record r { state = s }

-- `journal`
unfoldable pub journal : Receipt → M (Unit {0})
journal r = write (put_receipt (some r))

abbrev pub same_line : Option Text → Option Text → Bool
same_line none none = true
same_line (some a) (some b) = text_eq a b
same_line _ _ = false

-- `value in [data['overrides_original'][name], installed_values()[name]]`
abbrev pub override_allowed : Overrides → Overrides → Dll → Bool
override_allowed original now name =
    same_line (get name now) (get name original)
    || same_line (get name now) (get name installed_values)

-- The loop over `current_values`.
unfoldable pub overrides_allowed : Overrides → Overrides → Bool
overrides_allowed original now = all (override_allowed original now) names

abbrev pub remove_backup : Disk → Disk
remove_backup d = record d { backup = none }

-- `if backup.exists(): shutil.rmtree(backup)`
abbrev pub remove_if_there : Bool → M (Unit {0})
remove_if_there true = write remove_backup
remove_if_there false = pure tt

-- The end of both paths: the receipt says that all is restored, the backup goes, the receipt goes.
unfoldable pub finish : Receipt → M (Unit {0})
unfolding journal
finish r = do
  journal (with_state restored r)
  there ← gets (λ d. is_some d.backup)
  remove_if_there there
  write (put_receipt none)

-- The entry of `locked`
unfoldable pub lock : Tree → M (Unit {0})
unfolding validate_prefix
lock t = do validate_prefix t true; require (not t.lock_held) transaction_running

module _ (sha : Text → Digest) where
  -- The first loop: every file is as the transaction left it, and its backup is whole.
  unfoldable pub check_files : ℕ → List Entry → M (Unit {0})
  unfolding identity
  check_files i [] = pure tt
  check_files i (e ∷ es) = do
    found ← gets (λ d. d.nodes e.target)
    now ← lift (identity sha found)
    require (same_identity now e.original || same_identity now (some (content e.installed_sha256)))
        dll_changed_outside
    saved ← gets (original_at i)
    kept ← (if is_none e.original then pure none else lift (identity sha saved))
    require (is_none e.original || same_identity kept e.original) backup_missing
    check_files (i + 1) es

  -- The loop that puts the files back.
  unfoldable pub put_back : ℕ → List Entry → M (Unit {0})
  put_back i [] = pure tt
  put_back i (e ∷ es) = do
    saved ← gets (original_at i)
    (if is_none e.original
        then write (put_node e.target absent)
        else copy_node saved (put_node e.target))
    put_back (i + 1) es

  -- The registry: the backup, unless something else has changed it; then only the overrides.
  unfoldable pub put_back_registry : Receipt → Text → M (Unit {0})
  unfolding identity
  put_back_registry r text = do
    registry ← gets (λ d. d.registry)
    now ← lift (identity sha registry)
    saved ← gets registry_copy
    (if same_identity now (some (content r.registry_installed_sha256))
          || same_identity now r.registry_original
        then copy_node saved put_registry
        else write (put_registry (file (edit_registry text r.overrides_original))))

  -- All that is checked before the first change. The text of the registry is returned.
  unfoldable pub check_untouched : Receipt → M Text
  unfolding check_files identity
  check_untouched r = do
    check_files 0 r.files
    registry ← gets (λ d. d.registry)
    text ← lift (read_text registry)
    now ← lift (parsed_values (registry_values text))
    require (overrides_allowed r.overrides_original now) override_changed
    saved ← gets registry_copy
    copy ← lift (identity sha saved)
    require (same_identity copy r.registry_original) registry_backup_missing
    pure text

  unfoldable pub restore_late : Receipt → M (Unit {0})
  unfolding check_untouched put_back put_back_registry finish journal
  restore_late r = do
    text ← check_untouched r
    journal (with_state restoring r)
    put_back 0 r.files
    put_back_registry r text
    finish r

  abbrev by_state : State → Receipt → M (Unit {0})
  by_state preparing r = finish r
  by_state restored r = finish r
  by_state _ r = restore_late r

  -- On success it returns {'state': 'restored', 'valid': True}.
  unfoldable pub restore_locked : Option Receipt → M (Unit {0})
  unfolding restore_late finish
  restore_locked none = raise nothing_to_restore
  restore_locked (some r) = by_state r.state r

  -- `restore_locked(prefix, load_receipt(prefix))`
  unfoldable pub restore_loaded : Tree → M (Unit {0})
  unfolding load_receipt restore_locked
  restore_loaded t = do data' ← load_receipt sha t; restore_locked data'

  unfoldable pub restore : Tree → M (Unit {0})
  unfolding lock restore_loaded
  restore t = do lock t; restore_loaded t
