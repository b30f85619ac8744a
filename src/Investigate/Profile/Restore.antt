-- ===== src/Investigate/Profile/Restore.antt =====
-- `restore` of ProfileTransaction of runtime/kosmickrisp/investigate.py.
use winecx_gptk.Common.{
  Bool, true, false, not, ◌&&◌, ◌||◌, Option, none, some, List, [], ◌∷◌, if◌then◌else◌,
}
use winecx_gptk.Common.Text.{Text, codes, text_eq}
use winecx_gptk.Investigate.Profile.Disk.{
  State, prepared, restored, DllEntry, Journal, Disk, Act, ◌>>◌, skip, require, reads, write, whole,
  put_config, tear_config, put_appid, tear_appid, put_dll, put_journal,
}
use winecx_gptk.Investigate.Profile.Saves.{os_error, replace_save}
use winecx_gptk.Investigate.Profile.Transaction.{
  digest_or_empty, has_digest, same_content, hash_of, copy, install_file, Setup,
}

abbrev pub is_restored : State → Bool
is_restored prepared = false
is_restored restored = true

module _ {S : Type 0} (sha : Text → Text) (inventory_hash : S → Text) where
  -- `restore` reads the digest of a backup that must be there.
  unfoldable pub check_backups : List DllEntry → Act S
  check_backups [] = skip
  check_backups (e ∷ es) =
      reads (λ d.
        require (not e.existed || has_digest sha (digest_or_empty e.sha256) (d.backup.dll e.name))
          (codes "dll_backup_corrupt"))
      >> check_backups es

  abbrev pub restore_existing : DllEntry → Disk S → Act S
  restore_existing e d =
      install_file sha inventory_hash (d.backup.dll e.name) e.name
      >> reads (λ d'.
        require (has_digest sha (digest_or_empty e.sha256) (d'.dll e.name))
          (codes "dll_restoration_failed"))

  unfoldable pub restore_dlls : List DllEntry → Act S
  restore_dlls [] = skip
  restore_dlls (e ∷ es) =
      reads (λ d.
        if e.existed then restore_existing e d else write (put_dll e.name none) whole os_error)
      >> restore_dlls es

  abbrev pub restore_appid : Bool → Act S
  restore_appid true =
      reads (λ d. copy d.backup.appid (λ t. write (put_appid (some t)) tear_appid os_error))
  restore_appid false = write (put_appid none) whole os_error

  abbrev pub check_restored : Journal → Act S
  check_restored j =
      reads (λ d.
        require (text_eq (hash_of inventory_hash d.saves) j.save_hash)
          (codes "save_restoration_failed"))
      >> reads (λ d.
        require (same_content sha d.config d.backup.config)
          (codes "configuration_restoration_failed"))
      >> reads (λ d.
        require (not j.appid_existed || same_content sha d.appid d.backup.appid)
          (codes "appid_restoration_failed"))

  unfoldable pub restore_from : Journal → Act S
  unfolding check_backups restore_dlls
  restore_from j =
      check_backups j.dlls
      >> reads (λ d.
        require (text_eq (hash_of inventory_hash d.backup.saves) j.save_hash)
          (codes "save_backup_corrupt"))
      >> reads (λ d. copy d.backup.config (λ t. write (put_config t) tear_config os_error))
      >> reads (λ d. replace_save d.backup.saves)
      >> restore_appid j.appid_existed
      >> check_restored j
      >> restore_dlls j.dlls
      >> write (put_journal (record j { state = restored })) whole os_error

  abbrev pub restore_journal : Setup → Option Journal → Act S
  restore_journal p none = skip
  restore_journal p (some j) =
      require (text_eq j.profile p.profile && text_eq j.appid p.appid)
        (codes "transaction_target_mismatch")
      >> (if is_restored j.state then skip else restore_from j)

  unfoldable pub restore : Setup → Act S
  unfolding restore_from
  restore p = reads (λ d. restore_journal p d.journal)
