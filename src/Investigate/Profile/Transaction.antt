-- ===== src/Investigate/Profile/Transaction.antt =====
-- `prepare` of ProfileTransaction of runtime/kosmickrisp/investigate.py. SHA-256 of a
-- file and of a directory are parameters.
use winecx_gptk.Common.{
  Bool, true, false, not, ◌&&◌, Option, none, some, is_some, is_none, List, [], ◌∷◌,
}
use winecx_gptk.Common.Text.{Text, codes, text_eq}
use winecx_gptk.Investigate.Profile.Disk.{
  Name, prepared, DllEntry, Journal, Backup, Disk, Act, ◌>>◌, skip, raise, require, reads, write,
  whole, put_config, tear_config, put_appid, tear_appid, put_dll, put_journal, in_backup, keep_dll,
}
use winecx_gptk.Investigate.Profile.Config.{configured}
use winecx_gptk.Investigate.Profile.Saves.{os_error}

-- One DLL of `dxvk_directory`: the digest in the plan, the file in the directory, and whether the
-- target is a file or nothing.
pub record Source : Type 0 where
  pub name : Name
  pub expected : Option Text
  pub content : Option Text
  pub target_ok : Bool

pub record Setup : Type 0 where
  pub profile : Text
  pub appid : Text
  pub sources : List Source

abbrev pub digest_or_empty : Option Text → Text
digest_or_empty none = []
digest_or_empty (some d) = d

module _ (sha : Text → Text) where
  abbrev pub has_digest : Text → Option Text → Bool
  has_digest digest none = false
  has_digest digest (some content) = text_eq (sha content) digest

  abbrev pub sha_of : Option Text → Option Text
  sha_of none = none
  sha_of (some content) = some (sha content)

  abbrev pub same_content : Option Text → Option Text → Bool
  same_content none b = false
  same_content (some a) none = false
  same_content (some a) (some b) = text_eq (sha a) (sha b)

abbrev pub hash_of : {S : Type 0} → (S → Text) → Option S → Text
hash_of inventory_hash none = []
hash_of inventory_hash (some saves) = inventory_hash saves

module _ {S : Type 0} where
  -- `shutil.copy2(source, …)`; a file that is not there raises.
  abbrev pub copy : Option Text → (Text → Act S) → Act S
  copy none put = raise os_error
  copy (some content) put = put content

module _ {S : Type 0} (sha : Text → Text) (inventory_hash : S → Text) where
  abbrev pub source_error : Text
  source_error = codes "dxvk_source_hash_mismatch"

  abbrev pub check_source : Source → Act S
  check_source s =
      require (is_some s.expected && has_digest sha (digest_or_empty s.expected) s.content)
        source_error
      >> require s.target_ok (codes "unsupported_local_dll")

  unfoldable pub check_sources : List Source → Act S
  check_sources [] = skip
  check_sources (s ∷ ss) = check_source s >> check_sources ss

  abbrev pub entry_of : (Name → Option Text) → Source → DllEntry
  entry_of dll s = record {
    name = s.name;
    existed = is_some (dll s.name);
    sha256 = sha_of sha (dll s.name);
    installed_sha256 = digest_or_empty s.expected;
  }

  unfoldable pub entries_of : (Name → Option Text) → List Source → List DllEntry
  entries_of dll [] = []
  entries_of dll (s ∷ ss) = entry_of dll s ∷ entries_of dll ss

  abbrev pub back_up_file : (Text → Backup S → Backup S) → Text → Act S
  back_up_file keep content = write (in_backup (keep content)) (λ t s. in_backup (keep t)) os_error

  abbrev pub back_up_dll : Bool → DllEntry → Disk S → Act S
  back_up_dll true e d = copy (d.dll e.name) (back_up_file (λ t. keep_dll e.name (some t)))
  back_up_dll false e d = skip

  unfoldable pub back_up_dlls : List DllEntry → Act S
  back_up_dlls [] = skip
  back_up_dlls (e ∷ es) = reads (back_up_dll e.existed e) >> back_up_dlls es

  abbrev pub back_up_saves : Option S → Act S
  back_up_saves none = raise os_error
  back_up_saves (some saves) =
      write (in_backup (λ b. record b { saves = some saves }))
        (λ t s. in_backup (λ b. record b { saves = some s })) os_error

  abbrev pub back_up_appid : Option Text → Act S
  back_up_appid none = skip
  back_up_appid (some t) = back_up_file (λ t b. record b { appid = some t }) t

  abbrev pub empty_backup : Backup S
  empty_backup = record { config = none; saves = none; appid = none; dll = λ n. none }

  abbrev pub make_backup : Disk S → Disk S
  make_backup d = record d { has_backup = true; backup = empty_backup }

  -- `backup.mkdir()` and the copies
  unfoldable pub back_up : List DllEntry → Act S
  unfolding back_up_dlls
  back_up entries =
      reads (λ d. require (not d.has_backup) os_error)
      >> write make_backup whole os_error
      >> reads (λ d. copy d.config (back_up_file (λ t b. record b { config = some t })))
      >> reads (λ d. back_up_saves d.saves)
      >> reads (λ d. back_up_appid d.appid)
      >> back_up_dlls entries

  abbrev pub journal_of : Setup → List DllEntry → Disk S → Journal
  journal_of p entries d = record {
    dlls = entries;
    state = prepared;
    profile = p.profile;
    appid = p.appid;
    appid_existed = is_some d.appid;
    save_hash = hash_of inventory_hash d.backup.saves;
  }

  -- A copy beside the target, and a rename over it.
  abbrev pub install_file : Option Text → Name → Act S
  install_file source name = copy source (λ content.
      write (λ d. d) whole os_error >> write (put_dll name (some content)) whole os_error)

  unfoldable pub install_dlls : List Source → Act S
  install_dlls [] = skip
  install_dlls (s ∷ ss) =
      install_file s.content s.name
      >> reads (λ d.
        require (has_digest sha (digest_or_empty s.expected) (d.dll s.name))
          (codes "dxvk_install_hash_mismatch"))
      >> install_dlls ss

  abbrev pub write_config : Option Text → Act S
  write_config none = raise (codes "ambiguous_configuration")
  write_config (some new) = write (put_config new) tear_config os_error

  abbrev pub configure : Option Text → Act S
  configure none = raise os_error
  configure (some text) = write_config (configured text)

  unfoldable pub prepare_with : Setup → List DllEntry → Act S
  unfolding back_up install_dlls configured
  prepare_with p entries =
      back_up entries
      >> reads (λ d. write (put_journal (journal_of p entries d)) whole os_error)
      >> reads (λ d. configure d.backup.config)
      >> write (put_appid (some (codes "920210\n"))) tear_appid os_error
      >> install_dlls p.sources

  unfoldable pub prepare : Setup → Act S
  unfolding check_sources entries_of prepare_with
  prepare p =
      reads (λ d. require (is_none d.journal) (codes "existing_transaction_requires_recovery"))
      >> check_sources p.sources
      >> reads (λ d. prepare_with p (entries_of d.dll p.sources))
