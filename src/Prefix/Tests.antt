-- ===== src/Prefix/Tests.antt =====
-- The transaction of runtime/kosmickrisp/dxvk-prefix.py on a small prefix.
use winecx_gptk.Common.{true, false, ◌≡◌, refl, none, List, [], ◌∷◌, ◌++◌, arith, if◌then◌else◌}
use winecx_gptk.Common.Text.{Text, codes, text_eq, lower}
use winecx_gptk.Registry.{
  newline, section, edit_registry, registry_values, values_from, managed, find_section, is_header,
}
use winecx_gptk.Registry.Lines.{split_lines, is_break}
use winecx_gptk.Registry.Edit.{IsRegistry}
use winecx_gptk.Prefix.Disk.{
  err, os_error, write, copy_node, FilePath, Digest, absent, file, Fault, fine, fails_before,
  fails_after, Disk,
}
use winecx_gptk.Prefix.Checks.{Place, Tree, validate_prefix, destinations, distinct}
use winecx_gptk.Prefix.Status.{load_receipt, checked_receipt, identity, check_receipt, same_targets}
use winecx_gptk.Prefix.Restore.{
  restore, lock, journal, restore_loaded, restore_locked, restore_late, check_untouched,
  check_files, overrides_allowed,
}
use winecx_gptk.Prefix.Install.{
  Payload, install, install_by, install_new, install_read, transact, entries, on_error, back_up,
  put_in_place, stage, check_backup, replace,
}
use winecx_gptk.Prefix.Undo.Everything.{with_faults, retries, restore_undoes}

abbrev sha : Text → Digest
sha text = text

abbrev payload : Payload
payload = record {
  version = codes "2.7";
  hashes = λ _ _. codes "new";
  files = λ _ _. file (codes "new");
}

abbrev directory : Place
directory = record { is_symlink = false; is_dir = true; is_file = false }

abbrev regular : Place
regular = record { is_symlink = false; is_dir = false; is_file = true }

abbrev tree : Tree
tree = record {
  prefix = codes "/p";
  directories = directory ∷ [];
  kernel_files = regular ∷ [];
  management = [];
  socket_exists = false;
  lock_held = false;
  game_place = λ _. directory;
  is_resolved = λ _. true;
}

abbrev registry_text : Text
registry_text = codes "WINE REGISTRY" ++ newline

registry_text-IsRegistry : IsRegistry registry_text
unfolding split_lines find_section is_header section lower is_break
registry_text-IsRegistry = record {
  complete = ground arith;
  tidy = ground arith;
  single = ground arith;
}

abbrev d3d9_path : FilePath
d3d9_path = codes "/p/drive_c/windows/system32/d3d9.dll"

-- The first 20 writes pass, so some DLLs are replaced; the next one fails after its effect, and
-- the first one of the rollback fails too.
abbrev failing : List Fault
failing =
    fine ∷ fine ∷ fine ∷ fine ∷ fine ∷ fine ∷ fine ∷ fine ∷ fine ∷ fine ∷ fine ∷ fine ∷ fine ∷ fine
    ∷ fine ∷ fine ∷ fine ∷ fine ∷ fine ∷ fine ∷ fails_after ∷ fails_before ∷ []

abbrev disk : Disk
disk = record {
  nodes = λ path. if text_eq path d3d9_path then file (codes "old") else absent;
  registry = file registry_text;
  receipt = none;
  backup = none;
  faults = failing;
}

restore_undoes_example :
    let stopped =
      retries sha tree
        ((fine ∷ fails_after ∷ []) ∷ [])
        (install sha payload tree none none [] disk).1 in
    let d' = (restore sha tree (with_faults [] stopped)).1 in
    (d'.nodes d3d9_path ≡ disk.nodes d3d9_path)
    × (d'.registry ≡ disk.registry)
    × (d'.receipt ≡ none)
restore_undoes_example =
    restore_undoes sha payload tree none none [] disk registry_text ((fine ∷ fails_after ∷ []) ∷ [])
      d3d9_path refl refl registry_text-IsRegistry

-- The run stops with some DLLs replaced.
stopped-half :
    let (r, d) = install sha payload tree none none [] disk in
    (r ≡ err os_error)
    × (d.nodes (codes "/p/drive_c/windows/system32/d3d8.dll") ≡ file (codes "new"))
    × (d.nodes (codes "/p/drive_c/windows/syswow64/dxgi.dll") ≡ absent)
unfolding install lock validate_prefix destinations distinct load_receipt checked_receipt install_by
    install_new entries identity install_read edit_registry find_section split_lines registry_values
    values_from transact journal on_error back_up put_in_place stage check_backup replace write
    copy_node restore_loaded check_receipt same_targets restore_locked is_header is_break lower
    section managed restore_late check_untouched check_files overrides_allowed
stopped-half = (refl, refl, refl)
