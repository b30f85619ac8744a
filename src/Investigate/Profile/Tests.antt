-- ===== src/Investigate/Profile/Tests.antt =====
-- A profile transaction of runtime/kosmickrisp/investigate.py with one DLL that was there before and
-- one that was not. A digest is the content itself.
use winecx_gptk.Common.{true, false, Option, none, some, List, [], ◌∷◌, ◌++◌, ◌≡◌, refl}
use winecx_gptk.Common.Text.{Text, codes}
use winecx_gptk.Investigate.Profile.Disk.{
  Name, d3d11, dxgi, Backup, Fault, fine, early, late, torn, Disk, failed, quiet, write,
}
use winecx_gptk.Investigate.Profile.Config.{
  configured, set_all, set_lines, set_line, blanks, strip_prefix, split, join,
}
use winecx_gptk.Investigate.Profile.Saves.{replace_save}
use winecx_gptk.Investigate.Profile.Transaction.{Source, Setup, prepare}
use winecx_gptk.Investigate.Profile.Restore.{restore}
use winecx_gptk.Investigate.Profile.Original.{Original}
use winecx_gptk.Investigate.Profile.Undone.{disk_of, retries, PutsBack, restore-prepare}

abbrev line : Text → Text → Text
line key rest = codes "" ++ (key ++ (rest ++ (10 ∷ [])))

abbrev settings_text : Text
settings_text =
    line (codes "Windowed") (codes " 0")
    ++ (line (codes "BorderlessWindow") (codes " 1")
        ++ (line (codes "FullscreenWindow") (codes "  1")
            ++ (line (codes "WindowTop") (codes " 30") ++ line (codes "Volume") (codes " 7"))))

set_for_run :
    configured settings_text
    ≡ some (
        line (codes "Windowed") (codes " 1")
        ++ (line (codes "BorderlessWindow") (codes " 0")
            ++ (line (codes "FullscreenWindow") (codes "  0")
                ++ (line (codes "WindowTop") (codes " 0") ++ line (codes "Volume") (codes " 7")))))
unfolding configured set_all set_lines set_line blanks strip_prefix split join
set_for_run = refl

-- A key that is set twice is refused.
set_twice : configured (line (codes "Windowed") (codes " 0") ++ settings_text) ≡ none
unfolding configured set_all set_lines set_line blanks strip_prefix split join
set_twice = refl

abbrev own_dlls : Name → Option Text
own_dlls d3d11 = some (codes "mz-old")
own_dlls dxgi = none

abbrev nothing_kept : Backup Text
nothing_kept = record { config = none; saves = none; appid = none; dll = λ n. none }

abbrev disk : Disk Text
disk = record {
  config = some settings_text;
  saves = some (codes "slot-1");
  has_stage = false;
  stage = none;
  previous = none;
  appid = none;
  dll = own_dlls;
  has_backup = false;
  backup = nothing_kept;
  journal = none;
  faults = [];
}

abbrev original : Original Text
original = record { config = settings_text; saves = codes "slot-1"; appid = none; dll = own_dlls }

abbrev same : Text → Text
same t = t

abbrev source_of : Name → Source
source_of n = record {
  name = n;
  expected = some (codes "mz-new");
  content = some (codes "mz-new");
  target_ok = true;
}

abbrev setup : Setup
setup = record {
  profile = codes "/p";
  appid = codes "/g/steam_appid.txt";
  sources = source_of d3d11 ∷ source_of dxgi ∷ [];
}

-- The copy of the new settings breaks off.
abbrev breaks_off : List (Fault Text)
breaks_off = fine ∷ fine ∷ fine ∷ fine ∷ fine ∷ torn (codes "Wind") [] ∷ []

restore-prepare_example : PutsBack same same original setup (
    restore same same setup (
      quiet [] (
        retries same same setup
          ((fine ∷ late ∷ []) ∷ (early ∷ []) ∷ [])
          (disk_of same same setup (prepare same same setup (quiet breaks_off disk))))))
restore-prepare_example =
    restore-prepare same same original setup disk breaks_off
      ((fine ∷ late ∷ []) ∷ (early ∷ []) ∷ []) refl
      (record { config = refl; saves = refl; appid = refl; dll = λ n. refl })

-- Neither the rename of the new saves nor the one that takes it back succeeds: the directory with the
-- old saves is removed all the same.
saves_lost :
    replace_save
      (some (codes "slot-2"))
      (quiet (fine ∷ fine ∷ fine ∷ early ∷ early ∷ fine ∷ fine ∷ []) disk)
    ≡ failed (codes "OSError") (record disk {
      saves = none;
      has_stage = false;
      stage = none;
      previous = none;
      faults = [];
    })
unfolding replace_save write
saves_lost = refl
