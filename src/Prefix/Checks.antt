-- ===== src/Prefix/Checks.antt =====
-- validate_prefix and destinations of runtime/kosmickrisp/dxvk-prefix.py.
use winecx_gptk.Common.{
  Bool, true, false, not, ◌&&◌, Option, none, some, List, [], ◌∷◌, ◌++◌, map, all, any,
  if◌then◌else◌,
}
use winecx_gptk.Common.Text.{Text, codes, text_eq}
use winecx_gptk.Registry.{Dll, names, spelled}
use winecx_gptk.Prefix.Disk.{
  FilePath, Node, file, Arch, x64, x32, invalid_prefix, wine_running, invalid_game_dir,
  invalid_arguments, duplicate_destination, Result, ok, err, M, gets, require, ◌>>=◌, ◌>>◌,
}

-- What `is_symlink`, `is_dir` and `is_file` say of a path.
pub record Place : Type 0 where
  pub is_symlink : Bool
  pub is_dir : Bool
  pub is_file : Bool

-- What is looked up around the prefix and does not change in a transaction: the five directories,
-- kernel32.dll and ntdll.dll of both lanes, the three management paths, whether the server's
-- socket exists, whether another transaction holds the lock, and each game directory, with
-- whether it resolves to itself.
pub record Tree : Type 0 where
  pub prefix : FilePath
  pub directories : List Place
  pub kernel_files : List Place
  pub management : List Place
  pub socket_exists : Bool
  pub lock_held : Bool
  pub game_place : FilePath → Place
  pub is_resolved : FilePath → Bool

abbrev pub is_real_dir : Place → Bool
is_real_dir p = not p.is_symlink && p.is_dir

abbrev pub is_regular : Node → Bool
is_regular (file _) = true
is_regular _ = false

unfoldable pub validate_prefix : Tree → (stopped : Bool) → M (Unit {0})
validate_prefix t stopped = do
  require (all is_real_dir t.directories) invalid_prefix
  registry ← gets (λ d. d.registry)
  require (is_regular registry) invalid_prefix
  require (all (λ (p : Place). p.is_file) t.kernel_files) invalid_prefix
  require (not (any (λ (p : Place). p.is_symlink) t.management)) invalid_prefix
  require (not (stopped && t.socket_exists)) wine_running

pub record Target : Type 0 where
  pub path : FilePath
  pub arch : Arch
  pub name : Dll

abbrev slash : Text
slash = codes "/"

-- `prefix / 'drive_c/windows' / lane / f'{name}.dll'`
abbrev lane_target : FilePath → Text → Arch → Dll → Target
lane_target prefix lane arch name = record {
  path =
      prefix ++ (codes "/drive_c/windows/" ++ (lane ++ (slash ++ (spelled name ++ codes ".dll"))));
  arch = arch;
  name = name;
}

-- LANES: system32 holds the x64 files, syswow64 the x32 files.
abbrev lane_targets : FilePath → List Target
lane_targets prefix =
    map (lane_target prefix (codes "system32") x64) names
    ++ map (lane_target prefix (codes "syswow64") x32) names

abbrev game_target : FilePath → Arch → Dll → Target
game_target game arch name = record {
  path = game ++ (slash ++ (spelled name ++ codes ".dll"));
  arch = arch;
  name = name;
}

-- `len({str(t) …}) == len(targets)`
unfoldable pub distinct : List Target → Bool
distinct [] = true
distinct (t ∷ ts) = not (any (λ (u : Target). text_eq t.path u.path) ts) && distinct ts

abbrev pub checked : List Target → Result (List Target)
checked ts = if distinct ts then ok ts else err duplicate_destination

abbrev is_game_dir : Tree → FilePath → Bool
is_game_dir t game =
    let p = t.game_place game in p.is_dir && (not p.is_symlink && t.is_resolved game)

game_targets : Tree → FilePath → Option Arch → List Dll → Result (List Target)
game_targets t game none dlls = err invalid_arguments
game_targets t game (some arch) [] = err invalid_arguments
game_targets t game (some arch) (d ∷ ds) =
    checked (lane_targets t.prefix ++ map (game_target game arch) (d ∷ ds))

no_game : Tree → Option Arch → List Dll → Result (List Target)
no_game t none [] = checked (lane_targets t.prefix)
no_game t _ _ = err invalid_arguments

unfoldable pub destinations : Tree → Option FilePath → Option Arch → List Dll → Result (List Target)
unfolding game_targets no_game
destinations t none arch dlls = no_game t arch dlls
destinations t (some game) arch dlls =
    if is_game_dir t game then game_targets t game arch dlls else err invalid_game_dir
