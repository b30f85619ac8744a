-- ===== src/Promotion/Readiness.antt =====
-- blockers of runtime/kosmickrisp/readiness.py, on a report whose sections are objects.
pub mod Exact
use winecx_gptk.Common.{
  ℕ, Bool, true, false, not, ◌&&◌, ◌||◌, ◌<◌, ◌↔◌, ap, sym, ◌∙◌, Option, none, some, List, [], ◌∷◌,
  ◌++◌, ◌==◌, leb, AllOf, ◌≡◌, refl, arith,
}
use winecx_gptk.Promotion.{Platform, macos26, newer}

pub data Check : Type 0 where
  macos26_check platform manifest host : Check
  loader_override_negative loader_override_empty_negative : Check
  loader_missing_negative loader_corrupt_negative : Check
  wine_without_vulkan wine_x86_64 wine_i686 : Check

pub data Evidence : Type 0 where
  dxvk shader_correctness game : Evidence

-- `major` is the first number of the system's version, `none` where there is none.
pub record Report : Type 0 where
  pub schema : ℕ
  pub passed : Bool
  pub check_passed : Check → Bool
  pub major : Option ℕ
  pub lane : Option Platform
  pub migration_passed : Evidence → Bool
  pub known_missing : Bool

pub data Failure : Type 0 where
  validation_not_passed wrong_os no_lane no_version features_missing : Failure
  check_failed : Check → Failure
  not_migrated : Evidence → Failure

-- The check of the platform has a name of its own on macOS 26.
abbrev pub checks_of : Platform → List Check
checks_of p =
    elim p [ macos26 ↦ macos26_check | newer ↦ platform ]
    ∷ manifest
    ∷ host
    ∷ loader_override_negative
    ∷ loader_override_empty_negative
    ∷ loader_missing_negative
    ∷ loader_corrupt_negative
    ∷ wine_without_vulkan
    ∷ wine_x86_64
    ∷ wine_i686
    ∷ []

abbrev pub unless : Bool → Failure → List Failure
unless true f = []
unless false f = f ∷ []

unfoldable pub failed_checks : Report → List Check → List Failure
failed_checks r [] = []
failed_checks r (c ∷ cs) = unless (r.check_passed c) (check_failed c) ++ failed_checks r cs

abbrev pub right_os : Platform → ℕ → Bool
right_os macos26 major = major == 26
right_os newer major = not (leb major 26)

abbrev pub in_lane : Platform → Option Platform → Bool
in_lane macos26 (some macos26) = true
in_lane newer (some newer) = true
in_lane _ _ = false

abbrev pub os_failures : Platform → Report → Option ℕ → List Failure
os_failures p r none = no_version ∷ []
os_failures p r (some major) =
    unless (right_os p major) wrong_os ++ unless (in_lane p r.lane) no_lane

unfoldable pub failed_migration : Report → List Evidence → List Failure
failed_migration r [] = []
failed_migration r (e ∷ es) =
    unless (r.migration_passed e) (not_migrated e) ++ failed_migration r es

abbrev pub evidence : List Evidence
evidence = dxvk ∷ shader_correctness ∷ game ∷ []

unfoldable pub blockers : Platform → Report → List Failure
unfolding failed_checks failed_migration
blockers p r =
    unless (r.schema == 1 && r.passed) validation_not_passed
    ++ (failed_checks r (checks_of p)
        ++ (os_failures p r r.major
            ++ (failed_migration r evidence ++ unless (not r.known_missing) features_missing)))
