-- ===== src/Promotion/Readiness/Exact.antt =====
-- When blockers of runtime/kosmickrisp/readiness.py holds nothing against a report.
use winecx_gptk.Common.{
  ℕ, Bool, true, false, not, ◌&&◌, ◌||◌, ◌<◌, ◌↔◌, ap, sym, ◌∙◌, Option, none, some, List, [], ◌∷◌,
  ◌++◌, ◌==◌, AllOf, ◌≡◌, refl, arith,
}
use winecx_gptk.Promotion.{Platform, macos26, newer}
use winecx_gptk.Promotion.Readiness.{
  Check, macos26_check, platform, manifest, host, loader_override_negative,
  loader_override_empty_negative, loader_missing_negative, loader_corrupt_negative,
  wine_without_vulkan, wine_x86_64, wine_i686, Evidence, dxvk, shader_correctness, game, Report,
  Failure, validation_not_passed, wrong_os, no_lane, features_missing, check_failed, not_migrated,
  checks_of, unless, failed_checks, right_os, in_lane, os_failures, failed_migration, evidence,
  blockers,
}

no_failure : (xs ys : List Failure) → xs ++ ys ≡ [] → (xs ≡ []) × (ys ≡ [])
no_failure [] ys e = (refl, e)
no_failure (x ∷ xs) ys e = ground arith

unless-nil : (b : Bool) (f : Failure) → unless b f ≡ [] → b ≡ true
unless-nil true f e = refl
unless-nil false f e = ground arith

module _ {A : Type 0} (test : A → Bool) (f : A → Failure) where
  fails : List A → List Failure
  fails [] = []
  fails (a ∷ as') = unless (test a) (f a) ++ fails as'

  fails-AllOf : (xs : List A) → fails xs ≡ [] → AllOf (λ a. test a ≡ true) xs
  unfolding fails
  fails-AllOf [] e = tt
  fails-AllOf (a ∷ as') e =
      let n = no_failure (unless (test a) (f a)) (fails as') e in
      (unless-nil (test a) (f a) n.0, fails-AllOf as' n.1)

  fails-nil : (xs : List A) → AllOf (λ a. test a ≡ true) xs → fails xs ≡ []
  unfolding fails
  fails-nil [] h = refl
  fails-nil (a ∷ as') h = rw h.0 (fails-nil as' h.1)

failed_checks-fails :
    (r : Report) (cs : List Check) → failed_checks r cs ≡ fails r.check_passed check_failed cs
unfolding failed_checks fails
failed_checks-fails r [] = refl
failed_checks-fails r (c ∷ cs) =
    ap (λ fs. unless (r.check_passed c) (check_failed c) ++ fs) (failed_checks-fails r cs)

failed_migration-fails :
    (r : Report) (es : List Evidence)
    → failed_migration r es ≡ fails r.migration_passed not_migrated es
unfolding failed_migration fails
failed_migration-fails r [] = refl
failed_migration-fails r (e ∷ es) =
    ap (λ fs. unless (r.migration_passed e) (not_migrated e) ++ fs) (failed_migration-fails r es)

-- The check that only the other lane has.
abbrev pub is_foreign : Platform → Check → Bool
is_foreign macos26 platform = true
is_foreign newer macos26_check = true
is_foreign _ _ = false

abbrev pub IsVersionOf : Platform → ℕ → Type 0
IsVersionOf macos26 major = major ≡ 26
IsVersionOf newer major = 26 < major

-- A report that nothing is held against on a platform.
pub record Ready (p : Platform) (r : Report) : Type 0 where
  pub schema_one : r.schema ≡ 1
  pub has_passed : r.passed ≡ true
  pub checks : (c : Check) → (is_foreign p c || r.check_passed c) ≡ true
  pub version : ℕ
  pub is_version : r.major ≡ some version
  pub right : IsVersionOf p version
  pub names_lane : r.lane ≡ some p
  pub migrated : (e : Evidence) → r.migration_passed e ≡ true
  pub complete : r.known_missing ≡ false

all_checks :
    (p : Platform) (r : Report)
    → AllOf (λ c. r.check_passed c ≡ true) (checks_of p)
    → (c : Check) → (is_foreign p c || r.check_passed c) ≡ true
all_checks macos26 r h c = elim c as (λ k. (is_foreign macos26 k || r.check_passed k) ≡ true) [
  | macos26_check ↦ h.0
  | platform ↦ refl
  | manifest ↦ h.1.0
  | host ↦ h.1.1.0
  | loader_override_negative ↦ h.1.1.1.0
  | loader_override_empty_negative ↦ h.1.1.1.1.0
  | loader_missing_negative ↦ h.1.1.1.1.1.0
  | loader_corrupt_negative ↦ h.1.1.1.1.1.1.0
  | wine_without_vulkan ↦ h.1.1.1.1.1.1.1.0
  | wine_x86_64 ↦ h.1.1.1.1.1.1.1.1.0
  | wine_i686 ↦ h.1.1.1.1.1.1.1.1.1.0
]
all_checks newer r h c = elim c as (λ k. (is_foreign newer k || r.check_passed k) ≡ true) [
  | macos26_check ↦ refl
  | platform ↦ h.0
  | manifest ↦ h.1.0
  | host ↦ h.1.1.0
  | loader_override_negative ↦ h.1.1.1.0
  | loader_override_empty_negative ↦ h.1.1.1.1.0
  | loader_missing_negative ↦ h.1.1.1.1.1.0
  | loader_corrupt_negative ↦ h.1.1.1.1.1.1.0
  | wine_without_vulkan ↦ h.1.1.1.1.1.1.1.0
  | wine_x86_64 ↦ h.1.1.1.1.1.1.1.1.0
  | wine_i686 ↦ h.1.1.1.1.1.1.1.1.1.0
]

own_checks :
    (p : Platform) (r : Report)
    → ((c : Check) → (is_foreign p c || r.check_passed c) ≡ true)
    → AllOf (λ c. r.check_passed c ≡ true) (checks_of p)
own_checks macos26 r h = (
  h macos26_check,
  (
    h manifest,
    (
      h host,
      (
        h loader_override_negative,
        (
          h loader_override_empty_negative,
          (
            h loader_missing_negative,
            (
              h loader_corrupt_negative,
              (h wine_without_vulkan, (h wine_x86_64, (h wine_i686, tt))),
            ),
          ),
        ),
      ),
    ),
  ),
)
own_checks newer r h = (
  h platform,
  (
    h manifest,
    (
      h host,
      (
        h loader_override_negative,
        (
          h loader_override_empty_negative,
          (
            h loader_missing_negative,
            (
              h loader_corrupt_negative,
              (h wine_without_vulkan, (h wine_x86_64, (h wine_i686, tt))),
            ),
          ),
        ),
      ),
    ),
  ),
)

right_os-IsVersionOf : (p : Platform) (major : ℕ) → right_os p major ≡ true → IsVersionOf p major
right_os-IsVersionOf macos26 major h = ground arith
right_os-IsVersionOf newer major h = ground arith

IsVersionOf-right_os : (p : Platform) (major : ℕ) → IsVersionOf p major → right_os p major ≡ true
IsVersionOf-right_os macos26 major h = ground arith
IsVersionOf-right_os newer major h = ground arith

in_lane-same : (p : Platform) (o : Option Platform) → in_lane p o ≡ true → o ≡ some p
in_lane-same macos26 none h = absurd cc
in_lane-same macos26 (some macos26) h = refl
in_lane-same macos26 (some newer) h = absurd cc
in_lane-same newer none h = absurd cc
in_lane-same newer (some macos26) h = absurd cc
in_lane-same newer (some newer) h = refl

in_lane-own : (p : Platform) → in_lane p (some p) ≡ true
in_lane-own macos26 = refl
in_lane-own newer = refl

record RightOs (p : Platform) (r : Report) (o : Option ℕ) : Type 0 where
  version : ℕ
  is_version : o ≡ some version
  right : IsVersionOf p version
  lane : r.lane ≡ some p

os_failures-RightOs :
    (p : Platform) (r : Report) (o : Option ℕ) → os_failures p r o ≡ [] → RightOs p r o
os_failures-RightOs p r none e = ground arith
os_failures-RightOs p r (some major) e =
    let n = no_failure (unless (right_os p major) wrong_os) (unless (in_lane p r.lane) no_lane) e in
    record {
      version = major;
      is_version = refl;
      right = right_os-IsVersionOf p major (unless-nil (right_os p major) wrong_os n.0);
      lane = in_lane-same p r.lane (unless-nil (in_lane p r.lane) no_lane n.1);
    }

blockers-nil : (p : Platform) (r : Report) → blockers p r ≡ [] → Ready p r
unfolding blockers
blockers-nil p r e =
    let n1 = no_failure (unless (r.schema == 1 && r.passed) validation_not_passed) _ e in
    let n2 = no_failure (failed_checks r (checks_of p)) _ n1.1 in
    let n3 = no_failure (os_failures p r r.major) _ n2.1 in
    let n4 = no_failure (failed_migration r evidence) _ n3.1 in
    let o = os_failures-RightOs p r r.major n3.0 in
    let first = unless-nil (r.schema == 1 && r.passed) validation_not_passed n1.0 in
    let migrated =
      fails-AllOf r.migration_passed not_migrated evidence
        (sym (failed_migration-fails r evidence) ∙ n4.0) in
    record {
      schema_one = ground arith;
      has_passed = ground arith;
      checks = all_checks p r (
          fails-AllOf r.check_passed check_failed (checks_of p)
            (sym (failed_checks-fails r (checks_of p)) ∙ n2.0));
      version = o.version;
      is_version = o.is_version;
      right = o.right;
      names_lane = o.lane;
      migrated = λ v. elim v as (λ k. r.migration_passed k ≡ true) [
        | dxvk ↦ migrated.0
        | shader_correctness ↦ migrated.1.0
        | game ↦ migrated.1.1.0
      ];
      complete = let c = unless-nil (not r.known_missing) features_missing n4.1 in ground arith;
    }

Ready-os_failures : (p : Platform) (r : Report) → Ready p r → os_failures p r r.major ≡ []
Ready-os_failures p r h =
    let right = IsVersionOf-right_os p h.version h.right in
    let lane = ap (in_lane p) h.names_lane ∙ in_lane-own p in
    ap (os_failures p r) h.is_version
    ∙ ap (λ b. unless b wrong_os ++ unless (in_lane p r.lane) no_lane) right
    ∙ ap (λ b. unless b no_lane) lane

append-nil : (xs ys : List Failure) → xs ≡ [] → ys ≡ [] → xs ++ ys ≡ []
append-nil xs ys h k = ap (λ fs. fs ++ ys) h ∙ k

Ready-blockers : (p : Platform) (r : Report) → Ready p r → blockers p r ≡ []
unfolding blockers
Ready-blockers p r h =
    let first : (r.schema == 1 && r.passed) ≡ true =
      let a = h.schema_one in let b = h.has_passed in ground arith in
    let complete = ap (λ b. unless (not b) features_missing) h.complete in
    let checks =
      failed_checks-fails r (checks_of p)
      ∙ fails-nil r.check_passed check_failed (checks_of p) (own_checks p r h.checks) in
    let migrated =
      failed_migration-fails r evidence
      ∙ fails-nil r.migration_passed not_migrated evidence
          (h.migrated dxvk, (h.migrated shader_correctness, (h.migrated game, tt))) in
    append-nil (unless (r.schema == 1 && r.passed) validation_not_passed) _
      (ap (λ b. unless b validation_not_passed) first)
      (append-nil (failed_checks r (checks_of p)) _ checks (
        append-nil (os_failures p r r.major) _ (Ready-os_failures p r h)
          (append-nil (failed_migration r evidence) _ migrated complete)))

-- `blockers` of readiness.py holds nothing against a report exactly if the report has schema 1
-- and has passed, all eleven checks but the one that only the other lane has are passed, its
-- system has a version, which is 26 for macos26 and more than 26 for newer, it names this lane,
-- the DXVK, shader and game evidence has passed, and no DXVK feature is known to be missing.
pub blockers-Ready : (p : Platform) (r : Report) → (blockers p r ≡ []) ↔ Ready p r
blockers-Ready p r = (blockers-nil p r, Ready-blockers p r)
