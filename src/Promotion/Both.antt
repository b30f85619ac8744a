-- ===== src/Promotion/Both.antt =====
-- What the two physical systems have shown when blockers of runtime/kosmickrisp/promotion.py is empty.
use winecx_gptk.Common.{
  true, Option, none, some, is_some, List, [], ◌∷◌, ◌++◌, map, if◌then◌else◌, ◌≡◌, refl, ap, sym,
  ◌∙◌, arith,
}
use winecx_gptk.Common.Text.{Text}
use winecx_gptk.Promotion.{
  Floats, Failure, Physical, Platform, macos26, newer, Blocker, blocked, manifests_differ,
  without_manifest, manifest_of, is_single, same_text, campaign_blockers, platform_blockers,
  blockers,
}
use winecx_gptk.Promotion.Agreed.{Approved, campaign_blockers-Approved}

no_blockers : (xs ys : List Blocker) → xs ++ ys ≡ [] → (xs ≡ []) × (ys ≡ [])
no_blockers [] ys e = (refl, e)
no_blockers (x ∷ xs) ys e = ground arith

map-nil : (p : Platform) (xs : List Failure) → map (blocked p) xs ≡ [] → xs ≡ []
map-nil p [] e = refl
map-nil p (x ∷ xs) e = ground arith

module _ {F : Type 0} (floats : Floats F) where
  -- What one system has shown.
  pub record Shown (o : Option (Physical F)) : Type 0 where
    pub evidence : Physical F
    pub is_there : o ≡ some evidence
    pub approved : Approved floats evidence.campaign evidence.validation
    pub has_manifest : is_some evidence.validation.manifest_sha256 ≡ true

  without_manifest-nil :
      (p : Platform) (m : Option Text) → without_manifest p m ≡ [] → is_some m ≡ true
  without_manifest-nil p none e = ground arith
  without_manifest-nil p (some m) e = refl

  platform_blockers-Shown :
      (p : Platform) (o : Option (Physical F)) → platform_blockers floats p o ≡ [] → Shown o
  unfolding platform_blockers
  platform_blockers-Shown p none e = ground arith
  platform_blockers-Shown p (some s) e =
      let n =
        no_blockers (map (blocked p) (campaign_blockers floats s.campaign s.validation))
          (without_manifest p s.validation.manifest_sha256) e in
      record {
        evidence = s;
        is_there = refl;
        approved =
            campaign_blockers-Approved floats s.campaign s.validation
              (map-nil p (campaign_blockers floats s.campaign s.validation) n.0);
        has_manifest = without_manifest-nil p s.validation.manifest_sha256 n.1;
      }

  pub record Promotable (old new : Option (Physical F)) : Type 0 where
    pub on_macos26 : Shown old
    pub on_newer : Shown new
    pub one_manifest :
        same_text on_macos26.evidence.validation.manifest_sha256
          on_newer.evidence.validation.manifest_sha256
        ≡ true

  same_manifest_of :
      (old new : Physical F)
      → is_some old.validation.manifest_sha256 ≡ true
      → is_some new.validation.manifest_sha256 ≡ true
      → is_single (manifest_of (some old) ++ manifest_of (some new)) ≡ true
      → same_text old.validation.manifest_sha256 new.validation.manifest_sha256 ≡ true
  same_manifest_of old new h k e = ground arith

  -- `blockers` is empty only if both physical systems have left their evidence, for the same
  -- runtime manifest and the same system as their validation, with five cases, one for each
  -- required title, and each case but that of the Steam client has measured the validated
  -- archive against a baseline that has a digest, is another build, and is the same in all
  -- cases of the system, with three measured runs on either side, all of them valid, where the
  -- median frame rate of the archive is not below 95 percent of that of the baseline and its
  -- median frame time not above 110 percent.
  pub blockers-Promotable :
      (old new : Option (Physical F)) → blockers floats old new ≡ [] → Promotable old new
  unfolding blockers
  blockers-Promotable old new e =
      let last =
        if is_single (manifest_of old ++ manifest_of new) then [] else manifests_differ ∷ [] in
      let n1 = no_blockers (platform_blockers floats macos26 old) _ e in
      let n2 = no_blockers (platform_blockers floats newer new) last n1.1 in
      let s1 = platform_blockers-Shown macos26 old n1.0 in
      let s2 = platform_blockers-Shown newer new n2.0 in
      let single : is_single (manifest_of old ++ manifest_of new) ≡ true = ground arith in
      record {
        on_macos26 = s1;
        on_newer = s2;
        one_manifest = same_manifest_of s1.evidence s2.evidence s1.has_manifest s2.has_manifest (
            ap (λ o. is_single (manifest_of o ++ manifest_of (some s2.evidence))) (sym s1.is_there)
            ∙ ap (λ o. is_single (manifest_of old ++ manifest_of o)) (sym s2.is_there)
            ∙ single);
      }
