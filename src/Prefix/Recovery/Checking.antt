-- ===== src/Prefix/Recovery/Checking.antt =====
-- The checks of restore_locked of runtime/kosmickrisp/dxvk-prefix.py on what a stopped transaction
-- leaves behind: none of them fails.
use mathlib.Core.Path.{subst}
use winecx_gptk.Common.{
  ℕ, ◌+◌, Bool, true, ◌||◌, ◌&&◌, ◌≡◌, refl, sym, ap, ◌∙◌, Option, none, some, List, [], ◌∷◌, inl,
  inr, AllOf, is_none, if◌then◌else◌, arith,
}
use winecx_gptk.Common.Text.{Text, text_eq_refl}
use winecx_gptk.Registry.{
  Overrides, registry_values, values, installed_values, get, d3d8, d3d9, d3d10core, d3d11, dxgi,
  Dll,
}
use winecx_gptk.Prefix.Disk.{
  FilePath, Digest, Node, file, Identity, content, Entry, State, Receipt, Backup, Disk, Result, ok,
  same_identity, pure, lift,
}
use winecx_gptk.Prefix.Checks.{Tree}
use winecx_gptk.Prefix.Status.{identity}
use winecx_gptk.Prefix.Restore.{
  with_state, check_files, check_untouched, overrides_allowed, same_line,
}
use winecx_gptk.Prefix.Triples.{At, Gives}
use winecx_gptk.Prefix.Recovery.{
  Plan, IsMixed, WasThere, Whole, IsSaved, LateWith, after, RegistryOk,
}
use winecx_gptk.Prefix.Recovery.Writes.{same_identity_refl}

pub allow_left : (a b : Bool) → a ≡ true → (a || b) ≡ true
allow_left a b h = ground arith

pub allow_right : (a b : Bool) → b ≡ true → (a || b) ≡ true
allow_right a b h = ground arith

same_line_refl : (l : Option Text) → same_line l l ≡ true
same_line_refl none = refl
same_line_refl (some t) = text_eq_refl t

both : (a b : Bool) → a ≡ true → b ≡ true → (a && b) ≡ true
both a b h k = ground arith

allowed_original : (o : Overrides) → overrides_allowed o o ≡ true
unfolding overrides_allowed
allowed_original o =
    let is = λ (d : Dll).
      allow_left (same_line (get d o) (get d o)) (same_line (get d o) (get d installed_values))
        (same_line_refl (get d o)) in
    both _ _ (is d3d8)
      (both _ _ (is d3d9) (both _ _ (is d3d10core) (both _ _ (is d3d11) (both _ _ (is dxgi) refl))))

allowed_installed : (o : Overrides) → overrides_allowed o installed_values ≡ true
unfolding overrides_allowed
allowed_installed o =
    let is = λ (d : Dll). allow_right (same_line (get d installed_values) (get d o)) true refl in
    both _ _ (is d3d8)
      (both _ _ (is d3d9) (both _ _ (is d3d10core) (both _ _ (is d3d11) (both _ _ (is dxgi) refl))))

module _ (sha : Text → Digest) (nodes0 : FilePath → Node) (before : Text) (base : Receipt) where
  current_allowed :
      (n : FilePath → Node) (e : Entry)
      → WasThere sha nodes0 before base e
      → IsMixed sha nodes0 before base n e
      → (now : Option Identity) × (identity sha (n e.target) ≡ ok now)
        × ((same_identity now e.original || same_identity now (some (content e.installed_sha256)))
            ≡ true)
  current_allowed n e was (inl same) =
      (e.original, ap (identity sha) same ∙ was, allow_left _ _ (same_identity_refl e.original))
  current_allowed n e was (inr new) = (
    some (content e.installed_sha256),
    new,
    allow_right _ _ (same_identity_refl (some (content e.installed_sha256))),
  )

  kept_copy :
      (e : Entry) (saved payload : Node) (o : Option Identity)
      → e.original ≡ o
      → WasThere sha nodes0 before base e
      → IsSaved sha nodes0 before base e saved payload
      → (kept : Option Identity) × ((d : Disk)
          → (if is_none o then pure none else lift (identity sha saved)) d ≡ (ok kept, d))
        × ((is_none o || same_identity kept o) ≡ true)
  kept_copy e saved payload none is was has = (none, λ d. refl, refl)
  kept_copy e saved payload (some x) is was has = elim has.kept [
    | inl gone ↦ absurd cc
    | inr same ↦ (
      some x,
      λ d. ap (λ (y : Result (Option Identity)). (y, d)) (ap (identity sha) same ∙ was ∙ ap ok is),
      same_identity_refl (some x),
    )
  ]

  abbrev with_backup : Backup → Disk → Disk
  with_backup b d = record d { backup = some b }

  check_files-known :
      (b : Backup) (d : Disk) (i : ℕ) (es : List Entry)
      → AllOf (WasThere sha nodes0 before base) es
      → AllOf (IsMixed sha nodes0 before base d.nodes) es
      → Whole sha nodes0 before base i es b
      → check_files sha i es (with_backup b d) ≡ (ok tt, with_backup b d)
  unfolding check_files
  check_files-known b d i [] was mixed has = refl
  check_files-known b d i (e ∷ es) was mixed has =
      let (now, found, allowed) = current_allowed d.nodes e was.0 mixed.0 in
      let (kept, copied, matched) =
        kept_copy e (b.originals i) (b.payloads i) e.original refl was.0 has.0 in
      let c = copied (with_backup b d) in
      let rest = check_files-known b d (i + 1) es was.1 mixed.1 has.1 in
      rw (found, allowed, c, matched) rest

  -- What is read of the registry: the overrides from before, or the installed ones.
  registry_read :
      (t : Tree)
      → Plan sha nodes0 before base t
      → (g : Node) → RegistryOk sha nodes0 before base g
      → (text : Text) × (now : Overrides) × (g ≡ file text)
        × (registry_values text ≡ values now)
        × (overrides_allowed base.overrides_original now ≡ true)
  registry_read t plan g (inl same) = (
    before,
    base.overrides_original,
    same,
    plan.overrides,
    allowed_original base.overrides_original,
  )
  registry_read t plan g (inr same) = (
    after sha nodes0 before base,
    installed_values,
    same,
    plan.read_back,
    allowed_installed base.overrides_original,
  )

  abbrev at_hand : Backup → Text → Disk → Disk
  at_hand b text d = record d { registry = file text; backup = some b }

  checks_pass :
      (t : Tree)
      → Plan sha nodes0 before base t
      → (b : Backup) (s : State) (d : Disk) (text : Text) (now : Overrides)
      → At (LateWith sha nodes0 before base b) d
      → registry_values text ≡ values now
      → overrides_allowed base.overrides_original now ≡ true
      → check_untouched sha (with_state s base) (at_hand b text d) ≡ (ok text, at_hand b text d)
  unfolding check_untouched
  checks_pass t plan b s d text now h parsed allowed =
      let first =
        check_files-known b (at_hand b text d) 0 base.files plan.originals h.mixed h.whole in
      let copied : identity sha b.registry ≡ ok base.registry_original =
        ap (identity sha) h.copy ∙ unfold identity in ap ok (sym plan.registry_original) in
      rw (first, parsed, allowed, copied, same_identity_refl base.registry_original) refl

  pub check_untouched-known :
      (t : Tree)
      → Plan sha nodes0 before base t
      → (b : Backup) (s : State) (d : Disk) → At (LateWith sha nodes0 before base b) d
      → (text : Text) × Gives (check_untouched sha (with_state s base)) d text
        × (d.registry ≡ file text)
  check_untouched-known t plan b s d h =
      let (text, now, read, parsed, allowed) = registry_read t plan d.registry h.registry in
      let there : d ≡ at_hand b text d = λ i. record d { registry = read i; backup = h.backup i } in
      (
        text,
        record {
          result =
              subst (λ (x : Disk). check_untouched sha (with_state s base) x ≡ (ok text, x))
                (sym there) (checks_pass t plan b s d text now h parsed allowed);
        },
        read,
      )
