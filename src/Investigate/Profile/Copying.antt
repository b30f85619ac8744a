-- ===== src/Investigate/Profile/Copying.antt =====
-- The backup of the DLLs in `prepare` of ProfileTransaction of runtime/kosmickrisp/investigate.py, and
-- the whole backup.
use mathlib.Core.Path.{subst}
use winecx_gptk.Common.{
  Bool, true, false, not, Option, none, some, is_some, List, [], ◌∷◌, AllOf, ◌≡◌, refl, sym, ◌∙◌,
  arith, if◌then◌else◌, inl, inr, Option-cases,
}
use winecx_gptk.Common.Text.{Text}
use winecx_gptk.Investigate.Profile.Disk.{
  in_backup, keep_dll, Name, d3d11, dxgi, same_name, DllEntry, Disk, reads, whole, quiet,
}
use winecx_gptk.Investigate.Profile.Saves.{os_error}
use winecx_gptk.Investigate.Profile.Transaction.{
  Setup, back_up_file, back_up_dll, back_up_dlls, make_backup, back_up, copy,
}
use winecx_gptk.Investigate.Profile.Triples.{
  Spec, Spec-then, Spec-skip, Spec-reads, Spec-write, Spec-weaken, Spec-may,
}
use winecx_gptk.Investigate.Profile.Original.{Original, Kept, listed, EntryOf}
use winecx_gptk.Investigate.Profile.Completing.{both_false}
use winecx_gptk.Investigate.Profile.Preparing.{
  Idle, Started, Idle-backup, WithAppid, back_up_config-Spec, back_up_saves-Spec,
  back_up_appid-Spec,
}

Kept-put :
    (n m : Name) (t : Text) (now : Option Text) (dll : Name → Option Text)
    → dll m ≡ some t
    → (same_name n m ≡ false → Kept (dll n) now)
    → Kept (dll n) (if same_name n m then some t else now)
Kept-put d3d11 d3d11 t now dll e h = subst (λ x. Kept x (some t)) (sym e) refl
Kept-put d3d11 dxgi t now dll e h = h refl
Kept-put dxgi d3d11 t now dll e h = h refl
Kept-put dxgi dxgi t now dll e h = subst (λ x. Kept x (some t)) (sym e) refl

Kept-missing :
    (n m : Name) (now : Option Text) (dll : Name → Option Text)
    → dll m ≡ none
    → (same_name n m ≡ false → Kept (dll n) now)
    → Kept (dll n) now
Kept-missing d3d11 d3d11 now dll e h = subst (λ x. Kept x now) (sym e) tt
Kept-missing d3d11 dxgi now dll e h = h refl
Kept-missing dxgi d3d11 now dll e h = h refl
Kept-missing dxgi dxgi now dll e h = subst (λ x. Kept x now) (sym e) tt

module _ {S : Type 0} (sha : Text → Text) (inventory_hash : S → Text) (o : Original S)
    (p : Setup) where
  -- The DLLs of the list have their backup, but for those that are still to come.
  abbrev pub WithDlls : (all later : List DllEntry) → Disk S → Type 0
  WithDlls all later d =
      WithAppid sha inventory_hash o p d
      × ((n : Name)
          → listed n all ≡ true
          → listed n later ≡ false
          → Kept (o.dll n) (d.backup.dll n))

  keep_dll-WithDlls :
      (all later : List DllEntry) (e : DllEntry) (t : Text) (x : Disk S)
      → o.dll e.name ≡ some t
      → WithDlls all (e ∷ later) x
      → WithDlls all later (in_backup (keep_dll e.name (some t)) x)
  keep_dll-WithDlls all later e t x h k = (
    (
      (
        (
          Idle-backup sha inventory_hash o p x x.has_backup (keep_dll e.name (some t) x.backup)
              (((k.0).0).0).0,
          (((k.0).0).0).1,
        ),
        ((k.0).0).1,
      ),
      (k.0).1,
    ),
    λ n there later'.
        Kept-put n e.name t (x.backup.dll n) o.dll h (λ q. k.1 n there (both_false q later')),
  )

  missing-WithDlls :
      (all later : List DllEntry) (e : DllEntry) (x : Disk S)
      → o.dll e.name ≡ none
      → WithDlls all (e ∷ later) x
      → WithDlls all later x
  missing-WithDlls all later e x h k = (
    k.0,
    λ n there later'.
        Kept-missing n e.name (x.backup.dll n) o.dll h (λ q. k.1 n there (both_false q later')),
  )

  back_up_dll-Spec :
      (existed : Bool) (all later : List DllEntry) (e : DllEntry)
      → existed ≡ is_some (o.dll e.name)
      → Spec false
          (WithDlls all (e ∷ later))
          (reads (back_up_dll sha inventory_hash existed e))
          (WithDlls all later)
          (Started sha inventory_hash o p)
  back_up_dll-Spec false all later e h = elim (Option-cases (o.dll e.name)) [
    | inl k ↦
        Spec-weaken {P = WithDlls all later} {E = (Started sha inventory_hash o p)}
          (λ x p. missing-WithDlls all later e x k p) Spec-skip (λ x p. p) (λ x p. p)
    | inr (t, k) ↦ absurd (ground arith)
  ]
  back_up_dll-Spec true all later e h = elim (Option-cases (o.dll e.name)) [
    | inl k ↦ absurd (ground arith)
    | inr (t, k) ↦ Spec-reads (back_up_dll sha inventory_hash true e) (λ d i.
        subst
          (λ x.
            Spec false (λ d'. WithDlls all (e ∷ later) d' × (quiet [] d' ≡ quiet [] d))
              (copy x (back_up_file sha inventory_hash (λ u. keep_dll e.name (some u))))
              (WithDlls all later) (Started sha inventory_hash o p))
          (sym (((((i.0).0).0).0).rest.dll e.name ∙ k))
          (Spec-write (in_backup (keep_dll e.name (some t))) _ os_error (λ fs x. refl)
            (λ u s fs x. refl) (λ x q. keep_dll-WithDlls all later e t x k q.0)
            (λ x q. inl (((((q.0).0).0).0).0)) (λ x q. inl ((((q.0).0).0).0))
            (λ u s x q. inl (
              Idle-backup sha inventory_hash o p x x.has_backup (keep_dll e.name (some u) x.backup)
                (((((q.0).0).0).0).0)))))
  ]

  back_up_dlls-Spec :
      (all later : List DllEntry)
      → AllOf (EntryOf sha o) later
      → Spec false
          (WithDlls all later)
          (back_up_dlls sha inventory_hash later)
          (WithDlls all [])
          (Started sha inventory_hash o p)
  unfolding back_up_dlls
  back_up_dlls-Spec all [] h = Spec-skip
  back_up_dlls-Spec all (e ∷ later) h =
      Spec-then (back_up_dll-Spec e.existed all later e (h.0).0) (back_up_dlls-Spec all later h.1)

  -- The backup is complete, and nothing else has been changed.
  pub back_up-Spec :
      (es : List DllEntry)
      → AllOf (EntryOf sha o) es
      → Spec false
          (Idle sha inventory_hash o p)
          (back_up sha inventory_hash es)
          (WithDlls es [])
          (Started sha inventory_hash o p)
  unfolding back_up
  back_up-Spec es h = Spec-then (Spec-may (λ d. not d.has_backup) os_error (λ x k. inl k)) (
      Spec-then
        (Spec-write (make_backup sha inventory_hash) whole os_error (λ fs x. refl)
          (λ t s fs x. refl)
          (λ x k.
            Idle-backup sha inventory_hash o p x true (make_backup sha inventory_hash x).backup k)
          (λ x k. inl k) (λ x k. inl k) (λ t s x k. inl k))
        (Spec-then (back_up_config-Spec sha inventory_hash o p) (
          Spec-then (back_up_saves-Spec sha inventory_hash o p) (
            Spec-then (back_up_appid-Spec sha inventory_hash o p) (
              Spec-weaken
                (λ x k.
                  (k, λ n there later. absurd (let clash : true ≡ false = sym there ∙ later in cc)))
                (back_up_dlls-Spec es es h) (λ x k. k) (λ x k. k))))))
