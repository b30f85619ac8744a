-- ===== src/Investigate/Profile/Completing.antt =====
-- The last steps of `restore` of ProfileTransaction of runtime/kosmickrisp/investigate.py: the checks,
-- the DLLs and the journal.
use mathlib.Core.Path.{subst}
use winecx_gptk.Common.{
  Bool, true, false, not, ◌||◌, Option, none, some, is_some, List, [], ◌∷◌, AllOf, ◌≡◌, refl, ap,
  sym, ◌∙◌, arith, if◌then◌else◌, inl, inr, Option-cases,
}
use winecx_gptk.Common.Text.{Text, codes, text_eq, text_eq_refl}
use winecx_gptk.Investigate.Profile.Disk.{
  Name, d3d11, dxgi, same_name, DllEntry, Journal, Disk, reads, write, whole, put_dll, put_journal,
}
use winecx_gptk.Investigate.Profile.Saves.{os_error}
use winecx_gptk.Investigate.Profile.Transaction.{
  has_digest, digest_or_empty, sha_of, hash_of, install_file, same_content,
}
use winecx_gptk.Investigate.Profile.Restore.{
  restore_dlls, check_restored, restore_from, restore_existing,
}
use winecx_gptk.Investigate.Profile.Triples.{
  Spec, Spec-then, Spec-skip, Spec-require, Spec-reads, Spec-write, Spec-weaken,
}
use winecx_gptk.Investigate.Profile.Original.{
  Original, Kept, listed, EntryOf, Describes, Others, Backed, ended, Over, Settled,
}
use winecx_gptk.Investigate.Profile.Restoring.{
  head_listed, later_listed, rebacked, check_backups-Spec, Named, restore_config-Spec,
  restore_saves-Spec, restore_appid-Spec,
}

same_name-eq : (n m : Name) → same_name n m ≡ true → n ≡ m
same_name-eq d3d11 d3d11 h = refl
same_name-eq d3d11 dxgi h = absurd cc
same_name-eq dxgi d3d11 h = absurd cc
same_name-eq dxgi dxgi h = refl

same_content-Kept :
    (sha : Text → Text) (original now backup : Option Text)
    → now ≡ original
    → Kept original backup
    → (not (is_some original) || same_content sha now backup) ≡ true
same_content-Kept sha none now backup e k = refl
same_content-Kept sha (some t) now backup e k =
    ap (λ x. same_content sha x backup) e
    ∙ (ap (same_content sha (some t)) k ∙ text_eq_refl (sha t))

put_original :
    (n m : Name) (t now : Option Text) (dll : Name → Option Text)
    → t ≡ dll m
    → (same_name n m ≡ false → now ≡ dll n)
    → (if same_name n m then t else now) ≡ dll n
put_original d3d11 d3d11 t now dll e h = e
put_original d3d11 dxgi t now dll e h = h refl
put_original dxgi d3d11 t now dll e h = h refl
put_original dxgi dxgi t now dll e h = e

if_same : (n : Name) (t now : Option Text) → (if same_name n n then t else now) ≡ t
if_same d3d11 t now = refl
if_same dxgi t now = refl

pub both_false : {a b : Bool} → a ≡ false → b ≡ false → (a || b) ≡ false
both_false h k = ground arith

digest_of_entry :
    {S : Type 0} (sha : Text → Text) (o : Original S) (e : DllEntry) (t : Text) (now : Option Text)
    → EntryOf sha o e
    → o.dll e.name ≡ some t
    → now ≡ some t
    → has_digest sha (digest_or_empty e.sha256) now ≡ true
digest_of_entry sha o e t now h k q =
    ap (λ x. has_digest sha (digest_or_empty x) now) (h.1 ∙ ap (sha_of sha) k)
    ∙ (ap (has_digest sha (sha t)) q ∙ text_eq_refl (sha t))

module _ {S : Type 0} {sha : Text → Text} {inventory_hash : S → Text} {o : Original S} {j : Journal}
    (describes : Describes sha inventory_hash o j) (calm : Bool) where
  check_restored-Spec :
      Spec calm
        (Named describes calm)
        (check_restored sha inventory_hash j)
        (Named describes calm)
        (Settled o j)
  check_restored-Spec =
      Spec-then
        (Spec-require (λ d. text_eq (hash_of inventory_hash d.saves) j.save_hash) _
          (λ d b.
            ap (λ x. text_eq (hash_of inventory_hash x) j.save_hash) (b.0).1
            ∙ (ap (text_eq (inventory_hash o.saves)) describes.save_hash
                ∙ text_eq_refl (inventory_hash o.saves))))
        (Spec-then
          (Spec-require (λ d. same_content sha d.config d.backup.config) _
            (λ d b.
              ap (λ x. same_content sha x d.backup.config) ((b.0).0).1
              ∙ (ap (same_content sha (some o.config)) (((b.0).0).0).config
                  ∙ text_eq_refl (sha o.config))))
          (Spec-require (λ d. not j.appid_existed || same_content sha d.appid d.backup.appid) _
            (λ d b.
              ap (λ x. not x || same_content sha d.appid d.backup.appid) describes.appid_existed
              ∙ same_content-Kept sha o.appid d.appid d.backup.appid b.1 (((b.0).0).0).appid)))

  -- The DLLs that are still to be put back are in a list.
  abbrev Remaining : List DllEntry → Disk S → Type 0
  Remaining es d = Named describes calm d × Others o es d

  put_dll-Named :
      (m : Name) (t : Option Text) (x : Disk S)
      → t ≡ o.dll m
      → Named describes calm x
      → Named describes calm (put_dll m t x)
  put_dll-Named m t x e k = (
    (
      (
        rebacked describes calm x (put_dll m t x) ((k.0).0).0 refl refl
            (λ n h. put_original n m t (x.dll n) o.dll e (λ q. (((k.0).0).0).others n h)),
        ((k.0).0).1,
      ),
      (k.0).1,
    ),
    k.1,
  )

  put_dll-Remaining :
      (e : DllEntry) (es : List DllEntry) (t : Option Text) (x : Disk S)
      → t ≡ o.dll e.name
      → Remaining (e ∷ es) x
      → Remaining es (put_dll e.name t x)
  put_dll-Remaining e es t x h k = (
    put_dll-Named e.name t x h k.0,
    λ n q. put_original n e.name t (x.dll n) o.dll h (λ r. k.1 n (both_false r q)),
  )

  settled : (es : List DllEntry) (x : Disk S) → Remaining es x → Settled o j x
  settled es x k = inl ((((k.0).0).0).0)

  -- The DLL of the entry is back too.
  abbrev Put : DllEntry → List DllEntry → Disk S → Type 0
  Put e es d = Remaining es d × (d.dll e.name ≡ o.dll e.name)

  put_dll-Spec :
      (e : DllEntry) (es : List DllEntry) (t : Option Text)
      → t ≡ o.dll e.name
      → Spec calm
          (Remaining (e ∷ es))
          (write (put_dll e.name t) whole os_error)
          (Put e es)
          (Settled o j)
  put_dll-Spec e es t h =
      Spec-write (put_dll e.name t) whole os_error (λ fs x. refl) (λ u s fs x. refl)
        (λ x k. (put_dll-Remaining e es t x h k, if_same e.name t (x.dll e.name) ∙ h))
        (λ x k. settled (e ∷ es) x k) (λ x k. settled es x k.0) (λ u s x k. settled (e ∷ es) x k)

  install_file-Spec :
      (e : DllEntry) (es : List DllEntry) (source : Option Text) (t : Text)
      → source ≡ some t
      → some t ≡ o.dll e.name
      → Spec calm
          (Remaining (e ∷ es))
          (install_file sha inventory_hash source e.name)
          (Put e es)
          (Settled o j)
  install_file-Spec e es source t h k =
      subst
        (λ x.
          Spec calm (Remaining (e ∷ es)) (install_file sha inventory_hash x e.name) (Put e es)
            (Settled o j))
        (sym h)
        (Spec-then
          (Spec-write (λ d. d) whole os_error (λ fs x. refl) (λ u s fs x. refl) (λ x k. k)
            (λ x k. settled (e ∷ es) x k) (λ x k. settled (e ∷ es) x k)
            (λ u s x k. settled (e ∷ es) x k))
          (put_dll-Spec e es (some t) k))

  restore_dll-Spec :
      (existed : Bool) (e : DllEntry) (es : List DllEntry)
      → existed ≡ is_some (o.dll e.name)
      → EntryOf sha o e
      → listed e.name j.dlls ≡ true
      → Spec calm
          (Remaining (e ∷ es))
          (reads (λ d.
            if existed
            then restore_existing sha inventory_hash e d
            else write (put_dll e.name none) whole os_error))
          (Remaining es)
          (Settled o j)
  restore_dll-Spec false e es h entry there = elim (Option-cases (o.dll e.name)) [
    | inl k ↦ Spec-weaken (λ x p. p) (put_dll-Spec e es none (sym k)) (λ x p. p.0) (λ x p. p)
    | inr (t, k) ↦ absurd (ground arith)
  ]
  restore_dll-Spec true e es h entry there = elim (Option-cases (o.dll e.name)) [
    | inl k ↦ absurd (ground arith)
    | inr (t, k) ↦ Spec-reads (restore_existing sha inventory_hash e) (λ d b.
        let backup : d.backup.dll e.name ≡ some t =
          subst (λ x. Kept x (d.backup.dll e.name)) k (((((b.0).0).0).0).dll e.name there) in
        Spec-weaken (λ x p. p.0)
          (Spec-then (install_file-Spec e es (d.backup.dll e.name) t backup (sym k)) (
            Spec-require (λ d'. has_digest sha (digest_or_empty e.sha256) (d'.dll e.name))
              (codes "dll_restoration_failed")
              (λ d' p. digest_of_entry sha o e t (d'.dll e.name) entry k (p.1 ∙ k))))
          (λ x p. p.0) (λ x p. p))
  ]

  restore_dlls-Spec :
      (es : List DllEntry)
      → AllOf (EntryOf sha o) es
      → ((n : Name) → listed n es ≡ true → listed n j.dlls ≡ true)
      → Spec calm (Remaining es) (restore_dlls sha inventory_hash es) (Remaining []) (Settled o j)
  unfolding restore_dlls
  restore_dlls-Spec [] h sub = Spec-skip
  restore_dlls-Spec (e ∷ es) h sub =
      Spec-then (restore_dll-Spec e.existed e es (h.0).0 h.0 (sub e.name (head_listed e es)))
        (restore_dlls-Spec es h.1 (λ n k. sub n (later_listed n e es k)))

  close-Spec :
      Spec calm
        (Remaining [])
        (write (put_journal (ended j)) whole os_error)
        (Over o j)
        (Settled o j)
  close-Spec =
      Spec-write (put_journal (ended j)) whole os_error (λ fs x. refl) (λ u s fs x. refl)
        (λ x k. record {
          journal = refl;
          rest = record {
            config = (((k.0).0).0).1;
            saves = ((k.0).0).1;
            appid = (k.0).1;
            dll = λ n. k.1 n refl;
          };
        })
        (λ x k. settled [] x k) (λ x k. inr k) (λ u s x k. settled [] x k)

  -- From a complete backup, the original is put back; where a write fails, the backup is still there.
  pub restore_from-Spec :
      Spec calm (Backed o j) (restore_from sha inventory_hash j) (Over o j) (Settled o j)
  unfolding restore_from
  restore_from-Spec =
      Spec-then (check_backups-Spec describes calm j.dlls describes.dlls (λ n k. k)) (
        Spec-then
          (Spec-require (λ d. text_eq (hash_of inventory_hash d.backup.saves) j.save_hash) _
            (λ d b.
              ap (λ x. text_eq (hash_of inventory_hash x) j.save_hash) b.saves
              ∙ (ap (text_eq (inventory_hash o.saves)) describes.save_hash
                  ∙ text_eq_refl (inventory_hash o.saves))))
          (Spec-then (restore_config-Spec describes calm) (
            Spec-then (restore_saves-Spec describes calm) (
              Spec-then (restore_appid-Spec describes calm j.appid_existed describes.appid_existed)
                (Spec-then check_restored-Spec (
                  Spec-then
                    (Spec-weaken (λ x k. (k, ((((k.0).0).0).others)))
                      (restore_dlls-Spec j.dlls describes.dlls (λ n k. k)) (λ x k. k) (λ x k. k))
                    close-Spec))))))
