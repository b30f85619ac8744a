-- ===== src/Investigate/Profile/Restoring.antt =====
-- `restore` of ProfileTransaction of runtime/kosmickrisp/investigate.py puts the original back, and can
-- be stopped and repeated.
use mathlib.Core.Path.{subst}
use winecx_gptk.Common.{
  Bool, true, false, not, ◌||◌, Option, none, some, is_some, List, [], ◌∷◌, AllOf, ◌≡◌, refl, ap,
  sym, ◌∙◌, arith, inl, inr, Option-cases,
}
use winecx_gptk.Common.Text.{Text, text_eq_refl}
use winecx_gptk.Investigate.Profile.Disk.{
  Name, d3d11, dxgi, same_name, DllEntry, Journal, Disk, reads, write, whole, put_config,
  tear_config, put_appid, tear_appid, quiet,
}
use winecx_gptk.Investigate.Profile.Saves.{os_error, replace_save}
use winecx_gptk.Investigate.Profile.Transaction.{has_digest, digest_or_empty, sha_of, copy}
use winecx_gptk.Investigate.Profile.Restore.{check_backups, restore_appid}
use winecx_gptk.Investigate.Profile.Triples.{
  Spec, Spec-then, Spec-skip, Spec-require, Spec-reads, Spec-write, Spec-weaken,
}
use winecx_gptk.Investigate.Profile.Replacing.{Frame, with_saves, replace_save-Spec}
use winecx_gptk.Investigate.Profile.Original.{
  Original, Kept, listed, EntryOf, Describes, Others, Backed, Settled,
}

pub same_name_refl : (n : Name) → same_name n n ≡ true
same_name_refl d3d11 = refl
same_name_refl dxgi = refl

pub head_listed : (e : DllEntry) (es : List DllEntry) → listed e.name (e ∷ es) ≡ true
head_listed e es = ground (arith, same_name_refl e.name)

pub later_listed :
    (n : Name) (e : DllEntry) (es : List DllEntry) → listed n es ≡ true → listed n (e ∷ es) ≡ true
later_listed n e es h = ground arith

pub has_digest-Kept :
    (sha : Text → Text) (original backup : Option Text)
    → Kept original backup
    → (not (is_some original) || has_digest sha (digest_or_empty (sha_of sha original)) backup)
      ≡ true
has_digest-Kept sha none backup k = refl
has_digest-Kept sha (some t) backup k = ap (has_digest sha (sha t)) k ∙ text_eq_refl (sha t)

module _ {S : Type 0} {sha : Text → Text} {inventory_hash : S → Text} {o : Original S} {j : Journal}
    (describes : Describes sha inventory_hash o j) (calm : Bool) where
  -- The backup of an entry has the entry's digest.
  entry-has_digest :
      (e : DllEntry) (d : Disk S)
      → EntryOf sha o e
      → Kept (o.dll e.name) (d.backup.dll e.name)
      → (not e.existed || has_digest sha (digest_or_empty e.sha256) (d.backup.dll e.name)) ≡ true
  entry-has_digest e d h k =
      ap (λ b. not b || has_digest sha (digest_or_empty e.sha256) (d.backup.dll e.name)) h.0
      ∙ (ap
            (λ x.
              not (is_some (o.dll e.name))
              || has_digest sha (digest_or_empty x) (d.backup.dll e.name))
            h.1
          ∙ has_digest-Kept sha (o.dll e.name) (d.backup.dll e.name) k)

  pub check_backups-Spec :
      (es : List DllEntry)
      → AllOf (EntryOf sha o) es
      → ((n : Name) → listed n es ≡ true → listed n j.dlls ≡ true)
      → Spec calm (Backed o j) (check_backups sha inventory_hash es) (Backed o j) (Settled o j)
  unfolding check_backups
  check_backups-Spec [] h sub = Spec-skip
  check_backups-Spec (e ∷ es) h sub =
      Spec-then
        (Spec-require
          (λ d. not e.existed || has_digest sha (digest_or_empty e.sha256) (d.backup.dll e.name)) _
          (λ d b. entry-has_digest e d h.0 (b.dll e.name (sub e.name (head_listed e es)))))
        (check_backups-Spec es h.1 (λ n k. sub n (later_listed n e es k)))

  pub rebacked :
      (d d' : Disk S)
      → Backed o j d
      → d'.journal ≡ d.journal
      → d'.backup ≡ d.backup
      → Others o j.dlls d'
      → Backed o j d'
  rebacked d d' b e f g = record {
    journal = e ∙ b.journal;
    config = ap (λ x. x.config) f ∙ b.config;
    saves = ap (λ x. x.saves) f ∙ b.saves;
    appid = subst (λ x. Kept o.appid x.appid) (sym f) b.appid;
    dll = subst (λ x. (n : Name) → listed n j.dlls ≡ true → Kept (o.dll n) (x.dll n)) (sym f) b.dll;
    others = g;
  }

  -- The settings, the saves and steam_appid.txt are back, one after the other.
  abbrev pub Configured : Disk S → Type 0
  Configured d = Backed o j d × (d.config ≡ some o.config)

  abbrev pub Saved : Disk S → Type 0
  Saved d = Configured d × (d.saves ≡ some o.saves)

  abbrev pub Named : Disk S → Type 0
  Named d = Saved d × (d.appid ≡ o.appid)

  pub restore_config-Spec :
      Spec calm
        (Backed o j)
        (reads (λ d. copy d.backup.config (λ t. write (put_config t) tear_config os_error)))
        Configured
        (Settled o j)
  restore_config-Spec = Spec-reads _ (λ d b.
      subst
        (λ x.
          Spec calm (λ d'. Backed o j d' × (quiet [] d' ≡ quiet [] d))
            (copy x (λ t. write (put_config t) tear_config os_error)) Configured (Settled o j))
        (sym b.config)
        (Spec-write (put_config o.config) tear_config os_error (λ fs x. refl) (λ t s fs x. refl)
          (λ x k. (rebacked x (put_config o.config x) k.0 refl refl (k.0).others, refl))
          (λ x k. inl k.0) (λ x k. inl k.0)
          (λ t s x k. inl (rebacked x (put_config t x) k.0 refl refl (k.0).others))))

  Configured-Frame : Frame Configured
  Configured-Frame = record {
    keep =
        λ sv hs st pv x k. (rebacked x (with_saves sv hs st pv x) k.0 refl refl (k.0).others, k.1);
  }

  pub restore_saves-Spec :
      Spec calm Configured (reads (λ d. replace_save d.backup.saves)) Saved (Settled o j)
  restore_saves-Spec = Spec-reads _ (λ d b.
      subst
        (λ x.
          Spec calm (λ d'. Configured d' × (quiet [] d' ≡ quiet [] d)) (replace_save x) Saved
            (Settled o j))
        (sym (b.0).saves)
        (Spec-weaken (λ x k. k.0) (replace_save-Spec Configured-Frame o.saves calm) (λ x k. k)
          (λ x k. inl k.0)))

  Named-at : (t : Option Text) (x : Disk S) → Saved x → t ≡ o.appid → Named (put_appid t x)
  Named-at t x k e =
      (((rebacked x (put_appid t x) (k.0).0 refl refl ((k.0).0).others, (k.0).1), k.1), e)

  put_appid-Spec :
      (t : Option Text)
      → t ≡ o.appid
      → Spec calm Saved (write (put_appid t) tear_appid os_error) Named (Settled o j)
  put_appid-Spec t e =
      Spec-write (put_appid t) tear_appid os_error (λ fs x. refl) (λ u s fs x. refl)
        (λ x k. Named-at t x k e) (λ x k. inl (k.0).0) (λ x k. inl ((k.0).0).0)
        (λ u s x k. inl (rebacked x (put_appid (some u) x) (k.0).0 refl refl ((k.0).0).others))

  pub restore_appid-Spec :
      (existed : Bool)
      → existed ≡ is_some o.appid
      → Spec calm Saved (restore_appid sha inventory_hash existed) Named (Settled o j)
  restore_appid-Spec false e = elim (Option-cases o.appid) [
    | inl none_there ↦
        Spec-write (put_appid none) whole os_error (λ fs x. refl) (λ u s fs x. refl)
          (λ x k. Named-at none x k (sym none_there)) (λ x k. inl (k.0).0) (λ x k. inl ((k.0).0).0)
          (λ u s x k. inl (k.0).0)
    | inr (t, there) ↦ absurd (ground arith)
  ]
  restore_appid-Spec true e = elim (Option-cases o.appid) [
    | inl none_there ↦ absurd (ground arith)
    | inr (t, there) ↦ Spec-reads _ (λ d b.
        subst
          (λ x.
            Spec calm (λ d'. Saved d' × (quiet [] d' ≡ quiet [] d))
              (copy x (λ u. write (put_appid (some u)) tear_appid os_error)) Named (Settled o j))
          (sym (subst (λ x. Kept x d.backup.appid) there ((b.0).0).appid))
          (Spec-weaken (λ x k. k.0) (put_appid-Spec (some t) (sym there)) (λ x k. k) (λ x k. k)))
  ]
