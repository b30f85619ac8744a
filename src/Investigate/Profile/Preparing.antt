-- ===== src/Investigate/Profile/Preparing.antt =====
-- `prepare` of ProfileTransaction of runtime/kosmickrisp/investigate.py, stopped anywhere: it has changed
-- nothing, or a complete backup is there with the journal that describes it.
use mathlib.Core.Path.{subst}
use winecx_gptk.Common.{
  Bool, false, ◌&&◌, Option, none, some, is_some, List, [], ◌∷◌, AllOf, ◌≡◌, refl, ap, sym, ◌∙◌,
  inl, inr, ◌⊎◌, Option-cases,
}
use winecx_gptk.Common.Text.{Text}
use winecx_gptk.Investigate.Profile.Disk.{Backup, in_backup, Name, Journal, Disk, reads, quiet}
use winecx_gptk.Investigate.Profile.Saves.{os_error}
use winecx_gptk.Investigate.Profile.Transaction.{
  Source, Setup, check_sources, entries_of, back_up_file, back_up_saves, back_up_appid, has_digest,
  digest_or_empty, sha_of, copy,
}
use winecx_gptk.Investigate.Profile.Triples.{
  Spec, Spec-then, Spec-skip, Spec-reads, Spec-write, Spec-weaken, Spec-may,
}
use winecx_gptk.Investigate.Profile.Original.{Original, Kept, AtRest, EntryOf, Describes, Backed}

module _ {S : Type 0} (sha : Text → Text) (inventory_hash : S → Text) (o : Original S)
    (p : Setup) where
  -- Nothing has been changed.
  pub record Idle (d : Disk S) : Type 0 where
    pub journal : d.journal ≡ none
    pub rest : AtRest o d

  -- A transaction for this plan is under way.
  pub record Active (d : Disk S) : Type 0 where
    pub entries : Journal
    pub describes : Describes sha inventory_hash o entries
    pub profile : entries.profile ≡ p.profile
    pub appid : entries.appid ≡ p.appid
    pub backed : Backed o entries d

  abbrev pub Started : Disk S → Type 0
  Started d = Idle d ⊎ Active d

  pub Idle-backup :
      (d : Disk S) (h : Bool) (b : Backup S)
      → Idle d
      → Idle (record d { has_backup = h; backup = b })
  Idle-backup d h b i = record {
    journal = i.journal;
    rest = record {
      config = (i.rest).config;
      saves = (i.rest).saves;
      appid = (i.rest).appid;
      dll = (i.rest).dll;
    };
  }

  pub check_sources-Spec :
      (ss : List Source) → Spec false Idle (check_sources sha inventory_hash ss) Idle Started
  unfolding check_sources
  check_sources-Spec [] = Spec-skip
  check_sources-Spec (s ∷ ss) =
      Spec-then
        (Spec-then
          (Spec-may
            (λ d. is_some s.expected && has_digest sha (digest_or_empty s.expected) s.content) _
            (λ x k. inl k))
          (Spec-may (λ d. s.target_ok) _ (λ x k. inl k)))
        (check_sources-Spec ss)

  pub entries_of-EntryOf :
      (dll : Name → Option Text) (ss : List Source)
      → ((n : Name) → dll n ≡ o.dll n)
      → AllOf (EntryOf sha o) (entries_of sha inventory_hash dll ss)
  unfolding entries_of
  entries_of-EntryOf dll [] h = tt
  entries_of-EntryOf dll (s ∷ ss) h =
      ((ap is_some (h s.name), ap (sha_of sha) (h s.name)), entries_of-EntryOf dll ss h)

  -- The copies of the settings, the saves and steam_appid.txt.
  abbrev pub WithConfig : Disk S → Type 0
  WithConfig d = Idle d × (d.backup.config ≡ some o.config)

  abbrev pub WithSaves : Disk S → Type 0
  WithSaves d = WithConfig d × (d.backup.saves ≡ some o.saves)

  abbrev pub WithAppid : Disk S → Type 0
  WithAppid d = WithSaves d × Kept o.appid d.backup.appid

  pub back_up_config-Spec :
      Spec false Idle
        (reads (λ d.
          copy d.config (back_up_file sha inventory_hash (λ t b. record b { config = some t }))))
        WithConfig
        Started
  back_up_config-Spec = Spec-reads _ (λ d i.
      subst
        (λ x.
          Spec false (λ d'. Idle d' × (quiet [] d' ≡ quiet [] d))
            (copy x (back_up_file sha inventory_hash (λ t b. record b { config = some t })))
            WithConfig Started)
        (sym (i.rest).config)
        (Spec-write (in_backup (λ b. record b { config = some o.config })) _ os_error (λ fs x. refl)
          (λ t s fs x. refl)
          (λ x k.
            (Idle-backup x x.has_backup (record x.backup { config = some o.config }) k.0, refl))
          (λ x k. inl k.0) (λ x k. inl k.0)
          (λ t s x k. inl (Idle-backup x x.has_backup (record x.backup { config = some t }) k.0))))

  pub back_up_saves-Spec :
      Spec false WithConfig
        (reads (λ d. back_up_saves sha inventory_hash d.saves))
        WithSaves
        Started
  back_up_saves-Spec = Spec-reads _ (λ d i.
      subst
        (λ x.
          Spec false (λ d'. WithConfig d' × (quiet [] d' ≡ quiet [] d))
            (back_up_saves sha inventory_hash x) WithSaves Started)
        (sym ((i.0).rest).saves)
        (Spec-write (in_backup (λ b. record b { saves = some o.saves })) _ os_error (λ fs x. refl)
          (λ t s fs x. refl)
          (λ x k. (
            (
              Idle-backup x x.has_backup (record x.backup { saves = some o.saves }) (k.0).0,
              (k.0).1,
            ),
            refl,
          ))
          (λ x k. inl (k.0).0) (λ x k. inl (k.0).0)
          (λ t s x k.
            inl (Idle-backup x x.has_backup (record x.backup { saves = some s }) (k.0).0))))

  WithAppid-at :
      (t : Text) (x : Disk S)
      → o.appid ≡ some t
      → WithSaves x
      → WithAppid (in_backup (λ b. record b { appid = some t }) x)
  WithAppid-at t x e k = (
    ((Idle-backup x x.has_backup (record x.backup { appid = some t }) (k.0).0, (k.0).1), k.1),
    subst (λ y. Kept y (some t)) (sym e) refl,
  )

  pub back_up_appid-Spec :
      Spec false WithSaves (reads (λ d. back_up_appid sha inventory_hash d.appid)) WithAppid Started
  back_up_appid-Spec = elim (Option-cases o.appid) [
    | inl k ↦ Spec-reads _ (λ d i.
        subst
          (λ x.
            Spec false (λ d'. WithSaves d' × (quiet [] d' ≡ quiet [] d))
              (back_up_appid sha inventory_hash x) WithAppid Started)
          (sym ((((i.0).0).rest).appid ∙ k))
          (Spec-weaken {P = λ d'. WithSaves d' × (quiet [] d' ≡ quiet [] d)} {E = Started}
            (λ x h. h) Spec-skip (λ x h. (h.0, subst (λ y. Kept y x.backup.appid) (sym k) tt))
            (λ x h. h)))
    | inr (t, k) ↦ Spec-reads _ (λ d i.
        subst
          (λ x.
            Spec false (λ d'. WithSaves d' × (quiet [] d' ≡ quiet [] d))
              (back_up_appid sha inventory_hash x) WithAppid Started)
          (sym ((((i.0).0).rest).appid ∙ k))
          (Spec-write (in_backup (λ b. record b { appid = some t })) _ os_error (λ fs x. refl)
            (λ u s fs x. refl) (λ x h. WithAppid-at t x k h.0) (λ x h. inl ((h.0).0).0)
            (λ x h. inl ((h.0).0).0)
            (λ u s x h.
              inl (Idle-backup x x.has_backup (record x.backup { appid = some u }) ((h.0).0).0))))
  ]
