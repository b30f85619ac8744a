-- ===== src/Investigate/Profile/Changing.antt =====
-- The changes that `prepare` of ProfileTransaction of runtime/kosmickrisp/investigate.py makes after its
-- journal is written.
use mathlib.Core.Path.{subst}
use winecx_gptk.Common.{
  true, false, Option, none, some, is_some, is_none, List, [], ◌∷◌, AllOf, ◌≡◌, refl, ap, sym, ◌∙◌,
  if◌then◌else◌, inl, inr,
}
use winecx_gptk.Common.Text.{Text, codes}
use winecx_gptk.Investigate.Profile.Disk.{
  Name, d3d11, dxgi, same_name, DllEntry, Disk, reads, write, whole, put_config, tear_config,
  put_appid, tear_appid, put_dll, put_journal,
}
use winecx_gptk.Investigate.Profile.Config.{configured}
use winecx_gptk.Investigate.Profile.Saves.{os_error}
use winecx_gptk.Investigate.Profile.Transaction.{
  Source, Setup, entry_of, entries_of, journal_of, install_dlls, write_config, configure,
  prepare_with, prepare, has_digest, digest_or_empty, hash_of, install_file,
}
use winecx_gptk.Investigate.Profile.Triples.{
  Spec, Spec-then, Spec-skip, Spec-reads, Spec-write, Spec-weaken, Spec-may, Spec-raise,
}
use winecx_gptk.Investigate.Profile.Original.{Original, listed, EntryOf}
use winecx_gptk.Investigate.Profile.Restoring.{head_listed, later_listed, rebacked}
use winecx_gptk.Investigate.Profile.Preparing.{
  Idle, Active, Started, check_sources-Spec, entries_of-EntryOf,
}
use winecx_gptk.Investigate.Profile.Copying.{WithDlls, back_up-Spec}

unlisted :
    (n m : Name) (es : List DllEntry) (t now : Option Text)
    → listed n es ≡ false
    → listed m es ≡ true
    → (if same_name n m then t else now) ≡ now
unlisted d3d11 d3d11 es t now h k = let clash : true ≡ false = sym k ∙ h in absurd (cc)
unlisted d3d11 dxgi es t now h k = refl
unlisted dxgi d3d11 es t now h k = refl
unlisted dxgi dxgi es t now h k = let clash : true ≡ false = sym k ∙ h in absurd (cc)

listed-later :
    (e : DllEntry) (es : List DllEntry) (ss : List Source)
    → AllOf (λ (s : Source). listed s.name es ≡ true) ss
    → AllOf (λ (s : Source). listed s.name (e ∷ es) ≡ true) ss
listed-later e es [] h = tt
listed-later e es (s ∷ ss) h = (later_listed s.name e es h.0, listed-later e es ss h.1)

entries_of-listed :
    {S : Type 0} (sha : Text → Text) (inventory_hash : S → Text) (dll : Name → Option Text)
    (ss : List Source)
    → AllOf (λ (s : Source). listed s.name (entries_of sha inventory_hash dll ss) ≡ true) ss
unfolding entries_of
entries_of-listed sha inventory_hash dll [] = tt
entries_of-listed sha inventory_hash dll (s ∷ ss) = (
  head_listed (entry_of sha inventory_hash dll s) (entries_of sha inventory_hash dll ss),
  listed-later (entry_of sha inventory_hash dll s) (entries_of sha inventory_hash dll ss) ss
      (entries_of-listed sha inventory_hash dll ss),
)

module _ {S : Type 0} (sha : Text → Text) (inventory_hash : S → Text) (o : Original S)
    (p : Setup) where
  abbrev Begun : Disk S → Type 0
  Begun = Started sha inventory_hash o p

  -- Under way for the entries of a list.
  abbrev Under : List DllEntry → Disk S → Type 0
  Under es d = (a : Active sha inventory_hash o p d) × ((a.entries).dlls ≡ es)

  under : (es : List DllEntry) (d : Disk S) → Under es d → Begun d
  under es d h = inr h.0

  journal-Active :
      (es : List DllEntry) (d : Disk S)
      → AllOf (EntryOf sha o) es
      → WithDlls sha inventory_hash o p es [] d
      → Under es (put_journal (journal_of sha inventory_hash p es d) d)
  journal-Active es d h k =
      let idle = (((k.0).0).0).0 in
      (
        record {
          entries = journal_of sha inventory_hash p es d;
          describes = record {
            state = refl;
            appid_existed = ap is_some (idle.rest).appid;
            save_hash = ap (hash_of inventory_hash) ((k.0).0).1;
            dlls = h;
          };
          profile = refl;
          appid = refl;
          backed = record {
            journal = refl;
            config = (((k.0).0).0).1;
            saves = ((k.0).0).1;
            appid = (k.0).1;
            dll = λ n there. k.1 n there refl;
            others = λ n there. (idle.rest).dll n;
          };
        },
        refl,
      )

  -- A change of the files that the transaction puts back.
  changed :
      (es : List DllEntry) (d d' : Disk S)
      → d'.journal ≡ d.journal
      → d'.backup ≡ d.backup
      → ((n : Name) → listed n es ≡ false → d'.dll n ≡ d.dll n)
      → Under es d
      → Under es d'
  changed es d d' e f g (a, same) = (
    record {
      entries = a.entries;
      describes = a.describes;
      profile = a.profile;
      appid = a.appid;
      backed =
          rebacked a.describes false d d' a.backed e f
            (λ n h. g n (ap (listed n) (sym same) ∙ h) ∙ (a.backed).others n h);
    },
    same,
  )

  write_journal-Spec :
      (es : List DllEntry)
      → AllOf (EntryOf sha o) es
      → Spec false
          (WithDlls sha inventory_hash o p es [])
          (reads (λ d. write (put_journal (journal_of sha inventory_hash p es d)) whole os_error))
          (Under es)
          Begun
  write_journal-Spec es h = Spec-reads _ (λ d i.
      Spec-write (put_journal (journal_of sha inventory_hash p es d)) whole os_error (λ fs x. refl)
        (λ t s fs x. refl)
        (λ x k.
          subst (λ y. Under es (put_journal y x)) (ap (journal_of sha inventory_hash p es) k.1)
            (journal-Active es x h k.0))
        (λ x k. inl ((((k.0).0).0).0).0) (λ x k. under es x k) (λ t s x k. inl ((((k.0).0).0).0).0))

  put_config-Under :
      (es : List DllEntry) (t : Text) (x : Disk S) → Under es x → Under es (put_config t x)
  put_config-Under es t x = changed es x (put_config t x) refl refl (λ n h. refl)

  put_appid-Under :
      (es : List DllEntry) (t : Option Text) (x : Disk S) → Under es x → Under es (put_appid t x)
  put_appid-Under es t x = changed es x (put_appid t x) refl refl (λ n h. refl)

  put_dll-Under :
      (es : List DllEntry) (m : Name) (t : Option Text) (x : Disk S)
      → listed m es ≡ true
      → Under es x
      → Under es (put_dll m t x)
  put_dll-Under es m t x there =
      changed es x (put_dll m t x) refl refl (λ n h. unlisted n m es t (x.dll n) h there)

  write_config-Spec :
      (es : List DllEntry) (new : Option Text)
      → Spec false (Under es) (write_config sha inventory_hash new) (Under es) Begun
  write_config-Spec es none = Spec-raise (under es)
  write_config-Spec es (some new) =
      Spec-write (put_config new) tear_config os_error (λ fs x. refl) (λ t s fs x. refl)
        (put_config-Under es new) (under es) (under es)
        (λ t s x k. under es (put_config t x) (put_config-Under es t x k))

  configure-Spec :
      (es : List DllEntry) (config : Option Text)
      → Spec false (Under es) (configure sha inventory_hash config) (Under es) Begun
  configure-Spec es none = Spec-raise (under es)
  configure-Spec es (some text) = write_config-Spec es (configured text)

  install_file-Spec :
      (es : List DllEntry) (source : Option Text) (m : Name)
      → listed m es ≡ true
      → Spec false (Under es) (install_file sha inventory_hash source m) (Under es) Begun
  install_file-Spec es none m there = Spec-raise (under es)
  install_file-Spec es (some t) m there =
      Spec-then
        (Spec-write (λ d. d) whole os_error (λ fs x. refl) (λ u s fs x. refl) (λ x k. k) (under es)
          (under es) (λ u s x k. under es x k))
        (Spec-write (put_dll m (some t)) whole os_error (λ fs x. refl) (λ u s fs x. refl)
          (λ x k. put_dll-Under es m (some t) x there k) (under es) (under es)
          (λ u s x k. under es x k))

  install_dlls-Spec :
      (es : List DllEntry) (ss : List Source)
      → AllOf (λ (s : Source). listed s.name es ≡ true) ss
      → Spec false (Under es) (install_dlls sha inventory_hash ss) (Under es) Begun
  unfolding install_dlls
  install_dlls-Spec es [] h = Spec-skip
  install_dlls-Spec es (s ∷ ss) h = Spec-then (install_file-Spec es s.content s.name h.0) (
      Spec-then
        (Spec-may (λ d. has_digest sha (digest_or_empty s.expected) (d.dll s.name)) _ (under es))
        (install_dlls-Spec es ss h.1))

  prepare_with-Spec :
      (es : List DllEntry)
      → AllOf (EntryOf sha o) es
      → AllOf (λ (s : Source). listed s.name es ≡ true) p.sources
      → Spec false (Idle sha inventory_hash o p) (prepare_with sha inventory_hash p es) Begun Begun
  unfolding prepare_with
  prepare_with-Spec es h there = Spec-then (back_up-Spec sha inventory_hash o p es h) (
      Spec-then (write_journal-Spec es h) (
        Spec-then
          (Spec-reads _ (λ d i.
            Spec-weaken (λ x k. k.0) (configure-Spec es d.backup.config) (λ x k. k) (λ x k. k)))
          (Spec-then
            (Spec-write (put_appid (some (codes "920210\n"))) tear_appid os_error (λ fs x. refl)
              (λ t s fs x. refl) (put_appid-Under es (some (codes "920210\n"))) (under es)
              (under es)
              (λ t s x k. under es (put_appid (some t) x) (put_appid-Under es (some t) x k)))
            (Spec-weaken (λ x k. k) (install_dlls-Spec es p.sources there) (under es) (λ x k. k)))))

  -- Wherever it is stopped, nothing has been changed or the transaction is under way.
  pub prepare-Spec :
      Spec false (Idle sha inventory_hash o p) (prepare sha inventory_hash p) Begun Begun
  unfolding prepare
  prepare-Spec =
      Spec-then
        (Spec-may (λ d. is_none d.journal) (codes "existing_transaction_requires_recovery")
          (λ x k. inl k))
        (Spec-then (check_sources-Spec sha inventory_hash o p p.sources) (
          Spec-reads _ (λ d i.
            Spec-weaken (λ x k. k.0)
              (prepare_with-Spec (entries_of sha inventory_hash d.dll p.sources)
                (entries_of-EntryOf sha inventory_hash o p d.dll p.sources (i.rest).dll)
                (entries_of-listed sha inventory_hash d.dll p.sources))
              (λ x k. k) (λ x k. k))))
