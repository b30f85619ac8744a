-- ===== src/Prefix/Recovery/BackingUp.antt =====
-- The first part of `install` of runtime/kosmickrisp/dxvk-prefix.py: the backup is made, and holds every
-- original and every file to install before the receipt says `installing`.
use winecx_gptk.Common.{
  ℕ, ◌+◌, Bool, true, false, ◌||◌, ◌&&◌, ◌≡◌, refl, none, List, [], ◌∷◌, is_none, if◌then◌else◌,
}
use winecx_gptk.Common.Text.{Text}
use winecx_gptk.Prefix.Disk.{
  FilePath, Digest, Node, file, Entry, Receipt, Backup, dll_changed, original_changed,
  registry_changed, pure, lift, put_registry_copy, original_at, registry_copy, empty_backup,
  same_identity,
}
use winecx_gptk.Prefix.Status.{identity}
use winecx_gptk.Prefix.Install.{Payload, make_backup, check_backup, back_up}
use winecx_gptk.Prefix.Triples.{
  Pred, At, Sub, Spec, Writes, Spec-bind, Spec-pure, Spec-gets, Spec-write, Spec-given, Spec-copy,
  Spec-try_require, Spec-try_lift, Spec-peek,
}
use winecx_gptk.Prefix.Recovery.{Whole, early}
use winecx_gptk.Prefix.Recovery.Restoring.{Kept, Start}
use winecx_gptk.Prefix.Recovery.Staging.{Backed, Backed-Kept, in_backup-Writes, stage-Spec}

module _ (sha : Text → Digest) (p : Payload) (nodes0 : FilePath → Node) (before : Text)
    (base : Receipt) where
  -- The second loop changes nothing.
  kept-Spec :
      (P : Pred)
      → Sub P (Kept sha nodes0 before base)
      → (b : Bool) (saved : Node)
      → Spec true P
          (if b then pure none else lift (identity sha saved))
          (λ _. P)
          (Kept sha nodes0 before base)
  kept-Spec P s true saved = Spec-pure none (λ d h. h)
  kept-Spec P s false saved = Spec-try_lift (identity sha saved) s

  check_backup-Spec :
      (P : Pred)
      → Sub P (Kept sha nodes0 before base)
      → (i : ℕ) (es : List Entry)
      → Spec true P (check_backup sha p i es) (λ _. P) (Kept sha nodes0 before base)
  unfolding check_backup
  check_backup-Spec P s i [] = Spec-pure tt (λ d h. h)
  check_backup-Spec P s i (e ∷ es) = Spec-bind (Spec-peek (λ d. d.nodes e.target)) (λ found.
      Spec-bind (Spec-try_lift (identity sha found) s) (λ now.
        Spec-bind (Spec-try_require (same_identity now e.original) dll_changed s) (λ _.
          Spec-bind (Spec-peek (original_at i)) (λ saved.
            Spec-bind (kept-Spec P s (is_none e.original) saved) (λ kept.
              Spec-bind
                (Spec-try_require (is_none e.original || same_identity kept e.original)
                  original_changed s)
                (λ _. check_backup-Spec P s (i + 1) es))))))

  abbrev pub WholeBackup : Backup → Type 0
  WholeBackup b = Whole sha nodes0 before base 0 base.files b × (b.registry ≡ file before)

  abbrev WithUnit : Backup → Type 0
  WithUnit b = Unit {0} × Whole sha nodes0 before base 0 base.files b

  new_backup :
      Writes make_backup
        (Start sha nodes0 before base)
        (Backed sha p nodes0 before base (λ b. Unit {0}))
  new_backup = record {
    takes = λ d (h : At (Start sha nodes0 before base) d). (
      record { untouched = h.untouched; state = h.state; early = h.early; receipt = h.receipt },
      (empty_backup, refl, tt),
    );
    faults = λ d. refl;
  }

  -- The backup is whole before the first DLL is replaced, and until then no file is touched.
  pub back_up-Spec :
      Spec true
        (Start sha nodes0 before base)
        (back_up sha p base)
        (λ _. Backed sha p nodes0 before base WholeBackup)
        (Kept sha nodes0 before base)
  unfolding back_up
  back_up-Spec =
      Spec-bind
        (Spec-write make_backup new_backup (λ d h. early h)
          (Backed-Kept sha p nodes0 before base (λ b. Unit {0})))
        (λ _.
          Spec-bind
            (stage-Spec sha p nodes0 before base 0 base.files (λ b. Unit {0})
              (record { originals = λ j x b le h. tt; payloads = λ j x b le h. tt }))
            (λ _.
              Spec-bind
                {Q = λ registry n g r k.
                  Backed sha p nodes0 before base WithUnit n g r k × (registry ≡ file before)}
                (Spec-gets (λ d. d.registry) (λ d h. (h, (h.0).untouched.registry)))
                (λ registry. Spec-given (λ same.
                  Spec-bind
                    (Spec-copy registry put_registry_copy
                      (in_backup-Writes sha p nodes0 before base WithUnit WholeBackup
                        (λ b. record b { registry = registry }) (λ b h. (h.1, same)))
                      (Backed-Kept sha p nodes0 before base WithUnit)
                      (Backed-Kept sha p nodes0 before base WholeBackup))
                    (λ _.
                      Spec-bind
                        (check_backup-Spec (Backed sha p nodes0 before base WholeBackup)
                          (Backed-Kept sha p nodes0 before base WholeBackup) 0 base.files)
                        (λ _. Spec-bind (Spec-peek (λ d. d.registry)) (λ registry'.
                          Spec-bind
                            (Spec-try_lift (identity sha registry')
                              (Backed-Kept sha p nodes0 before base WholeBackup))
                            (λ now. Spec-bind (Spec-peek registry_copy) (λ saved.
                              Spec-bind
                                (Spec-try_lift (identity sha saved)
                                  (Backed-Kept sha p nodes0 before base WholeBackup))
                                (λ copy.
                                  Spec-try_require
                                    (same_identity now base.registry_original
                                      && same_identity copy base.registry_original)
                                    registry_changed
                                    (Backed-Kept sha p nodes0 before base WholeBackup)))))))))))
