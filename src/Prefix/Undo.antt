-- ===== src/Prefix/Undo.antt =====
-- `install` of runtime/kosmickrisp/dxvk-prefix.py as a whole: wherever it is stopped, `restore` puts
-- everything back.
pub mod Stopped
pub mod Everything
use mathlib.Core.Path.{subst}
use winecx_gptk.Common.{
  Bool, true, false, not, ◌&&◌, ◌≡◌, refl, sym, ap, ◌∙◌, Option, none, some, all, any, List, [],
  ◌∷◌, is_some, is_none, AllOf, arith, if◌then◌else◌,
}
use winecx_gptk.Common.Text.{Text, text_eq, text_eq_refl}
use winecx_gptk.Registry.{
  Dll, Overrides, Parsed, values, failed, registry_values, edit_registry, installed_values,
}
use winecx_gptk.Registry.Edit.{IsRegistry, registry_values-edit_registry}
use winecx_gptk.Registry.Installed.{installed-AreValues}
use winecx_gptk.Prefix.Disk.{
  FilePath, Digest, Node, file, Identity, content, Arch, Entry, preparing, Receipt, Backup, Fault,
  Disk, Error, orphaned_backup, Result, ok, err, M, lift, gets, require, ◌>>=◌, ◌>>◌, write, raise,
  put_receipt, continue, invalid_prefix, wine_running,
}
use winecx_gptk.Prefix.Checks.{
  Tree, Target, Place, distinct, destinations, is_regular, is_real_dir, validate_prefix,
}
use winecx_gptk.Prefix.Status.{
  identity, read_text, parsed_values, same_targets, check_receipt, load_receipt, changed_files,
  status, Report, report_of, checked_receipt, no_report, report_with, with_overrides, with_change,
}
use winecx_gptk.Prefix.Restore.{with_state, journal, lock, restore_loaded, restore}
use winecx_gptk.Prefix.Install.{
  Payload, back_up, put_in_place, on_error, handled, transact, planned, install_read, install_new,
  install,
}
use winecx_gptk.Prefix.Triples.{
  Pred, At, Calm, Sub, Spec, Writes, Spec-bind, Spec-pure, Spec-gets, Spec-write, Spec-weaken,
  Spec-given, Spec-post, Spec-raise, Spec-lift, Spec-lift_ok, Spec-try_require, Spec-try_lift,
  Spec-peek, Ends,
}
use winecx_gptk.Prefix.Recovery.{
  Plan, Untouched, Clean, Early, Recoverable, clean, early, late, after,
}
use winecx_gptk.Prefix.Recovery.Restoring.{Kept, Start}
use winecx_gptk.Prefix.Recovery.Reload.{Settles, restore_loaded-Settles}
use winecx_gptk.Prefix.Recovery.BackingUp.{back_up-Spec}
use winecx_gptk.Prefix.Recovery.Placing.{put_in_place-Spec}
use winecx_gptk.Prefix.Recovery.Locking.{lock_result, lock-eq}
use winecx_gptk.Prefix.Recovery.Entries.{
  Entered, entries-Spec, distinct-SameContent, destinations-distinct,
}

module _ (sha : Text → Digest) (nodes0 : FilePath → Node) (before : Text) (t : Tree) where
  -- No transaction, or one that can be undone.
  pub data Pending (n : FilePath → Node) (g : Node) (r : Option Receipt) (k : Option Backup)
      : Type 0 where
    idle : Clean nodes0 before n g r k → Pending n g r k
    under_way :
        (base : Receipt)
        → Plan sha nodes0 before base t
        → lock_result t ≡ ok tt
        → Recoverable sha nodes0 before base n g r k
        → Pending n g r k

  changed_files-Spec : (P : Pred) (es : List Entry) → Spec true P (changed_files sha es) (λ _. P) P
  unfolding changed_files
  changed_files-Spec P [] = Spec-pure [] (λ d h. h)
  changed_files-Spec P (e ∷ es) = Spec-bind (Spec-peek (λ d. d.nodes e.target)) (λ found.
      Spec-bind (Spec-try_lift (identity sha found) (λ d h. h)) (λ now.
        Spec-bind (changed_files-Spec P es)
          (λ rest. Spec-pure (with_change e now rest) (λ d h. h))))

  report_of-Spec : (P : Pred) (r : Option Receipt) → Spec true P (report_of sha t r) (λ _. P) P
  unfolding report_of
  report_of-Spec P none = Spec-pure no_report (λ d h. h)
  report_of-Spec P (some r) = Spec-bind (changed_files-Spec P r.files) (λ files.
      Spec-bind (Spec-peek (λ d. d.registry)) (λ registry.
        Spec-bind (Spec-try_lift (read_text registry) (λ d h. h)) (λ text.
          Spec-bind (Spec-try_lift (parsed_values (registry_values text)) (λ d h. h))
            (λ now. Spec-pure (report_with r (with_overrides now files)) (λ d h. h)))))

  validate-Spec : (P : Pred) → Spec true P (validate_prefix t false) (λ _. P) P
  unfolding validate_prefix
  validate-Spec P =
      Spec-bind (Spec-try_require (all is_real_dir t.directories) invalid_prefix (λ d h. h)) (λ _.
        Spec-bind (Spec-peek (λ d. d.registry)) (λ registry.
          Spec-bind (Spec-try_require (is_regular registry) invalid_prefix (λ d h. h)) (λ _.
            Spec-bind
              (Spec-try_require (all (λ (x : Place). x.is_file) t.kernel_files) invalid_prefix
                (λ d h. h))
              (λ _.
                Spec-bind
                  (Spec-try_require (not (any (λ (x : Place). x.is_symlink) t.management))
                    invalid_prefix (λ d h. h))
                  (λ _.
                    Spec-try_require (not (false && t.socket_exists)) wine_running (λ d h. h))))))

  pub loaded-Spec :
      (P : Pred) (r : Option Receipt) → Spec true P (checked_receipt sha t r) (λ _. P) P
  unfolding checked_receipt
  loaded-Spec P none = Spec-pure none (λ d h. h)
  loaded-Spec P (some r) =
      Spec-bind (Spec-try_lift (check_receipt sha t r) (λ d h. h))
        (λ _. Spec-pure (some r) (λ d h. h))

  -- `status` only reads.
  pub status-Spec : (P : Pred) → Spec true P (status sha t) (λ _. P) P
  unfolding status load_receipt
  status-Spec P = Spec-bind (validate-Spec P) (λ _.
      Spec-bind (Spec-bind (Spec-peek (λ d. d.receipt)) (λ found. loaded-Spec P found))
        (λ data'. report_of-Spec P data'))

  module _ (p : Payload) (base : Receipt) (plan : Plan sha nodes0 before base t) where
    abbrev Safe : Disk → Result (Unit {0}) → Disk → Type 0
    Safe d r d' = Ends true d (λ _. Kept sha nodes0 before base) (Kept sha nodes0 before base) r d'

    raised :
        (e : Error) (d : Disk) (s : Result (Unit {0})) (d' : Disk)
        → At (Kept sha nodes0 before base) d'
        → let (r, d'') = continue {B = Unit {0}} s (λ _. raise e) d' in Safe d r d''
    raised e d (ok a) d' h = (h, tt)
    raised e d (err e') d' h = (h, tt)

    rescued :
        (d : Disk) (r : Result (Unit {0})) (d' : Disk)
        → Safe d r d'
        → let (r', d'') = handled (restore_loaded sha t) r d' in Safe d r' d''
    rescued d (ok a) d' h = h
    rescued d (err e) d' h =
        let (s, d'') = restore_loaded sha t d' in
        raised e d s d'' (restore_loaded-Settles sha nodes0 before base t plan d' h.0).kept

    first_receipt :
        with_state preparing base ≡ base
        → Writes (put_receipt (some base)) (Clean nodes0 before) (Start sha nodes0 before base)
    first_receipt same = record {
      takes = λ d (h : At (Clean nodes0 before) d). record {
        untouched = h.0;
        state = preparing;
        early = tt;
        receipt = ap some (sym same);
      };
      faults = λ d. refl;
    }

    on_error-Spec :
        {P : Pred} {m : M (Unit {0})}
        → Spec true P m (λ _. Kept sha nodes0 before base) (Kept sha nodes0 before base)
        → Spec true P
            (on_error m (restore_loaded sha t))
            (λ _. Kept sha nodes0 before base)
            (Kept sha nodes0 before base)
    unfolding on_error
    on_error-Spec {m = m} h = record {
      run = λ d q. let (r, d') = m d in rescued d r d' (h.run d q);
    }

    -- From the first receipt on, whatever fails.
    pub transact-Spec :
        with_state preparing base ≡ base
        → lock_result t ≡ ok tt
        → Spec true
            (Clean nodes0 before)
            (transact sha p t base (after sha nodes0 before base))
            (λ _. Pending)
            Pending
    unfolding transact journal
    transact-Spec same passes =
        let pending =
          λ (d : Disk) (h : At (Kept sha nodes0 before base) d). under_way base plan passes h in
        Spec-bind
          (Spec-write (put_receipt (some base)) (first_receipt same) (λ d h. idle h)
            (λ d h. pending d (early h)))
          (λ _.
            Spec-bind
              (Spec-raise pending (
                on_error-Spec (
                  Spec-bind (back_up-Spec sha p nodes0 before base)
                    (λ _. put_in_place-Spec sha p nodes0 before base t plan))))
              (λ _. Spec-weaken pending (status-Spec Pending)))
