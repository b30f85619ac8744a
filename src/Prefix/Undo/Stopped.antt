-- ===== src/Prefix/Undo/Stopped.antt =====
-- The whole of `install` and then `restore` of runtime/kosmickrisp/dxvk-prefix.py.
use mathlib.Core.Path.{subst}
use winecx_gptk.Common.{true, not, ◌≡◌, refl, sym, ap, Option, some, List, is_some, arith}
use winecx_gptk.Common.Text.{Text, text_eq_refl}
use winecx_gptk.Registry.{
  Dll, Overrides, Parsed, values, failed, registry_values, edit_registry, installed_values,
}
use winecx_gptk.Registry.Edit.{IsRegistry, registry_values-edit_registry}
use winecx_gptk.Registry.Installed.{installed-AreValues}
use winecx_gptk.Prefix.Disk.{
  FilePath, Digest, Node, file, Identity, content, Arch, Entry, orphaned_backup, ok,
}
use winecx_gptk.Prefix.Checks.{Tree, Target, destinations}
use winecx_gptk.Prefix.Status.{identity, read_text, parsed_values, check_receipt}
use winecx_gptk.Prefix.Install.{Payload, planned, install_read, install_new}
use winecx_gptk.Prefix.Triples.{
  Pred, Spec, Spec-bind, Spec-gets, Spec-given, Spec-raise, Spec-lift, Spec-lift_ok,
  Spec-try_require, Spec-peek,
}
use winecx_gptk.Prefix.Recovery.{Plan, Clean}
use winecx_gptk.Prefix.Recovery.Locking.{lock_result}
use winecx_gptk.Prefix.Recovery.Entries.{
  Entered, entries-Spec, distinct-SameContent, destinations-distinct,
}
use winecx_gptk.Prefix.Undo.{Pending, idle, transact-Spec}

parsed-values : (x : Parsed) (o : Overrides) → parsed_values x ≡ ok o → x ≡ values o
parsed-values (values o) o' h = ground arith
parsed-values (failed e) o' h = absurd cc

module _ (sha : Text → Digest) (p : Payload) (t : Tree) (game_dir : Option FilePath)
    (arch : Option Arch) (dlls : List Dll) (nodes0 : FilePath → Node) (before : Text) where
  module _ (targets : List Target) (planned' : destinations t game_dir arch dlls ≡ ok targets)
      (h : IsRegistry before) (passes : lock_result t ≡ ok tt) where
    planned-Plan :
        (files : List Entry) (original : Option Identity) (overrides : Overrides)
        → Entered sha p nodes0 before targets files
        → original ≡ some (content (sha before))
        → registry_values before ≡ values overrides
        → Plan sha nodes0 before
            (planned sha p t game_dir arch dlls files original overrides
              (edit_registry before installed_values))
            t
    unfolding check_receipt
    planned-Plan files original overrides entered is parsed = record {
      originals = entered.originals;
      consistent =
          distinct-SameContent targets files
            (destinations-distinct t game_dir arch dlls targets planned') entered.targets;
      registry_original = is;
      registry_installed = refl;
      overrides = parsed;
      read_back = registry_values-edit_registry before installed_values h installed-AreValues;
      accepted = rw (text_eq_refl t.prefix, planned', entered.targets) refl;
    }

    abbrev Open : Pred
    Open = Pending sha nodes0 before t

    install_read-Spec :
        (files : List Entry)
        → Entered sha p nodes0 before targets files
        → Spec true
            (Clean nodes0 before)
            (install_read sha p t game_dir arch dlls files before)
            (λ _. Open)
            Open
    unfolding install_read identity
    install_read-Spec files entered =
        Spec-bind {Q = λ registry n g r k. Clean nodes0 before n g r k × (registry ≡ file before)}
          (Spec-gets (λ d. d.registry) (λ d k. (k, (k.0).registry)))
          (λ registry. Spec-given (λ same.
            Spec-bind
              (Spec-lift_ok (identity sha registry) (some (content (sha before)))
                (ap (identity sha) same))
              (λ original. Spec-given (λ is.
                Spec-bind (Spec-lift (parsed_values (registry_values before)) (λ d k. idle k))
                  (λ overrides. Spec-given (λ parsed.
                    let base =
                      planned sha p t game_dir arch dlls files original overrides
                        (edit_registry before installed_values) in
                    let plan =
                      planned-Plan files original overrides entered is
                        (parsed-values (registry_values before) overrides parsed) in
                    transact-Spec sha nodes0 before t p base plan refl passes))))))

    pub install_new-Spec :
        Spec true
          (Clean nodes0 before)
          (install_new sha p t game_dir arch dlls targets)
          (λ _. Open)
          Open
    unfolding install_new
    install_new-Spec = Spec-bind (Spec-peek (λ d. is_some d.backup)) (λ there.
        Spec-bind (Spec-try_require (not there) orphaned_backup (λ d k. idle k)) (λ _.
          Spec-bind (Spec-raise (λ d k. idle k) (entries-Spec sha p nodes0 before targets))
            (λ files. Spec-given (λ entered.
              Spec-bind
                {Q = λ registry n g r k. Clean nodes0 before n g r k × (registry ≡ file before)}
                (Spec-gets (λ d. d.registry) (λ d k. (k, (k.0).registry)))
                (λ registry. Spec-given (λ same.
                  Spec-bind (Spec-lift_ok (read_text registry) before (ap read_text same)) (λ text.
                    Spec-given (λ is.
                      subst
                        (λ (x : Text).
                          Spec true (Clean nodes0 before)
                            (install_read sha p t game_dir arch dlls files x) (λ _. Open) Open)
                        (sym is) (install_read-Spec files entered)))))))))
