-- ===== src/Prefix/Undo/Everything.antt =====
-- `install` of runtime/kosmickrisp/dxvk-prefix.py, stopped anywhere, and `restore`, repeated until it is
-- not stopped: all is as it was.
use mathlib.Core.Path.{subst}
use winecx_gptk.Common.{true, ◌≡◌, refl, sym, ◌∙◌, Option, none, List, [], ◌∷◌, inl, inr}
use winecx_gptk.Common.Text.{Text}
use winecx_gptk.Registry.{Dll}
use winecx_gptk.Registry.Edit.{IsRegistry}
use winecx_gptk.Prefix.Disk.{
  FilePath, Digest, Node, file, Arch, Receipt, Fault, Disk, Result, ok, err, continue,
}
use winecx_gptk.Prefix.Checks.{Tree, destinations}
use winecx_gptk.Prefix.Status.{load_receipt, checked_receipt}
use winecx_gptk.Prefix.Restore.{lock, restore_loaded, restore}
use winecx_gptk.Prefix.Install.{Payload, install, install_by}
use winecx_gptk.Prefix.Triples.{Pred, At, Calm, Spec, Spec-bind, Spec-given, Spec-lift, Ends}
use winecx_gptk.Prefix.Recovery.{Clean, Recoverable, clean, early, late}
use winecx_gptk.Prefix.Recovery.Reload.{at_start, restore_loaded-Settles}
use winecx_gptk.Prefix.Recovery.Locking.{lock_result, lock-eq}
use winecx_gptk.Prefix.Undo.{Pending, idle, under_way}
use winecx_gptk.Prefix.Undo.Stopped.{install_new-Spec}

abbrev pub with_faults : List Fault → Disk → Disk
with_faults fs d = record d { faults = fs }

module _ (sha : Text → Digest) (t : Tree) where
  -- One `restore` after the other, each with its own failing writes.
  unfoldable pub retries : List (List Fault) → Disk → Disk
  unfolding restore
  retries [] d = d
  retries (fs ∷ later) d = retries later (restore sha t (with_faults fs d)).1

  module _ (nodes0 : FilePath → Node) (before : Text) where
    abbrev Open : Pred
    Open = Pending sha nodes0 before t

    lock-end :
        (d : Disk) (r : Result (Unit {0}))
        → lock_result t ≡ r
        → At (Clean nodes0 before) d
        → Ends true d (λ _ n g r k. Clean nodes0 before n g r k × (lock_result t ≡ ok tt)) Open r d
    lock-end d (ok tt) is h = ((h, is), λ c. c)
    lock-end d (err e) is h = (idle h, tt)

    lock-Spec :
        Spec true
          (Clean nodes0 before)
          (lock t)
          (λ _ n g r k. Clean nodes0 before n g r k × (lock_result t ≡ ok tt))
          Open
    lock-Spec = record {
      run = λ d h. rw (lock-eq t d before (h.0).registry) (lock-end d (lock_result t) refl h);
    }

    no_receipt :
        Spec true
          (Clean nodes0 before)
          (load_receipt sha t)
          (λ r n g r' k. Clean nodes0 before n g r' k × (r ≡ none))
          Open
    unfolding load_receipt checked_receipt
    no_receipt = record { run = λ d h. rw h.1 (((h.0, refl), refl), λ c. c) }

    module _ (p : Payload) (game_dir : Option FilePath) (arch : Option Arch) (dlls : List Dll)
        (h : IsRegistry before) where
      install-Spec :
          Spec true (Clean nodes0 before) (install sha p t game_dir arch dlls) (λ _. Open) Open
      unfolding install install_by
      install-Spec = Spec-bind lock-Spec (λ _. Spec-given (λ passes.
          Spec-bind (Spec-lift (destinations t game_dir arch dlls) (λ d k. idle k)) (λ targets.
            Spec-given (λ planned. Spec-bind no_receipt (λ existing. Spec-given (λ absent'.
              subst
                (λ (x : Option Receipt).
                  Spec true (Clean nodes0 before) (install_by sha p t game_dir arch dlls targets x)
                    (λ _. Open) Open)
                (sym absent')
                (install_new-Spec sha p t game_dir arch dlls nodes0 before targets planned h
                  passes)))))))

      ends_open :
          (d : Disk) {A : Type 0} (r : Result A) (d' : Disk)
          → Ends true d (λ _. Open) Open r d'
          → At Open d'
      ends_open d (ok a) d' e = e.0
      ends_open d (err x) d' e = e.0

      install-Open :
          (d : Disk) → At (Clean nodes0 before) d → At Open (install sha p t game_dir arch dlls d).1
      install-Open d start =
          let (r, d') = install sha p t game_dir arch dlls d in
          ends_open d r d' (install-Spec.run d start)

    is_file :
        (base : Receipt) (d : Disk)
        → At (Recoverable sha nodes0 before base) d
        → (text : Text) × (d.registry ≡ file text)
    is_file base d (clean u e) = (before, u.registry)
    is_file base d (early h) = (before, h.untouched.registry)
    is_file base d (late b h) = elim h.registry [ inl old ↦ (_, old) | inr new ↦ (_, new) ]

    pub record Undone (d d' : Disk) : Type 0 where
      pub still : At Open d'
      pub undone : Calm d → At (Clean nodes0 before) d'

    idle-Undone :
        (d : Disk) (r : Result (Unit {0}))
        → At (Clean nodes0 before) d
        → Undone d (continue r (λ _. restore_loaded sha t) d).1
    idle-Undone d (err e) h = record { still = idle h; undone = λ c. h }
    idle-Undone d (ok tt) h = rw (at_start sha t d h.1) (record { still = idle h; undone = λ c. h })

    restore-Undone : (d : Disk) → At Open d → Undone d (restore sha t d).1
    unfolding restore
    restore-Undone d (idle h) =
        rw (lock-eq t d before (h.0).registry) (idle-Undone d (lock_result t) h)
    restore-Undone d (under_way base plan passes h) =
        let text = is_file base d h in
        let s = restore_loaded-Settles sha nodes0 before base t plan d h in
        rw (lock-eq t d text.0 text.1, passes)
          (record { still = under_way base plan passes s.kept; undone = s.settled })

    retries-Open : (fss : List (List Fault)) (d : Disk) → At Open d → At Open (retries fss d)
    unfolding retries
    retries-Open [] d h = h
    retries-Open (fs ∷ later) d h =
        retries-Open later (restore sha t (with_faults fs d)).1
          (restore-Undone (with_faults fs d) h).still

-- In a prefix without a receipt, with a registry as Wine writes it: `install` may be stopped at any
-- write, before or after its effect, in its own work or in its rollback, and so may any number of
-- calls of `restore` after it; one `restore` that no failing write stops leaves every file and
-- the registry as they were before, and no receipt.
pub restore_undoes :
    (sha : Text → Digest) (p : Payload) (t : Tree) (game_dir : Option FilePath) (arch : Option Arch)
    (dlls : List Dll) (d : Disk) (before : Text) (fss : List (List Fault)) (path : FilePath)
    → d.receipt ≡ none
    → d.registry ≡ file before
    → IsRegistry before
    → let stopped = retries sha t fss (install sha p t game_dir arch dlls d).1 in
      let d' = (restore sha t (with_faults [] stopped)).1 in
      (d'.nodes path ≡ d.nodes path) × (d'.registry ≡ d.registry) × (d'.receipt ≡ none)
restore_undoes sha p t game_dir arch dlls d before fss path no_receipt' text h =
    let start : At (Clean d.nodes before) d =
      (record { nodes = λ _. refl; registry = text }, no_receipt') in
    let installed = install-Open sha t d.nodes before p game_dir arch dlls h d start in
    let d1 = (install sha p t game_dir arch dlls d).1 in
    let stopped = retries sha t fss d1 in
    let still = retries-Open sha t d.nodes before fss d1 installed in
    let end = (restore-Undone sha t d.nodes before (with_faults [] stopped) still).undone refl in
    (end.0.nodes path, end.0.registry ∙ sym text, end.1)
