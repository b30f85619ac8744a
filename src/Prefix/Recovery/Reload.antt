-- ===== src/Prefix/Recovery/Reload.antt =====
-- `restore_locked(prefix, load_receipt(prefix))` of runtime/kosmickrisp/dxvk-prefix.py: what `restore`
-- runs under the lock, and `install` when it fails.
use mathlib.Core.Path.{subst}
use winecx_gptk.Common.{false, ◌≡◌, refl, sym, none, some}
use winecx_gptk.Common.Text.{Text}
use winecx_gptk.Prefix.Disk.{
  FilePath, Digest, Node, State, Receipt, Disk, Result, ok, err, nothing_to_restore,
}
use winecx_gptk.Prefix.Checks.{Tree}
use winecx_gptk.Prefix.Status.{check_receipt, load_receipt}
use winecx_gptk.Prefix.Restore.{with_state, restore_locked, restore_loaded}
use winecx_gptk.Prefix.Triples.{At, Calm, Ends}
use winecx_gptk.Prefix.Recovery.{Plan, Recoverable, Clean, clean, early, late}
use winecx_gptk.Prefix.Recovery.Locked.{late-Spec, early-Spec}

-- Without a receipt nothing happens.
pub at_start :
    (sha : Text → Digest) (t : Tree) (d : Disk)
    → d.receipt ≡ none
    → restore_loaded sha t d ≡ (err nothing_to_restore, d)
unfolding load_receipt restore_loaded restore_locked
at_start sha t d e =
    let there : d ≡ record d { receipt = none } = λ i. record d { receipt = e i } in
    subst (λ (x : Disk). restore_loaded sha t x ≡ (err nothing_to_restore, x)) (sym there) refl

module _ (sha : Text → Digest) (nodes0 : FilePath → Node) (before : Text) (base : Receipt) where
  accepts :
      (t : Tree) (s : State)
      → check_receipt sha t base ≡ ok tt
      → check_receipt sha t (with_state s base) ≡ ok tt
  unfolding check_receipt
  accepts t s h = h

  loads :
      (t : Tree) (s : State) (d : Disk)
      → check_receipt sha t base ≡ ok tt
      → d.receipt ≡ some (with_state s base)
      → restore_loaded sha t d ≡ restore_locked sha (some (with_state s base)) d
  unfolding load_receipt restore_loaded
  loads t s d h e =
      let there : d ≡ record d { receipt = some (with_state s base) } =
        λ i. record d { receipt = e i } in
      subst (λ (x : Disk). restore_loaded sha t x ≡ restore_locked sha (some (with_state s base)) x)
        (sym there) (rw (accepts t s h) refl)

  -- A restore leaves such a condition, and where no write fails, all files as they were.
  pub record Settles (d : Disk) (r : Result (Unit {0})) (d' : Disk) : Type 0 where
    pub kept : At (Recoverable sha nodes0 before base) d'
    pub settled : Calm d → At (Clean nodes0 before) d'

  Ends-Settles :
      (d : Disk) (r : Result (Unit {0})) (d' : Disk)
      → Ends false d (λ _. Clean nodes0 before) (Recoverable sha nodes0 before base) r d'
      → Settles d r d'
  Ends-Settles d (ok a) d' h = record { kept = clean h.0.0 h.0.1; settled = λ c. h.0 }
  Ends-Settles d (err e) d' h = record { kept = h.0; settled = λ c. absurd (h.1 c) }

  pub restore_loaded-Settles :
      (t : Tree)
      → Plan sha nodes0 before base t
      → (d : Disk) → At (Recoverable sha nodes0 before base) d
      → let (r, d') = restore_loaded sha t d in Settles d r d'
  restore_loaded-Settles t plan d (clean u e) =
      rw (at_start sha t d e) (record { kept = clean u e; settled = λ c. (u, e) })
  restore_loaded-Settles t plan d (early h) =
      let (r, d') = restore_locked sha (some (with_state h.state base)) d in
      rw (loads t h.state d plan.accepted h.receipt)
        (Ends-Settles d r d' ((early-Spec sha nodes0 before base false h.state h.early).run d h))
  restore_loaded-Settles t plan d (late b h) =
      let (r, d') = restore_locked sha (some (with_state h.state base)) d in
      rw (loads t h.state d plan.accepted h.receipt) (
        Ends-Settles d r d'
          ((late-Spec sha nodes0 before base t plan b false h.state h.late).run d h))
