-- ===== src/Prefix/Recovery/Locking.antt =====
-- `locked` and `status` of runtime/kosmickrisp/dxvk-prefix.py change no file.
use mathlib.Core.Path.{subst}
use winecx_gptk.Common.{Bool, true, false, ◌≡◌, refl, sym, none, [], arith}
use winecx_gptk.Common.Text.{Text}
use winecx_gptk.Prefix.Disk.{absent, file, Disk, Error, Result, require}
use winecx_gptk.Prefix.Checks.{Tree, validate_prefix}
use winecx_gptk.Prefix.Restore.{lock}

abbrev bare : Disk
bare = record {
  nodes = λ _. absent;
  registry = file [];
  receipt = none;
  backup = none;
  faults = [];
}

-- What taking the lock gives, with a registry that is a file.
pub lock_result : Tree → Result (Unit {0})
unfolding lock
lock_result t = (lock t bare).0

require-keeps : (b : Bool) (e : Error) (d d' : Disk) → (require b e d ≡ ((require b e d').0, d))
require-keeps true e d d' = refl
require-keeps false e d d' = refl

lock_at :
    (t : Tree) (d : Disk) (text : Text)
    → lock t (record d { registry = file text })
      ≡ (lock_result t, record d { registry = file text })
unfolding lock lock_result validate_prefix
lock_at t d text = ground arith

pub lock-eq :
    (t : Tree) (d : Disk) (text : Text) → d.registry ≡ file text → lock t d ≡ (lock_result t, d)
lock-eq t d text e =
    let there : d ≡ record d { registry = file text } = λ i. record d { registry = e i } in
    subst (λ (x : Disk). lock t x ≡ (lock_result t, x)) (sym there) (lock_at t d text)
