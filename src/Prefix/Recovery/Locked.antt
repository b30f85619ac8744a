-- ===== src/Prefix/Recovery/Locked.antt =====
-- restore_locked of runtime/kosmickrisp/dxvk-prefix.py as a whole: from every condition that a stopped
-- transaction leaves behind it ends with all files as they were, or is stopped by a write that
-- fails, in such a condition again.
use winecx_gptk.Common.{
  Bool, true, ◌||◌, ◌≡◌, refl, sym, ap, ◌∙◌, Option, none, some, inl, inr, AllOf, if◌then◌else◌,
}
use winecx_gptk.Common.Text.{Text}
use winecx_gptk.Registry.{edit_registry}
use winecx_gptk.Prefix.Disk.{
  FilePath, Digest, Node, absent, file, Identity, content, State, preparing, installing, installed,
  restoring, restored, Receipt, Backup, ok, write, copy_node, put_registry, put_receipt,
  registry_copy, same_identity,
}
use winecx_gptk.Prefix.Checks.{Tree}
use winecx_gptk.Prefix.Status.{identity}
use winecx_gptk.Prefix.Restore.{
  with_state, journal, put_back_registry, restore_late, restore_locked,
}
use winecx_gptk.Prefix.Triples.{
  Pred, At, Spec, Writes, Spec-bind, Spec-gets, Spec-write, Spec-given, Spec-known, Spec-lift_ok,
  Spec-weaken,
}
use winecx_gptk.Prefix.Recovery.{IsEarly, IsLate, Plan, LateWith, early, late, RegistryOk}
use winecx_gptk.Prefix.Recovery.Writes.{restored_all, IsRestored, same_identity_refl}
use winecx_gptk.Prefix.Recovery.Restoring.{
  Back, Kept, Start, End, Moving, Moving-Kept, put_back-Spec, finish-Spec,
}
use winecx_gptk.Prefix.Recovery.Checking.{check_untouched-known, allow_left, allow_right}

module _ (sha : Text → Digest) (nodes0 : FilePath → Node) (before : Text) (base : Receipt) where
  module _ (t : Tree) (plan : Plan sha nodes0 before base t) (b : Backup) where
    abbrev Everything : (FilePath → Node) → Type 0
    Everything n = Unit {0}

    abbrev AllBack : (FilePath → Node) → Type 0
    AllBack n = Unit {0} × AllOf (IsRestored nodes0 n) base.files

    abbrev Held : ((FilePath → Node) → Type 0) → Pred
    Held = Moving sha nodes0 before base b

    receipt_kept :
        Writes (put_receipt (some (with_state restoring base))) (Held Everything) (Held Everything)
    receipt_kept = record {
      takes = λ d (h : At (Held Everything) d). (
        record {
          mixed = (h.0).mixed;
          others = (h.0).others;
          registry = (h.0).registry;
          state = restoring;
          late = tt;
          receipt = refl;
          backup = (h.0).backup;
          whole = (h.0).whole;
          copy = (h.0).copy;
        },
        tt,
      );
      faults = λ d. refl;
    }

    registry_back : Writes (put_registry (file before)) (Held AllBack) (Back sha nodes0 before base)
    registry_back = record {
      takes = λ d (h : At (Held AllBack) d). (
        record {
          nodes = λ path. restored_all nodes0 d.nodes base.files path h.1.1 ((h.0).others path);
          registry = refl;
        },
        late b (record {
          mixed = (h.0).mixed;
          others = (h.0).others;
          registry = inl refl;
          state = (h.0).state;
          late = (h.0).late;
          receipt = (h.0).receipt;
          backup = (h.0).backup;
          whole = (h.0).whole;
          copy = (h.0).copy;
        }),
      );
      faults = λ d. refl;
    }

    -- The registry is one that the transaction wrote, so its backup is copied.
    abbrev ours : Option Identity → Bool
    ours now =
        same_identity now (some (content base.registry_installed_sha256))
        || same_identity now base.registry_original

    abbrev IsOurs : Node → Type 0
    IsOurs g = (now : Option Identity) × (identity sha g ≡ ok now) × (ours now ≡ true)

    RegistryOk-IsOurs : (g : Node) → RegistryOk sha nodes0 before base g → IsOurs g
    RegistryOk-IsOurs g (inl same) = (
      base.registry_original,
      ap (identity sha) same ∙ unfold identity in ap ok (sym plan.registry_original),
      allow_right _ _ (same_identity_refl base.registry_original),
    )
    RegistryOk-IsOurs g (inr same) = (
      some (content base.registry_installed_sha256),
      ap (identity sha) same
          ∙ unfold identity in
            ap (λ (x : Digest). ok (some (content x))) (sym plan.registry_installed),
      allow_left _ _ (same_identity_refl (some (content base.registry_installed_sha256))),
    )

    copy_back :
        (C : Bool) (text : Text) (now : Option Identity) (saved : Node)
        → ours now ≡ true
        → saved ≡ file before
        → Spec C
            (Held AllBack)
            (if ours now
              then copy_node saved put_registry
              else write (put_registry (file (edit_registry text base.overrides_original))))
            (λ _. Back sha nodes0 before base)
            (Kept sha nodes0 before base)
    unfolding copy_node
    copy_back C text now saved is same =
        rw (is, same)
          (Spec-write (put_registry (file before)) registry_back
            (Moving-Kept sha nodes0 before base b AllBack) (λ d h. h.1))

    copy_at :
        (k : Option Backup)
        → k ≡ some b
        → b.registry ≡ file before
        → (elim k [ none ↦ absent | some c ↦ c.registry ]) ≡ file before
    copy_at k e h = ap (λ (x : Option Backup). elim x [ none ↦ absent | some c ↦ c.registry ]) e ∙ h

    put_back_registry-Spec :
        (C : Bool) (s : State) (text : Text)
        → Spec C
            (Held AllBack)
            (put_back_registry sha (with_state s base) text)
            (λ _. Back sha nodes0 before base)
            (Kept sha nodes0 before base)
    unfolding put_back_registry
    put_back_registry-Spec C s text =
        Spec-bind {Q = λ x n g r k. Held AllBack n g r k × IsOurs x}
          (Spec-gets (λ d. d.registry) (λ d h. (h, RegistryOk-IsOurs d.registry (h.0).registry)))
          (λ x. Spec-given (λ is. Spec-bind (Spec-lift_ok (identity sha x) is.0 is.1) (λ now.
            Spec-given (λ same.
              Spec-bind {Q = λ saved n g r k. Held AllBack n g r k × (saved ≡ file before)}
                (Spec-gets registry_copy (λ d h. (h, copy_at d.backup (h.0).backup (h.0).copy)))
                (λ saved.
                  Spec-given (λ from. copy_back C text now saved (ap ours same ∙ is.2) from))))))

    -- All changes of a restore, from files in any mixture of old and new.
    restore_late-Spec :
        (C : Bool) (s : State)
        → Spec C
            (Held Everything)
            (restore_late sha (with_state s base))
            (λ _. End sha nodes0 before base)
            (Kept sha nodes0 before base)
    unfolding restore_late journal
    restore_late-Spec C s =
        Spec-bind {Q = λ text. Held Everything}
          (Spec-known (λ d h.
            let (text, gives, read) =
              check_untouched-known sha nodes0 before base t plan b s d h.0 in
            (text, gives, h)))
          (λ text.
            Spec-bind
              (Spec-write (put_receipt (some (with_state restoring base))) receipt_kept
                (Moving-Kept sha nodes0 before base b Everything)
                (Moving-Kept sha nodes0 before base b Everything))
              (λ _.
                Spec-bind
                  (record {
                    run = λ d h.
                        (put_back-Spec sha nodes0 before base b C 0 base.files Everything
                            (λ _ _ _. tt) plan.originals (h.0).whole).run
                          d h;
                  })
                  (λ _.
                    Spec-bind (put_back_registry-Spec C s text)
                      (λ _. finish-Spec sha nodes0 before base C s))))

    pub late-Spec :
        (C : Bool) (s : State)
        → IsLate s
        → Spec C
            (LateWith sha nodes0 before base b)
            (restore_locked sha (some (with_state s base)))
            (λ _. End sha nodes0 before base)
            (Kept sha nodes0 before base)
    unfolding restore_locked
    late-Spec C preparing is = absurd is
    late-Spec C restored is = absurd is
    late-Spec C installing is = Spec-weaken (λ d h. (h, tt)) (restore_late-Spec C installing)
    late-Spec C installed is = Spec-weaken (λ d h. (h, tt)) (restore_late-Spec C installed)
    late-Spec C restoring is = Spec-weaken (λ d h. (h, tt)) (restore_late-Spec C restoring)

  pub early-Spec :
      (C : Bool) (s : State)
      → IsEarly s
      → Spec C
          (Start sha nodes0 before base)
          (restore_locked sha (some (with_state s base)))
          (λ _. End sha nodes0 before base)
          (Kept sha nodes0 before base)
  unfolding restore_locked
  early-Spec C preparing is =
      Spec-weaken (λ d h. (h.untouched, early h)) (finish-Spec sha nodes0 before base C preparing)
  early-Spec C restored is =
      Spec-weaken (λ d h. (h.untouched, early h)) (finish-Spec sha nodes0 before base C restored)
  early-Spec C installing is = absurd is
  early-Spec C installed is = absurd is
  early-Spec C restoring is = absurd is
