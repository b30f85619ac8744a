-- ===== src/Prefix/Recovery/Placing.antt =====
-- The second part of `install` of runtime/kosmickrisp/dxvk-prefix.py: the DLLs and the registry are
-- replaced one by one, and each time everything can still be put back.
use winecx_gptk.Common.{
  ℕ, ◌+◌, true, ◌≡◌, refl, ap, ◌∙◌, Option, none, some, List, [], ◌∷◌, inl, inr, AllOf,
}
use winecx_gptk.Common.Text.{Text}
use winecx_gptk.Prefix.Disk.{
  FilePath, Digest, Node, absent, file, content, Entry, installing, installed, Receipt, Backup,
  dll_changed, registry_changed, ok, put_node, put_registry, put_receipt, payload_at, same_identity,
}
use winecx_gptk.Prefix.Checks.{Tree}
use winecx_gptk.Prefix.Status.{identity}
use winecx_gptk.Prefix.Restore.{with_state, journal}
use winecx_gptk.Prefix.Install.{Payload, replace, put_in_place}
use winecx_gptk.Prefix.Triples.{
  Pred, At, Sub, Spec, Writes, Spec-bind, Spec-pure, Spec-gets, Spec-write, Spec-given, Spec-copy,
  Spec-try_require, Spec-try_lift, Spec-peek, Spec-post,
}
use winecx_gptk.Prefix.Recovery.{
  Plan, SameContent, IsMixed, Untouched, Whole, Early, LateWith, early, late, after,
}
use winecx_gptk.Prefix.Recovery.Writes.{IsTarget, all_targets, IsMixed-place, Others-place}
use winecx_gptk.Prefix.Recovery.Restoring.{Kept}
use winecx_gptk.Prefix.Recovery.Staging.{Backed}
use winecx_gptk.Prefix.Recovery.BackingUp.{WholeBackup}

module _ (sha : Text → Digest) (p : Payload) (nodes0 : FilePath → Node) (before : Text)
    (base : Receipt) where
  all_old :
      (n : FilePath → Node) (es : List Entry)
      → Untouched nodes0 before n (file before)
      → AllOf (IsMixed sha nodes0 before base n) es
  all_old n [] u = tt
  all_old n (e ∷ es) u = (inl (u.nodes e.target), all_old n es u)

  module _ (b : Backup) where
    abbrev Ready : Pred
    Ready n g r k =
        Early sha nodes0 before base n g r k
        × ((k ≡ some b) × WholeBackup sha p nodes0 before base b)

    abbrev Held : Pred
    Held = LateWith sha nodes0 before base b

    Held-Kept : Sub Held (Kept sha nodes0 before base)
    Held-Kept d h = late b h

    now_installing : Writes (put_receipt (some (with_state installing base))) Ready Held
    now_installing = record {
      takes = λ d (h : At Ready d). record {
        mixed =
            all_old d.nodes base.files (record { nodes = (h.0).untouched.nodes; registry = refl });
        others = λ path off. (h.0).untouched.nodes path;
        registry = inl (h.0).untouched.registry;
        state = installing;
        late = tt;
        receipt = refl;
        backup = h.1.0;
        whole = h.1.1.0;
        copy = h.1.1.1;
      };
      faults = λ d. refl;
    }

    now_installed : Writes (put_receipt (some (with_state installed base))) Held Held
    now_installed = record {
      takes = λ d (h : At Held d). record {
        mixed = h.mixed;
        others = h.others;
        registry = h.registry;
        state = installed;
        late = tt;
        receipt = refl;
        backup = h.backup;
        whole = h.whole;
        copy = h.copy;
      };
      faults = λ d. refl;
    }

    new_registry : Writes (put_registry (file (after sha nodes0 before base))) Held Held
    new_registry = record {
      takes = λ d (h : At Held d). record {
        mixed = h.mixed;
        others = h.others;
        registry = inr refl;
        state = h.state;
        late = h.late;
        receipt = h.receipt;
        backup = h.backup;
        whole = h.whole;
        copy = h.copy;
      };
      faults = λ d. refl;
    }

    new_dll :
        (e : Entry) (x : Node)
        → identity sha x ≡ ok (some (content e.installed_sha256))
        → AllOf (SameContent e) base.files
        → IsTarget base.files e
        → Writes (put_node e.target x) Held Held
    new_dll e x is same named = record {
      takes = λ d (h : At Held d). record {
        mixed = IsMixed-place sha nodes0 before base e x d.nodes base.files is same h.mixed;
        others = Others-place sha nodes0 before base e x d.nodes named h.others;
        registry = h.registry;
        state = h.state;
        late = h.late;
        receipt = h.receipt;
        backup = h.backup;
        whole = h.whole;
        copy = h.copy;
      };
      faults = λ d. refl;
    }

    payload_kept :
        (i : ℕ) (k : Option Backup)
        → k ≡ some b
        → (elim k [ none ↦ absent | some c ↦ c.payloads i ]) ≡ b.payloads i
    payload_kept i k e =
        ap (λ (x : Option Backup). elim x [ none ↦ absent | some c ↦ c.payloads i ]) e

    replace-Spec :
        (i : ℕ) (es : List Entry)
        → AllOf (λ e. AllOf (SameContent e) base.files) es
        → AllOf (IsTarget base.files) es
        → Whole sha nodes0 before base i es b
        → Spec true Held (replace sha p i es) (λ _. Held) (Kept sha nodes0 before base)
    unfolding replace
    replace-Spec i [] same named has = Spec-pure tt (λ d h. h)
    replace-Spec i (e ∷ es) same named has = Spec-bind (Spec-peek (λ d. d.nodes e.target)) (λ found.
        Spec-bind (Spec-try_lift (identity sha found) Held-Kept) (λ now.
          Spec-bind (Spec-try_require (same_identity now e.original) dll_changed Held-Kept) (λ _.
            Spec-bind {Q = λ staged n g r k. Held n g r k × (staged ≡ b.payloads i)}
              (Spec-gets (payload_at i) (λ d h. (h, payload_kept i d.backup h.backup)))
              (λ staged. Spec-given (λ from.
                Spec-bind
                  (Spec-copy staged (put_node e.target)
                    (new_dll e staged (ap (identity sha) from ∙ has.0.staged) same.0 named.0)
                    Held-Kept Held-Kept)
                  (λ _. replace-Spec (i + 1) es same.1 named.1 has.1))))))

    ready-Spec :
        (t : Tree)
        → Plan sha nodes0 before base t
        → WholeBackup sha p nodes0 before base b
        → Spec true Ready
            (put_in_place sha p base (after sha nodes0 before base))
            (λ _. Held)
            (Kept sha nodes0 before base)
    unfolding put_in_place journal
    ready-Spec t plan has =
        Spec-bind
          (Spec-write (put_receipt (some (with_state installing base))) now_installing
            (λ d h. early h.0) Held-Kept)
          (λ _.
            Spec-bind (replace-Spec 0 base.files plan.consistent (all_targets base.files) has.0)
              (λ _. Spec-bind (Spec-peek (λ d. d.registry)) (λ registry.
                Spec-bind (Spec-try_lift (identity sha registry) Held-Kept) (λ now.
                  Spec-bind
                    (Spec-try_require (same_identity now base.registry_original) registry_changed
                      Held-Kept)
                    (λ _.
                      Spec-bind
                        (Spec-write (put_registry (file (after sha nodes0 before base)))
                          new_registry Held-Kept Held-Kept)
                        (λ _.
                          Spec-write (put_receipt (some (with_state installed base))) now_installed
                            Held-Kept Held-Kept))))))

  -- From the whole backup to the installed files, or an error; either way all can be put back.
  pub put_in_place-Spec :
      (t : Tree)
      → Plan sha nodes0 before base t
      → Spec true
          (Backed sha p nodes0 before base (WholeBackup sha p nodes0 before base))
          (put_in_place sha p base (after sha nodes0 before base))
          (λ _. Kept sha nodes0 before base)
          (Kept sha nodes0 before base)
  put_in_place-Spec t plan = record {
    run = λ d h.
        (Spec-post (λ _ d' k. late h.1.0 k) (ready-Spec h.1.0 t plan h.1.2)).run d
          (h.0, (h.1.1, h.1.2));
  }
