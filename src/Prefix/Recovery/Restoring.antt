-- ===== src/Prefix/Recovery/Restoring.antt =====
-- restore_locked of runtime/kosmickrisp/dxvk-prefix.py, from every condition that a stopped
-- transaction leaves behind.
use mathlib.Core.Path.{subst}
use winecx_gptk.Common.{
  ℕ, ◌+◌, Bool, true, false, ◌≡◌, refl, sym, ap, ◌∙◌, Option, none, some, List, [], ◌∷◌, inl, inr,
  AllOf, is_some, is_none, if◌then◌else◌,
}
use winecx_gptk.Common.Text.{Text}
use winecx_gptk.Prefix.Disk.{
  FilePath, Digest, Node, absent, Identity, Entry, State, restored, Receipt, Backup, Disk, ok,
  write, copy_node, put_node, put_receipt, original_at,
}
use winecx_gptk.Prefix.Restore.{
  with_state, journal, finish, remove_backup, remove_if_there, put_back,
}
use winecx_gptk.Prefix.Triples.{
  Pred, At, Spec, Sub, Writes, Spec-bind, Spec-pure, Spec-gets, Spec-write, Spec-given, Spec-post,
  Spec-copy_there, CanCopy,
}
use winecx_gptk.Prefix.Recovery.{
  WasThere, Whole, IsSaved, Untouched, Clean, Early, LateWith, Recoverable, clean, early, late,
}
use winecx_gptk.Prefix.Recovery.Writes.{
  place, place-there, place_back, IsMixed-place_back, Others-place_back, IsRestored, identity-none,
  identity-some,
}

module _ (sha : Text → Digest) (nodes0 : FilePath → Node) (before : Text) (base : Receipt) where
  abbrev pub Back : Pred
  Back n g r k = Untouched nodes0 before n g × Recoverable sha nodes0 before base n g r k

  abbrev pub Kept : Pred
  Kept = Recoverable sha nodes0 before base

  abbrev pub Start : Pred
  Start = Early sha nodes0 before base

  abbrev pub End : Pred
  End = Clean nodes0 before

  receipt_restored : Writes (put_receipt (some (with_state restored base))) Back Start
  receipt_restored = record {
    takes = λ d h. record { untouched = h.0; state = restored; early = tt; receipt = refl };
    faults = λ d. refl;
  }

  backup_removed : Writes remove_backup Start Start
  backup_removed = record {
    takes = λ d (h : At Start d). record {
      untouched = h.untouched;
      state = h.state;
      early = h.early;
      receipt = h.receipt;
    };
    faults = λ d. refl;
  }

  receipt_removed : Writes (put_receipt none) Start End
  receipt_removed = record { takes = λ d (h : At Start d). (h.untouched, refl); faults = λ d. refl }

  remove-Spec : (C : Bool) (there : Bool) → Spec C Start (remove_if_there there) (λ _. Start) Kept
  remove-Spec C true = Spec-write remove_backup backup_removed (λ d h. early h) (λ d h. early h)
  remove-Spec C false = Spec-pure tt (λ d h. h)

  -- The end of a restore, from files that are all as they were.
  pub finish-Spec :
      (C : Bool) (s : State) → Spec C Back (finish (with_state s base)) (λ _. End) Kept
  unfolding finish journal
  finish-Spec C s =
      Spec-bind
        (Spec-write (put_receipt (some (with_state restored base))) receipt_restored (λ d h. h.1)
          (λ d h. early h))
        (λ _. Spec-bind {Q = λ _. Start} (Spec-gets (λ d. is_some d.backup) (λ d h. h)) (λ there.
          Spec-bind (remove-Spec C there) (λ _.
            Spec-write (put_receipt none) receipt_removed (λ d h. early h) (λ d h. clean h.0 h.1))))

  module _ (b : Backup) where
    -- With a condition on the files that holds on to what has been put back.
    abbrev pub Moving : ((FilePath → Node) → Type 0) → Pred
    Moving R n g r k = LateWith sha nodes0 before base b n g r k × R n

    abbrev pub Stable : ((FilePath → Node) → Type 0) → Type 0
    Stable R = (e : Entry) (n : FilePath → Node) → R n → R (place e (nodes0 e.target) n)

    pub Moving-Kept : (R : (FilePath → Node) → Type 0) → Sub (Moving R) Kept
    Moving-Kept R d h = late b h.0

    original_back :
        (R : (FilePath → Node) → Type 0) (stable : Stable R) (e : Entry)
        → Writes
            (put_node e.target (nodes0 e.target))
            (Moving R)
            (Moving (λ n. R n × IsRestored nodes0 n e))
    original_back R stable e = record {
      takes = λ d (h : At (Moving R) d). (
        record {
          mixed = IsMixed-place_back sha nodes0 before base e d.nodes base.files (h.0).mixed;
          others = Others-place_back sha nodes0 before base e d.nodes (h.0).others;
          registry = (h.0).registry;
          state = (h.0).state;
          late = (h.0).late;
          receipt = (h.0).receipt;
          backup = (h.0).backup;
          whole = (h.0).whole;
          copy = (h.0).copy;
        },
        (stable e d.nodes h.1, place-there e (nodes0 e.target) d.nodes),
      );
      faults = λ d. refl;
    }

    node_back :
        (R : (FilePath → Node) → Type 0) (stable : Stable R) (e : Entry) (x : Node)
        → x ≡ nodes0 e.target
        → Writes (put_node e.target x) (Moving R) (Moving (λ n. R n × IsRestored nodes0 n e))
    node_back R stable e x same =
        subst
          (λ (y : Node).
            Writes (put_node e.target y) (Moving R) (Moving (λ n. R n × IsRestored nodes0 n e)))
          (sym same) (original_back R stable e)

    -- One entry: its original is written, or it is removed.
    entry_back :
        (C : Bool) (R : (FilePath → Node) → Type 0) (stable : Stable R) (e : Entry)
        (saved payload : Node) (o : Option Identity)
        → e.original ≡ o
        → WasThere sha nodes0 before base e
        → IsSaved sha nodes0 before base e saved payload
        → Spec C
            (Moving R)
            (if is_none o
              then write (put_node e.target absent)
              else copy_node saved (put_node e.target))
            (λ _. Moving (λ n. R n × IsRestored nodes0 n e))
            Kept
    entry_back C R stable e saved payload none is was has =
        Spec-write (put_node e.target absent)
          (node_back R stable e absent (sym (identity-none sha (nodes0 e.target) (was ∙ ap ok is))))
          (Moving-Kept R) (Moving-Kept (λ n. R n × IsRestored nodes0 n e))
    entry_back C R stable e saved payload (some x) is was has = elim has.kept [
      | inl gone ↦ absurd (cc)
      | inr same ↦
          Spec-copy_there saved (put_node e.target)
            (subst CanCopy (sym same) (identity-some sha (nodes0 e.target) x (was ∙ ap ok is)))
            (node_back R stable e saved same) (Moving-Kept R)
            (Moving-Kept (λ n. R n × IsRestored nodes0 n e))
    ]

    original_at-backup : (i : ℕ) (d : Disk) → d.backup ≡ some b → original_at i d ≡ b.originals i
    original_at-backup i d h = rw h refl

    -- The loop that puts the files back, whatever has happened to them before.
    pub put_back-Spec :
        (C : Bool) (i : ℕ) (es : List Entry) (R : (FilePath → Node) → Type 0)
        → Stable R
        → AllOf (WasThere sha nodes0 before base) es
        → Whole sha nodes0 before base i es b
        → Spec C
            (Moving R)
            (put_back sha i es)
            (λ _. Moving (λ n. R n × AllOf (IsRestored nodes0 n) es))
            Kept
    unfolding put_back
    put_back-Spec C i [] R stable was has = Spec-pure tt (λ d h. (h.0, (h.1, tt)))
    put_back-Spec C i (e ∷ es) R stable was has =
        Spec-bind {Q = λ saved n g r k. Moving R n g r k × (saved ≡ b.originals i)}
          (Spec-gets (original_at i) (λ d h. (h, original_at-backup i d (h.0).backup)))
          (λ saved. Spec-given (λ same.
            Spec-bind
              (entry_back C R stable e saved (b.payloads i) e.original refl was.0
                (subst (λ x. IsSaved sha nodes0 before base e x (b.payloads i)) (sym same) has.0))
              (λ _.
                Spec-post (λ _ d h. (h.0, (h.1.0.0, (h.1.0.1, h.1.1))))
                  (put_back-Spec C (i + 1) es (λ n. R n × IsRestored nodes0 n e)
                    (λ e' n h. (stable e' n h.0, place_back sha nodes0 e' n e.target h.1)) was.1
                    has.1))))
