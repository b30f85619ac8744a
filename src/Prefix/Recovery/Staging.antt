-- ===== src/Prefix/Recovery/Staging.antt =====
-- The first loop of `install` of runtime/kosmickrisp/dxvk-prefix.py: every original and every file to
-- install goes to the backup.
use mathlib.Core.Path.{subst}
use winecx_gptk.Common.{
  ℕ, ◌+◌, ◌≤◌, true, ◌≡◌, refl, sym, ap, ◌∙◌, Option, none, some, List, [], ◌∷◌, ◌⊎◌, inl, inr,
  is_none, if◌then◌else◌, arith,
}
use winecx_gptk.Common.Text.{Text}
use winecx_gptk.Prefix.Disk.{
  in_backup, FilePath, Digest, Node, absent, Identity, content, Entry, Receipt, Backup,
  payload_changed, ok, M, pure, lift, gets, require, ◌>>=◌, ◌>>◌, copy_node, update, put_original,
  put_payload, payload_at, same_identity,
}
use winecx_gptk.Prefix.Status.{identity}
use winecx_gptk.Prefix.Install.{Payload, stage}
use winecx_gptk.Prefix.Triples.{
  Pred, At, Sub, Spec, Writes, Spec-bind, Spec-pure, Spec-gets, Spec-weaken, Spec-given, Spec-post,
  Spec-require, Spec-lift, Spec-copy,
}
use winecx_gptk.Prefix.Recovery.{IsSaved, Whole, Early, early}
use winecx_gptk.Prefix.Recovery.Writes.{same_identity_sound}
use winecx_gptk.Prefix.Recovery.Restoring.{Kept}

update-there : {A : Type 0} (i : ℕ) (a : A) (f : ℕ → A) → update i a f i ≡ a
update-there i a f = ground arith

update-apart : {A : Type 0} (i j : ℕ) (a : A) (f : ℕ → A) → i + 1 ≤ j → update j a f i ≡ f i
update-apart i j a f h = ground arith

module _ (sha : Text → Digest) (p : Payload) (nodes0 : FilePath → Node) (before : Text)
    (base : Receipt) where
  -- No file is touched yet; the backup is there and has the property.
  abbrev pub Backed : (Backup → Type 0) → Pred
  Backed R n g r k = Early sha nodes0 before base n g r k × ((b : Backup) × (k ≡ some b) × R b)

  pub Backed-Kept : (R : Backup → Type 0) → Sub (Backed R) (Kept sha nodes0 before base)
  Backed-Kept R d h = early h.0

  -- A change of the backup.
  pub in_backup-Writes :
      (R R' : Backup → Type 0) (change : Backup → Backup)
      → ((b : Backup) → R b → R' (change b))
      → Writes (in_backup change) (Backed R) (Backed R')
  in_backup-Writes R R' change f = record {
    takes = λ d (h : At (Backed R) d). (
      record {
        untouched = (h.0).untouched;
        state = (h.0).state;
        early = (h.0).early;
        receipt = (h.0).receipt;
      },
      (
        change h.1.0,
        ap (λ (k : Option Backup). elim k [ none ↦ none | some b ↦ some (change b) ]) h.1.1,
        f h.1.0 h.1.2,
      ),
    );
    faults = λ d. refl;
  }

  -- The property does not look at the places from `i` on.
  pub record Below (i : ℕ) (R : Backup → Type 0) : Type 0 where
    pub originals :
        (j : ℕ) (x : Node) (b : Backup)
        → i ≤ j
        → R b
        → R (record b { originals = update j x b.originals })
    pub payloads :
        (j : ℕ) (x : Node) (b : Backup)
        → i ≤ j
        → R b
        → R (record b { payloads = update j x b.payloads })

  -- The original of one entry is copied, if there is one.
  abbrev Original : ℕ → Entry → Backup → Type 0
  Original i e b = (e.original ≡ none) ⊎ (b.originals i ≡ nodes0 e.target)

  original-Spec :
      (i : ℕ) (R : Backup → Type 0) (e : Entry) (found : Node) (o : Option Identity)
      → Below i R
      → e.original ≡ o
      → found ≡ nodes0 e.target
      → Spec true
          (Backed R)
          (if is_none o then pure tt else copy_node found (put_original i))
          (λ _. Backed (λ b. R b × Original i e b))
          (Kept sha nodes0 before base)
  original-Spec i R e found none below is same =
      Spec-pure tt (λ d h. (h.0, (h.1.0, h.1.1, (h.1.2, inl is))))
  original-Spec i R e found (some x) below is same =
      Spec-copy found (put_original i)
        (in_backup-Writes R (λ b. R b × Original i e b)
          (λ b. record b { originals = update i found b.originals })
          (λ b h. (
            below.originals i found b (omega arith) h,
            inr (update-there i found b.originals ∙ same),
          )))
        (Backed-Kept R) (Backed-Kept (λ b. R b × Original i e b))

  abbrev Staged : ℕ → Node → Backup → Type 0
  Staged i x b = x ≡ b.payloads i

  payload_at-backup :
      (i : ℕ) (k : Option Backup) (b : Backup)
      → k ≡ some b
      → (elim k [ none ↦ absent | some c ↦ c.payloads i ]) ≡ b.payloads i
  payload_at-backup i k b e =
      ap (λ (x : Option Backup). elim x [ none ↦ absent | some c ↦ c.payloads i ]) e

  -- The file to install is copied, and what was copied is what the receipt says.
  payload-Spec :
      (i : ℕ) (R : Backup → Type 0) (e : Entry)
      → ((x : Node) (b : Backup) → R b → R (record b { payloads = update i x b.payloads }))
      → (rest : M (Unit {0})) (R' : Backup → Type 0)
      → Spec true
          (Backed
            (λ b. R b × (identity sha (b.payloads i) ≡ ok (some (content e.installed_sha256)))))
          rest
          (λ _. Backed R')
          (Kept sha nodes0 before base)
      → Spec true
          (Backed R)
          (do
            copy_node (p.files e.arch e.name) (put_payload i)
            staged ← gets (payload_at i)
            now ← lift (identity sha staged)
            require (same_identity now (some (content e.installed_sha256))) payload_changed
            rest)
          (λ _. Backed R')
          (Kept sha nodes0 before base)
  payload-Spec i R e keeps rest R' after =
      Spec-bind
        (Spec-copy (p.files e.arch e.name) (put_payload i)
          (in_backup-Writes R R
            (λ b. record b { payloads = update i (p.files e.arch e.name) b.payloads })
            (λ b h. keeps (p.files e.arch e.name) b h))
          (Backed-Kept R) (Backed-Kept R))
        (λ _.
          Spec-bind {Q = λ staged. Backed (λ b. R b × Staged i staged b)}
            (Spec-gets (payload_at i)
              (λ d h. (h.0, (h.1.0, h.1.1, (h.1.2, payload_at-backup i d.backup h.1.0 h.1.1)))))
            (λ staged.
              Spec-bind
                (Spec-lift (identity sha staged) (Backed-Kept (λ b. R b × Staged i staged b)))
                (λ now. Spec-bind (Spec-require _ payload_changed (λ d h. early h.0.0)) (λ _.
                  Spec-given (λ same. Spec-given (λ is.
                    Spec-weaken
                      (λ d h. (
                        h.0,
                        (
                          h.1.0,
                          h.1.1,
                          (
                            h.1.2.0,
                            ap (identity sha) (sym h.1.2.1)
                                ∙ is
                                ∙ ap ok (same_identity_sound now _ same),
                          ),
                        ),
                      ))
                      after))))))

  abbrev Saved : ℕ → Entry → Backup → Type 0
  Saved i e b = IsSaved sha nodes0 before base e (b.originals i) (b.payloads i)

  below_later :
      (i : ℕ) (R : Backup → Type 0) (e : Entry) → Below i R → Below (i + 1) (λ b. R b × Saved i e b)
  below_later i R e below = record {
    originals = λ j x b le h. (
      below.originals j x b (omega arith) h.0,
      subst (λ (y : Node). IsSaved sha nodes0 before base e y (b.payloads i))
          (sym (update-apart i j x b.originals le)) h.1,
    );
    payloads = λ j x b le h. (
      below.payloads j x b (omega arith) h.0,
      subst (λ (y : Node). IsSaved sha nodes0 before base e (b.originals i) y)
          (sym (update-apart i j x b.payloads le)) h.1,
    );
  }

  -- The first loop: every entry is saved.
  pub stage-Spec :
      (i : ℕ) (es : List Entry) (R : Backup → Type 0)
      → Below i R
      → Spec true
          (Backed R)
          (stage sha p i es)
          (λ _. Backed (λ b. R b × Whole sha nodes0 before base i es b))
          (Kept sha nodes0 before base)
  unfolding stage
  stage-Spec i [] R below = Spec-pure tt (λ d h. (h.0, (h.1.0, h.1.1, (h.1.2, tt))))
  stage-Spec i (e ∷ es) R below =
      let later = λ (b : Backup). R b × Saved i e b in
      Spec-bind {Q = λ found n g r k. Backed R n g r k × (found ≡ nodes0 e.target)}
        (Spec-gets (λ d. d.nodes e.target) (λ d h. (h, (h.0).untouched.nodes e.target)))
        (λ found. Spec-given (λ same.
          Spec-bind (original-Spec i R e found e.original below refl same) (λ _.
            payload-Spec i (λ b. R b × Original i e b) e
              (λ x b h. (below.payloads i x b (omega arith) h.0, h.1)) (stage sha p (i + 1) es)
              (λ b. R b × Whole sha nodes0 before base i (e ∷ es) b)
              (Spec-weaken
                (λ d h.
                  (h.0, (h.1.0, h.1.1, (h.1.2.0.0, record { kept = h.1.2.0.1; staged = h.1.2.1 }))))
                (Spec-post (λ _ d h. (h.0, (h.1.0, h.1.1, (h.1.2.0.0, (h.1.2.0.1, h.1.2.1)))))
                  (stage-Spec (i + 1) es later (below_later i R e below)))))))
