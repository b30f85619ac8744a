-- ===== src/Investigate/Profile/Undone.antt =====
-- A profile transaction of runtime/kosmickrisp/investigate.py, stopped anywhere and restored: all is as
-- it was.
use mathlib.Core.Path.{subst}
use winecx_gptk.Common.{
  Bool, true, false, ◌&&◌, Option, none, some, List, [], ◌∷◌, ◌≡◌, refl, ap, sym, ◌∙◌, arith,
  if◌then◌else◌, inl, inr, ◌⊎◌,
}
use winecx_gptk.Common.Text.{Text, text_eq, text_eq_refl}
use winecx_gptk.Investigate.Profile.Disk.{
  Done, ok, failed, Fault, restored, Journal, Disk, skip, quiet,
}
use winecx_gptk.Investigate.Profile.Transaction.{Setup, prepare}
use winecx_gptk.Investigate.Profile.Restore.{restore, restore_journal, is_restored, restore_from}
use winecx_gptk.Investigate.Profile.Triples.{
  At, Calm, Ends, Spec, Spec-then, Spec-skip, Spec-require, Spec-weaken,
}
use winecx_gptk.Investigate.Profile.Original.{
  Original, AtRest, Describes, Backed, ended, Over, Settled,
}
use winecx_gptk.Investigate.Profile.Preparing.{Idle, Started}
use winecx_gptk.Investigate.Profile.Changing.{prepare-Spec}
use winecx_gptk.Investigate.Profile.Completing.{restore_from-Spec}

both_true : {a b : Bool} → a ≡ true → b ≡ true → (a && b) ≡ true
both_true h k = ground arith

module _ {S : Type 0} (sha : Text → Text) (inventory_hash : S → Text) (p : Setup) where
  abbrev pub disk_of : Done S → Disk S
  disk_of (ok d) = d
  disk_of (failed e d) = d

  -- One `restore` after the other, each with its own failing writes.
  unfoldable pub retries : List (List (Fault S)) → Disk S → Disk S
  unfolding restore
  retries [] d = d
  retries (fs ∷ later) d = retries later (disk_of (restore sha inventory_hash p (quiet fs d)))

module _ {S : Type 0} (sha : Text → Text) (inventory_hash : S → Text) (o : Original S)
    (p : Setup) where
  -- A transaction for this plan is over.
  record Finished (d : Disk S) : Type 0 where
    entries : Journal
    profile : entries.profile ≡ p.profile
    appid : entries.appid ≡ p.appid
    over : Over o entries d

  abbrev Back : Disk S → Type 0
  Back d = Idle sha inventory_hash o p d ⊎ Finished d

  abbrev Lasting : Disk S → Type 0
  Lasting d = Started sha inventory_hash o p d ⊎ Finished d

  at_rest : (d : Disk S) → AtRest o (quiet [] d) → AtRest o d
  at_rest d h = record { config = h.config; saves = h.saves; appid = h.appid; dll = h.dll }

  same_target :
      (j : Journal)
      → j.profile ≡ p.profile
      → j.appid ≡ p.appid
      → (text_eq j.profile p.profile && text_eq j.appid p.appid) ≡ true
  same_target j e f =
      ap (λ x. text_eq x p.profile && text_eq j.appid p.appid) e
      ∙ (ap (λ x. text_eq p.profile p.profile && text_eq x p.appid) f
          ∙ both_true (text_eq_refl p.profile) (text_eq_refl p.appid))

  lasting :
      (j : Journal)
      → Describes sha inventory_hash o j
      → j.profile ≡ p.profile
      → j.appid ≡ p.appid
      → (d : Disk S) → Settled o j d
      → Lasting d
  lasting j h e f d (inl b) =
      inl (inr (record { entries = j; describes = h; profile = e; appid = f; backed = b }))
  lasting j h e f d (inr v) = inr (record { entries = j; profile = e; appid = f; over = v })

  -- The journal of a transaction that is under way.
  restore_active-Spec :
      (calm : Bool) (j : Journal)
      → Describes sha inventory_hash o j
      → j.profile ≡ p.profile
      → j.appid ≡ p.appid
      → Spec calm (Backed o j) (restore_journal sha inventory_hash p (some j)) Back Lasting
  restore_active-Spec calm j h e f =
      Spec-then
        (Spec-require (λ d. text_eq j.profile p.profile && text_eq j.appid p.appid) _
          (λ d b. same_target j e f))
        (subst
          (λ s.
            Spec calm (Backed o j)
              (if is_restored s then skip else restore_from sha inventory_hash j) Back Lasting)
          (sym h.state)
          (Spec-weaken (λ x k. k) (restore_from-Spec h calm)
            (λ x k. inr (record { entries = j; profile = e; appid = f; over = k }))
            (λ x k. lasting j h e f x k)))

  at_journal :
      (P : Disk S → Type 0) (calm : Bool) (d : Disk S) (x : Option Journal)
      → d.journal ≡ x
      → Spec calm P (restore_journal sha inventory_hash p x) Back Lasting
      → At P d
      → Calm calm d
      → Ends calm (restore sha inventory_hash p d) Back Lasting
  unfolding restore
  at_journal P calm d x e h k c =
      subst (λ y. Ends calm (restore_journal sha inventory_hash p y d) Back Lasting) (sym e)
        (h.run d k c)

  restore-Ends :
      (calm : Bool) (d : Disk S)
      → At Lasting d
      → Calm calm d
      → Ends calm (restore sha inventory_hash p d) Back Lasting
  restore-Ends calm d (inl (inl i)) c =
      at_journal (Idle sha inventory_hash o p) calm d none i.journal
        (Spec-weaken {P = Idle sha inventory_hash o p} {E = Lasting} (λ x k. k) Spec-skip
          (λ x k. inl k) (λ x k. k))
        i c
  restore-Ends calm d (inl (inr a)) c =
      at_journal (Backed o a.entries) calm d (some a.entries) (a.backed).journal
        (restore_active-Spec calm a.entries a.describes a.profile a.appid) a.backed c
  restore-Ends calm d (inr f) c =
      at_journal Finished calm d (some (ended f.entries)) (f.over).journal
        (Spec-then
          (Spec-require
            (λ x. text_eq (f.entries).profile p.profile && text_eq (f.entries).appid p.appid) _
            (λ x k. same_target f.entries f.profile f.appid))
          (Spec-weaken {P = Finished} {E = Lasting} (λ x k. k) Spec-skip (λ x k. inr k) (λ x k. k)))
        f c

  stopped-Lasting :
      (r : Done S) → Ends false r Back Lasting → At Lasting (disk_of sha inventory_hash p r)
  stopped-Lasting (ok d) (inl i, c) = inl (inl i)
  stopped-Lasting (ok d) (inr f, c) = inr f
  stopped-Lasting (failed e d) h = h

  retries-Lasting :
      (later : List (List (Fault S))) (d : Disk S)
      → At Lasting d
      → At Lasting (retries sha inventory_hash p later d)
  unfolding retries
  retries-Lasting [] d h = h
  retries-Lasting (fs ∷ later) d h =
      retries-Lasting later
        (disk_of sha inventory_hash p (restore sha inventory_hash p (quiet fs d)))
        (stopped-Lasting (restore sha inventory_hash p (quiet fs d))
          (restore-Ends false (quiet fs d) h tt))

  Started-Lasting :
      (r : Done S)
      → Ends false r (Started sha inventory_hash o p) (Started sha inventory_hash o p)
      → At Lasting (disk_of sha inventory_hash p r)
  Started-Lasting (ok d) h = inl h.0
  Started-Lasting (failed e d) h = inl h

  -- A call that returns, with the original back and no transaction under way.
  abbrev pub PutsBack : Done S → Type 0
  PutsBack (ok d) =
      AtRest o d
      × ((d.journal ≡ none) ⊎ ((j : Journal) × (d.journal ≡ some j) × (j.state ≡ restored)))
  PutsBack (failed e d) = ⊥

  back-PutsBack : (r : Done S) → Ends true r Back Lasting → PutsBack r
  back-PutsBack (ok d) (inl i, c) = (at_rest d i.rest, inl i.journal)
  back-PutsBack (ok d) (inr f, c) =
      (at_rest d (f.over).rest, inr (ended f.entries, (f.over).journal, refl))
  back-PutsBack (failed e d) h = absurd h

  -- Where no transaction was there before: `prepare` may be stopped at any write, before or after its
  -- effect or in the middle of a copy, or it may raise or return; so may any number of calls of
  -- `restore` after it. One `restore` that no failing write stops then returns, with the settings, the
  -- saves, steam_appid.txt and every DLL as they were, and no transaction under way.
  pub restore-prepare :
      (d : Disk S) (fs : List (Fault S)) (later : List (List (Fault S)))
      → d.journal ≡ none
      → AtRest o d
      → PutsBack (
          restore sha inventory_hash p (
            quiet [] (
              retries sha inventory_hash p later
                (disk_of sha inventory_hash p (prepare sha inventory_hash p (quiet fs d))))))
  restore-prepare d fs later e h =
      let idle : At (Idle sha inventory_hash o p) (quiet fs d) = record {
        journal = e;
        rest = record { config = h.config; saves = h.saves; appid = h.appid; dll = h.dll };
      } in
      let begun =
        Started-Lasting (prepare sha inventory_hash p (quiet fs d))
          ((prepare-Spec sha inventory_hash o p).run (quiet fs d) idle tt) in
      let last =
        retries-Lasting later
          (disk_of sha inventory_hash p (prepare sha inventory_hash p (quiet fs d))) begun in
      back-PutsBack
        (restore sha inventory_hash p (
          quiet [] (
            retries sha inventory_hash p later
              (disk_of sha inventory_hash p (prepare sha inventory_hash p (quiet fs d))))))
        (restore-Ends true
          (quiet [] (
            retries sha inventory_hash p later
              (disk_of sha inventory_hash p (prepare sha inventory_hash p (quiet fs d)))))
          last refl)
