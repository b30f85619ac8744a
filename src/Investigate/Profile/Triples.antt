-- ===== src/Investigate/Profile/Triples.antt =====
-- Triples for the steps of the profile transaction of runtime/kosmickrisp/investigate.py: from a
-- condition, a step that succeeds leaves one condition, and a step that fails leaves another; without
-- faults it does not fail.
use mathlib.Core.Path.{subst}
use winecx_gptk.Common.{Bool, true, false, List, [], ◌∷◌, ◌≡◌, refl, sym, ap, ◌∙◌, if◌then◌else◌}
use winecx_gptk.Common.Text.{Text}
use winecx_gptk.Investigate.Profile.Disk.{
  Disk, Done, ok, failed, Act, then_do, ◌>>◌, skip, raise, require, reads, write, take_fault, quiet,
  Fault, fine, early, late, torn,
}

module _ {S : Type 0} where
  -- A condition is about what is on the disk, whatever writes will fail.
  abbrev pub At : (Disk S → Type 0) → Disk S → Type 0
  At P d = P (quiet [] d)

  abbrev pub Calm : Bool → Disk S → Type 0
  Calm false d = Unit {0}
  Calm true d = d.faults ≡ []

  abbrev pub Ends : Bool → Done S → (Disk S → Type 0) → (Disk S → Type 0) → Type 0
  Ends calm (ok d) Q E = At Q d × Calm calm d
  Ends true (failed e d) Q E = ⊥
  Ends false (failed e d) Q E = At E d

  pub record Spec (calm : Bool) (P : Disk S → Type 0) (a : Act S) (Q E : Disk S → Type 0)
      : Type 0 where
    pub run : (d : Disk S) → At P d → Calm calm d → Ends calm (a d) Q E

  -- A change or a broken copy that does not look at the faults.
  abbrev pub Plain : (Disk S → Disk S) → Type 0
  Plain change = (fs : List (Fault S)) (d : Disk S) → change (quiet fs d) ≡ quiet fs (change d)

module _ {S : Type 0} where
  Ends-then :
      (Q R E : Disk S → Type 0) (calm : Bool) (r : Done S) (b : Act S)
      → Ends calm r Q E
      → Spec calm Q b R E
      → Ends calm (then_do r b) R E
  Ends-then Q R E calm (ok d) b h k = k.run d h.0 h.1
  Ends-then Q R E true (failed e d) b h k = absurd h
  Ends-then Q R E false (failed e d) b h k = h

  pub Spec-then :
      {P Q R E : Disk S → Type 0} {calm : Bool} {a b : Act S}
      → Spec calm P a Q E
      → Spec calm Q b R E
      → Spec calm P (a >> b) R E
  Spec-then {Q = Q} {R = R} {E = E} {calm = calm} {a = a} {b = b} h k = record {
    run = λ d p c. Ends-then Q R E calm (a d) b (h.run d p c) k;
  }

  pub Spec-skip : {P E : Disk S → Type 0} {calm : Bool} → Spec calm P skip P E
  Spec-skip = record { run = λ d p c. (p, c) }

  Ends-require :
      (P E : Disk S → Type 0) (calm b : Bool) (e : Text) (d : Disk S)
      → b ≡ true
      → At P d
      → Calm calm d
      → Ends calm (require b e d) P E
  Ends-require P E calm true e d h p c = (p, c)
  Ends-require P E calm false e d h p c = absurd cc

  pub Spec-require :
      {P E : Disk S → Type 0} {calm : Bool} (test : Disk S → Bool) (e : Text)
      → ((d : Disk S) → At P d → test d ≡ true)
      → Spec calm P (reads (λ d. require (test d) e)) P E
  Spec-require {P = P} {E = E} {calm = calm} test e h = record {
    run = λ d p c. Ends-require P E calm (test d) e d (h d p) p c;
  }

  -- A step that reads the disk is one of a family.
  pub Spec-reads :
      {P Q E : Disk S → Type 0} {calm : Bool} (f : Disk S → Act S)
      → ((d : Disk S) → At P d → Spec calm (λ d'. P d' × (quiet [] d' ≡ quiet [] d)) (f d) Q E)
      → Spec calm P (reads f) Q E
  Spec-reads f h = record { run = λ d p c. (h d p).run d (p, refl) c }

  faults-quiet : (fs : List (Fault S)) (d : Disk S) → d.faults ≡ fs → d ≡ quiet fs d
  faults-quiet fs d h = λ i. record d { faults = h i }

  take_fault-Ends :
      (Q E : Disk S → Type 0) (calm : Bool) (fs : List (Fault S)) (change : Disk S → Disk S)
      (tear : Text → S → Disk S → Disk S) (e : Text) (d : Disk S)
      → ((gs : List (Fault S)) → At Q (change (quiet gs d)))
      → ((gs : List (Fault S)) → (change (quiet gs d)).faults ≡ gs)
      → At E d
      → ((d' : Disk S) → At Q d' → At E d')
      → ((t : Text) (s : S) (gs : List (Fault S)) → At E (tear t s (quiet gs d)))
      → d.faults ≡ fs
      → Calm calm d
      → Ends calm (take_fault fs change tear e d) Q E
  take_fault-Ends Q E false [] change tear e d q k p weak broken h c =
      (subst (λ x. At Q (change x)) (sym (faults-quiet [] d h)) (q []), tt)
  take_fault-Ends Q E true [] change tear e d q k p weak broken h c = (
    subst (λ x. At Q (change x)) (sym (faults-quiet [] d h)) (q []),
    ap (λ (x : Disk S). (change x).faults) (faults-quiet [] d h) ∙ k [],
  )
  take_fault-Ends Q E true (f ∷ fs) change tear e d q k p weak broken h c =
      let clash : [] ≡ f ∷ fs = sym c ∙ h in absurd (cc)
  take_fault-Ends Q E false (fine ∷ fs) change tear e d q k p weak broken h c = (q fs, tt)
  take_fault-Ends Q E false (early ∷ fs) change tear e d q k p weak broken h c = p
  take_fault-Ends Q E false (late ∷ fs) change tear e d q k p weak broken h c =
      weak (change (quiet fs d)) (q fs)
  take_fault-Ends Q E false (torn t s ∷ fs) change tear e d q k p weak broken h c = broken t s fs

  -- A write establishes `Q`; where it fails, its start, its end and a broken copy keep `E`.
  pub Spec-write :
      {P Q E : Disk S → Type 0} {calm : Bool} (change : Disk S → Disk S)
      (tear : Text → S → Disk S → Disk S) (e : Text)
      → Plain change
      → ((t : Text) (s : S) → Plain (tear t s))
      → ((d : Disk S) → P d → Q (change d))
      → ((d : Disk S) → P d → E d)
      → ((d : Disk S) → Q d → E d)
      → ((t : Text) (s : S) (d : Disk S) → P d → E (tear t s d))
      → Spec calm P (write change tear e) Q E
  unfolding write
  Spec-write {P = P} {Q = Q} {E = E} {calm = calm} change tear e plain plain' q p weak broken =
      record {
        run = λ d h c.
            take_fault-Ends Q E calm d.faults change tear e d
              (λ gs. subst Q (plain [] d ∙ sym (ap (quiet []) (plain gs d))) (q (quiet [] d) h))
              (λ gs. ap (λ (x : Disk S). x.faults) (plain gs d)) (p (quiet [] d) h)
              (λ d' k. weak (quiet [] d') k)
              (λ t s gs.
                subst E (plain' t s [] d ∙ sym (ap (quiet []) (plain' t s gs d)))
                  (broken t s (quiet [] d) h))
              refl c;
      }

  -- Conditions that imply one another.
  Ends-weaken :
      (Q R E F : Disk S → Type 0) (calm : Bool) (r : Done S)
      → ((d : Disk S) → Q d → R d)
      → ((d : Disk S) → E d → F d)
      → Ends calm r Q E
      → Ends calm r R F
  Ends-weaken Q R E F calm (ok d) q e h = (q (quiet [] d) h.0, h.1)
  Ends-weaken Q R E F true (failed x d) q e h = absurd h
  Ends-weaken Q R E F false (failed x d) q e h = e (quiet [] d) h

  pub Spec-weaken :
      {P Q R E F : Disk S → Type 0} {O : Disk S → Type 0} {calm : Bool} {a : Act S}
      → ((d : Disk S) → O d → P d)
      → Spec calm P a Q E
      → ((d : Disk S) → Q d → R d)
      → ((d : Disk S) → E d → F d)
      → Spec calm O a R F
  Spec-weaken {P = P} {Q = Q} {R = R} {E = E} {F = F} {calm = calm} {a = a} o h q e = record {
    run = λ d p c. Ends-weaken Q R E F calm (a d) q e (h.run d (o (quiet [] d) p) c);
  }

module _ {S : Type 0} where
  pub Ends-if :
      (Q E : Disk S → Type 0) (calm test : Bool) (r s : Done S)
      → Ends calm r Q E
      → Ends calm s Q E
      → Ends calm (if test then r else s) Q E
  Ends-if Q E calm true r s h k = h
  Ends-if Q E calm false r s h k = k

  Ends-may :
      (P E : Disk S → Type 0) (b : Bool) (e : Text) (d : Disk S)
      → At P d
      → At E d
      → Ends false (require b e d) P E
  Ends-may P E true e d p q = (p, tt)
  Ends-may P E false e d p q = q

  -- A check that may fail.
  pub Spec-may :
      {P E : Disk S → Type 0} (test : Disk S → Bool) (e : Text)
      → ((d : Disk S) → P d → E d)
      → Spec false P (reads (λ d. require (test d) e)) P E
  Spec-may {P = P} {E = E} test e h = record {
    run = λ d p c. Ends-may P E (test d) e d p (h (quiet [] d) p);
  }

  pub Spec-raise :
      {P Q E : Disk S → Type 0} {e : Text} → ((d : Disk S) → P d → E d) → Spec false P (raise e) Q E
  Spec-raise h = record { run = λ d p c. h (quiet [] d) p }
