-- ===== src/Prefix/Triples.antt =====
-- Statements of the form: from `P`, the function ends in `Q`, or raises in `E`. They are about the
-- functions of runtime/kosmickrisp/dxvk-prefix.py, through the monad of Disk.
use winecx_gptk.Common.{Bool, true, false, ◌≡◌, refl, ◌∙◌, List, [], ◌∷◌, Option, arith}
use winecx_gptk.Prefix.Disk.{
  FilePath, Node, absent, other, link, file, Receipt, Backup, Fault, fine, fails_before,
  fails_after, Disk, Error, Result, ok, err, M, continue, pure, lift, gets, require, ◌>>=◌, write,
  copy_node,
}

-- A condition on what is on the disk, whatever writes will fail.
abbrev pub Pred : Type 1
Pred = (FilePath → Node) → Node → Option Receipt → Option Backup → Type 0

abbrev pub At : Pred → Disk → Type 0
At P d = P d.nodes d.registry d.receipt d.backup

abbrev pub Calm : Disk → Type 0
Calm d = d.faults ≡ []

-- Why an error is raised: a check of the code failed, where `C` allows it, or a write failed.
abbrev pub Cause : Bool → Disk → Type 0
Cause true d = Unit {0}
Cause false d = Calm d → ⊥

abbrev pub Ends : {A : Type 0} → Bool → Disk → (A → Pred) → Pred → Result A → Disk → Type 0
Ends C d Q E (ok a) d' = At (Q a) d' × (Calm d → Calm d')
Ends C d Q E (err e) d' = At E d' × Cause C d

pub record Spec {A : Type 0} (C : Bool) (P : Pred) (m : M A) (Q : A → Pred) (E : Pred)
    : Type 0 where
  pub run : (d : Disk) → At P d → let (r, d') = m d in Ends C d Q E r d'

abbrev pub Sub : Pred → Pred → Type 0
Sub P Q = (d : Disk) → At P d → At Q d

Cause-back : (C : Bool) (d d' : Disk) → (Calm d → Calm d') → Cause C d' → Cause C d
Cause-back true d d' f c = tt
Cause-back false d d' f c = λ h. c (f h)

Ends-back :
    {A : Type 0} (C : Bool) (Q : A → Pred) (E : Pred) (d d' : Disk) (r : Result A) (d'' : Disk)
    → (Calm d → Calm d')
    → Ends C d' Q E r d''
    → Ends C d Q E r d''
Ends-back C Q E d d' (ok a) d'' f h = (h.0, λ c. h.1 (f c))
Ends-back C Q E d d' (err e) d'' f h = (h.0, Cause-back C d d' f h.1)

bind-end :
    {A B : Type 0} (C : Bool) (Q : A → Pred) (R : B → Pred) (E : Pred) (f : A → M B)
    → ((a : A) → Spec C (Q a) (f a) R E)
    → (d : Disk) (r : Result A) (d' : Disk) → Ends C d Q E r d'
    → let (r', d'') = continue r f d' in Ends C d R E r' d''
bind-end C Q R E f k d (ok a) d' h =
    let (r', d'') = f a d' in Ends-back C R E d d' r' d'' h.1 ((k a).run d' h.0)
bind-end C Q R E f k d (err e) d' h = h

-- One function after another.
pub Spec-bind :
    {A B : Type 0} {C : Bool} {P : Pred} {Q : A → Pred} {R : B → Pred} {E : Pred} {m : M A}
    {f : A → M B}
    → Spec C P m Q E
    → ((a : A) → Spec C (Q a) (f a) R E)
    → Spec C P (m >>= f) R E
Spec-bind {C = C} {Q = Q} {R = R} {E = E} {m = m} {f = f} h k = record {
  run = λ d p. let (r, d') = m d in bind-end C Q R E f k d r d' (h.run d p);
}

pub Spec-pure :
    {A : Type 0} {C : Bool} {P : Pred} {Q : A → Pred} {E : Pred} (a : A)
    → Sub P (Q a)
    → Spec C P (pure a) Q E
Spec-pure a h = record { run = λ d p. (h d p, λ c. c) }

-- A function that only reads, and does not fail.
pub Spec-gets :
    {A : Type 0} {C : Bool} {P : Pred} {Q : A → Pred} {E : Pred} (f : Disk → A)
    → ((d : Disk) → At P d → At (Q (f d)) d)
    → Spec C P (gets f) Q E
Spec-gets f h = record { run = λ d p. (h d p, λ c. c) }

-- A condition holds before and may be taken out.
pub Spec-weaken :
    {A : Type 0} {C : Bool} {P P' : Pred} {Q : A → Pred} {E : Pred} {m : M A}
    → Sub P P'
    → Spec C P' m Q E
    → Spec C P m Q E
Spec-weaken h s = record { run = λ d p. s.run d (h d p) }

pub record Writes (change : Disk → Disk) (P Q : Pred) : Type 0 where
  pub takes : (d : Disk) → At P d → At Q (change d)
  pub faults : (d : Disk) → (change d).faults ≡ d.faults

faulty :
    (C : Bool) (d : Disk) (f : Fault) (fs : List Fault) → Cause C (record d { faults = f ∷ fs })
faulty true d f fs = tt
faulty false d f fs = λ c. absurd (cc)

write-end :
    (C : Bool) (P Q E : Pred) (change : Disk → Disk)
    → Writes change P Q
    → Sub P E
    → Sub Q E
    → (d : Disk) (fs : List Fault) → At P d
    → let d1 = record d { faults = fs } in
      let (r, d') = write change d1 in Ends C d1 (λ _. Q) E r d'
unfolding write
write-end C P Q E change w p q d [] h =
    let d1 = record d { faults = [] } in (w.takes d1 h, λ c. w.faults d1 ∙ c)
write-end C P Q E change w p q d (fine ∷ fs) h =
    let quiet = record d { faults = fs } in (w.takes quiet h, λ c. absurd (cc))
write-end C P Q E change w p q d (fails_before ∷ fs) h =
    let quiet = record d { faults = fs } in (p quiet h, faulty C d fails_before fs)
write-end C P Q E change w p q d (fails_after ∷ fs) h =
    let quiet = record d { faults = fs } in
    (q (change quiet) (w.takes quiet h), faulty C d fails_after fs)

pub Spec-write :
    {C : Bool} {P Q E : Pred} (change : Disk → Disk)
    → Writes change P Q
    → Sub P E
    → Sub Q E
    → Spec C P (write change) (λ _. Q) E
Spec-write {C = C} {P = P} {Q = Q} {E = E} change w p q = record {
  run = λ d h. write-end C P Q E change w p q d d.faults h;
}

-- A check that may fail, or one that cannot.
pub Spec-require :
    {P E : Pred} (b : Bool) (e : Error)
    → Sub P E
    → Spec true P (require b e) (λ _ n g r k. P n g r k × (b ≡ true)) E
Spec-require true e s = record { run = λ d h. ((h, refl), λ c. c) }
Spec-require false e s = record { run = λ d h. (s d h, tt) }

pub Spec-require-true :
    {C : Bool} {P E : Pred} (b : Bool) (e : Error) → b ≡ true → Spec C P (require b e) (λ _. P) E
Spec-require-true true e h = record { run = λ d h. (h, λ c. c) }
Spec-require-true false e h = absurd cc

pub Spec-lift :
    {A : Type 0} {P E : Pred} (x : Result A)
    → Sub P E
    → Spec true P (lift x) (λ a n g r k. P n g r k × (x ≡ ok a)) E
Spec-lift (ok a) s = record { run = λ d h. ((h, refl), λ c. c) }
Spec-lift (err e) s = record { run = λ d h. (s d h, tt) }

pub Spec-lift_ok :
    {C : Bool} {A : Type 0} {P E : Pred} (x : Result A) (a : A)
    → x ≡ ok a
    → Spec C P (lift x) (λ b n g r k. P n g r k × (b ≡ a)) E
Spec-lift_ok (ok a) a' h = record { run = λ d p. ((p, ground arith), λ c. c) }
Spec-lift_ok (err e) a' h = absurd cc

-- A copy of a node that may or may not be there.
pub Spec-copy :
    {P Q E : Pred} (n : Node) (put : Node → Disk → Disk)
    → Writes (put n) P Q
    → Sub P E
    → Sub Q E
    → Spec true P (copy_node n put) (λ _. Q) E
unfolding copy_node
Spec-copy absent put w p q = record { run = λ d h. (p d h, tt) }
Spec-copy other put w p q = record { run = λ d h. (p d h, tt) }
Spec-copy (link t) put w p q = Spec-write (put (link t)) w p q
Spec-copy (file t) put w p q = Spec-write (put (file t)) w p q

-- What `copy2` can copy.
abbrev pub CanCopy : Node → Type 0
CanCopy absent = ⊥
CanCopy other = ⊥
CanCopy (link t) = Unit {0}
CanCopy (file t) = Unit {0}

pub Spec-copy_there :
    {C : Bool} {P Q E : Pred} (n : Node) (put : Node → Disk → Disk)
    → CanCopy n
    → Writes (put n) P Q
    → Sub P E
    → Sub Q E
    → Spec C P (copy_node n put) (λ _. Q) E
unfolding copy_node
Spec-copy_there absent put c w p q = absurd c
Spec-copy_there other put c w p q = absurd c
Spec-copy_there (link t) put c w p q = Spec-write (put (link t)) w p q
Spec-copy_there (file t) put c w p q = Spec-write (put (file t)) w p q

-- A fact that the condition carries.
pub Spec-given :
    {A : Type 0} {C : Bool} {P : Pred} {Q : A → Pred} {E : Pred} {m : M A} {X : Type 0}
    → (X → Spec C P m Q E)
    → Spec C (λ n g r k. P n g r k × X) m Q E
Spec-given f = record { run = λ d h. (f h.1).run d h.0 }

Ends-post :
    {A : Type 0} (C : Bool) (Q Q' : A → Pred) (E : Pred) (d : Disk) (r : Result A) (d' : Disk)
    → ((a : A) → Sub (Q a) (Q' a))
    → Ends C d Q E r d'
    → Ends C d Q' E r d'
Ends-post C Q Q' E d (ok a) d' s h = (s a d' h.0, h.1)
Ends-post C Q Q' E d (err e) d' s h = h

pub Spec-post :
    {A : Type 0} {C : Bool} {P : Pred} {Q Q' : A → Pred} {E : Pred} {m : M A}
    → ((a : A) → Sub (Q a) (Q' a))
    → Spec C P m Q E
    → Spec C P m Q' E
Spec-post {C = C} {Q = Q} {Q' = Q'} {E = E} {m = m} s h = record {
  run = λ d p. let (r, d') = m d in Ends-post C Q Q' E d r d' s (h.run d p);
}

-- The function returns the value and leaves the disk as it is.
pub record Gives {A : Type 0} (m : M A) (d : Disk) (a : A) : Type 0 where
  pub result : m d ≡ (ok a, d)

-- A function that is known to return a value and leave the disk as it is.
pub Spec-known :
    {A : Type 0} {C : Bool} {P : Pred} {Q : A → Pred} {E : Pred} {m : M A}
    → ((d : Disk) → At P d → (a : A) × Gives m d a × At (Q a) d)
    → Spec C P m Q E
Spec-known {C = C} {Q = Q} {E = E} h = record {
  run = λ d p. let (a, e, q) = h d p in rw e.result (q, λ c. c);
}

-- Checks whose outcome is not needed later.
pub Spec-try_require :
    {P E : Pred} (b : Bool) (e : Error) → Sub P E → Spec true P (require b e) (λ _. P) E
Spec-try_require true e s = record { run = λ d h. (h, λ c. c) }
Spec-try_require false e s = record { run = λ d h. (s d h, tt) }

pub Spec-try_lift :
    {A : Type 0} {P E : Pred} (x : Result A) → Sub P E → Spec true P (lift x) (λ _. P) E
Spec-try_lift (ok a) s = record { run = λ d h. (h, λ c. c) }
Spec-try_lift (err e) s = record { run = λ d h. (s d h, tt) }

pub Spec-peek : {A : Type 0} {C : Bool} {P E : Pred} (f : Disk → A) → Spec C P (gets f) (λ _. P) E
Spec-peek f = record { run = λ d h. (h, λ c. c) }

Ends-raise :
    {A : Type 0} (C : Bool) (Q : A → Pred) (E E' : Pred) (d : Disk) (r : Result A) (d' : Disk)
    → Sub E E'
    → Ends C d Q E r d'
    → Ends C d Q E' r d'
Ends-raise C Q E E' d (ok a) d' s h = h
Ends-raise C Q E E' d (err e) d' s h = (s d' h.0, h.1)

pub Spec-raise :
    {A : Type 0} {C : Bool} {P : Pred} {Q : A → Pred} {E E' : Pred} {m : M A}
    → Sub E E'
    → Spec C P m Q E
    → Spec C P m Q E'
Spec-raise {C = C} {Q = Q} {E = E} {E' = E'} {m = m} s h = record {
  run = λ d p. let (r, d') = m d in Ends-raise C Q E E' d r d' s (h.run d p);
}
