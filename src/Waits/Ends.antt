-- ===== src/Waits/Ends.antt =====
-- The search of attribute_waits of runtime/kosmickrisp/investigation_analysis.py for the events of a wait
-- comes to an end.
use mathlib.Core.Path.{subst}
use native.Mathlib.Nat.{mul-le-mul_right, suc-mul}
use winecx_gptk.Common.{
  ℕ, zero, suc, ◌+◌, ◌*◌, ◌≤◌, Bool, true, false, not, ◌&&◌, Option, none, some, List, [], ◌∷◌,
  select, length, length-append, AllOf, AllOf-append, Bool-cases, inl, inr, if◌then◌else◌, ◌≡◌,
  refl, ap, sym, ◌∙◌, arith,
}
use winecx_gptk.Common.Text.{Text, text_eq, text_eq_refl, text_eq_sound}
use winecx_gptk.Waits.{
  Event, is_id, same_id, member, family, Search, belongs, take_event, push_child, scan, search,
  enough, related_to,
}

unseen : List Text → List Text → ℕ
unseen visited [] = 0
unseen visited (t ∷ ts) =
    let rest = unseen visited ts in if member t visited then rest else suc rest

unseen-le : (p : Text) (visited ids : List Text) → unseen (p ∷ visited) ids ≤ unseen visited ids
unfolding unseen
unseen-le p visited [] = omega arith
unseen-le p visited (t ∷ ts) =
    let ih = unseen-le p visited ts in
    elim (Bool-cases (text_eq t p)) [ inl e ↦ ground arith | inr e ↦ ground arith ]

-- An id that is visited now leaves one id less to visit.
unseen-lt :
    (p : Text) (visited ids : List Text)
    → member p ids ≡ true
    → member p visited ≡ false
    → suc (unseen (p ∷ visited) ids) ≤ unseen visited ids
unfolding unseen
unseen-lt p visited [] h k = absurd cc
unseen-lt p visited (t ∷ ts) h k = elim (Bool-cases (text_eq p t)) [
  | inl e ↦
      let same = text_eq_sound p t e in
      let this : member t visited ≡ false = ap (λ x. member x visited) (sym same) ∙ k in
      let self : text_eq t p ≡ true = ap (λ x. text_eq x p) (sym same) ∙ text_eq_refl p in
      let rest = unseen-le p visited ts in ground arith
  | inr e ↦
      let ih = unseen-lt p visited ts (ground arith) k in
      elim (Bool-cases (text_eq t p)) [ inl e' ↦ ground arith | inr e' ↦ ground arith ]
]

abbrev Listed : List Text → Option Text → Type 0
Listed ids none = Unit {0}
Listed ids (some t) = member t ids ≡ true

abbrev AllListed : List Text → List Text → Type 0
AllListed ids ts = AllOf (λ t. member t ids ≡ true) ts

abbrev Requests : List Text → List Event → Type 0
Requests ids es = AllOf (λ e. Listed ids e.request_id) es

select-Requests :
    (ids : List Text) (p : Event → Bool) (es : List Event)
    → Requests ids es
    → Requests ids (select p es)
select-Requests ids p [] h = tt
select-Requests ids p (e ∷ es) h = elim (Bool-cases (p e)) [
  | inl b ↦
      subst (λ c. Requests ids (if c then e ∷ select p es else select p es)) (sym b)
        (h.0, select-Requests ids p es h.1)
  | inr b ↦
      subst (λ c. Requests ids (if c then e ∷ select p es else select p es)) (sym b)
        (select-Requests ids p es h.1)
]

length-select-le {ℓ} : {A : Type ℓ} (p : A → Bool) (xs : List A) → length (select p xs) ≤ length xs
length-select-le p [] = omega arith
length-select-le p (x ∷ xs) = let ih = length-select-le p xs in ground arith

-- What an expansion does to the ids that are pending.
record Pushes (ids : List Text) (n : ℕ) (s t : Search) : Type 0 where
  listed : AllListed ids t.pending
  size : length t.pending ≤ length s.pending + n
  visited : t.visited ≡ s.visited

abbrev is_own : Text → Event → Bool
is_own parent e = is_id parent e.request_id

abbrev is_child : Text → Event → Bool
is_child parent e = is_id parent e.parent_id && not (same_id e.parent_id e.request_id)

module _ (wait : Event) (key : Text) (left right : ℕ) (ids : List Text) where
  push_child-Pushes :
      (parent : Text) (e : Event) (o : Option Text) (pending : List Text)
      → Listed ids o
      → AllListed ids pending
      → AllListed ids (push_child parent e o pending)
        × (length (push_child parent e o pending) ≤ length pending + 1)
  push_child-Pushes parent e none pending h k = (k, omega arith)
  push_child-Pushes parent e (some t) pending h k =
      elim (Bool-cases (is_id parent e.parent_id && not (text_eq t parent))) [
        | inl b ↦
            subst
              (λ c.
                AllListed ids (if c then t ∷ pending else pending)
                × (length (if c then t ∷ pending else pending) ≤ length pending + 1))
              (sym b) ((h, k), omega arith)
        | inr b ↦
            subst
              (λ c.
                AllListed ids (if c then t ∷ pending else pending)
                × (length (if c then t ∷ pending else pending) ≤ length pending + 1))
              (sym b) (k, omega arith)
      ]

  abbrev offered : Text → Event → Bool → Search → Search
  offered parent e b s = if b then take_event wait key left right parent e s else s

  offered-Pushes :
      (parent : Text) (e : Event) (b : Bool) (s : Search)
      → Listed ids e.request_id
      → AllListed ids s.pending
      → Pushes ids 1 s (offered parent e b s)
  offered-Pushes parent e false s h k = record { listed = k; size = omega arith; visited = refl }
  offered-Pushes parent e true s h k =
      let p = push_child-Pushes parent e e.request_id s.pending h k in
      record { listed = p.0; size = p.1; visited = refl }

  scan-Pushes :
      (parent : Text) (es : List Event) (s : Search)
      → Requests ids es
      → AllListed ids s.pending
      → Pushes ids (length es) s (scan wait key left right parent es s)
  unfolding scan
  scan-Pushes parent [] s h k = record { listed = k; size = omega arith; visited = refl }
  scan-Pushes parent (e ∷ es) s h k =
      let b = belongs wait key left right parent e s in
      let one = offered-Pushes parent e b s h.0 k in
      let rest = scan-Pushes parent es (offered parent e b s) h.1 one.listed in
      record {
        listed = rest.listed;
        size = omega (arith, one.size, rest.size);
        visited = rest.visited ∙ one.visited;
      }

  abbrev bound : List Event → ℕ
  bound events = suc (length events + length events)

  abbrev work : List Event → Search → ℕ
  work events s = unseen s.visited ids * bound events + length s.pending

  length-family :
      (events : List Event) (parent : Text)
      → length (family events parent) ≤ length events + length events
  unfolding family
  length-family events parent = omega (
    arith,
    length-append (select (is_own parent) events) (select (is_child parent) events),
    length-select-le (is_own parent) events,
    length-select-le (is_child parent) events,
  )

  family-Requests :
      (events : List Event) (parent : Text)
      → Requests ids events
      → Requests ids (family events parent)
  unfolding family
  family-Requests events parent h =
      AllOf-append (λ (e : Event). Listed ids e.request_id) (select (is_own parent) events)
        (select (is_child parent) events) (select-Requests ids (is_own parent) events h)
        (select-Requests ids (is_child parent) events h)

  expand : List Event → Text → List Text → Search → Search
  expand events parent rest s =
      scan wait key left right parent (family events parent)
        (record s { pending = rest; visited = parent ∷ s.visited })

  expand-work :
      (events : List Event) (parent : Text) (rest : List Text) (s : Search)
      → Requests ids events
      → AllListed ids rest
      → member parent ids ≡ true
      → member parent s.visited ≡ false
      → AllListed ids (expand events parent rest s).pending
        × (suc (work events (expand events parent rest s))
            ≤ unseen s.visited ids * bound events + suc (length rest))
  unfolding expand
  expand-work events parent rest s h k m v =
      let s' : Search = record s { pending = rest; visited = parent ∷ s.visited } in
      let p = scan-Pushes parent (family events parent) s' (family-Requests events parent h) k in
      let u = unseen-lt parent s.visited ids m v in
      let f = length-family events parent in
      let many = mul-le-mul_right (bound events) u in
      let one = suc-mul (unseen (parent ∷ s.visited) ids) (bound events) in
      let same = ap (λ v. unseen v ids * bound events) p.visited in
      (p.listed, omega (arith, p.size, f, many, one, same))

  Ends : List Event → ℕ → Search → Type 0
  Ends events fuel s = (r : List Event) × (search wait key left right events fuel s ≡ some r)

  ends_empty : (events : List Event) (fuel : ℕ) (s : Search) → s.pending ≡ [] → Ends events fuel s
  unfolding search Ends
  ends_empty events zero s e = (s.related, ground arith)
  ends_empty events (suc fuel) s e = (s.related, ground arith)

  search_ends :
      (fuel : ℕ) (events : List Event) (pending : List Text) (s : Search)
      → s.pending ≡ pending
      → Requests ids events
      → AllListed ids s.pending
      → work events s ≤ fuel
      → Ends events fuel s
  unfolding search Ends expand
  search_ends fuel events [] s e h k w = ends_empty events fuel s e
  search_ends zero events (p ∷ ps) s e h k w = let l = ap length e in absurd (omega (arith, l, w))
  search_ends (suc fuel) events (p ∷ ps) s e h k w =
      let l = ap length e in
      let listed = subst (AllListed ids) e k in
      let skipped : Search = record s { pending = ps } in
      elim (Bool-cases (member p s.visited)) [
        | inl v ↦
            let (r, done) =
              search_ends fuel events ps skipped refl h listed.1 (omega (arith, l, w)) in
            (r, ground arith)
        | inr v ↦
            let x = expand-work events p ps s h listed.1 listed.0 v in
            let next = expand events p ps s in
            let (r, done) =
              search_ends fuel events next.pending next refl h x.0 (omega (arith, l, w, x.1)) in
            (r, ground arith)
      ]

abbrev requests : List Event → List Text
requests [] = []
requests (e ∷ es) = elim e.request_id [ none ↦ requests es | some t ↦ t ∷ requests es ]

Listed-cons : (t : Text) (ids : List Text) (o : Option Text) → Listed ids o → Listed (t ∷ ids) o
Listed-cons t ids none h = tt
Listed-cons t ids (some x) h = ground arith

Requests-cons :
    (t : Text) (ids : List Text) (es : List Event) → Requests ids es → Requests (t ∷ ids) es
Requests-cons t ids [] h = tt
Requests-cons t ids (e ∷ es) h = (Listed-cons t ids e.request_id h.0, Requests-cons t ids es h.1)

-- The ids of the first event, if it has one, and of the others.
cons_request :
    (o : Option Text) (ids : List Text) (es : List Event)
    → Requests ids es
    → Listed (elim o [ none ↦ ids | some t ↦ t ∷ ids ]) o
      × Requests (elim o [ none ↦ ids | some t ↦ t ∷ ids ]) es
cons_request none ids es h = (tt, h)
cons_request (some t) ids es h =
    let self = text_eq_refl t in (ground arith, Requests-cons t ids es h)

requests-Requests : (es : List Event) → Requests (requests es) es
requests-Requests [] = tt
requests-Requests (e ∷ es) = cons_request e.request_id (requests es) es (requests-Requests es)

length-requests-le : (es : List Event) → length (requests es) ≤ length es
length-requests-le [] = omega arith
length-requests-le (e ∷ es) =
    let ih = length-requests-le es in cons_le e.request_id (requests es) ih
  where
    cons_le :
        (o : Option Text) (ids : List Text)
        → length ids ≤ length es
        → length (elim o [ none ↦ ids | some t ↦ t ∷ ids ]) ≤ suc (length es)
    cons_le none ids h = omega (arith, h)
    cons_le (some t) ids h = omega (arith, h)

unseen-none : (ids : List Text) → unseen [] ids ≡ length ids
unfolding unseen
unseen-none [] = refl
unseen-none (t ∷ ts) = ap suc (unseen-none ts)

pub related_to_ends :
    (events : List Event) (wait : Event) (key : Option Text) (left right : ℕ)
    → (related : List Event) × (related_to events wait key left right ≡ some related)
unfolding related_to Ends
related_to_ends events wait none left right = ([], refl)
related_to_ends events wait (some key) left right =
    let ids = key ∷ requests events in
    let s : Search = record { pending = key ∷ []; visited = []; shared = []; related = [] } in
    let self : member key ids ≡ true = let r = text_eq_refl key in ground arith in
    let all = unseen-none ids in
    let many = mul-le-mul_right (suc (length events + length events)) (length-requests-le events) in
    let one = suc-mul (length events) (suc (length events + length events)) in
    let two = suc-mul (length (requests events)) (suc (length events + length events)) in
    let fewer = ap (λ n. n * suc (length events + length events)) all in
    search_ends wait key left right ids (enough events) events (key ∷ []) s refl
      (Requests-cons key (requests events) events (requests-Requests events)) (self, tt)
      (omega (arith, many, one, two, fewer))
