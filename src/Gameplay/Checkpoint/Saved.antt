-- ===== src/Gameplay/Checkpoint/Saved.antt =====
-- What a confirmed checkpoint of runtime/kosmickrisp/gameplay.py says of the pipelines that the driver compiled.
use mathlib.Core.Path.{subst}
use mathlib.Core.Option.{some-injective}
use winecx_gptk.Common.{
  ℕ, ◌≤◌, ◌<◌, Bool, true, false, ◌&&◌, Option, none, some, List, [], ◌∷◌, leb, any, select, AllOf,
  Bool-cases, inl, inr, if◌then◌else◌, ◌≡◌, sym, ◌∙◌, ap, arith,
}
use winecx_gptk.Common.Int.{ℤ, pos, negsuc, is_zero}
use winecx_gptk.Common.Text.{Text}
use winecx_gptk.Gameplay.Checkpoint.{
  Checkpoint, MetalEvent, CacheEvent, find_checkpoints, last, Confirmed, confirmed, is_failed_in,
  is_saved_by, previous_end, is_pending, judge_checkpoint, judge_last, confirmed_checkpoint,
}

-- A serialization that succeeded by the end of the checkpoint ended no earlier than the fallback.
abbrev pub is_saved : Checkpoint → List MetalEvent → CacheEvent → Bool
is_saved c metal e =
    any
      (λ (m : MetalEvent).
        m.is_serialize && (m.success && (leb m.end_ns c.end_ns && leb e.time_ns m.end_ns)))
      metal

abbrev pub Saved : Checkpoint → List MetalEvent → CacheEvent → Type 0
Saved c metal e =
    e.is_fallback ≡ true → 0 < e.time_ns → e.time_ns ≤ c.end_ns → is_saved c metal e ≡ true

-- A serialization that started during the checkpoint has not failed.
abbrev pub Unfailed : Checkpoint → MetalEvent → Type 0
Unfailed c m =
    m.is_serialize ≡ true → c.start_ns ≤ m.start_ns → m.start_ns ≤ c.end_ns → m.success ≡ true

pub record IsConfirmed (c : Checkpoint) (requested : ℕ) (metal : List MetalEvent)
    (cache : List CacheEvent) : Type 0 where
  pub asked : requested ≤ c.start_ns
  pub idle : c.result ≡ pos 0
  pub unfailed : AllOf (Unfailed c) metal
  pub saved : AllOf (Saved c metal) cache

is_zero_sound : (z : ℤ) → is_zero z ≡ true → z ≡ pos 0
is_zero_sound (pos n) h = let e : n ≡ 0 = ground arith in ap pos e
is_zero_sound (negsuc n) h = absurd (ground arith)

Unfailed-all :
    (c : Checkpoint) (metal : List MetalEvent)
    → any (is_failed_in c) metal ≡ false
    → AllOf (Unfailed c) metal
Unfailed-all c [] h = tt
Unfailed-all c (m ∷ ms) h = (λ f p q. ground arith, Unfailed-all c ms (ground arith))

saved_by :
    (c : Checkpoint) (metal : List MetalEvent) (e : CacheEvent)
    → 0 < e.time_ns
    → e.time_ns ≤ previous_end c.end_ns metal
    → is_saved c metal e ≡ true
saved_by c [] e h k = absurd (omega (arith, h, k))
saved_by c (m ∷ ms) e h k =
    let ih = saved_by c ms e h in
    elim (Bool-cases (is_saved_by c.end_ns m)) [ inl b ↦ ground arith | inr b ↦ ground arith ]

Saved-all :
    (c : Checkpoint) (metal : List MetalEvent) (cache : List CacheEvent)
    → any (is_pending (previous_end c.end_ns metal) c.end_ns) cache ≡ false
    → AllOf (Saved c metal) cache
Saved-all c metal [] h = tt
Saved-all c metal (e ∷ es) h =
    (λ f p q. saved_by c metal e p (ground arith), Saved-all c metal es (ground arith))

module _ (requested : ℕ) where
  abbrev late : Checkpoint → Bool
  late c = leb requested c.start_ns

  abbrev AllLate : List Checkpoint → Type 0
  AllLate = AllOf (λ c. late c ≡ true)

  select-AllLate : (cs : List Checkpoint) → AllLate (select late cs)
  select-AllLate [] = tt
  select-AllLate (c ∷ cs) =
      let ih = select-AllLate cs in
      elim (Bool-cases (late c)) [
        | inl b ↦
            subst (λ d. AllLate (if d then c ∷ select late cs else select late cs)) (sym b) (b, ih)
        | inr b ↦ subst (λ d. AllLate (if d then c ∷ select late cs else select late cs)) (sym b) ih
      ]

  last-AllLate :
      (cs : List Checkpoint) (c : Checkpoint) → AllLate cs → last cs ≡ some c → late c ≡ true
  last-AllLate [] c h e = absurd cc
  last-AllLate (d ∷ []) c h e = ap late (sym (some-injective _ _ e)) ∙ h.0
  last-AllLate (d ∷ x ∷ xs) c h e = last-AllLate (x ∷ xs) c h.1 e

abbrev checkpoint_of : Confirmed → Option Checkpoint
checkpoint_of (confirmed c s) = some c
checkpoint_of _ = none

abbrev Clear : List MetalEvent → List CacheEvent → Checkpoint → Type 0
Clear metal cache c =
    (is_zero c.result ≡ true)
    × ((any (is_failed_in c) metal ≡ false)
        × (any (is_pending (previous_end c.end_ns metal) c.end_ns) cache ≡ false))

judged :
    (o : Option Checkpoint) (metal : List MetalEvent) (cache : List CacheEvent) (c : Checkpoint)
    → checkpoint_of (judge_last o metal cache) ≡ some c
    → (o ≡ some c) × Clear metal cache c
unfolding judge_last judge_checkpoint
judged none metal cache c h = absurd cc
judged (some d) metal cache c h = elim (Bool-cases (is_zero d.result)) [
  | inr z ↦ absurd (ground arith)
  | inl z ↦ elim (Bool-cases (any (is_failed_in d) metal)) [
    | inl f ↦ absurd (ground arith)
    | inr f ↦ elim (Bool-cases (any (is_pending (previous_end d.end_ns metal) d.end_ns) cache)) [
      | inl p ↦ absurd (ground arith)
      | inr p ↦
          let e : some d ≡ some c = ground arith in
          (e, subst (Clear metal cache) (some-injective _ _ e) (z, (f, p)))
    ]
  ]
]

-- If confirmed_checkpoint confirms a checkpoint, it did not start before the request, its queues
-- went idle without an error, no serialization failed that started during it, and every fallback
-- to the compiler at a time above zero and no later than its end is no later than the end of a
-- successful serialization, which was over by the end of the checkpoint too.
pub confirmed_checkpoint-IsConfirmed :
    (log : Text) (requested : ℕ) (metal : List MetalEvent) (cache : List CacheEvent)
    (c : Checkpoint) (serialization : Option MetalEvent)
    → confirmed_checkpoint log requested metal cache ≡ confirmed c serialization
    → IsConfirmed c requested metal cache
unfolding confirmed_checkpoint
confirmed_checkpoint-IsConfirmed log requested metal cache c serialization h =
    let found = select (late requested) (find_checkpoints log) in
    let j = judged (last found) metal cache c (ap checkpoint_of h) in
    let l = last-AllLate requested found c (select-AllLate requested (find_checkpoints log)) j.0 in
    record {
      asked = ground arith;
      idle = is_zero_sound c.result j.1.0;
      unfailed = Unfailed-all c metal j.1.1.0;
      saved = Saved-all c metal cache j.1.1.1;
    }
