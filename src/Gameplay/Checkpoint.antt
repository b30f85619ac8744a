-- ===== src/Gameplay/Checkpoint.antt =====
-- `confirmed_checkpoint` of runtime/kosmickrisp/gameplay.py: whether the driver has saved the pipelines
-- that it had compiled when its queues went idle. Digits are ASCII.
mod Saved
mod Tests
use winecx_gptk.Common.{
  ℕ, zero, suc, ◌+◌, ◌-◌, ◌*◌, Bool, true, false, not, ◌&&◌, Option, none, some, List, [], ◌∷◌,
  ◌++◌, map, ◌==◌, ltb, leb, any, select, if◌then◌else◌,
}
use winecx_gptk.Common.Int.{ℤ, pos, negsuc, is_zero}
use winecx_gptk.Common.Text.{Text, codes}
use winecx_gptk.Intervals.{maximum}

pub record Checkpoint : Type 0 where
  pub start_ns : ℕ
  pub end_ns : ℕ
  pub result : ℤ

-- An event of metal.jsonl
pub record MetalEvent : Type 0 where
  pub is_serialize : Bool
  pub success : Bool
  pub start_ns : ℕ
  pub end_ns : ℕ

-- An event of cache.jsonl; `is_fallback` is that its outcome is a fallback to the compiler.
pub record CacheEvent : Type 0 where
  pub is_fallback : Bool
  pub time_ns : ℕ

abbrev is_digit : ℕ → Bool
is_digit c = leb b'0' c && leb c b'9'

-- `\d+` with the digits before it
unfoldable pub digits : ℕ → Text → ℕ × Text
digits n [] = (n, [])
digits n (c ∷ cs) =
    let rest = digits (n * 10 + (c - b'0')) cs in if is_digit c then rest else (n, c ∷ cs)

unfoldable pub number : Text → Option (ℕ × Text)
unfolding digits
number [] = none
number (c ∷ cs) = if is_digit c then some (digits 0 (c ∷ cs)) else none

-- What follows the text, if the line begins with it.
abbrev pub after : Text → Text → Option Text
after [] text = some text
after (p ∷ ps) [] = none
after (p ∷ ps) (c ∷ cs) = let rest = after ps cs in if p == c then rest else none

infixl 5 ◌>>=◌
abbrev ◌>>=◌ : {A B : Type 0} → Option A → (A → Option B) → Option B
none >>= f = none
some a >>= f = f a

abbrev negated : ℕ → ℤ
negated zero = pos 0
negated (suc n) = negsuc n

abbrev minus : Option (ℕ × Text) → Option ℤ
minus none = none
minus (some n) = some (negated n.0)

abbrev plus : Option (ℕ × Text) → Option ℤ
plus none = none
plus (some n) = some (pos n.0)

-- `-?\d+`
unfoldable pub integer : Text → Option ℤ
unfolding number
integer [] = none
integer (c ∷ cs) = if c == b'-' then minus (number cs) else plus (number (c ∷ cs))

-- The pattern at the beginning of the text.
unfoldable pub read_checkpoint : Text → Option Checkpoint
unfolding number integer
read_checkpoint text = do
  first ← after (codes "KK_TEST_IDLE_LAYER checkpoint start_ns=") text
  start ← number first
  second ← after (codes " end_ns=") start.1
  end ← number second
  third ← after (codes " result=") end.1
  result ← integer third
  some (record { start_ns = start.0; end_ns = end.0; result = result })

abbrev kept : Option Checkpoint → List Checkpoint
kept none = []
kept (some c) = c ∷ []

-- `re.findall`: two matches do not overlap, so each place in the text is tried.
unfoldable pub find_checkpoints : Text → List Checkpoint
unfolding read_checkpoint
find_checkpoints [] = []
find_checkpoints (c ∷ cs) = kept (read_checkpoint (c ∷ cs)) ++ find_checkpoints cs

abbrev pub last {ℓ} : {A : Type ℓ} → List A → Option A
last [] = none
last (x ∷ xs) = elim xs [ [] ↦ some x | _ ∷ _ ↦ last xs ]

-- An error that is raised, nothing yet, or a checkpoint with the last serialization before its end.
pub data Confirmed : Type 0 where
  queue_idle_failed serialization_failed unconfirmed : Confirmed
  confirmed : Checkpoint → Option MetalEvent → Confirmed

abbrev pub is_failed_in : Checkpoint → MetalEvent → Bool
is_failed_in c e =
    e.is_serialize && (not e.success && (leb c.start_ns e.start_ns && leb e.start_ns c.end_ns))

abbrev pub is_saved_by : ℕ → MetalEvent → Bool
is_saved_by end e = e.is_serialize && (e.success && leb e.end_ns end)

abbrev pub previous_end : ℕ → List MetalEvent → ℕ
previous_end end metal =
    maximum (map (λ (e : MetalEvent). e.end_ns) (select (is_saved_by end) metal))

abbrev pub is_pending : (previous end : ℕ) → CacheEvent → Bool
is_pending previous end e = e.is_fallback && (ltb previous e.time_ns && leb e.time_ns end)

unfoldable pub judge_checkpoint : Checkpoint → List MetalEvent → List CacheEvent → Confirmed
judge_checkpoint c metal cache =
    if not (is_zero c.result)
    then queue_idle_failed
    else if any (is_failed_in c) metal
    then serialization_failed
    else if any (is_pending (previous_end c.end_ns metal) c.end_ns) cache
    then unconfirmed
    else confirmed c (last (select (is_saved_by c.end_ns) metal))

unfoldable pub judge_last : Option Checkpoint → List MetalEvent → List CacheEvent → Confirmed
unfolding judge_checkpoint
judge_last none metal cache = unconfirmed
judge_last (some c) metal cache = judge_checkpoint c metal cache

unfoldable pub confirmed_checkpoint :
    Text → (requested : ℕ) → List MetalEvent → List CacheEvent → Confirmed
unfolding find_checkpoints judge_last
confirmed_checkpoint log requested metal cache =
    judge_last (last (select (λ c. leb requested c.start_ns) (find_checkpoints log))) metal cache
