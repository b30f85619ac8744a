-- ===== src/Gameplay/Checkpoint/Tests.antt =====
-- `confirmed_checkpoint` of runtime/kosmickrisp/gameplay.py on the logs of
-- tests/test_kosmickrisp_gameplay.py.
use winecx_gptk.Common.{Bool, true, false, some, [], ◌∷◌, ◌≡◌, refl}
use winecx_gptk.Common.Int.{pos}
use winecx_gptk.Common.Text.{Text, codes}
use winecx_gptk.Gameplay.Checkpoint.{
  Checkpoint, MetalEvent, CacheEvent, digits, number, integer, read_checkpoint, find_checkpoints,
  unconfirmed, confirmed, serialization_failed, queue_idle_failed, judge_checkpoint, judge_last,
  confirmed_checkpoint,
}
use winecx_gptk.Gameplay.Checkpoint.Saved.{IsConfirmed, confirmed_checkpoint-IsConfirmed}

abbrev log : Text
log = codes "a KK_TEST_IDLE_LAYER checkpoint start_ns=10 end_ns=20 result=0 b"

abbrev checkpoint : Checkpoint
checkpoint = record { start_ns = 10; end_ns = 20; result = pos 0 }

abbrev serialized : Bool → MetalEvent
serialized success = record { is_serialize = true; success = success; start_ns = 16; end_ns = 18 }

abbrev fallback : CacheEvent
fallback = record { is_fallback = true; time_ns = 15 }

requested_later : confirmed_checkpoint log 30 [] [] ≡ unconfirmed
unfolding confirmed_checkpoint judge_last judge_checkpoint find_checkpoints read_checkpoint number
    digits integer
requested_later = refl

pending : confirmed_checkpoint log 5 [] (fallback ∷ []) ≡ unconfirmed
unfolding confirmed_checkpoint judge_last judge_checkpoint find_checkpoints read_checkpoint number
    digits integer
pending = refl

failed_serialization : confirmed_checkpoint log 5 (serialized false ∷ []) [] ≡ serialization_failed
unfolding confirmed_checkpoint judge_last judge_checkpoint find_checkpoints read_checkpoint number
    digits integer
failed_serialization = refl

failed_idle :
    confirmed_checkpoint
      (codes "KK_TEST_IDLE_LAYER checkpoint start_ns=1 end_ns=2 result=-4")
      1
      []
      []
    ≡ queue_idle_failed
unfolding confirmed_checkpoint judge_last judge_checkpoint find_checkpoints read_checkpoint number
    digits integer
failed_idle = refl

saved :
    confirmed_checkpoint log 5 (serialized true ∷ []) (fallback ∷ [])
    ≡ confirmed checkpoint (some (serialized true))
unfolding confirmed_checkpoint judge_last judge_checkpoint find_checkpoints read_checkpoint number
    digits integer
saved = refl

confirmed_checkpoint-IsConfirmed_example :
    IsConfirmed checkpoint 5 (serialized true ∷ []) (fallback ∷ [])
confirmed_checkpoint-IsConfirmed_example =
    confirmed_checkpoint-IsConfirmed log 5 (serialized true ∷ []) (fallback ∷ []) checkpoint
      (some (serialized true)) saved
