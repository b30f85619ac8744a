-- ===== src/Investigate/Tests.antt =====
-- The sampling of runtime/kosmickrisp/investigate.py at concrete rounds.
use winecx_gptk.Common.{
  arith, none, ◌++◌, ℕ, ◌*◌, ◌^◌, ◌≤◌, ◌≡◌, refl, true, false, some, List, [], ◌∷◌, length,
}
use winecx_gptk.Common.Text.{Text, codes}
use winecx_gptk.Investigate.Tailing
use winecx_gptk.Investigate.Tailing.{update, read_file, lines, partial, drop, note_lines, stamp}
use winecx_gptk.Investigate.Tailing.Pieces.{update-twice}
use winecx_gptk.Investigate.Sampling.{
  late_title, late_startup, present_gap, Round, sampling_reason, sample_round, sample_rounds,
}
use winecx_gptk.Investigate.Sampling.Reserve.{Apart, reserved, samples_are_limited}

abbrev round_at : ℕ → Round
round_at seconds = record {
  now = seconds * 10 ^ 9;
  progress = record { first_present = some 1; last_present = some 1; last_compile = some (10 ^ 9) };
  menu_verified = false;
  sampler_done = true;
}

abbrev rounds : List Round
rounds = round_at 5 ∷ round_at 20 ∷ round_at 40 ∷ round_at 90 ∷ round_at 430 ∷ round_at 500 ∷ []

rounds-samples :
    sample_rounds 0 late_title rounds []
    ≡ record { requested_ns = 430 * 10 ^ 9; trigger = late_startup }
      ∷ record { requested_ns = 40 * 10 ^ 9; trigger = present_gap }
      ∷ record { requested_ns = 5 * 10 ^ 9; trigger = present_gap }
      ∷ []
unfolding sample_rounds sample_round sampling_reason
rounds-samples = refl

samples_are_limited_example :
    (length (sample_rounds 0 late_title rounds []) ≤ 3)
    × Apart (30 * 10 ^ 9) (sample_rounds 0 late_title rounds [])
    × (reserved late_title (sample_rounds 0 late_title rounds []) ≡ true)
samples_are_limited_example = samples_are_limited 0 late_title rounds

abbrev first_rows : Text
first_rows = codes "120,x" ++ 10 ∷ codes "9" ++ 10 ∷ codes "13"

abbrev last_rows : Text
last_rows = codes "0,y" ++ 10 ∷ []

abbrev compile_rows : Text
compile_rows = codes "a,draw,100,150" ++ 10 ∷ []

update-rows :
    update (some (first_rows ++ last_rows)) (some compile_rows) none (Tailing.init 100) ≡ record {
      start_ns = 100;
      present = record { offset = 14; last = 130; first = some 120 };
      compile = record { offset = 15; last = 150; first = none };
    }
unfolding update read_file lines partial drop note_lines stamp Tailing.init
update-rows = refl

update-twice_example :
    update
      (some (first_rows ++ last_rows))
      (some (compile_rows ++ []))
      none
      (update (some first_rows) (some compile_rows) none (Tailing.init 100))
    ≡ update (some (first_rows ++ last_rows)) (some (compile_rows ++ [])) none (Tailing.init 100)
unfolding Tailing.init
update-twice_example =
    update-twice none first_rows compile_rows last_rows [] (Tailing.init 100) (omega arith)
      (omega arith)
