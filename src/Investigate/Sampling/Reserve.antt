-- ===== src/Investigate/Sampling/Reserve.antt =====
-- The limits on the samples that `guard_run` of runtime/kosmickrisp/investigate.py takes.
use winecx_gptk.Common.{
  ℕ, ◌*◌, ◌^◌, ◌+◌, ◌≤◌, ◌<◌, Bool, true, ◌||◌, ◌≡◌, List, [], ◌∷◌, leb, any, length, arith,
}
use winecx_gptk.Investigate.Sampling.{
  Policy, gaps, late_title, Sample, Round, is_late, sampling_reason, sample_round, sample_rounds,
}

-- Each sample is requested more than the time after the one before it.
abbrev pub Apart : ℕ → List Sample → Type 0
Apart gap [] = Unit {0}
Apart gap (s ∷ []) = Unit {0}
Apart gap (s ∷ r ∷ rs) = (r.requested_ns + gap < s.requested_ns) × Apart gap (r ∷ rs)

-- The last of three samples is kept for a late start under the policy that looks for one.
abbrev pub reserved : Policy → List Sample → Bool
reserved gaps records = true
reserved late_title records = any is_late records || leb (length records) 2

abbrev Limits : Policy → List Sample → Type 0
Limits policy records =
    (length records ≤ 3) × Apart (30 * 10 ^ 9) records × (reserved policy records ≡ true)

sample_round-Limits :
    (start : ℕ) (policy : Policy) (r : Round) (records : List Sample)
    → Limits policy records
    → Limits policy (sample_round start policy r records)
unfolding sample_round sampling_reason
sample_round-Limits start gaps r [] h = ground arith
sample_round-Limits start gaps r (s ∷ ss) h = ground arith
sample_round-Limits start late_title r [] h = ground arith
sample_round-Limits start late_title r (s ∷ ss) h = ground arith

sample_rounds-Limits :
    (start : ℕ) (policy : Policy) (rs : List Round) (records : List Sample)
    → Limits policy records
    → Limits policy (sample_rounds start policy rs records)
unfolding sample_rounds
sample_rounds-Limits start policy [] records h = h
sample_rounds-Limits start policy (r ∷ rs) records h =
    sample_rounds-Limits start policy rs (sample_round start policy r records)
      (sample_round-Limits start policy r records h)

-- Whatever the rounds of the loop see, at most three samples are taken, each more than 30 seconds
-- after the one before; and under the policy `late_title` a third one is there only if one of them
-- was taken for a late start.
pub samples_are_limited :
    (start : ℕ) (policy : Policy) (rs : List Round)
    → let records = sample_rounds start policy rs [] in
      (length records ≤ 3) × Apart (30 * 10 ^ 9) records × (reserved policy records ≡ true)
samples_are_limited start gaps rs = sample_rounds-Limits start gaps rs [] (ground arith)
samples_are_limited start late_title rs = sample_rounds-Limits start late_title rs [] (ground arith)
