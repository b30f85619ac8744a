-- ===== src/Investigate/Sampling.antt =====
-- sampling_reason of runtime/kosmickrisp/investigate.py, and the part of the loop of `guard_run` that
-- starts a stack sample of the game. The records of the samples stand with the newest first.
pub mod Reserve
use winecx_gptk.Common.{
  ℕ, ◌*◌, ◌^◌, ◌+◌, Bool, true, false, not, ◌&&◌, ◌||◌, Option, none, some, List, [], ◌∷◌, leb, ltb,
  any, length, is_none, is_some, sub_ge, sub_gt, if◌then◌else◌,
}

pub data Policy : Type 0 where
  gaps late_title : Policy

pub data Trigger : Type 0 where
  late_startup present_gap : Trigger

-- What is read of `Progress`.
pub record SeenProgress : Type 0 where
  pub first_present : Option ℕ
  pub last_present : Option ℕ
  pub last_compile : Option ℕ

pub record Sample : Type 0 where
  pub requested_ns : ℕ
  pub trigger : Trigger

abbrev pub is_late : Sample → Bool
is_late s = elim s.trigger [ late_startup ↦ true | present_gap ↦ false ]

-- `records and now - records[-1]['requested_ns'] <= 30 * 10**9`
abbrev pub too_soon : ℕ → List Sample → Bool
too_soon now [] = false
too_soon now (s ∷ ss) = leb now (s.requested_ns + 30 * 10 ^ 9)

abbrev is_late_title : Policy → Bool
is_late_title gaps = false
is_late_title late_title = true

abbrev quiet_since : ℕ → Option ℕ → ℕ
quiet_since start none = start
quiet_since start (some at) = at

abbrev is_late_time : (now start : ℕ) → SeenProgress → Bool
is_late_time now start p =
    sub_ge now start (420 * 10 ^ 9)
    && (sub_ge now (quiet_since start p.last_compile) (60 * 10 ^ 9)
        || sub_ge now start (540 * 10 ^ 9))

abbrev gap_reason : ℕ → Option ℕ → Option Trigger
gap_reason now none = none
gap_reason now (some last) = if sub_gt now last (2 * 10 ^ 9) then some present_gap else none

-- Under the policy `late_title`, before a late sample.
abbrev late_reason : (now start : ℕ) → SeenProgress → List Sample → Option Trigger
late_reason now start p records =
    if is_late_time now start p
    then some late_startup
    else if leb 2 (length records)
    then none
    else gap_reason now p.last_present

unfoldable pub sampling_reason :
    (now start : ℕ) → SeenProgress → (menu_verified : Bool) → List Sample → Policy → Option Trigger
sampling_reason now start p menu_verified records policy =
    if menu_verified || (leb 3 (length records) || is_none p.first_present)
    then none
    else if too_soon now records
    then none
    else if is_late_title policy && not (any is_late records)
    then late_reason now start p records
    else gap_reason now p.last_present

-- One round of the loop: what it sees, and whether the last sampler has ended.
pub record Round : Type 0 where
  pub now : ℕ
  pub progress : SeenProgress
  pub menu_verified : Bool
  pub sampler_done : Bool

abbrev started : ℕ → Bool → Option Trigger → List Sample → List Sample
started now sampler_done none records = records
started now sampler_done (some trigger) records =
    if sampler_done then record { requested_ns = now; trigger = trigger } ∷ records else records

unfoldable pub sample_round : ℕ → Policy → Round → List Sample → List Sample
sample_round start policy r records =
    started r.now r.sampler_done
      (sampling_reason r.now start r.progress r.menu_verified records policy) records

unfoldable pub sample_rounds : ℕ → Policy → List Round → List Sample → List Sample
unfolding sample_round
sample_rounds start policy [] records = records
sample_rounds start policy (r ∷ rs) records =
    sample_rounds start policy rs (sample_round start policy r records)
