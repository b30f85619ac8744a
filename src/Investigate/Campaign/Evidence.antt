-- ===== src/Investigate/Campaign/Evidence.antt =====
-- host_evidence_valid and selected_host_evidence of runtime/kosmickrisp/investigate.py, on what the
-- JSON files of a run hold: `none` for a key that is missing or has another type.
use winecx_gptk.Common.{ℕ, Bool, true, false, not, ◌&&◌, Option, none, some, ◌==◌, if◌then◌else◌}
use winecx_gptk.Common.Int.{ℤ, is_zero}

pub record Capture : Type 0 where
  pub returncode : Option ℤ
  pub timed_out : Option Bool
  pub truncated : Option Bool
  pub has_error : Bool

-- `capture` and `evidence` of a host record
pub record HostRecord : Type 0 where
  pub capture : Capture
  pub unknown_timezone_lines : Option ℕ
  pub serious_host_fault : Option Bool
  pub has_counts : Bool
  pub has_events : Bool

abbrev pub is_zero_code : Option ℤ → Bool
is_zero_code none = false
is_zero_code (some code) = is_zero code

-- `value is False`
abbrev pub is_false : Option Bool → Bool
is_false none = false
is_false (some b) = not b

abbrev pub no_lines : Option ℕ → Bool
no_lines none = false
no_lines (some n) = n == 0

-- `isinstance(value, bool)`
abbrev pub is_bool : Option Bool → Bool
is_bool none = false
is_bool (some _) = true

unfoldable pub host_evidence_valid : HostRecord → Bool
host_evidence_valid h =
    is_zero_code h.capture.returncode
    && (is_false h.capture.timed_out
        && (is_false h.capture.truncated
            && (not h.capture.has_error
                && (no_lines h.unknown_timezone_lines
                    && (is_bool h.serious_host_fault && (h.has_counts && h.has_events))))))

-- `{}`
abbrev pub no_record : HostRecord
no_record = record {
  capture = record { returncode = none; timed_out = none; truncated = none; has_error = false };
  unknown_timezone_lines = none;
  serious_host_fault = none;
  has_counts = false;
  has_events = false;
}

-- host-result-supplemental.json: its record, and what the comparisons with its raw log and with the
-- times of the result find.
pub record Supplemental : Type 0 where
  pub host : HostRecord
  pub has_raw_log : Bool
  pub is_inside : Bool
  pub hash_matches : Bool
  pub start_matches : Bool
  pub end_matches : Bool

abbrev pub or_empty : Option HostRecord → HostRecord
or_empty none = no_record
or_empty (some h) = h

abbrev pub trusted : Supplemental → Bool
trusted s =
    host_evidence_valid s.host
    && (s.has_raw_log && (s.is_inside && (s.hash_matches && (s.start_matches && s.end_matches))))

abbrev supplement : HostRecord → Option Supplemental → HostRecord
supplement original none = original
supplement original (some s) = if trusted s then s.host else original

unfoldable pub selected_host_evidence : Option HostRecord → Option Supplemental → HostRecord
unfolding host_evidence_valid
selected_host_evidence primary supplemental =
    if host_evidence_valid (or_empty primary)
    then or_empty primary
    else supplement (or_empty primary) supplemental

-- `evidence.get('serious_host_fault')`
unfoldable pub serious_host_fault : HostRecord → Bool
serious_host_fault h = elim h.serious_host_fault [ none ↦ false | some b ↦ b ]
