-- ===== src/Phases/Gaps.antt =====
-- The gaps between frames that analyze_run of runtime/kosmickrisp/investigation_analysis.py reports.
use winecx_gptk.Common.{
  ℕ, ◌+◌, ◌-◌, ◌≤◌, ◌<◌, Bool, true, false, ◌&&◌, Option, List, [], ◌∷◌, ltb, leb, max, any, AllOf,
  inl, inr, if◌then◌else◌, ◌≡◌, refl, arith,
}
use winecx_gptk.Intervals.Count.{count_from-le}
use winecx_gptk.Intervals.Sorting.{covers}
use winecx_gptk.Intervals.Union.{union_ns-eq-count}
use winecx_gptk.Waits.Segments.{points_of}
use winecx_gptk.Waits.Points.{Rising, IsRising, has, points_of-IsRising}
use winecx_gptk.Waits.Exclusive.{Known, Known-next, Known-clear}
use winecx_gptk.Phases.{
  waits_in_logs, Logs, start_of, Gap, gap_of, gaps_from, gaps_between, insert_gap, longest_first,
  times_of,
}

pub record IsGap (start : ℕ) (frames : List ℕ) (g : Gap) : Type 0 where
  pub after : start ≤ g.start_ns
  pub long : g.start_ns + 2000000000 ≤ g.end_ns
  pub duration : g.duration_ns ≡ g.end_ns - g.start_ns
  pub split : g.draw_wait_overlap_ns + g.outside_logged_draw_waits_ns ≡ g.duration_ns
  pub empty : any (λ t. ltb g.start_ns t && ltb t g.end_ns) frames ≡ false

abbrev AllKnown : ℕ → List ℕ → List ℕ → Type 0
AllKnown left ps = AllOf (Known left ps)

AllKnown-next : (p q : ℕ) (ps ts : List ℕ) → p < q → AllKnown p (q ∷ ps) ts → AllKnown q ps ts
AllKnown-next p q ps [] h k = tt
AllKnown-next p q ps (t ∷ ts) h k = (Known-next p q t ps h k.0, AllKnown-next p q ps ts h k.1)

none_between :
    (p q begin : ℕ) (ps ts : List ℕ)
    → Rising p (q ∷ ps)
    → p ≤ begin
    → AllKnown p (q ∷ ps) ts
    → any (λ t. ltb begin t && ltb t q) ts ≡ false
none_between p q begin ps [] h l k = refl
none_between p q begin ps (t ∷ ts) h l k =
    let c = Known-clear p q t ps h k.0 in
    let ih = none_between p q begin ps ts h l k.1 in ground arith

module _ (logs : Logs) (start : ℕ) (frames : List ℕ) where
  abbrev AllGaps : List Gap → Type 0
  AllGaps = AllOf (IsGap start frames)

  if-AllGaps :
      (b : Bool) (gs hs : List Gap)
      → (b ≡ true → AllGaps gs)
      → (b ≡ false → AllGaps hs)
      → AllGaps (if b then gs else hs)
  if-AllGaps true gs hs h k = h refl
  if-AllGaps false gs hs h k = k refl

  gap_of-IsGap :
      (left right : ℕ) (ps : List ℕ)
      → Rising left (right ∷ ps)
      → AllKnown left (right ∷ ps) frames
      → max left start + 2000000000 ≤ right
      → IsGap start frames (gap_of logs (max left start) right)
  unfolding gap_of
  gap_of-IsGap left right ps h k l =
      let begin = max left start in
      let u = union_ns-eq-count (waits_in_logs logs) begin right in
      let c = count_from-le (covers (waits_in_logs logs)) (right - begin) begin in
      record {
        after = omega arith;
        long = l;
        duration = refl;
        split = omega (arith, u, c);
        empty = none_between left right begin ps frames h (omega arith) k;
      }

  gaps_from-AllGaps :
      (left : ℕ) (ps : List ℕ)
      → Rising left ps
      → AllKnown left ps frames
      → AllGaps (gaps_from logs start left ps)
  unfolding gaps_from
  gaps_from-AllGaps left [] h k = tt
  gaps_from-AllGaps left (right ∷ ps) h k =
      let begin = max left start in
      let ih = gaps_from-AllGaps right ps h.1 (AllKnown-next left right ps frames h.0 k) in
      let rest = gaps_from logs start right ps in
      if-AllGaps (ltb right (begin + 2000000000)) rest (gap_of logs begin right ∷ rest) (λ e. ih)
        (λ e. (gap_of-IsGap left right ps h k (ground arith), ih))

  insert_gap-AllGaps :
      (g : Gap) (gs : List Gap) → IsGap start frames g → AllGaps gs → AllGaps (insert_gap g gs)
  unfolding insert_gap
  insert_gap-AllGaps g [] h k = (h, tt)
  insert_gap-AllGaps g (f ∷ fs) h k =
      let ih = insert_gap-AllGaps g fs h k.1 in
      if-AllGaps (leb f.duration_ns g.duration_ns) (g ∷ f ∷ fs) (f ∷ insert_gap g fs) (λ e. (h, k))
        (λ e. (k.0, ih))

  longest_first-AllGaps : (gs : List Gap) → AllGaps gs → AllGaps (longest_first gs)
  unfolding longest_first
  longest_first-AllGaps [] h = tt
  longest_first-AllGaps (g ∷ gs) h =
      insert_gap-AllGaps g (longest_first gs) h.0 (longest_first-AllGaps gs h.1)

Known-all : (p : ℕ) (ps ts : List ℕ) → ((t : ℕ) → has t ts ≡ true → Known p ps t) → AllKnown p ps ts
Known-all p ps [] h = tt
Known-all p ps (t ∷ ts) h = (h t (ground arith), Known-all p ps ts (λ x k. h x (ground arith)))

gaps_between-AllGaps :
    (logs : Logs) (start : ℕ) (frames : List ℕ)
    → IsRising frames
    → AllOf (IsGap start frames) (gaps_between logs start frames)
gaps_between-AllGaps logs start [] h = tt
gaps_between-AllGaps logs start (p ∷ ps) h =
    gaps_from-AllGaps logs start (p ∷ ps) p ps h
      (inl (omega arith), Known-all p ps ps (λ t k. inr k))

-- Each gap that analyze_run reports begins at or after the start and lasts at least two seconds,
-- no frame lies within it, and its times inside and outside the draw waits add up to its
-- duration.
pub times_of-gaps :
    (logs : Logs) (caller : Option ℕ)
    → let r = times_of logs caller in AllOf (IsGap r.start_ns (points_of logs.present)) r.gaps
unfolding times_of
times_of-gaps logs caller =
    let start = start_of logs caller in
    let frames = points_of logs.present in
    longest_first-AllGaps logs start frames (gaps_between logs start frames)
      (gaps_between-AllGaps logs start frames (points_of-IsRising logs.present))
