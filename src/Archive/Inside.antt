-- ===== src/Archive/Inside.antt =====
-- The members that `check_tar` of tools/build/archive.py lets pass stay in the workspace.
use winecx_gptk.Common.{
  true, false, not, ◌||◌, ◌≡◌, refl, Option, none, some, List, [], ◌∷◌, AllOf, any, arith,
  if◌then◌else◌, length, is_some, Option-cases, inl, inr,
}
use winecx_gptk.Common.Text.{Text, codes, text_eq}
use winecx_gptk.Archive.{
  Member, parts, is_up, resolved, stays, is_absolute, is_link, is_special, is_unsafe, check_member,
  check_tar,
}

-- A walk from the workspace along the parts of a path: the directories it is in, the innermost
-- first, or `none` once it leaves the workspace.
unfoldable pub walk : List Text → List Text → Option (List Text)
walk inside [] = some inside
walk [] (part ∷ rest) =
    let same = walk [] rest in
    let down = walk (part ∷ []) rest in
    if is_up part then none else if text_eq part (codes ".") then same else down
walk (d ∷ ds) (part ∷ rest) =
    let up = walk ds rest in
    let same = walk (d ∷ ds) rest in
    let down = walk (part ∷ d ∷ ds) rest in
    if is_up part then up else if text_eq part (codes ".") then same else down

stays-walk : (inside ps : List Text) → stays (length inside) ps ≡ is_some (walk inside ps)
unfolding stays walk
stays-walk inside [] = refl
stays-walk [] (p ∷ ps) =
    let same = stays-walk [] ps in let down = stays-walk (p ∷ []) ps in ground arith
stays-walk (d ∷ ds) (p ∷ ps) =
    let up = stays-walk ds ps in
    let same = stays-walk (d ∷ ds) ps in let down = stays-walk (p ∷ d ∷ ds) ps in ground arith

walk-downwards : (inside ps : List Text) → any is_up ps ≡ false → is_some (walk inside ps) ≡ true
unfolding walk
walk-downwards inside [] h = refl
walk-downwards [] (p ∷ ps) h =
    let same = walk-downwards [] ps in let down = walk-downwards (p ∷ []) ps in ground arith
walk-downwards (d ∷ ds) (p ∷ ps) h =
    let same = walk-downwards (d ∷ ds) ps in
    let down = walk-downwards (p ∷ d ∷ ds) ps in ground arith

-- The member's own path is relative and stays inside, it is no device and no pipe, and if it is a
-- link, its target is relative and a walk to it stays inside.
pub record IsInside (m : Member) : Type 0 where
  pub relative : is_absolute m.name ≡ false
  pub inside : is_some (walk [] (parts m.name)) ≡ true
  pub plain : is_special m.kind ≡ false
  pub target : (not (is_link m.kind) || is_some (walk [] (resolved m))) ≡ true
  pub relative_target : (not (is_link m.kind) || not (is_absolute m.linkname)) ≡ true

check_member-IsInside : (m : Member) → check_member m ≡ none → IsInside m
unfolding check_member is_unsafe
check_member-IsInside m h =
    let to = stays-walk [] (resolved m) in
    let own = walk-downwards [] (parts m.name) in
    record {
      relative = ground arith;
      inside = ground arith;
      plain = ground arith;
      target = ground arith;
      relative_target = ground arith;
    }

-- In an archive that passes, each member is inside: its path is relative and never leaves the
-- workspace, it is no device and no pipe, and a link's target is relative and a walk along the
-- text of its path from the workspace never leaves it.
pub check_tar-IsInside : (ms : List Member) → check_tar ms ≡ none → AllOf IsInside ms
unfolding check_tar
check_tar-IsInside [] h = tt
check_tar-IsInside (m ∷ ms) h = elim (Option-cases (check_member m)) [
  | inl passes ↦ (check_member-IsInside m passes, check_tar-IsInside ms (ground arith))
  | inr (e, fails) ↦ absurd (ground arith)
]
