-- ===== src/Gameplay/Launch.antt =====
-- `command_for` of runtime/kosmickrisp/gameplay.py: the command of a run, made of the command of an earlier
-- one, with its logs in another directory. A directory is a text that does not end in a slash, and
-- the timeout is given as the text that `str` makes of it.
mod Assigned
mod Walked
mod Redirected
mod Tests
use winecx_gptk.Common.{Bool, true, false, ◌||◌, List, [], ◌∷◌, ◌++◌, ◌==◌, any, if◌then◌else◌}
use winecx_gptk.Common.Text.{Text, codes, text_eq, starts_with}

-- `replacements`: the names of the variables with their values.
abbrev pub replacements : Text → List (Text × Text)
replacements directory =
    (codes "MESA_KK_METAL_CONCURRENCY_LOG", directory ++ codes "/metal.jsonl")
    ∷ (codes "MESA_KK_VARIANT_LOG", directory ++ codes "/variants.jsonl")
    ∷ (codes "KK_TEST_IDLE_TRIGGER", directory ++ codes "/idle-trigger")
    ∷ []

-- `item.partition('=')`
abbrev pub name_of : Text → Text
name_of [] = []
name_of (c ∷ cs) = let rest = name_of cs in if c == b'=' then [] else c ∷ rest

abbrev pub value_of : Text → Text
value_of [] = []
value_of (c ∷ cs) = let rest = value_of cs in if c == b'=' then cs else rest

-- `replacements.get(name, value)`
abbrev pub get_or : Text → Text → List (Text × Text) → Text
get_or name value [] = value
get_or name value ((n, v) ∷ rest) =
    let later = get_or name value rest in if text_eq n name then v else later

abbrev pub assignment : Text × Text → Text
assignment (name, value) = name ++ (b'=' ∷ value)

unfoldable pub redirected : Text → Text → Text
redirected directory item =
    assignment (name_of item, get_or (name_of item) (value_of item) (replacements directory))

-- What the next item is: an option, the old value of `--runs` or `--seconds`, or an assignment.
pub data Mode : Type 0 where
  option_next old_value_next assignment_next : Mode

abbrev pub is_valued : Text → Bool
is_valued item = text_eq (codes "--runs") item || text_eq (codes "--seconds") item

abbrev pub mode_after : Text → Mode
mode_after item =
    if is_valued item
    then old_value_next
    else if text_eq (codes "--env") item
    then assignment_next
    else option_next

-- A command, or the error that is raised: a ValueError or an IndexError.
pub data Built : Type 0 where
  via_steam no_assignment : Built
  built : List Text → Built

abbrev pub after_items : List Text → Built → Built
after_items items (built rest) = built (items ++ rest)
after_items items via_steam = via_steam
after_items items no_assignment = no_assignment

module _ (label directory timeout : Text) where
  abbrev pub items_of : Text → List Text
  items_of item =
      if text_eq (codes "--runs") item
      then item ∷ label ∷ []
      else if text_eq (codes "--seconds") item
      then item ∷ timeout ∷ []
      else item ∷ []

  -- The `while` loop.
  unfoldable pub walk : Mode → List Text → Built
  unfolding redirected
  walk option_next [] = built []
  walk old_value_next [] = built []
  walk assignment_next [] = no_assignment
  walk option_next (item ∷ rest) =
      let later = after_items (items_of item) (walk (mode_after item) rest) in
      if text_eq (codes "--via-steam") item then via_steam else later
  walk old_value_next (item ∷ rest) = walk option_next rest
  walk assignment_next (item ∷ rest) =
      after_items (redirected directory item ∷ []) (walk option_next rest)

abbrev pub with_cache_log : List Text → List Text
with_cache_log command =
    if any (text_eq (codes "--cache-log")) command
    then command
    else command ++ (codes "--cache-log" ∷ [])

abbrev pub assigns : List Text → Text × Text → Bool
assigns command (name, value) = any (starts_with (name ++ (b'=' ∷ []))) command

abbrev pub assign : List Text → Text × Text → List Text
assign command r =
    if assigns command r then command else command ++ (codes "--env" ∷ assignment r ∷ [])

-- The loop that adds the assignments that are missing.
unfoldable pub assign_missing : List Text → List (Text × Text) → List Text
assign_missing command [] = command
assign_missing command (r ∷ rs) = assign_missing (assign command r) rs

unfoldable pub completed : Text → Built → Built
unfolding assign_missing
completed directory (built command) =
    built (assign_missing (with_cache_log command) (replacements directory))
completed directory via_steam = via_steam
completed directory no_assignment = no_assignment

unfoldable pub command_for : List Text → (label directory timeout : Text) → Built
unfolding walk completed
command_for base label directory timeout =
    completed directory (walk label directory timeout option_next base)
