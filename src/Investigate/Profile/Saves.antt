-- ===== src/Investigate/Profile/Saves.antt =====
-- replace_save of runtime/kosmickrisp/gameplay.py: a directory of saves takes the place of another.
use winecx_gptk.Common.{Bool, true, false, Option, none, some, is_some, if◌then◌else◌}
use winecx_gptk.Common.Text.{Text, codes}
use winecx_gptk.Investigate.Profile.Disk.{Disk, Done, ok, failed, Act, ◌>>◌, raise, write, whole}

abbrev pub os_error : Text
os_error = codes "OSError"

-- The body of `try`, with the flag `moved` that its end leaves for `finally`.
abbrev pub Flagged : Type 0 → Type 0
Flagged S = Done S × Bool

module _ {S : Type 0} where
  abbrev pub put_stage : S → Disk S → Disk S
  put_stage saves d = record d { stage = some saves }

  abbrev pub tear_stage : Text → S → Disk S → Disk S
  tear_stage text saves d = put_stage saves d

  abbrev pub drop_stage : Disk S → Disk S
  drop_stage d = record d { has_stage = false; stage = none }

  -- `target.rename(old)`, `old.rename(target)` and `stage.rename(target)`
  abbrev pub move_away : Disk S → Disk S
  move_away d = record d { saves = none; previous = d.saves }

  abbrev pub move_back : Disk S → Disk S
  move_back d = record d { saves = d.previous; previous = none }

  abbrev pub move_in : Disk S → Disk S
  move_in d = record d { saves = d.stage; has_stage = false; stage = none }

  abbrev pub drop_previous : Disk S → Disk S
  drop_previous d = record d { previous = none }

  abbrev pub moved_back : Text → Done S → Flagged S
  moved_back e (ok d) = (failed e d, false)
  moved_back e (failed e' d) = (failed e' d, true)

  abbrev pub after_failed_move : Text → Bool → Disk S → Flagged S
  after_failed_move e false d = (failed e d, false)
  after_failed_move e true d = moved_back e (write move_back whole os_error d)

  abbrev pub moved_in : Bool → Done S → Flagged S
  moved_in moved (ok d) = (ok d, moved)
  moved_in moved (failed e d) = after_failed_move e moved d

  abbrev pub move_stage : Bool → Disk S → Flagged S
  move_stage moved d = moved_in moved (write move_in whole os_error d)

  abbrev pub moved_away : Done S → Flagged S
  moved_away (ok d) = move_stage true d
  moved_away (failed e d) = (failed e d, false)

  abbrev pub set_aside : Disk S → Flagged S
  set_aside d =
      if is_some d.saves then moved_away (write move_away whole os_error d) else move_stage false d

  abbrev pub staged : Done S → Flagged S
  staged (ok d) = set_aside d
  staged (failed e d) = (failed e d, false)

  abbrev pub stage_saves : S → Disk S → Flagged S
  stage_saves source d = staged (write (put_stage source) tear_stage os_error d)

  abbrev pub remove_stage : Act S
  remove_stage d = if d.has_stage then write drop_stage whole os_error d else ok d

  abbrev pub remove_previous : Bool → Act S
  remove_previous moved d = if moved then write drop_previous whole os_error d else ok d

  -- `finally`: an error of its own takes the place of an earlier one.
  abbrev pub clean_up : Bool → Act S
  clean_up moved = remove_stage >> remove_previous moved

  abbrev pub failed_with : Text → Done S → Done S
  failed_with e (ok d) = failed e d
  failed_with e (failed e' d) = failed e' d

  abbrev pub finish : Flagged S → Done S
  finish (ok d, moved) = clean_up moved d
  finish (failed e d, moved) = failed_with e (clean_up moved d)

  -- The directory that `mkdtemp` makes is new.
  abbrev pub new_stage : Disk S → Disk S
  new_stage d = record d { has_stage = true; stage = none; previous = none }

  abbrev pub replace_body : S → Act S
  replace_body source d = finish (stage_saves source d)

  unfoldable pub replace_save : Option S → Act S
  unfolding write
  replace_save none = raise os_error
  replace_save (some source) = write new_stage whole os_error >> replace_body source
