-- ===== src/Investigate/Profile/Disk.antt =====
-- What ProfileTransaction of runtime/kosmickrisp/investigate.py and replace_save of
-- runtime/kosmickrisp/gameplay.py read and write, and how their steps follow one another. Each write
-- takes the next fault: it may fail before its effect, after it, or in the middle of a copy, which
-- leaves other contents behind. A run that is killed is one whose later writes all fail.
use winecx_gptk.Common.{Bool, true, false, Option, some, List, [], ◌∷◌, if◌then◌else◌}
use winecx_gptk.Common.Text.{Text}

pub data Name : Type 0 where
  d3d11 dxgi : Name

abbrev pub same_name : Name → Name → Bool
same_name d3d11 d3d11 = true
same_name d3d11 dxgi = false
same_name dxgi d3d11 = false
same_name dxgi dxgi = true

pub data State : Type 0 where
  prepared restored : State

pub record DllEntry : Type 0 where
  pub name : Name
  pub existed : Bool
  pub sha256 : Option Text
  pub installed_sha256 : Text

-- transaction.json
pub record Journal : Type 0 where
  pub dlls : List DllEntry
  pub state : State
  pub profile : Text
  pub appid : Text
  pub appid_existed : Bool
  pub save_hash : Text

-- A directory of saves is its content `S`; a file is its text, in which lines end with a newline.
module _ (S : Type 0) where
  -- The directory `backup` of the run.
  pub record Backup : Type 0 where
    pub config : Option Text
    pub saves : Option S
    pub appid : Option Text
    pub dll : Name → Option Text

  pub data Fault : Type 0 where
    fine early late : Fault
    torn : Text → S → Fault

  -- `stage` and `previous` are the directories of one call of `replace_save`.
  pub record Disk : Type 0 where
    pub config : Option Text
    pub saves : Option S
    pub has_stage : Bool
    pub stage : Option S
    pub previous : Option S
    pub appid : Option Text
    pub dll : Name → Option Text
    pub has_backup : Bool
    pub backup : Backup
    pub journal : Option Journal
    pub faults : List Fault

  pub data Done : Type 0 where
    ok : Disk → Done
    failed : Text → Disk → Done

  abbrev pub Act : Type 0
  Act = Disk → Done

module _ {S : Type 0} where
  abbrev pub then_do : Done S → Act S → Done S
  then_do (ok d) b = b d
  then_do (failed e d) b = failed e d

  infixr 5 ◌>>◌
  abbrev pub ◌>>◌ : Act S → Act S → Act S
  ◌>>◌ a b d = then_do (a d) b

  abbrev pub skip : Act S
  skip d = ok d

  abbrev pub raise : Text → Act S
  raise e d = failed e d

  -- `if not test: raise ...`
  abbrev pub require : Bool → Text → Act S
  require true e = skip
  require false e = raise e

  -- A step that reads the disk first.
  abbrev pub reads : (Disk S → Act S) → Act S
  reads f d = f d d

  abbrev pub quiet : List (Fault S) → Disk S → Disk S
  quiet fs d = record d { faults = fs }

  -- A write with its effect, and what a copy that breaks off leaves.
  abbrev pub take_fault :
      List (Fault S) → (Disk S → Disk S) → (Text → S → Disk S → Disk S) → Text → Act S
  take_fault [] change tear e d = ok (change d)
  take_fault (fine ∷ later) change tear e d = ok (change (quiet later d))
  take_fault (early ∷ later) change tear e d = failed e (quiet later d)
  take_fault (late ∷ later) change tear e d = failed e (change (quiet later d))
  take_fault (torn text saves ∷ later) change tear e d = failed e (tear text saves (quiet later d))

  unfoldable pub write : (Disk S → Disk S) → (Text → S → Disk S → Disk S) → Text → Act S
  write change tear e d = take_fault d.faults change tear e d

  -- A rename, an unlink or a new directory: all or nothing.
  abbrev pub whole : Text → S → Disk S → Disk S
  whole text saves d = d

  abbrev pub put_config : Text → Disk S → Disk S
  put_config text d = record d { config = some text }

  abbrev pub tear_config : Text → S → Disk S → Disk S
  tear_config text saves d = put_config text d

  abbrev pub put_appid : Option Text → Disk S → Disk S
  put_appid text d = record d { appid = text }

  abbrev pub tear_appid : Text → S → Disk S → Disk S
  tear_appid text saves d = put_appid (some text) d

  abbrev pub put_dll : Name → Option Text → Disk S → Disk S
  put_dll name text d = record d { dll = λ n. if same_name n name then text else d.dll n }

  abbrev pub put_journal : Journal → Disk S → Disk S
  put_journal j d = record d { journal = some j }

  abbrev pub in_backup : (Backup S → Backup S) → Disk S → Disk S
  in_backup change d = record d { backup = change d.backup }

  abbrev pub keep_dll : Name → Option Text → Backup S → Backup S
  keep_dll name text b = record b { dll = λ n. if same_name n name then text else b.dll n }
