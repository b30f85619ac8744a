-- ===== src/Investigate/Profile/Original.antt =====
-- What the profile transaction of runtime/kosmickrisp/investigate.py has to put back, and the
-- conditions that its steps leave on the disk.
use winecx_gptk.Common.{
  Bool, true, false, ◌||◌, Option, none, some, is_some, List, [], ◌∷◌, AllOf, ◌≡◌, ◌⊎◌,
}
use winecx_gptk.Common.Text.{Text}
use winecx_gptk.Investigate.Profile.Disk.{
  Name, same_name, prepared, restored, DllEntry, Journal, Disk,
}
use winecx_gptk.Investigate.Profile.Transaction.{sha_of}

-- The settings, the saves, steam_appid.txt and the DLLs before the run.
pub record Original (S : Type 0) : Type 0 where
  pub config : Text
  pub saves : S
  pub appid : Option Text
  pub dll : Name → Option Text

-- Where there was a file, its backup is there.
abbrev pub Kept : Option Text → Option Text → Type 0
Kept none backup = Unit {0}
Kept (some t) backup = backup ≡ some t

abbrev pub listed : Name → List DllEntry → Bool
listed n [] = false
listed n (e ∷ es) = same_name n e.name || listed n es

abbrev pub ended : Journal → Journal
ended j = record j { state = restored }

module _ {S : Type 0} where
  -- All is as it was.
  pub record AtRest (o : Original S) (d : Disk S) : Type 0 where
    pub config : d.config ≡ some o.config
    pub saves : d.saves ≡ some o.saves
    pub appid : d.appid ≡ o.appid
    pub dll : (n : Name) → d.dll n ≡ o.dll n

  -- The journal's entry of a DLL.
  abbrev pub EntryOf : (Text → Text) → Original S → DllEntry → Type 0
  EntryOf sha o e = (e.existed ≡ is_some (o.dll e.name)) × (e.sha256 ≡ sha_of sha (o.dll e.name))

  -- The journal says what the original is.
  pub record Describes (sha : Text → Text) (inventory_hash : S → Text) (o : Original S)
      (j : Journal) : Type 0 where
    pub state : j.state ≡ prepared
    pub appid_existed : j.appid_existed ≡ is_some o.appid
    pub save_hash : j.save_hash ≡ inventory_hash o.saves
    pub dlls : AllOf (EntryOf sha o) j.dlls

  -- The backup of a DLL that the journal lists.
  abbrev pub Backs : Original S → List DllEntry → Disk S → Type 0
  Backs o es d = (n : Name) → listed n es ≡ true → Kept (o.dll n) (d.backup.dll n)

  -- The DLLs that a list leaves alone are the original ones.
  abbrev pub Others : Original S → List DllEntry → Disk S → Type 0
  Others o es d = (n : Name) → listed n es ≡ false → d.dll n ≡ o.dll n

  -- A transaction is under way, and its backup is complete.
  pub record Backed (o : Original S) (j : Journal) (d : Disk S) : Type 0 where
    pub journal : d.journal ≡ some j
    pub config : d.backup.config ≡ some o.config
    pub saves : d.backup.saves ≡ some o.saves
    pub appid : Kept o.appid d.backup.appid
    pub dll : Backs o j.dlls d
    pub others : Others o j.dlls d

  -- The transaction is over.
  pub record Over (o : Original S) (j : Journal) (d : Disk S) : Type 0 where
    pub journal : d.journal ≡ some (ended j)
    pub rest : AtRest o d

  abbrev pub Settled : Original S → Journal → Disk S → Type 0
  Settled o j d = Backed o j d ⊎ Over o j d
