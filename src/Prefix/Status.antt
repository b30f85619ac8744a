-- ===== src/Prefix/Status.antt =====
-- identity, load_receipt and status of runtime/kosmickrisp/dxvk-prefix.py. `sha` stands for
-- hashlib's SHA-256 of a file's content or a text.
use winecx_gptk.Common.{
  Bool, true, false, ◌&&◌, Option, none, some, List, [], ◌∷◌, ◌++◌, if◌then◌else◌,
}
use winecx_gptk.Common.Text.{Text, codes, text_eq}
use winecx_gptk.Registry.{Overrides, Parsed, values, failed, registry_values, installed_values}
use winecx_gptk.Prefix.Disk.{
  FilePath, Digest, Node, absent, other, link, file, Identity, link_to, content, Entry, State,
  installed, Receipt, os_error, not_a_file, invalid_receipt, duplicate_override, Result, ok, err, M,
  pure, lift, gets, ◌>>=◌, ◌>>◌, same_identity,
}
use winecx_gptk.Prefix.Checks.{Tree, Target, validate_prefix, destinations}

abbrev pub read_text : Node → Result Text
read_text (file t) = ok t
read_text _ = err os_error

abbrev pub parsed_values : Parsed → Result Overrides
parsed_values (values o) = ok o
parsed_values (failed _) = err duplicate_override

abbrev same_line : Option Text → Option Text → Bool
same_line none none = true
same_line (some a) (some b) = text_eq a b
same_line _ _ = false

-- `==` on two dictionaries over NAMES
unfoldable pub same_overrides : Overrides → Overrides → Bool
same_overrides a b =
    same_line a.d3d8_line b.d3d8_line
    && (same_line a.d3d9_line b.d3d9_line
        && (same_line a.d3d10core_line b.d3d10core_line
            && (same_line a.d3d11_line b.d3d11_line && same_line a.dxgi_line b.dxgi_line)))

-- The paths of the targets and of the entries, one by one.
unfoldable pub same_targets : List Target → List Entry → Bool
same_targets [] [] = true
same_targets (t ∷ ts) (e ∷ es) = text_eq t.path e.target && same_targets ts es
same_targets _ _ = false

pub record Report : Type 0 where
  pub state : Option State
  pub valid : Bool
  pub version : Text
  pub changed : List FilePath
  pub files : List Entry
  pub game_dir : Option FilePath

abbrev is_installed : State → Bool
is_installed installed = true
is_installed _ = false

abbrev no_change : List FilePath → Bool
no_change [] = true
no_change (_ ∷ _) = false

-- What `status` returns without a receipt.
abbrev pub no_report : Report
no_report = record {
  state = none;
  valid = false;
  version = [];
  changed = [];
  files = [];
  game_dir = none;
}

abbrev pub with_overrides : Overrides → List FilePath → List FilePath
with_overrides now files =
    if same_overrides now installed_values
    then files
    else files ++ codes "DLL overrides in user.reg" ∷ []

abbrev pub report_with : Receipt → List FilePath → Report
report_with r changed = record {
  state = some r.state;
  valid = is_installed r.state && no_change changed;
  version = r.version;
  changed = changed;
  files = r.files;
  game_dir = r.game_dir;
}

abbrev pub with_change : Entry → Option Identity → List FilePath → List FilePath
with_change e now rest =
    if same_identity now (some (content e.installed_sha256)) then rest else e.target ∷ rest

module _ (sha : Text → Digest) where
  unfoldable pub identity : Node → Result (Option Identity)
  identity absent = ok none
  identity other = err not_a_file
  identity (link t) = ok (some (link_to t))
  identity (file t) = ok (some (content (sha t)))

  -- The loop over `data['files']` in `status`.
  unfoldable pub changed_files : List Entry → M (List FilePath)
  unfolding identity
  changed_files [] = pure []
  changed_files (e ∷ es) = do
    found ← gets (λ d. d.nodes e.target)
    now ← lift (identity found)
    rest ← changed_files es
    pure (with_change e now rest)

  module _ (t : Tree) where
    -- The checks on a receipt that was read; its schema and state are in its type.
    unfoldable pub check_receipt : Receipt → Result (Unit {0})
    check_receipt r =
        if text_eq r.prefix t.prefix
        then (elim (destinations t r.game_dir r.arch r.dlls) [
          | err e ↦ err e
          | ok targets ↦ if same_targets targets r.files then ok tt else err invalid_receipt
        ])
        else err invalid_receipt

    unfoldable pub checked_receipt : Option Receipt → M (Option Receipt)
    checked_receipt none = pure none
    checked_receipt (some r) = do lift (check_receipt r); pure (some r)

    unfoldable pub load_receipt : M (Option Receipt)
    unfolding checked_receipt
    load_receipt = do found ← gets (λ d. d.receipt); checked_receipt found

    unfoldable pub report_of : Option Receipt → M Report
    report_of none = pure no_report
    report_of (some r) = do
      files ← changed_files r.files
      registry ← gets (λ d. d.registry)
      text ← lift (read_text registry)
      now ← lift (parsed_values (registry_values text))
      pure (report_with r (with_overrides now files))

    unfoldable pub status : M Report
    unfolding report_of
    status = do validate_prefix t false; data' ← load_receipt; report_of data'
