-- ===== src/Archive.antt =====
-- tools/build/archive.py: the check of a package's envelope, and the check of the members of its
-- archive before it is unpacked. What tarfile reads is a list of members; a path is read from its
-- text the way PurePosixPath does it (a root of two slashes is read as one).
pub mod Inside
mod Tests
use winecx_gptk.Common.{
  ℕ, suc, zero, ◌+◌, ◌-◌, Bool, true, false, not, ◌&&◌, ◌||◌, Option, none, some, List, [], ◌∷◌,
  ◌++◌, ◌==◌, any, if◌then◌else◌,
}
use winecx_gptk.Common.Text.{Text, codes, starts_with, text_eq}

pub data Kind : Type 0 where
  regular directory symlink hardlink device fifo : Kind

pub record Member : Type 0 where
  pub name : Text
  pub kind : Kind
  pub linkname : Text

pub data ArchiveError : Type 0 where
  package_mismatch checksum_mismatch unsafe_member escaping_link absolute_link : ArchiveError

-- An empty segment and `.` are no parts.
abbrev keep : Text → List Text → List Text
keep [] rest = rest
keep (c ∷ cs) rest = if text_eq (c ∷ cs) (codes ".") then rest else (c ∷ cs) ∷ rest

-- The segments between slashes, with the one that is being read.
unfoldable pub segments : Text → Text → List Text
segments read [] = keep read []
segments read (c ∷ cs) =
    let cut = keep read (segments [] cs) in
    let more = segments (read ++ c ∷ []) cs in if c == b'/' then cut else more

unfoldable pub is_absolute : Text → Bool
is_absolute text = starts_with (codes "/") text

abbrev pub slash : Text
slash = codes "/"

-- `PurePosixPath(text).parts`
unfoldable pub parts : Text → List Text
unfolding segments is_absolute
parts text = if is_absolute text then slash ∷ segments [] text else segments [] text

-- The parts of `path.parent`, for a path that is not absolute.
unfoldable pub parent : List Text → List Text
parent [] = []
parent (p ∷ []) = []
parent (p ∷ q ∷ ps) = p ∷ parent (q ∷ ps)

abbrev pub is_up : Text → Bool
is_up part = text_eq part (codes "..")

-- The parts of `path.parent / target` for a symbolic link, and of `target` for a hard link.
unfoldable pub resolved : Member → List Text
resolved m = elim m.kind [
  | symlink ↦
      if is_absolute m.linkname then parts m.linkname else parent (parts m.name) ++ parts m.linkname
  | hardlink ↦ parts m.linkname
  | regular ↦ parts m.linkname
  | directory ↦ parts m.linkname
  | device ↦ parts m.linkname
  | fifo ↦ parts m.linkname
]

-- The loop over the parts: false where `depth < 0` raises.
unfoldable pub stays : (depth : ℕ) → List Text → Bool
stays depth [] = true
stays zero (part ∷ rest) =
    let same = stays zero rest in
    let down = stays 1 rest in
    if is_up part then false else if text_eq part (codes ".") then same else down
stays (suc depth) (part ∷ rest) =
    let up = stays depth rest in
    let same = stays (suc depth) rest in
    let down = stays (suc (suc depth)) rest in
    if is_up part then up else if text_eq part (codes ".") then same else down

abbrev pub is_special : Kind → Bool
is_special device = true
is_special fifo = true
is_special _ = false

abbrev pub is_link : Kind → Bool
is_link symlink = true
is_link hardlink = true
is_link _ = false

unfoldable pub is_unsafe : Member → Bool
is_unsafe m = is_absolute m.name || (any is_up (parts m.name) || is_special m.kind)

abbrev check_link : Member → Option ArchiveError
check_link m =
    if not (stays 0 (resolved m))
    then some escaping_link
    else if is_absolute m.linkname
    then some absolute_link
    else none

-- The body of the loop over the archive; `none` is no error.
unfoldable pub check_member : Member → Option ArchiveError
check_member m =
    if is_unsafe m then some unsafe_member else if is_link m.kind then check_link m else none

unfoldable pub check_tar : List Member → Option ArchiveError
check_tar [] = none
check_tar (m ∷ ms) = elim (check_member m) [ some e ↦ some e | none ↦ check_tar ms ]

-- What `verify` reads of metadata.json, with the digest of the layer as a hexadecimal text.
pub record Metadata : Type 0 where
  pub schema : ℕ
  pub component : Text
  pub sha256 : Text

unfoldable pub verify : Metadata → (component digest : Text) → Option ArchiveError
verify m component digest =
    if not (m.schema == 1) || not (text_eq m.component component)
    then some package_mismatch
    else if not (text_eq m.sha256 digest)
    then some checksum_mismatch
    else none
