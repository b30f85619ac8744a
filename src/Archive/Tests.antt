-- ===== src/Archive/Tests.antt =====
-- The archive check at concrete members.
use winecx_gptk.Common.{◌≡◌, refl, none, some, List, [], ◌∷◌, AllOf}
use winecx_gptk.Common.Text.{codes}
use winecx_gptk.Archive.{
  Member, regular, symlink, escaping_link, check_tar, check_member, is_unsafe, is_absolute, parts,
  segments, parent, resolved, stays,
}
use winecx_gptk.Archive.Inside.{IsInside, check_tar-IsInside}

abbrev members : List Member
members =
    record { name = codes "lib/a.dylib"; kind = regular; linkname = [] }
    ∷ record { name = codes "lib/b.dylib"; kind = symlink; linkname = codes "../lib/./a.dylib" }
    ∷ []

members-pass : check_tar members ≡ none
unfolding check_tar check_member is_unsafe is_absolute parts segments parent resolved stays
members-pass = refl

check_tar-IsInside_example : AllOf IsInside members
check_tar-IsInside_example = check_tar-IsInside members members-pass

escaping :
    check_tar (record { name = codes "lib/x"; kind = symlink; linkname = codes "../../x" } ∷ [])
    ≡ some escaping_link
unfolding check_tar check_member is_unsafe is_absolute parts segments parent resolved stays
escaping = refl

-- A link below a link: the walk along the text stays inside, the file that it names does not.
two_links-pass :
    check_tar (
      record { name = codes "p/q/s"; kind = symlink; linkname = codes "../.." }
      ∷ record { name = codes "p/q/s/l"; kind = symlink; linkname = codes "../../x" }
      ∷ [])
    ≡ none
unfolding check_tar check_member is_unsafe is_absolute parts segments parent resolved stays
two_links-pass = refl
