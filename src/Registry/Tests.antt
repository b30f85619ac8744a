-- ===== src/Registry/Tests.antt =====
-- The registry functions at a small user.reg.
use winecx_gptk.Common.{arith, ◌≡◌, refl, some, ◌∷◌, ◌++◌}
use winecx_gptk.Common.Text.{Text, codes, lower}
use winecx_gptk.Registry.{
  values, newline, installed_values, registry_values, edit_registry, values_from, section,
  is_overrides, managed, find_section, is_header, body, after_body, unmanaged, no_overrides,
}
use winecx_gptk.Registry.Installed.{installed-AreValues}
use winecx_gptk.Registry.Lines.{Line, split_lines, join, is_break}
use winecx_gptk.Registry.Edit.{IsRegistry, registry_values-edit_registry}

abbrev header : Line
header = 91 ∷ codes "software" ++ 92 ∷ 92 ∷ codes "WINE" ++ 92 ∷ 92 ∷ codes "dllOverrides] 17"

abbrev sample : Text
sample =
    codes "WINE REGISTRY"
    ++ newline
    ++ newline
    ++ header
    ++ newline
    ++ codes "\"*d3d9\"=\"x\""
    ++ newline
    ++ codes "\"D3D9\"=\"builtin\""
    ++ newline
    ++ newline
    ++ codes "[Other]"
    ++ newline
    ++ codes "\"d3d11\"=1"
    ++ newline

sample-values :
    registry_values sample
    ≡ values (record no_overrides { d3d9_line = some (codes "\"D3D9\"=\"builtin\"" ++ newline) })
unfolding registry_values split_lines values_from section is_overrides managed lower
sample-values = refl

sample-edited : registry_values (edit_registry sample installed_values) ≡ values installed_values
unfolding edit_registry registry_values split_lines values_from section is_overrides managed lower
    find_section is_header body after_body unmanaged join
sample-edited = refl

sample-IsRegistry : IsRegistry sample
unfolding split_lines find_section is_header section lower is_break
sample-IsRegistry = record { complete = ground arith; tidy = ground arith; single = ground arith }

registry_values-edit_registry_example :
    registry_values (edit_registry sample installed_values) ≡ values installed_values
registry_values-edit_registry_example =
    registry_values-edit_registry sample installed_values sample-IsRegistry installed-AreValues
