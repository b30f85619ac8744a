-- ===== src/Registry/Installed.antt =====
-- The override lines that `install` of runtime/kosmickrisp/dxvk-prefix.py writes are well formed.
use winecx_gptk.Common.{arith, refl}
use winecx_gptk.Common.Text.{lower}
use winecx_gptk.Registry.{
  Dll, d3d8, d3d9, d3d10core, d3d11, dxgi, native_line, installed_values, section, managed,
}
use winecx_gptk.Registry.Lines.{is_break}
use winecx_gptk.Registry.Scan.{IsValueLine, AreValues}

native-IsValueLine : (name : Dll) → IsValueLine name (native_line name)
unfolding section managed lower is_break
native-IsValueLine d3d8 = record { complete = ground arith; no_section = refl; named = refl }
native-IsValueLine d3d9 = record { complete = ground arith; no_section = refl; named = refl }
native-IsValueLine d3d10core = record { complete = ground arith; no_section = refl; named = refl }
native-IsValueLine d3d11 = record { complete = ground arith; no_section = refl; named = refl }
native-IsValueLine dxgi = record { complete = ground arith; no_section = refl; named = refl }

pub installed-AreValues : AreValues installed_values
installed-AreValues = record {
  for_d3d8 = native-IsValueLine d3d8;
  for_d3d9 = native-IsValueLine d3d9;
  for_d3d10core = native-IsValueLine d3d10core;
  for_d3d11 = native-IsValueLine d3d11;
  for_dxgi = native-IsValueLine dxgi;
}
