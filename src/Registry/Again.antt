-- ===== src/Registry/Again.antt =====
-- A second edit of the registry replaces the first: the first leaves everything else in place.
use winecx_gptk.Common.{◌≡◌, List, ◌++◌}
use winecx_gptk.Common.Text.{Text}
use winecx_gptk.Registry.{body, after_body, unmanaged}
use winecx_gptk.Registry.Lines.{Line}

abbrev Kept : List Line → List Line → List Line → Type 0
Kept lines vals later =
    (unmanaged (body (unmanaged (body lines) ++ (vals ++ later))) ≡ unmanaged (body lines))
    × (after_body (unmanaged (body lines) ++ (vals ++ later)) ≡ later)
