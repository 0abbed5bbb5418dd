-- ===== src/MachO/Bounds/Tests.antt =====
-- A header with one entry, for arm64.
use open_code_server.Base.{ℕ, true, ◌≡◌, List, [], ◌∷◌, is_some}
use open_code_server.MachO.{is_arm64_macho_bytes}
use open_code_server.MachO.Bounds.{is_arm64_macho_bytes-some}

abbrev header : List ℕ
header = 207 ∷ 250 ∷ 237 ∷ 254 ∷ 12 ∷ 0 ∷ 0 ∷ 1 ∷ []

is_arm64_macho_bytes-some_example : is_some (is_arm64_macho_bytes header) ≡ true
is_arm64_macho_bytes-some_example = is_arm64_macho_bytes-some header
