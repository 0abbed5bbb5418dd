-- ===== src/MachO.antt =====
-- The check of an executable's header (rust/src/config.rs, `is_arm64_macho_bytes`). A slice out of
-- range, which panics in the source, is `none`.
pub mod Bounds
use open_code_server.Base.{
  ℕ, zero, suc, Bool, true, false, ◌||◌, ◌+◌, ◌*◌, Option, none, some, List, ◌∷◌, ltb, leb, ◌==◌,
  if◌then◌else◌,
}
use open_code_server.Lists.{length, drop}

abbrev pub cpu_type_arm64 : ℕ
cpu_type_arm64 = 16777228

abbrev pub from_bytes : Bool → ℕ → ℕ → ℕ → ℕ → ℕ
from_bytes true a b c d = ((a * 256 + b) * 256 + c) * 256 + d
from_bytes false a b c d = ((d * 256 + c) * 256 + b) * 256 + a

-- `u32::from_be_bytes` and `u32::from_le_bytes` of the first four bytes.
unfoldable pub first_u32 : Bool → List ℕ → Option ℕ
first_u32 big (a ∷ b ∷ c ∷ d ∷ bs) = some (from_bytes big a b c d)
first_u32 big _ = none

unfoldable pub read_u32 : Bool → List ℕ → ℕ → Option ℕ
unfolding first_u32 drop
read_u32 big bytes offset = first_u32 big (drop offset bytes)

abbrev pub usize_max : ℕ
usize_max = 18446744073709551615

abbrev pub saturating : ℕ → ℕ
saturating n = if leb usize_max n then usize_max else n

abbrev pub entry_size : Bool → ℕ
entry_size true = 32
entry_size false = 20

-- The loop over `index..index + left`.
unfoldable pub any_entry : Bool → Bool → List ℕ → ℕ → ℕ → Option Bool
unfolding read_u32
any_entry is_64 big bytes index zero = some false
any_entry is_64 big bytes index (suc left) =
    let rest = any_entry is_64 big bytes (index + 1) left in
    elim (read_u32 big bytes (8 + index * entry_size is_64)) [
      | none ↦ none
      | some cpu ↦ if cpu == cpu_type_arm64 then some true else rest
    ]

-- A fat header with this many entries.
unfoldable pub fat_entries : Option ℕ → Bool → Bool → List ℕ → Option Bool
unfolding any_entry
fat_entries none is_64 big bytes = none
fat_entries (some count) is_64 big bytes =
    if ltb 64 count || ltb (length bytes) (saturating (8 + saturating (count * entry_size is_64)))
    then some false
    else any_entry is_64 big bytes 0 count

unfoldable pub fat : Bool → Bool → List ℕ → Option Bool
unfolding fat_entries
fat is_64 big bytes = fat_entries (read_u32 big bytes 4) is_64 big bytes

unfoldable pub fat_by_magic : Option ℕ → List ℕ → Option Bool
unfolding fat
fat_by_magic none bytes = none
fat_by_magic (some magic) bytes =
    if magic == 3405691582
    then fat false true bytes
    else if magic == 3405691583
    then fat true true bytes
    else if magic == 3199925962
    then fat false false bytes
    else if magic == 3216703178
    then fat true false bytes
    else some false

unfoldable pub is_arm : Option ℕ → Option Bool
is_arm none = none
is_arm (some cpu) = some (cpu == cpu_type_arm64)

unfoldable pub by_magic : Option ℕ → List ℕ → Option Bool
unfolding is_arm fat_by_magic
by_magic none bytes = none
by_magic (some magic) bytes =
    if magic == 4277009102 || magic == 4277009103
    then is_arm (read_u32 false bytes 4)
    else fat_by_magic (read_u32 true bytes 0) bytes

unfoldable pub is_arm64_macho_bytes : List ℕ → Option Bool
unfolding by_magic length
is_arm64_macho_bytes bytes =
    if ltb (length bytes) 8 then some false else by_magic (read_u32 false bytes 0) bytes
