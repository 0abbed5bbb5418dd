-- ===== src/MachO/Bounds.antt =====
-- The reads of the header check (rust/src/config.rs) against the length of the header.
mod Tests
use open_code_server.Base.{
  ℕ, zero, suc, Bool, true, false, ◌≡◌, refl, ◌+◌, ◌*◌, ◌≤◌, Option, none, some, List, [], ◌∷◌,
  arith, is_some, if◌then◌else◌,
}
use open_code_server.Lists.{length, drop}
use open_code_server.MachO.{
  first_u32, read_u32, entry_size, any_entry, fat_entries, fat, fat_by_magic, is_arm, by_magic,
  is_arm64_macho_bytes,
}

first_u32-some : (big : Bool) (bs : List ℕ) → 4 ≤ length bs → is_some (first_u32 big bs) ≡ true
unfolding first_u32 length
first_u32-some big (a ∷ b ∷ c ∷ d ∷ bs) h = refl
first_u32-some big [] h = ground arith
first_u32-some big (a ∷ []) h = ground arith
first_u32-some big (a ∷ b ∷ []) h = ground arith
first_u32-some big (a ∷ b ∷ c ∷ []) h = ground arith

length-drop : (n k : ℕ) (bs : List ℕ) → n + k ≤ length bs → k ≤ length (drop n bs)
unfolding drop length
length-drop zero k bs h = omega arith
length-drop (suc n) k [] h = omega arith
length-drop (suc n) k (b ∷ bs) h = length-drop n k bs (omega arith)

read_u32-some :
    (big : Bool) (bytes : List ℕ) (offset : ℕ)
    → offset + 4 ≤ length bytes
    → is_some (read_u32 big bytes offset) ≡ true
unfolding read_u32
read_u32-some big bytes offset h =
    first_u32-some big (drop offset bytes) (length-drop offset 4 bytes h)

any_entry-some :
    (is_64 big : Bool) (bytes : List ℕ) (index left : ℕ)
    → 8 + (index + left) * entry_size is_64 ≤ length bytes
    → is_some (any_entry is_64 big bytes index left) ≡ true
unfolding any_entry
any_entry-some is_64 big bytes index zero h = refl
any_entry-some true big bytes index (suc left) h = ground (
  arith,
  h,
  read_u32-some big bytes (8 + index * 32) (omega arith),
  any_entry-some true big bytes (index + 1) left (omega arith),
)
any_entry-some false big bytes index (suc left) h = ground (
  arith,
  h,
  read_u32-some big bytes (8 + index * 20) (omega arith),
  any_entry-some false big bytes (index + 1) left (omega arith),
)

guarded-some :
    (closed : Bool) (x : Option Bool)
    → (closed ≡ false → is_some x ≡ true)
    → is_some (if closed then some false else x) ≡ true
guarded-some true x k = refl
guarded-some false x k = k refl

fat_count-some :
    (count : ℕ) (is_64 big : Bool) (bytes : List ℕ)
    → is_some (fat_entries (some count) is_64 big bytes) ≡ true
unfolding fat_entries
fat_count-some count true big bytes =
    guarded-some _ _ (λ e. any_entry-some true big bytes 0 count (ground (arith, e)))
fat_count-some count false big bytes =
    guarded-some _ _ (λ e. any_entry-some false big bytes 0 count (ground (arith, e)))

fat_entries-some :
    (count : Option ℕ) (is_64 big : Bool) (bytes : List ℕ)
    → is_some count ≡ true
    → is_some (fat_entries count is_64 big bytes) ≡ true
unfolding fat_entries
fat_entries-some none is_64 big bytes h = cc
fat_entries-some (some count) is_64 big bytes h = fat_count-some count is_64 big bytes

fat-some :
    (is_64 big : Bool) (bytes : List ℕ) → 8 ≤ length bytes → is_some (fat is_64 big bytes) ≡ true
unfolding fat
fat-some is_64 big bytes h =
    fat_entries-some (read_u32 big bytes 4) is_64 big bytes (read_u32-some big bytes 4 h)

fat_by_magic-some :
    (magic : Option ℕ) (bytes : List ℕ)
    → is_some magic ≡ true
    → 8 ≤ length bytes
    → is_some (fat_by_magic magic bytes) ≡ true
unfolding fat_by_magic
fat_by_magic-some none bytes e h = cc
fat_by_magic-some (some magic) bytes e h = ground (
  arith,
  fat-some false true bytes h,
  fat-some true true bytes h,
  fat-some false false bytes h,
  fat-some true false bytes h,
)

is_arm-some : (cpu : Option ℕ) → is_some cpu ≡ true → is_some (is_arm cpu) ≡ true
unfolding is_arm
is_arm-some none e = cc
is_arm-some (some cpu) e = refl

by_magic-some :
    (magic : Option ℕ) (bytes : List ℕ)
    → is_some magic ≡ true
    → 8 ≤ length bytes
    → is_some (by_magic magic bytes) ≡ true
unfolding by_magic
by_magic-some none bytes e h = cc
by_magic-some (some magic) bytes e h = ground (
  arith,
  is_arm-some (read_u32 false bytes 4) (read_u32-some false bytes 4 h),
  fat_by_magic-some (read_u32 true bytes 0) bytes (read_u32-some true bytes 0 (omega arith)) h,
)

-- The check of an executable's header reads no byte outside of it, whatever the bytes are and however
-- many entries they announce: it always answers.
pub is_arm64_macho_bytes-some : (bytes : List ℕ) → is_some (is_arm64_macho_bytes bytes) ≡ true
unfolding is_arm64_macho_bytes
is_arm64_macho_bytes-some bytes = ground (
  arith,
  λ (h : 8 ≤ length bytes).
      by_magic-some (read_u32 false bytes 0) bytes (read_u32-some false bytes 0 (omega arith)) h,
)
