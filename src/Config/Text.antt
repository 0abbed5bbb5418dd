-- ===== src/Config/Text.antt =====
-- Texts as the Rust code sees them: the UTF-8 bytes of a `str` and numbers as big-endian bytes.
use Prim.Native.Char.{code}
use Prim.Native.Nat.{◌/◌, ◌%◌}
use open_code_server.Base.{
  ℕ, zero, suc, String, ◌+◌, ◌*◌, ◌<◌, ◌≡◌, refl, List, [], ◌∷◌, ◌++◌, ltb, arith, if◌then◌else◌,
}
use open_code_server.Lists.{length, length-append}

-- The UTF-8 bytes of one code point.
abbrev pub utf8 : ℕ → List ℕ
utf8 c =
    if ltb c 128
    then c ∷ []
    else if ltb c 2048
    then (192 + c / 64) ∷ (128 + c % 64) ∷ []
    else if ltb c 65_536
    then (224 + c / 4096) ∷ (128 + c / 64 % 64) ∷ (128 + c % 64) ∷ []
    else (240 + c / 262_144) ∷ (128 + c / 4096 % 64) ∷ (128 + c / 64 % 64) ∷ (128 + c % 64) ∷ []

unfoldable pub as_bytes : String → List ℕ
as_bytes String.[] = []
as_bytes (String.◌∷◌ c s) = utf8 (code c) ++ as_bytes s

-- The last `n` bytes of a number, the highest first.
unfoldable pub to_be_bytes : ℕ → ℕ → List ℕ
to_be_bytes zero value = []
to_be_bytes (suc n) value = to_be_bytes n (value / 256) ++ (value % 256 ∷ [])

unfoldable pub from_be_bytes : ℕ → List ℕ → ℕ
from_be_bytes high [] = high
from_be_bytes high (b ∷ bytes) = from_be_bytes (256 * high + b) bytes

-- The numbers of `n` bytes.
unfoldable pub byte_range : ℕ → ℕ
byte_range zero = 1
byte_range (suc n) = 256 * byte_range n

from_be_bytes-append :
    (high b : ℕ) (bytes : List ℕ)
    → from_be_bytes high (bytes ++ (b ∷ [])) ≡ 256 * from_be_bytes high bytes + b
unfolding from_be_bytes
from_be_bytes-append high b [] = refl
from_be_bytes-append high b (x ∷ bytes) = from_be_bytes-append (256 * high + x) b bytes

pub from_be_bytes-to_be_bytes :
    (n value : ℕ) → value < byte_range n → from_be_bytes 0 (to_be_bytes n value) ≡ value
unfolding to_be_bytes byte_range from_be_bytes
from_be_bytes-to_be_bytes zero value h = omega arith
from_be_bytes-to_be_bytes (suc n) value h = omega (
  arith,
  from_be_bytes-append 0 (value % 256) (to_be_bytes n (value / 256)),
  from_be_bytes-to_be_bytes n (value / 256) (omega arith),
)

pub length-to_be_bytes : (n value : ℕ) → length (to_be_bytes n value) ≡ n
unfolding to_be_bytes length
length-to_be_bytes zero value = refl
length-to_be_bytes (suc n) value = grind (
  arith,
  length-append (to_be_bytes n (value / 256)) (value % 256 ∷ []),
  length-to_be_bytes n (value / 256),
)
