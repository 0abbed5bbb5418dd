-- ===== src/Config/Fingerprint.antt =====
-- The fingerprint of a configuration (rust/src/config_fingerprint.rs): the canonical bytes of its
-- fields, the tag over them, its hexadecimal text, and the checks of the private key's file.
use Prim.Native.Char.{Char}
use Prim.Native.Nat.{◌/◌, ◌%◌}
use open_code_server.Base.{
  ℕ, zero, suc, String, ◌+◌, ◌*◌, ◌-◌, Bool, true, false, not, ◌&&◌, Option, none, some, List, [],
  ◌∷◌, ◌++◌, ◌==◌, ◌>>=◌, ltb, leb, if◌then◌else◌,
}
use open_code_server.Lists.{length}
use open_code_server.Config.{ValidatedConfig, ConfigFingerprint, ConfigFingerprintKey}
use open_code_server.Config.Text.{as_bytes, to_be_bytes}

abbrev pub fingerprint_version : ℕ
fingerprint_version = 1

abbrev pub key_bytes : ℕ
key_bytes = 32

abbrev pub tag_bytes : ℕ
tag_bytes = 32

abbrev pub domain : String
domain = "OpenCodeServer.ConfigFingerprint.v1\0"

abbrev pub update_u16 : ℕ → List ℕ
update_u16 value = to_be_bytes 2 value

abbrev pub update_u64 : ℕ → List ℕ
update_u64 value = to_be_bytes 8 value

-- A field of any length is preceded by its length.
abbrev pub update_bytes : List ℕ → List ℕ
update_bytes value = update_u64 (length value) ++ value

abbrev pub byte_of_bool : Bool → ℕ
byte_of_bool true = 1
byte_of_bool false = 0

-- What `update_canonical_config` feeds to the MAC, in one piece.
unfoldable pub canonical_config : ValidatedConfig → List ℕ
canonical_config c =
    as_bytes domain
    ++ (update_u64 c.source.schema_version
        ++ (update_bytes (as_bytes c.source.hostname)
            ++ (update_u16 c.source.port
                ++ (update_bytes (as_bytes c.effective_username)
                    ++ (update_bytes (as_bytes c.source.password)
                        ++ ((byte_of_bool c.source.mdns ∷ [])
                            ++ update_bytes (as_bytes c.configured_executable)))))))

abbrev pub hex : String
hex = "0123456789abcdef"

-- `HEX[index]`; an index past the end does not occur, and gives the first digit.
unfoldable pub digit_at : String → ℕ → Char
digit_at String.[] index = "0"
digit_at (String.◌∷◌ c s) zero = c
digit_at (String.◌∷◌ c s) (suc index) = digit_at s index

unfoldable pub encode_hex : List ℕ → String
unfolding digit_at
encode_hex [] = String.[]
encode_hex (byte ∷ bytes) =
    String.◌∷◌ (digit_at hex (byte / 16)) (String.◌∷◌ (digit_at hex (byte % 16)) (encode_hex bytes))

unfoldable pub decode_nibble : ℕ → Option ℕ
decode_nibble value =
    if leb b'0' value && leb value b'9'
    then some (value - b'0')
    else if leb b'a' value && leb value b'f'
    then some (value - b'a' + 10)
    else if leb b'A' value && leb value b'F'
    then some (value - b'A' + 10)
    else none

-- `checked_mul(16)` and `checked_add` on `u8`.
abbrev pub checked : ℕ → Option ℕ
checked value = if ltb 255 value then none else some value

unfoldable pub decode_pair : ℕ → ℕ → Option ℕ
decode_pair high low = do
  h ← decode_nibble high
  sixteenfold ← checked (h * 16)
  l ← decode_nibble low
  checked (sixteenfold + l)

-- `chunks_exact(2)`: a single byte at the end is left out.
unfoldable pub decode_pairs : List ℕ → Option (List ℕ)
decode_pairs [] = some []
decode_pairs (b ∷ []) = some []
decode_pairs (high ∷ low ∷ bytes) = do
  byte ← decode_pair high low
  rest ← decode_pairs bytes
  some (byte ∷ rest)

unfoldable pub decode_hex : ℕ → String → Option (List ℕ)
unfolding decode_pairs
decode_hex n value =
    if not (length (as_bytes value) == n * 2) then none else decode_pairs (as_bytes value)

abbrev pub same_bytes : List ℕ → List ℕ → Bool
same_bytes [] [] = true
same_bytes (x ∷ xs) (y ∷ ys) = x == y && same_bytes xs ys
same_bytes _ _ = false

-- The keyed hash is a library's: `mac` is HMAC-SHA256 with the private key.
module _ (mac : List ℕ → List ℕ) where
  unfoldable pub fingerprint : ValidatedConfig → ConfigFingerprint
  unfolding canonical_config
  fingerprint c = record {
    version = fingerprint_version;
    hmac_sha256 = encode_hex (mac (canonical_config c));
  }

  abbrev pub verify_tag : Option (List ℕ) → ValidatedConfig → Bool
  verify_tag none c = false
  verify_tag (some expected) c = same_bytes expected (mac (canonical_config c))

  unfoldable pub verifies : ConfigFingerprint → ValidatedConfig → Bool
  verifies f c =
      if not (f.version == fingerprint_version)
      then false
      else verify_tag (decode_hex tag_bytes f.hmac_sha256) c

  -- What the supervisor is given.
  abbrev pub fingerprint_key : ConfigFingerprintKey
  fingerprint_key = record { fingerprint = fingerprint; verifies = verifies }
