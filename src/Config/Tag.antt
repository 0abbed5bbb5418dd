-- ===== src/Config/Tag.antt =====
-- The hexadecimal text of a tag (rust/src/config_fingerprint.rs) and reading it back.
use Prim.Native.Char.{code}
use Prim.Native.Nat.{◌/◌, ◌%◌}
use open_code_server.Base.{
  ℕ, zero, suc, ◌*◌, ◌<◌, ◌≡◌, refl, ap, Bool, true, ◌&&◌, some, List, [], ◌∷◌, ◌==◌, ltb, arith,
  is_some_and, Option-cases,
}
use open_code_server.Lists.{length, all}
use open_code_server.Config.Text.{as_bytes, utf8}
use open_code_server.Config.Fingerprint.{
  digit_at, hex, encode_hex, decode_nibble, decode_pair, decode_pairs, decode_hex,
}

abbrev pub is_byte : ℕ → Bool
is_byte b = ltb b 256

all_below : ℕ → (ℕ → Bool) → Bool
all_below zero test = true
all_below (suc n) test = test n && all_below n test

all_below_lem : (n : ℕ) (test : ℕ → Bool) (x : ℕ) → all_below n test ≡ true → x < n → test x ≡ true
unfolding all_below
all_below_lem zero test x h lt = absurd (omega arith)
all_below_lem (suc n) test x h lt = ground (arith, all_below_lem n test x)

abbrev is_read : ℕ → Bool
is_read n =
    ltb (code (digit_at hex n)) 128
    && is_some_and (decode_nibble (code (digit_at hex n))) (λ m. m == n)

digits_read : all_below 16 is_read ≡ true
unfolding all_below digit_at decode_nibble
digits_read = refl

-- A hexadecimal digit is one byte long and is read back.
digit_read :
    (n : ℕ)
    → n < 16
    → (utf8 (code (digit_at hex n)) ≡ code (digit_at hex n) ∷ [])
      × (decode_nibble (code (digit_at hex n)) ≡ some n)
digit_read n h = ground (
  arith,
  all_below_lem 16 is_read n digits_read h,
  Option-cases (decode_nibble (code (digit_at hex n))),
)

abbrev digit_code : ℕ → ℕ
digit_code n = code (digit_at hex n)

encoded_byte :
    (byte : ℕ) (bytes : List ℕ)
    → byte < 256
    → as_bytes (encode_hex (byte ∷ bytes))
      ≡ digit_code (byte / 16) ∷ digit_code (byte % 16) ∷ as_bytes (encode_hex bytes)
unfolding encode_hex as_bytes
encoded_byte byte bytes h =
    let (high, _) = digit_read (byte / 16) (omega arith) in
    let (low, _) = digit_read (byte % 16) (omega arith) in rw (high, low) refl

decode_pair-digits :
    (byte : ℕ)
    → byte < 256
    → decode_pair (digit_code (byte / 16)) (digit_code (byte % 16)) ≡ some byte
unfolding decode_pair
decode_pair-digits byte h =
    let (_, high) = digit_read (byte / 16) (omega arith) in
    let (_, low) = digit_read (byte % 16) (omega arith) in rw (high, low) (ground arith)

encoded_nil : as_bytes (encode_hex []) ≡ []
unfolding encode_hex as_bytes
encoded_nil = refl

length-encode_hex :
    (bytes : List ℕ)
    → all is_byte bytes ≡ true
    → length (as_bytes (encode_hex bytes)) ≡ length bytes * 2
unfolding length all encode_hex as_bytes
length-encode_hex [] h = refl
length-encode_hex (byte ∷ bytes) h =
    ground (arith, ap length (encoded_byte byte bytes (ground arith)), length-encode_hex bytes)

decode_pairs-encode_hex :
    (bytes : List ℕ)
    → all is_byte bytes ≡ true
    → decode_pairs (as_bytes (encode_hex bytes)) ≡ some bytes
unfolding all decode_pairs
decode_pairs-encode_hex [] h = ap decode_pairs encoded_nil
decode_pairs-encode_hex (byte ∷ bytes) h =
    rw
      (
        encoded_byte byte bytes (ground arith),
        decode_pair-digits byte (ground arith),
        decode_pairs-encode_hex bytes (ground arith),
      )
      refl

-- The hexadecimal text of bytes is read back as these bytes, where their number is asked for.
pub decode_hex-encode_hex :
    (n : ℕ) (bytes : List ℕ)
    → length bytes ≡ n
    → all is_byte bytes ≡ true
    → decode_hex n (encode_hex bytes) ≡ some bytes
unfolding decode_hex
decode_hex-encode_hex n bytes count small =
    let long = length-encode_hex bytes small in ground (arith, decode_pairs-encode_hex bytes small)
