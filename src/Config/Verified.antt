-- ===== src/Config/Verified.antt =====
-- The fingerprint of a configuration (rust/src/config_fingerprint.rs) against its
-- contract: whether two configurations launch the same.
use open_code_server.Base.{
  ℕ, ◌≡◌, refl, sym, ap, ◌∙◌, ◌&&◌, ◌==◌, Bool, true, false, List, [], ◌∷◌, arith,
}
use open_code_server.Lists.{length, all}
use open_code_server.Config.{same_bool, ValidatedConfig}
use open_code_server.Config.Text.{as_bytes}
use open_code_server.Config.Canonical.{IsRepresentable, IsSameLaunch, canonical_config-IsSameLaunch}
use open_code_server.Config.Tag.{is_byte, decode_hex-encode_hex}
use open_code_server.Config.Fingerprint.{
  tag_bytes, canonical_config, same_bytes, fingerprint, verify_tag, verifies,
}

same_bytes_refl : (xs : List ℕ) → same_bytes xs xs ≡ true
same_bytes_refl [] = refl
same_bytes_refl (x ∷ xs) = ground (arith, same_bytes_refl xs)

same_bytes_eq : (xs ys : List ℕ) → same_bytes xs ys ≡ true → xs ≡ ys
same_bytes_eq [] [] h = refl
same_bytes_eq [] (y ∷ ys) h = ground arith
same_bytes_eq (x ∷ xs) [] h = ground arith
same_bytes_eq (x ∷ xs) (y ∷ ys) h = ground (arith, same_bytes_eq xs ys)

verifies-tag :
    (mac : List ℕ → List ℕ) (a b : ValidatedConfig)
    → length (mac (canonical_config a)) ≡ tag_bytes
    → all is_byte (mac (canonical_config a)) ≡ true
    → verifies mac (fingerprint mac a) b
      ≡ same_bytes (mac (canonical_config a)) (mac (canonical_config b))
unfolding verifies fingerprint
verifies-tag mac a b long small =
    ap (λ tag. verify_tag mac tag b)
      (decode_hex-encode_hex tag_bytes (mac (canonical_config a)) long small)

-- A configuration's own fingerprint verifies it, where the MAC gives 32 bytes.
pub verifies-fingerprint :
    (mac : List ℕ → List ℕ) (c : ValidatedConfig)
    → length (mac (canonical_config c)) ≡ tag_bytes
    → all is_byte (mac (canonical_config c)) ≡ true
    → verifies mac (fingerprint mac c) c ≡ true
verifies-fingerprint mac c long small =
    verifies-tag mac c c long small ∙ same_bytes_refl (mac (canonical_config c))

-- The contract of the fingerprint, without bytes of its own: whether two configurations launch the
-- same.
unfoldable pub same_launch : ValidatedConfig → ValidatedConfig → Bool
same_launch a b =
    a.source.schema_version == b.source.schema_version
    && same_bytes (as_bytes a.source.hostname) (as_bytes b.source.hostname)
    && a.source.port == b.source.port
    && same_bytes (as_bytes a.effective_username) (as_bytes b.effective_username)
    && same_bytes (as_bytes a.source.password) (as_bytes b.source.password)
    && same_bool a.source.mdns b.source.mdns
    && same_bytes (as_bytes a.configured_executable) (as_bytes b.configured_executable)

same_bytes-eq : (xs ys : List ℕ) → xs ≡ ys → same_bytes xs ys ≡ true
same_bytes-eq xs ys e = ap (same_bytes xs) (sym e) ∙ same_bytes_refl xs

same_bool_eq : (a b : Bool) → same_bool a b ≡ true → a ≡ b
same_bool_eq true b h = sym h
same_bool_eq false true h = ground arith
same_bool_eq false false h = refl

same_bool-eq : (a b : Bool) → a ≡ b → same_bool a b ≡ true
same_bool-eq true b e = sym e
same_bool-eq false true e = ground arith
same_bool-eq false false e = refl

IsSameLaunch-same_launch : (a b : ValidatedConfig) → IsSameLaunch a b → same_launch a b ≡ true
unfolding IsSameLaunch same_launch
IsSameLaunch-same_launch a b (schema, hostname, port, username, password, mdns, executable) =
    ground (
      arith,
      same_bytes-eq _ _ hostname,
      same_bytes-eq _ _ username,
      same_bytes-eq _ _ password,
      same_bool-eq _ _ mdns,
      same_bytes-eq _ _ executable,
    )

same_launch-canonical_config :
    (a b : ValidatedConfig) → same_launch a b ≡ true → canonical_config a ≡ canonical_config b
unfolding same_launch canonical_config
same_launch-canonical_config a b h =
    rw
      (
        schema,
        same_bytes_eq (as_bytes a.source.hostname) (as_bytes b.source.hostname) (ground arith),
        port,
        same_bytes_eq (as_bytes a.effective_username) (as_bytes b.effective_username)
            (ground arith),
        same_bytes_eq (as_bytes a.source.password) (as_bytes b.source.password) (ground arith),
        same_bool_eq a.source.mdns b.source.mdns (ground arith),
        same_bytes_eq (as_bytes a.configured_executable) (as_bytes b.configured_executable)
            (ground arith),
      )
      refl
  where
    schema : a.source.schema_version ≡ b.source.schema_version
    schema = ground arith

    port : a.source.port ≡ b.source.port
    port = ground arith

verifies_sound :
    (mac : List ℕ → List ℕ) (a b : ValidatedConfig)
    → IsRepresentable a
    → IsRepresentable b
    → (mac (canonical_config a) ≡ mac (canonical_config b)
        → canonical_config a ≡ canonical_config b)
    → same_bytes (mac (canonical_config a)) (mac (canonical_config b)) ≡ true
    → same_launch a b ≡ true
verifies_sound mac a b fits fits' no_collision h =
    IsSameLaunch-same_launch a b
      (canonical_config-IsSameLaunch a b fits fits' (no_collision (same_bytes_eq _ _ h)))

verifies_complete :
    (mac : List ℕ → List ℕ) (a b : ValidatedConfig)
    → same_launch a b ≡ true
    → same_bytes (mac (canonical_config a)) (mac (canonical_config b)) ≡ true
verifies_complete mac a b h =
    same_bytes-eq (mac (canonical_config a)) (mac (canonical_config b))
      (ap mac (same_launch-canonical_config a b h))

-- The fingerprint of one configuration verifies another one exactly where both launch the same: the
-- version of the schema, the port and the mDNS choice are equal, and byte for byte the hostname, the
-- effective username, the password and the executable. This holds where the MAC gives 32 bytes and
-- does not collide on the two, and the numbers and lengths are in the range of their types.
pub verifies-same_launch :
    (mac : List ℕ → List ℕ) (a b : ValidatedConfig)
    → IsRepresentable a
    → IsRepresentable b
    → length (mac (canonical_config a)) ≡ tag_bytes
    → all is_byte (mac (canonical_config a)) ≡ true
    → (mac (canonical_config a) ≡ mac (canonical_config b)
        → canonical_config a ≡ canonical_config b)
    → verifies mac (fingerprint mac a) b ≡ same_launch a b
verifies-same_launch mac a b fits fits' long small no_collision = ground (
  arith,
  verifies-tag mac a b long small,
  verifies_sound mac a b fits fits' no_collision,
  verifies_complete mac a b,
)
