-- ===== src/Config/Canonical.antt =====
-- The fingerprint of a configuration (rust/src/config_fingerprint.rs) distinguishes what it hashes.
use open_code_server.Base.{
  ℕ, ◌<◌, ◌≡◌, refl, sym, ap, ◌∙◌, Bool, true, false, List, [], ◌∷◌, ◌++◌, arith,
}
use open_code_server.Lists.{length, append_assoc, append_split}
use open_code_server.Config.{ValidatedConfig}
use open_code_server.Config.Text.{
  as_bytes, to_be_bytes, from_be_bytes, byte_range, from_be_bytes-to_be_bytes, length-to_be_bytes,
}
use open_code_server.Config.Fingerprint.{
  domain, update_u64, update_bytes, byte_of_bool, canonical_config,
}

-- Fields of a legal size: what the types `u64` and `u16` hold, and a length that fits in `u64`.
unfoldable pub IsRepresentable : ValidatedConfig → Type 0
IsRepresentable c =
    (c.source.schema_version < byte_range 8)
    × (c.source.port < byte_range 2)
    × (length (as_bytes c.source.hostname) < byte_range 8)
    × (length (as_bytes c.effective_username) < byte_range 8)
    × (length (as_bytes c.source.password) < byte_range 8)
    × (length (as_bytes c.configured_executable) < byte_range 8)

-- The same version of the schema, port and mDNS choice, and the same texts, byte for byte.
unfoldable pub IsSameLaunch : ValidatedConfig → ValidatedConfig → Type 0
IsSameLaunch a b =
    (a.source.schema_version ≡ b.source.schema_version)
    × (as_bytes a.source.hostname ≡ as_bytes b.source.hostname)
    × (a.source.port ≡ b.source.port)
    × (as_bytes a.effective_username ≡ as_bytes b.effective_username)
    × (as_bytes a.source.password ≡ as_bytes b.source.password)
    × (a.source.mdns ≡ b.source.mdns)
    × (as_bytes a.configured_executable ≡ as_bytes b.configured_executable)

to_be_bytes-split :
    (n v w : ℕ) (rest rest' : List ℕ)
    → v < byte_range n
    → w < byte_range n
    → to_be_bytes n v ++ rest ≡ to_be_bytes n w ++ rest'
    → (v ≡ w) × (rest ≡ rest')
to_be_bytes-split n v w rest rest' small small' h =
    let (same, others) =
      append_split (to_be_bytes n v) (to_be_bytes n w) rest rest'
        (length-to_be_bytes n v ∙ sym (length-to_be_bytes n w)) h in
    (
      sym (from_be_bytes-to_be_bytes n v small)
          ∙ ap (from_be_bytes 0) same
          ∙ from_be_bytes-to_be_bytes n w small',
      others,
    )

-- A field behind its length can be told from what follows it.
update_bytes-split :
    (xs ys rest rest' : List ℕ)
    → length xs < byte_range 8
    → length ys < byte_range 8
    → update_bytes xs ++ rest ≡ update_bytes ys ++ rest'
    → (xs ≡ ys) × (rest ≡ rest')
update_bytes-split xs ys rest rest' small small' h =
    let (count, others) =
      to_be_bytes-split 8 (length xs) (length ys) (xs ++ rest) (ys ++ rest') small small' (
        sym (append_assoc (update_u64 (length xs)) xs rest)
        ∙ h
        ∙ append_assoc (update_u64 (length ys)) ys rest') in
    append_split xs ys rest rest' count others

flag-split :
    (a b : Bool) (rest rest' : List ℕ)
    → (byte_of_bool a ∷ []) ++ rest ≡ (byte_of_bool b ∷ []) ++ rest'
    → (a ≡ b) × (rest ≡ rest')
flag-split true true rest rest' h = ground arith
flag-split true false rest rest' h = ground arith
flag-split false true rest rest' h = ground arith
flag-split false false rest rest' h = ground arith

-- The bytes that are hashed determine every field that is hashed.
pub canonical_config-IsSameLaunch :
    (a b : ValidatedConfig)
    → IsRepresentable a
    → IsRepresentable b
    → canonical_config a ≡ canonical_config b
    → IsSameLaunch a b
unfolding canonical_config IsRepresentable IsSameLaunch
canonical_config-IsSameLaunch a b (v, p, h, u, w, x) (v', p', h', u', w', x') e =
    let (_, e1) = append_split (as_bytes domain) (as_bytes domain) _ _ refl e in
    let (schema, e2) = to_be_bytes-split 8 _ _ _ _ v v' e1 in
    let (hostname, e3) = update_bytes-split _ _ _ _ h h' e2 in
    let (port, e4) = to_be_bytes-split 2 _ _ _ _ p p' e3 in
    let (username, e5) = update_bytes-split _ _ _ _ u u' e4 in
    let (password, e6) = update_bytes-split _ _ _ _ w w' e5 in
    let (mdns, e7) = flag-split a.source.mdns b.source.mdns _ _ e6 in
    let (_, executable) = to_be_bytes-split 8 _ _ _ _ x x' e7 in
    (schema, hostname, port, username, password, mdns, executable)
