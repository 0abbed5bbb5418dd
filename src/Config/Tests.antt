-- ===== src/Config/Tests.antt =====
-- A configuration and its fingerprint (rust/src/config_fingerprint.rs) under a keyed sum.
use Prim.Native.Nat.{◌%◌}
use open_code_server.Base.{ℕ, ◌+◌, ◌≡◌, refl, true, false, List, [], ◌∷◌, arith}
use open_code_server.Lists.{length, all}
use open_code_server.Config.{ValidatedConfig}
use open_code_server.Config.Text.{as_bytes, to_be_bytes, byte_range}
use open_code_server.Config.Fingerprint.{canonical_config, fingerprint, verifies, update_bytes}
use open_code_server.Config.Canonical.{IsRepresentable}
use open_code_server.Config.Verified.{same_launch, verifies-same_launch}

abbrev pub small : ValidatedConfig
small = record {
  source = record {
    schema_version = 1;
    hostname = "::1";
    port = 4096;
    username = "";
    password = "p";
    mdns = false;
    executable_path = "";
  };
  configured_executable = "/o";
  canonical_executable = "/o";
  effective_username = "opencode";
}

-- Of 32 bytes, the first is the sum of all.
sum : List ℕ → ℕ
sum [] = 0
sum (b ∷ bytes) = (b + sum bytes) % 256

abbrev sum_mac : List ℕ → List ℕ
sum_mac bytes = sum bytes ∷ to_be_bytes 31 0

long_field : update_bytes (as_bytes "ab") ≡ 0 ∷ 0 ∷ 0 ∷ 0 ∷ 0 ∷ 0 ∷ 0 ∷ 2 ∷ 97 ∷ 98 ∷ []
unfolding as_bytes to_be_bytes length
long_field = refl

-- The same launch with its username and executable written out.
abbrev explicit : ValidatedConfig
explicit = record small {
  source = record (small.source) { username = "opencode"; executable_path = "/o" };
}

small-IsRepresentable : IsRepresentable small
unfolding IsRepresentable as_bytes length byte_range
small-IsRepresentable =
    (omega arith, omega arith, omega arith, omega arith, omega arith, omega arith)

explicit-IsRepresentable : IsRepresentable explicit
unfolding IsRepresentable as_bytes length byte_range
explicit-IsRepresentable =
    (omega arith, omega arith, omega arith, omega arith, omega arith, omega arith)

launches_same : same_launch small explicit ≡ true
unfolding same_launch as_bytes
launches_same = refl

verifies-same_launch_example :
    verifies sum_mac (fingerprint sum_mac small) explicit ≡ same_launch small explicit
unfolding canonical_config as_bytes to_be_bytes length all sum
verifies-same_launch_example =
    verifies-same_launch sum_mac small explicit small-IsRepresentable explicit-IsRepresentable refl
      refl (λ e. refl)
