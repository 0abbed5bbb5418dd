-- ===== src/CredentialGrant/Marker.antt =====
-- A recorded grant (rust/src/credential_grant.rs) and its loading.
use Prim.Native.String.{◌++◌ as ◌+++◌}
use text.Mathlib.TextLemmas.{nil-append, cons-append, append-nil}
use open_code_server.Base.{
  ℕ, String, ◌≡◌, refl, ap, ◌∙◌, false, Option, some, List, [], ◌∷◌, ◌==◌, arith, ok,
}
use open_code_server.Config.Text.{as_bytes}
use open_code_server.Config.Hostname.{is_empty, any_char}
use open_code_server.PrivateFile.{PrivateFile, read_private_file}
use open_code_server.CredentialGrant.{
  max_marker_bytes, lines, trim, marker_of_lines, marker_text, text_of, load,
}

newline_append : (rest : String) → "\n" +++ rest ≡ String.◌∷◌ "\n" rest
newline_append rest = cons-append "\n" String.[] rest ∙ ap (String.◌∷◌ "\n") (nil-append rest)

lines-newline : (rest : String) → lines (String.◌∷◌ "\n" rest) ≡ String.[] ∷ lines rest
unfolding lines
lines-newline rest = refl

-- The text up to its first newline is the first line.
lines-line :
    (s rest : String)
    → any_char (λ c. c == b'\n') s ≡ false
    → lines (s +++ ("\n" +++ rest)) ≡ s ∷ lines rest
unfolding lines any_char
lines-line String.[] rest h =
    ap lines (nil-append ("\n" +++ rest) ∙ newline_append rest) ∙ lines-newline rest
lines-line (String.◌∷◌ c s) rest h =
    rw (cons-append c s ("\n" +++ rest), lines-line s rest (ground arith)) (ground arith)

lines-marker_text :
    (account version team : String)
    → any_char (λ c. c == b'\n') account ≡ false
    → any_char (λ c. c == b'\n') version ≡ false
    → any_char (λ c. c == b'\n') team ≡ false
    → lines (marker_text account version team) ≡ account ∷ version ∷ team ∷ []
unfolding lines
lines-marker_text account version team a v t =
    rw
      (
        lines-line account (version +++ ("\n" +++ (team +++ "\n"))) a,
        lines-line version (team +++ "\n") v,
        ← append-nil "\n",
        lines-line team "" t,
      )
      refl

-- A marker that is read back as it was recorded: the account, the version and the team of a record
-- are loaded again, where none has a newline or blanks at its ends, the account and the version are
-- not empty, and the file is read and is the text that was written.
pub load-marker_text :
    (own_uid : ℕ) (from_utf8 : List ℕ → Option String) (file : PrivateFile)
    (account version team : String)
    → read_private_file own_uid max_marker_bytes file
      ≡ ok (as_bytes (marker_text account version team))
    → from_utf8 (as_bytes (marker_text account version team))
      ≡ some (marker_text account version team)
    → any_char (λ c. c == b'\n') account ≡ false
    → any_char (λ c. c == b'\n') version ≡ false
    → any_char (λ c. c == b'\n') team ≡ false
    → trim account ≡ account
    → trim version ≡ version
    → trim team ≡ team
    → is_empty account ≡ false
    → is_empty version ≡ false
    → load own_uid from_utf8 file ≡ some (account, version, team)
unfolding load text_of marker_of_lines
load-marker_text own_uid from_utf8 file account version team file_read decoded a v t ta tv tt na
      nv =
    rw (file_read, decoded, lines-marker_text account version team a v t, ta, tv, tt, na, nv) refl
