-- ===== src/Oidc/Pkce.antt =====
-- my_auth/oidc.py: the PKCE values of an authorization code.
pub mod Laws
use my_auth.Equality.{list_eq, option_eq, nat_eq, ◌==◌}
use my_auth.Prelude.{nat_beq, ◌||◌, ltb, length, all, ◌&&◌, if◌then◌else◌, leb, Bool, ℕ}
use my_auth.Text.{Text, Bytes}
use my_auth.Base64.{urlsafe_b64encode, rstrip_padding}
use my_auth.Result.{type_error, protocol_error, err, ok, Result, ◌>>=◌}

-- [A-Za-z0-9._~-]
abbrev pub is_unreserved : ℕ → Bool
is_unreserved c =
    (leb 65 c && leb c 90)
    || (leb 97 c && leb c 122)
    || (leb 48 c && leb c 57)
    || nat_beq c 46
    || nat_beq c 95
    || nat_beq c 126
    || nat_beq c 45

-- _CODE_VERIFIER_PATTERN.fullmatch
unfoldable pub matches_code_verifier : Text → Bool
matches_code_verifier s = leb 43 (length s) && leb (length s) 128 && all is_unreserved s

unfoldable pub validate_code_challenge : Text → Result Text
unfolding matches_code_verifier
validate_code_challenge code_challenge =
    if matches_code_verifier code_challenge then ok code_challenge else err protocol_error

unfoldable pub validate_code_verifier : Text → Result Text
unfolding matches_code_verifier
validate_code_verifier code_verifier =
    if matches_code_verifier code_verifier then ok code_verifier else err protocol_error

-- An accepted verifier is ASCII, so its encoding is its code points.
unfoldable pub create_s256_code_challenge : (Bytes → Bytes) → Text → Result Text
unfolding validate_code_verifier urlsafe_b64encode rstrip_padding
create_s256_code_challenge sha256 code_verifier = do
  verifier ← validate_code_verifier code_verifier
  ok (rstrip_padding (urlsafe_b64encode (sha256 verifier)))

-- hmac.compare_digest of two `str`, which raises a `TypeError` unless both are ASCII.
unfoldable pub compare_digest : Text → Text → Result Bool
compare_digest a b =
    if all (λ c. ltb c 128) a && all (λ c. ltb c 128) b then ok (a == b) else err type_error
