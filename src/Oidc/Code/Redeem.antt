-- ===== src/Oidc/Code/Redeem.antt =====
-- my_auth/oidc.py, `AuthorizationCode.redeem`: the checks of a redemption, and the mark it leaves.
pub mod Laws
use my_auth.Equality.{option_eq, list_eq, nat_eq, ◌==◌}
use my_auth.Prelude.{false, true, not, ◌||◌, leb, if◌then◌else◌, Bool, ℕ}
use my_auth.Text.{codes, Bytes, Text}
use my_auth.Result.{permission_error, ok, err, Result}
use my_auth.Oidc.Pkce.{create_s256_code_challenge, compare_digest, validate_code_verifier}
use my_auth.Exec.{Exec, ◌>>=◌, lift}
use my_auth.Oidc.Code.{AuthorizationCode}

module _ {User : Type 0} where
  -- now >= self.expires_at
  abbrev pub is_expired : ℕ → AuthorizationCode User → Bool
  is_expired now code = leb code.expires_at now

  -- The tests of `redeem` before it compares the challenges.
  abbrev pub is_unusable : Text → Text → ℕ → AuthorizationCode User → Bool
  is_unusable client_id redirect_uri now code =
      code.redeemed
      || is_expired now code
      || not (code.client_id == client_id)
      || not (code.redirect_uri == redirect_uri)
      || not (code.code_challenge_method == codes "S256")

  -- What `redeem` does once the challenges are compared.
  unfoldable pub redeem_compared : Result Bool → Exec (AuthorizationCode User) Text
  redeem_compared (ok true) code = (record code { redeemed = true }, ok code.subject)
  redeem_compared (ok false) code = (code, err permission_error)
  redeem_compared (err e) code = (code, err e)

  unfoldable pub redeem_actual : Text → Text → ℕ → Text → Exec (AuthorizationCode User) Text
  unfolding compare_digest redeem_compared
  redeem_actual client_id redirect_uri now actual code =
      if is_unusable client_id redirect_uri now code
      then (code, err permission_error)
      else redeem_compared (compare_digest actual code.code_challenge) code

  unfoldable pub redeem :
      (Bytes → Bytes) → Text → Text → Text → ℕ → Exec (AuthorizationCode User) Text
  unfolding validate_code_verifier create_s256_code_challenge redeem_actual
  redeem sha256 client_id redirect_uri code_verifier now = do
    verifier ← lift (validate_code_verifier code_verifier)
    actual ← lift (create_s256_code_challenge sha256 verifier)
    redeem_actual client_id redirect_uri now actual
