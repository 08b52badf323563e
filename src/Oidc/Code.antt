-- ===== src/Oidc/Code.antt =====
-- my_auth/oidc.py, `AuthorizationCode`: a short-lived code that is bound to a client, a redirect URI,
-- a subject and a PKCE challenge. Times are whole seconds.
use my_auth.Oidc.Pkce.{validate_code_challenge}
pub mod Redeem
use my_auth.Equality.{option_eq, nat_eq, list_eq, ◌==◌}
use my_auth.Text.{codes, is_empty, Bytes, Text}
use my_auth.Result.{protocol_error, permission_error, ok, raise_if, err, Result}
use my_auth.Prelude.{
  suc, any, ◌-◌, true, ltb, not, ◌+◌, ◌||◌, none, false, leb, Bool, List, if◌then◌else◌, some, ℕ,
  Option,
}
use my_auth.Int.{negsuc, pos, ℤ}
use my_auth.Result.{◌>>=◌, ◌>>◌}

-- The host's user object is carried along unread.
pub record AuthorizationCode (User : Type 0) : Type 0 where
  pub value : Text
  pub client_id : Text
  pub redirect_uri : Text
  pub subject : Text
  pub scope : List Text
  pub nonce : Text
  pub code_challenge : Text
  pub expires_at : ℕ
  pub code_challenge_method : Text
  pub auth_time : Option ℤ
  pub acr : Option Text
  pub amr : List Text
  pub user : Option User
  pub redeemed : Bool

-- value or secrets.token_urlsafe(32), after an empty value was refused
abbrev pub value_or : Option Text → Text → Text
value_or none token = token
value_or (some value) token = value

abbrev pub is_empty_value : Option Text → Bool
is_empty_value none = false
is_empty_value (some value) = is_empty value

-- lifetime_seconds <= 0 or lifetime_seconds > 600
abbrev pub is_bad_lifetime : ℤ → Bool
is_bad_lifetime (pos n) = leb n 0 || ltb 600 n
is_bad_lifetime (negsuc n) = true

-- now + lifetime_seconds, for an accepted lifetime
abbrev pub ends_at : ℕ → ℤ → ℕ
ends_at now (pos n) = now + n
ends_at now (negsuc n) = now - suc n

module _ {User : Type 0} where
  unfoldable pub issue :
      Text
      → Text
      → Text
      → List Text
      → Text
      → Text
      → ℕ
      → Text
      → ℤ
      → Option ℤ
      → Option Text
      → List Text
      → Option User
      → Option Text
      → Text
      → Result (AuthorizationCode User)
  unfolding validate_code_challenge
  issue client_id redirect_uri subject scope nonce code_challenge now code_challenge_method
        lifetime_seconds auth_time acr amr user value token =
      do
        raise_if (not (any (λ s. s == codes "openid") scope) || is_empty nonce) protocol_error
        raise_if (not (code_challenge_method == codes "S256")) protocol_error
        checked ← validate_code_challenge code_challenge
        raise_if (is_bad_lifetime lifetime_seconds) protocol_error
        raise_if (is_empty subject) protocol_error
        raise_if (is_empty_value value) protocol_error
        ok (record {
          value = value_or value token;
          client_id = client_id;
          redirect_uri = redirect_uri;
          subject = subject;
          scope = scope;
          nonce = nonce;
          code_challenge = code_challenge;
          expires_at = ends_at now lifetime_seconds;
          code_challenge_method = code_challenge_method;
          auth_time = auth_time;
          acr = acr;
          amr = amr;
          user = user;
          redeemed = false;
        })
