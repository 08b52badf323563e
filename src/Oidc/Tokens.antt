-- ===== src/Oidc/Tokens.antt =====
-- my_auth/oidc.py, `MemoryTokenStore`: bearer tokens by the hash of their value, with the look-up and
-- the revocation of an access token.
use my_auth.Equality.{list_eq, nat_eq, option_eq}
use my_auth.Oidc.Client.{OidcClient}
use my_auth.Text.{is_empty, Text, Bytes}
use my_auth.Dict.{put, get, Dict}
use my_auth.Encoding.{hex, utf8}
use my_auth.Prelude.{true, none, leb, false, ◌||◌, if◌then◌else◌, some, Option, Bool, ℕ}
pub mod Revoked
pub mod Save
use my_auth.Exec.{Exec}
use my_auth.Result.{err, ok, Result, ◌>>=◌, ◌>>◌}

-- The host's user object and the client are carried along unread.
pub record TokenRecord (User : Type 0) : Type 0 where
  pub access_token : Text
  pub client_id : Text
  pub subject : Text
  pub scope : Text
  pub expires_at : ℕ
  pub token_type : Text
  pub refresh_token : Option Text
  pub refresh_expires_at : Option ℕ
  pub user : Option User
  pub client : Option OidcClient
  pub revoked : Bool

abbrev pub Tokens : Type 0 → Type 0
Tokens User = Dict Text (TokenRecord User)

-- The `_key` of the store.
unfoldable pub token_key : (Bytes → Bytes) → Text → Result Text
unfolding utf8 hex
token_key sha256 value = do encoded ← utf8 value; ok (hex (sha256 encoded))

module _ {User : Type 0} where
  -- record is None or record.revoked or current >= record.expires_at
  unfoldable pub live : ℕ → Option (TokenRecord User) → Option (TokenRecord User)
  live current none = none
  live current (some r) = if r.revoked || leb r.expires_at current then none else some r

  abbrev pub look_up : ℕ → Result Text → Tokens User → Result (Option (TokenRecord User))
  look_up current (err e) s = err e
  look_up current (ok key) s = ok (live current (get s key))

  unfoldable pub get_access_token :
      (Bytes → Bytes) → Text → ℕ → Tokens User → Result (Option (TokenRecord User))
  unfolding token_key live
  get_access_token sha256 access_token current s =
      if is_empty access_token then ok none else look_up current (token_key sha256 access_token) s

  -- The stored record is marked in place.
  unfoldable pub revoke_found : Text → Option (TokenRecord User) → Exec (Tokens User) Bool
  revoke_found key none s = (s, ok false)
  revoke_found key (some r) s = (put s key (record r { revoked = true }), ok true)

  abbrev pub revoke_key : Result Text → Exec (Tokens User) Bool
  revoke_key (err e) s = (s, err e)
  revoke_key (ok key) s = revoke_found key (get s key) s

  unfoldable pub revoke_access_token : (Bytes → Bytes) → Text → Exec (Tokens User) Bool
  unfolding token_key revoke_found
  revoke_access_token sha256 access_token s = revoke_key (token_key sha256 access_token) s
