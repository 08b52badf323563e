-- ===== src/Oidc/Client.antt =====
-- my_auth/oidc.py, `OIDCClient`: what a registered client may ask for.
use my_auth.Oidc.Url.{is_blank, absolute_https_url}
use my_auth.Url.{Urls}
use my_auth.Equality.{option_eq, list_eq, nat_eq, ◌==◌}
use my_auth.Oidc.Pkce.{compare_digest}
use my_auth.Encoding.{hex, utf8}
use my_auth.Text.{is_space, codes, is_empty, Bytes, Text}
use my_auth.Prelude.{
  is_none, any, is_some, ◌||◌, ◌&&◌, leb, length, nat_beq, map, not, ℕ, [], false, true, none, all,
  ◌∷◌, if◌then◌else◌, Bool, some, Option, List,
}
pub mod Laws
pub mod Registered
use my_auth.Result.{configuration_error, value_error, raise_if, ok, Result, ◌>>=◌, ◌>>◌}
use my_auth.Oidc.Scope.{is_distinct_words, scope_tuple, join, member}

pub record OidcClient : Type 0 where
  pub client_id : Text
  pub redirect_uris : List Text
  pub scopes : List Text
  pub client_secret_hash : Option Text
  pub token_endpoint_auth_method : Option Text

abbrev pub allow : List Text → List Text → Option Text
allow scopes [] = some (join scopes)
allow scopes (w ∷ ws) = if all (λ v. member v scopes) (w ∷ ws) then some (join (w ∷ ws)) else none

unfoldable pub get_allowed_scope : OidcClient → Option Text → Result (Option Text)
unfolding scope_tuple join
get_allowed_scope client scope = do
  requested ← scope_tuple scope
  ok (allow client.scopes requested)

-- `validate_client_redirect`, which `check_redirect_uri` calls
unfoldable pub validate_client_redirect : OidcClient → Text → Bool
validate_client_redirect client redirect_uri = member redirect_uri client.redirect_uris

unfoldable pub hash_client_secret : (Bytes → Bytes) → Text → Result Text
unfolding utf8 hex
hash_client_secret sha256 client_secret = do
  raise_if (is_empty client_secret) value_error
  encoded ← utf8 client_secret
  ok (hex (sha256 encoded))

-- The check against the stored hash.
unfoldable pub check_hash : (Bytes → Bytes) → Option Text → Text → Result Bool
unfolding utf8 hex compare_digest
check_hash sha256 none client_secret = ok false
check_hash sha256 (some expected) client_secret = do
  encoded ← utf8 client_secret
  compare_digest (hex (sha256 encoded)) expected

unfoldable pub check_client_secret : (Bytes → Bytes) → OidcClient → Text → Result Bool
unfolding check_hash
check_client_secret sha256 client client_secret =
    check_hash sha256 client.client_secret_hash client_secret

unfoldable pub check_endpoint_auth_method : OidcClient → Text → Text → Bool
check_endpoint_auth_method client method endpoint =
    if endpoint == codes "token" then some method == client.token_endpoint_auth_method else true

-- _HEX_SHA256_PATTERN
abbrev pub is_hex_digit : ℕ → Bool
is_hex_digit c = (leb 48 c && leb c 57) || (leb 97 c && leb c 102)

abbrev pub is_sha256_hex : Text → Bool
is_sha256_hex s = nat_beq (length s) 64 && all is_hex_digit s

abbrev pub is_bad_hash : Option Text → Bool
is_bad_hash none = false
is_bad_hash (some h) = not (is_sha256_hex h)

-- _SUPPORTED_SCOPES
abbrev pub supported_scopes : List Text
supported_scopes = map codes ("openid" ∷ "profile" ∷ "email" ∷ [])

-- The loop over the redirect URIs.
unfoldable pub check_redirects : Urls → List Text → Result (Unit {0})
unfolding absolute_https_url
check_redirects urls [] = ok tt
check_redirects urls (uri ∷ uris) = do absolute_https_url urls uri true; check_redirects urls uris

-- The given method, or the one that the hash calls for.
abbrev pub method_or_default : Option Text → Option Text → Text
method_or_default (some method) hash = method
method_or_default none hash = if is_blank hash then codes "none" else codes "client_secret_basic"

-- The checks of the method against the hash.
unfoldable pub check_method : Text → Option Text → Result (Unit {0})
check_method method hash = do
  raise_if (not (method == codes "none") && not (method == codes "client_secret_basic"))
      configuration_error
  raise_if (method == codes "none" && is_some hash) configuration_error
  raise_if (method == codes "client_secret_basic" && is_none hash) configuration_error

-- `__post_init__`
unfoldable pub new_client : Urls → OidcClient → Result OidcClient
unfolding is_distinct_words check_redirects check_method is_space
new_client urls client =
    let method = method_or_default client.token_endpoint_auth_method client.client_secret_hash in
    do
      raise_if (is_empty client.client_id || any is_space client.client_id) configuration_error
      raise_if (nat_beq (length client.redirect_uris) 0) configuration_error
      raise_if (not (member (codes "openid") client.scopes)) configuration_error
      raise_if (not (is_distinct_words client.scopes)) configuration_error
      raise_if (not (all (λ s. member s supported_scopes) client.scopes)) configuration_error
      check_redirects urls client.redirect_uris
      raise_if (is_bad_hash client.client_secret_hash) configuration_error
      check_method method client.client_secret_hash
      ok (record client { token_endpoint_auth_method = some method })
