-- ===== src/Oidc/Config.antt =====
-- my_auth/oidc.py, `OIDCProviderConfig`: the issuer, its endpoints, and the discovery document.
pub mod Origins
use my_auth.Equality.{nat_eq, list_eq}
use my_auth.Equality.{pair_eq}
use my_auth.Equality.{◌==◌, nat_eq, list_eq, option_eq}
use my_auth.Text.{codes, Text}
use my_auth.Dict.{Dict, put}
use my_auth.Prelude.{
  not, map, none, [], nat_beq, Bool, false, if◌then◌else◌, ◌++◌, some, ◌∷◌, Option, List, String, ℕ,
}
use my_auth.Result.{configuration_error, raise_if, ok, Result, ◌>>=◌, ◌>>◌}
use my_auth.Oidc.Url.{Origin, absolute_https_url, origin}
use my_auth.Url.{Urls}

pub record ProviderConfig : Type 0 where
  pub issuer : Text
  pub authorization_endpoint : Text
  pub token_endpoint : Text
  pub jwks_uri : Text
  pub userinfo_endpoint : Option Text
  pub revocation_endpoint : Option Text

-- One endpoint: absent, or an HTTPS URL of the issuer's origin.
unfoldable pub check_endpoint : Urls → Origin → Option Text → Result (Unit {0})
unfolding absolute_https_url origin
check_endpoint urls issuer_origin none = ok tt
check_endpoint urls issuer_origin (some value) = do
  absolute_https_url urls value false
  endpoint_origin ← origin urls value
  raise_if (not (endpoint_origin == issuer_origin)) configuration_error

-- The loop over the endpoints.
unfoldable pub check_endpoints : Urls → Origin → List (Option Text) → Result (Unit {0})
unfolding check_endpoint
check_endpoints urls issuer_origin [] = ok tt
check_endpoints urls issuer_origin (e ∷ es) = do
  check_endpoint urls issuer_origin e
  check_endpoints urls issuer_origin es

abbrev pub endpoints : ProviderConfig → List (Option Text)
endpoints config =
    some config.authorization_endpoint
    ∷ some config.token_endpoint
    ∷ some config.jwks_uri
    ∷ config.userinfo_endpoint
    ∷ config.revocation_endpoint
    ∷ []

-- `__post_init__`
unfoldable pub new_config : Urls → ProviderConfig → Result ProviderConfig
unfolding absolute_https_url origin check_endpoints
new_config urls config = do
  absolute_https_url urls config.issuer false
  issuer_origin ← origin urls config.issuer
  check_endpoints urls issuer_origin (endpoints config)
  ok config

-- value.rstrip("/")
abbrev pub keep_slash : ℕ → Text → Text
keep_slash c [] = if nat_beq c 47 then [] else c ∷ []
keep_slash c (d ∷ s) = c ∷ d ∷ s

unfoldable pub rstrip_slash : Text → Text
rstrip_slash [] = []
rstrip_slash (c ∷ s) = keep_slash c (rstrip_slash s)

unfoldable pub discovery_endpoint : ProviderConfig → Text
unfolding rstrip_slash
discovery_endpoint config = rstrip_slash config.issuer ++ codes "/.well-known/openid-configuration"

-- The values of the discovery document.
pub data Value : Type 0 where
  text : Text → Value
  texts : List Text → Value
  flag : Bool → Value

abbrev pub with_endpoint : String → Option Text → Dict Text Value → Dict Text Value
with_endpoint name none result = result
with_endpoint name (some url) result = put result (codes name) (text url)

unfoldable pub base_metadata : ProviderConfig → Dict Text Value
base_metadata config =
    (codes "issuer", text config.issuer)
    ∷ (codes "authorization_endpoint", text config.authorization_endpoint)
    ∷ (codes "token_endpoint", text config.token_endpoint)
    ∷ (codes "jwks_uri", text config.jwks_uri)
    ∷ (codes "response_types_supported", texts (codes "code" ∷ []))
    ∷ (codes "response_modes_supported", texts (codes "query" ∷ []))
    ∷ (codes "grant_types_supported", texts (codes "authorization_code" ∷ []))
    ∷ (codes "subject_types_supported", texts (codes "public" ∷ []))
    ∷ (codes "id_token_signing_alg_values_supported", texts (codes "RS256" ∷ []))
    ∷ (codes "scopes_supported", texts (map codes ("openid" ∷ "profile" ∷ "email" ∷ [])))
    ∷ (
      codes "token_endpoint_auth_methods_supported",
      texts (map codes ("none" ∷ "client_secret_basic" ∷ [])),
    )
    ∷ (codes "code_challenge_methods_supported", texts (codes "S256" ∷ []))
    ∷ (
      codes "claims_supported",
      texts (
          map codes (
            "sub" ∷ "iss" ∷ "aud" ∷ "exp" ∷ "iat" ∷ "nonce" ∷ "auth_time" ∷ "amr" ∷ "acr" ∷ "name"
            ∷ "email" ∷ "email_verified" ∷ [])),
    )
    ∷ (codes "claim_types_supported", texts (codes "normal" ∷ []))
    ∷ (codes "request_parameter_supported", flag false)
    ∷ (codes "request_uri_parameter_supported", flag false)
    ∷ []

unfoldable pub metadata : ProviderConfig → Dict Text Value
unfolding base_metadata put
metadata config =
    with_endpoint "revocation_endpoint" config.revocation_endpoint
      (with_endpoint "userinfo_endpoint" config.userinfo_endpoint (base_metadata config))
