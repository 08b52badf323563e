-- ===== src/Tests/Provider.antt =====
-- Runs of the OpenID provider's configuration, clients, claims and tokens.
use my_auth.Passkeys.Config.{
  ends_with, starts_with, contains, check_hosts, normalized, normalize_origin, normalize_origins,
  new_passkey_config, PasskeyConfig,
}
use my_auth.Encoding.{hex, utf8}
use my_auth.Dict.{get, put}
use my_auth.Oidc.Scope.{scope_values, join, split, distinct_words, ScopeValue, is_distinct_words}
use my_auth.Int.{ℤ, pos}
use my_auth.Result.{value_error, err, ok, Result}
use my_auth.Equality.{pair_beq, list_beq, nat_eq, list_eq, option_eq, ◌==◌}
use my_auth.Oidc.Url.{origin, absolute_https_url}
use my_auth.Url.{Urls}
use my_auth.Oidc.Tokens.{token_key, get_access_token, TokenRecord}
use my_auth.Oidc.Client.{check_method, check_redirects, OidcClient, new_client}
use my_auth.Text.{is_space, is_empty, strip, Bytes, codes, Text}
use my_auth.Prelude.{
  refl, select, all, any, false, leb, [], ◌∷◌, none, some, if◌then◌else◌, ◌≡◌, List,
}
use my_auth.Oidc.Config.{check_endpoint, check_endpoints, ProviderConfig, new_config}
use my_auth.Oidc.Users.{
  email_claims, project_claims, default_user_claims, default_user_subject, Attribute,
  default_adapter, ClaimValue, Claims, User,
}
use my_auth.Oidc.Provider.{
  client_map_from, Provider, Settings, claims_for, new_provider, subject_for, released,
  allowed_claims,
}
use my_auth.Oidc.Provider.Released.{Released, claims_for-Released}
use my_auth.Oidc.Provider.Bounds.{Configured, new_provider-Configured}
use my_auth.Oidc.Client.Registered.{IsRegistered, new_client-IsRegistered}
use my_auth.Oidc.Config.Origins.{HasOneOrigin, new_config-HasOneOrigin}
use my_auth.Oidc.Tokens.Save
use my_auth.Oidc.Tokens.Save.{TokenValue, TokenMapping}
use my_auth.Oidc.Tokens.Save.Laws.{get_access_token-save}

-- A `urlsplit` that reads every text as an HTTPS URL of one host.
abbrev urls : Urls
urls = record {
  urlsplit = λ s. ok (record {
    scheme = codes "https";
    netloc = codes "a.b";
    path = [];
    hostname = some (codes "a.b");
    username = none;
    password = none;
    query = [];
    fragment = [];
    port = ok none;
  });
  casefold = λ s. s;
  lower = λ s. s;
}

abbrev config : ProviderConfig
config = record {
  issuer = codes "https://a.b";
  authorization_endpoint = codes "https://a.b/authorize";
  token_endpoint = codes "https://a.b/token";
  jwks_uri = codes "https://a.b/jwks";
  userinfo_endpoint = some (codes "https://a.b/userinfo");
  revocation_endpoint = none;
}

program : Unit {0}
unfolding new_config check_endpoints check_endpoint absolute_https_url origin strip list_beq
    pair_beq new_client check_redirects check_method is_distinct_words any all is_space new_provider
    client_map_from put get claims_for scope_values distinct_words split subject_for released
    allowed_claims select Save.save Save.token_record Save.expires_at_of token_key utf8 hex join
    default_adapter default_user_subject default_user_claims project_claims email_claims
    new_passkey_config normalize_origins normalize_origin normalized check_hosts contains
    starts_with ends_with
program = tt

config_accepted : new_config urls config ≡ ok config
unfolding program
config_accepted = refl

new_config-HasOneOrigin_example : HasOneOrigin urls config
new_config-HasOneOrigin_example = new_config-HasOneOrigin urls config config_accepted

abbrev given : OidcClient
given = record {
  client_id = codes "c";
  redirect_uris = codes "https://a.b/back" ∷ [];
  scopes = codes "openid" ∷ codes "email" ∷ [];
  client_secret_hash = none;
  token_endpoint_auth_method = none;
}

abbrev client : OidcClient
client = record given { token_endpoint_auth_method = some (codes "none") }

client_accepted : new_client urls given ≡ ok client
unfolding program
client_accepted = refl

new_client-IsRegistered_example : IsRegistered client
new_client-IsRegistered_example = new_client-IsRegistered urls given client_accepted

abbrev settings : Settings User Text
settings = record {
  config = config;
  clients = client ∷ [];
  codes = none;
  tokens = none;
  signing_keys = none;
  users = default_adapter;
  authorization_code_lifetime = pos 300;
  access_token_lifetime = pos 600;
  id_token_lifetime = pos 600;
  allow_refresh_tokens = false;
}

abbrev provider : Provider User Text
provider = record {
  config = config;
  clients = (codes "c", client) ∷ [];
  codes = record { codes = []; nonce_expiry = [] };
  tokens = [];
  signing_keys = none;
  users = default_adapter;
  authorization_code_lifetime = pos 300;
  access_token_lifetime = pos 600;
  id_token_lifetime = pos 600;
}

provider_accepted : new_provider settings ≡ ok provider
unfolding program
provider_accepted = refl

new_provider-Configured_example : Configured settings provider
new_provider-Configured_example = new_provider-Configured settings provider_accepted

-- A user with an identifier, a name and an address.
abbrev alice : User
alice name =
    if name == codes "user_id"
    then some (Attribute.text (codes "u"))
    else if name == codes "name"
    then some (Attribute.text (codes "Alice"))
    else if name == codes "email"
    then some (Attribute.text (codes "a@b"))
    else none

abbrev claims : Claims
claims =
    (codes "sub", ClaimValue.text (codes "u")) ∷ (codes "email", ClaimValue.text (codes "a@b")) ∷ []

claims_released : claims_for provider alice (ScopeValue.text (codes "openid email")) ≡ ok claims
unfolding program
claims_released = refl

claims_for-Released_example :
    (scopes : List Text) × (found : Claims) × (subject : Text) × (scope_values
        (ScopeValue.text (codes "openid email"))
      ≡ ok scopes)
    × (provider.users.claims alice scopes ≡ ok found)
    × (provider.users.subject alice ≡ ok subject)
    × (is_empty subject ≡ false)
    × Released scopes subject found claims
claims_for-Released_example =
    claims_for-Released provider alice (ScopeValue.text (codes "openid email")) claims_released

-- A stand-in for SHA-256.
abbrev sha : Bytes → Bytes
sha b = b

abbrev mapping : TokenMapping
mapping name =
    if name == codes "access_token"
    then some (TokenValue.text (codes "t"))
    else if name == codes "expires_in"
    then some (TokenValue.number (codes "600") (ok (pos 600)))
    else none

abbrev token : TokenRecord Text
token = record {
  access_token = codes "t";
  client_id = codes "c";
  subject = codes "u";
  scope = [];
  expires_at = 700;
  token_type = codes "Bearer";
  refresh_token = none;
  refresh_expires_at = none;
  user = none;
  client = none;
  revoked = false;
}

abbrev int : Text → Result ℤ
int s = err value_error

token_saved :
    Save.save sha int mapping (codes "c") (codes "u") 100 none none []
    ≡ ((codes "74", token) ∷ [], ok token)
unfolding program
token_saved = refl

get_access_token-save_example :
    (Save.value_of (mapping (codes "access_token")) ≡ TokenValue.text (codes "t"))
    × (codes "u" ≡ codes "u")
    × (codes "c" ≡ codes "c")
    × (leb 700 100 ≡ false)
    × (get_access_token sha (codes "t") 200 ((codes "74", token) ∷ [])
        ≡ ok (if leb 700 200 then none else some token))
get_access_token-save_example =
    get_access_token-save sha int mapping (codes "c") (codes "u") 100 200 none none []
      ((codes "74", token) ∷ []) token_saved

abbrev passkeys : PasskeyConfig
passkeys = record {
  rp_id = codes "a.b";
  rp_name = codes "a";
  origins = codes "https://a.b" ∷ [];
  timeout_ms = pos 60000;
  challenge_ttl_seconds = pos 300;
  user_verification = codes "required";
}
