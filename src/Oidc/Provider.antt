-- ===== src/Oidc/Provider.antt =====
-- my_auth/oidc.py, `OIDCProvider`: the provider's settings, its clients, and the claims that it
-- releases. The type of the host's users is a parameter.
use my_auth.Oidc.Tokens.{Tokens}
use my_auth.Oidc.Codes.{Store}
use my_auth.Oidc.Users.{UserAdapter, ClaimValue, Claims}
use my_auth.Equality.{◌==◌, list_eq, option_eq, nat_eq}
use my_auth.Oidc.Client.{OidcClient}
use my_auth.Text.{is_empty, codes, Text}
use my_auth.Oidc.Scope.{member, ScopeValue, scope_values}
use my_auth.Int.{negsuc, pos, ℤ}
use my_auth.Oidc.Config.{ProviderConfig}
use my_auth.Dict.{get, Dict, put}
use my_auth.Prelude.{
  false, length, ◌++◌, nat_beq, ◌&&◌, none, leb, not, if◌then◌else◌, ◌∷◌, [], Bool, select, map,
  some, Option, List, ℕ,
}
use my_auth.Result.{configuration_error, protocol_error, raise_if, ok, Result, ◌>>=◌, ◌>>◌}
pub mod Bounds
pub mod Released

pub record Provider (U Keys : Type 0) : Type 0 where
  pub config : ProviderConfig
  pub clients : Dict Text OidcClient
  pub codes : Store U
  pub tokens : Tokens U
  pub signing_keys : Option Keys
  pub users : UserAdapter U
  pub authorization_code_lifetime : ℤ
  pub access_token_lifetime : ℤ
  pub id_token_lifetime : ℤ

-- The arguments of the constructor.
pub record Settings (U Keys : Type 0) : Type 0 where
  pub config : ProviderConfig
  pub clients : List OidcClient
  pub codes : Option (Store U)
  pub tokens : Option (Tokens U)
  pub signing_keys : Option Keys
  pub users : UserAdapter U
  pub authorization_code_lifetime : ℤ
  pub access_token_lifetime : ℤ
  pub id_token_lifetime : ℤ
  pub allow_refresh_tokens : Bool

-- 1 <= seconds <= most
abbrev pub is_lifetime : ℕ → ℤ → Bool
is_lifetime most (pos n) = leb 1 n && leb n most
is_lifetime most (negsuc n) = false

-- {client.client_id: client for client in client_list}, from the first on
unfoldable pub client_map_from : Dict Text OidcClient → List OidcClient → Dict Text OidcClient
unfolding put
client_map_from d [] = d
client_map_from d (c ∷ cs) = client_map_from (put d c.client_id c) cs

-- value or new()
abbrev pub or_new {ℓ} : {A : Type ℓ} → Option A → A → A
or_new none new = new
or_new (some a) new = a

-- `__init__`
unfoldable pub new_provider : {U Keys : Type 0} → Settings U Keys → Result (Provider U Keys)
unfolding client_map_from
new_provider settings =
    let client_map = client_map_from [] settings.clients in
    do
      raise_if (not (is_lifetime 600 settings.authorization_code_lifetime)) configuration_error
      raise_if (not (is_lifetime 3600 settings.access_token_lifetime)) configuration_error
      raise_if (not (is_lifetime 3600 settings.id_token_lifetime)) configuration_error
      raise_if settings.allow_refresh_tokens configuration_error
      raise_if (not (nat_beq (length client_map) (length settings.clients))) configuration_error
      raise_if (nat_beq (length client_map) 0) configuration_error
      ok (record {
        config = settings.config;
        clients = client_map;
        codes = or_new settings.codes (record { codes = []; nonce_expiry = [] });
        tokens = or_new settings.tokens [];
        signing_keys = settings.signing_keys;
        users = settings.users;
        authorization_code_lifetime = settings.authorization_code_lifetime;
        access_token_lifetime = settings.access_token_lifetime;
        id_token_lifetime = settings.id_token_lifetime;
      })

module _ {U Keys : Type 0} (provider : Provider U Keys) where
  unfoldable pub query_client : Text → Option OidcClient
  query_client client_id = get provider.clients client_id

  unfoldable pub subject_for : U → Result Text
  subject_for user = do
    subject ← provider.users.subject user
    raise_if (is_empty subject) protocol_error
    ok subject

  -- fallback is not None and self.subject_for(fallback) == subject
  unfoldable pub resolve_fallback : Text → Option U → Result (Option U)
  unfolding subject_for
  resolve_fallback subject none = ok none
  resolve_fallback subject (some user) = do
    own ← subject_for user
    ok (if own == subject then some user else none)

  unfoldable pub resolve_subject : Text → Option U → Result (Option U)
  unfolding resolve_fallback
  resolve_subject subject fallback = elim provider.users.resolve [
    | none ↦ resolve_fallback subject fallback
    | some resolve ↦ resolve subject
  ]

  unfoldable pub is_active : U → Result Bool
  is_active user = provider.users.active user

abbrev pub profile_claims : List Text
profile_claims = map codes (
    "name" ∷ "given_name" ∷ "family_name" ∷ "middle_name" ∷ "nickname" ∷ "preferred_username"
    ∷ "profile" ∷ "picture" ∷ "website" ∷ "gender" ∷ "birthdate" ∷ "zoneinfo" ∷ "locale"
    ∷ "updated_at" ∷ [])

abbrev pub email_claim_names : List Text
email_claim_names = map codes ("email" ∷ "email_verified" ∷ [])

unfoldable pub allowed_claims : List Text → List Text
allowed_claims scopes =
    codes "sub" ∷ (if member (codes "profile") scopes then profile_claims else [])
    ++ (if member (codes "email") scopes then email_claim_names else [])

-- The claims of a subject that the scopes allow.
unfoldable pub released : List Text → Text → Claims → Claims
unfolding put allowed_claims select
released scopes subject claims =
    if member (codes "openid") scopes
    then select (λ claim. member claim.0 (allowed_claims scopes))
        (put claims (codes "sub") (ClaimValue.text subject))
    else (codes "sub", ClaimValue.text subject) ∷ []

unfoldable pub claims_for : {U Keys : Type 0} → Provider U Keys → U → ScopeValue → Result Claims
unfolding scope_values subject_for released
claims_for provider user scope = do
  scopes ← scope_values scope
  claims ← provider.users.claims user scopes
  subject ← subject_for provider user
  ok (released scopes subject claims)
