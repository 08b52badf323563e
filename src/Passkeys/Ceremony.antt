-- ===== src/Passkeys/Ceremony.antt =====
-- my_auth/passkeys.py, `PasskeyService`: registration and authentication, over a challenge store and a
-- credential store. The WebAuthn library, which generates options and verifies responses, is a
-- parameter, with the `json.loads` and the `repr` that the service hands its input to.
use my_auth.Equality.{nat_eq, option_eq, list_eq, ◌==◌}
use my_auth.Int.{ℤ, Instant}
use my_auth.Prelude.{
  arith, ◌≡◌, [], ◌∷◌, not, all, map, if◌then◌else◌, some, ℕ, none, Option, Bool, List,
}
use my_auth.Result.{
  user_handle_mismatch, challenge_not_found, value_error, raise_if, credential_not_found, err, ok,
  Error, Result,
}
use my_auth.Text.{codes, Bytes, Text}
pub mod Service
pub mod Registration
pub mod Authentication
pub mod Calls
pub mod Spent
pub mod OneTime
use my_auth.Result.{◌>>=◌, ◌>>◌}
use my_auth.Passkeys.Config.{PasskeyConfig, require_user_verification}
use my_auth.Passkeys.Models.{
  user_eq, self_registration, ChallengeRecord, PasskeyUser, PasskeyCredential, RegistrationContext,
  VerifiedRegistration, AuthenticationResult, registration_context, new_context,
}
use my_auth.Passkeys.Response.{
  Json, Response, Fields, credential_data, credential_id_from_response, user_handle_from_response,
  transports_from_response,
}
use my_auth.Passkeys.Stores.{ChallengeStore, CredentialStore}

-- The arguments of `generate_registration_options`; a resident key is required.
pub record RegistrationRequest : Type 0 where
  pub rp_id : Text
  pub rp_name : Text
  pub user_name : Text
  pub user_id : Bytes
  pub user_display_name : Text
  pub timeout : ℤ
  pub user_verification : Text
  pub exclude_credentials : List Bytes

-- The arguments of `generate_authentication_options`: a credential with its transports, or None.
pub record AuthenticationRequest : Type 0 where
  pub rp_id : Text
  pub timeout : ℤ
  pub allow_credentials : List (Bytes × Option (List Text))
  pub user_verification : Text

-- What the library tells of a verified response; of an authentication only the last three.
pub record Verified : Type 0 where
  pub credential_id : Bytes
  pub credential_public_key : Bytes
  pub sign_count : ℕ
  pub credential_device_type : Option Text
  pub credential_backed_up : Option Bool

-- The WebAuthn library and the JSON functions. The options hold the challenge that was drawn.
pub record Webauthn : Type 0 where
  pub registration_options : Bytes → RegistrationRequest → Result Json
  pub authentication_options : Bytes → AuthenticationRequest → Result Json
  pub is_transport : Text → Bool
  pub verify_registration_response : Fields → Bytes → Text → List Text → Bool → Result Verified
  pub verify_authentication_response :
      Fields → Bytes → Text → List Text → Bytes → ℕ → Bool → Result Verified
  pub json_loads : Text → Result Json
  pub repr : Json → Text

-- The stores behind a service.
pub record State (S C : Type 0) : Type 0 where
  pub challenges : S
  pub credentials : C

-- The context of a registration, from the user or the context that the caller gives.
unfoldable pub resolve_context :
    Option PasskeyUser → Option RegistrationContext → Result RegistrationContext
unfolding new_context
resolve_context none none = err value_error
resolve_context (some user) none = new_context self_registration user none
resolve_context none (some context) = ok context
resolve_context (some user) (some context) =
    if user == context.user then ok context else err value_error

-- user.display_name or user.name
abbrev pub shown_name : PasskeyUser → Text
shown_name user = elim user.display_name [
  | none ↦ user.name
  | some [] ↦ user.name
  | some (c ∷ s) ↦ c ∷ s
]

-- AuthenticatorTransport(t) for t in c.transports, which raises a `ValueError`
abbrev pub descriptor : Webauthn → PasskeyCredential → Result (Bytes × Option (List Text))
descriptor webauthn c =
    if all webauthn.is_transport c.transports
    then ok (c.credential_id, elim c.transports [ [] ↦ none | t ∷ ts ↦ some (t ∷ ts) ])
    else err value_error

unfoldable pub descriptors :
    Webauthn → List PasskeyCredential → Result (List (Bytes × Option (List Text)))
descriptors webauthn [] = ok []
descriptors webauthn (c ∷ cs) = elim (descriptor webauthn c) [
  | err e ↦ err e
  | ok d ↦ elim (descriptors webauthn cs) [ err e ↦ err e | ok ds ↦ ok (d ∷ ds) ]
]

unfoldable pub registration_request :
    PasskeyConfig → PasskeyUser → List PasskeyCredential → RegistrationRequest
registration_request config user existing = record {
  rp_id = config.rp_id;
  rp_name = config.rp_name;
  user_name = user.name;
  user_id = user.user_handle;
  user_display_name = shown_name user;
  timeout = config.timeout_ms;
  user_verification = config.user_verification;
  exclude_credentials = map (λ c. c.credential_id) existing;
}

-- The credential that a verified registration makes, for the user of the challenge.
abbrev pub new_credential : PasskeyUser → Verified → List Text → Instant → PasskeyCredential
new_credential user v transports now = record {
  credential_id = v.credential_id;
  user_id = user.user_id;
  public_key = v.credential_public_key;
  sign_count = v.sign_count;
  transports = transports;
  device_type = v.credential_device_type;
  backed_up = v.credential_backed_up;
  label = none;
  created_at = now;
}

-- user_handle != user.user_handle and (require_user_handle or user_handle is not None)
abbrev pub is_wrong_handle : Bool → PasskeyUser → Option Bytes → Bool
is_wrong_handle require user none = require
is_wrong_handle require user (some handle) = not (handle == user.user_handle)

abbrev pub found_or {ℓ} : {A : Type ℓ} → Error → Option A → Result A
found_or e none = err e
found_or e (some a) = ok a

pub found_or-ok {ℓ} :
    {A : Type ℓ} (e : Error) (o : Option A) {a : A} → found_or e o ≡ ok a → o ≡ some a
found_or-ok e none h = absurd (cc)
found_or-ok e (some b) h = ground arith

-- The last steps of `verify_registration`, from the popped challenge and the response.
unfoldable pub verify_popped :
    Webauthn → PasskeyConfig → Response → Instant → ChallengeRecord → Result VerifiedRegistration
unfolding credential_data transports_from_response registration_context
verify_popped webauthn config credential now challenge = do
  user ← found_or challenge_not_found challenge.user
  data' ← credential_data webauthn.json_loads credential
  verified ←
      webauthn.verify_registration_response data' challenge.challenge config.rp_id config.origins
        (require_user_verification config)
  transports ← transports_from_response webauthn.repr data'
  context ← registration_context challenge
  ok (record {
    user = user;
    credential = new_credential user verified transports now;
    context = context;
  })

-- What `finish_authentication` knows before it takes the challenge: the response, the credential it
-- names, and the credential's user.
pub record Claimant : Type 0 where
  pub response : Fields
  pub credential_id : Bytes
  pub stored : PasskeyCredential
  pub user : PasskeyUser

module _ {C : Type 0} (webauthn : Webauthn) (credentials : CredentialStore C) where
  unfoldable pub identify : Response → Bool → C → Result Claimant
  unfolding credential_data credential_id_from_response user_handle_from_response
  identify credential require_user_handle s = do
    fields ← credential_data webauthn.json_loads credential
    id ← credential_id_from_response webauthn.repr fields
    stored ← found_or credential_not_found (credentials.get_credential id s)
    user ← found_or credential_not_found (credentials.get_user stored.user_id s)
    handle ← user_handle_from_response fields
    raise_if (is_wrong_handle require_user_handle user handle) user_handle_mismatch
    ok (record { response = fields; credential_id = id; stored = stored; user = user })
