-- ===== src/Tests/Ceremonies.antt =====
-- A registration and an authentication over the memory stores, with a WebAuthn library that accepts
-- every response.
use my_auth.Base64.Decode.{undigit, decode, equals, padding, urlsafe_b64decode}
use my_auth.Equality.{option_eq, list_eq, nat_eq, option_beq, pair_beq, list_beq}
use my_auth.Dict.{remove, put, get}
use my_auth.Int.{add_seconds, pos}
use my_auth.Result.{value_error, err, ok}
use my_auth.Text.{codes}
use my_auth.Prelude.{refl, all, true, ◌∷◌, [], false, ◌≡◌, none, some}
use my_auth.Passkeys.Ceremony.{
  verify_popped, registration_request, Webauthn, Verified, Claimant, resolve_context, identify,
  State,
}
use my_auth.Passkeys.Config.{PasskeyConfig}
use my_auth.Passkeys.Response.{
  credential_data, transports_of, transports_from_response, user_handle_from_response, get_field,
  credential_id_from_response, no_field, Json, mapping, field, Response,
}
use my_auth.Passkeys.Models.{
  b64url_to_bytes, user_beq, new_context, registration_context, registration, self_registration,
  authentication, PasskeyCredential, ChallengeRecord, PasskeyUser, RegistrationContext,
  VerifiedRegistration,
}
use my_auth.Passkeys.Ceremony.Authentication.{finish_authentication-Authenticated, Authenticated}
use my_auth.Passkeys.Ceremony.Service.{
  begin_registration, verify_registration, finish_authentication,
}
use my_auth.Prelude.{List}
use my_auth.Passkeys.Ceremony.Calls.{
  ServiceCall, begins_registration, begins_authentication, finishes_authentication,
}
use my_auth.Passkeys.Stores.Memory.{
  memory_credentials-CountsLogins, memory_challenges, memory_credentials,
}
use my_auth.Passkeys.Challenges
use my_auth.Passkeys.Challenges.{Records, context_user, new_record, unexpired}
use my_auth.Passkeys.Credentials
use my_auth.Passkeys.Credentials.{Store, empty, compare_and_set_found}

abbrev config : PasskeyConfig
config = record {
  rp_id = codes "a.b";
  rp_name = codes "a";
  origins = codes "https://a.b" ∷ [];
  timeout_ms = pos 60000;
  challenge_ttl_seconds = pos 60;
  user_verification = codes "required";
}

abbrev verified : Verified
verified = record {
  credential_id = 9 ∷ [];
  credential_public_key = 7 ∷ [];
  sign_count = 6;
  credential_device_type = none;
  credential_backed_up = none;
}

abbrev accepting : Webauthn
accepting = record {
  registration_options = λ challenge request. ok Json.null;
  authentication_options = λ challenge request. ok Json.null;
  is_transport = λ t. true;
  verify_registration_response = λ fields challenge rp origins required. ok verified;
  verify_authentication_response = λ fields challenge rp origins key count required. ok verified;
  json_loads = λ s. err value_error;
  repr = λ v. [];
}

abbrev alice : PasskeyUser
alice = record { user_id = codes "u"; user_handle = 1 ∷ []; name = codes "a"; display_name = none }

abbrev context : RegistrationContext
context = record { kind = self_registration; user = alice; capability_id = none }

abbrev key : PasskeyCredential
key = record {
  credential_id = 9 ∷ [];
  user_id = codes "u";
  public_key = 7 ∷ [];
  sign_count = 5;
  transports = [];
  device_type = none;
  backed_up = none;
  label = none;
  created_at = 0;
}

abbrev one : Store
one = record {
  users = (codes "u", alice) ∷ [];
  users_by_handle = (1 ∷ [], codes "u") ∷ [];
  credentials = (9 ∷ [], key) ∷ [];
}

-- A response that names the credential with the identifier 9, and no user handle.
abbrev response : Response
response = mapping (field (codes "id") (Json.text (codes "CQ")) no_field)

program : Unit {0}
unfolding begin_registration verify_registration finish_authentication resolve_context
    registration_request verify_popped identify credential_id_from_response get_field
    user_handle_from_response transports_from_response transports_of credential_data
    registration_context new_context Challenges.save Challenges.pop context_user new_record
    unexpired add_seconds get put remove list_beq option_beq pair_beq user_beq b64url_to_bytes
    urlsafe_b64decode padding equals decode undigit Credentials.get_credential Credentials.get_user
    Credentials.compare_and_set_credential_after_login compare_and_set_found
    Credentials.list_credentials_for_user all
program = tt

abbrev start : State Records Store
start = record { challenges = []; credentials = empty }

abbrev waiting : ChallengeRecord
waiting = record {
  challenge = 3 ∷ [];
  kind = registration;
  key = codes "k";
  expires_at = 60000005;
  user = some alice;
  registration_kind = some self_registration;
  capability_id = none;
}

abbrev begun : State Records Store
begun = record start { challenges = ((codes "k", registration), waiting) ∷ [] }

abbrev made : VerifiedRegistration
made = record {
  user = alice;
  credential = record key { sign_count = 6; created_at = 7 };
  context = some context;
}

abbrev asked : ChallengeRecord
asked = record waiting { kind = authentication; user = none; registration_kind = none }

abbrev logging_in : State Records Store
logging_in = record { challenges = ((codes "k", authentication), asked) ∷ []; credentials = one }

abbrev moved : PasskeyCredential
moved = record key { sign_count = 6 }

abbrev after : State Records Store
after = record { challenges = []; credentials = record one { credentials = (9 ∷ [], moved) ∷ [] } }

authenticated :
    finish_authentication accepting config memory_challenges memory_credentials
      (codes "k")
      response
      false
      7
      logging_in
    ≡ (after, ok (record { user = alice; credential = moved }))
unfolding program
authenticated = refl

finish_authentication-Authenticated_example :
    Authenticated accepting config memory_challenges memory_credentials
      (codes "k")
      response
      false
      7
      logging_in
      after
      (record { user = alice; credential = moved })
finish_authentication-Authenticated_example =
    finish_authentication-Authenticated accepting config memory_challenges memory_credentials
      (codes "k") response false 7 logging_in after (record { user = alice; credential = moved })
      memory_credentials-CountsLogins authenticated

abbrev claimant : Claimant
claimant = record {
  response = field (codes "id") (Json.text (codes "CQ")) no_field;
  credential_id = 9 ∷ [];
  stored = key;
  user = alice;
}

-- A registration is begun in the flow, another flow begins to authenticate, and the flow tries again.
abbrev between : List (ServiceCall Store)
between =
    begins_registration (codes "k") (some alice) none (4 ∷ []) 8
    ∷ begins_authentication (codes "j") [] (5 ∷ []) 8
    ∷ finishes_authentication (codes "k") response false 8
    ∷ []
