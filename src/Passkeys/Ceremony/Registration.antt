-- ===== src/Passkeys/Ceremony/Registration.antt =====
-- A registration ends for the user and in the context that it began with.
use my_auth.Text.{Bytes, Text}
use my_auth.Prelude.{some, ◌≡◌, Option}
use my_auth.Passkeys.Response.{credential_data, Response}
use my_auth.Result.{ok, bind_ok}
use my_auth.Exec.{bind_ok as exec_ok}
use my_auth.Passkeys.Models.{
  RegistrationContext, PasskeyUser, ChallengeRecord, VerifiedRegistration, registration_context,
}
use my_auth.Passkeys.Stores.{ChallengeStore, CredentialStore}
use my_auth.Passkeys.Ceremony.{Verified, Fields, Webauthn, resolve_context}
use my_auth.Passkeys.Config.{require_user_verification, PasskeyConfig}

-- What a verified registration has in common with the challenge that was taken out for it.
pub record IsFor (webauthn : Webauthn) (config : PasskeyConfig) (credential : Response)
    (r : VerifiedRegistration) (challenge : ChallengeRecord) : Type 0 where
  pub user : challenge.user ≡ some r.user
  pub owner : r.credential.user_id ≡ r.user.user_id
  pub context : registration_context challenge ≡ ok r.context
  pub response : Fields
  pub verified : Verified
  pub read : credential_data webauthn.json_loads credential ≡ ok response
  pub checked :
      webauthn.verify_registration_response response challenge.challenge config.rp_id config.origins
        (require_user_verification config)
      ≡ ok verified
  pub key :
      (r.credential.credential_id ≡ verified.credential_id)
      × (r.credential.public_key ≡ verified.credential_public_key)
      × (r.credential.sign_count ≡ verified.sign_count)

module _ {S C : Type 0} (webauthn : Webauthn) (config : PasskeyConfig)
    (challenges : ChallengeStore S) (credentials : CredentialStore C) where
  -- What holds of a registration that began and was then completed in the same flow.
  pub record Registers (user : Option PasskeyUser) (context : Option RegistrationContext)
      (challenge : Bytes) (credential : Response) (r : VerifiedRegistration) : Type 0 where
    pub chosen : RegistrationContext
    pub resolved : resolve_context user context ≡ ok chosen
    pub same_user : r.user ≡ chosen.user
    pub same_context : r.context ≡ some chosen
    pub owner : r.credential.user_id ≡ chosen.user.user_id
    pub response : Fields
    pub verified : Verified
    pub read : credential_data webauthn.json_loads credential ≡ ok response
    pub checked :
        webauthn.verify_registration_response response challenge config.rp_id config.origins
          (require_user_verification config)
        ≡ ok verified
    pub key : r.credential.public_key ≡ verified.credential_public_key
