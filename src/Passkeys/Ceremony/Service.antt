-- ===== src/Passkeys/Ceremony/Service.antt =====
-- my_auth/passkeys.py, `PasskeyService`: the four steps of the ceremonies as changes of the stores.
use my_auth.Int.{Instant}
use my_auth.Passkeys.Response.{Response}
use my_auth.Prelude.{some, none, Bool, Option, List}
use my_auth.Text.{Bytes, Text}
use my_auth.Result.{Result}
use my_auth.Passkeys.Models.{
  registration, authentication, AuthenticationResult, VerifiedRegistration, RegistrationContext,
  PasskeyUser, PasskeyCredential, ChallengeRecord,
}
use my_auth.Exec.{Exec, lift, pure, ◌>>=◌}
use my_auth.Passkeys.Stores.{ChallengeStore, CredentialStore}
use my_auth.Passkeys.Ceremony.{
  Json, Verified, Webauthn, State, Claimant, identify, verify_popped, resolve_context,
  registration_request, descriptors,
}
use my_auth.Passkeys.Config.{require_user_verification, PasskeyConfig}

module _ {S C : Type 0} where
  -- A computation that reads the state.
  abbrev pub asks : {A : Type 0} → (State S C → Result A) → Exec (State S C) A
  asks f s = (s, f s)

  -- A call of the challenge store, and one of the credential store.
  abbrev pub on_challenges : {A : Type 0} → Exec S A → Exec (State S C) A
  on_challenges m s = let (t, r) = m s.challenges in (record s { challenges = t }, r)

  abbrev pub on_credentials : {A : Type 0} → Exec C A → Exec (State S C) A
  on_credentials m s = let (t, r) = m s.credentials in (record s { credentials = t }, r)

module _ {S C : Type 0} (webauthn : Webauthn) (config : PasskeyConfig)
    (challenges : ChallengeStore S) (credentials : CredentialStore C) where
  -- `challenge` is what the library draws.
  unfoldable pub begin_registration :
      Text
      → Option PasskeyUser
      → Option RegistrationContext
      → Bytes
      → Instant
      → Exec (State S C) Json
  unfolding resolve_context registration_request
  begin_registration flow_id user context challenge now = do
    chosen ← lift (resolve_context user context)
    options ← asks (λ s. webauthn.registration_options challenge (
        registration_request config chosen.user
          (credentials.list_credentials_for_user chosen.user.user_id s.credentials)))
    saved ← on_challenges (
        challenges.save flow_id registration challenge config.challenge_ttl_seconds
          (some chosen.user) (some chosen) now)
    pure options

  unfoldable pub verify_registration :
      Text → Response → Instant → Exec (State S C) VerifiedRegistration
  unfolding verify_popped
  verify_registration flow_id credential now = do
    challenge ← on_challenges (challenges.pop flow_id registration now)
    lift (verify_popped webauthn config credential now challenge)

  unfoldable pub begin_authentication :
      Text → List PasskeyCredential → Bytes → Instant → Exec (State S C) Json
  unfolding descriptors
  begin_authentication flow_id allow_credentials challenge now = do
    allowed ← lift (descriptors webauthn allow_credentials)
    options ← lift (
        webauthn.authentication_options challenge (record {
          rp_id = config.rp_id;
          timeout = config.timeout_ms;
          allow_credentials = allowed;
          user_verification = config.user_verification;
        }))
    saved ← on_challenges (
        challenges.save flow_id authentication challenge config.challenge_ttl_seconds none none now)
    pure options

  -- The library's check of the response of a claimant.
  abbrev pub verify_claimant : Claimant → ChallengeRecord → Result Verified
  verify_claimant who challenge =
      webauthn.verify_authentication_response who.response challenge.challenge config.rp_id
        config.origins who.stored.public_key who.stored.sign_count
        (require_user_verification config)

  unfoldable pub finish_authentication :
      Text → Response → Bool → Instant → Exec (State S C) AuthenticationResult
  unfolding identify
  finish_authentication flow_id credential require_user_handle now = do
    who ← asks (λ s. identify webauthn credentials credential require_user_handle s.credentials)
    challenge ← on_challenges (challenges.pop flow_id authentication now)
    verified ← lift (verify_claimant who challenge)
    updated ← on_credentials (
        credentials.compare_and_set_credential_after_login who.credential_id who.stored.sign_count
          verified.sign_count verified.credential_device_type verified.credential_backed_up)
    pure (record { user = who.user; credential = updated })
