-- ===== src/Passkeys/Ceremony/Calls.antt =====
-- my_auth/passkeys.py: the calls of a service one after the other.
use my_auth.Int.{Instant}
use my_auth.Passkeys.Ceremony.Service.{
  begin_authentication, verify_registration, finish_authentication, begin_registration,
}
use my_auth.Passkeys.Response.{Response}
use my_auth.Passkeys.Stores.{CredentialStore, ChallengeStore}
use my_auth.Passkeys.Models.{PasskeyCredential, RegistrationContext, PasskeyUser}
use my_auth.Passkeys.Config.{PasskeyConfig}
use my_auth.Passkeys.Ceremony.{State, Webauthn}
use my_auth.Text.{Bytes, Text}
use my_auth.Prelude.{[], ◌∷◌, Bool, List, Option, ◌≢◌}

-- What may be done to a service between two attempts: the four steps of its ceremonies, and any change
-- of the credential store.
pub data ServiceCall (C : Type 0) : Type 0 where
  begins_registration :
      Text → Option PasskeyUser → Option RegistrationContext → Bytes → Instant → ServiceCall C
  verifies_registration : Text → Response → Instant → ServiceCall C
  begins_authentication : Text → List PasskeyCredential → Bytes → Instant → ServiceCall C
  finishes_authentication : Text → Response → Bool → Instant → ServiceCall C
  changes_credentials : (C → C) → ServiceCall C

-- The call does not begin an authentication in the flow.
abbrev pub LeavesFlow : {C : Type 0} → Text → ServiceCall C → Type 0
LeavesFlow flow_id (begins_registration other user context challenge now) = Unit
LeavesFlow flow_id (verifies_registration other credential now) = Unit
LeavesFlow flow_id (begins_authentication other allowed challenge now) = other ≢ flow_id
LeavesFlow flow_id (finishes_authentication other credential require_user_handle now) = Unit
LeavesFlow flow_id (changes_credentials f) = Unit

module _ {S C : Type 0} (webauthn : Webauthn) (config : PasskeyConfig)
    (challenges : ChallengeStore S) (credentials : CredentialStore C) where
  unfoldable pub perform : ServiceCall C → State S C → State S C
  unfolding begin_registration verify_registration begin_authentication finish_authentication
  perform (begins_registration flow_id user context challenge now) s =
      (begin_registration webauthn config challenges credentials flow_id user context challenge now
        s).0
  perform (verifies_registration flow_id credential now) s =
      (verify_registration webauthn config challenges credentials flow_id credential now s).0
  perform (begins_authentication flow_id allowed challenge now) s =
      (begin_authentication webauthn config challenges credentials flow_id allowed challenge now
        s).0
  perform (finishes_authentication flow_id credential require_user_handle now) s =
      (finish_authentication webauthn config challenges credentials flow_id credential
        require_user_handle now s).0
  perform (changes_credentials f) s = record s { credentials = f s.credentials }

  unfoldable pub perform_all : List (ServiceCall C) → State S C → State S C
  unfolding perform
  perform_all [] s = s
  perform_all (c ∷ cs) s = perform_all cs (perform c s)
