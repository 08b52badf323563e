-- ===== src/Passkeys/Ceremony/Spent.antt =====
-- When no challenge is left for an authentication in a flow, and that the service's calls keep it so.
use my_auth.Result.{err, Error, ok, Result-cases, is_ok}
use my_auth.Int.{Instant}
use my_auth.Passkeys.Ceremony.Service.{
  verify_claimant, begin_authentication, verify_registration, finish_authentication,
  begin_registration,
}
use my_auth.Passkeys.Response.{Response}
use my_auth.Passkeys.Stores.{IsGone, KeepsGone, CredentialStore, ChallengeStore}
use my_auth.Passkeys.Models.{
  registration, authentication, PasskeyCredential, RegistrationContext, PasskeyUser,
}
use my_auth.Passkeys.Config.{PasskeyConfig}
use my_auth.Passkeys.Ceremony.{
  registration_request, resolve_context, descriptors, identify, Claimant, State, Webauthn,
}
use my_auth.Text.{Bytes, Text}
use my_auth.Prelude.{
  ap, arith, inl, none, inr, some, false, [], ◌≡◌, ◌∷◌, All, Bool, List, Option, ◌≢◌, refl,
}
use my_auth.Passkeys.Ceremony.Calls.{
  begins_registration, verifies_registration, begins_authentication, finishes_authentication,
  changes_credentials, ServiceCall, LeavesFlow, perform, perform_all,
}

module _ {S C : Type 0} (webauthn : Webauthn) (config : PasskeyConfig)
    (challenges : ChallengeStore S) (credentials : CredentialStore C) where
  -- What an attempt that has read its response leaves of the challenges.
  pub attempted :
      (flow_id : Text) (credential : Response) (require_user_handle : Bool) (now : Instant)
      (s : State S C) (who : Claimant)
      → identify webauthn credentials credential require_user_handle s.credentials ≡ ok who
      → (finish_authentication webauthn config challenges credentials flow_id credential
          require_user_handle now s).0.challenges
        ≡ (challenges.pop flow_id authentication now s.challenges).0
  unfolding finish_authentication
  attempted flow_id credential require_user_handle now s who e =
      elim (Result-cases (challenges.pop flow_id authentication now s.challenges).1) [
        | inr (x, f) ↦ rw (e, f) refl
        | inl (challenge, f) ↦
            elim (Result-cases
              (verify_claimant webauthn config challenges credentials who challenge)) [
                | inr (x, g) ↦ rw (e, f, g) refl
                | inl (v, g) ↦
                    elim (Result-cases
                      (credentials.compare_and_set_credential_after_login who.credential_id
                        who.stored.sign_count v.sign_count v.credential_device_type
                        v.credential_backed_up s.credentials).1) [
                          | inr (x, k) ↦ rw (e, f, g, k) refl
                          | inl (u, k) ↦ rw (e, f, g, k) refl
                        ]
              ]
      ]

  -- No challenge is left for an authentication in the flow.
  abbrev pub Spent : Text → State S C → Type 0
  Spent flow_id s = IsGone challenges flow_id authentication s.challenges

  module _ (flow_id : Text) (laws : KeepsGone challenges) where
    unread :
        (other : Text) (credential : Response) (require_user_handle : Bool) (now : Instant)
        (s : State S C) {x : Error}
        → identify webauthn credentials credential require_user_handle s.credentials ≡ err x
        → Spent flow_id s
        → Spent flow_id
            (finish_authentication webauthn config challenges credentials other credential
              require_user_handle now s).0
    unfolding finish_authentication
    unread other credential require_user_handle now s e h = rw e h

    finish_authentication-Spent :
        (other : Text) (credential : Response) (require_user_handle : Bool) (now : Instant)
        (s : State S C)
        → Spent flow_id s
        → Spent flow_id
            (finish_authentication webauthn config challenges credentials other credential
              require_user_handle now s).0
    finish_authentication-Spent other credential require_user_handle now s h =
        elim (Result-cases
          (identify webauthn credentials credential require_user_handle s.credentials)) [
            | inr (x, e) ↦ unread other credential require_user_handle now s e h
            | inl (who, e) ↦
                rw (attempted other credential require_user_handle now s who e)
                  (laws.gone-pop flow_id other authentication authentication now s.challenges h)
          ]

    begin_registration-Spent :
        (other : Text) (user : Option PasskeyUser) (context : Option RegistrationContext)
        (challenge : Bytes) (now : Instant) (s : State S C)
        → Spent flow_id s
        → Spent flow_id
            (begin_registration webauthn config challenges credentials other user context challenge
              now s).0
    unfolding begin_registration
    begin_registration-Spent other user context challenge now s h =
        elim (Result-cases (resolve_context user context)) [
          | inr (x, e) ↦ rw e h
          | inl (chosen, e) ↦
              let request =
                registration_request config chosen.user
                  (credentials.list_credentials_for_user chosen.user.user_id s.credentials) in
              let kept =
                laws.gone-save flow_id other authentication registration challenge
                  config.challenge_ttl_seconds (some chosen.user) (some chosen) now s.challenges
                  (λ same kinds. absurd (cc)) h in
              elim (Result-cases (webauthn.registration_options challenge request)) [
                | inr (x, f) ↦ rw (e, f) h
                | inl (options, f) ↦
                    elim (Result-cases
                      (challenges.save other registration challenge config.challenge_ttl_seconds
                        (some chosen.user) (some chosen) now s.challenges).1) [
                          | inr (x, g) ↦ rw (e, f, g) kept
                          | inl (saved, g) ↦ rw (e, f, g) kept
                        ]
              ]
        ]

    begin_authentication-Spent :
        (other : Text) (allowed : List PasskeyCredential) (challenge : Bytes) (now : Instant)
        (s : State S C)
        → other ≢ flow_id
        → Spent flow_id s
        → Spent flow_id
            (begin_authentication webauthn config challenges credentials other allowed challenge now
              s).0
    unfolding begin_authentication
    begin_authentication-Spent other allowed challenge now s apart h =
        let kept =
          laws.gone-save flow_id other authentication authentication challenge
            config.challenge_ttl_seconds none none now s.challenges (λ same. absurd (apart same))
            h in
        elim (Result-cases (descriptors webauthn allowed)) [
          | inr (x, e) ↦ rw e h
          | inl (found, e) ↦
              elim (Result-cases (
                webauthn.authentication_options challenge (record {
                  rp_id = config.rp_id;
                  timeout = config.timeout_ms;
                  allow_credentials = found;
                  user_verification = config.user_verification;
                }))) [
                  | inr (x, f) ↦ rw (e, f) h
                  | inl (options, f) ↦
                      elim (Result-cases
                        (challenges.save other authentication challenge config.challenge_ttl_seconds
                          none none now s.challenges).1) [
                            | inr (x, g) ↦ rw (e, f, g) kept
                            | inl (saved, g) ↦ rw (e, f, g) kept
                          ]
                ]
        ]

    verify_registration-Spent :
        (other : Text) (credential : Response) (now : Instant) (s : State S C)
        → Spent flow_id s
        → Spent flow_id
            (verify_registration webauthn config challenges credentials other credential now s).0
    unfolding verify_registration
    verify_registration-Spent other credential now s h =
        let kept = laws.gone-pop flow_id other authentication registration now s.challenges h in
        elim (Result-cases (challenges.pop other registration now s.challenges).1) [
          | inr (x, e) ↦ rw e kept
          | inl (challenge, e) ↦ rw e kept
        ]

    perform-Spent :
        (c : ServiceCall C) (s : State S C)
        → LeavesFlow flow_id c
        → Spent flow_id s
        → Spent flow_id (perform webauthn config challenges credentials c s)
    unfolding perform
    perform-Spent (begins_registration other user context challenge now) s l =
        begin_registration-Spent other user context challenge now s
    perform-Spent (verifies_registration other credential now) s l =
        verify_registration-Spent other credential now s
    perform-Spent (begins_authentication other allowed challenge now) s l =
        begin_authentication-Spent other allowed challenge now s l
    perform-Spent (finishes_authentication other credential require_user_handle now) s l =
        finish_authentication-Spent other credential require_user_handle now s
    perform-Spent (changes_credentials f) s l = λ h. h

    pub perform_all-Spent :
        (cs : List (ServiceCall C)) (s : State S C)
        → All (LeavesFlow flow_id) cs
        → Spent flow_id s
        → Spent flow_id (perform_all webauthn config challenges credentials cs s)
    unfolding perform_all
    perform_all-Spent [] s l h = h
    perform_all-Spent (c ∷ cs) s l h =
        perform_all-Spent cs (perform webauthn config challenges credentials c s) l.1
          (perform-Spent c s l.0 h)

    pub finish_authentication-refused :
        (credential : Response) (require_user_handle : Bool) (now : Instant) (s : State S C)
        → Spent flow_id s
        → is_ok
            (finish_authentication webauthn config challenges credentials flow_id credential
              require_user_handle now s).1
          ≡ false
    unfolding finish_authentication
    finish_authentication-refused credential require_user_handle now s h =
        elim (Result-cases
          (identify webauthn credentials credential require_user_handle s.credentials)) [
            | inr (x, e) ↦ rw e refl
            | inl (who, e) ↦
                elim (Result-cases (challenges.pop flow_id authentication now s.challenges).1) [
                  | inr (x, f) ↦ rw (e, f) refl
                  | inl (challenge, f) ↦ absurd (ground (arith, ap is_ok f, h now))
                ]
          ]
