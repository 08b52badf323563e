-- ===== src/Passkeys/Ceremony/Authentication.antt =====
-- What a successful authentication went through, and that a challenge serves one attempt.
use my_auth.Prelude.{true, ◌≢◌, none}
use my_auth.Equality.{list_beq_iff, list_eq, nat_eq}
use my_auth.Passkeys.Models.{PasskeyUser}
use my_auth.Prelude.{ℕ, ◌≤◌}
use my_auth.Passkeys.Config.{require_user_verification}
use my_auth.Passkeys.Stores.{Moved, CountsLogins}
use my_auth.Passkeys.Models.{
  PasskeyCredential, authentication, AuthenticationResult, ChallengeRecord,
}
use my_auth.Int.{Instant}
use my_auth.Prelude.{refl, inl, ◌∙◌, Bool-cases, arith, inr, false, Option, some, ap, ◌≡◌, Bool}
use my_auth.Text.{Bytes, Text}
use my_auth.Passkeys.Response.{
  user_handle_from_response, credential_id_from_response, credential_data, Response,
}
use my_auth.Result.{credential_not_found, ok, bind_ok}
use my_auth.Exec.{bind_ok as exec_ok}
use my_auth.Passkeys.Stores.{ChallengeStore, CredentialStore}
use my_auth.Passkeys.Ceremony.{
  Verified, Webauthn, State, Claimant, identify, is_wrong_handle, found_or, found_or-ok,
}
use my_auth.Passkeys.Config.{PasskeyConfig}
use my_auth.Passkeys.Ceremony.Service.{finish_authentication, verify_claimant}

module _ {C : Type 0} (webauthn : Webauthn) (credentials : CredentialStore C) where
  -- A response that names a stored credential and does not contradict its user.
  pub record Identified (credential : Response) (require_user_handle : Bool) (s : C)
      (who : Claimant) : Type 0 where
    pub read : credential_data webauthn.json_loads credential ≡ ok who.response
    pub named : credential_id_from_response webauthn.repr who.response ≡ ok who.credential_id
    pub stored : credentials.get_credential who.credential_id s ≡ some who.stored
    pub owner : credentials.get_user who.stored.user_id s ≡ some who.user
    pub handle : Option Bytes
    pub handle_read : user_handle_from_response who.response ≡ ok handle
    pub own_handle : (h : Bytes) → handle ≡ some h → h ≡ who.user.user_handle
    pub given_handle : require_user_handle ≡ true → handle ≢ none

  own-user_handle :
      (require : Bool) (user : PasskeyUser) (handle : Option Bytes)
      → is_wrong_handle require user handle ≡ false
      → ((h : Bytes) → handle ≡ some h → h ≡ user.user_handle) × (require ≡ true → handle ≢ none)
  own-user_handle require user none right = (λ h e. absurd (cc), λ asked e. ground arith)
  own-user_handle require user (some handle) right =
      (λ h e. ground (arith, list_beq_iff handle user.user_handle), λ asked e. cc)

  identify-Identified :
      (credential : Response) (require_user_handle : Bool) (s : C) (who : Claimant)
      → identify webauthn credentials credential require_user_handle s ≡ ok who
      → Identified credential require_user_handle s who
  unfolding identify
  identify-Identified credential require_user_handle s who h =
      let (fields, a, h1) = bind_ok (credential_data webauthn.json_loads credential) _ h in
      let (id, b, h2) = bind_ok (credential_id_from_response webauthn.repr fields) _ h1 in
      let (stored, c, h3) =
        bind_ok (found_or credential_not_found (credentials.get_credential id s)) _ h2 in
      let (user, d, h4) =
        bind_ok (found_or credential_not_found (credentials.get_user stored.user_id s)) _ h3 in
      let (handle, e, h5) = bind_ok (user_handle_from_response fields) _ h4 in
      elim (Bool-cases (is_wrong_handle require_user_handle user handle)) [
        | inl wrong ↦ absurd (ground arith)
        | inr right ↦
            let same : record {
              response = fields;
              credential_id = id;
              stored = stored;
              user = user;
            }
                ≡ who =
              ground arith in
            rw (← same) (record {
              read = a;
              named = b;
              stored = found_or-ok credential_not_found _ c;
              owner = found_or-ok credential_not_found _ d;
              handle = handle;
              handle_read = e;
              own_handle = (own-user_handle require_user_handle user handle right).0;
              given_handle = (own-user_handle require_user_handle user handle right).1;
            })
      ]

module _ {S C : Type 0} (webauthn : Webauthn) (config : PasskeyConfig)
    (challenges : ChallengeStore S) (credentials : CredentialStore C) where
  -- What a login did to the credential that was read before it.
  compared_login :
      {id : Bytes} {expected new : ℕ} {device_type : Option Text} {backed_up : Option Bool}
      {s t : C} {d : PasskeyCredential} (stored : PasskeyCredential)
      → credentials.get_credential id s ≡ some stored
      → Moved credentials id expected new device_type backed_up s t d
      → (stored.sign_count ≤ new)
        × (d ≡ record stored { sign_count = new; device_type = device_type; backed_up = backed_up })
  compared_login {new} {device_type} {backed_up} stored g m =
      let before : m.before ≡ stored = ground (arith, m.found) in
      (
        rw (← before) m.counts_up,
        m.updated
            ∙ ap {A = PasskeyCredential}
                (λ c. record c {
                  sign_count = new;
                  device_type = device_type;
                  backed_up = backed_up;
                })
                before,
      )

  -- What holds when an authentication succeeded.
  pub record Authenticated (flow_id : Text) (credential : Response) (require_user_handle : Bool)
      (now : Instant) (s t : State S C) (r : AuthenticationResult) : Type 0 where
    pub who : Claimant
    pub identified :
        Identified webauthn credentials credential require_user_handle s.credentials who
    pub challenge : ChallengeRecord
    pub taken :
        challenges.pop flow_id authentication now s.challenges ≡ (t.challenges, ok challenge)
    pub verified : Verified
    pub checked :
        webauthn.verify_authentication_response who.response challenge.challenge config.rp_id
          config.origins who.stored.public_key who.stored.sign_count
          (require_user_verification config)
        ≡ ok verified
    pub user : r.user ≡ who.user
    pub counts_up : who.stored.sign_count ≤ verified.sign_count
    pub updated : r.credential ≡ record who.stored {
      sign_count = verified.sign_count;
      device_type = verified.credential_device_type;
      backed_up = verified.credential_backed_up;
    }
    pub read_back : credentials.get_credential who.credential_id t.credentials ≡ some r.credential

  -- Over any credential store that counts logins, an authentication that succeeds has read a response
  -- that names a stored credential, whose user it returns. A user handle in the response is that
  -- user's, and there is one if it is required. It has taken the flow's challenge out of the challenge store. The WebAuthn library has
  -- verified the response against this challenge, the configured party and origins, and the stored
  -- public key and counter. The counter that the library read from the response is not below the
  -- stored one, and the store now has the credential with that counter, which is the one returned.
  pub finish_authentication-Authenticated :
      (flow_id : Text) (credential : Response) (require_user_handle : Bool) (now : Instant)
      (s t : State S C) (r : AuthenticationResult)
      → CountsLogins credentials
      → finish_authentication webauthn config challenges credentials flow_id credential
          require_user_handle now s
        ≡ (t, ok r)
      → Authenticated flow_id credential require_user_handle now s t r
  unfolding finish_authentication
  finish_authentication-Authenticated flow_id credential require_user_handle now s t r counts h =
      let (who, a, h1) =
        exec_ok s (identify webauthn credentials credential require_user_handle s.credentials) _
          h in
      let taken = challenges.pop flow_id authentication now s.challenges in
      let s1 : State S C = record s { challenges = taken.0 } in
      let (challenge, b, h2) = exec_ok s1 taken.1 _ h1 in
      let (verified, c, h3) =
        exec_ok s1 (verify_claimant webauthn config challenges credentials who challenge) _ h2 in
      let moved =
        credentials.compare_and_set_credential_after_login who.credential_id who.stored.sign_count
          verified.sign_count verified.credential_device_type verified.credential_backed_up
          s.credentials in
      let (updated, d, h4) = exec_ok (record s1 { credentials = moved.0 }) moved.1 _ h3 in
      let state = ap (λ p. (p.0).challenges) h4 in
      let after = ap (λ p. (p.0).credentials) h4 in
      let same : record { user = who.user; credential = updated } ≡ r = ground arith in
      let login =
        counts who.credential_id who.stored.sign_count verified.sign_count
          verified.credential_device_type verified.credential_backed_up s.credentials t.credentials
          updated (λ i. (after i, d i)) in
      let known =
        identify-Identified webauthn credentials credential require_user_handle s.credentials who
          a in
      let change = compared_login who.stored known.stored login in
      rw (← same) (record {
        who = who;
        identified = known;
        challenge = challenge;
        taken = λ i. (state i, b i);
        verified = verified;
        checked = c;
        user = refl;
        counts_up = change.0;
        updated = change.1;
        read_back = login.read_back;
      })
