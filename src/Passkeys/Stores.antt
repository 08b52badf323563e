-- ===== src/Passkeys/Stores.antt =====
-- my_auth/passkey_models.py, the protocols `ChallengeStore` and `CredentialStore`: what the service
-- calls on its stores, whose states are of types of their own. A call that reads the clock takes the
-- reading.
use my_auth.Prelude.{◌≢◌, ◌≤◌, ◌⊎◌}
use my_auth.Result.{is_ok, ok}
use my_auth.Int.{ℤ, Instant}
use my_auth.Prelude.{some, false, Bool, ℕ, ◌≡◌, List, Option}
use my_auth.Text.{Bytes, Text}
pub mod Memory
use my_auth.Exec.{Exec}
use my_auth.Passkeys.Models.{
  registration, PasskeyCredential, RegistrationContext, ChallengeRecord, PasskeyUser, ChallengeKind,
  VerifiedRegistration, registration_context,
}

pub record ChallengeStore (S : Type 0) : Type 0 where
  pub save :
      Text
      → ChallengeKind
      → Bytes
      → ℤ
      → Option PasskeyUser
      → Option RegistrationContext
      → Instant
      → Exec S ChallengeRecord
  pub pop : Text → ChallengeKind → Instant → Exec S ChallengeRecord

pub record CredentialStore (S : Type 0) : Type 0 where
  pub save_registration : VerifiedRegistration → Exec S (Unit {0})
  pub get_user : Text → S → Option PasskeyUser
  pub get_user_by_handle : Bytes → S → Option PasskeyUser
  pub list_credentials_for_user : Text → S → List PasskeyCredential
  pub get_credential : Bytes → S → Option PasskeyCredential
  pub compare_and_set_credential_after_login :
      Bytes → ℕ → ℕ → Option Text → Option Bool → Exec S PasskeyCredential
  pub update_credential_label : Bytes → Text → Option Text → S → S × Option PasskeyCredential
  pub delete_credential : Bytes → Option Text → Bool → S → S × Bool

-- What the service relies on in a challenge store: a challenge is taken out once, and what is taken
-- out is what was last saved under the key, for the user and the context of the call.
pub record IsOneTime {S : Type 0} (store : ChallengeStore S) : Type 0 where
  pub pop-pop :
      (key : Text) (kind : ChallengeKind) (now later : Instant) (s t : S) (r : ChallengeRecord)
      → store.pop key kind now s ≡ (t, ok r)
      → is_ok (store.pop key kind later t).1 ≡ false
  pub pop-save :
      (key : Text) (kind : ChallengeKind) (challenge : Bytes) (ttl : ℤ) (user : Option PasskeyUser)
      (context : Option RegistrationContext) (now later : Instant) (s t u : S)
      (saved popped : ChallengeRecord)
      → store.save key kind challenge ttl user context now s ≡ (t, ok saved)
      → store.pop key kind later t ≡ (u, ok popped)
      → popped ≡ saved
  pub save-record :
      (key : Text) (challenge : Bytes) (ttl : ℤ) (user : Option PasskeyUser)
      (context : RegistrationContext) (now : Instant) (s t : S) (saved : ChallengeRecord)
      → store.save key registration challenge ttl user (some context) now s ≡ (t, ok saved)
      → (saved.challenge ≡ challenge)
        × (saved.user ≡ some context.user)
        × (saved.registration_kind ≡ some context.kind)
        × (saved.capability_id ≡ context.capability_id)

-- No challenge of the key and kind is handed out, whenever it is asked for.
abbrev pub IsGone : {S : Type 0} → ChallengeStore S → Text → ChallengeKind → S → Type 0
IsGone store key kind s = (now : Instant) → is_ok (store.pop key kind now s).1 ≡ false

-- A challenge that was taken out is gone, and stays gone over everything but a save under its key and
-- kind.
pub record KeepsGone {S : Type 0} (store : ChallengeStore S) : Type 0 where
  pub pop-gone :
      (key : Text) (kind : ChallengeKind) (now : Instant) (s t : S) (r : ChallengeRecord)
      → store.pop key kind now s ≡ (t, ok r)
      → IsGone store key kind t
  pub gone-pop :
      (key other : Text) (kind other_kind : ChallengeKind) (now : Instant) (s : S)
      → IsGone store key kind s
      → IsGone store key kind (store.pop other other_kind now s).0
  pub gone-save :
      (key other : Text) (kind other_kind : ChallengeKind) (challenge : Bytes) (ttl : ℤ)
      (user : Option PasskeyUser) (context : Option RegistrationContext) (now : Instant) (s : S)
      → (other ≡ key → other_kind ≢ kind)
      → IsGone store key kind s
      → IsGone store key kind (store.save other other_kind challenge ttl user context now s).0

-- What an accepted compare-and-set of a credential store did.
pub record Moved {C : Type 0} (store : CredentialStore C) (id : Bytes) (expected new : ℕ)
    (device_type : Option Text) (backed_up : Option Bool) (s t : C) (d : PasskeyCredential)
    : Type 0 where
  pub before : PasskeyCredential
  pub found : store.get_credential id s ≡ some before
  pub current : (expected ≡ 0) ⊎ (before.sign_count ≡ expected)
  pub counts_up : before.sign_count ≤ new
  pub updated :
      d ≡ record before { sign_count = new; device_type = device_type; backed_up = backed_up }
  pub read_back : store.get_credential id t ≡ some d

-- What the service relies on in a credential store: a login that is accepted moves the counter up,
-- and what it returns is what is then stored.
abbrev pub CountsLogins : {C : Type 0} → CredentialStore C → Type 0
CountsLogins {C} store =
    (id : Bytes) (expected new : ℕ) (device_type : Option Text) (backed_up : Option Bool) (s t : C)
    (d : PasskeyCredential)
    → store.compare_and_set_credential_after_login id expected new device_type backed_up s
      ≡ (t, ok d)
    → Moved store id expected new device_type backed_up s t d
