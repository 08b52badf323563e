-- ===== src/Passkeys/Credentials/Registration.antt =====
-- What a registration of the memory credential store does when it is accepted and when it is not.
use my_auth.Prelude.{none}
use my_auth.Prelude.{Option, ◌↔◌}
use my_auth.Passkeys.Models.{PasskeyUser}
use my_auth.Equality.{KeyEq, nat_eq, list_eq, list_beq_iff, option_eq, ◌==◌}
use my_auth.Prelude.{refl, ◌||◌, arith, true, some, not, false, ◌≡◌, Bool}
use my_auth.Text.{Text, is_empty}
use my_auth.Result.{is_ok}
use my_auth.Dict.{get, Dict}
use my_auth.Passkeys.Models.{user_eq, PasskeyCredential, VerifiedRegistration}
use my_auth.Passkeys.Credentials.{
  differs_from, is_foreign, Store, save_registration, get_user, get_credential, get_user_by_handle,
}

-- The three refusals of a registration, in the order of the code.
abbrev pub is_refused : VerifiedRegistration → Store → Bool
is_refused r s =
    not (r.credential.user_id == r.user.user_id)
    || differs_from r.user (get_user r.user.user_id s)
    || differs_from r.user.user_id (get s.users_by_handle r.user.user_handle)
    || is_foreign r.credential (get_credential r.credential.credential_id s)

-- What a registration must agree with in the store.
pub record Acceptable (r : VerifiedRegistration) (s : Store) : Type 0 where
  pub own : r.credential.user_id ≡ r.user.user_id
  pub same_user : (u : PasskeyUser) → get_user r.user.user_id s ≡ some u → u ≡ r.user
  pub same_holder :
      (i : Text) → get s.users_by_handle r.user.user_handle ≡ some i → i ≡ r.user.user_id
  pub same_credential :
      (c : PasskeyCredential)
      → get_credential r.credential.credential_id s ≡ some c
      → (c.user_id ≡ r.credential.user_id) × (c.public_key ≡ r.credential.public_key)

differs_from_iff {ℓ} :
    {K : Type ℓ} ⦃e : KeyEq K⦄ (a : K) (found : Option K)
    → (differs_from a found ≡ false) ↔ ((b : K) → found ≡ some b → b ≡ a)
differs_from_iff a none = (λ h b e. absurd (cc), λ h. refl)
differs_from_iff ⦃e = e⦄ a (some b) =
    (λ h x f. ground (arith, e.beq_iff b a), λ h. ground (arith, e.beq_iff b a, h b refl))

is_foreign_iff :
    (c : PasskeyCredential) (found : Option PasskeyCredential)
    → (is_foreign c found ≡ false) ↔ (
        (d : PasskeyCredential)
        → found ≡ some d
        → (d.user_id ≡ c.user_id) × (d.public_key ≡ c.public_key))
is_foreign_iff c none = (λ h d e. absurd (cc), λ h. refl)
is_foreign_iff c (some d) =
    let owner = list_beq_iff d.user_id c.user_id in
    let key = list_beq_iff d.public_key c.public_key in
    (
      λ h x f. (ground (arith, owner), ground (arith, key)),
      λ h. rw (owner.1 (h d refl).0, key.1 (h d refl).1) refl,
    )

is_refused_iff : (r : VerifiedRegistration) (s : Store) → (is_refused r s ≡ false) ↔ Acceptable r s
is_refused_iff r s =
    let own = list_beq_iff r.credential.user_id r.user.user_id in
    let user = differs_from_iff r.user (get_user r.user.user_id s) in
    let holder = differs_from_iff r.user.user_id (get s.users_by_handle r.user.user_handle) in
    let key = is_foreign_iff r.credential (get_credential r.credential.credential_id s) in
    (
      λ h. record {
        own = own.0 (ground arith);
        same_user = user.0 (ground arith);
        same_holder = holder.0 (ground arith);
        same_credential = key.0 (ground arith);
      },
      λ a.
          rw (own.1 a.own, user.1 a.same_user, holder.1 a.same_holder, key.1 a.same_credential)
            refl,
    )

accepted_unless_refused :
    (r : VerifiedRegistration) (s : Store)
    → (is_ok (save_registration r s).1 ≡ not (is_refused r s))
      × (is_refused r s ≡ true → (save_registration r s).0 ≡ s)
unfolding save_registration get_user get_credential
accepted_unless_refused r s = (ground arith, λ h. ground arith)

-- A registration is accepted exactly when its credential names its user, a user stored under the
-- user's identifier is this very user, the user's handle is nobody else's, and a credential stored
-- under the credential's identifier has the same owner and the same public key. One that is not
-- accepted leaves the store as it was.
pub save_registration-Acceptable :
    (r : VerifiedRegistration) (s : Store)
    → ((is_ok (save_registration r s).1 ≡ true) ↔ Acceptable r s)
      × (is_ok (save_registration r s).1 ≡ false → (save_registration r s).0 ≡ s)
save_registration-Acceptable r s =
    let refused = is_refused_iff r s in
    let (answer, kept) = accepted_unless_refused r s in
    ((λ h. refused.0 (ground arith), λ a. rw (answer, refused.1 a) refl), λ h. kept (ground arith))

-- What a caller can read after a registration was accepted.
pub record Registered (r : VerifiedRegistration) (t : Store) : Type 0 where
  pub user : get_user r.user.user_id t ≡ some r.user
  pub handle :
      is_empty r.user.user_id ≡ false → get_user_by_handle r.user.user_handle t ≡ some r.user
  pub stored : PasskeyCredential
  pub credential : get_credential r.credential.credential_id t ≡ some stored
  pub owner : stored.user_id ≡ r.user.user_id
  pub key : stored.public_key ≡ r.credential.public_key
