-- ===== src/Passkeys/Credentials/Step.antt =====
-- A credential store is well formed when users, handles and credentials agree, and every change the
-- memory store makes keeps that.
use my_auth.Dict.{get}
use my_auth.Equality.{list_beq_iff, nat_eq, list_eq, option_eq, ◌==◌}
use my_auth.Prelude.{
  none, refl, leb, ltb, ◌&&◌, nat_beq, arith, not, ◌||◌, inl, some, false, inr, Bool, Bool-cases,
  Option, ℕ, ◌≤◌, ◌≡◌,
}
use my_auth.Text.{Text, Bytes}
use my_auth.Passkeys.Models.{user_eq, PasskeyUser, PasskeyCredential, VerifiedRegistration}
use my_auth.Dict.Unique.{IsUnique}
use my_auth.Passkeys.Credentials.{
  update_label_found, delete_found, compare_and_set_found, without_credential, count_credentials,
  with_credential, with_registration, is_not_for, is_foreign, differs_from, Store,
  save_registration, compare_and_set_credential_after_login, update_credential_label,
  delete_credential,
}

-- Every user stands under its identifier and is found by its handle, every handle leads to the user
-- that has it, and every credential stands under its identifier and belongs to a user.
pub record IsWf (s : Store) : Type 0 where
  pub unique : IsUnique s.credentials
  pub users_keyed :
      (i : Text) (u : PasskeyUser)
      → get s.users i ≡ some u
      → (u.user_id ≡ i) × (get s.users_by_handle u.user_handle ≡ some i)
  pub handles_keyed :
      (h : Bytes) (i : Text)
      → get s.users_by_handle h ≡ some i
      → (u : PasskeyUser) × (get s.users i ≡ some u) × (u.user_handle ≡ h)
  pub credentials_keyed :
      (i : Bytes) (c : PasskeyCredential) → get s.credentials i ≡ some c → c.credential_id ≡ i
  pub owned :
      (i : Bytes) (c : PasskeyCredential)
      → get s.credentials i ≡ some c
      → (u : PasskeyUser) × (get s.users c.user_id ≡ some u)

-- What a call may change of a credential: not its identity, and the counter only upwards.
pub record Evolves (c d : PasskeyCredential) : Type 0 where
  pub same_id : d.credential_id ≡ c.credential_id
  pub same_owner : d.user_id ≡ c.user_id
  pub same_key : d.public_key ≡ c.public_key
  pub counts_up : c.sign_count ≤ d.sign_count

-- A step of the store. A registration is for a user who is new or known as exactly that user, and
-- for a credential that is new or stays as it is; only the named credential may be deleted.
pub data Step (removes : Option Bytes) (s t : Store) : Type 0 where
  same : t ≡ s → Step removes s t
  registered :
      (u : PasskeyUser) (c : PasskeyCredential)
      → c.user_id ≡ u.user_id
      → differs_from u (get s.users u.user_id) ≡ false
      → differs_from u.user_id (get s.users_by_handle u.user_handle) ≡ false
      → is_foreign c (get s.credentials c.credential_id) ≡ false
      → t ≡ with_registration s u c
      → Step removes s t
  changed :
      (i : Bytes) (c d : PasskeyCredential)
      → get s.credentials i ≡ some c
      → Evolves c d
      → t ≡ with_credential s i d
      → Step removes s t
  deleted :
      (i : Bytes) (c : PasskeyCredential)
      → get s.credentials i ≡ some c
      → removes ≡ some i
      → t ≡ without_credential s i
      → Step removes s t

pub save_registration-Step :
    (r : VerifiedRegistration) (s : Store) → Step none s (save_registration r s).0
unfolding save_registration
save_registration-Step r s = elim (Bool-cases (r.credential.user_id == r.user.user_id)) [
  | inr other ↦ rw other (Step.same refl)
  | inl own ↦
      elim (Bool-cases (
        differs_from r.user (get s.users r.user.user_id)
        || differs_from r.user.user_id (get s.users_by_handle r.user.user_handle))) [
          | inl taken ↦ rw (own, taken) (Step.same refl)
          | inr known ↦
              elim (Bool-cases
                (is_foreign r.credential (get s.credentials r.credential.credential_id))) [
                  | inl foreign ↦ rw (own, known, foreign) (Step.same refl)
                  | inr fine ↦
                      rw (own, known, fine)
                        (Step.registered r.user r.credential ((list_beq_iff _ _).0 own)
                          (ground arith) (ground arith) fine refl)
                ]
        ]
]

found-Step-cas :
    (i : Bytes) (expected new : ℕ) (device : Option Text) (backed_up : Option Bool)
    (found : Option PasskeyCredential) (s : Store)
    → get s.credentials i ≡ found
    → Step none s (compare_and_set_found i expected new device backed_up found s).0
unfolding compare_and_set_found
found-Step-cas i expected new device backed_up none s e = Step.same refl
found-Step-cas i expected new device backed_up (some c) s e =
    elim (Bool-cases (not (nat_beq expected 0) && not (nat_beq c.sign_count expected))) [
      | inl stale ↦ rw stale (Step.same refl)
      | inr fresh ↦ elim (Bool-cases (ltb new c.sign_count)) [
        | inl back ↦ rw (fresh, back) (Step.same refl)
        | inr up ↦
            rw (fresh, up)
              (Step.changed i c _ e
                (record {
                  same_id = refl;
                  same_owner = refl;
                  same_key = refl;
                  counts_up = ground arith;
                })
                refl)
      ]
    ]

pub compare_and_set-Step :
    (i : Bytes) (expected new : ℕ) (device : Option Text) (backed_up : Option Bool) (s : Store)
    → Step none s (compare_and_set_credential_after_login i expected new device backed_up s).0
unfolding compare_and_set_credential_after_login
compare_and_set-Step i expected new device backed_up s =
    found-Step-cas i expected new device backed_up _ s refl

found-Step-label :
    (i : Bytes) (user_id : Text) (label : Option Text) (found : Option PasskeyCredential)
    (s : Store)
    → get s.credentials i ≡ found
    → Step none s (update_label_found i user_id label found s).0
unfolding update_label_found
found-Step-label i user_id label none s e = Step.same refl
found-Step-label i user_id label (some c) s e = elim (Bool-cases (c.user_id == user_id)) [
  | inr other ↦ rw other (Step.same refl)
  | inl own ↦ rw own (
      Step.changed i c _ e
        (record { same_id = refl; same_owner = refl; same_key = refl; counts_up = omega arith })
        refl)
]

pub update_credential_label-Step :
    (i : Bytes) (user_id : Text) (label : Option Text) (s : Store)
    → Step none s (update_credential_label i user_id label s).0
unfolding update_credential_label
update_credential_label-Step i user_id label s = found-Step-label i user_id label _ s refl

found-Step-delete :
    (i : Bytes) (user_id : Option Text) (require_remaining : Bool)
    (found : Option PasskeyCredential) (s : Store)
    → get s.credentials i ≡ found
    → Step (some i) s (delete_found i user_id require_remaining found s).0
unfolding delete_found
found-Step-delete i user_id require_remaining none s e = Step.same refl
found-Step-delete i user_id require_remaining (some c) s e =
    elim (Bool-cases (is_not_for user_id c)) [
      | inl other ↦ rw other (Step.same refl)
      | inr own ↦ elim (Bool-cases (require_remaining && leb (count_credentials c.user_id s) 1)) [
        | inl last ↦ rw (own, last) (Step.same refl)
        | inr more ↦ rw (own, more) (Step.deleted i c e refl refl)
      ]
    ]

pub delete_credential-Step :
    (i : Bytes) (user_id : Option Text) (require_remaining : Bool) (s : Store)
    → Step (some i) s (delete_credential i user_id require_remaining s).0
unfolding delete_credential
delete_credential-Step i user_id require_remaining s =
    found-Step-delete i user_id require_remaining _ s refl
