-- ===== src/Passkeys/Credentials.antt =====
-- my_auth/passkey_memory.py, `MemoryCredentialStore`: users, their handles, and their credentials. A
-- method runs under the store's lock; a credential that the store hands out is read as the value
-- that it has then.
pub mod Step
pub mod Invariant
pub mod Calls
pub mod Registration
pub mod Login
use my_auth.Result.{
  ok, counter_conflict, user_conflict, credential_conflict, credential_not_found, err,
}
use my_auth.Text.{is_empty, Bytes, Text}
use my_auth.Equality.{◌==◌, list_eq, nat_eq, option_eq, KeyEq}
use my_auth.Prelude.{
  true, ltb, nat_beq, leb, ◌&&◌, ◌||◌, none, some, not, count_if, max, select, if◌then◌else◌, false,
  Bool, List, ℕ, [], Option,
}
use my_auth.Dict.{set_default, remove, values, get, put, Dict}
use my_auth.Passkeys.Models.{user_eq, PasskeyUser, VerifiedRegistration, PasskeyCredential}
use my_auth.Exec.{Exec, ◌>>=◌, ◌>>◌}

pub record Store : Type 0 where
  pub users : Dict Text PasskeyUser
  pub users_by_handle : Dict Bytes Text
  pub credentials : Dict Bytes PasskeyCredential

abbrev pub empty : Store
empty = record { users = []; users_by_handle = []; credentials = [] }

abbrev pub differs_from {ℓ} : {K : Type ℓ} ⦃e : KeyEq K⦄ → K → Option K → Bool
differs_from a none = false
differs_from a (some b) = not (b == a)

-- The stored credential of this id belongs to another user or holds another key.
abbrev pub is_foreign : PasskeyCredential → Option PasskeyCredential → Bool
is_foreign c none = false
is_foreign c (some existing) =
    not (existing.user_id == c.user_id) || not (existing.public_key == c.public_key)

-- The three writes of a registration.
abbrev pub with_registration : Store → PasskeyUser → PasskeyCredential → Store
with_registration s user c = record {
  users = put s.users user.user_id user;
  users_by_handle = put s.users_by_handle user.user_handle user.user_id;
  credentials = set_default s.credentials c.credential_id c;
}

unfoldable pub save_registration : VerifiedRegistration → Exec Store (Unit {0})
save_registration result s =
    let user = result.user in
    let c = result.credential in
    if not (c.user_id == user.user_id)
    then (s, err credential_conflict)
    else if differs_from user (get s.users user.user_id)
        || differs_from user.user_id (get s.users_by_handle user.user_handle)
    then (s, err user_conflict)
    else if is_foreign c (get s.credentials c.credential_id)
    then (s, err credential_conflict)
    else (with_registration s user c, ok tt)

unfoldable pub get_user : Text → Store → Option PasskeyUser
get_user user_id s = get s.users user_id

unfoldable pub handle_found : Option Text → Store → Option PasskeyUser
handle_found none s = none
handle_found (some user_id) s = if is_empty user_id then none else get s.users user_id

unfoldable pub get_user_by_handle : Bytes → Store → Option PasskeyUser
get_user_by_handle handle s = handle_found (get s.users_by_handle handle) s

abbrev pub is_owned_by : Text → PasskeyCredential → Bool
is_owned_by user_id c = c.user_id == user_id

unfoldable pub list_credentials_for_user : Text → Store → List PasskeyCredential
list_credentials_for_user user_id s = select (is_owned_by user_id) (values s.credentials)

unfoldable pub get_credential : Bytes → Store → Option PasskeyCredential
get_credential credential_id s = get s.credentials credential_id

-- The store with one credential written.
abbrev pub with_credential : Store → Bytes → PasskeyCredential → Store
with_credential s id c = record s { credentials = put s.credentials id c }

abbrev pub without_credential : Store → Bytes → Store
without_credential s id = record s { credentials = remove s.credentials id }

abbrev pub after_login : PasskeyCredential → ℕ → Option Text → Option Bool → PasskeyCredential
after_login c new_sign_count device_type backed_up = record c {
  sign_count = max c.sign_count new_sign_count;
  device_type = device_type;
  backed_up = backed_up;
}

-- The bodies of the three methods below, given what `self.credentials.get(credential_id)` found.
unfoldable pub compare_and_set_found :
    Bytes
    → ℕ
    → ℕ
    → Option Text
    → Option Bool
    → Option PasskeyCredential
    → Exec Store PasskeyCredential
compare_and_set_found id expected_sign_count new_sign_count device_type backed_up none s =
    (s, err credential_not_found)
compare_and_set_found id expected_sign_count new_sign_count device_type backed_up (some c) s =
    if not (nat_beq expected_sign_count 0) && not (nat_beq c.sign_count expected_sign_count)
    then (s, err counter_conflict)
    else if ltb new_sign_count c.sign_count
    then (s, err counter_conflict)
    else (
      with_credential s id (after_login c new_sign_count device_type backed_up),
      ok (after_login c new_sign_count device_type backed_up),
    )

unfoldable pub compare_and_set_credential_after_login :
    Bytes → ℕ → ℕ → Option Text → Option Bool → Exec Store PasskeyCredential
compare_and_set_credential_after_login id expected_sign_count new_sign_count device_type backed_up
      s =
    compare_and_set_found id expected_sign_count new_sign_count device_type backed_up
      (get s.credentials id) s

unfoldable pub update_label_found :
    Bytes → Text → Option Text → Option PasskeyCredential → Store → Store × Option PasskeyCredential
update_label_found id user_id label none s = (s, none)
update_label_found id user_id label (some c) s =
    if c.user_id == user_id
    then (with_credential s id (record c { label = label }), some (record c { label = label }))
    else (s, none)

unfoldable pub update_credential_label :
    Bytes → Text → Option Text → Store → Store × Option PasskeyCredential
update_credential_label id user_id label s =
    update_label_found id user_id label (get s.credentials id) s

-- sum(credential.user_id == user_id for credential in credentials.values())
unfoldable pub count_credentials : Text → Store → ℕ
count_credentials user_id s = count_if (is_owned_by user_id) (values s.credentials)

-- user_id is not None and c.user_id != user_id
abbrev pub is_not_for : Option Text → PasskeyCredential → Bool
is_not_for none c = false
is_not_for (some user_id) c = not (c.user_id == user_id)

unfoldable pub delete_found :
    Bytes → Option Text → Bool → Option PasskeyCredential → Store → Store × Bool
delete_found id user_id require_remaining none s = (s, false)
delete_found id user_id require_remaining (some c) s =
    if is_not_for user_id c
    then (s, false)
    else if require_remaining && leb (count_credentials c.user_id s) 1
    then (s, false)
    else (without_credential s id, true)

unfoldable pub delete_credential : Bytes → Option Text → Bool → Store → Store × Bool
delete_credential id user_id require_remaining s =
    delete_found id user_id require_remaining (get s.credentials id) s
