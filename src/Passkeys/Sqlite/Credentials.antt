-- ===== src/Passkeys/Sqlite/Credentials.antt =====
-- my_auth/passkey_sqlite.py, `SQLiteCredentialStore`, on the rows of the tables passkey_users and
-- passkey_credentials.
use my_auth.Equality.{nat_eq, list_eq, option_eq, ◌==◌}
use my_auth.Result.{
  user_conflict, type_error, raise_if, counter_conflict, integrity_error, credential_not_found,
  credential_conflict, err, ok, Result,
}
use my_auth.Prelude.{
  all, leb, max, [], ◌∷◌, ◌||◌, none, ◌&&◌, some, true, ltb, not, nat_beq, ◌++◌, false, ℕ, Option,
  count_if, any, Bool, if◌then◌else◌, List, select,
}
use my_auth.Text.{Text, Bytes}
use my_auth.Passkeys.Models.{
  user_eq, PasskeyUser, PasskeyCredential, bytes_to_b64url, VerifiedRegistration,
}
pub mod Refines
pub mod Writes
pub mod Label
pub mod Login
pub mod Delete
pub mod Valid
pub mod Register
pub mod Inserts
pub mod Storable
pub mod Counts
pub mod Runs
use my_auth.Sql.Bind.{bound, Value, text, integer, optional, bind}
use my_auth.Exec.{Exec, lift, pure, ◌>>=◌, ◌>>◌}
use my_auth.Sql.{update_where, delete_where, fetchone, is_distinct, order_by}
use my_auth.Passkeys.Sqlite.{
  sqlite_bool, Session, UserRow, CredentialRow, mutation, user_values, sqlite_user,
  credential_values, sqlite_credential, decode_option,
}

pub record Tables : Type 0 where
  pub users : List UserRow
  pub credentials : List CredentialRow

-- PRIMARY KEY, UNIQUE and REFERENCES of the two tables.
unfoldable pub is_valid : Tables → Bool
unfolding is_distinct any
is_valid t =
    is_distinct (λ r. some r.user_id) t.users
    && is_distinct (λ r. some r.user_handle) t.users
    && is_distinct (λ r. some r.credential_id) t.credentials
    && all (λ c. any (λ u. u.user_id == c.user_id) t.users) t.credentials

-- A statement under the constraints.
abbrev pub checked : (Tables → Tables) → Exec Tables (Unit {0})
checked f t = if is_valid (f t) then (f t, ok tt) else (t, err integrity_error)

abbrev pub insert_user : PasskeyUser → Tables → Tables
insert_user user t = record t { users = t.users ++ user_values user ∷ [] }

abbrev pub insert_credential : PasskeyCredential → Tables → Tables
insert_credential c t = record t { credentials = t.credentials ++ credential_values c ∷ [] }

-- The values of the two INSERTs; a label and a device type may be NULL.
unfoldable pub user_parameters : PasskeyUser → List Value
user_parameters user = text user.user_id ∷ text user.name ∷ optional user.display_name ∷ []

unfoldable pub credential_parameters : PasskeyCredential → List Value
credential_parameters c =
    text c.user_id ∷ integer c.sign_count ∷ optional c.device_type ∷ optional c.label ∷ []

-- SELECT ... FROM passkey_users WHERE user_id=?, and WHERE user_handle=?
abbrev pub user_by_id : Text → Tables → Option UserRow
user_by_id user_id t = fetchone (select (λ r. r.user_id == user_id) t.users)

abbrev pub user_by_handle : Bytes → Tables → Option UserRow
user_by_handle handle t = fetchone (select (λ r. r.user_handle == bytes_to_b64url handle) t.users)

-- SELECT ... FROM passkey_credentials WHERE credential_id=?
abbrev pub credential_by_key : Text → Tables → Option CredentialRow
credential_by_key key t = fetchone (select (λ r. r.credential_id == key) t.credentials)

abbrev pub differs : PasskeyUser → Result PasskeyUser → Result Bool
differs user (ok old) = ok (not (old == user))
differs user (err e) = err e

-- old is not None and _sqlite_user(old) != user
abbrev pub is_other_user : PasskeyUser → Option UserRow → Result Bool
is_other_user user none = ok false
is_other_user user (some row) = differs user (sqlite_user row)

-- handle is not None and handle[0] != user.user_id
abbrev pub is_other_holder : PasskeyUser → Option UserRow → Bool
is_other_holder user none = false
is_other_holder user (some row) = not (row.user_id == user.user_id)

-- The end of `save_registration`, by the credential that stands in the table.
unfoldable pub save_existing :
    PasskeyUser → PasskeyCredential → Option UserRow → Option CredentialRow → Exec Tables (Unit {0})
unfolding is_valid user_values credential_values sqlite_credential bind user_parameters
    credential_parameters
save_existing user c old (some row) = do
  current ← lift (sqlite_credential row)
  lift (
      raise_if (not (current.user_id == c.user_id) || not (current.public_key == c.public_key))
        credential_conflict)
save_existing user c none none = do
  lift (bind (user_parameters user))
  checked (insert_user user)
  lift (bind (credential_parameters c))
  checked (insert_credential c)
save_existing user c (some row) none = do
  lift (bind (credential_parameters c))
  checked (insert_credential c)

-- The check for a user conflict, and what follows it.
abbrev pub after_conflict : Result Bool → Bool → Exec Tables (Unit {0}) → Exec Tables (Unit {0})
after_conflict (err e) other_holder rest t = (t, err e)
after_conflict (ok other_user) other_holder rest t =
    if other_user || other_holder then (t, err user_conflict) else rest t

unfoldable pub save_selected : PasskeyUser → PasskeyCredential → Exec Tables (Unit {0})
unfolding select sqlite_user bytes_to_b64url save_existing
save_selected user c t =
    let old = user_by_id user.user_id t in
    let holder = user_by_handle user.user_handle t in
    let existing = credential_by_key (bytes_to_b64url c.credential_id) t in
    after_conflict (is_other_user user old) (is_other_holder user holder)
      (save_existing user c old existing) t

-- The first SELECT binds the user's identifier.
unfoldable pub save_in_transaction : PasskeyUser → PasskeyCredential → Exec Tables (Unit {0})
unfolding bind save_selected
save_in_transaction user c = do lift (bind (text user.user_id ∷ [])); save_selected user c

unfoldable pub save_registration : Session → VerifiedRegistration → Exec Tables (Unit {0})
unfolding mutation save_in_transaction
save_registration session result t =
    if not (result.credential.user_id == result.user.user_id)
    then (t, err credential_conflict)
    else mutation session (save_in_transaction result.user result.credential) t

unfoldable pub get_user : Text → Tables → Result (Option PasskeyUser)
unfolding select sqlite_user bind
get_user user_id t = bound (text user_id ∷ []) (decode_option sqlite_user (user_by_id user_id t))

unfoldable pub get_user_by_handle : Bytes → Tables → Result (Option PasskeyUser)
unfolding select sqlite_user bytes_to_b64url
get_user_by_handle handle t = decode_option sqlite_user (user_by_handle handle t)

unfoldable pub get_credential : Bytes → Tables → Result (Option PasskeyCredential)
unfolding select sqlite_credential bytes_to_b64url
get_credential id t = decode_option sqlite_credential (credential_by_key (bytes_to_b64url id) t)

-- The order of texts: by their characters, a prefix first.
unfoldable pub text_leb : Text → Text → Bool
text_leb [] t = true
text_leb (c ∷ s) [] = false
text_leb (c ∷ s) (d ∷ t) = let rest = text_leb s t in ltb c d || (nat_beq c d && rest)

-- ORDER BY created_at,credential_id
abbrev pub is_before : CredentialRow → CredentialRow → Bool
is_before a b =
    ltb a.created_at b.created_at
    || (nat_beq a.created_at b.created_at && text_leb a.credential_id b.credential_id)

abbrev pub append_decoded :
    Result PasskeyCredential → Result (List PasskeyCredential) → Result (List PasskeyCredential)
append_decoded (ok c) (ok cs) = ok (c ∷ cs)
append_decoded (ok c) (err e) = err e
append_decoded (err e) rest = err e

unfoldable pub decode_all : List CredentialRow → Result (List PasskeyCredential)
unfolding sqlite_credential
decode_all [] = ok []
decode_all (row ∷ rows) = append_decoded (sqlite_credential row) (decode_all rows)

unfoldable pub list_credentials_for_user : Text → Tables → Result (List PasskeyCredential)
unfolding select order_by text_leb decode_all bind
list_credentials_for_user user_id t =
    bound (text user_id ∷ [])
      (decode_all (order_by is_before (select (λ r. r.user_id == user_id) t.credentials)))

-- credential_id=? AND (sign_count=? OR ?=0)
abbrev pub is_current : Text → ℕ → ℕ → CredentialRow → Bool
is_current key sign_count expected r =
    r.credential_id == key && (nat_beq r.sign_count sign_count || nat_beq expected 0)

abbrev pub login_columns : ℕ → Option Text → Option Bool → CredentialRow → CredentialRow
login_columns count device_type backed_up r = record r {
  sign_count = count;
  device_type = device_type;
  backed_up = sqlite_bool backed_up;
}

-- UPDATE passkey_credentials SET ... WHERE ..., and its row count
abbrev pub update_credentials :
    (CredentialRow → Bool) → (CredentialRow → CredentialRow) → Tables → Tables
update_credentials p f t = record t { credentials = update_where p f t.credentials }

-- The record of the row that was read again.
abbrev pub decode_found : Option CredentialRow → Result PasskeyCredential
decode_found none = err type_error
decode_found (some row) = sqlite_credential row

-- The UPDATE of a login under the checked counter, and the row read again.
unfoldable pub write_login :
    Text → ℕ → ℕ → ℕ → Option Text → Option Bool → Exec Tables PasskeyCredential
unfolding update_where select sqlite_credential count_if
write_login key current expected count device_type backed_up t =
    let after =
      update_credentials (is_current key current expected)
        (login_columns count device_type backed_up) t in
    if nat_beq (count_if (is_current key current expected) t.credentials) 0
    then (after, err counter_conflict)
    else (after, decode_found (credential_by_key key after))

unfoldable pub update_login :
    Text → ℕ → ℕ → ℕ → Option Text → Option Bool → Exec Tables PasskeyCredential
unfolding bind write_login
update_login key current expected count device_type backed_up = do
  lift (bind (integer count ∷ optional device_type ∷ integer current ∷ integer expected ∷ []))
  write_login key current expected count device_type backed_up

-- The compare-and-set of a row's record.
unfoldable pub login_current :
    Text → ℕ → ℕ → Option Text → Option Bool → PasskeyCredential → Exec Tables PasskeyCredential
unfolding update_login
login_current key expected new device_type backed_up current t =
    if not (nat_beq expected 0) && not (nat_beq current.sign_count expected)
      || ltb new current.sign_count
    then (t, err counter_conflict)
    else update_login key current.sign_count expected (max current.sign_count new) device_type
        backed_up t

unfoldable pub login_found :
    Text → ℕ → ℕ → Option Text → Option Bool → Option CredentialRow → Exec Tables PasskeyCredential
unfolding login_current sqlite_credential
login_found key expected new device_type backed_up none t = (t, err credential_not_found)
login_found key expected new device_type backed_up (some row) t =
    (lift (sqlite_credential row) >>= login_current key expected new device_type backed_up) t

unfoldable pub compare_and_set_credential_after_login :
    Session → Bytes → ℕ → ℕ → Option Text → Option Bool → Exec Tables PasskeyCredential
unfolding mutation login_found bytes_to_b64url select
compare_and_set_credential_after_login session id expected new device_type backed_up =
    mutation session (λ t.
      login_found (bytes_to_b64url id) expected new device_type backed_up
        (credential_by_key (bytes_to_b64url id) t) t)

-- credential_id=? AND user_id=?
abbrev pub is_owned : Text → Text → CredentialRow → Bool
is_owned key user_id r = r.credential_id == key && r.user_id == user_id

unfoldable pub write_label : Text → Text → Option Text → Exec Tables (Option PasskeyCredential)
unfolding update_where select count_if sqlite_credential
write_label key user_id label t =
    let after = update_credentials (is_owned key user_id) (λ r. record r { label = label }) t in
    if not (nat_beq (count_if (is_owned key user_id) t.credentials) 1) then (after, ok none) else (
      after,
      decode_option sqlite_credential (fetchone (select (is_owned key user_id) after.credentials)),
    )

unfoldable pub label_in_transaction :
    Text → Text → Option Text → Exec Tables (Option PasskeyCredential)
unfolding bind write_label
label_in_transaction key user_id label = do
  lift (bind (optional label ∷ text user_id ∷ []))
  write_label key user_id label

unfoldable pub update_credential_label :
    Session → Bytes → Text → Option Text → Exec Tables (Option PasskeyCredential)
unfolding mutation label_in_transaction bytes_to_b64url
update_credential_label session id user_id label =
    mutation session (label_in_transaction (bytes_to_b64url id) user_id label)

-- credential_id=?, and AND user_id=? if a user is given
abbrev pub is_selected : Text → Option Text → CredentialRow → Bool
is_selected key none r = r.credential_id == key
is_selected key (some user_id) r = r.credential_id == key && r.user_id == user_id

-- The deletion by the row that was selected; its result is whether a row was deleted.
unfoldable pub delete_row : Text → Option Text → Bool → Option CredentialRow → Exec Tables Bool
unfolding delete_where count_if
delete_row key user_id require_remaining none t = (t, ok false)
delete_row key user_id require_remaining (some row) t =
    if require_remaining && leb (count_if (λ r. r.user_id == row.user_id) t.credentials) 1
    then (t, ok false)
    else (
      record t { credentials = delete_where (is_selected key user_id) t.credentials },
      ok (ltb 0 (count_if (is_selected key user_id) t.credentials)),
    )

-- The row is selected by the identifier, and by the user if one is given.
unfoldable pub delete_in_transaction : Text → Option Text → Bool → Exec Tables Bool
unfolding delete_row select
delete_in_transaction key user_id require_remaining t =
    delete_row key user_id require_remaining
      (fetchone (select (is_selected key user_id) t.credentials)) t

-- The UPDATE that takes the write lock of an external transaction sets a column to itself.
unfoldable pub delete_credential : Session → Bytes → Option Text → Bool → Exec Tables Bool
unfolding mutation bind delete_in_transaction bytes_to_b64url
delete_credential session id user_id require_remaining = mutation session (
    lift (bind (optional user_id ∷ []))
    >> delete_in_transaction (bytes_to_b64url id) user_id require_remaining)
