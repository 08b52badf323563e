-- ===== src/Passkeys/Service.antt =====
-- my_auth/passkeys.py, `PasskeyService`: what a user does with stored credentials, over the memory
-- credential store.
use my_auth.Equality.{nat_eq, option_eq, list_eq, ◌==◌}
use my_auth.Result.{value_error, mutation_denied, credential_not_found, err, Error, ok, Result}
use my_auth.Passkeys.Models.{PasskeyCredential}
use my_auth.Exec.{Exec}
use my_auth.Text.{Text, strip, Bytes}
use my_auth.Prelude.{length, ltb, not, [], if◌then◌else◌, ◌∷◌, some, List, none, Bool, Option}
pub mod Removal
pub mod Labels
use my_auth.Passkeys.Credentials.{
  Store, list_credentials_for_user, update_credential_label, delete_credential, get_credential,
}

-- normalized or None
abbrev pub or_none : Text → Option Text
or_none [] = none
or_none (c ∷ s) = some (c ∷ s)

unfoldable pub normalize_credential_label : Option Text → Result (Option Text)
unfolding strip
normalize_credential_label none = ok none
normalize_credential_label (some label) =
    if ltb 80 (length (strip label)) then err value_error else ok (or_none (strip label))

unfoldable pub list_credentials : Text → Store → List PasskeyCredential
list_credentials user_id s = list_credentials_for_user user_id s

-- The answer of `label_credential` from the answer of the store.
abbrev pub found_or_raise : Store × Option PasskeyCredential → Store × Result PasskeyCredential
found_or_raise (s, none) = (s, err credential_not_found)
found_or_raise (s, some c) = (s, ok c)

abbrev label_with : Bytes → Text → Result (Option Text) → Exec Store PasskeyCredential
label_with credential_id user_id (err e) s = (s, err e)
label_with credential_id user_id (ok label) s =
    found_or_raise (update_credential_label credential_id user_id label s)

unfoldable pub label_credential : Text → Bytes → Option Text → Exec Store PasskeyCredential
unfolding update_credential_label normalize_credential_label
label_credential user_id credential_id label =
    label_with credential_id user_id (normalize_credential_label label)

-- What `remove_credential` raises when the store deleted nothing.
unfoldable pub removal_error : Text → Option PasskeyCredential → Error
removal_error user_id none = credential_not_found
removal_error user_id (some c) =
    if not (c.user_id == user_id) then credential_not_found else mutation_denied

unfoldable pub remove_credential : Text → Bytes → Bool → Exec Store (Unit {0})
unfolding delete_credential removal_error get_credential
remove_credential user_id credential_id allow_final s =
    let (t, deleted) = delete_credential credential_id (some user_id) (not allow_final) s in
    if deleted
    then (t, ok tt)
    else (t, err (removal_error user_id (get_credential credential_id t)))
