-- ===== src/Passkeys/Sqlite/Credentials/Label.antt =====
-- `SQLiteCredentialStore.update_credential_label` writes what the memory store's method writes.
use my_auth.Sql.Bind.{bind-CanBind, optional, CanBind}
use my_auth.Equality.{list_eq, nat_eq, option_eq, ◌==◌}
use my_auth.Prelude.{
  [], ◌∷◌, All, ap, none, inl, refl, inr, Bool-cases, Option, arith, false, true, some, ◌≡◌,
}
use my_auth.Dict.{get}
use my_auth.Passkeys.Models.{bytes_to_b64url, PasskeyCredential}
use my_auth.Passkeys.Sqlite.{begin_error, Session, mutation, credential_values}
use my_auth.Text.{Text, Bytes}
use my_auth.Result.{ok}
use my_auth.Base64.Laws.{AreBytes}
use my_auth.Passkeys.Credentials as Memory
use my_auth.Passkeys.Credentials.{update_label_found, Store, with_credential, without_credential}
use my_auth.Sql.Rows.{picked-count, missed-count, update-rows, missed-update}
use my_auth.Passkeys.Sqlite.Credentials as Sqlite
use my_auth.Passkeys.Sqlite.Credentials.{
  text, label_in_transaction, Tables, is_owned, is_current, is_selected, write_label,
}
use my_auth.Passkeys.Sqlite.Credentials.Refines.{tables_of, IsStorable}
use my_auth.Passkeys.Sqlite.Credentials.Writes.{
  answered, owned-Picks, owned-Misses, read-picked, changed-IsStorable, get-with_credential,
}

module _ (s : Store) (w : IsStorable s) (id : Bytes) (b : AreBytes id) where
  label_missed :
      (user_id : Text) (label : Option Text)
      → ((c : PasskeyCredential) → get s.credentials id ≡ some c → c.user_id == user_id ≡ false)
      → write_label (bytes_to_b64url id) user_id label (tables_of s) ≡ (tables_of s, ok none)
  unfolding write_label tables_of
  label_missed user_id label h =
      let m = owned-Misses s w id b user_id h in
      let p = is_owned (bytes_to_b64url id) user_id in
      rw
        (
          missed-count credential_values p id s.credentials w.wf.unique m,
          missed-update credential_values p id (λ r. record r { label = label }) s.credentials
              w.wf.unique m,
        )
        refl

  label_owned :
      (user_id : Text) (label : Option Text) (c : PasskeyCredential)
      → get s.credentials id ≡ some c
      → c.user_id == user_id ≡ true
      → write_label (bytes_to_b64url id) user_id label (tables_of s) ≡ (
        tables_of (with_credential s id (record c { label = label })),
        ok (some (record c { label = label })),
      )
  unfolding write_label tables_of credential_values
  label_owned user_id label c g own =
      let p = is_owned (bytes_to_b64url id) user_id in
      let d : PasskeyCredential = record c { label = label } in
      let m = owned-Picks s w id b user_id c g own in
      let w_d =
        changed-IsStorable s w id b c d g (record {
          same_id = refl;
          same_owner = refl;
          same_key = refl;
          counts_up = omega arith;
        }) in
      let after = with_credential s id d in
      let read =
        read-picked after w_d id b p d
          (owned-Picks after w_d id b user_id d (get-with_credential s w id b d) own)
          (get-with_credential s w id b d) in
      rw
        (
          picked-count credential_values p id s.credentials c w.wf.unique m g,
          update-rows credential_values p id (λ r. record r { label = label }) s.credentials c d
              w.wf.unique m g refl,
        )
        (ap (λ r. (tables_of after, r)) read)

  label_found :
      (user_id : Text) (label : Option Text) (found : Option PasskeyCredential)
      → get s.credentials id ≡ found
      → write_label (bytes_to_b64url id) user_id label (tables_of s)
        ≡ answered (update_label_found id user_id label found s)
  unfolding update_label_found
  label_found user_id label none g = label_missed user_id label (λ c e. absurd (ground arith))
  label_found user_id label (some c) g = elim (Bool-cases (c.user_id == user_id)) [
    | inr other ↦ rw other (label_missed user_id label (λ d e. ground arith))
    | inl own ↦ rw own (label_owned user_id label c g own)
  ]

  pub update_credential_label-tables_of :
      (session : Session) (user_id : Text) (label : Option Text)
      → begin_error session ≡ none
      → All CanBind (optional label ∷ text user_id ∷ [])
      → Sqlite.update_credential_label session id user_id label (tables_of s)
        ≡ answered (Memory.update_credential_label id user_id label s)
  unfolding Sqlite.update_credential_label Memory.update_credential_label mutation
      label_in_transaction
  update_credential_label-tables_of session user_id label ready fits =
      rw
        (
          ready,
          bind-CanBind (optional label ∷ text user_id ∷ []) fits,
          label_found user_id label (get s.credentials id) refl,
        )
        refl
