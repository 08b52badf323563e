-- ===== src/Passkeys/Sqlite/Credentials/Delete.antt =====
-- `SQLiteCredentialStore.delete_credential` writes what the memory store's method writes.
use my_auth.Sql.Bind.{bind-CanBind, optional, CanBind}
use my_auth.Sql.{fetchone}
use my_auth.Equality.{list_eq, nat_eq, option_eq, list_beq_iff, ◌==◌}
use my_auth.Prelude.{
  leb, ◌&&◌, [], ◌+◌, if◌then◌else◌, ◌∷◌, map, List, count_if, ap, ◌∙◌, select, Bool, none, inl,
  refl, inr, Bool-cases, Option, arith, false, true, some, ◌≡◌,
}
use my_auth.Dict.{values, get}
use my_auth.Passkeys.Models.{bytes_to_b64url, PasskeyCredential}
use my_auth.Passkeys.Sqlite.{begin_error, Session, mutation, credential_values}
use my_auth.Text.{Text, Bytes}
use my_auth.Base64.Laws.{AreBytes}
use my_auth.Passkeys.Credentials as Memory
use my_auth.Passkeys.Credentials.{
  is_owned_by, count_credentials, delete_found, is_not_for, update_label_found, Store,
  with_credential, without_credential,
}
use my_auth.Sql.Rows.{picked-count, Picks, Misses, select-rows, delete-rows, missed-select}
use my_auth.Passkeys.Sqlite.Credentials as Sqlite
use my_auth.Passkeys.Sqlite.Credentials.{
  delete_in_transaction, delete_row, Tables, is_owned, is_current, is_selected,
  label_in_transaction,
}
use my_auth.Passkeys.Sqlite.Credentials.Refines.{tables_of, IsStorable, credential-Picks}
use my_auth.Passkeys.Sqlite.Credentials.Writes.{answered, owned-Picks, owned-Misses}

module _ (s : Store) (w : IsStorable s) (id : Bytes) (b : AreBytes id) where
  selected-Picks :
      (user_id : Option Text) (c : PasskeyCredential)
      → get s.credentials id ≡ some c
      → is_not_for user_id c ≡ false
      → Picks credential_values (is_selected (bytes_to_b64url id) user_id) id s.credentials
  unfolding credential_values
  selected-Picks none c g own = credential-Picks s w id b
  selected-Picks (some user_id) c g own = owned-Picks s w id b user_id c g (ground arith)

  selected-Misses :
      (user_id : Option Text)
      → ((c : PasskeyCredential) → get s.credentials id ≡ some c → is_not_for user_id c ≡ true)
      → Misses credential_values (is_selected (bytes_to_b64url id) user_id) id s.credentials
  unfolding credential_values
  selected-Misses none h k d f =
      let own : k == id ≡ false = elim (Bool-cases (k == id)) [
        | inr apart ↦ apart
        | inl same ↦ absurd (ground (arith, list_beq_iff k id, h d))
      ] in
      credential-Picks s w id b k d f ∙ own
  selected-Misses (some user_id) h k d f =
      owned-Misses s w id b user_id (λ c e. ground (arith, h c e)) k d f

  count_if-user_id :
      (user_id : Text) (cs : List PasskeyCredential)
      → count_if (λ r. r.user_id == user_id) (map credential_values cs)
        ≡ count_if (is_owned_by user_id) cs
  unfolding credential_values count_if
  count_if-user_id user_id [] = refl
  count_if-user_id user_id (c ∷ cs) =
      ap (λ n. (if c.user_id == user_id then 1 else 0) + n) (count_if-user_id user_id cs)

  delete_row-delete_found :
      (user_id : Option Text) (require_remaining : Bool) (found : Option PasskeyCredential)
      → get s.credentials id ≡ found
      → delete_row
          (bytes_to_b64url id)
          user_id
          require_remaining
          (fetchone (select (is_selected (bytes_to_b64url id) user_id) (tables_of s).credentials))
          (tables_of s)
        ≡ answered (delete_found id user_id require_remaining found s)
  unfolding delete_row delete_found tables_of count_credentials credential_values
  delete_row-delete_found user_id require_remaining none g =
      let m = selected-Misses user_id (λ c e. absurd (ground arith)) in
      rw
        (missed-select credential_values (is_selected (bytes_to_b64url id) user_id) id s.credentials
          w.wf.unique m)
        refl
  delete_row-delete_found user_id require_remaining (some c) g =
      let p = is_selected (bytes_to_b64url id) user_id in
      elim (Bool-cases (is_not_for user_id c)) [
        | inl other ↦
            let m = selected-Misses user_id (λ d e. ground arith) in
            rw (other, missed-select credential_values p id s.credentials w.wf.unique m) refl
        | inr own ↦
            let m = selected-Picks user_id c g own in
            rw
              (
                own,
                select-rows credential_values p id s.credentials w.wf.unique m,
                g,
                delete-rows credential_values p id s.credentials w.wf.unique m,
                picked-count credential_values p id s.credentials c w.wf.unique m g,
                count_if-user_id c.user_id (values s.credentials),
              )
              (elim (Bool-cases (require_remaining && leb (count_credentials c.user_id s) 1)) [
                | inl last ↦ rw last refl
                | inr more ↦ rw more refl
              ])
      ]

  pub delete_credential-tables_of :
      (session : Session) (user_id : Option Text) (require_remaining : Bool)
      → begin_error session ≡ none
      → CanBind (optional user_id)
      → Sqlite.delete_credential session id user_id require_remaining (tables_of s)
        ≡ answered (Memory.delete_credential id user_id require_remaining s)
  unfolding Sqlite.delete_credential Memory.delete_credential mutation delete_in_transaction
  delete_credential-tables_of session user_id require_remaining ready fits =
      rw
        (
          ready,
          bind-CanBind (optional user_id ∷ []) (fits, tt),
          delete_row-delete_found user_id require_remaining (get s.credentials id) refl,
        )
        refl
