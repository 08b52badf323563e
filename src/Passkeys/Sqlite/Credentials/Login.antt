-- ===== src/Passkeys/Sqlite/Credentials/Login.antt =====
-- `SQLiteCredentialStore.compare_and_set_credential_after_login` writes what the memory store's method
-- writes.
use my_auth.Sql.Bind.{bind-CanBind, optional, CanBind}
use my_auth.Prelude.{[], ◌∷◌, All, ltb, ◌&&◌, nat_beq, not, max, nat_beq_iff}
use my_auth.Equality.{list_eq, nat_eq, option_eq, list_beq_iff}
use my_auth.Prelude.{ℕ, ap, Bool, none, inl, refl, inr, Bool-cases, Option, arith, some, ◌≡◌}
use my_auth.Dict.{get}
use my_auth.Passkeys.Models.{bytes_to_b64url, PasskeyCredential}
use my_auth.Passkeys.Sqlite.{begin_error, Session, mutation, rolled_back, each, credential_values}
use my_auth.Text.{Text, Bytes}
use my_auth.Result.{ok}
use my_auth.Base64.Laws.{AreBytes}
use my_auth.Passkeys.Credentials as Memory
use my_auth.Passkeys.Credentials.{
  compare_and_set_found, after_login, update_label_found, Store, with_credential,
  without_credential,
}
use my_auth.Sql.Rows.{picked-count, Picks, update-rows}
use my_auth.Passkeys.Sqlite.Credentials as Sqlite
use my_auth.Passkeys.Sqlite.Credentials.{
  integer, write_login, credential_by_key, login_found, login_current, decode_found, login_columns,
  update_login, Tables, is_owned, is_current, is_selected, label_in_transaction,
}
use my_auth.Passkeys.Sqlite.Credentials.Refines.{
  CountsFit, sqlite_credential-credential_values, credential_by_key-tables_of, stored_id, tables_of,
  IsStorable, credential-Picks,
}
use my_auth.Passkeys.Sqlite.Credentials.Writes.{stored, changed-IsStorable, get-with_credential}

module _ (s : Store) (w : IsStorable s) (counts : CountsFit s) (id : Bytes) (b : AreBytes id) where
  current-Picks :
      (expected : ℕ) (c : PasskeyCredential)
      → get s.credentials id ≡ some c
      → Picks credential_values
          (is_current (bytes_to_b64url id) c.sign_count expected)
          id
          s.credentials
  unfolding credential_values
  current-Picks expected c g k d f = ground (
    arith,
    credential-Picks s w id b k d f,
    list_beq_iff k id,
    nat_beq_iff d.sign_count c.sign_count,
  )

  write_login-after_login :
      (expected new : ℕ) (device_type : Option Text) (backed_up : Option Bool)
      (c : PasskeyCredential)
      → get s.credentials id ≡ some c
      → write_login
          (bytes_to_b64url id)
          c.sign_count
          expected
          (max c.sign_count new)
          device_type
          backed_up
          (tables_of s)
        ≡ (
          tables_of (with_credential s id (after_login c new device_type backed_up)),
          ok (after_login c new device_type backed_up),
        )
  unfolding write_login tables_of credential_values
  write_login-after_login expected new device_type backed_up c g =
      let d = after_login c new device_type backed_up in
      let after = with_credential s id d in
      let p = is_current (bytes_to_b64url id) c.sign_count expected in
      let m = current-Picks expected c g in
      let w_d =
        changed-IsStorable s w id b c d g (record {
          same_id = refl;
          same_owner = refl;
          same_key = refl;
          counts_up = omega arith;
        }) in
      let g_d = get-with_credential s w id b d in
      let read : decode_found (credential_by_key (bytes_to_b64url id) (tables_of after)) ≡ ok d =
        rw (credential_by_key-tables_of after w_d id b, g_d)
          (sqlite_credential-credential_values d (stored_id after w_d id d g_d)) in
      rw
        (
          picked-count credential_values p id s.credentials c w.wf.unique m g,
          update-rows credential_values p id
              (login_columns (max c.sign_count new) device_type backed_up) s.credentials c d
              w.wf.unique m g refl,
        )
        (ap (λ r. (tables_of after, r)) read)

  update_login-after_login :
      (expected new : ℕ) (device_type : Option Text) (backed_up : Option Bool)
      (c : PasskeyCredential)
      → All CanBind (integer new ∷ optional device_type ∷ integer expected ∷ [])
      → get s.credentials id ≡ some c
      → update_login
          (bytes_to_b64url id)
          c.sign_count
          expected
          (max c.sign_count new)
          device_type
          backed_up
          (tables_of s)
        ≡ (
          tables_of (with_credential s id (after_login c new device_type backed_up)),
          ok (after_login c new device_type backed_up),
        )
  unfolding update_login
  update_login-after_login expected new device_type backed_up c fits g =
      let values =
        integer (max c.sign_count new)
        ∷ optional device_type
        ∷ integer c.sign_count
        ∷ integer expected
        ∷ [] in
      let count : CanBind (integer c.sign_count) = counts id c g in
      let moved : CanBind (integer (max c.sign_count new)) = ground (arith, fits.0) in
      rw (bind-CanBind values (moved, (fits.1.0, (count, (fits.1.1.0, tt)))))
        (write_login-after_login expected new device_type backed_up c g)

  login_current-compare_and_set_found :
      (expected new : ℕ) (device_type : Option Text) (backed_up : Option Bool)
      (c : PasskeyCredential)
      → All CanBind (integer new ∷ optional device_type ∷ integer expected ∷ [])
      → get s.credentials id ≡ some c
      → login_current (bytes_to_b64url id) expected new device_type backed_up c (tables_of s)
        ≡ stored (compare_and_set_found id expected new device_type backed_up (some c) s)
  unfolding login_current compare_and_set_found
  login_current-compare_and_set_found expected new device_type backed_up c fits g =
      elim (Bool-cases (not (nat_beq expected 0) && not (nat_beq c.sign_count expected))) [
        | inl stale ↦ rw stale refl
        | inr fresh ↦ elim (Bool-cases (ltb new c.sign_count)) [
          | inl low ↦ rw (fresh, low) refl
          | inr high ↦
              rw (fresh, high)
                (update_login-after_login expected new device_type backed_up c fits g)
        ]
      ]

  login_found-compare_and_set_found :
      (expected new : ℕ) (device_type : Option Text) (backed_up : Option Bool)
      (found : Option PasskeyCredential)
      → All CanBind (integer new ∷ optional device_type ∷ integer expected ∷ [])
      → get s.credentials id ≡ found
      → login_found
          (bytes_to_b64url id)
          expected
          new
          device_type
          backed_up
          (each credential_values found)
          (tables_of s)
        ≡ stored (compare_and_set_found id expected new device_type backed_up found s)
  unfolding login_found compare_and_set_found
  login_found-compare_and_set_found expected new device_type backed_up none fits g = refl
  login_found-compare_and_set_found expected new device_type backed_up (some c) fits g =
      rw (sqlite_credential-credential_values c (stored_id s w id c g))
        (login_current-compare_and_set_found expected new device_type backed_up c fits g)

  -- The memory store writes nothing when it raises, so that nothing is rolled back.
  compare_and_set_found-rolled_back :
      (expected new : ℕ) (device_type : Option Text) (backed_up : Option Bool)
      (found : Option PasskeyCredential)
      → rolled_back
          (tables_of s)
          (stored (compare_and_set_found id expected new device_type backed_up found s))
        ≡ stored (compare_and_set_found id expected new device_type backed_up found s)
  unfolding compare_and_set_found
  compare_and_set_found-rolled_back expected new device_type backed_up none = refl
  compare_and_set_found-rolled_back expected new device_type backed_up (some c) =
      elim (Bool-cases (not (nat_beq expected 0) && not (nat_beq c.sign_count expected))) [
        | inl stale ↦ rw stale refl
        | inr fresh ↦ elim (Bool-cases (ltb new c.sign_count)) [
          | inl low ↦ rw (fresh, low) refl
          | inr high ↦ rw (fresh, high) refl
        ]
      ]

  pub compare_and_set_credential_after_login-tables_of :
      (session : Session) (expected new : ℕ) (device_type : Option Text) (backed_up : Option Bool)
      → begin_error session ≡ none
      → All CanBind (integer new ∷ optional device_type ∷ integer expected ∷ [])
      → Sqlite.compare_and_set_credential_after_login session id expected new device_type backed_up
          (tables_of s)
        ≡ stored
            (Memory.compare_and_set_credential_after_login id expected new device_type backed_up s)
  unfolding Sqlite.compare_and_set_credential_after_login
      Memory.compare_and_set_credential_after_login mutation
  compare_and_set_credential_after_login-tables_of session expected new device_type backed_up ready
        fits =
      let found = get s.credentials id in
      rw
        (
          ready,
          credential_by_key-tables_of s w id b,
          login_found-compare_and_set_found expected new device_type backed_up found fits refl,
        )
        (compare_and_set_found-rolled_back expected new device_type backed_up found)
