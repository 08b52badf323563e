-- ===== src/Passkeys/Sqlite/Credentials/Register.antt =====
-- `SQLiteCredentialStore.save_registration` writes what the memory store's method writes.
use my_auth.Sql.Bind.{bind-CanBind, CanBind}
use my_auth.Passkeys.Sqlite.Credentials.Inserts.{save_existing-registered}
use my_auth.Passkeys.Sqlite.Credentials.Writes.{stored}
use my_auth.Equality.{list_beq_iff, nat_eq, option_eq, list_eq, ◌==◌}
use my_auth.Sql.Rows.{select-rows, missed-select, Picks, Misses}
use my_auth.Result.{credential_conflict, user_conflict, err, Result, ok}
use my_auth.Prelude.{
  [], ◌∷◌, All, Bool-cases, ◌||◌, if◌then◌else◌, inr, inl, Option-cases, arith, ◌∙◌, refl, Option,
  some, none, ◌≡◌,
}
use my_auth.Text.{Text}
use my_auth.Dict.{get}
use my_auth.Passkeys.Sqlite.{
  begin_error, Session, mutation, rolled_back, UserRow, each, user_values,
}
use my_auth.Base64.Laws.{AreBytes}
use my_auth.Passkeys.Models.{
  VerifiedRegistration, bytes_to_b64url-beq, user_eq, bytes_to_b64url, PasskeyCredential,
  PasskeyUser,
}
use my_auth.Passkeys.Sqlite.Credentials.Refines.{
  credential_by_key-tables_of, user_by_id-tables_of, sqlite_user-user_values, tables_of, IsStorable,
}
use my_auth.Passkeys.Sqlite.Credentials as Sqlite
use my_auth.Passkeys.Credentials as Memory
use my_auth.Passkeys.Credentials.{Store, with_registration, is_foreign, differs_from}
use my_auth.Passkeys.Sqlite.Credentials.{
  text, credential_parameters, user_parameters, save_selected, user_by_handle, is_other_holder,
  user_by_id, is_other_user, Tables, save_existing, save_in_transaction, after_conflict,
}

module _ (s : Store) (w : IsStorable s) (u : PasskeyUser) (c : PasskeyCredential)
    (handle_bytes : AreBytes u.user_handle) (id_bytes : AreBytes c.credential_id) where
  -- What the two look-ups of users find is what the memory store compares.
  is_other_user-differs_from :
      Sqlite.is_other_user u (user_by_id u.user_id (tables_of s))
      ≡ ok (differs_from u (get s.users u.user_id))
  is_other_user-differs_from =
      rw (user_by_id-tables_of s w u.user_id)
        (compared (get s.users u.user_id) (λ v g. w.handles u.user_id v g))
    where
      compared :
          (o : Option PasskeyUser)
          → ((v : PasskeyUser) → o ≡ some v → AreBytes v.user_handle)
          → Sqlite.is_other_user u (each user_values o) ≡ ok (differs_from u o)
      compared none h = refl
      compared (some v) h = rw (sqlite_user-user_values v (h v refl)) refl

  handle-Picks :
      (i : Text) (v : PasskeyUser)
      → get s.users i ≡ some v
      → v.user_handle ≡ u.user_handle
      → Picks user_values (λ r. r.user_handle == bytes_to_b64url u.user_handle) i s.users
  unfolding user_values
  handle-Picks i v g e k x f =
      bytes_to_b64url-beq x.user_handle u.user_handle (w.handles k x f) handle_bytes
      ∙ ground (
        arith,
        list_beq_iff x.user_handle u.user_handle,
        list_beq_iff k i,
        (w.wf.users_keyed k x f).1,
        (w.wf.users_keyed i v g).1,
      )

  handle-Misses :
      get s.users_by_handle u.user_handle ≡ none
      → (i : Text)
      → Misses user_values (λ r. r.user_handle == bytes_to_b64url u.user_handle) i s.users
  unfolding user_values
  handle-Misses g i k x f =
      bytes_to_b64url-beq x.user_handle u.user_handle (w.handles k x f) handle_bytes
      ∙ ground (arith, list_beq_iff x.user_handle u.user_handle, (w.wf.users_keyed k x f).1)

  holder-differs_from :
      is_other_holder u (user_by_handle u.user_handle (tables_of s))
      ≡ differs_from u.user_id (get s.users_by_handle u.user_handle)
  unfolding tables_of user_values
  holder-differs_from =
      let p = λ (r : UserRow). r.user_handle == bytes_to_b64url u.user_handle in
      elim (Option-cases (get s.users_by_handle u.user_handle)) [
        | inl nobody ↦
            let m = handle-Misses nobody u.user_id in
            rw (missed-select user_values p u.user_id s.users w.users_unique m, nobody) refl
        | inr (i, somebody) ↦
            let (v, g, e) = w.wf.handles_keyed u.user_handle i somebody in
            let m = handle-Picks i v g e in
            rw
              (
                select-rows user_values p i s.users w.users_unique m,
                g,
                somebody,
                (w.wf.users_keyed i v g).0,
              )
              refl
      ]

  -- The answer of the memory store to a registration whose credential is the user's.
  abbrev pub outcome : Store × Result (Unit {0})
  outcome =
      if differs_from u (get s.users u.user_id)
        || differs_from u.user_id (get s.users_by_handle u.user_handle)
      then (s, err user_conflict)
      else if is_foreign c (get s.credentials c.credential_id)
      then (s, err credential_conflict)
      else (with_registration s u c, ok tt)

  save_in_transaction-outcome :
      c.user_id ≡ u.user_id
      → All CanBind (user_parameters u)
      → All CanBind (credential_parameters c)
      → rolled_back (tables_of s) (save_in_transaction u c (tables_of s)) ≡ stored outcome
  unfolding save_in_transaction save_selected user_parameters
  save_in_transaction-outcome own fits credential_fits =
      rw
        (
          bind-CanBind (text u.user_id ∷ []) (fits.0, tt),
          is_other_user-differs_from,
          holder-differs_from,
          user_by_id-tables_of s w u.user_id,
          credential_by_key-tables_of s w c.credential_id id_bytes,
        )
        (elim (Bool-cases (
          differs_from u (get s.users u.user_id)
          || differs_from u.user_id (get s.users_by_handle u.user_handle))) [
            | inl taken ↦ rw taken refl
            | inr known ↦
                rw
                  (
                    known,
                    save_existing-registered s w u c handle_bytes id_bytes own (ground arith)
                        (ground arith) (get s.users u.user_id) (get s.credentials c.credential_id)
                        fits credential_fits refl refl,
                  )
                  (elim (Bool-cases (is_foreign c (get s.credentials c.credential_id))) [
                    | inl other ↦ rw other refl
                    | inr ours ↦ rw ours refl
                  ])
          ])

module _ (s : Store) (w : IsStorable s) (result : VerifiedRegistration)
    (handle_bytes : AreBytes result.user.user_handle)
    (id_bytes : AreBytes result.credential.credential_id) where
  pub save_registration-tables_of :
      (session : Session)
      → begin_error session ≡ none
      → All CanBind (user_parameters result.user)
      → All CanBind (credential_parameters result.credential)
      → Sqlite.save_registration session result (tables_of s)
        ≡ stored (Memory.save_registration result s)
  unfolding Sqlite.save_registration Memory.save_registration mutation
  save_registration-tables_of session ready fits credential_fits =
      elim (Bool-cases (result.credential.user_id == result.user.user_id)) [
        | inr other ↦ rw other refl
        | inl own ↦
            rw (own, ready)
              (save_in_transaction-outcome s w result.user result.credential handle_bytes id_bytes
                ((list_beq_iff result.credential.user_id result.user.user_id).0 own) fits
                credential_fits)
      ]
