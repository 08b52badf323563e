-- ===== src/Passkeys/Sqlite/Credentials/Valid.antt =====
-- The tables of a well-formed store meet the constraints of the schema, and so do those in which only
-- the user of a registration is inserted.
use my_auth.Sql.Constraints.{any-rows, all-rows, is_distinct-rows}
use my_auth.Equality.{beq_self, ◌==◌, list_beq_iff, list_eq, option_eq, nat_eq}
use my_auth.Sql.{is_distinct}
use my_auth.Base64.Laws.{AreBytes}
use my_auth.Passkeys.Sqlite.{credential_values, user_values}
use my_auth.Prelude.{◌∙◌, refl, sym, arith, any, true, all, some, ◌≡◌, map}
use my_auth.Dict.Unique.{IsUnique}
use my_auth.Passkeys.Models.{bytes_to_b64url-beq, PasskeyCredential, PasskeyUser}
use my_auth.Text.{Bytes, Text}
use my_auth.Dict.{values, get, Dict}
use my_auth.Passkeys.Sqlite.Credentials.{Tables, is_valid}

-- The tables of users and credentials that stand in dictionaries.
abbrev pub tables_from : Dict Text PasskeyUser → Dict Bytes PasskeyCredential → Tables
tables_from us cs = record {
  users = map user_values (values us);
  credentials = map credential_values (values cs);
}

module _ (us : Dict Text PasskeyUser) (cs : Dict Bytes PasskeyCredential)
    (users_unique : IsUnique us) (unique : IsUnique cs)
    (users_keyed : (i : Text) (u : PasskeyUser) → get us i ≡ some u → u.user_id ≡ i)
    (keyed : (i : Bytes) (c : PasskeyCredential) → get cs i ≡ some c → c.credential_id ≡ i)
    (handles : (i : Text) (u : PasskeyUser) → get us i ≡ some u → AreBytes u.user_handle)
    (ids : (i : Bytes) (c : PasskeyCredential) → get cs i ≡ some c → AreBytes i)
    (one_handle : (i j : Text) (u v : PasskeyUser)
      → get us i ≡ some u
      → get us j ≡ some v
      → u.user_handle ≡ v.user_handle
      → i ≡ j)
    (owned : (i : Bytes) (c : PasskeyCredential)
      → get cs i ≡ some c
      → (u : PasskeyUser) × (get us c.user_id ≡ some u)) where
  different_ids : is_distinct (λ r. some r.user_id) (map user_values (values us)) ≡ true
  unfolding user_values
  different_ids =
      is_distinct-rows user_values (λ r. r.user_id) us users_unique
        (λ i j u v g h same.
          ground (arith, users_keyed i u g, users_keyed j v h, list_beq_iff u.user_id v.user_id))

  different_handles : is_distinct (λ r. some r.user_handle) (map user_values (values us)) ≡ true
  unfolding user_values
  different_handles =
      is_distinct-rows user_values (λ r. r.user_handle) us users_unique
        (λ i j u v g h same. one_handle i j u v g h (
          (list_beq_iff u.user_handle v.user_handle).0 (
            sym (bytes_to_b64url-beq u.user_handle v.user_handle (handles i u g) (handles j v h))
            ∙ same)))

  different_credentials :
      is_distinct (λ r. some r.credential_id) (map credential_values (values cs)) ≡ true
  unfolding credential_values
  different_credentials =
      is_distinct-rows credential_values (λ r. r.credential_id) cs unique
        (λ i j c d g h same.
          let e = keyed i c g in
          let f = keyed j d h in
          (list_beq_iff i j).0
            (sym (bytes_to_b64url-beq i j (ids i c g) (ids j d h)) ∙ rw (← e, ← f) same))

  references :
      all
        (λ c. any (λ u. u.user_id == c.user_id) (map user_values (values us)))
        (map credential_values (values cs))
      ≡ true
  unfolding user_values credential_values
  references =
      all-rows credential_values
        (λ c. any (λ u. u.user_id == c.user_id) (map user_values (values us))) cs unique
        (λ i c g.
          let (u, h) = owned i c g in
          any-rows user_values (λ r. r.user_id == c.user_id) us c.user_id u h
            (ground (arith, users_keyed c.user_id u h, beq_self c.user_id)))

  pub tables_from-is_valid : is_valid (tables_from us cs) ≡ true
  unfolding is_valid
  tables_from-is_valid =
      rw (different_ids, different_handles, different_credentials, references) refl
