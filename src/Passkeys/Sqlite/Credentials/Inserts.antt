-- ===== src/Passkeys/Sqlite/Credentials/Inserts.antt =====
-- What the inserts of an accepted registration make of the tables.
use my_auth.Sql.Bind.{bind-CanBind, CanBind}
use my_auth.Passkeys.Sqlite.{credential_values, user_values, each}
use my_auth.Dict.Laws.{get-set_default, get-put, put-get, values-put-new}
use my_auth.Dict.Unique.{put-IsUnique}
use my_auth.Equality.{list_beq_iff, ◌==◌, option_eq, nat_eq, list_eq}
use my_auth.Base64.Laws.{AreBytes}
use my_auth.Passkeys.Sqlite.Credentials.Valid.{tables_from, tables_from-is_valid}
use my_auth.Result.{credential_conflict, err, ok}
use my_auth.Dict.{values, Dict, set_default_found, set_default, put, get}
use my_auth.Text.{Text}
use my_auth.Passkeys.Models.{user_eq, PasskeyCredential, PasskeyUser}
use my_auth.Passkeys.Sqlite.Credentials.Refines.{
  stored_id, sqlite_credential-credential_values, tables_of, IsStorable,
}
use my_auth.Prelude.{
  All, sym, ap, ◌∙◌, Option-cases, [], inr, if◌then◌else◌, ◌∷◌, inl, Bool-cases, none, Option,
  false, arith, some, refl, true, ◌≡◌,
}
use mathlib.Core.List.{map-append}
use my_auth.Passkeys.Credentials.{Store, with_registration, differs_from, is_foreign}
use my_auth.Passkeys.Credentials.Invariant.{registered-IsWf, kept_user, same_value}
use my_auth.Passkeys.Sqlite.Credentials.{
  credential_parameters, user_parameters, Tables, checked, insert_user, insert_credential, is_valid,
  save_existing,
}

checked-valid :
    (f : Tables → Tables) (t : Tables) {after : Tables}
    → f t ≡ after
    → is_valid after ≡ true
    → checked f t ≡ (after, ok tt)
checked-valid f t e h = rw (e, h) refl

module _ (s : Store) (w : IsStorable s) where
  one_handle :
      (i j : Text) (u v : PasskeyUser)
      → get s.users i ≡ some u
      → get s.users j ≡ some v
      → u.user_handle ≡ v.user_handle
      → i ≡ j
  one_handle i j u v g h e = ground (arith, (w.wf.users_keyed i u g).1, (w.wf.users_keyed j v h).1)

  pub tables_of-is_valid : is_valid (tables_of s) ≡ true
  unfolding tables_of
  tables_of-is_valid =
      tables_from-is_valid s.users s.credentials w.users_unique w.wf.unique
        (λ i u g. (w.wf.users_keyed i u g).0) w.wf.credentials_keyed w.handles w.ids one_handle
        w.wf.owned

module _ (s : Store) (w : IsStorable s) (u : PasskeyUser) (c : PasskeyCredential)
    (handle_bytes : AreBytes u.user_handle) (id_bytes : AreBytes c.credential_id)
    (own : c.user_id ≡ u.user_id) (known : differs_from u (get s.users u.user_id) ≡ false)
    (handled : differs_from u.user_id (get s.users_by_handle u.user_handle) ≡ false) where
  pub registered-IsStorable : IsStorable (with_registration s u c)
  registered-IsStorable = record {
    wf = registered-IsWf s w.wf u c own known handled;
    users_unique = put-IsUnique s.users u.user_id u w.users_unique;
    handles = λ i v g. elim (Bool-cases (u.user_id == i)) [
      | inl here ↦
          let same : u ≡ v = ground (arith, get-put s.users u.user_id i u) in
          rw (← same) handle_bytes
      | inr there ↦ w.handles i v (ground (arith, get-put s.users u.user_id i u))
    ];
    ids = λ i d g. elim (Option-cases (get s.credentials i)) [
      | inr (x, old) ↦ w.ids i x old
      | inl fresh ↦
          let same : c.credential_id ≡ i = ground (
            arith,
            get-set_default s.credentials c.credential_id i c,
            list_beq_iff c.credential_id i,
          ) in
          rw (← same) id_bytes
    ];
  }

  -- The tables in between: the user is inserted, the credential is not yet.
  user_inserted :
      get s.users u.user_id ≡ none
      → insert_user u (tables_of s) ≡ tables_from (put s.users u.user_id u) s.credentials
  unfolding tables_of
  user_inserted fresh =
      rw
        (values-put-new s.users u.user_id u fresh, map-append user_values (values s.users) (u ∷ []))
        refl

  user_inserted-is_valid : is_valid (tables_from (put s.users u.user_id u) s.credentials) ≡ true
  user_inserted-is_valid =
      let after = with_registration s u c in
      let w' = registered-IsStorable in
      tables_from-is_valid (put s.users u.user_id u) s.credentials w'.users_unique w.wf.unique
        (λ i v g. (w'.wf.users_keyed i v g).0) w.wf.credentials_keyed w'.handles w.ids
        (one_handle after w')
        (λ i d g.
          let (v, f) = w.wf.owned i d g in
          (v, kept_user s w.wf u c own known handled d.user_id v f))

  credential_inserted :
      (us : Dict Text PasskeyUser)
      → get s.credentials c.credential_id ≡ none
      → insert_credential c (tables_from us s.credentials)
        ≡ tables_from us (set_default s.credentials c.credential_id c)
  unfolding set_default set_default_found
  credential_inserted us fresh =
      rw
        (
          fresh,
          values-put-new s.credentials c.credential_id c fresh,
          map-append credential_values (values s.credentials) (c ∷ []),
        )
        refl

  -- A known user is written back.
  written_back :
      (v : PasskeyUser) → get s.users u.user_id ≡ some v → put s.users u.user_id u ≡ s.users
  written_back v g =
      let same : v ≡ u = same_value u v (get s.users u.user_id) g known in
      put-get s.users u.user_id u (g ∙ ap some same)

  kept_tables :
      (d : PasskeyCredential)
      → get s.credentials c.credential_id ≡ some d
      → is_foreign c (some d) ≡ false
      → tables_of s ≡ tables_of (with_registration s u c)
  unfolding tables_of set_default set_default_found
  kept_tables d g ours =
      let (v, f) = w.wf.owned c.credential_id d g in
      let owner : d.user_id ≡ u.user_id = ground (arith, list_beq_iff d.user_id c.user_id) in
      rw (written_back v (rw (← owner) f), g) refl

  -- The end of the registration on the tables, by what the memory store finds.
  pub save_existing-registered :
      (old : Option PasskeyUser) (existing : Option PasskeyCredential)
      → All CanBind (user_parameters u)
      → All CanBind (credential_parameters c)
      → get s.users u.user_id ≡ old
      → get s.credentials c.credential_id ≡ existing
      → save_existing u c (each user_values old) (each credential_values existing) (tables_of s) ≡ (
          if is_foreign c existing
          then (tables_of s, err credential_conflict)
          else (tables_of (with_registration s u c), ok tt))
  unfolding save_existing tables_of
  save_existing-registered old (some d) h k f g = elim (Bool-cases (is_foreign c (some d))) [
    | inl other ↦
        rw (sqlite_credential-credential_values d (stored_id s w c.credential_id d g), other) refl
    | inr ours ↦
        rw (sqlite_credential-credential_values d (stored_id s w c.credential_id d g), ours)
          (ap (λ t. (t, ok tt)) (kept_tables d g ours))
  ]
  save_existing-registered none none h k f g =
      let us = put s.users u.user_id u in
      let first =
        checked-valid (insert_user u) (tables_of s) (user_inserted f) user_inserted-is_valid in
      let second =
        checked-valid (insert_credential c) (tables_from us s.credentials)
          (credential_inserted us g)
          (tables_of-is_valid (with_registration s u c) registered-IsStorable) in
      rw
        (
          bind-CanBind (user_parameters u) h,
          first,
          bind-CanBind (credential_parameters c) k,
          second,
        )
        refl
  save_existing-registered (some v) none h k f g =
      let after = set_default s.credentials c.credential_id c in
      let written : insert_credential c (tables_of s) ≡ tables_of (with_registration s u c) =
        credential_inserted s.users g ∙ ap (λ us. tables_from us after) (sym (written_back v f)) in
      rw (bind-CanBind (credential_parameters c) k) (
        checked-valid (insert_credential c) (tables_of s) written
          (tables_of-is_valid (with_registration s u c) registered-IsStorable))
