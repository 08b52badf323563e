-- ===== src/Passkeys/Sqlite/Credentials/Writes.antt =====
-- What the methods of `SQLiteCredentialStore` that change one credential write, next to what those of
-- `MemoryCredentialStore` write.
use my_auth.Sql.Bind.{CanBind}
use my_auth.Sql.{fetchone}
use my_auth.Dict.Laws.{get-put}
use my_auth.Passkeys.Credentials.Invariant.{changed-IsWf}
use my_auth.Equality.{beq_self, list_eq, nat_eq, option_eq, list_beq_iff, ◌==◌}
use my_auth.Prelude.{◌∙◌, select, Bool, inl, inr, Bool-cases, arith, false, true, some, ◌≡◌}
use my_auth.Dict.{put, get}
use my_auth.Passkeys.Models.{bytes_to_b64url, PasskeyCredential}
use my_auth.Passkeys.Sqlite.{sqlite_credential, decode_option, CredentialRow, credential_values}
use my_auth.Text.{Text, Bytes}
use my_auth.Result.{ok, Result}
use my_auth.Base64.Laws.{AreBytes}
use my_auth.Passkeys.Credentials.Step.{Evolves}
use my_auth.Passkeys.Credentials.{Store, with_credential}
use my_auth.Sql.Rows.{Picks, Misses, select-rows}
use my_auth.Passkeys.Sqlite.Credentials.{integer, Tables, is_owned}
use my_auth.Passkeys.Sqlite.Credentials.Refines.{
  CountsFit, stored_id, decoded_credential, tables_of, IsStorable, credential-Picks,
}

-- A store and an answer as the SQLite store gives them.
abbrev pub answered {ℓ} : {A : Type ℓ} → Store × A → Tables × Result A
answered (s, a) = (tables_of s, ok a)

abbrev pub stored {ℓ} : {A : Type ℓ} → Store × Result A → Tables × Result A
stored (s, r) = (tables_of s, r)

module _ (s : Store) (w : IsStorable s) (id : Bytes) (b : AreBytes id) where
  pub owned-Picks :
      (user_id : Text) (c : PasskeyCredential)
      → get s.credentials id ≡ some c
      → c.user_id == user_id ≡ true
      → Picks credential_values (is_owned (bytes_to_b64url id) user_id) id s.credentials
  unfolding credential_values
  owned-Picks user_id c g own k d f =
      ground (arith, credential-Picks s w id b k d f, list_beq_iff k id)

  pub owned-Misses :
      (user_id : Text)
      → ((c : PasskeyCredential) → get s.credentials id ≡ some c → c.user_id == user_id ≡ false)
      → Misses credential_values (is_owned (bytes_to_b64url id) user_id) id s.credentials
  unfolding credential_values
  owned-Misses user_id h k d f =
      ground (arith, credential-Picks s w id b k d f, list_beq_iff k id, h d)

  -- The row that a test picks is read back as its credential.
  pub read-picked :
      (p : CredentialRow → Bool) (c : PasskeyCredential)
      → Picks credential_values p id s.credentials
      → get s.credentials id ≡ some c
      → decode_option sqlite_credential (fetchone (select p (tables_of s).credentials))
        ≡ ok (some c)
  unfolding tables_of
  read-picked p c m g =
      rw (select-rows credential_values p id s.credentials w.wf.unique m, g)
        (decoded_credential (some c) (λ d e. stored_id s w id d (g ∙ e)))

module _ (s : Store) (w : IsStorable s) (id : Bytes) (b : AreBytes id) where
  -- Changing a credential in place keeps the tables those of a store.
  pub changed-IsStorable :
      (c d : PasskeyCredential)
      → get s.credentials id ≡ some c
      → Evolves c d
      → IsStorable (with_credential s id d)
  changed-IsStorable c d g ev = record {
    wf = changed-IsWf s w.wf id c d g ev;
    users_unique = w.users_unique;
    handles = w.handles;
    ids = λ i x f. elim (Bool-cases (id == i)) [
      | inl here ↦ rw (← (list_beq_iff id i).0 here) b
      | inr there ↦ w.ids i x (ground (arith, get-put s.credentials id i d))
    ];
  }

  pub get-with_credential : (d : PasskeyCredential) → get (put s.credentials id d) id ≡ some d
  get-with_credential d = ground (arith, get-put s.credentials id id d, beq_self id)

module _ (s : Store) (id : Bytes) where
  -- Changing a credential in place, to a counter that fits.
  pub changed-CountsFit :
      (d : PasskeyCredential)
      → CountsFit s
      → CanBind (integer d.sign_count)
      → CountsFit (with_credential s id d)
  changed-CountsFit d counts fits i x f = elim (Bool-cases (id == i)) [
    | inl here ↦ let same : d ≡ x = ground (arith, get-put s.credentials id i d) in rw (← same) fits
    | inr there ↦ counts i x (ground (arith, get-put s.credentials id i d))
  ]
