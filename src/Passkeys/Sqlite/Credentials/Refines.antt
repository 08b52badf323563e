-- ===== src/Passkeys/Sqlite/Credentials/Refines.antt =====
-- The tables that hold what the memory credential store holds, and that reading them gives the same
-- answers.
use my_auth.Sql.Bind.{bind-CanBind, bound, CanBind, IsEncodable}
use my_auth.Sql.{fetchone}
use my_auth.Dict.{values, get}
use my_auth.Equality.{nat_eq, option_eq, list_eq, ◌==◌}
use my_auth.Dict.Unique.{IsUnique}
use my_auth.Text.{Bytes, Text}
use my_auth.Prelude.{[], ◌∷◌, true, false, none, ◌∙◌, refl, ap, some, Bool, ◌≡◌, Option, map}
use my_auth.Result.{ok}
use my_auth.Base64.Laws.{AreBytes}
use my_auth.Passkeys.Models.{
  bytes_to_b64url, PasskeyCredential, PasskeyUser, b64url_to_bytes-bytes_to_b64url,
  bytes_to_b64url-beq,
}
use my_auth.Passkeys.Credentials as Memory
use my_auth.Passkeys.Credentials.{Store}
use my_auth.Passkeys.Credentials.Step.{IsWf}
use my_auth.Sql.Rows.{Picks, select-rows, rows_of}
use my_auth.Passkeys.Sqlite.{
  decode_option, user_values, sqlite_user, credential_values, sqlite_credential, sqlite_bool,
  bool_column, each,
}
use my_auth.Passkeys.Sqlite.Credentials as Sqlite
use my_auth.Passkeys.Sqlite.Credentials.{text, integer, credential_by_key, user_by_id, Tables}

-- The rows of a store, in the order in which they were inserted.
unfoldable pub tables_of : Store → Tables
unfolding user_values credential_values
tables_of s = record {
  users = map user_values (values s.users);
  credentials = map credential_values (values s.credentials);
}

-- A well-formed store whose keys are bytes, with one entry for each user.
pub record IsStorable (s : Store) : Type 0 where
  pub wf : IsWf s
  pub users_unique : IsUnique s.users
  pub handles : (i : Text) (u : PasskeyUser) → get s.users i ≡ some u → AreBytes u.user_handle
  pub ids : (i : Bytes) (c : PasskeyCredential) → get s.credentials i ≡ some c → AreBytes i

-- The counters fit an INTEGER column.
abbrev pub CountsFit : Store → Type 0
CountsFit s =
    (i : Bytes) (c : PasskeyCredential)
    → get s.credentials i ≡ some c
    → CanBind (integer c.sign_count)

bool_column-sqlite_bool : (b : Option Bool) → bool_column (sqlite_bool b) ≡ b
bool_column-sqlite_bool none = refl
bool_column-sqlite_bool (some false) = refl
bool_column-sqlite_bool (some true) = refl

pub sqlite_credential-credential_values :
    (c : PasskeyCredential)
    → AreBytes c.credential_id
    → sqlite_credential (credential_values c) ≡ ok c
unfolding sqlite_credential credential_values
sqlite_credential-credential_values c h =
    rw (b64url_to_bytes-bytes_to_b64url c.credential_id h, bool_column-sqlite_bool c.backed_up) refl

pub sqlite_user-user_values :
    (u : PasskeyUser) → AreBytes u.user_handle → sqlite_user (user_values u) ≡ ok u
unfolding sqlite_user user_values
sqlite_user-user_values u h = rw (b64url_to_bytes-bytes_to_b64url u.user_handle h) refl

pub fetchone-rows_of {ℓ κ} :
    {V : Type ℓ} {R : Type κ} (row : V → R) (o : Option V) → fetchone (rows_of row o) ≡ each row o
fetchone-rows_of row none = refl
fetchone-rows_of row (some v) = refl

pub decoded_user :
    (o : Option PasskeyUser)
    → ((u : PasskeyUser) → o ≡ some u → AreBytes u.user_handle)
    → decode_option sqlite_user (each user_values o) ≡ ok o
decoded_user none h = refl
decoded_user (some u) h = rw (sqlite_user-user_values u (h u refl)) refl

pub decoded_credential :
    (o : Option PasskeyCredential)
    → ((c : PasskeyCredential) → o ≡ some c → AreBytes c.credential_id)
    → decode_option sqlite_credential (each credential_values o) ≡ ok o
decoded_credential none h = refl
decoded_credential (some c) h = rw (sqlite_credential-credential_values c (h c refl)) refl

-- The identifier of a credential that stands under a key is bytes.
pub stored_id :
    (s : Store)
    → IsStorable s
    → (id : Bytes) (c : PasskeyCredential) → get s.credentials id ≡ some c
    → AreBytes c.credential_id
stored_id s w id c g = rw (w.wf.credentials_keyed id c g) (w.ids id c g)

module _ (s : Store) (w : IsStorable s) where
  pub credential-Picks :
      (id : Bytes)
      → AreBytes id
      → Picks credential_values (λ r. r.credential_id == bytes_to_b64url id) id s.credentials
  unfolding credential_values
  credential-Picks id b k c g =
      let named : c.credential_id ≡ k = w.wf.credentials_keyed k c g in
      rw named (bytes_to_b64url-beq k id (w.ids k c g) b)

  pub credential_by_key-tables_of :
      (id : Bytes)
      → AreBytes id
      → credential_by_key (bytes_to_b64url id) (tables_of s)
        ≡ each credential_values (get s.credentials id)
  unfolding tables_of
  credential_by_key-tables_of id b =
      ap fetchone (
        select-rows credential_values (λ r. r.credential_id == bytes_to_b64url id) id s.credentials
          w.wf.unique (credential-Picks id b))
      ∙ fetchone-rows_of credential_values (get s.credentials id)

  pub user_by_id-tables_of :
      (id : Text) → user_by_id id (tables_of s) ≡ each user_values (get s.users id)
  unfolding tables_of user_values
  user_by_id-tables_of id =
      let h : Picks user_values (λ r. r.user_id == id) id s.users =
        λ k u g. ap (λ x. x == id) (w.wf.users_keyed k u g).0 in
      ap fetchone (select-rows user_values (λ r. r.user_id == id) id s.users w.users_unique h)
      ∙ fetchone-rows_of user_values (get s.users id)

  -- Looking a user up by the identifier gives what the memory store gives.
  pub get_user-tables_of :
      (id : Text) → IsEncodable id → Sqlite.get_user id (tables_of s) ≡ ok (Memory.get_user id s)
  unfolding Sqlite.get_user Memory.get_user
  get_user-tables_of id encodable =
      ap (λ found. bound (text id ∷ []) (decode_option sqlite_user found)) (user_by_id-tables_of id)
      ∙ rw (bind-CanBind (text id ∷ []) (encodable, tt))
          (decoded_user (get s.users id) (λ u g. w.handles id u g))

  -- For a well-formed memory store with one entry for each user and with byte strings for handles and
  -- identifiers: looking a credential up by a byte string in the tables that hold the store's content
  -- gives what the memory store gives.
  pub get_credential-tables_of :
      (id : Bytes)
      → AreBytes id
      → Sqlite.get_credential id (tables_of s) ≡ ok (Memory.get_credential id s)
  unfolding Sqlite.get_credential Memory.get_credential
  get_credential-tables_of id b =
      ap (decode_option sqlite_credential) (credential_by_key-tables_of id b)
      ∙ decoded_credential (get s.credentials id) (stored_id s w id)
