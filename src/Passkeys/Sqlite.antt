-- ===== src/Passkeys/Sqlite.antt =====
-- my_auth/passkey_sqlite.py: the connection rules that the SQLite stores share, and their rows. Bytes
-- that are keys stand in the table as base64url text. A column that holds an ISO date is its instant,
-- whose order the text has; a column that holds a JSON list of texts, the transport words
-- of WebAuthn, is that list. Keys, kinds, hashes, dates and JSON are ASCII, so that binding them does
-- not fail; the statements name the other values that they bind.
use my_auth.Int.{Instant}
use my_auth.Equality.{nat_eq, list_eq, option_eq, ◌==◌}
use my_auth.Prelude.{
  nat_beq, true, ◌||◌, none, not, ◌&&◌, List, ℕ, false, some, Option, Bool, if◌then◌else◌,
}
use my_auth.Text.{codes, Bytes, Text}
pub mod Opened
pub mod Challenges
pub mod Credentials
use my_auth.Result.{
  operational_error, Error, value_error, runtime_error, err, raise_if, ok, Result, ◌>>=◌, ◌>>◌,
}
use my_auth.Exec.{Exec}
use my_auth.Schema.Inspect.{Inspection, is_current_state}
use my_auth.Passkeys.Models.{
  RegistrationKind, ChallengeKind, bytes_to_b64url, b64url_to_bytes, PasskeyUser, PasskeyCredential,
  ChallengeRecord,
}

-- A caller's connection, as far as the stores look at it.
pub record Connection : Type 0 where
  pub in_transaction : Bool
  pub foreign_keys : ℕ

-- The `database` argument: a path, or a connection of the caller.
pub data Database : Type 0 where
  path : Text → Database
  connection : Connection → Database

-- A store: its database and transaction mode. The connection of the caller is here as the constructor
-- finds it.
pub record Base : Type 0 where
  pub database : Database
  pub transaction_mode : Text

abbrev pub is_external : Text → Bool
is_external mode = mode == codes "external"

-- transaction_mode == "external" and no active transaction with foreign keys
abbrev pub is_unready : Text → Connection → Bool
is_unready mode c = is_external mode && (not c.in_transaction || not (nat_beq c.foreign_keys 1))

abbrev pub is_refused_database : Text → Database → Bool
is_refused_database mode (path p) = is_external mode
is_refused_database mode (connection c) = is_unready mode c

abbrev pub is_memory_path : Database → Bool
is_memory_path (path p) = p == codes ":memory:"
is_memory_path (connection c) = false

-- `_SQLiteBase.__init__`; `inspect` is the inspection of the database's schema.
unfoldable pub new_base : (Database → Result Inspection) → Database → Text → Result Base
new_base inspect database transaction_mode = do
  raise_if (not (is_external transaction_mode) && not (transaction_mode == codes "operation"))
      value_error
  raise_if (is_memory_path database) value_error
  raise_if (is_refused_database transaction_mode database) runtime_error
  inspection ← inspect database
  raise_if (not (is_current_state inspection.state)) runtime_error
  ok (record { database = database; transaction_mode = transaction_mode })

-- What a method did to the tables, if it raised: the transaction or the savepoint is rolled back.
abbrev pub rolled_back {ℓ} : {S A : Type ℓ} → S → S × Result A → S × Result A
rolled_back s (t, ok a) = (t, ok a)
rolled_back s (t, err e) = (s, err e)

-- A call of a store: the store, and the state in which this call finds the caller's connection.
pub record Session : Type 0 where
  pub base : Base
  pub found : Connection

-- What a call raises before its statements: the checks of the mode "external" are made anew, and in the
-- mode "operation" BEGIN raises in a transaction of the caller. The handler then rolls the caller's
-- transaction back; the tables here are those without what it had not committed.
abbrev pub begin_error : Session → Option Error
begin_error session = elim session.base.database [
  | path p ↦ none
  | connection c ↦
      if is_unready session.base.transaction_mode session.found
      then some runtime_error
      else if not (is_external session.base.transaction_mode) && session.found.in_transaction
      then some operational_error
      else none
]

abbrev pub begun {ℓ} : {S A : Type ℓ} → Option Error → Exec S A → Exec S A
begun none m s = rolled_back s (m s)
begun (some e) m s = (s, err e)

-- with self._connection(mutation=True)
unfoldable pub mutation {ℓ} : {S A : Type ℓ} → Session → Exec S A → Exec S A
mutation session m = begun (begin_error session) m

-- None if value is None else int(value)
abbrev pub sqlite_bool : Option Bool → Option ℕ
sqlite_bool none = none
sqlite_bool (some false) = some 0
sqlite_bool (some true) = some 1

-- bool(row[6]) if row[6] is not None else None
abbrev pub bool_column : Option ℕ → Option Bool
bool_column none = none
bool_column (some n) = some (not (nat_beq n 0))

pub record UserRow : Type 0 where
  pub user_id : Text
  pub user_handle : Text
  pub name : Text
  pub display_name : Option Text

pub record CredentialRow : Type 0 where
  pub credential_id : Text
  pub user_id : Text
  pub public_key : Bytes
  pub sign_count : ℕ
  pub transports : List Text
  pub device_type : Option Text
  pub backed_up : Option ℕ
  pub label : Option Text
  pub created_at : Instant

-- The user columns of a challenge are all NULL, or all but the last are set.
pub record ChallengeRow : Type 0 where
  pub key : Text
  pub kind : ChallengeKind
  pub challenge : Bytes
  pub expires_at : Instant
  pub user : Option UserRow
  pub registration_kind : Option RegistrationKind
  pub capability_id : Option Text

unfoldable pub user_values : PasskeyUser → UserRow
unfolding bytes_to_b64url
user_values user = record {
  user_id = user.user_id;
  user_handle = bytes_to_b64url user.user_handle;
  name = user.name;
  display_name = user.display_name;
}

unfoldable pub sqlite_user : UserRow → Result PasskeyUser
unfolding b64url_to_bytes
sqlite_user row = do
  handle ← b64url_to_bytes row.user_handle
  ok (record {
    user_id = row.user_id;
    user_handle = handle;
    name = row.name;
    display_name = row.display_name;
  })

unfoldable pub credential_values : PasskeyCredential → CredentialRow
unfolding bytes_to_b64url
credential_values c = record {
  credential_id = bytes_to_b64url c.credential_id;
  user_id = c.user_id;
  public_key = c.public_key;
  sign_count = c.sign_count;
  transports = c.transports;
  device_type = c.device_type;
  backed_up = sqlite_bool c.backed_up;
  label = c.label;
  created_at = c.created_at;
}

unfoldable pub sqlite_credential : CredentialRow → Result PasskeyCredential
unfolding b64url_to_bytes
sqlite_credential row = do
  id ← b64url_to_bytes row.credential_id
  ok (record {
    credential_id = id;
    user_id = row.user_id;
    public_key = row.public_key;
    sign_count = row.sign_count;
    transports = row.transports;
    device_type = row.device_type;
    backed_up = bool_column row.backed_up;
    label = row.label;
    created_at = row.created_at;
  })

abbrev pub each {ℓ κ} : {A : Type ℓ} {B : Type κ} → (A → B) → Option A → Option B
each f none = none
each f (some a) = some (f a)

-- A decoder on a column or row that may be absent.
abbrev pub decode_option {ℓ κ} :
    {A : Type ℓ} {B : Type κ} → (A → Result B) → Option A → Result (Option B)
decode_option f none = ok none
decode_option f (some a) = do b ← f a; ok (some b)

unfoldable pub challenge_values : ChallengeRecord → ChallengeRow
unfolding user_values
challenge_values r = record {
  key = r.key;
  kind = r.kind;
  challenge = r.challenge;
  expires_at = r.expires_at;
  user = each user_values r.user;
  registration_kind = r.registration_kind;
  capability_id = r.capability_id;
}

unfoldable pub sqlite_challenge : ChallengeRow → Result ChallengeRecord
unfolding sqlite_user
sqlite_challenge row = do
  user ← decode_option sqlite_user row.user
  ok (record {
    challenge = row.challenge;
    kind = row.kind;
    key = row.key;
    expires_at = row.expires_at;
    user = user;
    registration_kind = row.registration_kind;
    capability_id = row.capability_id;
  })
