-- ===== src/Tests/Tables.antt =====
-- Runs of the SQLite stores of passkeys.
use my_auth.Encoding.{utf8}
use my_auth.Schema.Layout.{
  concat, enrollment_diagnostics, column_diagnostics, canonical_layout_diagnostics,
}
use my_auth.Passkeys.Sqlite.Opened.{new_base-IsCurrent}
use my_auth.Schema.Inspect.{
  inspect_version, inspect_rows, inspect_metadata, inspect_keyed, inspect_required, required_tables,
  inspect_sqlite_schema,
}
use my_auth.Schema.Current.{IsCurrent}
use my_auth.Schema.{
  challenge_columns, credential_columns, user_columns, metadata_columns, Index, Column, Catalog,
}
use my_auth.Equality.{option_beq, pair_beq, list_eq, option_eq, nat_eq, ◌==◌, list_beq}
use my_auth.Sql.{upsert}
use my_auth.Int.{pos, add_seconds}
use my_auth.Result.{challenge_not_found, err, ok}
use my_auth.Base64.Laws.{AreBytes}
use my_auth.Passkeys.Sqlite.Credentials.Storable.{call-IsStorable}
use my_auth.Passkeys.Challenges.{new_record, context_user}
use my_auth.Passkeys.Sqlite.Credentials.Refines.{get_credential-tables_of, tables_of, IsStorable}
use my_auth.Prelude.{
  all, if◌then◌else◌, false, refl, any, true, some, ◌≡◌, arith, [], none, ◌<◌, List, ℕ, ◌∷◌,
}
use my_auth.Dict.{put, set_default_found, set_default, get}
use my_auth.Passkeys.Models.{
  b64url_to_bytes-bytes_to_b64url, registration, bytes_to_b64url, ChallengeRecord, PasskeyUser,
  b64url_to_bytes, PasskeyCredential,
}
use my_auth.Passkeys.Sqlite.{
  begin_error, is_external, Session, Connection, connection, new_base, challenge_values, Database,
  Base, mutation,
}
use my_auth.Text.{Text, codes}
use my_auth.Passkeys.Credentials.Calls.{call, Call}
use my_auth.Passkeys.Credentials.{Store, empty}
use my_auth.Passkeys.Credentials as Memory
use my_auth.Passkeys.Sqlite.Credentials as Sqlite
use my_auth.Passkeys.Sqlite.Challenges
use my_auth.Passkeys.Sqlite.Challenges.OneTime.{pop-save-once}

abbrev base : Base
base = record { database = Database.path (codes "auth.db"); transaction_mode = codes "operation" }

-- A path has no connection of the caller; a call looks at none.
abbrev idle : Connection
idle = record { in_transaction = false; foreign_keys = 0 }

abbrev session : Session
session = record { base = base; found = idle }

abbrev alice : PasskeyUser
alice = record { user_id = codes "u"; user_handle = 1 ∷ []; name = codes "a"; display_name = none }

abbrev key : PasskeyCredential
key = record {
  credential_id = 9 ∷ [];
  user_id = codes "u";
  public_key = 7 ∷ [];
  sign_count = 5;
  transports = [];
  device_type = none;
  backed_up = none;
  label = none;
  created_at = 0;
}

abbrev registering : Call
registering = Call.save_registration (record { user = alice; credential = key; context = none })

abbrev logging_in : Call
logging_in = Call.compare_and_set (9 ∷ []) 5 6 none (some true)

abbrev labelling : Call
labelling = Call.update_label (9 ∷ []) (codes "u") (some (codes "Key"))

abbrev deleting : Call
deleting = Call.delete (9 ∷ []) (some (codes "u")) true

abbrev calls : List (Connection × Call)
calls = (idle, registering) ∷ (idle, logging_in) ∷ (idle, labelling) ∷ (idle, deleting) ∷ []

one_byte : (n : ℕ) → n < 256 → AreBytes (n ∷ [])
one_byte n h = (h, tt)

empty-IsStorable : IsStorable empty
unfolding get
empty-IsStorable = record {
  wf = record {
    unique = tt;
    users_keyed = λ i u h. cc;
    handles_keyed = λ h i g. cc;
    credentials_keyed = λ i c h. cc;
    owned = λ i c h. cc;
  };
  users_unique = tt;
  handles = λ i u h. cc;
  ids = λ i c h. cc;
}

abbrev one : Store
one = record {
  users = (codes "u", alice) ∷ [];
  users_by_handle = (1 ∷ [], codes "u") ∷ [];
  credentials = (9 ∷ [], key) ∷ [];
}

one-IsStorable : IsStorable one
unfolding call Memory.save_registration set_default set_default_found get put list_beq
one-IsStorable =
    call-IsStorable empty empty-IsStorable registering
      (one_byte 1 (omega arith), one_byte 9 (omega arith))

get_credential-tables_of_example :
    Sqlite.get_credential (9 ∷ []) (tables_of one) ≡ ok (Memory.get_credential (9 ∷ []) one)
get_credential-tables_of_example =
    get_credential-tables_of one one-IsStorable (9 ∷ []) (one_byte 9 (omega arith))

abbrev challenge : ChallengeRecord
challenge = record {
  challenge = 1 ∷ [];
  kind = registration;
  key = codes "k";
  expires_at = 60000005;
  user = some alice;
  registration_kind = none;
  capability_id = none;
}

some_value : {a b : PasskeyUser} → some a ≡ some b → a ≡ b
some_value h = cc

challenge_saved :
    Challenges.save session (codes "k") registration (1 ∷ []) (pos 60) (some alice) none 5 []
    ≡ (challenge_values challenge ∷ [], ok challenge)
unfolding Challenges.save Challenges.insert_record mutation Challenges.upsert_challenge context_user
    new_record add_seconds upsert any utf8
challenge_saved = refl

pop-save-once_example :
    let popped =
      Challenges.pop session (codes "k") registration 7 (challenge_values challenge ∷ []) in
    (popped.1 ≡ ok challenge)
    × ((Challenges.pop session (codes "k") registration 7 popped.0).1 ≡ err challenge_not_found)
pop-save-once_example =
    pop-save-once session (codes "k") registration (1 ∷ []) (pos 60) (some alice) none 5 7 7 []
      (challenge_values challenge ∷ []) challenge_saved
      (λ u h. rw (← some_value h) (one_byte 1 (omega arith))) refl

b64url_to_bytes-bytes_to_b64url_example :
    b64url_to_bytes (bytes_to_b64url (1 ∷ 2 ∷ [])) ≡ ok (1 ∷ 2 ∷ [])
b64url_to_bytes-bytes_to_b64url_example =
    b64url_to_bytes-bytes_to_b64url (1 ∷ 2 ∷ []) (omega arith, (omega arith, tt))

-- The catalog of a database with the canonical schema, without an enrollment table.
abbrev columns_of : Text → List Column
columns_of table =
    if table == codes "my_auth_schema"
    then metadata_columns
    else if table == codes "passkey_users"
    then user_columns
    else if table == codes "passkey_credentials"
    then credential_columns
    else challenge_columns

abbrev indexes_of : Text → List Index
indexes_of table =
    if table == codes "passkey_users"
    then record { name = codes "a"; unique = 1; columns = codes "user_handle" ∷ [] } ∷ []
    else if table == codes "passkey_credentials"
    then record {
      name = codes "idx_passkey_credentials_user_id";
      unique = 0;
      columns = codes "user_id" ∷ [];
    }
      ∷ []
    else record {
      name = codes "idx_passkey_challenges_expires_at";
      unique = 0;
      columns = codes "expires_at" ∷ [];
    }
      ∷ []

abbrev catalog : Catalog
catalog = record {
  tables = codes "my_auth_schema" ∷ required_tables;
  columns = columns_of;
  indexes = indexes_of;
  foreign_keys = λ table.
      (
        codes "passkey_users",
        (codes "user_id", (codes "user_id", (codes "NO ACTION", codes "CASCADE"))),
      )
      ∷ [];
  version_rows = ok (pos 3) ∷ [];
}

-- A caller's connection in a transaction with foreign keys.
abbrev caller : Connection
caller = record { in_transaction = true; foreign_keys = 1 }

abbrev external : Base
external = record { database = connection caller; transaction_mode = codes "external" }

base_opened :
    new_base (λ d. inspect_sqlite_schema catalog) (connection caller) (codes "external")
    ≡ ok external
unfolding new_base inspect_sqlite_schema inspect_required inspect_keyed inspect_metadata
    inspect_rows inspect_version canonical_layout_diagnostics column_diagnostics
    enrollment_diagnostics concat any all list_beq pair_beq option_beq
base_opened = refl

new_base-IsCurrent_example :
    IsCurrent catalog
    × (external ≡ external)
    × (is_external (codes "external") ≡ true
        → (c : Connection) × (connection caller ≡ connection c)
          × (c.in_transaction ≡ true)
          × (c.foreign_keys ≡ 1)
          × (begin_error (record { base = external; found = c }) ≡ none))
new_base-IsCurrent_example =
    new_base-IsCurrent (λ d. catalog) (connection caller) (codes "external") base_opened
