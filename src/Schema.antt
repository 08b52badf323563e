-- ===== src/Schema.antt =====
-- my_auth/sqlite_schema.py: the inspection of a database's schema. What the PRAGMA statements and
-- sqlite_master tell of a connection is a catalog.
use my_auth.Int.{ℤ}
use my_auth.Prelude.{some, [], ◌∷◌, none, Option, List, ℕ, String}
use my_auth.Result.{Result}
use my_auth.Text.{codes, Text}
pub mod Layout
pub mod Inspect
pub mod Current

-- Name, type in upper case, whether it is NOT NULL, its place in the primary key, and its default.
abbrev pub Column : Type 0
Column = Text × (Text × (ℕ × (ℕ × Option Text)))

-- An index with whether it is unique.
pub record Index : Type 0 where
  pub name : Text
  pub unique : ℕ
  pub columns : List Text

-- Table, columns from and to, and the actions on update and on delete.
abbrev pub ForeignKey : Type 0
ForeignKey = Text × (Text × (Text × (Text × Text)))

-- `version_rows` has what `int` gives for each row of my_auth_schema.
pub record Catalog : Type 0 where
  pub tables : List Text
  pub columns : Text → List Column
  pub indexes : Text → List Index
  pub foreign_keys : Text → List ForeignKey
  pub version_rows : List (Result ℤ)

abbrev pub column : String → String → ℕ → ℕ → Option Text → Column
column name type not_null key default = (codes name, (codes type, (not_null, (key, default))))

-- _CANONICAL_COLUMNS
abbrev pub metadata_columns : List Column
metadata_columns = column "schema_version" "INTEGER" 1 0 none ∷ []

abbrev pub user_columns : List Column
user_columns =
    column "user_id" "TEXT" 0 1 none
    ∷ column "user_handle" "TEXT" 1 0 none
    ∷ column "name" "TEXT" 1 0 none
    ∷ column "display_name" "TEXT" 0 0 none
    ∷ []

abbrev pub credential_columns : List Column
credential_columns =
    column "credential_id" "TEXT" 0 1 none
    ∷ column "user_id" "TEXT" 1 0 none
    ∷ column "public_key" "BLOB" 1 0 none
    ∷ column "sign_count" "INTEGER" 1 0 (some (codes "0"))
    ∷ column "transports" "TEXT" 0 0 none
    ∷ column "device_type" "TEXT" 0 0 none
    ∷ column "backed_up" "INTEGER" 0 0 none
    ∷ column "label" "TEXT" 0 0 none
    ∷ column "created_at" "TEXT" 1 0 none
    ∷ []

abbrev pub challenge_columns : List Column
challenge_columns =
    column "key" "TEXT" 1 1 none
    ∷ column "kind" "TEXT" 1 2 none
    ∷ column "challenge" "BLOB" 1 0 none
    ∷ column "expires_at" "TEXT" 1 0 none
    ∷ column "user_id" "TEXT" 0 0 none
    ∷ column "user_handle" "TEXT" 0 0 none
    ∷ column "user_name" "TEXT" 0 0 none
    ∷ column "user_display_name" "TEXT" 0 0 none
    ∷ column "registration_kind" "TEXT" 0 0 none
    ∷ column "capability_id" "TEXT" 0 0 none
    ∷ []

abbrev pub capability_columns : List Column
capability_columns =
    column "capability_id" "TEXT" 0 1 none
    ∷ column "token_hash" "TEXT" 1 0 none
    ∷ column "purpose" "TEXT" 1 0 none
    ∷ column "subject" "TEXT" 1 0 none
    ∷ column "expires_at" "TEXT" 1 0 none
    ∷ column "issued_by" "TEXT" 0 0 none
    ∷ column "claimed_flow_id" "TEXT" 0 0 none
    ∷ column "claimed_at" "TEXT" 0 0 none
    ∷ column "consumed_at" "TEXT" 0 0 none
    ∷ column "revoked_at" "TEXT" 0 0 none
    ∷ []

abbrev pub canonical_columns : List (Text × List Column)
canonical_columns =
    (codes "my_auth_schema", metadata_columns)
    ∷ (codes "passkey_users", user_columns)
    ∷ (codes "passkey_credentials", credential_columns)
    ∷ (codes "passkey_challenges", challenge_columns)
    ∷ (codes "passkey_enrollment_capabilities", capability_columns)
    ∷ []
