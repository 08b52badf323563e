-- ===== src/Schema/Inspect.antt =====
-- my_auth/sqlite_schema.py, `inspect_sqlite_schema`: the state of a schema.
use my_auth.Equality.{pair_eq, list_eq, nat_eq, option_eq}
use my_auth.Result.{Error, type_error, value_error}
use my_auth.Oidc.Scope.{member}
use my_auth.Encoding.{decimal, digits}
use my_auth.Equality.{◌==◌, list_eq, option_eq, nat_eq}
use my_auth.Result.{value_error, err, ok, Result}
use my_auth.Text.{codes, Text}
use my_auth.Schema.{challenge_columns, Catalog}
use my_auth.Schema.Layout.{has_table, v2_layout_diagnostics, canonical_layout_diagnostics}
use my_auth.Int.{negsuc, pos, ℤ}
use my_auth.Prelude.{
  zero, ℕ, nat_beq, suc, ◌||◌, ◌&&◌, ◌++◌, [], false, map, all, some, if◌then◌else◌, true, ◌∷◌, not,
  Bool, any, select, List, none, Option,
}

pub data SchemaState : Type 0 where
  empty canonical_unversioned legacy current unsupported : SchemaState

pub record Inspection : Type 0 where
  pub state : SchemaState
  pub version : Option ℤ
  pub diagnostics : List Text

abbrev pub is_current_state : SchemaState → Bool
is_current_state current = true
is_current_state _ = false

abbrev pub found : SchemaState → Option ℤ → List Text → Inspection
found state version diagnostics = record {
  state = state;
  version = version;
  diagnostics = diagnostics;
}

-- The tables of every version, sorted.
abbrev pub required_tables : List Text
required_tables = map codes ("passkey_challenges" ∷ "passkey_credentials" ∷ "passkey_users" ∷ [])

-- The columns of the first layout, sorted.
abbrev pub legacy_columns : List (Text × List Text)
legacy_columns =
    (codes "passkey_users", map codes ("display_name" ∷ "name" ∷ "user_handle" ∷ "user_id" ∷ []))
    ∷ (
      codes "passkey_credentials",
      map codes ("created_at" ∷ "credential_id" ∷ "public_key" ∷ "sign_count" ∷ "user_id" ∷ []),
    )
    ∷ (
      codes "passkey_challenges",
      map codes (
          "challenge" ∷ "expires_at" ∷ "flow_key" ∷ "kind" ∷ "user_display_name" ∷ "user_handle"
          ∷ "user_id" ∷ "user_name" ∷ []),
    )
    ∷ []

-- ", ".join(names)
unfoldable pub join_names : List Text → Text
join_names [] = []
join_names (n ∷ []) = n
join_names (n ∷ m ∷ ns) = n ++ codes ", " ++ join_names (m ∷ ns)

abbrev pub column_names : Catalog → Text → List Text
column_names c table = map (λ column. column.0) (c.columns table)

-- sorted(expected - names), for sorted names that are expected
abbrev pub lacking : List Text → List Text → List Text
lacking expected names = select (λ e. not (member e names)) expected

-- The diagnostics of one table of the first layout.
abbrev pub lacking_columns : Text → List Text → List Text
lacking_columns table [] = []
lacking_columns table (n ∷ ns) =
    (codes "missing columns (" ++ table ++ codes ": " ++ join_names (n ∷ ns) ++ codes ")") ∷ []

-- The order in which the code lists the tables is that of a set; here it is this one.
unfoldable pub legacy_diagnostics : Catalog → List (Text × List Text) → List Text
unfolding join_names select any
legacy_diagnostics c [] = []
legacy_diagnostics c ((table, expected) ∷ rest) =
    lacking_columns table (lacking expected (column_names c table)) ++ legacy_diagnostics c rest

-- A state, unless there are diagnostics.
abbrev pub if_sound : List Text → Inspection → Inspection
if_sound [] inspection = inspection
if_sound (d ∷ ds) inspection = found unsupported none (d ∷ ds)

unfoldable pub inspect_legacy : Catalog → Inspection
unfolding legacy_diagnostics any
inspect_legacy c = if_sound (legacy_diagnostics c legacy_columns) (
    if has_table c (codes "my_auth_schema")
    then found unsupported none (codes "legacy layout has schema metadata" ∷ [])
    else found legacy none (codes "legacy flow_key challenge layout" ∷ []))

-- str(version)
abbrev pub shown_version : ℤ → Text
shown_version (pos n) = decimal n
shown_version (negsuc n) = 45 ∷ decimal (suc n)

abbrev pub other_version : ℤ → Inspection
other_version v =
    found unsupported (some v)
      ((codes "schema version " ++ shown_version v ++ codes " is not supported") ∷ [])

-- The first n of a list.
abbrev pub take {ℓ} : {A : Type ℓ} → ℕ → List A → List A
take zero xs = []
take (suc n) [] = []
take (suc n) (x ∷ xs) = x ∷ take n xs

-- passkey_challenges with the columns of version 2
abbrev pub has_v2_challenges : Catalog → Bool
has_v2_challenges c = c.columns (codes "passkey_challenges") == take 8 challenge_columns

unfoldable pub inspect_version : Catalog → ℤ → Inspection
unfolding canonical_layout_diagnostics v2_layout_diagnostics digits
inspect_version c (negsuc n) = other_version (negsuc n)
inspect_version c (pos n) =
    if nat_beq n 3
    then if_sound (canonical_layout_diagnostics c true) (found current (some (pos n)) [])
    else if nat_beq n 2 && has_v2_challenges c
    then if_sound (v2_layout_diagnostics c) (found legacy (some (pos 2)) (codes "schema v2" ∷ []))
    else other_version (pos n)

abbrev pub no_integer : Inspection
no_integer = found unsupported none (codes "schema version must be an integer" ∷ [])

abbrev pub not_one_row : Inspection
not_one_row = found unsupported none (codes "schema metadata must contain one row" ∷ [])

-- except (TypeError, ValueError)
abbrev pub is_conversion_error : Error → Bool
is_conversion_error type_error = true
is_conversion_error value_error = true
is_conversion_error _ = false

unfoldable pub inspect_rows : Catalog → List (Result ℤ) → Result Inspection
unfolding inspect_version
inspect_rows c [] = ok not_one_row
inspect_rows c (ok v ∷ []) = ok (inspect_version c v)
inspect_rows c (err e ∷ []) = if is_conversion_error e then ok no_integer else err e
inspect_rows c (r ∷ q ∷ rows) = ok not_one_row

-- By whether there is a table my_auth_schema.
unfoldable pub inspect_metadata : Catalog → Bool → Result Inspection
unfolding canonical_layout_diagnostics inspect_rows
inspect_metadata c false =
    ok (if_sound (canonical_layout_diagnostics c false) (found canonical_unversioned none []))
inspect_metadata c true = inspect_rows c c.version_rows

-- The layout with the column `key`.
unfoldable pub inspect_keyed : Catalog → Result Inspection
unfolding inspect_metadata any
inspect_keyed c = inspect_metadata c (has_table c (codes "my_auth_schema"))

-- By the columns of passkey_challenges.
unfoldable pub inspect_required : Catalog → Result Inspection
unfolding inspect_legacy inspect_keyed any
inspect_required c =
    let names = column_names c (codes "passkey_challenges") in
    if member (codes "flow_key") names && member (codes "key") names
    then ok
        (found unsupported none (codes "challenge table has both flow_key and key columns" ∷ []))
    else if member (codes "flow_key") names
    then ok (inspect_legacy c)
    else inspect_keyed c

-- not tables or tables == {"sqlite_sequence"}, or none of the library's tables
abbrev pub is_empty_schema : Catalog → Bool
is_empty_schema c =
    all (λ t. t == codes "sqlite_sequence") c.tables
    || not (any (has_table c) (codes "my_auth_schema" ∷ required_tables))

unfoldable pub inspect_sqlite_schema : Catalog → Result Inspection
unfolding inspect_required join_names select any all
inspect_sqlite_schema c =
    if is_empty_schema c
    then ok (found empty none [])
    else if not (all (has_table c) required_tables)
    then ok (
        found unsupported none
          ((codes "missing tables: " ++ join_names (lacking required_tables c.tables)) ∷ []))
    else inspect_required c
