-- ===== src/Schema/Layout.antt =====
-- my_auth/sqlite_schema.py, `_canonical_layout_diagnostics` and `_v2_layout_diagnostics`: how a layout
-- differs from the canonical one.
use my_auth.Equality.{pair_eq, list_eq, nat_eq, option_eq}
use my_auth.Equality.{list_eq, nat_eq, option_eq, ◌==◌}
use my_auth.Text.{codes, Text}
use my_auth.Schema.{Column, canonical_columns, Catalog}
use my_auth.Prelude.{true, ◌||◌, not, false, ◌∷◌, ◌&&◌, ◌++◌, nat_beq, [], List, String, any, Bool}

abbrev pub has_table : Catalog → Text → Bool
has_table c table = any (λ t. t == table) c.tables

-- What one check after the other appends.
unfoldable pub concat {ℓ} : {A : Type ℓ} → List (List A) → List A
concat [] = []
concat (xs ∷ xss) = xs ++ concat xss

-- A diagnostic, unless the condition holds.
abbrev pub unless : Bool → Text → List Text
unless true message = []
unless false message = message ∷ []

-- table == "my_auth_schema" and not require_metadata, or an enrollment table that is not there
abbrev pub is_skipped : Catalog → Bool → Text → Bool
is_skipped c require_metadata table =
    (table == codes "my_auth_schema" && not require_metadata)
    || (table == codes "passkey_enrollment_capabilities" && not (has_table c table))

-- The loop over the canonical columns.
unfoldable pub column_diagnostics : Catalog → Bool → List (Text × List Column) → List Text
unfolding any
column_diagnostics c require_metadata [] = []
column_diagnostics c require_metadata ((table, expected) ∷ rest) =
    unless (is_skipped c require_metadata table || c.columns table == expected)
      (codes "divergent columns (" ++ table ++ codes ")")
    ++ column_diagnostics c require_metadata rest

-- (name, 0) in indexes
abbrev pub has_index : Catalog → String → String → Bool
has_index c table name =
    any (λ i. i.name == codes name && nat_beq i.unique 0) (c.indexes (codes table))

abbrev pub has_unique_column_index : Catalog → String → String → Bool
has_unique_column_index c table name =
    any (λ i. nat_beq i.unique 1 && i.columns == codes name ∷ []) (c.indexes (codes table))

abbrev pub has_owner_key : Catalog → Bool
has_owner_key c =
    c.foreign_keys (codes "passkey_credentials")
    == (
      codes "passkey_users",
      (codes "user_id", (codes "user_id", (codes "NO ACTION", codes "CASCADE"))),
    )
      ∷ []

-- The two indexes and the foreign key that every version has.
unfoldable pub v2_layout_diagnostics : Catalog → List Text
unfolding any concat
v2_layout_diagnostics c = concat (
    unless (has_index c "passkey_credentials" "idx_passkey_credentials_user_id")
      (codes "missing index (idx_passkey_credentials_user_id)")
    ∷ unless (has_index c "passkey_challenges" "idx_passkey_challenges_expires_at")
        (codes "missing index (idx_passkey_challenges_expires_at)")
    ∷ unless (has_owner_key c) (codes "divergent foreign key (passkey_credentials.user_id)")
    ∷ [])

-- The checks of the enrollment table, if it is there.
abbrev pub enrollment_checks : Catalog → List (List Text)
enrollment_checks c =
    unless
      (has_index c "passkey_enrollment_capabilities"
        "idx_passkey_enrollment_capabilities_expires_at")
      (codes "missing index (idx_passkey_enrollment_capabilities_expires_at)")
    ∷ unless (has_unique_column_index c "passkey_enrollment_capabilities" "token_hash")
        (codes "missing unique index (passkey_enrollment_capabilities.token_hash)")
    ∷ unless (has_unique_column_index c "passkey_enrollment_capabilities" "claimed_flow_id")
        (codes "missing unique index (passkey_enrollment_capabilities.claimed_flow_id)")
    ∷ []

unfoldable pub enrollment_diagnostics : Catalog → Bool → List Text
unfolding any concat
enrollment_diagnostics c false = []
enrollment_diagnostics c true = concat (enrollment_checks c)

-- The checks of the layout, in order.
abbrev pub canonical_checks : Catalog → Bool → List (List Text)
canonical_checks c require_metadata =
    column_diagnostics c require_metadata canonical_columns
    ∷ unless (has_index c "passkey_credentials" "idx_passkey_credentials_user_id")
        (codes "missing index (idx_passkey_credentials_user_id)")
    ∷ unless (has_index c "passkey_challenges" "idx_passkey_challenges_expires_at")
        (codes "missing index (idx_passkey_challenges_expires_at)")
    ∷ unless (has_unique_column_index c "passkey_users" "user_handle")
        (codes "missing unique index (passkey_users.user_handle)")
    ∷ enrollment_diagnostics c (has_table c (codes "passkey_enrollment_capabilities"))
    ∷ unless (has_owner_key c) (codes "divergent foreign key (passkey_credentials.user_id)")
    ∷ []

unfoldable pub canonical_layout_diagnostics : Catalog → Bool → List Text
unfolding any column_diagnostics enrollment_diagnostics concat
canonical_layout_diagnostics c require_metadata = concat (canonical_checks c require_metadata)
