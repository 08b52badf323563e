-- ===== src/Schema/Current.antt =====
-- What a schema that is reported as current has.
use my_auth.Oidc.Scope.{member}
use my_auth.Schema.Inspect.{
  inspect_metadata, is_empty_schema, canonical_unversioned, column_names, is_conversion_error,
  legacy_columns, inspect_keyed, legacy_diagnostics, inspect_required, inspect_sqlite_schema,
  inspect_rows, inspect_legacy, current, legacy, found,
}
use my_auth.Equality.{pair_eq, list_eq, nat_eq, option_eq}
use my_auth.Equality.{list_eq, option_eq, nat_eq, list_beq_iff, ◌==◌}
use my_auth.Text.{codes, Text}
use my_auth.Int.{negsuc, pos, ℤ}
use my_auth.Schema.Inspect.{
  has_v2_challenges, found, required_tables, if_sound, is_current_state, Inspection,
  inspect_version,
}
use my_auth.Schema.{canonical_columns, Column, Catalog}
use my_auth.Schema.Layout.{
  concat, v2_layout_diagnostics, canonical_checks, enrollment_checks, has_owner_key, has_table,
  is_skipped, canonical_layout_diagnostics, has_unique_column_index, unless, column_diagnostics,
  enrollment_diagnostics,
}
use my_auth.Prelude.{
  ◌∙◌, none, ◌&&◌, inr, some, nat_beq_iff, ap, arith, inl, nat_beq, ◌||◌, Bool-cases, All, refl,
  false, all, ◌∷◌, true, [], ◌≡◌, ◌++◌, Bool, List,
}
use my_auth.Result.{err, Result, ok, ok_injective}

-- One version row, which says 3; the tables of the passkey stores are there with exactly the canonical
-- columns, and so is the enrollment table if it is there; the handles are unique, the credentials
-- reference the users, and the columns of an enrollment table that are to be unique are.
pub record IsCurrent (c : Catalog) : Type 0 where
  pub one_version : c.version_rows ≡ ok (pos 3) ∷ []
  pub required : all (has_table c) required_tables ≡ true
  pub has_metadata : has_table c (codes "my_auth_schema") ≡ true
  pub columns : All (λ e. is_skipped c true e.0 ≡ false → c.columns e.0 ≡ e.1) canonical_columns
  pub unique_handles : has_unique_column_index c "passkey_users" "user_handle" ≡ true
  pub owners : has_owner_key c ≡ true
  pub capabilities :
      has_table c (codes "passkey_enrollment_capabilities") ≡ true
      → (has_unique_column_index c "passkey_enrollment_capabilities" "token_hash" ≡ true)
        × (has_unique_column_index c "passkey_enrollment_capabilities" "claimed_flow_id" ≡ true)

append_empty {ℓ} : {A : Type ℓ} (xs ys : List A) → xs ++ ys ≡ [] → (xs ≡ []) × (ys ≡ [])
append_empty [] ys h = (refl, h)
append_empty (x ∷ xs) ys h = cc

concat_empty {ℓ} : {A : Type ℓ} (xss : List (List A)) → concat xss ≡ [] → All (λ xs. xs ≡ []) xss
unfolding concat
concat_empty [] h = tt
concat_empty (xs ∷ xss) h = let (a, b) = append_empty xs (concat xss) h in (a, concat_empty xss b)

unless_empty : (b : Bool) (m : Text) → unless b m ≡ [] → b ≡ true
unless_empty true m h = refl
unless_empty false m h = cc

column_diagnostics_sound :
    (c : Catalog) (expected : List (Text × List Column))
    → column_diagnostics c true expected ≡ []
    → All (λ e. is_skipped c true e.0 ≡ false → c.columns e.0 ≡ e.1) expected
unfolding column_diagnostics
column_diagnostics_sound c [] h = tt
column_diagnostics_sound c ((table, columns) ∷ rest) h =
    let test = is_skipped c true table || c.columns table == columns in
    let (a, b) =
      append_empty (unless test (codes "divergent columns (" ++ table ++ codes ")"))
        (column_diagnostics c true rest) h in
    let passed = unless_empty test (codes "divergent columns (" ++ table ++ codes ")") a in
    (
      λ kept. (list_beq_iff (c.columns table) columns).0 (ground arith),
      column_diagnostics_sound c rest b,
    )

enrollment_diagnostics_sound :
    (c : Catalog) (there : Bool)
    → enrollment_diagnostics c there ≡ []
    → there ≡ true
    → (has_unique_column_index c "passkey_enrollment_capabilities" "token_hash" ≡ true)
      × (has_unique_column_index c "passkey_enrollment_capabilities" "claimed_flow_id" ≡ true)
unfolding enrollment_diagnostics
enrollment_diagnostics_sound c false h e = cc
enrollment_diagnostics_sound c true h e =
    let (a, (b, (d, e))) = concat_empty (enrollment_checks c) h in
    (
      unless_empty _ (codes "missing unique index (passkey_enrollment_capabilities.token_hash)") b,
      unless_empty _
          (codes "missing unique index (passkey_enrollment_capabilities.claimed_flow_id)") d,
    )

-- The layout of a catalog without diagnostics.
module _ (c : Catalog) (one_version : c.version_rows ≡ ok (pos 3) ∷ [])
    (required : all (has_table c) required_tables ≡ true)
    (metadata : has_table c (codes "my_auth_schema") ≡ true)
    (clean : canonical_layout_diagnostics c true ≡ []) where
  clean-IsCurrent : IsCurrent c
  unfolding canonical_layout_diagnostics
  clean-IsCurrent =
      let there = has_table c (codes "passkey_enrollment_capabilities") in
      let (columns, (i, (j, (k, (l, (m, n)))))) = concat_empty (canonical_checks c true) clean in
      record {
        one_version = one_version;
        required = required;
        has_metadata = metadata;
        columns = column_diagnostics_sound c canonical_columns columns;
        unique_handles =
            unless_empty _ (codes "missing unique index (passkey_users.user_handle)") k;
        owners = unless_empty _ (codes "divergent foreign key (passkey_credentials.user_id)") m;
        capabilities = enrollment_diagnostics_sound c there l;
      }

if_sound-current :
    (ds : List Text) (i : Inspection)
    → is_current_state (if_sound ds i).state ≡ true
    → (ds ≡ []) × (is_current_state i.state ≡ true)
if_sound-current [] i h = (refl, h)
if_sound-current (d ∷ ds) i h = cc

inspect_version-current :
    (c : Catalog) (v : ℤ)
    → is_current_state (inspect_version c v).state ≡ true
    → (v ≡ pos 3) × (canonical_layout_diagnostics c true ≡ [])
unfolding inspect_version
inspect_version-current c (negsuc n) h = cc
inspect_version-current c (pos n) h = elim (Bool-cases (nat_beq n 3)) [
  | inl three ↦ (
    ap pos ((nat_beq_iff n 3).0 three),
    (if_sound-current (canonical_layout_diagnostics c true) (found current (some (pos n)) [])
        (rw three at h)).0,
  )
  | inr other ↦ elim (Bool-cases (nat_beq n 2 && has_v2_challenges c)) [
    | inl two ↦ absurd (
        ground (
          arith,
          if_sound-current (v2_layout_diagnostics c)
              (found legacy (some (pos 2)) (codes "schema v2" ∷ [])) (rw (other, two) at h),
        ))
    | inr unknown ↦ absurd (cc (rw (other, unknown) at h))
  ]
]

inspect_legacy-current : (c : Catalog) → is_current_state (inspect_legacy c).state ≡ false
unfolding inspect_legacy
inspect_legacy-current c = elim (Bool-cases (has_table c (codes "my_auth_schema"))) [
  | inl there ↦ rw there (never (legacy_diagnostics c legacy_columns) _ refl)
  | inr absent ↦ rw absent (never (legacy_diagnostics c legacy_columns) _ refl)
]
  where
    never :
        (ds : List Text) (i : Inspection)
        → is_current_state i.state ≡ false
        → is_current_state (if_sound ds i).state ≡ false
    never [] i h = h
    never (d ∷ ds) i h = refl

inspect_rows-current :
    (c : Catalog) (rows : List (Result ℤ)) (i : Inspection)
    → inspect_rows c rows ≡ ok i
    → is_current_state i.state ≡ true
    → (rows ≡ ok (pos 3) ∷ []) × (canonical_layout_diagnostics c true ≡ [])
unfolding inspect_rows
inspect_rows-current c [] i h k = absurd (ground (arith, ok_injective h))
inspect_rows-current c (ok v ∷ []) i h k =
    let (three, clean) = inspect_version-current c v (rw (ok_injective h) k) in
    (ap (λ n. ok n ∷ []) three, clean)
inspect_rows-current c (err e ∷ []) i h k = elim (Bool-cases (is_conversion_error e)) [
  | inl conversion ↦ absurd (ground (arith, ok_injective (rw conversion at h)))
  | inr other ↦ absurd (cc (rw other at h))
]
inspect_rows-current c (r ∷ q ∷ rows) i h k = absurd (ground (arith, ok_injective h))

inspect_metadata-current :
    (c : Catalog) (there : Bool) (i : Inspection)
    → inspect_metadata c there ≡ ok i
    → is_current_state i.state ≡ true
    → (there ≡ true)
      × (c.version_rows ≡ ok (pos 3) ∷ [])
      × (canonical_layout_diagnostics c true ≡ [])
unfolding inspect_metadata
inspect_metadata-current c false i h k =
    let never =
      if_sound-current (canonical_layout_diagnostics c false) (found canonical_unversioned none [])
        (ap (λ j. is_current_state j.state) (ok_injective h) ∙ k) in
    absurd (ground (arith, never.1))
inspect_metadata-current c true i h k =
    let (one, clean) = inspect_rows-current c c.version_rows i h k in (refl, one, clean)

inspect_keyed-IsCurrent :
    (c : Catalog) (i : Inspection)
    → all (has_table c) required_tables ≡ true
    → inspect_keyed c ≡ ok i
    → is_current_state i.state ≡ true
    → IsCurrent c
unfolding inspect_keyed
inspect_keyed-IsCurrent c i required h k =
    let (versioned, one, clean) =
      inspect_metadata-current c (has_table c (codes "my_auth_schema")) i h k in
    clean-IsCurrent c one required versioned clean

inspect_required-IsCurrent :
    (c : Catalog) (i : Inspection)
    → all (has_table c) required_tables ≡ true
    → inspect_required c ≡ ok i
    → is_current_state i.state ≡ true
    → IsCurrent c
unfolding inspect_required
inspect_required-IsCurrent c i required h k =
    let names = column_names c (codes "passkey_challenges") in
    elim (Bool-cases (member (codes "flow_key") names && member (codes "key") names)) [
      | inl both ↦ absurd (ground (arith, ok_injective (rw both at h)))
      | inr single ↦ elim (Bool-cases (member (codes "flow_key") names)) [
        | inl old ↦
            let e = ok_injective (rw (single, old) at h) in
            absurd (ground (arith, inspect_legacy-current c, ap (λ j. is_current_state j.state) e))
        | inr new ↦ inspect_keyed-IsCurrent c i required (rw (single, new) at h) k
      ]
    ]

-- A schema that is reported as current has one version row, which says 3, and the tables of the stores
-- with exactly the canonical columns; handles are unique, credentials reference users, and an
-- enrollment table has its canonical columns, with unique token hashes and flow identifiers.
pub inspect_sqlite_schema-IsCurrent :
    (c : Catalog) (i : Inspection)
    → inspect_sqlite_schema c ≡ ok i
    → is_current_state i.state ≡ true
    → IsCurrent c
unfolding inspect_sqlite_schema inspect_required inspect_keyed
inspect_sqlite_schema-IsCurrent c i h k = elim (Bool-cases (is_empty_schema c)) [
  | inl nothing ↦ absurd (ground (arith, ok_injective (rw nothing at h)))
  | inr something ↦ elim (Bool-cases (all (has_table c) required_tables)) [
    | inr partial ↦ absurd (ground (arith, ok_injective (rw (something, partial) at h)))
    | inl required ↦ inspect_required-IsCurrent c i required (rw (something, required) at h) k
  ]
]
