-- ===== src/Enrollment/Sqlite.antt =====
-- my_auth/enrollment.py, `SQLiteEnrollmentCapabilityStore`: each method is one SQL statement on the
-- table of sqlite_schema.py in a transaction of its own (or the caller's), so a raise leaves the
-- table as it was, also the raise for a text that cannot be bound; hashes, purposes and dates are
-- ASCII. A row is the token's hash and the record of `_capability_from_row`.
pub mod Refines
pub mod Flows
pub mod Calls
use my_auth.Result.{capability_not_found}
use my_auth.Equality.{nat_eq, list_eq, option_eq, ◌==◌}
use my_auth.Int.{ℤ, Instant}
use my_auth.Text.{Text, Bytes}
use my_auth.Prelude.{
  [], ◌∷◌, length, ltb, is_none, nat_beq, some, ◌&&◌, true, Bool, Option, none, List,
}
use my_auth.Enrollment.Memory.{Stored}
use my_auth.Enrollment.{
  EnrollmentCapability, IssuedEnrollmentCapability, Reading, now_utc, validate_issue,
  validate_claim, token_hash, new_issued,
}
use my_auth.Sql.{is_distinct, update_checked, insert_checked, coalesce}
use my_auth.Sql.Bind.{text, optional, bind}
use my_auth.Exec.{lift, pure, raise, Exec, ◌>>=◌, ◌>>◌}

abbrev pub Table : Type 0
Table = List Stored

abbrev pub id_column : Stored → Option Text
id_column row = some row.1.capability_id

abbrev pub hash_column : Stored → Option Text
hash_column row = some row.0

abbrev pub flow_column : Stored → Option Text
flow_column row = row.1.claimed_flow_id

-- The primary key and the two UNIQUE columns. The CHECK of the purpose refuses nothing: `issue` has
-- validated the purpose that it inserts, and no statement changes it.
unfoldable pub is_valid : Table → Bool
is_valid rows =
    is_distinct id_column rows && is_distinct hash_column rows && is_distinct flow_column rows

-- row = ...fetchone(); if row is None: raise
unfoldable pub one_row : List Stored → Exec Table EnrollmentCapability
one_row [] = raise capability_not_found
one_row (row ∷ rows) = pure row.1

-- cursor.rowcount == 1
abbrev pub is_one : List Stored → Bool
is_one rows = nat_beq (length rows) 1

-- consumed_at IS NULL AND revoked_at IS NULL
abbrev pub is_open : Stored → Bool
is_open row = is_none row.1.consumed_at && is_none row.1.revoked_at

-- claimed_flow_id IS NULL OR claimed_flow_id=?
abbrev pub is_free : Text → Option Text → Bool
is_free flow_id none = true
is_free flow_id (some holder) = holder == flow_id

unfoldable pub claim_where : Text → Text → Instant → Text → Stored → Bool
claim_where digest expected_purpose now flow_id row =
    row.0 == digest
    && row.1.purpose == expected_purpose
    && ltb now row.1.expires_at
    && is_open row
    && is_free flow_id row.1.claimed_flow_id

unfoldable pub claim_set : Text → Instant → Stored → Stored
claim_set flow_id now row = (
  row.0,
  record row.1 {
    claimed_flow_id = coalesce row.1.claimed_flow_id flow_id;
    claimed_at = coalesce row.1.claimed_at now;
  },
)

unfoldable pub consume_where : Text → Instant → Stored → Bool
consume_where flow_id now row =
    row.1.claimed_flow_id == some flow_id && ltb now row.1.expires_at && is_open row

unfoldable pub consume_set : Instant → Stored → Stored
consume_set now row = (row.0, record row.1 { consumed_at = some now })

unfoldable pub release_where : Text → Stored → Bool
release_where flow_id row = row.1.claimed_flow_id == some flow_id && is_open row

unfoldable pub release_set : Stored → Stored
release_set row = (row.0, record row.1 { claimed_flow_id = none; claimed_at = none })

unfoldable pub revoke_where : Text → Stored → Bool
revoke_where capability_id row = row.1.capability_id == capability_id && is_open row

unfoldable pub revoke_set : Instant → Stored → Stored
revoke_set now row = (row.0, record row.1 { revoked_at = some now })

unfoldable pub claim_update : Text → Text → Text → Instant → Exec Table EnrollmentCapability
unfolding one_row update_checked
claim_update digest flow_id expected_purpose now = do
  rows ←
      update_checked is_valid (claim_where digest expected_purpose now flow_id)
        (claim_set flow_id now)
  one_row rows

unfoldable pub consume_update : Text → Instant → Exec Table EnrollmentCapability
unfolding one_row update_checked
consume_update flow_id now = do
  rows ← update_checked is_valid (consume_where flow_id now) (consume_set now)
  one_row rows

unfoldable pub consume : Text → Reading → Exec Table EnrollmentCapability
unfolding consume_update bind
consume flow_id reading = do
  now ← lift (now_utc reading)
  lift (bind (text flow_id ∷ []))
  consume_update flow_id now

unfoldable pub release_update : Text → Exec Table Bool
unfolding update_checked
release_update flow_id = do
  rows ← update_checked is_valid (release_where flow_id) release_set
  pure (is_one rows)

unfoldable pub release : Text → Exec Table Bool
unfolding bind release_update
release flow_id = do lift (bind (text flow_id ∷ [])); release_update flow_id

unfoldable pub revoke_update : Text → Instant → Exec Table Bool
unfolding update_checked
revoke_update capability_id now = do
  rows ← update_checked is_valid (revoke_where capability_id) (revoke_set now)
  pure (is_one rows)

unfoldable pub revoke : Text → Reading → Exec Table Bool
unfolding revoke_update bind
revoke capability_id reading = do
  now ← lift (now_utc reading)
  lift (bind (text capability_id ∷ []))
  revoke_update capability_id now

module _ (sha256 : Bytes → Bytes) where
  unfoldable pub issue :
      Text → Text → ℤ → Option Text → Reading → Text → Text → Exec Table IssuedEnrollmentCapability
  unfolding insert_checked bind
  issue subject purpose ttl_seconds issued_by reading token capability_id = do
    lift (validate_issue subject purpose ttl_seconds issued_by)
    now ← lift (now_utc reading)
    issued ← lift (new_issued sha256 subject purpose ttl_seconds issued_by now token capability_id)
    lift (bind (text capability_id ∷ text subject ∷ optional issued_by ∷ []))
    insert_checked is_valid (issued.1, issued.0.capability)
    pure issued.0

  unfoldable pub claim : Text → Text → Text → Reading → Exec Table EnrollmentCapability
  unfolding claim_update bind
  claim token flow_id expected_purpose reading = do
    lift (validate_claim token flow_id expected_purpose)
    now ← lift (now_utc reading)
    digest ← lift (token_hash sha256 token)
    lift (bind (text flow_id ∷ []))
    claim_update digest flow_id expected_purpose now
