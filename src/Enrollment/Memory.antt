-- ===== src/Enrollment/Memory.antt =====
-- my_auth/enrollment.py, `MemoryEnrollmentCapabilityStore`. A method runs under the store's lock,
-- so it is one step on `_records`; what is written before a raise stays.
pub mod Step
pub mod Calls
pub mod Claim
pub mod Once
pub mod Exclusive
use my_auth.Prelude.{Bool, true, false, Option, none, some, [], is_none, if◌then◌else◌}
use my_auth.Equality.{◌==◌, list_eq, nat_eq, option_eq}
use my_auth.Text.{Text, Bytes}
use my_auth.Int.{ℤ, Instant}
use my_auth.Result.{Result, ok, err, capability_not_found}
use my_auth.Exec.{Exec, pure, raise, lift, modify, ◌>>=◌, ◌>>◌}
use my_auth.Dict.{Dict, get, put, find_item}
use my_auth.Enrollment.{
  EnrollmentCapability, IssuedEnrollmentCapability, Reading, now_utc, validate_issue,
  validate_claim, token_hash, new_issued, is_spent, is_unclaimable, is_closed,
}

-- (token_hash, capability)
abbrev pub Stored : Type 0
Stored = Text × EnrollmentCapability

abbrev pub Records : Type 0
Records = Dict Text Stored

abbrev pub empty : Records
empty = []

abbrev pub has_digest : Text → Text × Stored → Bool
has_digest digest item = item.1.0 == digest

abbrev pub has_flow : Text → Text × Stored → Bool
has_flow flow_id item = item.1.1.claimed_flow_id == some flow_id

-- The part of `claim` under the lock, from `match` on.
unfoldable pub claim_match :
    Text → Text → Text → Instant → Option (Text × Stored) → Exec Records EnrollmentCapability
claim_match digest flow_id expected_purpose now none = raise capability_not_found
claim_match digest flow_id expected_purpose now (some (capability_id, (_, c))) =
    let claimed = record c { claimed_flow_id = some flow_id; claimed_at = some now } in
    if is_unclaimable flow_id expected_purpose now c
    then raise capability_not_found
    else if is_none c.claimed_flow_id
    then (do modify (λ s. put s capability_id (digest, claimed)); pure claimed)
    else pure c

unfoldable pub claim_locked : Text → Text → Text → Instant → Exec Records EnrollmentCapability
unfolding claim_match
claim_locked digest flow_id expected_purpose now s =
    claim_match digest flow_id expected_purpose now (find_item (has_digest digest) s) s

unfoldable pub consume_match : Instant → Option (Text × Stored) → Exec Records EnrollmentCapability
consume_match now none = raise capability_not_found
consume_match now (some (capability_id, (digest, c))) =
    let consumed = record c { consumed_at = some now } in
    if is_spent now c
    then raise capability_not_found
    else do modify (λ s. put s capability_id (digest, consumed)); pure consumed

unfoldable pub consume_locked : Text → Instant → Exec Records EnrollmentCapability
unfolding consume_match
consume_locked flow_id now s = consume_match now (find_item (has_flow flow_id) s) s

unfoldable pub release_match : Option (Text × Stored) → Exec Records Bool
release_match none = pure false
release_match (some (capability_id, (digest, c))) =
    let released = record c { claimed_flow_id = none; claimed_at = none } in
    if is_closed c
    then pure false
    else do modify (λ s. put s capability_id (digest, released)); pure true

unfoldable pub revoke_stored : Text → Instant → Option Stored → Exec Records Bool
revoke_stored capability_id now none = pure false
revoke_stored capability_id now (some (digest, c)) = if is_closed c then pure false else do
  modify (λ s. put s capability_id (digest, record c { revoked_at = some now }))
  pure true

unfoldable pub consume : Text → Reading → Exec Records EnrollmentCapability
unfolding consume_locked
consume flow_id reading = do now ← lift (now_utc reading); consume_locked flow_id now

unfoldable pub release : Text → Exec Records Bool
unfolding release_match
release flow_id s = release_match (find_item (has_flow flow_id) s) s

unfoldable pub revoke : Text → Reading → Exec Records Bool
unfolding revoke_stored
revoke capability_id reading = do
  now ← lift (now_utc reading)
  λ s. revoke_stored capability_id now (get s capability_id) s

module _ (sha256 : Bytes → Bytes) where
  unfoldable pub issue :
      Text
      → Text
      → ℤ
      → Option Text
      → Reading
      → Text
      → Text
      → Exec Records IssuedEnrollmentCapability
  issue subject purpose ttl_seconds issued_by reading token capability_id = do
    lift (validate_issue subject purpose ttl_seconds issued_by)
    now ← lift (now_utc reading)
    issued ← lift (new_issued sha256 subject purpose ttl_seconds issued_by now token capability_id)
    modify (λ s. put s issued.0.capability.capability_id (issued.1, issued.0.capability))
    pure issued.0

  unfoldable pub claim : Text → Text → Text → Reading → Exec Records EnrollmentCapability
  unfolding claim_locked
  claim token flow_id expected_purpose reading = do
    lift (validate_claim token flow_id expected_purpose)
    digest ← lift (token_hash sha256 token)
    now ← lift (now_utc reading)
    claim_locked digest flow_id expected_purpose now
