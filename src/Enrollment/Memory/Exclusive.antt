-- ===== src/Enrollment/Memory/Exclusive.antt =====
-- What later calls answer once a flow has claimed a capability of the memory store.
use my_auth.Equality.{beq_sym, nat_eq, option_eq, list_eq, beq_self, list_beq_iff, ◌==◌}
use my_auth.Result.{capability_not_found, err, ok}
use my_auth.Dict.{get, find_item}
use my_auth.Prelude.{
  none, not, arith, ◌&&◌, false, true, refl, if◌then◌else◌, is_none, some, Option, ◌≡◌,
}
use my_auth.Int.{Instant}
use my_auth.Text.{Bytes, Text}
use my_auth.Enrollment.Memory.{Stored, Records, has_digest, claim_match, claim_locked, claim}
use my_auth.Enrollment.Memory.Step.{IsWf}
use my_auth.Enrollment.{
  is_spent, now_utc, EnrollmentCapability, aware, validate_claim, token_hash, is_unclaimable,
}
use my_auth.Dict.Unique.{find_item-some, find_item-put}
use my_auth.Enrollment.Memory.Claim.{Claimed, claim_locked-Claimed, claim-locked}

module _ (digest flow_id expected_purpose : Text) (now : Instant) (s : Records) (w : IsWf s)
    {c : EnrollmentCapability} where
  claim_match-finds :
      (found : Option (Text × Stored))
      → find_item (has_digest digest) s ≡ found
      → (claim_match digest flow_id expected_purpose now found s).1 ≡ ok c
      → find_item (has_digest digest) (claim_match digest flow_id expected_purpose now found s).0
        ≡ some (c.capability_id, (digest, c))
  unfolding claim_match
  claim_match-finds none e h = cc
  claim_match-finds (some (id, (g, b))) e h = ground (
    arith,
    here.0,
    keyed,
    list_beq_iff g digest,
    beq_self digest,
    find_item-put (has_digest digest) s id (g, b) (digest, c) e w.unique,
  )
    where
      here : (has_digest digest (id, (g, b)) ≡ true) × (get s id ≡ some (g, b))
      here = find_item-some (has_digest digest) s e w.unique

      keyed : b.capability_id ≡ id
      keyed = w.keyed id g b here.1

  -- The token's record, as the claim left it, is what a later search by the same hash finds.
  claim_locked-finds :
      (claim_locked digest flow_id expected_purpose now s).1 ≡ ok c
      → find_item (has_digest digest) (claim_locked digest flow_id expected_purpose now s).0
        ≡ some (c.capability_id, (digest, c))
  unfolding claim_locked
  claim_locked-finds h = claim_match-finds _ refl h

-- A search that finds a record held by this flow decides the next claim.
claim_locked-found :
    (digest g p : Text) (later : Instant) (t : Records) (c : EnrollmentCapability)
    → find_item (has_digest digest) t ≡ some (c.capability_id, (digest, c))
    → is_none c.claimed_flow_id ≡ false
    → claim_locked digest g p later t
      ≡ (if is_unclaimable g p later c then (t, err capability_not_found) else (t, ok c))
unfolding claim_locked claim_match
claim_locked-found digest g p later t c found held = rw (found, held) (ground arith)

claim_by :
    (flow_id expected_purpose g p : Text) (later : Instant) (c : EnrollmentCapability)
    → c.claimed_flow_id ≡ some flow_id
    → c.purpose ≡ expected_purpose
    → is_unclaimable g p later c
      ≡ not (g == flow_id && p == expected_purpose && not (is_spent later c))
unfolding is_unclaimable
claim_by flow_id expected_purpose g p later c held purpose =
    rw (held, purpose) (ground (arith, beq_sym flow_id g, beq_sym expected_purpose p))

module _ (sha256 : Bytes → Bytes) where
  claim-run :
      (token digest g p : Text) (later : Instant) (t : Records)
      → validate_claim token g p ≡ ok tt
      → token_hash sha256 token ≡ ok digest
      → claim sha256 token g p (aware later) t ≡ claim_locked digest g p later t
  unfolding claim now_utc
  claim-run token digest g p later t valid hashed = rw (valid, hashed)

  -- After a flow has claimed a token, a later claim of the token is answered from the record that the
  -- first one returned, and never changes the store: the same flow gets that record again as long as
  -- it is live and of the expected purpose, and everyone else is refused.
  pub claim-claim :
      (token flow_id expected_purpose g p : Text) (now later : Instant) (s : Records)
      {c : EnrollmentCapability}
      → IsWf s
      → (claim sha256 token flow_id expected_purpose (aware now) s).1 ≡ ok c
      → validate_claim token g p ≡ ok tt
      → let t = (claim sha256 token flow_id expected_purpose (aware now) s).0 in
        claim sha256 token g p (aware later) t ≡ (
          t,
          (if g == flow_id && p == expected_purpose && not (is_spent later c)
              then ok c
              else err capability_not_found),
        )
  claim-claim token flow_id expected_purpose g p now later s {c} w h valid =
      let (digest, _, hashed, locked) =
        claim-locked sha256 token flow_id expected_purpose now s h in
      let t = (claim_locked digest flow_id expected_purpose now s).0 in
      let k : Claimed digest flow_id expected_purpose now s t c =
        claim_locked-Claimed digest flow_id expected_purpose now s w (rw locked at h) in
      rw (claim-run token digest g p later _ valid hashed, locked)
        (rw
          (
            claim_locked-found digest g p later t c
                (claim_locked-finds digest flow_id expected_purpose now s w (rw locked at h))
                (rw k.holder refl),
            claim_by flow_id expected_purpose g p later c k.holder k.purpose,
          )
          (ground arith))
