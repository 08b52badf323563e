-- ===== src/Enrollment/Memory/Claim.antt =====
-- What a successful `claim`, `consume` or `release` of the memory store says of the record that it
-- returns, before the call and after it.
use my_auth.Equality.{option_beq_iff, beq_self, list_beq_iff, nat_eq, option_eq, list_eq}
use my_auth.Prelude.{inl, inr, refl, none, arith, false, true, some, ◌≡◌, Option}
use my_auth.Dict.{put, find_item, get}
use my_auth.Int.{Instant}
use my_auth.Text.{Bytes, Text}
use my_auth.Enrollment.Lifecycle.{held_by_self}
use my_auth.Enrollment.Memory.Step.{IsWf}
use my_auth.Enrollment.Memory.{
  claim_locked, claim, consume_locked, has_flow, consume, consume_match, Stored, Records,
  has_digest, claim_match,
}
use my_auth.Enrollment.{
  token_hash, validate_claim, aware, now_utc, EnrollmentCapability, is_spent, is_unclaimable,
}
use my_auth.Dict.Laws.{get-put}
use my_auth.Dict.Unique.{find_item-some}
use my_auth.Result.{Result-cases, ok}

-- The record that a claim found, and the one that it returned and left in the store.
pub record Claimed (digest flow_id expected_purpose : Text) (now : Instant) (s t : Records)
    (c : EnrollmentCapability) : Type 0 where
  pub before : EnrollmentCapability
  pub found : get s c.capability_id ≡ some (digest, before)
  pub claimable : is_unclaimable flow_id expected_purpose now before ≡ false
  pub holder : c.claimed_flow_id ≡ some flow_id
  pub purpose : c.purpose ≡ expected_purpose
  pub unspent : is_spent now c ≡ false
  pub after : get t c.capability_id ≡ some (digest, c)

claim_match-Claimed :
    (digest flow_id expected_purpose : Text) (now : Instant) (s : Records)
    (found : Option (Text × Stored)) {c : EnrollmentCapability}
    → find_item (has_digest digest) s ≡ found
    → IsWf s
    → (claim_match digest flow_id expected_purpose now found s).1 ≡ ok c
    → Claimed digest flow_id expected_purpose now s
        (claim_match digest flow_id expected_purpose now found s).0
        c
unfolding claim_match is_unclaimable is_spent
claim_match-Claimed digest flow_id expected_purpose now s none e w h = cc
claim_match-Claimed digest flow_id expected_purpose now s (some (id, (g, b))) {c} e w h = record {
  before = b;
  found = ground (arith, here.0, here.1, keyed, list_beq_iff g digest);
  claimable = ground arith;
  holder = ground (arith, held_by_self flow_id b.claimed_flow_id);
  purpose = ground (arith, list_beq_iff b.purpose expected_purpose);
  unspent = ground arith;
  after = ground (
    arith,
    here.0,
    here.1,
    keyed,
    list_beq_iff g digest,
    get-put s id id (digest, c),
    beq_self id,
  );
}
  where
    here : (has_digest digest (id, (g, b)) ≡ true) × (get s id ≡ some (g, b))
    here = find_item-some (has_digest digest) s e w.unique

    keyed : b.capability_id ≡ id
    keyed = w.keyed id g b here.1

pub claim_locked-Claimed :
    (digest flow_id expected_purpose : Text) (now : Instant) (s : Records)
    {c : EnrollmentCapability}
    → IsWf s
    → (claim_locked digest flow_id expected_purpose now s).1 ≡ ok c
    → Claimed digest flow_id expected_purpose now s
        (claim_locked digest flow_id expected_purpose now s).0
        c
unfolding claim_locked
claim_locked-Claimed digest flow_id expected_purpose now s w h =
    claim_match-Claimed digest flow_id expected_purpose now s _ refl w h

-- The record that a consumption found, and the one that it returned and left in the store.
pub record Consumed (flow_id : Text) (now : Instant) (s t : Records) (c : EnrollmentCapability)
    : Type 0 where
  pub before : EnrollmentCapability
  pub digest : Text
  pub found : get s c.capability_id ≡ some (digest, before)
  pub holder : before.claimed_flow_id ≡ some flow_id
  pub unspent : is_spent now before ≡ false
  pub result : c ≡ record before { consumed_at = some now }
  pub after : t ≡ put s c.capability_id (digest, c)

consume_match-Consumed :
    (flow_id : Text) (now : Instant) (s : Records) (found : Option (Text × Stored))
    {c : EnrollmentCapability}
    → find_item (has_flow flow_id) s ≡ found
    → IsWf s
    → (consume_match now found s).1 ≡ ok c
    → Consumed flow_id now s (consume_match now found s).0 c
unfolding consume_match
consume_match-Consumed flow_id now s none e w h = cc
consume_match-Consumed flow_id now s (some (id, (g, b))) {c} e w h = record {
  before = b;
  digest = g;
  found = ground (arith, here.1, keyed);
  holder = (option_beq_iff _ _).0 here.0;
  unspent = ground arith;
  result = ground arith;
  after = ground (arith, keyed);
}
  where
    here : (has_flow flow_id (id, (g, b)) ≡ true) × (get s id ≡ some (g, b))
    here = find_item-some (has_flow flow_id) s e w.unique

    keyed : b.capability_id ≡ id
    keyed = w.keyed id g b here.1

-- A successful `consume` returns a live record that the flow had claimed, marked as consumed, and
-- the store changes at that record alone.
pub consume-Consumed :
    (flow_id : Text) (now : Instant) (s : Records) {c : EnrollmentCapability}
    → IsWf s
    → (consume flow_id (aware now) s).1 ≡ ok c
    → Consumed flow_id now s (consume flow_id (aware now) s).0 c
unfolding consume consume_locked now_utc
consume-Consumed flow_id now s w h = consume_match-Consumed flow_id now s _ refl w h

module _ (sha256 : Bytes → Bytes) where
  -- A successful call has passed its validation, and is the step under the lock.
  pub claim-locked :
      (token flow_id expected_purpose : Text) (now : Instant) (s : Records)
      {c : EnrollmentCapability}
      → (claim sha256 token flow_id expected_purpose (aware now) s).1 ≡ ok c
      → (digest : Text) × (validate_claim token flow_id expected_purpose ≡ ok tt)
        × (token_hash sha256 token ≡ ok digest)
        × (claim sha256 token flow_id expected_purpose (aware now) s
            ≡ claim_locked digest flow_id expected_purpose now s)
  unfolding claim now_utc
  claim-locked token flow_id expected_purpose now s h =
      elim (Result-cases (validate_claim token flow_id expected_purpose)) [
        | inr (x, e) ↦ absurd (ground arith)
        | inl (_, e) ↦ elim (Result-cases (token_hash sha256 token)) [
          | inr (x, f) ↦ absurd (ground arith)
          | inl (digest, f) ↦ (digest, e, f, rw (e, f))
        ]
      ]

  -- A successful `claim` has found a live record under the token's hash, of the expected purpose and
  -- held by no other flow; it returns that record held by this flow, and leaves it in the store.
  pub claim-Claimed :
      (token flow_id expected_purpose : Text) (now : Instant) (s : Records)
      {c : EnrollmentCapability}
      → IsWf s
      → (claim sha256 token flow_id expected_purpose (aware now) s).1 ≡ ok c
      → (digest : Text) × (token_hash sha256 token ≡ ok digest)
        × Claimed digest flow_id expected_purpose now s
            (claim sha256 token flow_id expected_purpose (aware now) s).0
            c
  unfolding claim_locked
  claim-Claimed token flow_id expected_purpose now s w h =
      let (digest, _, hashed, locked) = claim-locked token flow_id expected_purpose now s h in
      (
        digest,
        hashed,
        rw locked
            (claim_match-Claimed digest flow_id expected_purpose now s _ refl w (rw locked at h)),
      )
