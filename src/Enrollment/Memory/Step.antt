-- ===== src/Enrollment/Memory/Step.antt =====
-- Every call of the memory store makes at most one change of one record, and keeps the store well
-- formed.
use my_auth.Prelude.{
  ◌∙◌, ◌≡◌, refl, true, false, Option, none, some, arith, is_none, is_none→none, Bool-cases, inl,
  inr,
}
use my_auth.Equality.{list_eq, nat_eq, option_eq, list_beq_iff, option_beq_iff}
use my_auth.Text.{Text}
use my_auth.Int.{Instant}
use my_auth.Result.{Result-cases}
use my_auth.Dict.{get, put, find_item}
use my_auth.Dict.Laws.{get-put}
use my_auth.Dict.Unique.{IsUnique, put-IsUnique, find_item-some}
use my_auth.Enrollment.{EnrollmentCapability, Reading, now_utc, is_spent, is_unclaimable, is_closed}
use my_auth.Enrollment.Lifecycle.{Change-IsPaired, IsPaired, Change, Change-id}
use my_auth.Enrollment.Memory.{
  claim_locked, Stored, Records, has_digest, has_flow, claim_match, consume_match, consume_locked,
  release_match, revoke_stored, consume, release, revoke,
}

-- A step of the store. A fresh record has never been claimed, and stands under the identifier that
-- the call was to issue.
pub data Step (issues : Option Text) (s t : Records) : Type 0 where
  same : t ≡ s → Step issues s t
  change :
      (id digest : Text) (c d : EnrollmentCapability)
      → get s id ≡ some (digest, c)
      → Change c d
      → t ≡ put s id (digest, d)
      → Step issues s t
  fresh :
      (digest : Text) (c : EnrollmentCapability)
      → issues ≡ some c.capability_id
      → is_closed c ≡ false
      → c.claimed_flow_id ≡ none
      → IsPaired c
      → t ≡ put s c.capability_id (digest, c)
      → Step issues s t

pub record IsWf (s : Records) : Type 0 where
  pub unique : IsUnique s
  pub keyed :
      (id digest : Text) (c : EnrollmentCapability)
      → get s id ≡ some (digest, c)
      → c.capability_id ≡ id
  pub paired :
      (id digest : Text) (c : EnrollmentCapability) → get s id ≡ some (digest, c) → IsPaired c

-- A write under a record's own identifier keeps the store well formed.
put-IsWf :
    (s : Records) (id digest : Text) (d : EnrollmentCapability)
    → IsWf s
    → d.capability_id ≡ id
    → IsPaired d
    → IsWf (put s id (digest, d))
put-IsWf s id digest d w named pair = record {
  unique = put-IsUnique s id (digest, d) w.unique;
  keyed = λ j g x. ground (arith, get-put s id j (digest, d), list_beq_iff id j, w.keyed j g x);
  paired = λ j g x. ground (arith, get-put s id j (digest, d), list_beq_iff id j, w.paired j g x);
}

pub Step-IsWf : (issues : Option Text) (s t : Records) → IsWf s → Step issues s t → IsWf t
Step-IsWf issues s t w (same e) = rw e w
Step-IsWf issues s t w (change id digest c d found ch e) = rw e (
    put-IsWf s id digest d w (Change-id c d ch ∙ w.keyed id digest c found)
      (Change-IsPaired c d ch (w.paired id digest c found)))
Step-IsWf issues s t w (fresh digest c named unspent unclaimed pair e) =
    rw e (put-IsWf s c.capability_id digest c w refl pair)

claim_match-Step :
    (digest flow_id expected_purpose : Text) (now : Instant) (s : Records)
    (found : Option (Text × Stored))
    → find_item (has_digest digest) s ≡ found
    → IsWf s
    → Step none s (claim_match digest flow_id expected_purpose now found s).0
unfolding claim_match
claim_match-Step digest flow_id expected_purpose now s none e w = Step.same refl
claim_match-Step digest flow_id expected_purpose now s (some (id, (h, c))) e w =
    elim (Bool-cases (is_unclaimable flow_id expected_purpose now c)) [
      | inl bad ↦ rw bad (Step.same refl)
      | inr good ↦ elim (Bool-cases (is_none c.claimed_flow_id)) [
        | inl free ↦
            rw (good, free)
              (Step.change id digest c _ (ground (arith, list_beq_iff h digest, here))
                (Change.claimed flow_id expected_purpose now good (is_none→none _ free) refl) refl)
        | inr held ↦ rw (good, held) (Step.same refl)
      ]
    ]
  where
    here : (has_digest digest (id, (h, c)) ≡ true) × (get s id ≡ some (h, c))
    here = find_item-some (has_digest digest) s e w.unique

consume_match-Step :
    (flow_id : Text) (now : Instant) (s : Records) (found : Option (Text × Stored))
    → find_item (has_flow flow_id) s ≡ found
    → IsWf s
    → Step none s (consume_match now found s).0
unfolding consume_match
consume_match-Step flow_id now s none e w = Step.same refl
consume_match-Step flow_id now s (some (id, (h, c))) e w = elim (Bool-cases (is_spent now c)) [
  | inl bad ↦ rw bad (Step.same refl)
  | inr good ↦ rw good (
      Step.change id h c _ here.1
        (Change.consumed flow_id now ((option_beq_iff _ _).0 here.0) good refl) refl)
]
  where
    here : (has_flow flow_id (id, (h, c)) ≡ true) × (get s id ≡ some (h, c))
    here = find_item-some (has_flow flow_id) s e w.unique

release_match-Step :
    (flow_id : Text) (s : Records) (found : Option (Text × Stored))
    → find_item (has_flow flow_id) s ≡ found
    → IsWf s
    → Step none s (release_match found s).0
unfolding release_match
release_match-Step flow_id s none e w = Step.same refl
release_match-Step flow_id s (some (id, (h, c))) e w = elim (Bool-cases (is_closed c)) [
  | inl bad ↦ rw bad (Step.same refl)
  | inr good ↦ rw good (
      Step.change id h c _ here.1
        (Change.released flow_id ((option_beq_iff _ _).0 here.0) good refl) refl)
]
  where
    here : (has_flow flow_id (id, (h, c)) ≡ true) × (get s id ≡ some (h, c))
    here = find_item-some (has_flow flow_id) s e w.unique

revoke_stored-Step :
    (id : Text) (now : Instant) (s : Records) (found : Option Stored)
    → get s id ≡ found
    → Step none s (revoke_stored id now found s).0
unfolding revoke_stored
revoke_stored-Step id now s none e = Step.same refl
revoke_stored-Step id now s (some (h, c)) e = elim (Bool-cases (is_closed c)) [
  | inl bad ↦ rw bad (Step.same refl)
  | inr good ↦ rw good (Step.change id h c _ e (Change.revoked now good refl) refl)
]

pub consume-Step :
    (flow_id : Text) (reading : Reading) (s : Records)
    → IsWf s
    → Step none s (consume flow_id reading s).0
unfolding consume consume_locked
consume-Step flow_id reading s w = elim (Result-cases (now_utc reading)) [
  | inl (now, e) ↦ rw e (consume_match-Step flow_id now s _ refl w)
  | inr (x, e) ↦ rw e (Step.same refl)
]

pub release-Step : (flow_id : Text) (s : Records) → IsWf s → Step none s (release flow_id s).0
unfolding release
release-Step flow_id s w = release_match-Step flow_id s _ refl w

pub revoke-Step :
    (id : Text) (reading : Reading) (s : Records) → Step none s (revoke id reading s).0
unfolding revoke
revoke-Step id reading s = elim (Result-cases (now_utc reading)) [
  | inl (now, e) ↦ rw e (revoke_stored-Step id now s _ refl)
  | inr (x, e) ↦ rw e (Step.same refl)
]

pub claim_locked-Step :
    (digest flow_id expected_purpose : Text) (now : Instant) (s : Records)
    → IsWf s
    → Step none s (claim_locked digest flow_id expected_purpose now s).0
unfolding claim_locked
claim_locked-Step digest flow_id expected_purpose now s w =
    claim_match-Step digest flow_id expected_purpose now s _ refl w
