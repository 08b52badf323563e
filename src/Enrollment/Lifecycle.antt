-- ===== src/Enrollment/Lifecycle.antt =====
-- The life of one capability, apart from any store: the changes that a call may make to a record
-- of my_auth/enrollment.py. The stores are shown to make no others.
use my_auth.Equality.{list_eq, option_eq, nat_eq, list_beq_iff}
use my_auth.Prelude.{is_none, Option, ◌≡◌, false, none, some, arith}
use my_auth.Text.{Text}
use my_auth.Int.{Instant}
use my_auth.Enrollment.{held_by_other, EnrollmentCapability, is_spent, is_unclaimable, is_closed}

pub data Change (c d : EnrollmentCapability) : Type 0 where
  claimed :
      (flow_id expected_purpose : Text) (now : Instant)
      → is_unclaimable flow_id expected_purpose now c ≡ false
      → c.claimed_flow_id ≡ none
      → d ≡ record c { claimed_flow_id = some flow_id; claimed_at = some now }
      → Change c d
  consumed :
      (flow_id : Text) (now : Instant)
      → c.claimed_flow_id ≡ some flow_id
      → is_spent now c ≡ false
      → d ≡ record c { consumed_at = some now }
      → Change c d
  released :
      (flow_id : Text)
      → c.claimed_flow_id ≡ some flow_id
      → is_closed c ≡ false
      → d ≡ record c { claimed_flow_id = none; claimed_at = none }
      → Change c d
  revoked :
      (now : Instant) → is_closed c ≡ false → d ≡ record c { revoked_at = some now } → Change c d

-- A closed record never changes, and no change touches what the record was issued with.
pub Change-open : (c d : EnrollmentCapability) → Change c d → is_closed c ≡ false
unfolding is_closed is_unclaimable is_spent
Change-open c d (claimed f p t h _ _) = ground arith
Change-open c d (consumed f t _ h _) = ground arith
Change-open c d (released f _ h _) = h
Change-open c d (revoked t h _) = h

pub Change-id : (c d : EnrollmentCapability) → Change c d → d.capability_id ≡ c.capability_id
Change-id c d (claimed f p t _ _ e) = ground arith
Change-id c d (consumed f t _ _ e) = ground arith
Change-id c d (released f _ _ e) = ground arith
Change-id c d (revoked t _ e) = ground arith

-- A record that is held, and by no other flow, is held by this one.
pub held_by_self :
    (flow_id : Text) (holder : Option Text)
    → held_by_other flow_id holder ≡ false
    → is_none holder ≡ false
    → holder ≡ some flow_id
held_by_self flow_id none h k = cc
held_by_self flow_id (some g) h k = ground (arith, list_beq_iff g flow_id)

-- A record has the time of its claim exactly while a flow holds it.
abbrev pub IsPaired : EnrollmentCapability → Type 0
IsPaired c = is_none c.claimed_at ≡ is_none c.claimed_flow_id

pub Change-IsPaired : (c d : EnrollmentCapability) → Change c d → IsPaired c → IsPaired d
Change-IsPaired c d (claimed f p t _ _ e) h = ground arith
Change-IsPaired c d (consumed f t _ _ e) h = ground arith
Change-IsPaired c d (released f _ _ e) h = ground arith
Change-IsPaired c d (revoked t _ e) h = ground arith
