-- ===== src/Enrollment/Memory/Calls.antt =====
-- The calls of the memory store as values, in whatever order threads make them, and what every run
-- of them keeps.
use my_auth.Enrollment.Lifecycle.{IsPaired}
use my_auth.Prelude.{
  sym, ap, some, ◌≡◌, refl, Bool, false, Option, none, List, [], ◌∷◌, arith, inl, inr,
}
use my_auth.Equality.{list_eq, nat_eq}
use my_auth.Text.{Text, Bytes}
use my_auth.Int.{ℤ, Instant}
use my_auth.Result.{Result, ok, Result-cases}
use my_auth.Enrollment.{
  EnrollmentCapability, IssuedEnrollmentCapability, Reading, now_utc, validate_issue,
  validate_claim, token_hash, new_issued, is_closed,
}
use my_auth.Enrollment.Memory
use my_auth.Enrollment.Memory.{Records}
use my_auth.Enrollment.Memory.Step.{
  Step, IsWf, Step-IsWf, claim_locked-Step, consume-Step, release-Step, revoke-Step,
}

pub data Call : Type 0 where
  issue :
      (subject purpose : Text) (ttl_seconds : ℤ) (issued_by : Option Text) (reading : Reading)
      (token capability_id : Text)
      → Call
  claim : (token flow_id expected_purpose : Text) (reading : Reading) → Call
  consume : (flow_id : Text) (reading : Reading) → Call
  release : (flow_id : Text) → Call
  revoke : (capability_id : Text) (reading : Reading) → Call

pub data Reply : Type 0 where
  issued : Result IssuedEnrollmentCapability → Reply
  capability : Result EnrollmentCapability → Reply
  flag : Result Bool → Reply

-- The identifier that a call may issue.
abbrev pub issued_id : Call → Option Text
issued_id (Call.issue subject purpose ttl issued_by reading token id) = some id
issued_id _ = none

module _ (sha256 : Bytes → Bytes) where
  pub new_issued-fresh :
      (subject purpose : Text) (ttl : ℤ) (issued_by : Option Text) (now : Instant) (token id : Text)
      {i : IssuedEnrollmentCapability} {digest : Text}
      → new_issued sha256 subject purpose ttl issued_by now token id ≡ ok (i, digest)
      → (is_closed i.capability ≡ false)
        × (i.capability.claimed_flow_id ≡ none)
        × (i.capability.capability_id ≡ id)
        × IsPaired i.capability
  unfolding new_issued is_closed
  new_issued-fresh subject purpose ttl issued_by now token id h = ground arith

  unfoldable pub call : Call → Records → Records × Reply
  call (Call.issue subject purpose ttl issued_by reading token id) s =
      let (t, r) = Memory.issue sha256 subject purpose ttl issued_by reading token id s in
      (t, Reply.issued r)
  call (Call.claim token flow_id expected_purpose reading) s =
      let (t, r) = Memory.claim sha256 token flow_id expected_purpose reading s in
      (t, Reply.capability r)
  call (Call.consume flow_id reading) s =
      let (t, r) = Memory.consume flow_id reading s in (t, Reply.capability r)
  call (Call.release flow_id) s = let (t, r) = Memory.release flow_id s in (t, Reply.flag r)
  call (Call.revoke id reading) s = let (t, r) = Memory.revoke id reading s in (t, Reply.flag r)

  unfoldable pub run : List Call → Records → Records
  unfolding call
  run [] s = s
  run (c ∷ cs) s = run cs (call c s).0

  issue-Step :
      (subject purpose : Text) (ttl : ℤ) (issued_by : Option Text) (reading : Reading)
      (token id : Text) (s : Records)
      → Step (some id) s (Memory.issue sha256 subject purpose ttl issued_by reading token id s).0
  unfolding Memory.issue
  issue-Step subject purpose ttl issued_by reading token id s =
      elim (Result-cases (validate_issue subject purpose ttl issued_by)) [
        | inr (x, e) ↦ rw e (Step.same refl)
        | inl (_, e) ↦ elim (Result-cases (now_utc reading)) [
          | inr (x, f) ↦ rw (e, f) (Step.same refl)
          | inl (now, f) ↦
              elim (Result-cases (new_issued sha256 subject purpose ttl issued_by now token id)) [
                | inr (x, g) ↦ rw (e, f, g) (Step.same refl)
                | inl ((i, digest), g) ↦
                    let (unspent, unclaimed, named, pair) =
                      new_issued-fresh subject purpose ttl issued_by now token id g in
                    rw (e, f, g)
                      (Step.fresh digest i.capability (ap some (sym named)) unspent unclaimed pair
                        refl)
              ]
        ]
      ]

  claim-Step :
      (token flow_id expected_purpose : Text) (reading : Reading) (s : Records)
      → IsWf s
      → Step none s (Memory.claim sha256 token flow_id expected_purpose reading s).0
  unfolding Memory.claim
  claim-Step token flow_id expected_purpose reading s w =
      elim (Result-cases (validate_claim token flow_id expected_purpose)) [
        | inr (x, e) ↦ rw e (Step.same refl)
        | inl (_, e) ↦ elim (Result-cases (token_hash sha256 token)) [
          | inr (x, f) ↦ rw (e, f) (Step.same refl)
          | inl (digest, f) ↦ elim (Result-cases (now_utc reading)) [
            | inr (x, g) ↦ rw (e, f, g) (Step.same refl)
            | inl (now, g) ↦
                rw (e, f, g) (claim_locked-Step digest flow_id expected_purpose now s w)
          ]
        ]
      ]

  -- Every call, whatever it answers, makes one step of the store.
  pub call-Step : (c : Call) (s : Records) → IsWf s → Step (issued_id c) s (call c s).0
  unfolding call
  call-Step (Call.issue subject purpose ttl issued_by reading token id) s w =
      issue-Step subject purpose ttl issued_by reading token id s
  call-Step (Call.claim token flow_id expected_purpose reading) s w =
      claim-Step token flow_id expected_purpose reading s w
  call-Step (Call.consume flow_id reading) s w = consume-Step flow_id reading s w
  call-Step (Call.release flow_id) s w = release-Step flow_id s w
  call-Step (Call.revoke id reading) s w = revoke-Step id reading s

  pub run-IsWf : (calls : List Call) (s : Records) → IsWf s → IsWf (run calls s)
  unfolding run
  run-IsWf [] s w = w
  run-IsWf (c ∷ cs) s w =
      run-IsWf cs (call c s).0 (Step-IsWf (issued_id c) s (call c s).0 w (call-Step c s w))
