-- ===== src/Tests/Enrollments.antt =====
-- Runs of the enrollment capability stores.
use my_auth.Sql.Bind.{text, CanBind}
use my_auth.Sql.{is_distinct}
use my_auth.Prelude.{All, ap, ◌≤◌, ◌≡◌, refl, true, none, some, [], ◌∷◌, any, if◌then◌else◌}
use my_auth.Equality.{list_eq, nat_eq, list_beq, option_beq}
use my_auth.Text.{Text, Bytes, codes, strip}
use my_auth.Int.{pos, add_seconds}
use my_auth.Encoding.{utf8, hex}
use my_auth.Result.{ok, err, capability_not_found}
use my_auth.Dict.{get, put, find_item, values}
use my_auth.Enrollment.{
  EnrollmentCapability, aware, invitation, now_utc, validate_issue, validate_claim, token_hash,
  new_issued, is_spent, is_unclaimable, is_closed,
}
use my_auth.Enrollment.Memory
use my_auth.Enrollment.Memory.{Records}
use my_auth.Enrollment.Memory.Step.{IsWf}
use my_auth.Enrollment.Memory.Calls.{Call, call, run, run-IsWf}
use my_auth.Enrollment.Memory.Claim.{Claimed, claim-Claimed}
use my_auth.Enrollment.Memory.Once.{IsFinal, consumptions, consumed_once, run-IsFinal}
use my_auth.Enrollment.Memory.Exclusive.{claim-claim}
use my_auth.Enrollment.Sqlite.{is_valid}
use my_auth.Enrollment.Sqlite.Calls.{
  sqlite_call, refusal, sqlite_run, replies, call-refines, run-refines,
}

-- A stand-in for SHA-256.
abbrev sha : Bytes → Bytes
sha b = b

abbrev issuing : Call
issuing = Call.issue (codes "bob") invitation (pos 60) none (aware 1000) (codes "tok") (codes "id1")

abbrev claiming : Call
claiming = Call.claim (codes "tok") (codes "f") invitation (aware 2000)

abbrev consuming : Call
consuming = Call.consume (codes "f") (aware 3000)

-- b"my-auth:enrollment-capability:v1\0tok", in hexadecimal, as `sha` leaves it.
abbrev digest : Text
digest = codes "6d792d617574683a656e726f6c6c6d656e742d6361706162696c6974793a763100746f6b"

abbrev bob : EnrollmentCapability
bob = record {
  capability_id = codes "id1";
  purpose = invitation;
  subject = codes "bob";
  expires_at = 60001000;
  issued_by = none;
  claimed_flow_id = none;
  claimed_at = none;
  consumed_at = none;
  revoked_at = none;
}

abbrev held : EnrollmentCapability
held = record bob { claimed_flow_id = some (codes "f"); claimed_at = some 2000 }

abbrev used : EnrollmentCapability
used = record held { consumed_at = some 3000 }

abbrev one : EnrollmentCapability → Records
one c = (codes "id1", (digest, c)) ∷ []

program : Unit {0}
unfolding run call Memory.issue Memory.claim Memory.consume validate_issue validate_claim strip
    token_hash new_issued utf8 hex add_seconds now_utc get put find_item is_spent is_unclaimable
    is_closed list_beq option_beq
program = tt

issued : run sha (issuing ∷ []) [] ≡ one bob
unfolding program
issued = refl

IsWf-empty : IsWf []
unfolding get
IsWf-empty = record { unique = tt; keyed = λ i g c h. cc; paired = λ i g c h. cc }

IsWf-bob : IsWf (one bob)
IsWf-bob = rw issued at (run-IsWf sha (issuing ∷ []) [] IsWf-empty)

consumed_once_example :
    consumptions sha (codes "id1") (claiming ∷ consuming ∷ consuming ∷ []) (one bob) ≤ 1
consumed_once_example =
    consumed_once sha (claiming ∷ consuming ∷ consuming ∷ []) (codes "id1") (one bob)
      (λ e. cc, (λ e. cc, (λ e. cc, tt))) IsWf-bob

IsWf-held : IsWf (one held)
unfolding program
IsWf-held = run-IsWf sha (claiming ∷ []) (one bob) IsWf-bob

IsWf-used : IsWf (one used)
unfolding program
IsWf-used = run-IsWf sha (consuming ∷ []) (one held) IsWf-held

used-IsFinal : IsFinal (codes "id1") digest used (one used)
unfolding program
used-IsFinal = record { wf = IsWf-used; stored = refl; closed = refl }

run-IsFinal_example : IsFinal (codes "id1") digest used (
    run sha
      (claiming ∷ Call.release (codes "f") ∷ Call.revoke (codes "id1") (aware 1) ∷ [])
      (one used))
run-IsFinal_example =
    run-IsFinal sha (claiming ∷ Call.release (codes "f") ∷ Call.revoke (codes "id1") (aware 1) ∷ [])
      (codes "id1") digest used (one used) (λ e. cc, (λ e. cc, (λ e. cc, tt))) used-IsFinal

claimed :
    Memory.claim sha (codes "tok") (codes "f") invitation (aware 2000) (one bob)
    ≡ (one held, ok held)
unfolding program
claimed = refl

claim-Claimed_example :
    (d : Text) × (token_hash sha (codes "tok") ≡ ok d)
    × Claimed d
        (codes "f")
        invitation
        2000
        (one bob)
        (Memory.claim sha (codes "tok") (codes "f") invitation (aware 2000) (one bob)).0
        held
claim-Claimed_example =
    claim-Claimed sha (codes "tok") (codes "f") invitation 2000 (one bob) IsWf-bob
      (ap (λ p. p.1) claimed)

-- Another flow is refused, and the records stay.
claim-claim_example :
    let t = (Memory.claim sha (codes "tok") (codes "f") invitation (aware 2000) (one bob)).0 in
    Memory.claim sha (codes "tok") (codes "g") invitation (aware 2500) t
    ≡ (t, err capability_not_found)
unfolding program
claim-claim_example =
    claim-claim sha (codes "tok") (codes "f") invitation (codes "g") invitation 2000 2500 (one bob)
      IsWf-bob (ap (λ p. p.1) claimed) refl

bob-valid : is_valid (values (one bob)) ≡ true
unfolding is_valid is_distinct any
bob-valid = refl

flow_encodable : All CanBind (text (codes "f") ∷ [])
unfolding utf8
flow_encodable = (refl, tt)

call-refines_example : sqlite_call sha claiming (values (one bob)) ≡ (
    if is_valid (values (call sha claiming (one bob)).0)
    then (values (call sha claiming (one bob)).0, (call sha claiming (one bob)).1)
    else (values (one bob), refusal claiming))
call-refines_example = call-refines sha claiming (one bob) flow_encodable IsWf-bob bob-valid tt

run-refines_example : sqlite_run sha (claiming ∷ consuming ∷ []) (values (one bob)) ≡ (
  values (run sha (claiming ∷ consuming ∷ []) (one bob)),
  replies sha (claiming ∷ consuming ∷ []) (one bob),
)
unfolding program is_valid is_distinct any
run-refines_example =
    run-refines sha (claiming ∷ consuming ∷ []) (one bob) (flow_encodable, (flow_encodable, tt))
      IsWf-bob bob-valid (tt, refl, (tt, refl, tt))
