-- ===== src/Enrollment/Sqlite/Calls.antt =====
-- The calls of the SQLite store, and the refinement for single calls and for runs.
use my_auth.Sql.Bind.{optional, bind-CanBind, CanBind, Value, IsEncodable}
use my_auth.Enrollment.Sqlite.Flows.{release_match-refines, consume_match-refines}
use my_auth.Dict.Laws.{values-put-new}
use my_auth.Dict.Unique.{entry_of, find_item-key}
use my_auth.Sql.Single.{
  update_checked-found, update_checked-missed, on_value, distinct-count, update_checked-none,
}
use my_auth.Enrollment.Sqlite.Refines.{claim_match-refines, committed}
use my_auth.Enrollment.Memory.Step.{Step-IsWf, IsWf}
use my_auth.Dict.{find_item, values, get}
use my_auth.Enrollment.{
  now_utc-error, token_hash-error, token_hash, new_issued, validate_claim, validate_issue,
  EnrollmentCapability, is_closed, now_utc, Reading,
}
use my_auth.Equality.{list_beq_iff, list_eq, nat_eq, ◌==◌, option_eq, option_beq}
use my_auth.Int.{ℤ, Instant}
use my_auth.Prelude.{
  All, [], ◌∷◌, if◌then◌else◌, List, Bool-cases, refl, inl, ap, inr, ◌∙◌, not, arith, ◌≤◌, ◌&&◌,
  count_if, true, none, ◌≡◌, some, Option,
}
use my_auth.Result.{Result-cases, integrity_error, err}
use my_auth.Text.{Text, Bytes}
use my_auth.Enrollment.Memory
use my_auth.Enrollment.Memory.{consume_locked, revoke_stored, claim_locked, Records, Stored}
use my_auth.Enrollment.Memory.Calls.{call-Step, new_issued-fresh, Call, Reply, issued_id, call, run}
use my_auth.Enrollment.Sqlite
use my_auth.Enrollment.Sqlite.{
  text, id_column, revoke_set, revoke_where, revoke_update, Table, is_valid,
}
use my_auth.Sql.{insert_checked}

module _ (id : Text) (now : Instant) where
  revoke_narrows : (v : Stored) → revoke_where id v ≡ true → (v.1.capability_id == id) ≡ true
  unfolding revoke_where
  revoke_narrows v h = ground arith

  revoke_test :
      (g : Text) (c : EnrollmentCapability)
      → revoke_where id (g, c) ≡ (c.capability_id == id && not (is_closed c))
  unfolding revoke_where is_closed
  revoke_test g c = ground arith

  one_id :
      (s : Records)
      → is_valid (values s) ≡ true
      → count_if (λ v. v.1.capability_id == id) (values s) ≤ 1
  unfolding is_valid option_beq
  one_id s h = distinct-count id_column id (values s) (ground arith)

  revoke_stored-refines :
      (s : Records) (found : Option Stored)
      → get s id ≡ found
      → IsWf s
      → is_valid (values s) ≡ true
      → revoke_update id now (values s) ≡ committed s (revoke_stored id now found s)
  unfolding revoke_update revoke_stored revoke_set
  revoke_stored-refines s none e w ok_before =
      rw
        (
          update_checked-none is_valid (revoke_where id) (λ v. v.1.capability_id == id)
              (revoke_set now) s revoke_narrows
              (find_item-key (λ v. v.1.capability_id) s id w.unique (λ j v g. w.keyed j v.0 v.1 g)
                ∙ ap (entry_of id) e)
              ok_before,
          ok_before,
        )
        refl
  revoke_stored-refines s (some (g, c)) e w ok_before = elim (Bool-cases (is_closed c)) [
    | inl bad ↦
        rw
          (
            update_checked-missed is_valid (revoke_where id) (λ v. v.1.capability_id == id)
                (revoke_set now) s id (g, c) revoke_narrows found (one_id s ok_before)
                (ground (arith, revoke_test g c)) ok_before,
            bad,
            ok_before,
          )
          refl
    | inr good ↦
        rw
          (
            update_checked-found is_valid (revoke_where id) (λ v. v.1.capability_id == id)
                (revoke_set now) s id (g, c) revoke_narrows found (one_id s ok_before) w.unique
                (ground
                  (arith, revoke_test g c, list_beq_iff c.capability_id id, w.keyed id g c e)),
            good,
          )
          (ground arith)
  ]
    where
      found : find_item (on_value (λ v. v.1.capability_id == id)) s ≡ some (id, (g, c))
      found =
          find_item-key (λ v. v.1.capability_id) s id w.unique (λ j v g. w.keyed j v.0 v.1 g)
          ∙ ap (entry_of id) e

-- The answer to a call that the table's constraints refuse.
unfoldable pub refusal : Call → Reply
refusal (Call.issue subject purpose ttl issued_by reading token id) =
    Reply.issued (err integrity_error)
refusal (Call.claim token flow_id expected_purpose reading) = Reply.capability (err integrity_error)
refusal (Call.consume flow_id reading) = Reply.capability (err integrity_error)
refusal (Call.release flow_id) = Reply.flag (err integrity_error)
refusal (Call.revoke id reading) = Reply.flag (err integrity_error)

-- The texts that a call binds: none has a lone surrogate.
abbrev pub parameters : Call → List Value
parameters (Call.issue subject purpose ttl issued_by reading token id) =
    text id ∷ text subject ∷ optional issued_by ∷ []
parameters (Call.claim token flow_id expected_purpose reading) = text flow_id ∷ []
parameters (Call.consume flow_id reading) = text flow_id ∷ []
parameters (Call.release flow_id) = text flow_id ∷ []
parameters (Call.revoke id reading) = text id ∷ []

-- The identifier that the call may issue is not in use.
abbrev pub IsFresh : Option Text → Records → Type 0
IsFresh none s = Unit
IsFresh (some id) s = get s id ≡ none

module _ (sha256 : Bytes → Bytes) where
  unfoldable pub sqlite_call : Call → Table → Table × Reply
  sqlite_call (Call.issue subject purpose ttl issued_by reading token id) s =
      let (t, r) = Sqlite.issue sha256 subject purpose ttl issued_by reading token id s in
      (t, Reply.issued r)
  sqlite_call (Call.claim token flow_id expected_purpose reading) s =
      let (t, r) = Sqlite.claim sha256 token flow_id expected_purpose reading s in
      (t, Reply.capability r)
  sqlite_call (Call.consume flow_id reading) s =
      let (t, r) = Sqlite.consume flow_id reading s in (t, Reply.capability r)
  sqlite_call (Call.release flow_id) s = let (t, r) = Sqlite.release flow_id s in (t, Reply.flag r)
  sqlite_call (Call.revoke id reading) s =
      let (t, r) = Sqlite.revoke id reading s in (t, Reply.flag r)

  issue-refines :
      (subject purpose : Text) (ttl : ℤ) (issued_by : Option Text) (reading : Reading)
      (token id : Text) (s : Records)
      → All CanBind (text id ∷ text subject ∷ optional issued_by ∷ [])
      → get s id ≡ none
      → is_valid (values s) ≡ true
      → Sqlite.issue sha256 subject purpose ttl issued_by reading token id (values s)
        ≡ committed s (Memory.issue sha256 subject purpose ttl issued_by reading token id s)
  unfolding Sqlite.issue Memory.issue
  issue-refines subject purpose ttl issued_by reading token id s can new ok_before =
      elim (Result-cases (validate_issue subject purpose ttl issued_by)) [
        | inr (x, e) ↦ rw (e, ok_before) refl
        | inl (_, e) ↦ elim (Result-cases (now_utc reading)) [
          | inr (x, f) ↦ rw (e, f, ok_before) refl
          | inl (now, f) ↦
              elim (Result-cases (new_issued sha256 subject purpose ttl issued_by now token id)) [
                | inr (x, g) ↦ rw (e, f, g, ok_before) refl
                | inl ((i, digest), g) ↦
                    let (_, _, named, _) =
                      new_issued-fresh sha256 subject purpose ttl issued_by now token id g in
                    let could =
                      bind-CanBind (text id ∷ text subject ∷ optional issued_by ∷ []) can in
                    let appended =
                      values-put-new s i.capability.capability_id (digest, i.capability)
                        (rw (← named) at new) in
                    rw (e, f, g, could, insert_checked, appended) (ground arith)
              ]
        ]
      ]

  claim-refines :
      (token flow_id expected_purpose : Text) (reading : Reading) (s : Records)
      → IsEncodable flow_id
      → IsWf s
      → is_valid (values s) ≡ true
      → Sqlite.claim sha256 token flow_id expected_purpose reading (values s)
        ≡ committed s (Memory.claim sha256 token flow_id expected_purpose reading s)
  unfolding Sqlite.claim Memory.claim claim_locked now_utc
  claim-refines token flow_id expected_purpose reading s can w ok_before =
      elim (Result-cases (validate_claim token flow_id expected_purpose)) [
        | inr (x, e) ↦ rw (e, ok_before) refl
        | inl (_, e) ↦ elim (Result-cases (token_hash sha256 token)) [
          | inr (x, f) ↦ elim (Result-cases (now_utc reading)) [
            | inr (y, g) ↦
                rw (e, f, g, ok_before, token_hash-error sha256 token f, now_utc-error reading g)
                  refl
            | inl (now, g) ↦ rw (e, f, g, ok_before) refl
          ]
          | inl (digest, f) ↦ elim (Result-cases (now_utc reading)) [
            | inr (x, g) ↦ rw (e, f, g, ok_before) refl
            | inl (now, g) ↦
                rw (e, f, g, bind-CanBind (text flow_id ∷ []) (can, tt))
                  (claim_match-refines digest flow_id expected_purpose now s _ refl w ok_before)
          ]
        ]
      ]

  -- A call whose texts have no lone surrogate, on the same well-formed records: the SQLite store leaves
  -- the records that the memory store leaves and gives its answer, if those records satisfy the table's
  -- constraints (and an issued identifier is new); otherwise it raises an IntegrityError and changes
  -- nothing.
  pub call-refines :
      (c : Call) (s : Records)
      → All CanBind (parameters c)
      → IsWf s
      → is_valid (values s) ≡ true
      → IsFresh (issued_id c) s
      → let (t, r) = call sha256 c s in
        sqlite_call c (values s)
        ≡ (if is_valid (values t) then (values t, r) else (values s, refusal c))
  unfolding sqlite_call call refusal Sqlite.consume Memory.consume consume_locked Sqlite.release
      Memory.release Sqlite.revoke Memory.revoke
  call-refines (Call.issue subject purpose ttl issued_by reading token id) s can w h new =
      ground (arith, issue-refines subject purpose ttl issued_by reading token id s can new h)
  call-refines (Call.claim token flow_id expected_purpose reading) s can w h new =
      ground (arith, claim-refines token flow_id expected_purpose reading s can.0 w h)
  call-refines (Call.consume flow_id reading) s can w h new =
      elim (Result-cases (now_utc reading)) [
        | inr (x, e) ↦ rw (e, h) refl
        | inl (now, e) ↦
            rw
              (
                e,
                bind-CanBind (text flow_id ∷ []) can,
                consume_match-refines flow_id now s _ refl w h,
              )
              (ground arith)
      ]
  call-refines (Call.release flow_id) s can w h new =
      rw (bind-CanBind (text flow_id ∷ []) can, release_match-refines flow_id s _ refl w h)
        (ground arith)
  call-refines (Call.revoke id reading) s can w h new = elim (Result-cases (now_utc reading)) [
    | inr (x, e) ↦ rw (e, h) refl
    | inl (now, e) ↦
        rw (e, bind-CanBind (text id ∷ []) can, revoke_stored-refines id now s _ refl w h)
          (ground arith)
  ]

  -- The answers of a run, and the final table.
  unfoldable pub replies : List Call → Records → List Reply
  replies [] s = []
  replies (c ∷ cs) s = let (t, r) = call sha256 c s in r ∷ replies cs t

  unfoldable pub sqlite_run : List Call → Table → Table × List Reply
  sqlite_run [] rows = (rows, [])
  sqlite_run (c ∷ cs) rows =
      let (after, r) = sqlite_call c rows in let (last, rs) = sqlite_run cs after in (last, r ∷ rs)

  -- Along the run of the memory store every identifier is new when it is issued, and no flow holds
  -- two capabilities: the records satisfy the table's constraints.
  abbrev pub IsAdmissible : List Call → Records → Type 0
  IsAdmissible [] s = Unit
  IsAdmissible (c ∷ cs) s =
      IsFresh (issued_id c) s
      × (is_valid (values (call sha256 c s).0) ≡ true)
      × IsAdmissible cs (call sha256 c s).0

  -- From well-formed records that satisfy the table's constraints, over a run whose texts have no lone
  -- surrogates, in which every issued identifier is new and the memory store's records keep satisfying
  -- the constraints, the two stores give the same answers and end with the same records.
  pub run-refines :
      (calls : List Call) (s : Records)
      → All (λ c. All CanBind (parameters c)) calls
      → IsWf s
      → is_valid (values s) ≡ true
      → IsAdmissible calls s
      → sqlite_run calls (values s) ≡ (values (run sha256 calls s), replies calls s)
  unfolding sqlite_run run replies
  run-refines [] s can w h a = refl
  run-refines (c ∷ cs) s can w h a =
      rw
        (
          call-refines c s can.0 w h a.0,
          a.1,
          run-refines cs (call sha256 c s).0 can.1
              (Step-IsWf (issued_id c) s _ w (call-Step sha256 c s w)) a.1 a.2,
        )
        refl
