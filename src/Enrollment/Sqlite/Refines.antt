-- ===== src/Enrollment/Sqlite/Refines.antt =====
-- The SQLite store implements the memory store: on the same records each statement has the result
-- of the memory store's method, unless the table's constraints refuse the records that the method
-- leaves.
use my_auth.Dict.Laws.{put-get}
use my_auth.Dict.Unique.{find_item-some}
use my_auth.Enrollment.Memory.Step.{IsWf}
use my_auth.Sql.Single.{
  update_checked-found, update_checked-missed, update_checked-none, distinct-count,
}
use my_auth.Equality.{list_beq_iff, option_beq, list_eq, option_eq, nat_eq, ◌==◌}
use my_auth.Enrollment.Lifecycle.{IsPaired}
use my_auth.Enrollment.{EnrollmentCapability, is_spent, is_unclaimable}
use my_auth.Dict.{put, get, find_item, values}
use my_auth.Prelude.{
  refl, none, inr, inl, Bool-cases, ◌≤◌, Option, count_if, true, arith, not, some, is_none, ◌&&◌,
  false, ◌≡◌, if◌then◌else◌,
}
use my_auth.Int.{Instant}
use my_auth.Result.{integrity_error, err, Result}
use my_auth.Text.{Text}
use my_auth.Enrollment.Memory.{has_digest, claim_match, Stored, Records}
use my_auth.Enrollment.Sqlite.{
  hash_column, one_row, claim_update, Table, is_valid, claim_where, claim_set,
}

-- What the table becomes and what the statement returns, if the memory store goes from `s` to `t`
-- with the result `r`.
abbrev pub committed : {A : Type 0} → Records → Records × Result A → Table × Result A
committed s (t, r) = if is_valid (values t) then (values t, r) else (values s, err integrity_error)

module _ (digest flow_id expected_purpose : Text) (now : Instant) where
  claim_test :
      (g : Text) (c : EnrollmentCapability)
      → claim_where digest expected_purpose now flow_id (g, c)
        ≡ (g == digest && not (is_unclaimable flow_id expected_purpose now c))
  unfolding claim_where is_unclaimable is_spent
  claim_test g c = ground (arith)

  claim_write :
      (c : EnrollmentCapability)
      → IsPaired c
      → is_unclaimable flow_id expected_purpose now c ≡ false
      → claim_set flow_id now (digest, c) ≡ (
          if is_none c.claimed_flow_id
          then (digest, record c { claimed_flow_id = some flow_id; claimed_at = some now })
          else (digest, c))
  unfolding claim_set is_unclaimable
  claim_write c pair h = ground (arith)

  claim_narrows :
      (v : Stored)
      → claim_where digest expected_purpose now flow_id v ≡ true
      → (v.0 == digest) ≡ true
  claim_narrows (g, c) h = ground (arith, claim_test g c)

  one_digest :
      (s : Records) → is_valid (values s) ≡ true → count_if (λ v. v.0 == digest) (values s) ≤ 1
  unfolding is_valid option_beq
  one_digest s h = distinct-count hash_column digest (values s) (ground arith)

  pub claim_match-refines :
      (s : Records) (found : Option (Text × Stored))
      → find_item (has_digest digest) s ≡ found
      → IsWf s
      → is_valid (values s) ≡ true
      → claim_update digest flow_id expected_purpose now (values s)
        ≡ committed s (claim_match digest flow_id expected_purpose now found s)
  unfolding claim_update claim_match one_row
  claim_match-refines s none e w ok_before =
      rw
        (
          update_checked-none is_valid _ (λ v. v.0 == digest) (claim_set flow_id now) s
              claim_narrows e ok_before,
          ok_before,
        )
        refl
  claim_match-refines s (some (id, (g, c))) e w ok_before =
      elim (Bool-cases (is_unclaimable flow_id expected_purpose now c)) [
        | inl bad ↦
            rw
              (
                update_checked-missed is_valid _ (λ v. v.0 == digest) (claim_set flow_id now) s id
                    (g, c) claim_narrows e (one_digest s ok_before) (ground (arith, claim_test g c))
                    ok_before,
                bad,
                ok_before,
              )
              refl
        | inr good ↦
            let updated =
              update_checked-found is_valid _ (λ v. v.0 == digest) (claim_set flow_id now) s id
                (g, c) claim_narrows e (one_digest s ok_before) w.unique
                (ground (arith, claim_test g c, here.0)) in
            let pair : IsPaired c = w.paired id g c here.1 in
            let same : g ≡ digest = (list_beq_iff g digest).0 here.0 in
            let write : claim_set flow_id now (g, c) ≡ (
                if is_none c.claimed_flow_id
                then (digest, record c { claimed_flow_id = some flow_id; claimed_at = some now })
                else (digest, c)) =
              rw same (claim_write c pair good) in
            elim (Bool-cases (is_none c.claimed_flow_id)) [
              | inl free ↦ rw (updated, write, good, free) (ground arith)
              | inr held ↦
                  let kept : put s id (digest, c) ≡ s =
                    put-get s id (digest, c) (rw same at here.1) in
                  rw (updated, write, good, held, kept, ok_before) refl
            ]
      ]
    where
      here : (has_digest digest (id, (g, c)) ≡ true) × (get s id ≡ some (g, c))
      here = find_item-some (has_digest digest) s e w.unique
