-- ===== src/Enrollment/Sqlite/Flows.antt =====
-- `consume`, `release` and `revoke` of the SQLite store against those of the memory store.
use my_auth.Dict.Unique.{find_item-some}
use my_auth.Sql.Single.{
  update_checked-found, update_checked-missed, update_checked-none, distinct-count,
}
use my_auth.Enrollment.Sqlite.Refines.{committed}
use my_auth.Enrollment.Memory.Step.{IsWf}
use my_auth.Equality.{option_eq, nat_eq, list_eq, ◌==◌}
use my_auth.Int.{Instant}
use my_auth.Enrollment.{EnrollmentCapability, is_closed, is_spent}
use my_auth.Prelude.{
  refl, none, inr, inl, Bool-cases, not, arith, ◌≤◌, ◌&&◌, some, count_if, true, ◌≡◌, Option,
}
use my_auth.Dict.{get, find_item, values}
use my_auth.Text.{Text}
use my_auth.Enrollment.Sqlite.{
  release_update, flow_column, release_set, consume_set, one_row, consume_where, release_where,
  consume_update, is_valid,
}
use my_auth.Enrollment.Memory.{has_flow, consume_match, release_match, Records, Stored}

module _ (flow_id : Text) where
  one_flow :
      (s : Records)
      → is_valid (values s) ≡ true
      → count_if (λ v. v.1.claimed_flow_id == some flow_id) (values s) ≤ 1
  unfolding is_valid
  one_flow s h = distinct-count flow_column flow_id (values s) (ground arith)

  consume_narrows :
      (now : Instant) (v : Stored)
      → consume_where flow_id now v ≡ true
      → (v.1.claimed_flow_id == some flow_id) ≡ true
  unfolding consume_where
  consume_narrows now v h = ground arith

  consume_test :
      (now : Instant) (g : Text) (c : EnrollmentCapability)
      → consume_where flow_id now (g, c)
        ≡ (c.claimed_flow_id == some flow_id && not (is_spent now c))
  unfolding consume_where is_spent
  consume_test now g c = ground arith

  pub consume_match-refines :
      (now : Instant) (s : Records) (found : Option (Text × Stored))
      → find_item (has_flow flow_id) s ≡ found
      → IsWf s
      → is_valid (values s) ≡ true
      → consume_update flow_id now (values s) ≡ committed s (consume_match now found s)
  unfolding consume_update consume_match one_row consume_set
  consume_match-refines now s none e w ok_before =
      rw
        (
          update_checked-none is_valid (consume_where flow_id now)
              (λ v. v.1.claimed_flow_id == some flow_id) (consume_set now) s (consume_narrows now) e
              ok_before,
          ok_before,
        )
        refl
  consume_match-refines now s (some (id, (g, c))) e w ok_before =
      elim (Bool-cases (is_spent now c)) [
        | inl bad ↦
            rw
              (
                update_checked-missed is_valid (consume_where flow_id now)
                    (λ v. v.1.claimed_flow_id == some flow_id) (consume_set now) s id (g, c)
                    (consume_narrows now) e (one_flow s ok_before)
                    (ground (arith, consume_test now g c)) ok_before,
                bad,
                ok_before,
              )
              refl
        | inr good ↦
            rw
              (
                update_checked-found is_valid (consume_where flow_id now)
                    (λ v. v.1.claimed_flow_id == some flow_id) (consume_set now) s id (g, c)
                    (consume_narrows now) e (one_flow s ok_before) w.unique
                    (ground (arith, consume_test now g c, here.0)),
                good,
              )
              (ground arith)
      ]
    where
      here : (has_flow flow_id (id, (g, c)) ≡ true) × (get s id ≡ some (g, c))
      here = find_item-some (has_flow flow_id) s e w.unique

  release_narrows :
      (v : Stored) → release_where flow_id v ≡ true → (v.1.claimed_flow_id == some flow_id) ≡ true
  unfolding release_where
  release_narrows v h = ground arith

  release_test :
      (g : Text) (c : EnrollmentCapability)
      → release_where flow_id (g, c) ≡ (c.claimed_flow_id == some flow_id && not (is_closed c))
  unfolding release_where is_closed
  release_test g c = ground arith

  pub release_match-refines :
      (s : Records) (found : Option (Text × Stored))
      → find_item (has_flow flow_id) s ≡ found
      → IsWf s
      → is_valid (values s) ≡ true
      → release_update flow_id (values s) ≡ committed s (release_match found s)
  unfolding release_update release_match release_set
  release_match-refines s none e w ok_before =
      rw
        (
          update_checked-none is_valid (release_where flow_id)
              (λ v. v.1.claimed_flow_id == some flow_id) release_set s release_narrows e ok_before,
          ok_before,
        )
        refl
  release_match-refines s (some (id, (g, c))) e w ok_before = elim (Bool-cases (is_closed c)) [
    | inl bad ↦
        rw
          (
            update_checked-missed is_valid (release_where flow_id)
                (λ v. v.1.claimed_flow_id == some flow_id) release_set s id (g, c) release_narrows e
                (one_flow s ok_before) (ground (arith, release_test g c)) ok_before,
            bad,
            ok_before,
          )
          refl
    | inr good ↦
        rw
          (
            update_checked-found is_valid (release_where flow_id)
                (λ v. v.1.claimed_flow_id == some flow_id) release_set s id (g, c) release_narrows e
                (one_flow s ok_before) w.unique (ground (arith, release_test g c, here.0)),
            good,
          )
          (ground arith)
  ]
    where
      here : (has_flow flow_id (id, (g, c)) ≡ true) × (get s id ≡ some (g, c))
      here = find_item-some (has_flow flow_id) s e w.unique
