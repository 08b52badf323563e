-- ===== src/Sql/Upserted.antt =====
-- What a statement finds of the row that an upsert wrote.
use my_auth.Sql.{fetchone, delete_where, update_where, upsert}
use my_auth.Prelude.{
  refl, inr, inl, arith, Bool-cases, some, ◌∷◌, ◌++◌, [], false, List, any, select, true, ◌≡◌, Bool,
}

-- `same` finds the rows of the key, which a later test asks for among others.
module _ {ℓ} {R : Type ℓ} (same : R → Bool) (new : R) (own : same new ≡ true) (test : R → Bool)
    (narrower : (r : R) → test r ≡ true → same r ≡ true) where
  unmatched : (rows : List R) → any same rows ≡ false → select test rows ≡ []
  unfolding any select
  unmatched [] h = refl
  unmatched (r ∷ rows) h = ground (arith, narrower r, unmatched rows)

  updated :
      (rows : List R)
      → any same rows ≡ true
      → test new ≡ true
      → fetchone (select test (update_where same (λ q. new) rows)) ≡ some new
  unfolding any select update_where
  updated [] h yes_new = cc
  updated (r ∷ rows) h yes_new = elim (Bool-cases (same r)) [
    | inl match ↦ rw (match, yes_new) refl
    | inr apart ↦ ground (arith, narrower r, updated rows)
  ]

  appended :
      (rows : List R)
      → any same rows ≡ false
      → test new ≡ true
      → fetchone (select test (rows ++ new ∷ [])) ≡ some new
  unfolding any select
  appended [] h yes_new = rw yes_new refl
  appended (r ∷ rows) h yes_new = ground (arith, narrower r, appended rows)

  -- The written row is the first one that the test finds.
  pub select-upsert :
      (rows : List R) → test new ≡ true → fetchone (select test (upsert same new rows)) ≡ some new
  unfolding upsert
  select-upsert rows yes_new = elim (Bool-cases (any same rows)) [
    | inl old ↦ rw old (updated rows old yes_new)
    | inr fresh ↦ rw fresh (appended rows fresh yes_new)
  ]

  module _ (other : R → Bool) (deletes : other new ≡ true)
      (within : (r : R) → other r ≡ true → same r ≡ true) where
    deleted_unmatched :
        (rows : List R) → any same rows ≡ false → select test (delete_where other rows) ≡ []
    unfolding any select delete_where
    deleted_unmatched [] h = refl
    deleted_unmatched (r ∷ rows) h = ground (arith, narrower r, within r, deleted_unmatched rows)

    deleted_updated :
        (rows : List R) → select test (delete_where other (update_where same (λ q. new) rows)) ≡ []
    unfolding select delete_where update_where
    deleted_updated [] = refl
    deleted_updated (r ∷ rows) = elim (Bool-cases (same r)) [
      | inl match ↦ rw (match, deletes) (deleted_updated rows)
      | inr apart ↦ ground (arith, narrower r, within r, deleted_updated rows)
    ]

    deleted_appended :
        (rows : List R)
        → any same rows ≡ false
        → select test (delete_where other (rows ++ new ∷ [])) ≡ []
    unfolding any select delete_where
    deleted_appended [] h = rw deletes refl
    deleted_appended (r ∷ rows) h = ground (arith, narrower r, within r, deleted_appended rows)

    -- After a deletion that takes the written row, no row of the key is found.
    pub delete-upsert :
        (rows : List R) → select test (delete_where other (upsert same new rows)) ≡ []
    unfolding upsert
    delete-upsert rows = elim (Bool-cases (any same rows)) [
      | inl old ↦ rw old (deleted_updated rows)
      | inr fresh ↦ rw fresh (deleted_appended rows fresh)
    ]
