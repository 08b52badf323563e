-- ===== src/Sql/Rows.antt =====
-- A table that holds the values of a dictionary, row by row: a statement whose WHERE picks the row of
-- a key reads and writes what the dictionary has under it.
use my_auth.Prelude.{length, ◌∙◌, length-select}
use my_auth.Equality.{beq_self, ◌==◌, KeyEq}
use my_auth.Prelude.{
  sym, count_if, false, ap, inr, refl, inl, Bool-cases, none, arith, some, ◌≡◌, select, map, ◌∷◌,
  [], Bool, List, Option,
}
use my_auth.Dict.{Dict, get, put, remove, values}
use my_auth.Dict.Unique.{IsUnique}
use my_auth.Sql.{update_where, delete_where}

abbrev pub rows_of {ℓ κ} : {V : Type ℓ} {R : Type κ} → (V → R) → Option V → List R
rows_of row none = []
rows_of row (some v) = row v ∷ []

module _ {ℓ κ} {K : Type ℓ} {V : Type κ} {R : Type κ} ⦃e : KeyEq K⦄ (row : V → R) (p : R → Bool)
    (key : K) where
  -- The test holds of the rows of the key and of no other.
  abbrev pub Picks : Dict K V → Type (ℓ ⊔ κ)
  Picks d = (k : K) (v : V) → get d k ≡ some v → p (row v) ≡ (k == key)

  picked_at_head : (k : K) (v : V) (d : Dict K V) → Picks ((k, v) ∷ d) → p (row v) ≡ (k == key)
  unfolding get
  picked_at_head k v d h = h k v (ground (arith, beq_self k))

  picked_in_tail :
      (k : K) (v : V) (d : Dict K V) → IsUnique ((k, v) ∷ d) → Picks ((k, v) ∷ d) → Picks d
  unfolding get
  picked_in_tail k v d u h j w g = h j w (ground (arith, e.beq_iff k j, u.0))

  -- The test holds of no row.
  abbrev pub Misses : Dict K V → Type (ℓ ⊔ κ)
  Misses d = (k : K) (v : V) → get d k ≡ some v → p (row v) ≡ false

  missed_at_head : (k : K) (v : V) (d : Dict K V) → Misses ((k, v) ∷ d) → p (row v) ≡ false
  unfolding get
  missed_at_head k v d h = h k v (ground (arith, beq_self k))

  missed_in_tail :
      (k : K) (v : V) (d : Dict K V) → IsUnique ((k, v) ∷ d) → Misses ((k, v) ∷ d) → Misses d
  unfolding get
  missed_in_tail k v d u h j w g = h j w (ground (arith, e.beq_iff k j, u.0))

  absent-Misses : (d : Dict K V) → Picks d → get d key ≡ none → Misses d
  absent-Misses d h g k v f = ground (arith, h k v f, e.beq_iff k key)

  pub missed-select : (d : Dict K V) → IsUnique d → Misses d → select p (map row (values d)) ≡ []
  unfolding get select
  missed-select [] u h = refl
  missed-select ((k, v) ∷ d) u h =
      ground (arith, missed_at_head k v d h, missed-select d u.1 (missed_in_tail k v d u h))

  pub missed-update :
      (f : R → R) (d : Dict K V)
      → IsUnique d
      → Misses d
      → update_where p f (map row (values d)) ≡ map row (values d)
  unfolding get update_where
  missed-update f [] u h = refl
  missed-update f ((k, v) ∷ d) u h =
      ground (arith, missed_at_head k v d h, missed-update f d u.1 (missed_in_tail k v d u h))

  pub select-rows :
      (d : Dict K V)
      → IsUnique d
      → Picks d
      → select p (map row (values d)) ≡ rows_of row (get d key)
  unfolding get select
  select-rows [] u h = refl
  select-rows ((k, v) ∷ d) u h = elim (Bool-cases (k == key)) [
    | inl here ↦
        let gone : get d key ≡ none = ground (arith, e.beq_iff k key, u.0) in
        rw
          (
            picked_at_head k v d h,
            here,
            missed-select d u.1 (absent-Misses d (picked_in_tail k v d u h) gone),
          )
          refl
    | inr there ↦ rw (picked_at_head k v d h, there) (select-rows d u.1 (picked_in_tail k v d u h))
  ]

  pub update-rows :
      (f : R → R) (d : Dict K V) (v w : V)
      → IsUnique d
      → Picks d
      → get d key ≡ some v
      → f (row v) ≡ row w
      → update_where p f (map row (values d)) ≡ map row (values (put d key w))
  unfolding get update_where put
  update-rows f [] v w u h g e_f = cc
  update-rows f ((k, x) ∷ d) v w u h g e_f = elim (Bool-cases (k == key)) [
    | inl here ↦
        let gone : get d key ≡ none = ground (arith, e.beq_iff k key, u.0) in
        let same : x ≡ v = ground arith in
        rw
          (
            picked_at_head k x d h,
            here,
            missed-update f d u.1 (absent-Misses d (picked_in_tail k x d u h) gone),
            same,
            e_f,
          )
          refl
    | inr there ↦
        rw (picked_at_head k x d h, there)
          (ap (◌∷◌ (row x)) (update-rows f d v w u.1 (picked_in_tail k x d u h) (ground arith) e_f))
  ]

  pub delete-rows :
      (d : Dict K V)
      → IsUnique d
      → Picks d
      → delete_where p (map row (values d)) ≡ map row (values (remove d key))
  unfolding get delete_where remove
  delete-rows [] u h = refl
  delete-rows ((k, v) ∷ d) u h = elim (Bool-cases (k == key)) [
    | inl here ↦ rw (picked_at_head k v d h, here) (delete-rows d u.1 (picked_in_tail k v d u h))
    | inr there ↦
        rw (picked_at_head k v d h, there)
          (ap (◌∷◌ (row v)) (delete-rows d u.1 (picked_in_tail k v d u h)))
  ]

  pub missed-count : (d : Dict K V) → IsUnique d → Misses d → count_if p (map row (values d)) ≡ 0
  missed-count d u h = sym (length-select p (map row (values d))) ∙ ap length (missed-select d u h)

  pub picked-count :
      (d : Dict K V) (v : V)
      → IsUnique d
      → Picks d
      → get d key ≡ some v
      → count_if p (map row (values d)) ≡ 1
  picked-count d v u h g =
      sym (length-select p (map row (values d)))
      ∙ ap length (select-rows d u h ∙ ap (rows_of row) g)
