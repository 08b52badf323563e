-- ===== src/Sql/Constraints.antt =====
-- Constraints of a table that holds the values of a dictionary.
use my_auth.Dict.Unique.{IsUnique}
use my_auth.Sql.{is_distinct}
use my_auth.Dict.{values, Dict, get}
use my_auth.Prelude.{
  not, ap, inl, inr, refl, Bool-cases, [], ◌∷◌, map, false, arith, some, ◌&&◌, true, any, all, ◌≡◌,
  Bool,
}
use my_auth.Equality.{beq_self, ◌==◌, KeyEq, option_beq}

both : {a b : Bool} → a ≡ true → b ≡ true → (a && b) ≡ true
both h k = ground arith

module _ {ℓ κ} {K : Type ℓ} {V : Type κ} {R : Type κ} ⦃e : KeyEq K⦄ (row : V → R) where
  pub any-rows :
      (p : R → Bool) (d : Dict K V) (k : K) (v : V)
      → get d k ≡ some v
      → p (row v) ≡ true
      → any p (map row (values d)) ≡ true
  unfolding get any
  any-rows p [] k v g h = cc
  any-rows p ((j, w) ∷ d) k v g h = ground (arith, any-rows p d k v)

  pub missed-any :
      (p : R → Bool) (d : Dict K V)
      → IsUnique d
      → ((k : K) (v : V) → get d k ≡ some v → p (row v) ≡ false)
      → any p (map row (values d)) ≡ false
  unfolding get any
  missed-any p [] u h = refl
  missed-any p ((k, v) ∷ d) u h = ground (
    arith,
    h k v,
    beq_self k,
    missed-any p d u.1 (λ j w g. h j w (ground (arith, e.beq_iff k j, u.0))),
  )

  pub all-rows :
      (p : R → Bool) (d : Dict K V)
      → IsUnique d
      → ((k : K) (v : V) → get d k ≡ some v → p (row v) ≡ true)
      → all p (map row (values d)) ≡ true
  unfolding get all
  all-rows p [] u h = refl
  all-rows p ((k, v) ∷ d) u h = ground (
    arith,
    h k v,
    beq_self k,
    all-rows p d u.1 (λ j w g. h j w (ground (arith, e.beq_iff k j, u.0))),
  )

  -- A column that tells the entries apart has different values.
  pub is_distinct-rows {ι} :
      {C : Type ι} ⦃f : KeyEq C⦄ (column : R → C) (d : Dict K V)
      → IsUnique d
      → ((j k : K) (v w : V)
          → get d j ≡ some v
          → get d k ≡ some w
          → (column (row v) == column (row w)) ≡ true
          → j ≡ k)
      → is_distinct (λ r. some (column r)) (map row (values d)) ≡ true
  unfolding get is_distinct option_beq
  is_distinct-rows column [] u h = refl
  is_distinct-rows column ((k, v) ∷ d) u h =
      let later : (j : K) (w : V) → get d j ≡ some w → (k == j) ≡ false =
        λ j w g. ground (arith, e.beq_iff k j, u.0) in
      let apart : (j : K) (w : V) → get d j ≡ some w → (column (row w) == column (row v)) ≡ false =
        λ j w g. elim (Bool-cases (column (row w) == column (row v))) [
          | inr different ↦ different
          | inl alike ↦ absurd (ground (arith, later j w g, beq_self k, e.beq_iff k j, h j k w v))
        ] in
      let alone = missed-any (λ q. column q == column (row v)) d u.1 apart in
      let rest = is_distinct-rows column d u.1 (λ i j v' w g g' same.
        h i j v' w (ground (arith, later i v' g)) (ground (arith, later j w g')) same) in
      both (ap not alone) rest
