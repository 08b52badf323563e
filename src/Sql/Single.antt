-- ===== src/Sql/Single.antt =====
-- A statement whose WHERE can hold of one row at most, against a dictionary of the same rows: the
-- statement acts as the search for the first such item does.
use my_auth.Result.{integrity_error, err, ok}
use mathlib.Core.Path.{subst}
use my_auth.Dict.{values, Dict, get, put, find_item}
use my_auth.Prelude.{
  any, Option, ap, inr, refl, inl, arith, ◌+◌, false, Bool-cases, some, ◌≤◌, if◌then◌else◌, ◌∷◌,
  true, none, [], ◌≡◌, List, select, Bool, count_if,
}
use my_auth.Equality.{list_eq, nat_eq, option_eq, option_beq_iff, ◌==◌, KeyEq}
use my_auth.Sql.{update_checked, update_where, is_distinct}
use my_auth.Dict.Unique.{IsUnique, find_item-some}

module _ {κ} {V : Type κ} where
  pub none-selected :
      (p : V → Bool) (f : V → V) (vs : List V)
      → count_if p vs ≡ 0
      → (update_where p f vs ≡ vs) × (select p vs ≡ [])
  unfolding count_if update_where select
  none-selected p f [] h = (refl, refl)
  none-selected p f (v ∷ vs) h = elim (Bool-cases (p v)) [
    | inl here ↦ absurd (ground arith)
    | inr there ↦ let ih = none-selected p f vs (ground arith) in rw there (ap (◌∷◌ v) ih.0, ih.1)
  ]

  pub count_if_mono :
      (p q : V → Bool) (vs : List V)
      → ((v : V) → p v ≡ true → q v ≡ true)
      → count_if p vs ≤ count_if q vs
  unfolding count_if
  count_if_mono p q [] imp = omega arith
  count_if_mono p q (v ∷ vs) imp = ground (arith, imp v, count_if_mono p q vs imp)

  any-count : (p : V → Bool) (vs : List V) → any p vs ≡ false → count_if p vs ≡ 0
  unfolding any count_if
  any-count p [] h = refl
  any-count p (v ∷ vs) h = ground (arith, any-count p vs)

  -- A UNIQUE column has a value in one row at most.
  pub distinct-count {ℓ} :
      {K : Type ℓ} ⦃e : KeyEq K⦄ (column : V → Option K) (k : K) (vs : List V)
      → is_distinct column vs ≡ true
      → count_if (λ v. column v == some k) vs ≤ 1
  unfolding is_distinct count_if
  distinct-count column k [] h = omega arith
  distinct-count column k (v ∷ vs) h = elim (Bool-cases (column v == some k)) [
    | inl here ↦
        let held : column v ≡ some k = (option_beq_iff _ _).0 here in
        let others : any (λ q. column q == column v) vs ≡ false = ground arith in
        let none_left : count_if (λ q. column q == some k) vs ≡ 0 =
          any-count _ vs (subst (λ o. any (λ q. column q == o) vs ≡ false) held others) in
        rw here (omega arith)
    | inr there ↦ rw there (ground (arith, distinct-count column k vs))
  ]

module _ {ℓ κ} {K : Type ℓ} {V : Type κ} ⦃e : KeyEq K⦄ where
  -- Test the value of an item.
  abbrev pub on_value : (V → Bool) → K × V → Bool
  on_value q item = q item.1

  pub find_item-none :
      (q : V → Bool) (d : Dict K V) → find_item (on_value q) d ≡ none → count_if q (values d) ≡ 0
  unfolding find_item count_if
  find_item-none q [] h = refl
  find_item-none q ((k, v) ∷ d) h = ground (arith, find_item-none q d)

  none_of_rest :
      (w : V) (d : Dict K V) (p q : V → Bool)
      → ((v : V) → p v ≡ true → q v ≡ true)
      → q w ≡ true
      → (if q w then 1 else 0) + count_if q (values d) ≤ 1
      → count_if p (values d) ≡ 0
  none_of_rest w d p q imp here one = ground (arith, count_if_mono p q (values d) imp)

  -- The found row passes the whole WHERE: the statement writes it, and returns it alone.
  pub update-found :
      (p q : V → Bool) (f : V → V) (d : Dict K V) (k : K) (v : V)
      → ((w : V) → p w ≡ true → q w ≡ true)
      → find_item (on_value q) d ≡ some (k, v)
      → count_if q (values d) ≤ 1
      → IsUnique d
      → p v ≡ true
      → (update_where p f (values d) ≡ values (put d k (f v))) × (select p (values d) ≡ v ∷ [])
  unfolding find_item count_if update_where select put get
  update-found p q f [] k v imp h one u t = cc
  update-found p q f ((i, w) ∷ d) k v imp h one u t = elim (Bool-cases (q w)) [
    | inl here ↦
        let (same, alone) = none-selected p f (values d) (none_of_rest w d p q imp here one) in
        ground (arith, e.beq_iff i k, same, alone)
    | inr there ↦
        let ih = update-found p q f d k v imp (ground arith) (ground arith) u.1 t in
        ground
          (arith, imp w, e.beq_iff i k, ih.0, ih.1, find_item-some (on_value q) d {k = k} {v = v})
  ]

  -- The found row fails the WHERE: the statement changes and returns nothing.
  pub update-missed :
      (p q : V → Bool) (f : V → V) (d : Dict K V) (k : K) (v : V)
      → ((w : V) → p w ≡ true → q w ≡ true)
      → find_item (on_value q) d ≡ some (k, v)
      → count_if q (values d) ≤ 1
      → p v ≡ false
      → count_if p (values d) ≡ 0
  unfolding find_item count_if
  update-missed p q f [] k v imp h one t = cc
  update-missed p q f ((i, w) ∷ d) k v imp h one t = elim (Bool-cases (q w)) [
    | inl here ↦ ground (arith, none_of_rest w d p q imp here one)
    | inr there ↦ ground (arith, imp w, update-missed p q f d k v imp)
  ]

module _ {ℓ κ} {K : Type ℓ} {V : Type κ} ⦃e : KeyEq K⦄ where
  -- What a checked UPDATE does whose WHERE narrows a search that can succeed once.
  pub update_checked-none :
      (valid : List V → Bool) (p q : V → Bool) (f : V → V) (d : Dict K V)
      → ((w : V) → p w ≡ true → q w ≡ true)
      → find_item (on_value q) d ≡ none
      → valid (values d) ≡ true
      → update_checked valid p f (values d) ≡ (values d, ok [])
  unfolding update_checked
  update_checked-none valid p q f d imp h ok_before =
      let (same, empty) =
        none-selected p f (values d)
          (omega (arith, count_if_mono p q (values d) imp, find_item-none q d h)) in
      rw (same, empty, ok_before)

  pub update_checked-found :
      (valid : List V → Bool) (p q : V → Bool) (f : V → V) (d : Dict K V) (k : K) (v : V)
      → ((w : V) → p w ≡ true → q w ≡ true)
      → find_item (on_value q) d ≡ some (k, v)
      → count_if q (values d) ≤ 1
      → IsUnique d
      → p v ≡ true
      → update_checked valid p f (values d) ≡ (
          if valid (values (put d k (f v)))
          then (values (put d k (f v)), ok (f v ∷ []))
          else (values d, err integrity_error))
  unfolding update_checked
  update_checked-found valid p q f d k v imp h one u t =
      let (same, alone) = update-found p q f d k v imp h one u t in rw (same, alone)

  pub update_checked-missed :
      (valid : List V → Bool) (p q : V → Bool) (f : V → V) (d : Dict K V) (k : K) (v : V)
      → ((w : V) → p w ≡ true → q w ≡ true)
      → find_item (on_value q) d ≡ some (k, v)
      → count_if q (values d) ≤ 1
      → p v ≡ false
      → valid (values d) ≡ true
      → update_checked valid p f (values d) ≡ (values d, ok [])
  unfolding update_checked
  update_checked-missed valid p q f d k v imp h one t ok_before =
      let (same, empty) = none-selected p f (values d) (update-missed p q f d k v imp h one t) in
      rw (same, empty, ok_before)
