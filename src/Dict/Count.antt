-- ===== src/Dict/Count.antt =====
-- How writes to a dictionary change the number of values that pass a test.
use my_auth.Prelude.{
  Option, [], ◌∷◌, refl, inl, inr, Bool-cases, arith, ◌+◌, ◌≤◌, some, none, if◌then◌else◌, ℕ,
  count_if, ◌≡◌, Bool,
}
use my_auth.Equality.{◌==◌, KeyEq}
use my_auth.Dict.{set_default_found, set_default, Dict, get, put, remove, values}
use my_auth.Dict.Unique.{IsUnique}

abbrev pub weight {ℓ} : {A : Type ℓ} → (A → Bool) → A → ℕ
weight p a = if p a then 1 else 0

module _ {ℓ κ} {K : Type ℓ} {V : Type κ} ⦃e : KeyEq K⦄ (p : V → Bool) where
  pub count_if-put-new :
      (d : Dict K V) (k : K) (v : V)
      → get d k ≡ none
      → count_if p (values (put d k v)) ≡ count_if p (values d) + weight p v
  unfolding count_if put get
  count_if-put-new [] k v h = omega arith
  count_if-put-new ((i, w) ∷ d) k v h = ground (arith, count_if-put-new d k v)

  pub count_if-put-old :
      (d : Dict K V) (k : K) (v w : V)
      → get d k ≡ some w
      → p v ≡ p w
      → count_if p (values (put d k v)) ≡ count_if p (values d)
  unfolding count_if put get
  count_if-put-old [] k v w h same = cc
  count_if-put-old ((i, x) ∷ d) k v w h same = ground (arith, count_if-put-old d k v w)

  pub remove-none : (d : Dict K V) (k : K) → get d k ≡ none → remove d k ≡ d
  unfolding remove get
  remove-none [] k h = refl
  remove-none ((i, x) ∷ d) k h = ground (arith, remove-none d k)

  pub count_if-remove :
      (d : Dict K V) (k : K) (w : V)
      → IsUnique d
      → get d k ≡ some w
      → count_if p (values (remove d k)) + weight p w ≡ count_if p (values d)
  unfolding count_if remove get
  count_if-remove [] k w u h = cc
  count_if-remove ((i, x) ∷ d) k w u h = elim (Bool-cases (i == k)) [
    | inl here ↦ ground (arith, e.beq_iff i k, remove-none d k)
    | inr there ↦ ground (arith, count_if-remove d k w)
  ]

  pub count_if-get :
      (d : Dict K V) (k : K) (w : V) → get d k ≡ some w → weight p w ≤ count_if p (values d)
  unfolding count_if get
  count_if-get [] k w h = cc
  count_if-get ((i, x) ∷ d) k w h = ground (arith, count_if-get d k w)

  set_default_found-count :
      (d : Dict K V) (k : K) (v : V) (found : Option V)
      → get d k ≡ found
      → count_if p (values d) ≤ count_if p (values (set_default_found d k v found))
  unfolding set_default_found
  set_default_found-count d k v none h = omega (arith, count_if-put-new d k v h)
  set_default_found-count d k v (some w) h = omega arith

  pub count_if-set_default :
      (d : Dict K V) (k : K) (v : V)
      → count_if p (values d) ≤ count_if p (values (set_default d k v))
  unfolding set_default
  count_if-set_default d k v = set_default_found-count d k v (get d k) refl
