-- ===== src/Dict/Sweep.antt =====
-- Dropping every entry whose value passes a test: collecting the keys, then removing them one by
-- one.
use my_auth.Prelude.{
  is_some, ℕ, ◌≤◌, inr, refl, inl, [], Bool-cases, none, if◌then◌else◌, some, false, arith, ◌∷◌,
  Option, List, ◌≡◌, any, Bool,
}
use my_auth.Equality.{◌==◌, KeyEq}
use my_auth.Dict.{Dict, get, remove, remove_all, keys_where}
use my_auth.Dict.Unique.{IsUnique, remove-IsUnique}
use my_auth.Dict.Laws.{get-remove}

-- What is left of an entry.
abbrev pub drop_if {ℓ} : {V : Type ℓ} → (V → Bool) → Option V → Option V
drop_if p none = none
drop_if p (some v) = if p v then none else some v

passes {ℓ} : {V : Type ℓ} → (V → Bool) → Option V → Bool
passes p none = false
passes p (some v) = p v

contains {ℓ} : {K : Type ℓ} ⦃e : KeyEq K⦄ → List K → K → Bool
contains ks k = any (λ j. j == k) ks

module _ {ℓ κ} {K : Type ℓ} {V : Type κ} ⦃e : KeyEq K⦄ where
  get-remove_all :
      (ks : List K) (d : Dict K V) (k : K)
      → get (remove_all ks d) k ≡ (if contains ks k then none else get d k)
  unfolding remove_all contains any
  get-remove_all [] d k = refl
  get-remove_all (j ∷ ks) d k = ground (arith, get-remove_all ks (remove d j) k, get-remove d j k)

  pub remove_all-IsUnique : (ks : List K) (d : Dict K V) → IsUnique d → IsUnique (remove_all ks d)
  unfolding remove_all
  remove_all-IsUnique [] d u = u
  remove_all-IsUnique (k ∷ ks) d u = remove_all-IsUnique ks (remove d k) (remove-IsUnique d k u)

  -- Removing entries adds none and changes none.
  pub get-remove_all-some :
      (ks : List K) (d : Dict K V) (k : K) (v : V)
      → get (remove_all ks d) k ≡ some v
      → get d k ≡ some v
  get-remove_all-some ks d k v h = ground (arith, get-remove_all ks d k)

  pub get-remove_all-none :
      (ks : List K) (d : Dict K V) (k : K) → get d k ≡ none → get (remove_all ks d) k ≡ none
  get-remove_all-none ks d k h = ground (arith, get-remove_all ks d k)

  -- Whether there is an entry, as a number.
  abbrev pub stored : K → Dict K V → ℕ
  stored k d = if is_some (get d k) then 1 else 0

  pub stored-remove_all :
      (ks : List K) (d : Dict K V) (k : K) → stored k (remove_all ks d) ≤ stored k d
  stored-remove_all ks d k = ground (arith, get-remove_all ks d k)

  module _ (p : V → Bool) where
    absent : (d : Dict K V) (k : K) → get d k ≡ none → contains (keys_where p d) k ≡ false
    unfolding keys_where contains get any
    absent [] k h = refl
    absent ((j, v) ∷ d) k h = ground (arith, absent d k)

    contains-keys_where :
        (d : Dict K V) (k : K) → IsUnique d → contains (keys_where p d) k ≡ passes p (get d k)
    unfolding keys_where contains passes get any
    contains-keys_where [] k u = refl
    contains-keys_where ((j, v) ∷ d) k u = elim (Bool-cases (j == k)) [
      | inl here ↦
          let same : j ≡ k = (e.beq_iff j k).0 here in
          let gone = absent d k (rw (← same) u.0) in rw here (ground (arith, gone))
      | inr there ↦ rw there (ground (arith, contains-keys_where d k u.1))
    ]

    -- After a sweep the entries that pass the test are gone and all others are as they were.
    pub get-sweep :
        (d : Dict K V) (k : K)
        → IsUnique d
        → get (remove_all (keys_where p d) d) k ≡ drop_if p (get d k)
    unfolding passes
    get-sweep d k u = ground (arith, get-remove_all (keys_where p d) d k, contains-keys_where d k u)
