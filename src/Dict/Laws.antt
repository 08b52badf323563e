-- ===== src/Dict/Laws.antt =====
-- What can be read from a dictionary after a write.
use mathlib.Core.List.{map-append}
use my_auth.Prelude.{Option, ◌++◌, ◌≡◌, refl, none, some, [], ◌∷◌, arith, if◌then◌else◌}
use my_auth.Equality.{KeyEq, ◌==◌}
use my_auth.Dict.{set_default, set_default_found, values, Dict, get, put, remove}

abbrev pub first_some {ℓ} : {A : Type ℓ} → Option A → Option A → Option A
first_some none b = b
first_some (some a) b = some a

module _ {ℓ κ} {K : Type ℓ} {V : Type κ} ⦃e : KeyEq K⦄ where
  pub get-put :
      (d : Dict K V) (k j : K) (v : V) → get (put d k v) j ≡ (if k == j then some v else get d j)
  unfolding get put
  get-put [] k j v = refl
  get-put ((i, w) ∷ d) k j v =
      ground (arith, e.beq_iff i k, e.beq_iff i j, e.beq_iff k j, get-put d k j v)

  pub get-remove :
      (d : Dict K V) (k j : K) → get (remove d k) j ≡ (if k == j then none else get d j)
  unfolding get remove
  get-remove [] k j = ground arith
  get-remove ((i, w) ∷ d) k j =
      ground (arith, e.beq_iff i k, e.beq_iff i j, e.beq_iff k j, get-remove d k j)

  -- Writing back what is there changes nothing.
  pub put-get : (d : Dict K V) (k : K) (v : V) → get d k ≡ some v → put d k v ≡ d
  unfolding get put
  put-get [] k v h = cc
  put-get ((i, w) ∷ d) k v h = ground (arith, e.beq_iff i k, put-get d k v)

  -- A write to a new key appends.
  pub put-new : (d : Dict K V) (k : K) (v : V) → get d k ≡ none → put d k v ≡ d ++ (k, v) ∷ []
  unfolding get put
  put-new [] k v h = refl
  put-new ((i, w) ∷ d) k v h = ground (arith, e.beq_iff i k, put-new d k v)

  pub values-put-new :
      (d : Dict K V) (k : K) (v : V) → get d k ≡ none → values (put d k v) ≡ values d ++ v ∷ []
  values-put-new d k v h = rw (put-new d k v h) (map-append (λ p. p.1) d ((k, v) ∷ []))

  -- A default is what a missing key gets, and no present key changes.
  get-set_default_found :
      (d : Dict K V) (k j : K) (v : V) (found : Option V)
      → get d k ≡ found
      → get (set_default_found d k v found) j
        ≡ first_some (get d j) (if k == j then some v else none)
  unfolding set_default_found
  get-set_default_found d k j v none h = ground (arith, get-put d k j v, e.beq_iff k j)
  get-set_default_found d k j v (some w) h = ground (arith, e.beq_iff k j)

  pub get-set_default :
      (d : Dict K V) (k j : K) (v : V)
      → get (set_default d k v) j ≡ first_some (get d j) (if k == j then some v else none)
  unfolding set_default
  get-set_default d k j v = get-set_default_found d k j v (get d k) refl
