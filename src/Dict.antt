-- ===== src/Dict.antt =====
-- Python's `dict`, in its insertion order: a write to a new key goes to the end, a write to a
-- present key stays in its place.
pub mod Laws
pub mod Unique
pub mod Count
pub mod Sweep
use my_auth.Prelude.{Bool, Option, none, some, List, [], ◌∷◌, ◌++◌, map, ◌≡◌, if◌then◌else◌}
use my_auth.Equality.{KeyEq, ◌==◌}

abbrev pub Dict {ℓ κ} : Type ℓ → Type κ → Type (ℓ ⊔ κ)
Dict K V = List (K × V)

module _ {ℓ κ} {K : Type ℓ} {V : Type κ} ⦃e : KeyEq K⦄ where
  -- d.get(k)
  unfoldable pub get : Dict K V → K → Option V
  get [] k = none
  get ((j, v) ∷ d) k = let rest = get d k in if j == k then some v else rest

  -- d[k] = v
  unfoldable pub put : Dict K V → K → V → Dict K V
  put [] k v = (k, v) ∷ []
  put ((j, w) ∷ d) k v = let rest = put d k v in if j == k then (j, v) ∷ d else (j, w) ∷ rest

  -- d.pop(k, None) and del d[k]; a dictionary has a key once, so this drops one entry.
  unfoldable pub remove : Dict K V → K → Dict K V
  remove [] k = []
  remove ((j, w) ∷ d) k = let rest = remove d k in if j == k then rest else (j, w) ∷ rest

  -- d.setdefault(k, v), for its effect
  unfoldable pub set_default_found : Dict K V → K → V → Option V → Dict K V
  set_default_found d k v none = put d k v
  set_default_found d k v (some w) = d

  unfoldable pub set_default : Dict K V → K → V → Dict K V
  unfolding get put set_default_found
  set_default d k v = set_default_found d k v (get d k)

-- d.values()
abbrev pub values {ℓ κ} : {K : Type ℓ} {V : Type κ} → Dict K V → List V
values d = map (λ p. p.1) d

-- next((item for item in d.items() if test), None)
unfoldable pub find_item {ℓ κ} :
    {K : Type ℓ} {V : Type κ} → (K × V → Bool) → Dict K V → Option (K × V)
find_item p [] = none
find_item p (item ∷ d) = let rest = find_item p d in if p item then some item else rest

-- [k for k, v in d.items() if test(v)]
unfoldable pub keys_where {ℓ κ} : {K : Type ℓ} {V : Type κ} → (V → Bool) → Dict K V → List K
keys_where p [] = []
keys_where p ((k, v) ∷ d) = let rest = keys_where p d in if p v then k ∷ rest else rest

-- for k in ks: d.pop(k, None)
unfoldable pub remove_all {ℓ κ} :
    {K : Type ℓ} {V : Type κ} ⦃e : KeyEq K⦄ → List K → Dict K V → Dict K V
unfolding remove
remove_all [] d = d
remove_all (k ∷ ks) d = remove_all ks (remove d k)
