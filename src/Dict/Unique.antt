-- ===== src/Dict/Unique.antt =====
-- Every key of a dictionary stands in it once, and every write keeps it so.
use my_auth.Prelude.{
  Option, ◌≡◌, refl, Bool, true, none, some, [], ◌∷◌, arith, Bool-cases, inl, inr,
}
use my_auth.Equality.{beq_self, KeyEq, ◌==◌}
use my_auth.Dict.{set_default, set_default_found, Dict, get, put, remove, find_item}
use my_auth.Dict.Laws.{get-put, get-remove}

module _ {ℓ κ} {K : Type ℓ} {V : Type κ} ⦃e : KeyEq K⦄ where
  abbrev pub IsUnique : Dict K V → Type κ
  IsUnique [] = Unit
  IsUnique ((k, v) ∷ d) = (get d k ≡ none) × IsUnique d

  pub put-IsUnique : (d : Dict K V) (k : K) (v : V) → IsUnique d → IsUnique (put d k v)
  unfolding put get
  put-IsUnique [] k v h = (refl, tt)
  put-IsUnique ((i, w) ∷ d) k v h = elim (Bool-cases (i == k)) [
    | inl same ↦ rw same h
    | inr other ↦
        rw other (
          ground (arith, get-put d k i v, e.beq_iff i k, e.beq_iff k i, h.0),
          put-IsUnique d k v h.1,
        )
  ]

  pub remove-IsUnique : (d : Dict K V) (k : K) → IsUnique d → IsUnique (remove d k)
  unfolding remove get
  remove-IsUnique [] k h = tt
  remove-IsUnique ((i, w) ∷ d) k h = elim (Bool-cases (i == k)) [
    | inl same ↦ rw same (remove-IsUnique d k h.1)
    | inr other ↦
        rw other (ground (arith, get-remove d k i, e.beq_iff k i, h.0), remove-IsUnique d k h.1)
  ]

  -- The first item that passes a test passes it, and it is the entry of its key.
  pub find_item-some :
      (p : K × V → Bool) (d : Dict K V) {k : K} {v : V}
      → find_item p d ≡ some (k, v)
      → IsUnique d
      → (p (k, v) ≡ true) × (get d k ≡ some v)
  unfolding find_item get
  find_item-some p [] h u = cc
  find_item-some p ((i, w) ∷ d) {k} {v} h u = elim (Bool-cases (p (i, w))) [
    | inl here ↦ ground (arith, e.beq_iff i k)
    | inr there ↦ ground (arith, e.beq_iff i k, find_item-some p d {k = k} {v = v})
  ]

  -- Writing to the item that a search found leaves the search at that item, if the new value passes.
  pub find_item-put :
      (p : K × V → Bool) (d : Dict K V) (k : K) (v w : V)
      → find_item p d ≡ some (k, v)
      → IsUnique d
      → p (k, w) ≡ true
      → find_item p (put d k w) ≡ some (k, w)
  unfolding find_item put get
  find_item-put p [] k v w h u t = cc
  find_item-put p ((i, x) ∷ d) k v w h u t = elim (Bool-cases (p (i, x))) [
    | inl here ↦ ground (arith, e.beq_iff i k)
    | inr there ↦
        ground (arith, e.beq_iff i k, find_item-some p d {k = k} {v = v}, find_item-put p d k v w)
  ]

  abbrev pub entry_of : K → Option V → Option (K × V)
  entry_of k none = none
  entry_of k (some v) = some (k, v)

  -- Where the values name their keys, a search by the name is a lookup.
  pub find_item-key :
      (name : V → K) (d : Dict K V) (k : K)
      → IsUnique d
      → ((j : K) (v : V) → get d j ≡ some v → name v ≡ j)
      → find_item (λ item. name item.1 == k) d ≡ entry_of k (get d k)
  unfolding find_item get
  find_item-key name [] k u keyed = refl
  find_item-key name ((i, w) ∷ d) k u keyed =
      let head : name w ≡ i = keyed i w (ground (arith, beq_self i)) in
      let ih = find_item-key name d k u.1 (λ j v g. keyed j v (ground (arith, e.beq_iff i j))) in
      ground (arith, e.beq_iff i k, ih)

  set_default_found-IsUnique :
      (d : Dict K V) (k : K) (v : V) (w : Option V)
      → IsUnique d
      → IsUnique (set_default_found d k v w)
  unfolding set_default_found
  set_default_found-IsUnique d k v none h = put-IsUnique d k v h
  set_default_found-IsUnique d k v (some w) h = h

  pub set_default-IsUnique :
      (d : Dict K V) (k : K) (v : V) → IsUnique d → IsUnique (set_default d k v)
  unfolding set_default
  set_default-IsUnique d k v h = set_default_found-IsUnique d k v _ h
