-- ===== src/Prelude/Dict.antt =====
-- A Python dict as the list of its items in insertion order. A key that is written again keeps its
-- place.
use netauto.Prelude.{
  suc, ◌≡◌, refl, ap, Bool, true, Option, none, some, List, [], ◌∷◌, map, arith, if◌then◌else◌,
  is_some, HasEq, ◌==◌, ℕ_eq, list_eq, option_eq, length, contains,
}

abbrev pub Dict {ℓ κ} : Type ℓ → Type κ → Type (ℓ ⊔ κ)
Dict K V = List (K × V)

abbrev pub keys {ℓ κ} : {K : Type ℓ} {V : Type κ} → Dict K V → List K
keys d = map (λ (k, _). k) d

module _ {ℓ κ} {K : Type ℓ} {V : Type κ} ⦃e : HasEq K⦄ where
  -- `d.get(k)`
  unfoldable pub dict_get : K → Dict K V → Option V
  dict_get k [] = none
  dict_get k ((j, v) ∷ d) = if j == k then some v else dict_get k d

  -- `d[k] = v`
  unfoldable pub dict_set : K → V → Dict K V → Dict K V
  dict_set k v [] = (k, v) ∷ []
  dict_set k v ((j, w) ∷ d) =
      let later = dict_set k v d in if j == k then (j, v) ∷ d else (j, w) ∷ later

  -- `d.pop(k, None)`; a dict holds a key once
  unfoldable pub dict_pop : K → Dict K V → Dict K V
  dict_pop k [] = []
  dict_pop k ((j, w) ∷ d) = let rest = dict_pop k d in if j == k then rest else (j, w) ∷ rest

  abbrev pub dict_has : K → Dict K V → Bool
  dict_has k d = is_some (dict_get k d)

  pub dict_get-set :
      (j k : K) (v : V) (d : Dict K V)
      → dict_get j (dict_set k v d) ≡ (if k == j then some v else dict_get j d)
  unfolding dict_get dict_set
  dict_get-set j k v [] = refl
  dict_get-set j k v ((i, w) ∷ d) =
      ground (arith, dict_get-set j k v d, e.same_iff i k, e.same_iff i j, e.same_iff k j)

  pub dict_get-pop :
      (j k : K) (d : Dict K V) → dict_get j (dict_pop k d) ≡ (if k == j then none else dict_get j d)
  unfolding dict_get dict_pop
  dict_get-pop j k [] = ground arith
  dict_get-pop j k ((i, w) ∷ d) =
      ground (arith, dict_get-pop j k d, e.same_iff i k, e.same_iff i j, e.same_iff k j)

  pub keys-contains :
      (k : K) (d : Dict K V) {v : V} → dict_get k d ≡ some v → contains (keys d) k ≡ true
  unfolding dict_get contains
  keys-contains k [] h = cc
  keys-contains k ((j, w) ∷ d) {v} h = ground (arith, keys-contains k d {v = v})

pub length-keys {ℓ κ} : {K : Type ℓ} {V : Type κ} (d : Dict K V) → length (keys d) ≡ length d
length-keys [] = refl
length-keys (e ∷ d) = ap suc (length-keys d)
