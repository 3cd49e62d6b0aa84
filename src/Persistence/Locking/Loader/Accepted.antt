-- ===== src/Persistence/Locking/Loader/Accepted.antt =====
-- `load_object_template_ancestry` against the walks of `_object_template_order`, both of
-- src/netauto/persistence/locking.py.
use netauto.Prelude.{
  ℕ, zero, suc, ◌≡◌, refl, subst, ◌⊎◌, inl, inr, true, false, ◌||◌, Option, none, some, List, [],
  ◌∷◌, arith, if◌then◌else◌, Bool-cases, Option-cases, Uuid, ◌==◌, ℕ_eq, list_eq, option_eq, length,
  all, contains, Result, ok, err, ◌>>=◌, ◌>>◌, guard, bind_ok,
}
use netauto.Prelude.Dict.{dict_get, dict_get-set, keys, keys-contains}
use netauto.Persistence.Locking.Keys.{LockError, out_of_fuel, loaded_parent_missing}
use netauto.Persistence.Locking.Ancestry.{Parents, ancestors_of, ancestors}
use netauto.Persistence.Locking.Ancestry.Terminates.{ancestors_end}
use netauto.Persistence.Locking.Canonical.{complete_parents}
use netauto.Persistence.Locking.Loader.{
  gather, parent_loaded, climb, climb_all, load_object_template_ancestry,
}

-- `setdefault(id, None)` for each id
dict_get-complete_parents :
    (k : Uuid) (ids : List Uuid) (loaded : Parents)
    → dict_get k (complete_parents ids loaded) ≡ elim (dict_get k loaded) [
      | some p ↦ some p
      | none ↦ if contains ids k then some none else none
    ]
unfolding complete_parents contains
dict_get-complete_parents k [] loaded = ground arith
dict_get-complete_parents k (i ∷ ids) loaded = ground (
  arith,
  dict_get-complete_parents k ids loaded,
  dict_get-complete_parents i ids loaded,
  dict_get-set k i none (complete_parents ids loaded),
)

-- the walk returned, or ran out of fuel
abbrev IsWalked : Result LockError (List Uuid) → Type 0
IsWalked r = ((above : List Uuid) × (r ≡ ok above)) ⊎ (r ≡ err out_of_fuel)

IsWalked-bind :
    (r : Result LockError (List Uuid)) (c : Uuid)
    → IsWalked r
    → IsWalked (do rest ← r; ok (c ∷ rest))
IsWalked-bind r c (inl (above, e)) = inl (c ∷ above, rw e refl)
IsWalked-bind r c (inr e) = inr (rw e refl)

walk_follows :
    (fuel steps : ℕ) (loaded parents : Parents) (d : Uuid) (seen below : List Uuid)
    (current : Option Uuid)
    → ((k : Uuid) (p : Option Uuid) → dict_get k loaded ≡ some p → dict_get k parents ≡ some p)
    → ((x : Uuid) → contains below x ≡ (contains seen x || x == d))
    → climb steps loaded below current ≡ ok tt
    → IsWalked (ancestors_of fuel parents d seen current)
unfolding ancestors_of climb contains
walk_follows fuel steps loaded parents d seen below none k s h = inl ([], refl)
walk_follows zero steps loaded parents d seen below (some c) k s h = inr refl
walk_follows (suc fuel) zero loaded parents d seen below (some c) k s h = absurd (cc h)
walk_follows (suc fuel) (suc steps) loaded parents d seen below (some c) k s h =
    elim (Bool-cases (contains below c)) [
      | inl t ↦ absurd (cc (rw (t, climb) at h))
      | inr f ↦ elim (Option-cases (dict_get c loaded)) [
        | inl n ↦ absurd (cc (rw (f, climb, n) at h))
        | inr (p, found) ↦
            let fresh : (contains seen c || c == d) ≡ false = ground (arith, s c) in
            rw (fresh, ancestors_of)
              (rw (k c p found) (
                IsWalked-bind (ancestors_of fuel parents d (c ∷ seen) p) c (
                  walk_follows fuel steps loaded parents d (c ∷ seen) (c ∷ below) p k
                    (λ x. ground (arith, s x)) (rw (f, climb, found) at h))))
      ]
    ]

-- every loaded lineage was climbed
climb_all_at :
    (loaded : Parents) (ls : List Uuid) (l : Uuid)
    → contains ls l ≡ true
    → climb_all loaded ls ≡ ok tt
    → climb (suc (length loaded)) loaded [] (some l) ≡ ok tt
unfolding climb_all contains
climb_all_at loaded [] l c h = absurd (cc c)
climb_all_at loaded (x ∷ ls) l c h =
    let (u, first, rest) = bind_ok (climb (suc (length loaded)) loaded [] (some x)) _ h in
    elim (Bool-cases (x == l)) [
      | inl t ↦
          subst (λ y. climb (suc (length loaded)) loaded [] (some y) ≡ ok tt)
            ((ℕ_eq.same_iff x l).0 t) first
      | inr f ↦ climb_all_at loaded ls l (ground arith) rest
    ]

climbed_once :
    (steps : ℕ) (loaded : Parents) (l : Uuid) (p : Option Uuid)
    → dict_get l loaded ≡ some p
    → climb (suc steps) loaded [] (some l) ≡ ok tt
    → climb steps loaded (l ∷ []) p ≡ ok tt
unfolding climb contains
climbed_once steps loaded l p e h = rw (e, climb) at h

module _ (loaded : Parents) (planned : List Uuid) where
  kept :
      (k : Uuid) (p : Option Uuid)
      → dict_get k loaded ≡ some p
      → dict_get k (complete_parents planned loaded) ≡ some p
  kept k p h = ground (arith, dict_get-complete_parents k planned loaded)

  walked :
      (l : Uuid)
      → climb_all loaded (keys loaded) ≡ ok tt
      → contains planned l ≡ true
      → IsWalked (ancestors (complete_parents planned loaded) l)
  unfolding ancestors contains
  walked l h c = elim (Option-cases (dict_get l loaded)) [
    | inl n ↦
        let absent : dict_get l (complete_parents planned loaded) ≡ some none =
          ground (arith, dict_get-complete_parents l planned loaded) in
        rw (absent, ancestors) (inl ([], refl))
    | inr (p, found) ↦
        rw (kept l p found, ancestors)
          (walk_follows (suc (length (complete_parents planned loaded))) (length loaded) loaded
            (complete_parents planned loaded) l [] (l ∷ []) p kept (λ x. ground arith)
            (climbed_once (length loaded) loaded l p found
              (climb_all_at loaded (keys loaded) l (keys-contains l loaded found) h)))
  ]

walk_ends :
    (parents : Parents) (l : Uuid)
    → IsWalked (ancestors parents l)
    → (above : List Uuid) × (ancestors parents l ≡ ok above)
walk_ends parents l (inl w) = w
walk_ends parents l (inr e) = absurd (ancestors_end parents l e)

-- When the loader returns a mapping of parents, the planner's walk up from every planned lineage
-- over that mapping returns its ancestors: it meets no cycle and no missing lineage.
pub load_object_template_ancestry_accepted :
    (statement : List Uuid → List (Uuid × Option Uuid)) (planned : List Uuid) (parents : Parents)
    (l : Uuid)
    → load_object_template_ancestry statement planned ≡ ok parents
    → contains planned l ≡ true
    → (above : List Uuid) × (ancestors parents l ≡ ok above)
unfolding load_object_template_ancestry contains
load_object_template_ancestry_accepted statement [] parents l h c = absurd (cc c)
load_object_template_ancestry_accepted statement (id ∷ ids) parents l h c =
    let (loaded, gathered, h₁) = bind_ok (gather (statement (id ∷ ids)) []) _ h in
    let (u, guarded, h₂) =
      bind_ok
        (guard (all (λ (_, parent). parent_loaded loaded parent) loaded) loaded_parent_missing)
        (λ _. do climb_all loaded (keys loaded); ok (complete_parents (id ∷ ids) loaded)) h₁ in
    let (v, climbed, h₃) =
      bind_ok (climb_all loaded (keys loaded)) (λ _. ok (complete_parents (id ∷ ids) loaded)) h₂ in
    let same_parents : complete_parents (id ∷ ids) loaded ≡ parents = cc h₃ in
    walk_ends parents l
      (subst (λ m. IsWalked (ancestors m l)) same_parents (walked loaded (id ∷ ids) l climbed c))
