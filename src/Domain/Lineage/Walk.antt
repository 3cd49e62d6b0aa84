-- ===== src/Domain/Lineage/Walk.antt =====
-- What the walk of `lineage_is_ancestor` answers, src/netauto/domain/relationships.py.
use netauto.Prelude.{
  ℕ, zero, suc, ◌+◌, ◌<◌, ◌≡◌, refl, subst, ◌≢◌, ◌⊎◌, inl, inr, Bool, true, false, Option, none,
  some, List, [], ◌∷◌, arith, Bool-cases, Option-cases, Uuid, ◌==◌, ℕ_eq, list_eq, option_eq,
  length, contains, distinct, Result, ok, err,
}
use mathlib.Core.Option.{some-injective}
use netauto.Prelude.Dict.{dict_get, keys, keys-contains, length-keys}
use netauto.Prelude.Pigeonhole.{Within, pigeonhole}
use netauto.Domain.Errors.{DomainError, out_of_fuel}
use netauto.Domain.Lineage.{ParentById, walk, lineage_is_ancestor}

-- `descendant` is `ancestor`, or has a parent that descends from it.
pub data Descends (parents : ParentById) (ancestor : Uuid) : Uuid → Type 0 where
  itself : Descends parents ancestor ancestor
  from_parent :
      (descendant parent : Uuid)
      → dict_get descendant parents ≡ some (some parent)
      → Descends parents ancestor parent
      → Descends parents ancestor descendant

pub Descends-cases :
    (parents : ParentById) (ancestor descendant : Uuid)
    → Descends parents ancestor descendant
    → (descendant ≡ ancestor)
      ⊎ ((parent : Uuid) × (dict_get descendant parents ≡ some (some parent))
          × Descends parents ancestor parent)
Descends-cases parents a _ itself = inl refl
Descends-cases parents a _ (from_parent d p e h) = inr (p, e, h)

-- the same of an optional start
abbrev Reaches : ParentById → Uuid → Option Uuid → Type 0
Reaches parents ancestor none = ⊥
Reaches parents ancestor (some d) = Descends parents ancestor d

abbrev Answers : ParentById → Uuid → Option Uuid → Result DomainError Bool → Type 0
Answers parents ancestor d (ok true) = Reaches parents ancestor d
Answers parents ancestor d (ok false) = Reaches parents ancestor d → ⊥
Answers parents ancestor d (err e) = Unit

-- one step up, from a lineage that is not the ancestor
step_up :
    (parents : ParentById) (ancestor current : Uuid) (parent : Option Uuid)
    → dict_get current parents ≡ some parent
    → (current == ancestor) ≡ false
    → (r : Result DomainError Bool) → Answers parents ancestor parent r
    → Answers parents ancestor (some current) r
step_up parents ancestor current (some p) found differ (ok true) h = from_parent current p found h
step_up parents ancestor current none found differ (ok true) h = elim h [ ]
step_up parents ancestor current parent found differ (ok false) h = λ d.
    elim (Descends-cases parents ancestor current d) [
      | inl e ↦ ground (arith, e)
      | inr (p, e, k) ↦
          h (subst (Reaches parents ancestor) (some-injective (some p) parent (cc (e, found))) k)
    ]
step_up parents ancestor current parent found differ (err e) h = tt

walk-Answers :
    (fuel : ℕ) (parents : ParentById) (ancestor : Uuid) (seen : List Uuid) (current : Option Uuid)
    → Answers parents ancestor current (walk fuel parents ancestor seen current)
unfolding walk
walk-Answers fuel parents a seen none = λ h. h
walk-Answers zero parents a seen (some c) = tt
walk-Answers (suc fuel) parents a seen (some c) = elim (Bool-cases (contains seen c)) [
  | inl t ↦ rw (t, walk) tt
  | inr f ↦
      rw (f, walk)
        (elim (Bool-cases (c == a)) [
          | inl t ↦ rw t (subst (Descends parents a) ((ℕ_eq.same_iff a c).0 (ground arith)) itself)
          | inr g ↦ rw g (elim (Option-cases (dict_get c parents)) [
            | inl n ↦ rw n tt
            | inr (p, found) ↦
                rw found
                  (step_up parents a c p found g _ (walk-Answers fuel parents a (c ∷ seen) p))
          ])
        ])
]

walk_ends :
    (fuel : ℕ) (parents : ParentById) (ancestor : Uuid) (seen : List Uuid) (current : Option Uuid)
    → distinct seen ≡ true
    → Within seen (keys parents)
    → length parents < fuel + length seen
    → walk fuel parents ancestor seen current ≢ err out_of_fuel
unfolding walk distinct
walk_ends fuel parents a seen none u w m = λ e. cc
walk_ends zero parents a seen (some c) u w m =
    absurd (omega (arith, pigeonhole seen (keys parents) u w, length-keys parents))
walk_ends (suc fuel) parents a seen (some c) u w m = elim (Bool-cases (contains seen c)) [
  | inl t ↦ rw (t, walk) (λ e. cc)
  | inr f ↦
      rw (f, walk)
        (elim (Bool-cases (c == a)) [
          | inl t ↦ rw t (λ e. cc)
          | inr g ↦ rw g (elim (Option-cases (dict_get c parents)) [
            | inl n ↦ rw n (λ e. cc)
            | inr (p, found) ↦ rw found (
                walk_ends fuel parents a (c ∷ seen) p (ground arith)
                  (keys-contains c parents found, w) (omega arith))
          ])
        ])
]

-- The walk ends within its fuel on every mapping, cyclic or not.
pub lineage_is_ancestor_ends :
    (parents : ParentById) (ancestor descendant : Uuid)
    → lineage_is_ancestor parents ancestor descendant ≢ err out_of_fuel
unfolding lineage_is_ancestor distinct
lineage_is_ancestor_ends parents a d =
    walk_ends (suc (length parents)) parents a [] (some d) refl tt (omega arith)

-- The answer is true only for a lineage that descends from the ancestor, and false only for one that
-- does not.
pub lineage_is_ancestor_lem :
    (parents : ParentById) (ancestor descendant : Uuid)
    → (lineage_is_ancestor parents ancestor descendant ≡ ok true
        → Descends parents ancestor descendant)
      × (lineage_is_ancestor parents ancestor descendant ≡ ok false
          → Descends parents ancestor descendant
          → ⊥)
unfolding lineage_is_ancestor
lineage_is_ancestor_lem parents a d =
    let h = walk-Answers (suc (length parents)) parents a [] (some d) in
    (λ e. subst (Answers parents a (some d)) e h, λ e. subst (Answers parents a (some d)) e h)
