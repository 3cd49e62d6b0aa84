-- ===== src/Domain/Lineage/Graph.antt =====
-- The walks on a graph that `validate_lineage_graph` accepts, src/netauto/domain/relationships.py.
use netauto.Prelude.{
  ℕ, zero, suc, ◌≡◌, refl, subst, inl, inr, Bool, true, false, Option, none, some, List, [], ◌∷◌,
  arith, Bool-cases, Option-cases, Uuid, ◌==◌, ℕ_eq, list_eq, option_eq, length, contains, ok,
  bind_ok,
}
use netauto.Prelude.Dict.{dict_get, dict_has, keys, keys-contains}
use netauto.Domain.Lineage.{
  ParentById, walk, lineage_is_ancestor, check_lineage, check_lineages, validate_lineage_graph,
}
use netauto.Domain.Lineage.Walk.{Descends, itself, from_parent, lineage_is_ancestor_lem}

walk_follows :
    (fuel : ℕ) (parents : ParentById) (ancestor : Uuid) (seen : List Uuid) (current : Option Uuid)
    → check_lineage fuel parents seen current ≡ ok tt
    → (b : Bool) × (walk fuel parents ancestor seen current ≡ ok b)
unfolding walk check_lineage
walk_follows fuel parents a seen none h = (false, refl)
walk_follows zero parents a seen (some c) h = absurd (cc h)
walk_follows (suc fuel) parents a seen (some c) h = elim (Bool-cases (contains seen c)) [
  | inl t ↦ absurd (cc (rw (t, check_lineage) at h))
  | inr f ↦ elim (Option-cases (dict_get c parents)) [
    | inl n ↦ absurd (cc (rw (f, check_lineage, n) at h))
    | inr (p, found) ↦ elim (Bool-cases (c == a)) [
      | inl t ↦ (true, rw (f, walk, t) refl)
      | inr g ↦
          rw (f, walk, g, found)
            (walk_follows fuel parents a (c ∷ seen) p (rw (f, check_lineage, found) at h))
    ]
  ]
]

checked_at :
    (parents : ParentById) (ls : List Uuid) (l : Uuid)
    → contains ls l ≡ true
    → check_lineages parents ls ≡ ok tt
    → check_lineage (suc (length parents)) parents [] (some l) ≡ ok tt
unfolding check_lineages contains
checked_at parents [] l c h = absurd (cc c)
checked_at parents (x ∷ ls) l c h =
    let (u, first, rest) = bind_ok (check_lineage (suc (length parents)) parents [] (some x)) _ h in
    elim (Bool-cases (x == l)) [
      | inl t ↦
          subst (λ y. check_lineage (suc (length parents)) parents [] (some y) ≡ ok tt)
            ((ℕ_eq.same_iff x l).0 t) first
      | inr f ↦ checked_at parents ls l (ground arith) rest
    ]

-- On a validated graph the walk from a lineage of the graph raises no error: it answers.
pub validated_lineage_answers :
    (parents : ParentById) (ancestor descendant : Uuid)
    → validate_lineage_graph parents ≡ ok tt
    → dict_has descendant parents ≡ true
    → (b : Bool) × (lineage_is_ancestor parents ancestor descendant ≡ ok b)
unfolding lineage_is_ancestor validate_lineage_graph
validated_lineage_answers parents a d v h = elim (Option-cases (dict_get d parents)) [
  | inl n ↦ absurd (ground arith)
  | inr (p, found) ↦
      walk_follows (suc (length parents)) parents a [] (some d)
        (checked_at parents (keys parents) d (keys-contains d parents found) v)
]

Descends-trans :
    (parents : ParentById) (a b c : Uuid)
    → Descends parents a b
    → Descends parents b c
    → Descends parents a c
Descends-trans parents a b _ h itself = h
Descends-trans parents a b _ h (from_parent c p e k) =
    from_parent c p e (Descends-trans parents a b p h k)

lineage_yes :
    (parents : ParentById) (a d : Uuid) (b : Bool)
    → lineage_is_ancestor parents a d ≡ ok b
    → Descends parents a d
    → lineage_is_ancestor parents a d ≡ ok true
lineage_yes parents a d true e h = e
lineage_yes parents a d false e h = absurd ((lineage_is_ancestor_lem parents a d).1 e h)

-- On a validated graph a lineage of the graph is told to descend from each ancestor of every lineage
-- that it is told to descend from.
pub lineage_is_ancestor_trans :
    (parents : ParentById) (a b c : Uuid)
    → validate_lineage_graph parents ≡ ok tt
    → dict_has c parents ≡ true
    → lineage_is_ancestor parents a b ≡ ok true
    → lineage_is_ancestor parents b c ≡ ok true
    → lineage_is_ancestor parents a c ≡ ok true
lineage_is_ancestor_trans parents a b c v h ab bc =
    let (r, e) = validated_lineage_answers parents a c v h in
    lineage_yes parents a c r e (
      Descends-trans parents a b c ((lineage_is_ancestor_lem parents a b).0 ab)
        ((lineage_is_ancestor_lem parents b c).0 bc))
