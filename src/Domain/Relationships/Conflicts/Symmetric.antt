-- ===== src/Domain/Relationships/Conflicts/Symmetric.antt =====
-- `first_conflict` of src/netauto/domain/relationships.py with its two definitions exchanged.
use netauto.Prelude.{
  ◌≡◌, refl, sym, ap, ◌∙◌, inl, inr, Bool, true, false, ◌&&◌, ◌||◌, none, List, [], ◌∷◌, arith,
  Bool-cases, Option-cases, Text, Uuid, ◌==◌, ℕ_eq, same_refl, list_beq_iff, list_eq, option_eq,
  All, ok, bind_ok, Bool_ext,
}
use netauto.Prelude.Dict.{dict_has}
use netauto.Domain.Lineage.{
  ParentById, validate_lineage_graph, lineage_spaces_overlap, lineage_is_ancestor,
}
use netauto.Domain.Lineage.Graph.{validated_lineage_answers}
use netauto.Domain.Relationships.{
  RelationshipDefinition, RelationshipResolution, validate_definition,
}
use netauto.Domain.Relationships.Conflicts.{
  first_conflict, conflict_with, conflict_among, resolutions_conflict,
}

-- both templates of the resolution are in the graph
abbrev pub IsKnown : ParentById → RelationshipResolution → Type 0
IsKnown parents r =
    (dict_has r.from_template_id parents ≡ true) × (dict_has r.to_template_id parents ≡ true)

or_comm : (p q : Bool) → (p || q) ≡ (q || p)
or_comm true true = refl
or_comm true false = refl
or_comm false true = refl
or_comm false false = refl

module _ (parents : ParentById) (valid : validate_lineage_graph parents ≡ ok tt) where
  overlap_of :
      (x y : Uuid) (p q : Bool)
      → lineage_is_ancestor parents x y ≡ ok p
      → lineage_is_ancestor parents y x ≡ ok q
      → lineage_spaces_overlap parents x y ≡ ok (p || q)
  unfolding lineage_spaces_overlap
  overlap_of x y true q h k = rw h refl
  overlap_of x y false q h k = rw h k

  overlap_sym :
      (x y : Uuid)
      → dict_has x parents ≡ true
      → dict_has y parents ≡ true
      → (b : Bool) × (lineage_spaces_overlap parents x y ≡ ok b)
        × (lineage_spaces_overlap parents y x ≡ ok b)
  overlap_sym x y hx hy =
      let (p, e) = validated_lineage_answers parents x y valid hy in
      let (q, f) = validated_lineage_answers parents y x valid hx in
      (p || q, overlap_of x y p q e f, overlap_of y x q p f e ∙ ap ok (or_comm q p))

  names_sym : (s t : Text) → (s == t) ≡ (t == s)
  names_sym s t =
      Bool_ext (s == t) (t == s) (λ h. (list_beq_iff t s).1 (sym ((list_beq_iff s t).0 h)))
        (λ h. (list_beq_iff s t).1 (sym ((list_beq_iff t s).0 h)))

  conflict_of :
      (r s : RelationshipResolution) (n b c : Bool)
      → (r.name == s.name) ≡ n
      → lineage_spaces_overlap parents r.from_template_id s.from_template_id ≡ ok b
      → lineage_spaces_overlap parents r.to_template_id s.to_template_id ≡ ok c
      → resolutions_conflict parents r s ≡ ok (n && (b && c))
  unfolding resolutions_conflict
  conflict_of r s false b c e f g = rw (resolutions_conflict, e) refl
  conflict_of r s true false c e f g = rw (resolutions_conflict, e, f) refl
  conflict_of r s true true c e f g = rw (resolutions_conflict, e, f) g

  conflict_sym :
      (r s : RelationshipResolution)
      → IsKnown parents r
      → IsKnown parents s
      → resolutions_conflict parents r s ≡ resolutions_conflict parents s r
  conflict_sym r s kr ks =
      let (b, e, f) = overlap_sym r.from_template_id s.from_template_id kr.0 ks.0 in
      let (c, g, k) = overlap_sym r.to_template_id s.to_template_id kr.1 ks.1 in
      conflict_of r s (r.name == s.name) b c refl e g
      ∙ sym (conflict_of s r (r.name == s.name) b c (names_sym s.name r.name) f k)

  -- no pair of the two lists conflicts
  abbrev NoPairs : List RelationshipResolution → List RelationshipResolution → Type 0
  NoPairs rs ss = All (λ r. All (λ s. resolutions_conflict parents r s ≡ ok false) ss) rs

  with_none :
      (r : RelationshipResolution) (ss : List RelationshipResolution)
      → conflict_with parents r ss ≡ ok none
      → All (λ s. resolutions_conflict parents r s ≡ ok false) ss
  unfolding conflict_with
  with_none r [] h = tt
  with_none r (s ∷ ss) h =
      let (b, e, k) = bind_ok (resolutions_conflict parents r s) _ h in
      elim (Bool-cases b) [
        | inl t ↦ absurd (cc (rw t at k))
        | inr f ↦ (cc (e, f), with_none r ss (rw f at k))
      ]

  none_with :
      (r : RelationshipResolution) (ss : List RelationshipResolution)
      → All (λ s. resolutions_conflict parents r s ≡ ok false) ss
      → conflict_with parents r ss ≡ ok none
  unfolding conflict_with
  none_with r [] h = refl
  none_with r (s ∷ ss) h = rw h.0 (none_with r ss h.1)

  among_none :
      (rs ss : List RelationshipResolution) → conflict_among parents rs ss ≡ ok none → NoPairs rs ss
  unfolding conflict_among
  among_none [] ss h = tt
  among_none (r ∷ rs) ss h =
      let (o, e, k) = bind_ok (conflict_with parents r ss) _ h in
      elim (Option-cases o) [
        | inl n ↦ (with_none r ss (cc (e, n)), among_none rs ss (rw n at k))
        | inr (p, n) ↦ absurd (cc (rw n at k))
      ]

  none_among :
      (rs ss : List RelationshipResolution) → NoPairs rs ss → conflict_among parents rs ss ≡ ok none
  unfolding conflict_among
  none_among [] ss h = refl
  none_among (r ∷ rs) ss h = rw (none_with r ss h.0) (none_among rs ss h.1)

  column :
      (s : RelationshipResolution) (rs : List RelationshipResolution)
      (ss : List RelationshipResolution)
      → IsKnown parents s
      → All (IsKnown parents) rs
      → NoPairs rs (s ∷ ss)
      → All (λ r. resolutions_conflict parents s r ≡ ok false) rs × NoPairs rs ss
  column s [] ss ks kr h = (tt, tt)
  column s (r ∷ rs) ss ks kr h =
      let (first, rest) = column s rs ss ks kr.1 h.1 in
      ((conflict_sym s r ks kr.0 ∙ h.0.0, first), (h.0.1, rest))

  transposed :
      (rs ss : List RelationshipResolution)
      → All (IsKnown parents) rs
      → All (IsKnown parents) ss
      → NoPairs rs ss
      → NoPairs ss rs
  transposed rs [] kr ks h = tt
  transposed rs (s ∷ ss) kr ks h =
      let (first, rest) = column s rs ss ks.0 kr h in (first, transposed rs ss kr ks.1 rest)

  -- Where the graph is validated and holds the templates of both definitions, and one definition as
  -- the candidate has no conflict with the other, the other as the candidate has none with the one.
  pub first_conflict_sym :
      (candidate existing : RelationshipDefinition)
      → All (IsKnown parents) candidate.resolutions
      → All (IsKnown parents) existing.resolutions
      → first_conflict candidate existing parents ≡ ok none
      → first_conflict existing candidate parents ≡ ok none
  unfolding first_conflict
  first_conflict_sym candidate existing kc ke h =
      let (u, vc, h₁) = bind_ok (validate_definition candidate) _ h in
      let (w, ve, h₂) = bind_ok (validate_definition existing) _ h₁ in
      elim (Bool-cases (candidate.id == existing.id)) [
        | inl t ↦
            rw (ve, vc, (ℕ_eq.same_iff candidate.id existing.id).0 t, same_refl existing.id) refl
        | inr f ↦
            rw (ve, vc, ids_sym existing.id candidate.id f)
              (none_among existing.resolutions candidate.resolutions (
                transposed candidate.resolutions existing.resolutions kc ke
                  (among_none candidate.resolutions existing.resolutions (rw f at h₂))))
      ]
    where
      ids_sym : (x y : Uuid) → (y == x) ≡ false → (x == y) ≡ false
      ids_sym x y e = ground arith
