-- ===== src/Domain/Relationships/Closure/Assignments.antt =====
-- The loop on the two assignments of `derive_runtime_closure`, src/netauto/domain/relationships.py.
use netauto.Prelude.{
  ◌≡◌, refl, sym, subst, inl, inr, Bool, true, false, some, List, [], ◌∷◌, arith, Bool-cases,
  is_empty, find, All, ok, bind_ok, ok_unique,
}
use mathlib.Core.Option.{some-injective}
use netauto.Prelude.SortedSet.{IsStrict, add-IsStrict, add, All-add, add_comm}
use netauto.Domain.Lineage.{ParentById}
use netauto.Domain.Relationships.{RelationshipResolution}
use netauto.Domain.Relationships.Closure.{
  Triple, Endpoint, triple_key, admits, symmetric_closure, add_assignment,
}

pub triple_key_injective : (t u : Triple) → triple_key t ≡ triple_key u → t ≡ u
triple_key_injective (a, (b, c)) (x, (y, z)) h = ground arith

-- the triple of a resolution from one end to the other
abbrev pub triple_of : RelationshipResolution → Endpoint → Endpoint → Triple
triple_of resolution source target = (resolution.id, (source.object_id, target.object_id))

-- what an answer of `admits` adds
add_if : Bool → Triple → List Triple → List Triple
add_if true t exact = add triple_key t exact
add_if false t exact = exact

add_if_comm :
    (b c : Bool) (t u : Triple) (exact : List Triple)
    → add_if b t (add_if c u exact) ≡ add_if c u (add_if b t exact)
unfolding add_if
add_if_comm true true t u exact = add_comm triple_key triple_key_injective t u exact
add_if_comm true false t u exact = refl
add_if_comm false c t u exact = refl

All-add_if :
    (P : Triple → Type 0) (d : Bool) (t : Triple) (ts : List Triple)
    → (d ≡ true → P t)
    → All P ts
    → All P (add_if d t ts)
unfolding add_if
All-add_if P true t ts g every = All-add triple_key P t ts (g refl) every
All-add_if P false t ts g every = every

add_if-IsStrict :
    (d : Bool) (t : Triple) (ts : List Triple)
    → IsStrict triple_key ts
    → IsStrict triple_key (add_if d t ts)
unfolding add_if
add_if-IsStrict true t ts s = add-IsStrict triple_key t ts s
add_if-IsStrict false t ts s = s

module _ (parents : ParentById) where
  abbrev pub Admits : RelationshipResolution → Endpoint → Endpoint → Bool → Type 0
  Admits resolution source target b =
      admits parents resolution source.template_id target.template_id ≡ ok b

  add_assignment-ok :
      (r : RelationshipResolution) (source target : Endpoint) (exact : List Triple) (b : Bool)
      → Admits r source target b
      → add_assignment parents r source target exact
        ≡ ok (add_if b (triple_of r source target) exact)
  unfolding add_assignment add_if
  add_assignment-ok r source target exact true h = rw h refl
  add_assignment-ok r source target exact false h = rw h refl

  assignment_added :
      (r : RelationshipResolution) (source target : Endpoint) (exact : List Triple)
      {result : List Triple}
      → add_assignment parents r source target exact ≡ ok result
      → (b : Bool) × Admits r source target b
        × (add_if b (triple_of r source target) exact ≡ result)
  unfolding add_assignment
  assignment_added r source target exact h =
      let (b, a, k) = bind_ok (admits parents r source.template_id target.template_id) _ h in
      (b, a, ok_unique _ (add_assignment-ok r source target exact b a) h)

  -- what a run of the loop that raises nothing says of its first resolution
  closure_step :
      (r : RelationshipResolution) (rest : List RelationshipResolution) (source target : Endpoint)
      (exact : List Triple) {result : List Triple}
      → symmetric_closure parents (r ∷ rest) source target exact ≡ ok result
      → (b c : Bool) × Admits r source target b
        × Admits r target source c
        × (symmetric_closure parents rest source target
              (add_if c (triple_of r target source) (add_if b (triple_of r source target) exact))
            ≡ ok result)
  unfolding symmetric_closure
  closure_step r rest source target exact {result} h =
      let (one, e₁, h₁) = bind_ok (add_assignment parents r source target exact) _ h in
      let (both, e₂, h₂) = bind_ok (add_assignment parents r target source one) _ h₁ in
      let (b, a₁, k₁) = assignment_added r source target exact e₁ in
      let (c, a₂, k₂) = assignment_added r target source one e₂ in
      let k : both
          ≡ add_if c (triple_of r target source) (add_if b (triple_of r source target) exact) =
        rw k₁ (sym k₂) in
      (b, c, a₁, a₂, subst (λ x. symmetric_closure parents rest source target x ≡ ok result) k h₂)

  -- The loop gives the same set from the other end.
  pub symmetric_closure_swap :
      (rs : List RelationshipResolution) (source target : Endpoint) (exact : List Triple)
      {result : List Triple}
      → symmetric_closure parents rs source target exact ≡ ok result
      → symmetric_closure parents rs target source exact ≡ ok result
  unfolding symmetric_closure
  symmetric_closure_swap [] source target exact h = h
  symmetric_closure_swap (r ∷ rest) source target exact h =
      let (b, c, a₁, a₂, k) = closure_step r rest source target exact h in
      let t = triple_of r source target in
      let u = triple_of r target source in
      rw
        (
          add_assignment-ok r target source exact c a₂,
          add_assignment-ok r source target (add_if c u exact) b a₁,
          add_if_comm b c t u exact,
        )
        (symmetric_closure_swap rest source target _ k)

  -- What holds of the triples that are there and of those that the loop admits holds of all.
  pub All-symmetric_closure :
      (P : Triple → Type 0) (rs : List RelationshipResolution) (source target : Endpoint)
      (exact : List Triple) {result : List Triple}
      → symmetric_closure parents rs source target exact ≡ ok result
      → All P exact
      → All
          (λ r.
            (Admits r source target true → P (triple_of r source target))
            × (Admits r target source true → P (triple_of r target source)))
          rs
      → All P result
  unfolding symmetric_closure
  All-symmetric_closure P [] source target exact h p q = subst (All P) (ok_unique _ refl h) p
  All-symmetric_closure P (r ∷ rest) source target exact h p q =
      let (b, c, a₁, a₂, k) = closure_step r rest source target exact h in
      All-symmetric_closure P rest source target _ k
        (All-add_if P c _ _ (λ e. q.0.1 (subst (Admits r target source) e a₂))
          (All-add_if P b _ _ (λ e. q.0.0 (subst (Admits r source target) e a₁)) p))
        q.1

  pub add-nonempty : (t : Triple) (ts : List Triple) → is_empty (add triple_key t ts) ≡ false
  unfolding add
  add-nonempty t [] = refl
  add-nonempty t (u ∷ us) = ground arith

  add_if-nonempty :
      (d : Bool) (t : Triple) (ts : List Triple)
      → is_empty ts ≡ false
      → is_empty (add_if d t ts) ≡ false
  unfolding add_if
  add_if-nonempty true t ts h = add-nonempty t ts
  add_if-nonempty false t ts h = h

  added_nonempty : (t : Triple) (ts : List Triple) → is_empty (add_if true t ts) ≡ false
  unfolding add_if
  added_nonempty t ts = add-nonempty t ts

  symmetric_closure-grows :
      (rs : List RelationshipResolution) (source target : Endpoint) (exact : List Triple)
      {result : List Triple}
      → symmetric_closure parents rs source target exact ≡ ok result
      → is_empty exact ≡ false
      → is_empty result ≡ false
  unfolding symmetric_closure
  symmetric_closure-grows [] source target exact h n =
      subst (λ x. is_empty x ≡ false) (ok_unique _ refl h) n
  symmetric_closure-grows (r ∷ rest) source target exact h n =
      let (b, c, a₁, a₂, k) = closure_step r rest source target exact h in
      symmetric_closure-grows rest source target _ k
        (add_if-nonempty c _ _ (add_if-nonempty b _ _ n))

  -- An admitted resolution leaves a triple.
  pub symmetric_closure-nonempty :
      (rs : List RelationshipResolution) (p : RelationshipResolution → Bool)
      (source target : Endpoint) (exact : List Triple) {selected : RelationshipResolution}
      {result : List Triple}
      → symmetric_closure parents rs source target exact ≡ ok result
      → find p rs ≡ some selected
      → Admits selected source target true
      → is_empty result ≡ false
  unfolding find
  symmetric_closure-nonempty [] p source target exact h f a = absurd (cc f)
  symmetric_closure-nonempty (r ∷ rest) p source target exact {selected} h f a =
      let (b, c, a₁, a₂, k) = closure_step r rest source target exact h in
      elim (Bool-cases (p r)) [
        | inl t ↦
            let e : r ≡ selected = some-injective r selected (rw t at f) in
            let b_true : b ≡ true = ok_unique _ a₁ (rw e a) in
            symmetric_closure-grows rest source target _ k
              (add_if-nonempty c _ _ (rw b_true (added_nonempty _ _)))
        | inr g ↦ symmetric_closure-nonempty rest p source target _ k (rw g at f) a
      ]

  -- The loop keeps the list ascending.
  pub symmetric_closure-IsStrict :
      (rs : List RelationshipResolution) (source target : Endpoint) (exact : List Triple)
      {result : List Triple}
      → symmetric_closure parents rs source target exact ≡ ok result
      → IsStrict triple_key exact
      → IsStrict triple_key result
  unfolding symmetric_closure
  symmetric_closure-IsStrict [] source target exact h s =
      subst (IsStrict triple_key) (ok_unique _ refl h) s
  symmetric_closure-IsStrict (r ∷ rest) source target exact h s =
      let (b, c, a₁, a₂, k) = closure_step r rest source target exact h in
      symmetric_closure-IsStrict rest source target _ k
        (add_if-IsStrict c _ _ (add_if-IsStrict b _ _ s))
