-- ===== src/Domain/Relationships/Closure/Validated.antt =====
-- `validate_relationship` of src/netauto/domain/relationships.py on the rows that
-- `derive_runtime_closure` derives.
use netauto.Prelude.{
  ℕ, suc, ◌<◌, ◌≡◌, refl, sym, ap, subst, ◌∙◌, inl, inr, true, false, ◌&&◌, some, List, [], ◌∷◌,
  map, arith, leb, Text, Uuid, ◌==◌, ℕ_eq, same_refl, list_eq, option_eq, length, is_empty, all,
  All, ok, bind_ok, ok_unique, all,
}
use netauto.Prelude.Dict.{Dict, dict_get}
use netauto.Prelude.SortedSet.{
  min_by-IsStrict, set_of-IsStrict, min_by, set_of, IsStrict, min_by, sort_by-IsStrict,
  min_by-IsStrict,
}
use netauto.Domain.Value.{Value}
use netauto.Domain.Lineage.{ParentById}
use netauto.Domain.Relationships.{RelationshipDefinition}
use netauto.Domain.Relationships.Closure.{
  Triple, Endpoint, triples_beq, endpoint, triple_key, row_triple, RuntimeRelationshipResolution,
  derive_runtime_closure, check_rows, row_key, triple_beq, Relationship, exact_closure, runtime_row,
  check_selector, validate_relationship,
}
use netauto.Domain.Relationships.Closure.Derived.{
  exact_closure-IsStrict, Reselects, exact_closure-nonempty, exact_closure-Reselects,
}
use netauto.Prelude.Sort.{lex_lt}

-- the rows of an ascending set
abbrev pub rows_of : Uuid → Uuid → List Triple → List RuntimeRelationshipResolution
rows_of factual definition ts = map (runtime_row factual definition) ts

triples-rows_of :
    (factual definition : Uuid) (ts : List Triple)
    → map row_triple (rows_of factual definition ts) ≡ ts
triples-rows_of factual definition [] = refl
triples-rows_of factual definition (t ∷ ts) =
    ap (λ us. t ∷ us) (triples-rows_of factual definition ts)

all-rows_of :
    (factual definition : Uuid) (ts : List Triple)
    → all
        (λ row. row.relationship_id == factual && row.relationship_definition_id == definition)
        (rows_of factual definition ts)
      ≡ true
unfolding all
all-rows_of factual definition [] = refl
all-rows_of factual definition (t ∷ ts) =
    rw (same_refl factual, same_refl definition) (all-rows_of factual definition ts)

IsStrict-rows_of :
    (factual definition : Uuid) (ts : List Triple)
    → IsStrict triple_key ts
    → IsStrict row_key (rows_of factual definition ts)
IsStrict-rows_of factual definition [] s = tt
IsStrict-rows_of factual definition (t ∷ ts) s =
    (above ts s.0, IsStrict-rows_of factual definition ts s.1)
  where
    above :
        (us : List Triple)
        → All (λ u. lex_lt (triple_key t) (triple_key u) ≡ true) us
        → All (λ row. lex_lt (triple_key t) (row_key row) ≡ true) (rows_of factual definition us)
    above [] h = tt
    above (u ∷ us) h = (h.0, above us h.1)

triples_beq-same : (ts : List Triple) → triples_beq ts ts ≡ true
unfolding triples_beq triple_beq
triples_beq-same [] = refl
triples_beq-same ((a, (b, c)) ∷ ts) =
    rw (same_refl a, same_refl b, same_refl c) (triples_beq-same ts)

derived_rows :
    (definition : RelationshipDefinition) (id : Uuid) (source target : Endpoint)
    (parents : ParentById) (factual : Uuid) {exact : List Triple}
    → exact_closure definition id source target parents ≡ ok exact
    → derive_runtime_closure definition id source target parents factual
      ≡ ok (rows_of factual definition.id exact)
unfolding derive_runtime_closure
derived_rows definition id source target parents factual h =
    rw
      (
        h,
        sort_by-IsStrict triple_key _
            (exact_closure-IsStrict parents definition id source target h),
      )
      refl

positive_test : (n : ℕ) → 0 < n → leb n 0 ≡ false
positive_test n h = ground arith

length-rows_of :
    (factual definition : Uuid) (ts : List Triple)
    → length (rows_of factual definition ts) ≡ length ts
length-rows_of factual definition [] = refl
length-rows_of factual definition (t ∷ ts) = ap suc (length-rows_of factual definition ts)

-- The mapping gives the object of the endpoint its template.
abbrev pub Knows : Dict Uuid Uuid → Endpoint → Type 0
Knows templates e = dict_get e.object_id templates ≡ some e.template_id

endpoint-Knows :
    (templates : Dict Uuid Uuid) (e : Endpoint)
    → Knows templates e
    → endpoint templates e.object_id ≡ ok e
unfolding endpoint
endpoint-Knows templates e h = rw (endpoint, h) refl

-- A relationship of the definition with the given rows.
abbrev pub relationship_of :
    RelationshipDefinition
    → Uuid
    → ℕ
    → Dict Text Value
    → List RuntimeRelationshipResolution
    → Relationship
relationship_of definition factual version properties rows = record {
  id = factual;
  relationship_definition_id = definition.id;
  resolutions = rows;
  relationship_definition_version = version;
  properties = properties;
}

module _ (definition : RelationshipDefinition) (parents : ParentById)
    (templates : Dict Uuid Uuid) where
  check_selector-derived :
      (factual : Uuid) (version : ℕ) (properties : Dict Text Value) (t : Triple)
      (exact : List Triple) (source target : Endpoint)
      → Knows templates source
      → Knows templates target
      → t.1 ≡ (source.object_id, target.object_id)
      → exact_closure definition t.0 source target parents ≡ ok exact
      → check_selector
          (relationship_of definition factual version properties
            (rows_of factual definition.id exact))
          definition
          parents
          templates
          (runtime_row factual definition.id t)
        ≡ ok tt
  unfolding check_selector
  check_selector-derived factual version properties t exact source target ks kt ends h =
      let from_end : endpoint templates t.1.0 ≡ ok source =
        rw ends (endpoint-Knows templates source ks) in
      let to_end : endpoint templates t.1.1 ≡ ok target =
        rw ends (endpoint-Knows templates target kt) in
      let keys : set_of triple_key (map row_triple (rows_of factual definition.id exact)) ≡ exact =
        ap (set_of triple_key) (triples-rows_of factual definition.id exact)
        ∙ set_of-IsStrict triple_key exact
            (exact_closure-IsStrict parents definition t.0 source target h) in
      let lengths : length (rows_of factual definition.id exact) ≡ length exact =
        length-rows_of factual definition.id exact in
      rw from_end rw to_end rw (derived_rows definition t.0 source target parents factual h) rw
        (keys, triples_beq-same exact, lengths, same_refl (length exact)) refl

  check_rows-selected :
      (factual : Uuid) (version : ℕ) (properties : Dict Text Value) (t : Triple) (ts : List Triple)
      (source target : Endpoint)
      → Knows templates source
      → Knows templates target
      → t.1 ≡ (source.object_id, target.object_id)
      → exact_closure definition t.0 source target parents ≡ ok (t ∷ ts)
      → let rows = rows_of factual definition.id (t ∷ ts) in
        check_rows
          (relationship_of definition factual version properties rows)
          definition
          parents
          templates
          rows
        ≡ ok tt
  unfolding check_rows
  check_rows-selected factual version properties t ts source target ks kt ends h =
      let first = runtime_row factual definition.id t in
      let rest = rows_of factual definition.id ts in
      let strict = exact_closure-IsStrict parents definition t.0 source target h in
      let least : min_by row_key first rest ≡ first =
        min_by-IsStrict row_key first rest
          (IsStrict-rows_of factual definition.id (t ∷ ts) strict) in
      rw (all-rows_of factual definition.id (t ∷ ts)) (
        subst
          (λ r.
            check_selector (relationship_of definition factual version properties (first ∷ rest))
              definition parents templates r
            ≡ ok tt)
          (sym least)
          (check_selector-derived factual version properties t (t ∷ ts) source target ks kt ends h))

  check_rows-derived :
      (factual : Uuid) (version : ℕ) (properties : Dict Text Value) (exact : List Triple)
      (source target : Endpoint)
      → Knows templates source
      → Knows templates target
      → is_empty exact ≡ false
      → All (Reselects parents definition exact source target) exact
      → let rows = rows_of factual definition.id exact in
        check_rows
          (relationship_of definition factual version properties rows)
          definition
          parents
          templates
          rows
        ≡ ok tt
  check_rows-derived factual version properties [] source target ks kt n r = absurd (cc n)
  check_rows-derived factual version properties (t ∷ ts) source target ks kt n r = elim r.0 [
    | inl (ends, h) ↦ check_rows-selected factual version properties t ts source target ks kt ends h
    | inr (ends, h) ↦ check_rows-selected factual version properties t ts target source kt ks ends h
  ]

  -- A Relationship whose rows `derive_runtime_closure` derived, from whichever resolution and end,
  -- is accepted where its version is positive and the mapping gives both objects their templates.
  pub validate-derive :
      (selected_id : Uuid) (source target : Endpoint) (factual : Uuid) (version : ℕ)
      (properties : Dict Text Value) {rows : List RuntimeRelationshipResolution}
      → 0 < version
      → Knows templates source
      → Knows templates target
      → derive_runtime_closure definition selected_id source target parents factual ≡ ok rows
      → validate_relationship
          (relationship_of definition factual version properties rows)
          definition
          parents
          templates
        ≡ ok tt
  unfolding derive_runtime_closure validate_relationship
  validate-derive selected_id source target factual version properties {rows} pos ks kt h =
      let (exact, e, k) =
        bind_ok (exact_closure definition selected_id source target parents) _ h in
      let same : rows_of factual definition.id exact ≡ rows =
        ok_unique _ (derived_rows definition selected_id source target parents factual e) h in
      rw (positive_test version pos, same_refl definition.id)
        (subst
          (λ rs.
            check_rows (relationship_of definition factual version properties rs) definition parents
              templates rs
            ≡ ok tt)
          same
          (check_rows-derived factual version properties exact source target ks kt
            (exact_closure-nonempty parents definition selected_id source target e)
            (exact_closure-Reselects parents definition selected_id source target e)))
