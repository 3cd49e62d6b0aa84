-- ===== src/Persistence/Locking/Canonical/Unique.antt =====
-- `_canonical_intents` of src/netauto/persistence/locking.py on two requests for the same rows.
use netauto.Prelude.{
  ◌<◌, ◌≡◌, refl, sym, ap, ap₂, subst, ◌∙◌, inl, inr, true, List, [], ◌∷◌, arith, ltb, Bool-cases,
  Uuid, All, ok,
}
use netauto.Prelude.Sort.{lex_lt, lex_lt_irrefl, lex_lt_asymm, sort_by}
use netauto.Persistence.Locking.Keys.{
  RowLockKey, RowLockIntent, mode_value, key_beq, key_beq_iff, RowLockMode,
}
use netauto.Persistence.Locking.Canonical.Strict.{
  IsStrict, IsMade, sorted-IsStrict, canonical_steps, sorted_strongest,
}
use netauto.Persistence.Locking.Coalesce.Strongest.{strongest}
use netauto.Persistence.Locking.Canonical.{
  sort_key, planned_lineages, lineage_order, canonical_intents,
}
use netauto.Persistence.Locking.Ancestry.{Parents}
use netauto.Persistence.Locking.Coalesce.{coalesce}

mode_value_injective : (a b : RowLockMode) → mode_value a ≡ mode_value b → a ≡ b
unfolding mode_value
mode_value_injective a b h = ground arith

mode_value-pos : (m : RowLockMode) → 0 < mode_value m
unfolding mode_value
mode_value-pos m = ground arith

-- the sort key reads the row key alone
sort_key_of_key :
    (order : List Uuid) (i j : RowLockIntent) → i.key ≡ j.key → sort_key order i ≡ sort_key order j
unfolding sort_key
sort_key_of_key order i j h = cc

module _ (order : List Uuid) where
  -- what a strict list asks for stands above the bound of the list
  above_asked :
      (x i : RowLockIntent) (xs : List RowLockIntent)
      → 0 < strongest i.key xs
      → All (λ y. lex_lt (sort_key order x) (sort_key order y) ≡ true) xs
      → lex_lt (sort_key order x) (sort_key order i) ≡ true
  above_asked x i [] h s = absurd (omega arith)
  above_asked x i (y ∷ ys) h s = elim (Bool-cases (key_beq y.key i.key)) [
    | inl t ↦ rw (sort_key_of_key order i y (sym ((key_beq_iff y.key i.key).0 t))) s.0
    | inr f ↦ above_asked x i ys (ground arith) s.1
  ]

  -- a row stands once in a strict list
  asked_once :
      (x : RowLockIntent) (xs : List RowLockIntent)
      → All (λ y. lex_lt (sort_key order x) (sort_key order y) ≡ true) xs
      → strongest x.key xs ≡ 0
  asked_once x xs s = elim (Bool-cases (ltb 0 (strongest x.key xs))) [
    | inl t ↦ absurd (cc (above_asked x x xs (ground arith) s, lex_lt_irrefl (sort_key order x)))
    | inr f ↦ ground arith
  ]

  head_same :
      (i j : RowLockIntent) (is js : List RowLockIntent)
      → IsStrict order (i ∷ is)
      → IsStrict order (j ∷ js)
      → strongest i.key (i ∷ is) ≡ strongest i.key (j ∷ js)
      → strongest j.key (i ∷ is) ≡ strongest j.key (j ∷ js)
      → i ≡ j
  head_same i j is js si sj hi hj = elim (Bool-cases (key_beq i.key j.key)) [
    | inl t ↦
        let e : i.key ≡ j.key = (key_beq_iff i.key j.key).0 t in
        let m : mode_value i.mode ≡ mode_value j.mode = ground (
          arith,
          e,
          asked_once i is si.0,
          asked_once j js sj.0,
          key_beq_iff i.key i.key,
          key_beq_iff j.key i.key,
        ) in
        ground (arith, e, mode_value_injective i.mode j.mode m)
    | inr f ↦
        let below : lex_lt (sort_key order j) (sort_key order i) ≡ true =
          above_asked j i js
            (ground (
              arith,
              mode_value-pos i.mode,
              key_beq_iff i.key i.key,
              key_beq_iff j.key i.key,
              key_beq_iff i.key j.key,
            ))
            sj.0 in
        let above : lex_lt (sort_key order i) (sort_key order j) ≡ true =
          above_asked i j is
            (ground
              (arith, mode_value-pos j.mode, key_beq_iff j.key j.key, key_beq_iff i.key j.key))
            si.0 in
        absurd (cc (below, lex_lt_asymm (sort_key order i) (sort_key order j) above))
  ]

  tail_same :
      (i : RowLockIntent) (is js : List RowLockIntent)
      → IsStrict order (i ∷ is)
      → IsStrict order (i ∷ js)
      → ((k : RowLockKey) → strongest k (i ∷ is) ≡ strongest k (i ∷ js))
      → (k : RowLockKey) → strongest k is ≡ strongest k js
  tail_same i is js si sj h k = elim (Bool-cases (key_beq i.key k)) [
    | inl t ↦
        subst (λ x. strongest x is ≡ strongest x js) ((key_beq_iff i.key k).0 t)
          (asked_once i is si.0 ∙ sym (asked_once i js sj.0))
    | inr f ↦ ground (arith, h k)
  ]

  -- Two strict lists that ask for the same rows in the same modes are equal.
  pub strict_unique :
      (is js : List RowLockIntent)
      → IsStrict order is
      → IsStrict order js
      → ((k : RowLockKey) → strongest k is ≡ strongest k js)
      → is ≡ js
  strict_unique [] [] si sj h = refl
  strict_unique [] (j ∷ js) si sj h =
      absurd (ground (arith, h j.key, mode_value-pos j.mode, key_beq_iff j.key j.key))
  strict_unique (i ∷ is) [] si sj h =
      absurd (ground (arith, h i.key, mode_value-pos i.mode, key_beq_iff i.key i.key))
  strict_unique (i ∷ is) (j ∷ js) si sj h =
      let e : i ≡ j = head_same i j is js si sj (h i.key) (h j.key) in
      let sj' : IsStrict order (i ∷ js) = subst (λ x. IsStrict order (x ∷ js)) (sym e) sj in
      let h' : (k : RowLockKey) → strongest k (i ∷ is) ≡ strongest k (i ∷ js) =
        subst (λ x. (k : RowLockKey) → strongest k (i ∷ is) ≡ strongest k (x ∷ js)) (sym e) h in
      ap₂ ◌∷◌ e (strict_unique is js si.1 sj'.1 (tail_same i is js si sj' h'))

-- no ObjectTemplate row among the intents
abbrev pub NoTemplates : List RowLockIntent → Type 0
NoTemplates is = planned_lineages (coalesce is) ≡ []

canonical_plain :
    (intents : List RowLockIntent) (parents : Parents)
    → NoTemplates intents
    → canonical_intents intents parents ≡ ok (sort_by (sort_key []) (coalesce intents))
unfolding lineage_order
canonical_plain intents parents h = rw (canonical_steps, h)

-- Two requests over keys that `RowLockKey` accepts, with no ObjectTemplate rows, that ask for the
-- same rows in the same strongest modes, in whatever order and however often, have one and the same
-- plan: every transaction takes such rows in one global order.
pub canonical_unique :
    (a b : List RowLockIntent) (parents : Parents)
    → All IsMade a
    → All IsMade b
    → NoTemplates a
    → NoTemplates b
    → ((k : RowLockKey) → strongest k a ≡ strongest k b)
    → canonical_intents a parents ≡ canonical_intents b parents
canonical_unique a b parents va vb na nb h =
    canonical_plain a parents na
    ∙ ap ok (
        strict_unique [] (sort_by (sort_key []) (coalesce a)) (sort_by (sort_key []) (coalesce b))
          (sorted-IsStrict [] a va) (sorted-IsStrict [] b vb)
          (λ k. sorted_strongest [] a k ∙ h k ∙ sym (sorted_strongest [] b k)))
    ∙ sym (canonical_plain b parents nb)
