-- ===== src/Prelude/SortedSet.antt =====
-- A set as the ascending list of its elements, by a key that is a tuple of numbers and that no two
-- elements share.
use netauto.Prelude.{
  ℕ, ◌≡◌, refl, sym, inl, inr, true, false, List, [], ◌∷◌, arith, if◌then◌else◌, Bool-cases, All,
}
use netauto.Prelude.Sort.{lex_lt, lex_lt_asymm, sort_by, insert_sorted, lex_le_trans}

pub lex_lt_total : (xs ys : List ℕ) → lex_lt xs ys ≡ false → lex_lt ys xs ≡ false → xs ≡ ys
unfolding lex_lt
lex_lt_total [] [] h k = refl
lex_lt_total [] (y ∷ ys) h k = cc
lex_lt_total (x ∷ xs) [] h k = cc
lex_lt_total (x ∷ xs) (y ∷ ys) h k = ground (arith, lex_lt_total xs ys)

pub lex_lt_trans :
    (xs ys zs : List ℕ) → lex_lt xs ys ≡ true → lex_lt ys zs ≡ true → lex_lt xs zs ≡ true
unfolding lex_lt
lex_lt_trans [] ys [] h k = ground (arith, lex_lt_asymm [] ys)
lex_lt_trans [] ys (z ∷ zs) h k = refl
lex_lt_trans (x ∷ xs) [] zs h k = cc
lex_lt_trans (x ∷ xs) (y ∷ ys) [] h k = cc
lex_lt_trans (x ∷ xs) (y ∷ ys) (z ∷ zs) h k = ground (arith, lex_lt_trans xs ys zs)

module _ {ℓ} {A : Type ℓ} (key : A → List ℕ) where
  -- `exact.add(a)`
  unfoldable pub add : A → List A → List A
  unfolding lex_lt
  add a [] = a ∷ []
  add a (x ∷ xs) =
      let later = add a xs in
      if lex_lt (key x) (key a)
      then x ∷ later
      else if lex_lt (key a) (key x)
      then a ∷ x ∷ xs
      else x ∷ xs

  -- `{... for a in xs}`
  unfoldable pub set_of : List A → List A
  unfolding add
  set_of [] = []
  set_of (x ∷ xs) = add x (set_of xs)

  -- `min(a, *xs, key=key)`
  unfoldable pub min_by : A → List A → A
  unfolding lex_lt
  min_by a [] = a
  min_by a (x ∷ xs) = if lex_lt (key x) (key a) then min_by x xs else min_by a xs

  abbrev pub IsStrict : List A → Type 0
  IsStrict [] = Unit
  IsStrict (x ∷ xs) = All (λ y. lex_lt (key x) (key y) ≡ true) xs × IsStrict xs

  pub All-add : (P : A → Type 0) (a : A) (xs : List A) → P a → All P xs → All P (add a xs)
  unfolding add
  All-add P a [] h k = (h, tt)
  All-add P a (x ∷ xs) h k = elim (Bool-cases (lex_lt (key x) (key a))) [
    | inl t ↦ rw t (k.0, All-add P a xs h k.1)
    | inr f ↦
        rw f (elim (Bool-cases (lex_lt (key a) (key x))) [ inl t ↦ rw t (h, k) | inr g ↦ rw g k ])
  ]

  above :
      (a x : A) (xs : List A)
      → lex_lt (key a) (key x) ≡ true
      → All (λ y. lex_lt (key x) (key y) ≡ true) xs
      → All (λ y. lex_lt (key a) (key y) ≡ true) xs
  above a x [] h k = tt
  above a x (y ∷ ys) h k = (lex_lt_trans (key a) (key x) (key y) h k.0, above a x ys h k.1)

  pub add-IsStrict : (a : A) (xs : List A) → IsStrict xs → IsStrict (add a xs)
  unfolding add
  add-IsStrict a [] s = (tt, tt)
  add-IsStrict a (x ∷ xs) s = elim (Bool-cases (lex_lt (key x) (key a))) [
    | inl t ↦ rw t (All-add _ a xs t s.0, add-IsStrict a xs s.1)
    | inr f ↦ rw f (elim (Bool-cases (lex_lt (key a) (key x))) [
      | inl t ↦ rw t ((t, above a x xs t s.0), s)
      | inr g ↦ rw g s
    ])
  ]

  add_below :
      (a : A) (xs : List A) → All (λ y. lex_lt (key a) (key y) ≡ true) xs → add a xs ≡ a ∷ xs
  unfolding add
  add_below a [] h = refl
  add_below a (x ∷ xs) h = rw (lex_lt_asymm (key a) (key x) h.0, h.0) refl

  -- The set of an ascending list is the list, and so is the list sorted; its least element is its
  -- first.
  pub set_of-IsStrict : (xs : List A) → IsStrict xs → set_of xs ≡ xs
  unfolding set_of
  set_of-IsStrict [] s = refl
  set_of-IsStrict (x ∷ xs) s = rw (set_of-IsStrict xs s.1) (add_below x xs s.0)

  insert_below :
      (a : A) (xs : List A)
      → All (λ y. lex_lt (key a) (key y) ≡ true) xs
      → insert_sorted key a xs ≡ a ∷ xs
  unfolding insert_sorted
  insert_below a [] h = refl
  insert_below a (x ∷ xs) h = rw (lex_lt_asymm (key a) (key x) h.0) refl

  pub sort_by-IsStrict : (xs : List A) → IsStrict xs → sort_by key xs ≡ xs
  unfolding sort_by
  sort_by-IsStrict [] s = refl
  sort_by-IsStrict (x ∷ xs) s = rw (sort_by-IsStrict xs s.1) (insert_below x xs s.0)

  pub min_by-IsStrict : (x : A) (xs : List A) → IsStrict (x ∷ xs) → min_by x xs ≡ x
  unfolding min_by
  min_by-IsStrict x [] s = refl
  min_by-IsStrict x (y ∷ ys) s =
      rw (lex_lt_asymm (key x) (key y) s.0.0) (min_by-IsStrict x ys (s.0.1, s.1.1))

  add_lt_comm :
      (a b : A) (xs : List A) → lex_lt (key a) (key b) ≡ true → add a (add b xs) ≡ add b (add a xs)
  unfolding add
  add_lt_comm a b [] h = rw (h, lex_lt_asymm (key a) (key b) h) refl
  add_lt_comm a b (x ∷ xs) h = ground (
    arith,
    add_lt_comm a b xs h,
    lex_lt_asymm (key a) (key b) h,
    lex_lt_asymm (key a) (key x),
    lex_lt_asymm (key b) (key x),
    lex_lt_trans (key a) (key b) (key x) h,
    lex_lt_trans (key x) (key a) (key b),
    lex_le_trans (key b) (key x) (key a),
  )

  -- The order of two additions does not matter.
  pub add_comm :
      ((x y : A) → key x ≡ key y → x ≡ y)
      → (a b : A) (xs : List A) → add a (add b xs) ≡ add b (add a xs)
  add_comm inj a b xs = elim (Bool-cases (lex_lt (key a) (key b))) [
    | inl t ↦ add_lt_comm a b xs t
    | inr f ↦ elim (Bool-cases (lex_lt (key b) (key a))) [
      | inl t ↦ sym (add_lt_comm b a xs t)
      | inr g ↦ rw (inj a b (lex_lt_total (key a) (key b) f g)) refl
    ]
  ]
