-- ===== src/Prelude/Sort.antt =====
-- `sorted(xs, key=...)`: a stable sort by a key that is a tuple of numbers, which Python compares
-- from the left.
use netauto.Prelude.{
  ℕ, suc, ◌≡◌, refl, inl, inr, Bool, true, false, ◌||◌, List, [], ◌∷◌, arith, ltb, nat_eq,
  if◌then◌else◌, Bool-cases, length, any, All,
}

-- `a < b` for tuples of numbers.
unfoldable pub lex_lt : List ℕ → List ℕ → Bool
lex_lt [] [] = false
lex_lt [] (y ∷ ys) = true
lex_lt (x ∷ xs) [] = false
lex_lt (x ∷ xs) (y ∷ ys) = if ltb x y then true else if nat_eq x y then lex_lt xs ys else false

pub lex_lt_irrefl : (xs : List ℕ) → lex_lt xs xs ≡ false
unfolding lex_lt
lex_lt_irrefl [] = refl
lex_lt_irrefl (x ∷ xs) = ground (arith, lex_lt_irrefl xs)

pub lex_lt_asymm : (xs ys : List ℕ) → lex_lt xs ys ≡ true → lex_lt ys xs ≡ false
unfolding lex_lt
lex_lt_asymm [] [] h = refl
lex_lt_asymm [] (y ∷ ys) h = refl
lex_lt_asymm (x ∷ xs) [] h = cc
lex_lt_asymm (x ∷ xs) (y ∷ ys) h = ground (arith, lex_lt_asymm xs ys)

-- `b <= a` and `c <= b` give `c <= a`, as `not (a < b)`.
pub lex_le_trans :
    (xs ys zs : List ℕ) → lex_lt ys xs ≡ false → lex_lt zs ys ≡ false → lex_lt zs xs ≡ false
unfolding lex_lt
lex_le_trans [] ys [] h k = refl
lex_le_trans [] [] (z ∷ zs) h k = k
lex_le_trans [] (y ∷ ys) (z ∷ zs) h k = refl
lex_le_trans (x ∷ xs) [] [] h k = cc
lex_le_trans (x ∷ xs) [] (z ∷ zs) h k = cc
lex_le_trans (x ∷ xs) (y ∷ ys) [] h k = cc
lex_le_trans (x ∷ xs) (y ∷ ys) (z ∷ zs) h k = ground (arith, lex_le_trans xs ys zs)

module _ {ℓ} {A : Type ℓ} (key : A → List ℕ) where
  unfoldable pub insert_sorted : A → List A → List A
  insert_sorted a [] = a ∷ []
  insert_sorted a (x ∷ xs) = if lex_lt (key x) (key a) then x ∷ insert_sorted a xs else a ∷ x ∷ xs

  unfoldable pub sort_by : List A → List A
  unfolding insert_sorted
  sort_by [] = []
  sort_by (x ∷ xs) = insert_sorted x (sort_by xs)

  -- each element before the next
  abbrev pub IsSorted : List A → Type 0
  IsSorted [] = Unit
  IsSorted (x ∷ xs) = All (λ y. lex_lt (key y) (key x) ≡ false) xs × IsSorted xs

  pub any-insert_sorted :
      (p : A → Bool) (a : A) (xs : List A) → any p (insert_sorted a xs) ≡ (p a || any p xs)
  unfolding insert_sorted any
  any-insert_sorted p a [] = refl
  any-insert_sorted p a (x ∷ xs) = ground (arith, any-insert_sorted p a xs)

  -- A test passes on some element of the sorted list exactly when it does on the list.
  pub any-sort_by : (p : A → Bool) (xs : List A) → any p (sort_by xs) ≡ any p xs
  unfolding sort_by any
  any-sort_by p [] = refl
  any-sort_by p (x ∷ xs) = ground (arith, any-insert_sorted p x (sort_by xs), any-sort_by p xs)

  length-insert_sorted : (a : A) (xs : List A) → length (insert_sorted a xs) ≡ suc (length xs)
  unfolding insert_sorted
  length-insert_sorted a [] = refl
  length-insert_sorted a (x ∷ xs) = ground (arith, length-insert_sorted a xs)

  pub length-sort_by : (xs : List A) → length (sort_by xs) ≡ length xs
  unfolding sort_by
  length-sort_by [] = refl
  length-sort_by (x ∷ xs) = omega (arith, length-insert_sorted x (sort_by xs), length-sort_by xs)

  pub All-insert_sorted :
      (P : A → Type 0) (a : A) (xs : List A) → P a → All P xs → All P (insert_sorted a xs)
  unfolding insert_sorted
  All-insert_sorted P a [] h k = (h, tt)
  All-insert_sorted P a (x ∷ xs) h k = elim (Bool-cases (lex_lt (key x) (key a))) [
    | inl t ↦ rw t (k.0, All-insert_sorted P a xs h k.1)
    | inr f ↦ rw f (h, k)
  ]

  pub All-sort_by : (P : A → Type 0) (xs : List A) → All P xs → All P (sort_by xs)
  unfolding sort_by
  All-sort_by P [] h = tt
  All-sort_by P (x ∷ xs) h = All-insert_sorted P x (sort_by xs) h.0 (All-sort_by P xs h.1)

  All-uninsert :
      (P : A → Type 0) (a : A) (xs : List A) → All P (insert_sorted a xs) → P a × All P xs
  unfolding insert_sorted
  All-uninsert P a [] h = h
  All-uninsert P a (x ∷ xs) h = elim (Bool-cases (lex_lt (key x) (key a))) [
    | inl t ↦
        let k = rw t at h in let (first, later) = All-uninsert P a xs k.1 in (first, (k.0, later))
    | inr f ↦ rw f at h
  ]

  pub All-unsort : (P : A → Type 0) (xs : List A) → All P (sort_by xs) → All P xs
  unfolding sort_by
  All-unsort P [] h = tt
  All-unsort P (x ∷ xs) h =
      let (first, later) = All-uninsert P x (sort_by xs) h in (first, All-unsort P xs later)

  le-All :
      (a x : A) (xs : List A)
      → lex_lt (key x) (key a) ≡ false
      → All (λ y. lex_lt (key y) (key x) ≡ false) xs
      → All (λ y. lex_lt (key y) (key a) ≡ false) xs
  le-All a x [] h k = tt
  le-All a x (y ∷ ys) h k = (lex_le_trans (key a) (key x) (key y) h k.0, le-All a x ys h k.1)

  insert_sorted-IsSorted : (a : A) (xs : List A) → IsSorted xs → IsSorted (insert_sorted a xs)
  unfolding insert_sorted
  insert_sorted-IsSorted a [] h = (tt, tt)
  insert_sorted-IsSorted a (x ∷ xs) h = elim (Bool-cases (lex_lt (key x) (key a))) [
    | inl t ↦ rw t (
      All-insert_sorted _ a xs (lex_lt_asymm (key x) (key a) t) h.0,
      insert_sorted-IsSorted a xs h.1,
    )
    | inr f ↦ rw f ((f, le-All a x xs f h.0), h)
  ]

  -- The result is in order.
  pub sort_by-IsSorted : (xs : List A) → IsSorted (sort_by xs)
  unfolding sort_by
  sort_by-IsSorted [] = tt
  sort_by-IsSorted (x ∷ xs) = insert_sorted-IsSorted x (sort_by xs) (sort_by-IsSorted xs)
