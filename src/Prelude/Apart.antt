-- ===== src/Prelude/Apart.antt =====
-- Lists without an element in common, and how they make up a list without repetition.
use netauto.Prelude.{
  ◌≡◌, refl, Bool, true, false, not, ◌&&◌, List, [], ◌∷◌, ◌++◌, arith, HasEq, ℕ_eq, list_eq,
  option_eq, contains, distinct, contains-append,
}

module _ {ℓ} {A : Type ℓ} ⦃e : HasEq A⦄ where
  -- no element of the first list stands in the second
  unfoldable pub apart : List A → List A → Bool
  unfolding contains
  apart [] ys = true
  apart (x ∷ xs) ys = not (contains ys x) && apart xs ys

  pub apart-nil : (xs : List A) → apart xs [] ≡ true
  unfolding apart contains
  apart-nil [] = refl
  apart-nil (x ∷ xs) = ground (arith, apart-nil xs)

  pub apart-cons :
      (xs ys : List A) (a : A) → apart xs (a ∷ ys) ≡ (not (contains xs a) && apart xs ys)
  unfolding apart contains
  apart-cons [] ys a = refl
  apart-cons (x ∷ xs) ys a = ground (arith, apart-cons xs ys a, e.same_iff a x, e.same_iff x a)

  pub apart_sym : (xs ys : List A) → apart xs ys ≡ apart ys xs
  unfolding apart
  apart_sym [] ys = ground (arith, apart-nil ys)
  apart_sym (x ∷ xs) ys = ground (arith, apart_sym xs ys, apart-cons ys xs x)

  pub distinct-append :
      (xs ys : List A) → distinct (xs ++ ys) ≡ (distinct xs && (distinct ys && apart xs ys))
  unfolding distinct apart
  distinct-append [] ys = ground arith
  distinct-append (x ∷ xs) ys = ground (arith, distinct-append xs ys, contains-append xs ys x)

  pub apart-append : (xs ys zs : List A) → apart (xs ++ ys) zs ≡ (apart xs zs && apart ys zs)
  unfolding apart
  apart-append [] ys zs = refl
  apart-append (x ∷ xs) ys zs = ground (arith, apart-append xs ys zs)

  pub apart-snoc :
      (xs ys : List A) (a : A)
      → contains xs a ≡ false
      → apart xs ys ≡ true
      → apart xs (ys ++ a ∷ []) ≡ true
  unfolding apart contains
  apart-snoc [] ys a n h = refl
  apart-snoc (x ∷ xs) ys a n h =
      ground
        (arith, apart-snoc xs ys a, contains-append ys (a ∷ []) x, e.same_iff a x, e.same_iff x a)
