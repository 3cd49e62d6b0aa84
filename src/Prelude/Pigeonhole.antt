-- ===== src/Prelude/Pigeonhole.antt =====
-- Counting distinct elements that all stand in a second list, for the walks up an inheritance
-- chain.
use netauto.Prelude.{
  suc, ◌≤◌, ◌≡◌, true, false, List, [], ◌∷◌, arith, if◌then◌else◌, HasEq, ◌==◌, ℕ_eq, list_eq,
  option_eq, length, All, contains, distinct,
}

module _ {ℓ} {A : Type ℓ} ⦃e : HasEq A⦄ where
  without : A → List A → List A
  without a [] = []
  without a (x ∷ xs) = let rest = without a xs in if x == a then xs else x ∷ rest

  length-without :
      (a : A) (xs : List A) → contains xs a ≡ true → length xs ≡ suc (length (without a xs))
  unfolding without contains
  length-without a [] h = cc
  length-without a (x ∷ xs) h = ground (arith, length-without a xs)

  contains-without :
      (a b : A) (xs : List A)
      → contains xs b ≡ true
      → (a == b) ≡ false
      → contains (without a xs) b ≡ true
  unfolding without contains
  contains-without a b [] h d = cc
  contains-without a b (x ∷ xs) h d =
      ground (arith, contains-without a b xs, e.same_iff x a, e.same_iff x b, e.same_iff a b)

  -- every element of the first list stands in the second
  abbrev pub Within : List A → List A → Type 0
  Within xs ys = All (λ x. contains ys x ≡ true) xs

  Within-without :
      (a : A) (xs ys : List A) → contains xs a ≡ false → Within xs ys → Within xs (without a ys)
  unfolding contains
  Within-without a [] ys h w = tt
  Within-without a (x ∷ xs) ys h w = (
    contains-without a x ys w.0 (ground (arith, e.same_iff x a, e.same_iff a x)),
    Within-without a xs ys (ground arith) w.1,
  )

  pub pigeonhole : (xs ys : List A) → distinct xs ≡ true → Within xs ys → length xs ≤ length ys
  unfolding distinct
  pigeonhole [] ys h w = omega arith
  pigeonhole (x ∷ xs) ys h w =
      let fresh : contains xs x ≡ false = ground arith in
      omega (
        arith,
        length-without x ys w.0,
        pigeonhole xs (without x ys) (ground arith) (Within-without x xs ys fresh w.1),
      )
