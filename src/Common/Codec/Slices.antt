-- ===== src/Common/Codec/Slices.antt =====
-- The slices of an array that is filled by parts.
use han_hermez_node.Prelude.{
  ℕ, zero, suc, ◌+◌, ◌-◌, ◌≤◌, ◌≡◌, refl, sym, ap, ◌∙◌, List, [], ◌∷◌, ◌++◌, arith, length, take,
  drop, get_or, slice,
}

module _ {ℓ} {A : Type ℓ} where
  pub take-append : (xs ys : List A) → take (length xs) (xs ++ ys) ≡ xs
  take-append [] ys = refl
  take-append (x ∷ xs) ys = ap (λ (t : List A). x ∷ t) (take-append xs ys)

  drop-append : (xs ys : List A) (n m : ℕ) → m ≡ length xs + n → drop m (xs ++ ys) ≡ drop n ys
  drop-append [] ys n m e = ap (λ (t : ℕ). drop t ys) (omega (arith, e))
  drop-append (x ∷ xs) ys n zero e = absurd (omega (arith, e))
  drop-append (x ∷ xs) ys n (suc m) e = drop-append xs ys n m (omega (arith, e))

  -- The part that stands behind `i` elements.
  pub slice-append :
      (xs ys zs : List A) (i j : ℕ)
      → i ≡ length xs
      → j ≡ i + length ys
      → slice (xs ++ (ys ++ zs)) i j ≡ ys
  slice-append xs ys zs i j start end =
      ap (take (j - i)) (drop-append xs (ys ++ zs) 0 i (omega (arith, start)))
      ∙ ap (λ (t : ℕ). take t (ys ++ zs)) (omega (arith, end))
      ∙ take-append ys zs

  -- The element behind `i` others.
  pub get_or-append :
      (xs ys : List A) (y d : A) (i : ℕ) → i ≡ length xs → get_or (xs ++ (y ∷ ys)) i d ≡ y
  get_or-append [] ys y d zero e = refl
  get_or-append [] ys y d (suc i) e = absurd (omega (arith, e))
  get_or-append (x ∷ xs) ys y d zero e = absurd (omega (arith, e))
  get_or-append (x ∷ xs) ys y d (suc i) e = get_or-append xs ys y d i (omega (arith, e))

  length-take : (n : ℕ) (xs : List A) → n ≤ length xs → length (take n xs) ≡ n
  length-take zero xs h = refl
  length-take (suc n) [] h = absurd (omega (arith, h))
  length-take (suc n) (x ∷ xs) h = ap suc (length-take n xs (omega (arith, h)))

  length-drop : (n : ℕ) (xs : List A) → length (drop n xs) ≡ length xs - n
  length-drop zero xs = omega arith
  length-drop (suc n) [] = omega arith
  length-drop (suc n) (x ∷ xs) = omega (arith, length-drop n xs)

  pub length-slice : (xs : List A) (i j : ℕ) → j ≤ length xs → length (slice xs i j) ≡ j - i
  length-slice xs i j h = length-take (j - i) (drop i xs) (omega (arith, h, length-drop i xs))

  take-nil : (n : ℕ) → take {A = A} n [] ≡ []
  take-nil zero = refl
  take-nil (suc n) = refl

  -- Two slices, one behind the other.
  pub take-slice :
      (m n w : ℕ) (xs : List A) → w ≡ m + n → take m xs ++ take n (drop m xs) ≡ take w xs
  take-slice zero n w xs e = ap (λ (t : ℕ). take t xs) (omega (arith, e))
  take-slice (suc m) n w [] e = take-nil n ∙ sym (take-nil w)
  take-slice (suc m) n zero (x ∷ xs) e = absurd (omega (arith, e))
  take-slice (suc m) n (suc w) (x ∷ xs) e =
      ap (λ (t : List A). x ∷ t) (take-slice m n w xs (omega (arith, e)))
