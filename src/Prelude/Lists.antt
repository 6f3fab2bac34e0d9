-- ===== src/Prelude/Lists.antt =====
-- Lists measured and cut by native numbers, under the library's names.
use Prim.Native.Nat.{ℕ, zero, suc, ◌+◌, ◌-◌, ◌≤◌}
use mathlib.Core.Path.{◌≡◌, ap, refl, ◌∙◌}
use mathlib.Core.Bool.{Bool, true}
use han_hermez_node.Prelude.Tests.{if◌then◌else◌}
use mathlib.Core.List.{List, [], ◌∷◌, ◌++◌, Permᴰ}
use mathlib.Core.Logic.{◌⊎◌, inl, inr}
use native.Mathlib.Omega.{arith}

module _ {ℓ} {A : Type ℓ} where
  abbrev pub length : List A → ℕ
  length [] = 0
  length (x ∷ xs) = suc (length xs)

  abbrev pub take : ℕ → List A → List A
  take zero xs = []
  take (suc n) [] = []
  take (suc n) (x ∷ xs) = x ∷ take n xs

  abbrev pub drop : ℕ → List A → List A
  drop zero xs = xs
  drop (suc n) [] = []
  drop (suc n) (x ∷ xs) = drop n xs

  abbrev pub replicate : ℕ → A → List A
  replicate zero a = []
  replicate (suc n) a = a ∷ replicate n a

  abbrev pub get_or : List A → ℕ → A → A
  get_or [] i d = d
  get_or (x ∷ xs) zero d = x
  get_or (x ∷ xs) (suc i) d = get_or xs i d

  -- A predicate at every element.
  abbrev pub All {κ} : (A → Type κ) → List A → Type κ
  All P [] = Unit
  All P (x ∷ xs) = P x × All P xs

  -- Go's `b[i:j]`, for `i ≤ j` within the bounds.
  abbrev pub slice : List A → ℕ → ℕ → List A
  slice b i j = take (j - i) (drop i b)

  pub length-append : (xs ys : List A) → length (xs ++ ys) ≡ length xs + length ys
  length-append [] ys = omega arith
  length-append (x ∷ xs) ys = omega (arith, length-append xs ys)

module _ {ℓ} {A : Type ℓ} where
  pub length-replicate : (n : ℕ) (a : A) → length (replicate n a) ≡ n
  length-replicate zero a = refl
  length-replicate (suc n) a = ap suc (length-replicate n a)

module _ {ℓ κ} {A : Type ℓ} (P : A → Type κ) where
  pub All-append : (xs ys : List A) → All P xs → All P ys → All P (xs ++ ys)
  All-append [] ys hx hy = hy
  All-append (x ∷ xs) ys hx hy = (hx.0, All-append xs ys hx.1 hy)

  All-take : (n : ℕ) (xs : List A) → All P xs → All P (take n xs)
  All-take zero xs h = tt
  All-take (suc n) [] h = tt
  All-take (suc n) (x ∷ xs) h = (h.0, All-take n xs h.1)

  pub All-drop : (n : ℕ) (xs : List A) → All P xs → All P (drop n xs)
  All-drop zero xs h = h
  All-drop (suc n) [] h = tt
  All-drop (suc n) (x ∷ xs) h = All-drop n xs h.1

  pub All-slice : (xs : List A) (i j : ℕ) → All P xs → All P (slice xs i j)
  All-slice xs i j h = All-take (j - i) (drop i xs) (All-drop i xs h)

-- The number of the elements that pass a test.
module _ {ℓ} {A : Type ℓ} (test : A → Bool) where
  unfoldable pub count_if : List A → ℕ
  count_if [] = 0
  count_if (x ∷ xs) = if test x then suc (count_if xs) else count_if xs

  pub count_if-append : (xs ys : List A) → count_if (xs ++ ys) ≡ count_if xs + count_if ys
  unfolding count_if
  count_if-append [] ys = omega arith
  count_if-append (x ∷ xs) ys = ground (arith, count_if-append xs ys)

  pub count_if_le : (xs : List A) → count_if xs ≤ length xs
  unfolding count_if
  count_if_le [] = omega arith
  count_if_le (x ∷ xs) = ground (arith, count_if_le xs)

module _ {ℓ} {A : Type ℓ} where
  pub count_if-true : (xs : List A) → count_if (λ _. true) xs ≡ length xs
  unfolding count_if
  count_if-true [] = refl
  count_if-true (x ∷ xs) = ap suc (count_if-true xs)

  -- A list that is a permutation has as many elements that pass a test.
  pub count_if-Permᴰ :
      (test : A → Bool) {xs ys : List A} → Permᴰ xs ys → count_if test xs ≡ count_if test ys
  unfolding count_if
  count_if-Permᴰ test Permᴰ.nil = refl
  count_if-Permᴰ test (Permᴰ.cons e p) = ground (arith, ap test e, count_if-Permᴰ test p)
  count_if-Permᴰ test (Permᴰ.swap e f) = ground (arith, ap test e, ap test f)
  count_if-Permᴰ test (Permᴰ.trans p q) = count_if-Permᴰ test p ∙ count_if-Permᴰ test q

  pub List-cases : (xs : List A) → (xs ≡ []) ⊎ ((x : A) × ((ys : List A) × (xs ≡ x ∷ ys)))
  List-cases [] = inl refl
  List-cases (x ∷ xs) = inr (x, (xs, refl))
