-- ===== src/Base/Lists.antt =====
-- Lists measured by native numbers, sums of a measure over a list, and a predicate on all elements.
use Prim.Native.Nat.{ℕ, zero, suc, ◌+◌, ◌-◌, ◌≤◌}
use mathlib.Core.Path.{◌≡◌, refl}
use mathlib.Core.List.{List, [], ◌∷◌, ◌++◌}
use native.Mathlib.Omega.{arith}

module _ {ℓ} {A : Type ℓ} where
  abbrev pub length : List A → ℕ
  length [] = 0
  length (x ∷ xs) = suc (length xs)

  abbrev pub take : ℕ → List A → List A
  take zero xs = []
  take (suc n) [] = []
  take (suc n) (x ∷ xs) = x ∷ take n xs

  abbrev pub drop : ℕ → List A → List A
  drop zero xs = xs
  drop (suc n) [] = []
  drop (suc n) (x ∷ xs) = drop n xs

  pub length-append : (xs ys : List A) → length (xs ++ ys) ≡ length xs + length ys
  length-append [] ys = omega arith
  length-append (x ∷ xs) ys = omega (arith, length-append xs ys)

  pub length-drop : (n : ℕ) (xs : List A) → length (drop n xs) ≡ length xs - n
  length-drop zero xs = omega arith
  length-drop (suc n) [] = omega arith
  length-drop (suc n) (x ∷ xs) = omega (arith, length-drop n xs)

  -- The sum of a measure over a list.
  unfoldable pub total : (A → ℕ) → List A → ℕ
  total f [] = 0
  total f (x ∷ xs) = f x + total f xs

  pub total-nil : (f : A → ℕ) → total f [] ≡ 0
  unfolding total
  total-nil f = refl

  pub total-cons : (f : A → ℕ) (x : A) (xs : List A) → total f (x ∷ xs) ≡ f x + total f xs
  unfolding total
  total-cons f x xs = refl

  pub total-append : (f : A → ℕ) (xs ys : List A) → total f (xs ++ ys) ≡ total f xs + total f ys
  unfolding total
  total-append f [] ys = omega arith
  total-append f (x ∷ xs) ys = omega (arith, total-append f xs ys)

  pub total-middle :
      (f : A → ℕ) (xs : List A) (y : A) (ys : List A)
      → total f (xs ++ y ∷ ys) ≡ total f (xs ++ ys) + f y
  total-middle f xs y ys =
      omega (arith, total-append f xs (y ∷ ys), total-append f xs ys, total-cons f y ys)

  abbrev pub All {κ} : (A → Type κ) → List A → Type κ
  All P [] = Unit
  All P (x ∷ xs) = P x × All P xs

  pub All-append {κ} : (P : A → Type κ) (xs ys : List A) → All P xs → All P ys → All P (xs ++ ys)
  All-append P [] ys h k = k
  All-append P (x ∷ xs) ys h k = (h.0, All-append P xs ys h.1 k)

  pub All-left {κ} : (P : A → Type κ) (xs ys : List A) → All P (xs ++ ys) → All P xs
  All-left P [] ys h = tt
  All-left P (x ∷ xs) ys h = (h.0, All-left P xs ys h.1)

  pub All-right {κ} : (P : A → Type κ) (xs ys : List A) → All P (xs ++ ys) → All P ys
  All-right P [] ys h = h
  All-right P (x ∷ xs) ys h = All-right P xs ys h.1

  pub All-map {κ λ'} :
      {P : A → Type κ} {Q : A → Type λ'} (f : (a : A) → P a → Q a) (xs : List A)
      → All P xs
      → All Q xs
  All-map f [] h = tt
  All-map f (x ∷ xs) h = (f x h.0, All-map f xs h.1)

  pub All_at {κ} : (P : A → Type κ) (xs : List A) (y : A) (ys : List A) → All P (xs ++ y ∷ ys) → P y
  All_at P [] y ys h = h.0
  All_at P (x ∷ xs) y ys h = All_at P xs y ys h.1

  pub All-remove {κ} :
      (P : A → Type κ) (xs : List A) (y : A) (ys : List A) → All P (xs ++ y ∷ ys) → All P (xs ++ ys)
  All-remove P [] y ys h = h.1
  All-remove P (x ∷ xs) y ys h = (h.0, All-remove P xs y ys h.1)

  pub All-insert {κ} :
      (P : A → Type κ) (xs : List A) (y : A) (ys : List A)
      → P y
      → All P (xs ++ ys)
      → All P (xs ++ y ∷ ys)
  All-insert P [] y ys k h = (k, h)
  All-insert P (x ∷ xs) y ys k h = (h.0, All-insert P xs y ys k h.1)

  pub total_mono : (f g : A → ℕ) → ((a : A) → f a ≤ g a) → (xs : List A) → total f xs ≤ total g xs
  unfolding total
  total_mono f g h [] = omega arith
  total_mono f g h (x ∷ xs) = omega (arith, h x, total_mono f g h xs)

  pub total_zero : (f : A → ℕ) (xs : List A) → All (λ a. f a ≡ 0) xs → total f xs ≡ 0
  unfolding total
  total_zero f [] h = omega arith
  total_zero f (x ∷ xs) h = omega (arith, h.0, total_zero f xs h.1)

  pub total_ones : (xs : List A) → total (λ a. 1) xs ≡ length xs
  unfolding total
  total_ones [] = refl
  total_ones (x ∷ xs) = omega (arith, total_ones xs)
