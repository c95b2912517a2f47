-- ===== src/Rbtree/Sorted.antt =====
-- Sequences that ascend by a key: what a search tree holds in order.
use mtrace.Base.{ℕ, ◌≤◌, List, [], ◌∷◌, ◌++◌, arith, All, All-append, All-left, All-right}

module _ {ℓ} {A : Type ℓ} (key : A → ℕ) where
  abbrev pub IsSorted : List A → Type 0
  IsSorted [] = Unit
  IsSorted (x ∷ xs) = All (λ y. key x ≤ key y) xs × IsSorted xs

  pub IsSorted-left : (xs ys : List A) → IsSorted (xs ++ ys) → IsSorted xs
  IsSorted-left [] ys s = tt
  IsSorted-left (x ∷ xs) ys s = (All-left _ xs ys s.0, IsSorted-left xs ys s.1)

  pub IsSorted-right : (xs ys : List A) → IsSorted (xs ++ ys) → IsSorted ys
  IsSorted-right [] ys s = s
  IsSorted-right (x ∷ xs) ys s = IsSorted-right xs ys s.1

  -- All in front of an element are at most as large.
  pub sorted_below :
      (xs : List A) (y : A) (ys : List A) → IsSorted (xs ++ y ∷ ys) → All (λ x. key x ≤ key y) xs
  sorted_below [] y ys s = tt
  sorted_below (x ∷ xs) y ys s =
      ((All-right (λ z. key x ≤ key z) xs (y ∷ ys) s.0).0, sorted_below xs y ys s.1)

  pub sorted_above :
      (xs : List A) (y : A) (ys : List A) → IsSorted (xs ++ y ∷ ys) → All (λ z. key y ≤ key z) ys
  sorted_above [] y ys s = s.0
  sorted_above (x ∷ xs) y ys s = sorted_above xs y ys s.1

  All-ge :
      (k : ℕ) (x : A) (ys : List A)
      → key x ≤ k
      → All (λ z. k ≤ key z) ys
      → All (λ z. key x ≤ key z) ys
  All-ge k x [] h a = tt
  All-ge k x (y ∷ ys) h a = (omega arith, All-ge k x ys h a.1)

  -- An element fits between what is at most as large and what is at least as large.
  pub IsSorted-insert :
      (xs : List A) (y : A) (ys : List A)
      → IsSorted (xs ++ ys)
      → All (λ x. key x ≤ key y) xs
      → All (λ z. key y ≤ key z) ys
      → IsSorted (xs ++ y ∷ ys)
  IsSorted-insert [] y ys s lo hi = (hi, s)
  IsSorted-insert (x ∷ xs) y ys s lo hi = (
    All-append (λ z. key x ≤ key z) xs (y ∷ ys) (All-left (λ z. key x ≤ key z) xs ys s.0)
        (lo.0, All-ge (key y) x ys lo.0 hi),
    IsSorted-insert xs y ys s.1 lo.1 hi,
  )

  pub IsSorted-remove :
      (xs : List A) (y : A) (ys : List A) → IsSorted (xs ++ y ∷ ys) → IsSorted (xs ++ ys)
  IsSorted-remove [] y ys s = s.1
  IsSorted-remove (x ∷ xs) y ys s = (
    All-append (λ z. key x ≤ key z) xs ys (All-left (λ z. key x ≤ key z) xs (y ∷ ys) s.0)
        ((All-right (λ z. key x ≤ key z) xs (y ∷ ys) s.0).1),
    IsSorted-remove xs y ys s.1,
  )
