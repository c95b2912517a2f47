-- ===== src/Base/Results.antt =====
-- What a call does: it returns, it ends in `abort()` (an `assert`, `fatal` or the option that stops on
-- the first error), it follows a null pointer or reads past a buffer, or it loops for longer than the
-- model follows it.
use mathlib.Core.Path.{◌≡◌, refl}

pub data Outcome {ℓ} (A : Type ℓ) : Type ℓ where
  ok : A → Outcome A
  aborted : Outcome A
  fault : Outcome A
  diverged : Outcome A

module _ {ℓ κ} {A : Type ℓ} {B : Type κ} where
  infixl 5 ◌>>=◌
  abbrev pub ◌>>=◌ : Outcome A → (A → Outcome B) → Outcome B
  aborted >>= k = aborted
  fault >>= k = fault
  diverged >>= k = diverged
  ok r >>= k = k r

  -- A sequence that returns has a first part that returns.
  pub >>=-eq-ok :
      (b : B) (first : Outcome A) (k : A → Outcome B)
      → first >>= k ≡ ok b
      → (r : A) × (first ≡ ok r) × (k r ≡ ok b)
  >>=-eq-ok b aborted k e = cc
  >>=-eq-ok b fault k e = cc
  >>=-eq-ok b diverged k e = cc
  >>=-eq-ok b (ok r) k e = (r, refl, e)

-- Total correctness: the call returns with `P`, or stops in `abort()` for a reason that `R` states.
abbrev pub Ends {ℓ} : {A : Type ℓ} → Type 0 → (A → Type 0) → Outcome A → Type 0
Ends R P (ok a) = P a
Ends R P aborted = R
Ends R P fault = ⊥
Ends R P diverged = ⊥

pub Ends-bind {ℓ κ} :
    {A : Type ℓ} {B : Type κ} (R : Type 0) (P : A → Type 0) (Q : B → Type 0) (m : Outcome A)
    (f : A → Outcome B)
    → Ends R P m
    → ((a : A) → P a → Ends R Q (f a))
    → Ends R Q (m >>= f)
Ends-bind R P Q (ok a) f h k = k a h
Ends-bind R P Q aborted f h k = h
Ends-bind R P Q fault f h k = absurd h
Ends-bind R P Q diverged f h k = absurd h

pub Ends-map {ℓ} :
    {A : Type ℓ} (R : Type 0) (P Q : A → Type 0) (m : Outcome A)
    → Ends R P m
    → ((a : A) → P a → Q a)
    → Ends R Q m
Ends-map R P Q (ok a) h k = k a h
Ends-map R P Q aborted h k = h
Ends-map R P Q fault h k = absurd h
Ends-map R P Q diverged h k = absurd h

pub Ends-why {ℓ} :
    {A : Type ℓ} (R S : Type 0) (P : A → Type 0) (m : Outcome A) → (R → S) → Ends R P m → Ends S P m
Ends-why R S P (ok a) f h = h
Ends-why R S P aborted f h = f h
Ends-why R S P fault f h = absurd h
Ends-why R S P diverged f h = absurd h

-- What is known of the result may use that it is the result.
pub Ends-with {ℓ} :
    {A : Type ℓ} (R : Type 0) (P Q : A → Type 0) (m : Outcome A)
    → Ends R P m
    → ((a : A) → m ≡ ok a → P a → Q a)
    → Ends R Q m
Ends-with R P Q (ok a) h k = k a refl h
Ends-with R P Q aborted h k = h
Ends-with R P Q fault h k = absurd h
Ends-with R P Q diverged h k = absurd h
