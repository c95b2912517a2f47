-- ===== src/Process/Compare.antt =====
-- client/process.c: `memncmp` is a total order on call stacks that tells different ones apart.
use Prim.Native.Nat.{Ordering, compare}
use mtrace.Base.{ℕ, ◌≡◌, refl, ◌⊎◌, inl, inr, List, [], ◌∷◌, length, arith}
use mtrace.Process.Stacks.{memcmp, memncmp}

pub Ordering-cases : (o : Ordering) → (o ≡ Ordering.lt) ⊎ (o ≡ Ordering.eq) ⊎ (o ≡ Ordering.gt)
Ordering-cases Ordering.lt = inl refl
Ordering-cases Ordering.eq = inr (inl refl)
Ordering-cases Ordering.gt = inr (inr refl)

-- The order the other way round.
abbrev pub flip : Ordering → Ordering
flip Ordering.lt = Ordering.gt
flip Ordering.eq = Ordering.eq
flip Ordering.gt = Ordering.lt

memcmp-flip : (p q : List ℕ) → memcmp q p ≡ flip (memcmp p q)
unfolding memcmp
memcmp-flip [] [] = refl
memcmp-flip [] (y ∷ q) = refl
memcmp-flip (x ∷ p) [] = refl
memcmp-flip (x ∷ p) (y ∷ q) = ground (arith, memcmp-flip p q)

-- Swapping the arguments swaps the answer.
pub memncmp-flip : (p q : List ℕ) → memncmp q p ≡ flip (memncmp p q)
unfolding memncmp
memncmp-flip p q = ground (arith, memcmp-flip p q)

memcmp-eq : (p q : List ℕ) → memcmp p q ≡ Ordering.eq → length p ≡ length q → p ≡ q
unfolding memcmp
memcmp-eq [] [] e l = refl
memcmp-eq [] (y ∷ q) e l = absurd (omega arith)
memcmp-eq (x ∷ p) [] e l = absurd (omega arith)
memcmp-eq (x ∷ p) (y ∷ q) e l = ground (arith, memcmp-eq p q)

memcmp_self : (p : List ℕ) → memcmp p p ≡ Ordering.eq
unfolding memcmp
memcmp_self [] = refl
memcmp_self (x ∷ p) = ground (arith, memcmp_self p)

pub memncmp-eq : (p q : List ℕ) → memncmp p q ≡ Ordering.eq → p ≡ q
unfolding memncmp
memncmp-eq p q e = ground (arith, memcmp-eq p q)

pub memncmp_self : (p : List ℕ) → memncmp p p ≡ Ordering.eq
unfolding memncmp
memncmp_self p = ground (arith, memcmp_self p)

-- Lexicographic order, a prefix before what it begins: the specification.
unfoldable pub lex : List ℕ → List ℕ → Ordering
lex [] [] = Ordering.eq
lex [] (y ∷ q) = Ordering.lt
lex (x ∷ p) [] = Ordering.gt
lex (x ∷ p) (y ∷ q) = elim (compare x y) [
  | Ordering.eq ↦ lex p q
  | Ordering.lt ↦ Ordering.lt
  | Ordering.gt ↦ Ordering.gt
]

-- `memncmp` is the lexicographic order on the bytes of call stacks, where a prefix comes first.
pub memncmp-lex : (p q : List ℕ) → memncmp p q ≡ lex p q
unfolding memncmp lex memcmp
memncmp-lex [] [] = refl
memncmp-lex [] (y ∷ q) = ground arith
memncmp-lex (x ∷ p) [] = ground arith
memncmp-lex (x ∷ p) (y ∷ q) = ground (arith, memncmp-lex p q)

pub lex_trans :
    (p q r : List ℕ) → lex p q ≡ Ordering.lt → lex q r ≡ Ordering.lt → lex p r ≡ Ordering.lt
unfolding lex
lex_trans [] [] r a b = cc
lex_trans [] (y ∷ q) [] a b = cc
lex_trans [] (y ∷ q) (z ∷ r) a b = refl
lex_trans (x ∷ p) [] r a b = cc
lex_trans (x ∷ p) (y ∷ q) [] a b = cc
lex_trans (x ∷ p) (y ∷ q) (z ∷ r) a b = ground (arith, lex_trans p q r)

-- The order that `stack_add` searches by is transitive.
pub memncmp_trans :
    (p q r : List ℕ)
    → memncmp p q ≡ Ordering.lt
    → memncmp q r ≡ Ordering.lt
    → memncmp p r ≡ Ordering.lt
memncmp_trans p q r a b =
    rw (memncmp-lex p r) (lex_trans p q r (rw (memncmp-lex p q) at a) (rw (memncmp-lex q r) at b))
