-- ===== src/Client/Config/Scanners.antt =====
-- client/client.c: how far the scanners of the configuration go.
use mtrace.Base.{
  ℕ, zero, suc, ◌+◌, ◌≤◌, ◌<◌, ◌≡◌, refl, inl, inr, ◌==◌, Bool, false, List, [], ◌∷◌, arith, drop,
  length, Bool-cases, ok, Ends, Ends-bind, Ends-map,
}
use mtrace.Client.Config.{byte, is_space, count_while, trim_space, cmp_from}

-- How far a scanner went: to the end, or to a byte that fails the test.
pub record Counted (f : ℕ → Bool) (p : List ℕ) (n c : ℕ) : Type 0 where
  pub within : c ≤ n
  pub stops : c < n → (x : ℕ) × (byte (drop c p) ≡ ok x) × (f x ≡ false)

pub count_while-Counted :
    (f : ℕ → Bool) (p : List ℕ) (n : ℕ) → n ≤ length p → Ends ⊥ (Counted f p n) (count_while f p n)
unfolding count_while byte
count_while-Counted f p zero h = record { within = omega arith; stops = λ lt. absurd (omega arith) }
count_while-Counted f [] (suc n) h = absurd (omega arith)
count_while-Counted f (x ∷ p) (suc n) h = elim (Bool-cases (f x)) [
  | inl pass ↦
      rw (pass, Ends)
        (Ends-bind ⊥ (Counted f p n) (Counted f (x ∷ p) (suc n)) (count_while f p n) _
          (count_while-Counted f p n (omega arith))
          λ c k. record { within = omega (arith, k.within); stops = λ lt. k.stops (omega arith) })
  | inr not_it ↦
      rw (not_it, Ends) (record { within = omega arith; stops = λ lt. (x, refl, not_it) })
]

pub byte_at : (c : ℕ) (p : List ℕ) → c < length p → (x : ℕ) × (byte (drop c p) ≡ ok x)
unfolding byte
byte_at zero [] h = absurd (omega arith)
byte_at zero (x ∷ p) h = (x, refl)
byte_at (suc c) [] h = absurd (omega arith)
byte_at (suc c) (x ∷ p) h = byte_at c p (omega arith)

pub trim_space_within : (p : List ℕ) (n : ℕ) → n ≤ length p → Ends ⊥ (λ c. c ≤ n) (trim_space p n)
unfolding trim_space
trim_space_within p zero h = omega arith
trim_space_within p (suc c) h =
    let (x, at) = byte_at c p (omega arith) in
    rw (at, Ends)
      (elim (Bool-cases (is_space x)) [
        | inl space ↦
            rw (space, Ends)
              (Ends-map ⊥ (λ k. k ≤ c) (λ k. k ≤ suc c) (trim_space p c)
                (trim_space_within p c (omega arith)) λ k le. omega arith)
        | inr other ↦ rw (other, Ends) (omega arith)
      ])

pub cmp_from_within :
    (c : ℕ) (p str : List ℕ) (n : ℕ) → n ≤ length p → Ends ⊥ (λ r. r ≤ c + n) (cmp_from c p str n)
unfolding cmp_from byte
cmp_from_within c p str zero h = omega arith
cmp_from_within c [] str (suc n) h = absurd (omega arith)
cmp_from_within c (x ∷ p) [] (suc n) h = elim (Bool-cases (is_space x)) [
  | inl space ↦ rw (space, Ends) (omega arith)
  | inr other ↦ rw (other, Ends) (omega arith)
]
cmp_from_within c (x ∷ p) (s ∷ str) (suc n) h = elim (Bool-cases (x == s)) [
  | inl same ↦
      rw (same, Ends)
        (Ends-map ⊥ (λ r. r ≤ suc c + n) (λ r. r ≤ c + suc n) (cmp_from (suc c) p str n)
          (cmp_from_within (suc c) p str n (omega arith)) λ k le. omega arith)
  | inr other ↦ rw (other, Ends) (omega arith)
]
