-- ===== src/Message/Codec.antt =====
-- client/process.c: integers written to a message are read back, in both byte orders.
use mathlib.Core.List.{reverse, reverse-cons, reverse-reverse}
use mtrace.Base.{
  ℕ, zero, suc, ◌*◌, ◌/◌, ◌≤◌, ◌<◌, ◌≡◌, refl, ap, ◌∙◌, inl, inr, some, List, [], ◌∷◌, ◌++◌, arith,
  take, length, length-append, All, All-append, if◌then◌else◌, le→leb, Bool-cases,
}
use mtrace.Message.Wire.{bytes_le, value_le, bswap, load, Format, ptr_size, get_ulong, put_ulong}

-- 256 ^ n.
abbrev pub pow256 : ℕ → ℕ
pow256 zero = 1
pow256 (suc n) = 256 * pow256 n

pub value_le-bytes_le : (n v : ℕ) → v < pow256 n → value_le (bytes_le n v) ≡ v
unfolding value_le bytes_le
value_le-bytes_le zero v h = omega arith
value_le-bytes_le (suc n) v h = omega (arith, value_le-bytes_le n (v / 256) (omega arith))

bytes_le-value_le : (bs : List ℕ) → All (λ b. b < 256) bs → bytes_le (length bs) (value_le bs) ≡ bs
unfolding value_le bytes_le
bytes_le-value_le [] h = refl
bytes_le-value_le (b ∷ bs) h = ground (arith, bytes_le-value_le bs h.1)

pub length-bytes_le : (n v : ℕ) → length (bytes_le n v) ≡ n
unfolding bytes_le
length-bytes_le zero v = refl
length-bytes_le (suc n) v = ap suc (length-bytes_le n (v / 256))

bytes_le-All : (n v : ℕ) → All (λ b. b < 256) (bytes_le n v)
unfolding bytes_le
bytes_le-All zero v = tt
bytes_le-All (suc n) v = (omega arith, bytes_le-All n (v / 256))

length-reverse : (xs : List ℕ) → length (reverse xs) ≡ length xs
length-reverse [] = refl
length-reverse (x ∷ xs) =
    omega
      (arith, ap length (reverse-cons x xs), length-append (reverse xs) (x ∷ []), length-reverse xs)

reverse-All : (xs : List ℕ) → All (λ b. b < 256) xs → All (λ b. b < 256) (reverse xs)
reverse-All [] h = tt
reverse-All (x ∷ xs) h =
    rw (reverse-cons x xs) (All-append _ (reverse xs) (x ∷ []) (reverse-All xs h.1) (h.0, tt))

bytes_le-bswap : (n v : ℕ) → bytes_le n (bswap n v) ≡ reverse (bytes_le n v)
unfolding bswap
bytes_le-bswap n v =
    let bs = bytes_le n v in
    let e : length (reverse bs) ≡ n = length-reverse bs ∙ length-bytes_le n v in
    rw e at (bytes_le-value_le (reverse bs) (reverse-All bs (bytes_le-All n v)))

value_le-bswap : (n v : ℕ) → value_le (bytes_le n (bswap n v)) ≡ bswap n v
value_le-bswap n v = rw (bytes_le-bswap n v) (unfold bswap in refl)

-- Swapping the bytes of an integer that fits into so many bytes twice gives it back.
pub bswap_twice : (n v : ℕ) → v < pow256 n → bswap n (bswap n v) ≡ v
bswap_twice n v h = step ∙ value_le-bytes_le n v h
  where
    step : bswap n (bswap n v) ≡ value_le (bytes_le n v)
    step =
        unfold bswap in
        ap (λ bs. value_le (reverse bs)) (bytes_le-bswap n v)
        ∙ ap value_le (reverse-reverse (bytes_le n v))

value_le_bound : (bs : List ℕ) → All (λ b. b < 256) bs → value_le bs < pow256 (length bs)
unfolding value_le
value_le_bound [] h = omega arith
value_le_bound (b ∷ bs) h = omega (arith, h.0, value_le_bound bs h.1)

pub bswap_bound : (n v : ℕ) → bswap n v < pow256 n
unfolding bswap
bswap_bound n v =
    let bs = bytes_le n v in
    let e : length (reverse bs) ≡ n = length-reverse bs ∙ length-bytes_le n v in
    rw e at (value_le_bound (reverse bs) (reverse-All bs (bytes_le-All n v)))

take-append : (xs ys : List ℕ) → take (length xs) (xs ++ ys) ≡ xs
take-append [] ys = refl
take-append (x ∷ xs) ys = ap (◌∷◌ x) (take-append xs ys)

load-bytes_le :
    (n v : ℕ) (rest : List ℕ) → load n (bytes_le n v ++ rest) ≡ some (value_le (bytes_le n v))
unfolding load
load-bytes_le n v rest =
    let e = length-bytes_le n v in
    let t : take n (bytes_le n v ++ rest) ≡ bytes_le n v =
      rw e at (take-append (bytes_le n v) rest) in
    rw t (ground (arith, e, length-append (bytes_le n v) rest))

-- An integer of the traced process that `put_ulong` has written is read back by `get_ulong`, for 32 and
-- 64 bits and for both byte orders, whatever follows it in the buffer.
pub get_ulong-put_ulong :
    (f : Format) (v : ℕ) (rest : List ℕ)
    → v < pow256 (ptr_size f)
    → get_ulong f (put_ulong f v ++ rest) ≡ some v
unfolding get_ulong put_ulong
get_ulong-put_ulong f v rest h = elim (Bool-cases f.swap_endian) [
  | inl swap ↦
      rw (swap, load-bytes_le (ptr_size f) (bswap (ptr_size f) v) rest)
        (ap some
          (ap (bswap (ptr_size f)) (value_le-bswap (ptr_size f) v) ∙ bswap_twice (ptr_size f) v h))
  | inr keep ↦
      rw (keep, load-bytes_le (ptr_size f) v rest) (ap some (value_le-bytes_le (ptr_size f) v h))
]

pub get_ulong-some :
    (f : Format) (p : List ℕ) → ptr_size f ≤ length p → (a : ℕ) × (get_ulong f p ≡ some a)
unfolding get_ulong load
get_ulong-some f p h = (
  (if f.swap_endian
      then bswap (ptr_size f) (value_le (take (ptr_size f) p))
      else value_le (take (ptr_size f) p)),
  rw (le→leb _ _ h),
)
