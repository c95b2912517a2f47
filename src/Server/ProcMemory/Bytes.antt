-- ===== src/Server/ProcMemory/Bytes.antt =====
-- Bytes of the target that are read and written: the arithmetic of ranges.
use mtrace.Base.{
  ℕ, zero, suc, ltb, ◌+◌, ◌-◌, ◌≤◌, ◌<◌, ◌==◌, ◌≡◌, refl, sym, subst, ap, ◌∙◌, ◌⊎◌, inl, inr, List,
  [], ◌∷◌, ◌++◌, length, take, drop, arith, Bool-cases, ==_iff,
}
use mathlib.Core.Path.{ap₂}
use mtrace.Server.ProcMemory.{ProcBytes, bytes, set_byte, write}

set-same : (mem : ProcBytes) (a b : ℕ) → set_byte mem a b a ≡ b
unfolding set_byte
set-same mem a b = ground arith

set-other : (mem : ProcBytes) (a b x : ℕ) → (x < a) ⊎ (a < x) → set_byte mem a b x ≡ mem x
unfolding set_byte
set-other mem a b x h = ground arith

-- A write changes nothing outside its range.
pub write-outside :
    (mem : ProcBytes) (a : ℕ) (bs : List ℕ) (x : ℕ)
    → (x < a) ⊎ (a + length bs ≤ x)
    → write mem a bs x ≡ mem x
unfolding write
write-outside mem a [] x h = refl
write-outside mem a (b ∷ bs) x h =
    write-outside (set_byte mem a b) (a + 1) bs x (ground arith)
    ∙ set-other mem a b x (ground arith)

-- What is written is read back.
pub bytes-write :
    (mem : ProcBytes) (a : ℕ) (bs : List ℕ) → bytes (write mem a bs) a (length bs) ≡ bs
unfolding bytes write
bytes-write mem a [] = refl
bytes-write mem a (b ∷ bs) =
    ap₂ (λ c cs. c ∷ cs)
      (write-outside (set_byte mem a b) (a + 1) bs a (inl (omega arith)) ∙ set-same mem a b)
      (bytes-write (set_byte mem a b) (a + 1) bs)

pub length-bytes : (mem : ProcBytes) (a n : ℕ) → length (bytes mem a n) ≡ n
unfolding bytes
length-bytes mem a zero = refl
length-bytes mem a (suc n) = omega (arith, length-bytes mem (a + 1) n)

-- Two memories that agree on a range read alike there, and the converse.
pub bytes-cong :
    (m n : ProcBytes) (a k : ℕ)
    → ((x : ℕ) → a ≤ x → x < a + k → m x ≡ n x)
    → bytes m a k ≡ bytes n a k
unfolding bytes
bytes-cong m n a zero h = refl
bytes-cong m n a (suc k) h =
    ap₂ (λ c cs. c ∷ cs) (h a (omega arith) (omega arith))
      (bytes-cong m n (a + 1) k (λ x le lt. h x (omega arith) (omega arith)))

cons_head : (x y : ℕ) (xs ys : List ℕ) → x ∷ xs ≡ y ∷ ys → x ≡ y
cons_head x y xs ys e = cc

cons_tail : (x y : ℕ) (xs ys : List ℕ) → x ∷ xs ≡ y ∷ ys → xs ≡ ys
cons_tail x y xs ys e = cc

pub bytes-eq :
    (m n : ProcBytes) (a k : ℕ)
    → bytes m a k ≡ bytes n a k
    → (x : ℕ) → a ≤ x
    → x < a + k
    → m x ≡ n x
unfolding bytes
bytes-eq m n a zero e x le lt = omega arith
bytes-eq m n a (suc k) e x le lt = elim (Bool-cases (a == x)) [
  | inl t ↦ subst (λ y. m y ≡ n y) ((==_iff a x).0 t) (cons_head _ _ _ _ e)
  | inr f ↦ bytes-eq m n (a + 1) k (cons_tail _ _ _ _ e) x (ground arith) (omega arith)
]

pub write-append :
    (mem : ProcBytes) (a : ℕ) (xs ys : List ℕ)
    → write mem a (xs ++ ys) ≡ write (write mem a xs) (a + length xs) ys
unfolding write
write-append mem a [] ys = ap (λ z. write mem z ys) (omega arith)
write-append mem a (b ∷ xs) ys =
    write-append (set_byte mem a b) (a + 1) xs ys
    ∙ ap (λ z. write (write (set_byte mem a b) (a + 1) xs) z ys) (omega arith)

-- Writing what another memory has in a range gives that memory, where the two agree outside the range.
pub restore :
    (mem old : ProcBytes) (a n : ℕ)
    → ((x : ℕ) → (x < a) ⊎ (a + n ≤ x) → mem x ≡ old x)
    → (x : ℕ) → write mem a (bytes old a n) x ≡ old x
restore mem old a n h x =
    let d = bytes old a n in
    let k = length-bytes old a n in
    let out = write-outside mem a d x in
    elim (Bool-cases (ltb x a)) [
      | inl lt ↦ out (inl (ground arith)) ∙ h x (inl (ground arith))
      | inr ge ↦ elim (Bool-cases (ltb x (a + n))) [
        | inl lt ↦
            bytes-eq (write mem a d) old a n
              (ap (bytes (write mem a d) a) (sym k) ∙ bytes-write mem a d) x (ground arith)
              (ground arith)
        | inr past ↦ out (inr (ground arith)) ∙ h x (inr (ground arith))
      ]
    ]

-- Writing over a range and writing back what stood there leaves the memory as it was.
pub write_back :
    (mem : ProcBytes) (a : ℕ) (bs : List ℕ) (x : ℕ)
    → write (write mem a bs) a (bytes mem a (length bs)) x ≡ mem x
write_back mem a bs x =
    restore (write mem a bs) mem a (length bs) (λ y h. write-outside mem a bs y h) x

none_left : (k : ℕ) → 0 - suc k ≡ 0
none_left k = omega arith

pub drop-bytes : (mem : ProcBytes) (a k n : ℕ) → drop k (bytes mem a n) ≡ bytes mem (a + k) (n - k)
unfolding bytes
drop-bytes mem a zero n = ap₂ (λ b m. bytes mem b m) (omega arith) (omega arith)
drop-bytes mem a (suc k) zero = sym (ap (bytes mem (a + suc k)) (none_left k))
drop-bytes mem a (suc k) (suc n) =
    drop-bytes mem (a + 1) k n ∙ ap₂ (λ b m. bytes mem b m) (omega arith) (omega arith)

pub take-bytes : (mem : ProcBytes) (a k n : ℕ) → k ≤ n → take k (bytes mem a n) ≡ bytes mem a k
unfolding bytes
take-bytes mem a zero n le = refl
take-bytes mem a (suc k) zero le = ground arith
take-bytes mem a (suc k) (suc n) le =
    ap (λ cs. mem a ∷ cs) (take-bytes mem (a + 1) k n (omega arith))

suc_add : (n k : ℕ) → suc (n + k) ≡ suc n + k
suc_add n k = omega arith

pub bytes-append :
    (mem : ProcBytes) (a n k : ℕ) → bytes mem a n ++ bytes mem (a + n) k ≡ bytes mem a (n + k)
unfolding bytes
bytes-append mem a zero k = ap₂ (bytes mem) (omega arith) (omega arith)
bytes-append mem a (suc n) k =
    ap (λ cs. mem a ∷ cs)
      (ap (λ z. bytes mem (a + 1) n ++ bytes mem z k) (omega arith) ∙ bytes-append mem (a + 1) n k)
    ∙ ap (bytes mem a) (suc_add n k)
