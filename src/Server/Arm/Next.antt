-- ===== src/Server/Arm/Next.antt =====
-- sysdeps/linux-gnu/arm/arch.c: how many addresses an ARM instruction can go on at, and which are among them.
use mtrace.Base.{
  ℕ, ◌+◌, ◌%◌, ◌≤◌, ◌==◌, leb, ◌≡◌, refl, ◌⊎◌, inl, inr, Bool, true, false, ◌&&◌, ◌||◌,
  if◌then◌else◌, Option, none, some, List, [], ◌∷◌, length, arith, Bool-cases, ==_iff,
}
use mtrace.Base.Word.{w32}
use mtrace.Server.Arm.{
  ArmTask, arm_reg_pc, arm_reg_cpsr, cond_always, cond_nv, bit, bits, and_then, Decoded, returned,
  falls, is_bx, data_processing, data_transfer, block_transfer, load_address, block_address, decode,
  decode_nv, finish, finished, arm_get_next_pcs, arm_get_register_offpc, arm_get_shifted_register,
}

-- There is a result, of which something holds.
abbrev pub WhenSome : {A : Type 0} → (A → Type 0) → Option A → Type 0
WhenSome P none = ⊥
WhenSome P (some a) = P a

abbrev pub Given : {A : Type 0} → Option A → Type 0
Given m = WhenSome (λ a. Unit) m

-- Every read of a register or a word succeeds.
pub record IsReadable (t : ArmTask) : Type 0 where
  pub regs : (r : ℕ) → Given (t.reg r)
  pub words : (a : ℕ) → Given (t.read_32 a)

pub and_then-WhenSome :
    {A B : Type 0} (P : B → Type 0) (m : Option A) (f : A → Option B)
    → Given m
    → ((a : A) → WhenSome P (f a))
    → WhenSome P (and_then m f)
unfolding and_then
and_then-WhenSome P none f g h = absurd g
and_then-WhenSome P (some a) f g h = h a

pub if-Given :
    {A : Type 0} (b : Bool) (m n : Option A) → Given m → Given n → Given (if b then m else n)
if-Given true m n g h = g
if-Given false m n g h = h

module _ (t : ArmTask) (ok_reads : IsReadable t) where
  offpc-Given : (r : ℕ) → Given (arm_get_register_offpc t r)
  unfolding arm_get_register_offpc
  offpc-Given r = and_then-WhenSome _ (t.reg r) _ (ok_reads.regs r) (λ v. tt)

  shifted_register-Given : (inst c pc : ℕ) → Given (arm_get_shifted_register t inst c pc)
  unfolding arm_get_shifted_register
  shifted_register-Given inst c pc =
      and_then-WhenSome _ _ _
        (if-Given (bit inst 4 == 1) _ _
          (and_then-WhenSome _ (arm_get_register_offpc t (bits inst 8 11)) _
            (offpc-Given (bits inst 8 11)) (λ v. tt))
          tt)
        (λ s.
          and_then-WhenSome _ _ _
            (if-Given (bits inst 0 3 == arm_reg_pc) _ _ tt (ok_reads.regs (bits inst 0 3)))
            (λ v. tt))

  load_address-Given : (pc inst c base : ℕ) → Given (load_address t pc inst c base)
  unfolding load_address
  load_address-Given pc inst c base = elim (Bool-cases (bit inst 24 == 1)) [
    | inr f ↦ rw (f, load_address) tt
    | inl e ↦
        rw (e, load_address)
          (and_then-WhenSome _ _ _
            (if-Given (bit inst 25 == 1) _ _ (shifted_register-Given inst c pc) tt) (λ o. tt))
  ]

-- Only BX and BLX return at once, with one address; else there is one at most.
abbrev IsSmall : ℕ → Decoded → Type 0
IsSmall inst (returned pcs) = (length pcs ≡ 1) × (is_bx inst ≡ true)
IsSmall inst (falls pcs) = length pcs ≤ 1

data_processing-IsSmall :
    (t : ArmTask) (ok_reads : IsReadable t) (pc inst c : ℕ)
    → WhenSome (IsSmall inst) (data_processing t pc inst c)
unfolding data_processing
data_processing-IsSmall t ok_reads pc inst c = elim (Bool-cases (bits inst 12 15 == arm_reg_pc)) [
  | inr f ↦ rw (f, data_processing) (omega arith)
  | inl e ↦ elim (Bool-cases ((bits inst 22 25 == 0) && (bits inst 4 7 == 9))) [
    | inl m ↦ rw (e, m, data_processing) (omega arith)
    | inr n ↦ elim (Bool-cases (is_bx inst)) [
      | inl b ↦
          rw (e, n, b, data_processing)
            (and_then-WhenSome _ _ _ (offpc-Given t ok_reads (bits inst 0 3)) (λ v. (refl, b)))
      | inr b ↦
          rw (e, n, b, data_processing)
            (and_then-WhenSome _ _ _ (offpc-Given t ok_reads (bits inst 16 19)) (λ a.
              and_then-WhenSome _ _ _
                (if-Given (bit inst 25 == 1) _ _ tt (shifted_register-Given t ok_reads inst c pc))
                (λ b. omega arith)))
    ]
  ]
]

data_transfer-IsSmall :
    (t : ArmTask) (ok_reads : IsReadable t) (pc inst c : ℕ)
    → WhenSome (IsSmall inst) (data_transfer t pc inst c)
unfolding data_transfer
data_transfer-IsSmall t ok_reads pc inst c =
    elim (Bool-cases ((bit inst 20 == 1) && (bits inst 12 15 == arm_reg_pc))) [
      | inr f ↦ rw (f, data_transfer) (omega arith)
      | inl e ↦ elim (Bool-cases (bit inst 22 == 1)) [
        | inl m ↦ rw (e, m, data_transfer) (omega arith)
        | inr n ↦
            rw (e, n, data_transfer)
              (and_then-WhenSome _ _ _ (offpc-Given t ok_reads (bits inst 16 19)) (λ base.
                and_then-WhenSome _ _ _ (load_address-Given t ok_reads pc inst c base)
                  (λ a. and_then-WhenSome _ _ _ (ok_reads.words a) (λ v. omega arith))))
      ]
    ]

block_transfer-IsSmall :
    (t : ArmTask) (ok_reads : IsReadable t) (inst : ℕ)
    → WhenSome (IsSmall inst) (block_transfer t inst)
unfolding block_transfer
block_transfer-IsSmall t ok_reads inst =
    elim (Bool-cases ((bit inst 20 == 1) && (bit inst 15 == 1))) [
      | inr f ↦ rw (f, block_transfer) (omega arith)
      | inl e ↦
          rw (e, block_transfer)
            (and_then-WhenSome _ _ _ (ok_reads.regs (bits inst 16 19)) (λ rn.
              and_then-WhenSome _ _ _ (ok_reads.words (block_address inst rn)) (λ v. omega arith)))
    ]

decode-IsSmall :
    (t : ArmTask) (ok_reads : IsReadable t) (pc inst c : ℕ)
    → WhenSome (IsSmall inst) (decode t pc inst c)
unfolding decode
decode-IsSmall t ok_reads pc inst c = elim (Bool-cases (leb (bits inst 24 27) 3)) [
  | inl e ↦ rw (e, decode) (data_processing-IsSmall t ok_reads pc inst c)
  | inr f ↦ elim (Bool-cases (leb (bits inst 24 27) 7)) [
    | inl e ↦ rw (f, e, decode) (data_transfer-IsSmall t ok_reads pc inst c)
    | inr g ↦ elim (Bool-cases (leb (bits inst 24 27) 9)) [
      | inl e ↦ rw (f, g, e, decode) (block_transfer-IsSmall t ok_reads inst)
      | inr h ↦ elim (Bool-cases (leb (bits inst 24 27) 11)) [
        | inl e ↦ rw (f, g, h, e, decode) (omega arith)
        | inr i ↦ rw (f, g, h, i, decode) (omega arith)
      ]
    ]
  ]
]

-- The last address is the one of the next instruction.
abbrev pub EndsAt : ℕ → List ℕ → Type 0
EndsAt a [] = ⊥
EndsAt a (x ∷ []) = x ≡ a
EndsAt a (x ∷ y ∷ xs) = EndsAt a (y ∷ xs)

-- The array of two has room for the addresses, and one is set. If the instruction need not jump, the one behind it
-- is among them, unless it is a BX or BLX of a register.
abbrev pub IsNext : ℕ → ℕ → List ℕ → Type 0
IsNext pc inst pcs =
    (1 ≤ length pcs)
    × (length pcs ≤ 2)
    × ((is_bx inst ≡ true) ⊎ ((bits inst 28 31 ≡ cond_always) ⊎ EndsAt ((pc + 4) % w32) pcs))

finish-IsNext :
    (pc inst : ℕ) (pcs : List ℕ) → length pcs ≤ 1 → IsNext pc inst (finish (bits inst 28 31) pc pcs)
unfolding finish
finish-IsNext pc inst [] h = (omega arith, omega arith, inr (inr refl))
finish-IsNext pc inst (a ∷ []) h = elim (Bool-cases (bits inst 28 31 == cond_always)) [
  | inl e ↦
      rw (e, finish)
        (omega arith, omega arith, inr (inl ((==_iff (bits inst 28 31) cond_always).0 e)))
  | inr f ↦ rw (f, finish) (omega arith, omega arith, inr (inr refl))
]
finish-IsNext pc inst (a ∷ b ∷ pcs) h = absurd (ground arith)

finished-IsNext :
    (pc inst : ℕ) (d : Decoded) → IsSmall inst d → IsNext pc inst (finished (bits inst 28 31) pc d)
finished-IsNext pc inst (returned pcs) h = (omega (arith, h.0), omega (arith, h.0), inl h.1)
finished-IsNext pc inst (falls pcs) h = finish-IsNext pc inst pcs h

decode_nv_small : (pc inst : ℕ) → length (decode_nv pc inst) ≤ 1
unfolding decode_nv
decode_nv_small pc inst = elim (Bool-cases ((bits inst 24 27 == 10) || (bits inst 24 27 == 11))) [
  | inl e ↦ rw (e, decode_nv) (omega arith)
  | inr f ↦ rw (f, decode_nv) (omega arith)
]

-- Where every read of the thread succeeds the result is not -1, and `next_pcs` gets one or two addresses, as
-- many as it has room for. Unless the instruction always jumps or is a BX or BLX of a register, the last one is
-- the address behind it.
pub arm_get_next_pcs-IsNext :
    (t : ArmTask) (ok_reads : IsReadable t) (pc inst : ℕ)
    → t.read_32 pc ≡ some inst
    → WhenSome (IsNext pc inst) (arm_get_next_pcs t pc)
unfolding arm_get_next_pcs and_then
arm_get_next_pcs-IsNext t ok_reads pc inst e = elim (Bool-cases (bits inst 28 31 == cond_nv)) [
  | inl n ↦
      rw (e, n, arm_get_next_pcs, and_then)
        (finish-IsNext pc inst (decode_nv pc inst) (decode_nv_small pc inst))
  | inr f ↦
      simp (e, f, arm_get_next_pcs, and_then)
        (and_then-WhenSome _ (t.reg arm_reg_cpsr) _ (ok_reads.regs arm_reg_cpsr)
          (λ s. mapped (bit s 29)))
]
  where
    of_decoded :
        (o : Option Decoded)
        → WhenSome (IsSmall inst) o
        → WhenSome (IsNext pc inst) (and_then o (λ d. some (finished (bits inst 28 31) pc d)))
    of_decoded none h = absurd h
    of_decoded (some d) h = finished-IsNext pc inst d h

    mapped :
        (c : ℕ)
        → WhenSome
            (IsNext pc inst)
            (and_then (decode t pc inst c) (λ d. some (finished (bits inst 28 31) pc d)))
    mapped c = of_decoded (decode t pc inst c) (decode-IsSmall t ok_reads pc inst c)
