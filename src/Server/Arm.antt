-- ===== src/Server/Arm.antt =====
-- sysdeps/linux-gnu/arm/arch.c: the addresses at which an ARM instruction can go on, where the single step of
-- an ARM processor puts its breakpoints.
pub mod Next
pub mod Thumb
use mtrace.Base.{
  ℕ, zero, suc, ◌+◌, ◌-◌, ◌*◌, ◌/◌, ◌%◌, ◌==◌, leb, if◌then◌else◌, Bool, true, false, not, ◌&&◌,
  ◌||◌, Option, none, some, List, [], ◌∷◌, ◌++◌,
}
use Prim.Native.Nat.{bit_and, bit_or, bit_xor, ◌^◌}
use mtrace.Base.Word.{w32}

-- What ptrace gives of a stopped thread: its registers and the words of its memory, each below 2 ^ 32.
pub record ArmTask : Type 0 where
  pub reg : ℕ → Option ℕ
  pub read_32 : ℕ → Option ℕ

abbrev pub arm_reg_pc : ℕ
arm_reg_pc = 15

abbrev pub arm_reg_cpsr : ℕ
arm_reg_cpsr = 16

abbrev pub cond_always : ℕ
cond_always = 14

abbrev pub cond_nv : ℕ
cond_nv = 15

unfoldable pub bit : ℕ → ℕ → ℕ
bit v st = (v / 2 ^ st) % 2

unfoldable pub bits : ℕ → ℕ → ℕ → ℕ
bits v st fn = (v / 2 ^ st) % 2 ^ (fn - st + 1)

-- The complement of a word.
abbrev pub not_32 : ℕ → ℕ
not_32 v = w32 - 1 - v

unfoldable pub and_then : {A B : Type 0} → Option A → (A → Option B) → Option B
and_then none f = none
and_then (some a) f = f a

-- Bits set in the number of `n` bits.
unfoldable pub bitcount : ℕ → ℕ → ℕ
bitcount zero v = 0
bitcount (suc n) v = v % 2 + bitcount n (v / 2)

unfoldable pub arm_get_register_offpc : ArmTask → ℕ → Option ℕ
arm_get_register_offpc t r =
    and_then (t.reg r) (λ v. some (if r == arm_reg_pc then (v + 8) % w32 else v))

-- LSL, LSR, ASR, and ROR or RRX. The parts that the source joins by `|` have no bit in common.
unfoldable pub shifted : ℕ → ℕ → ℕ → ℕ → ℕ
shifted type shift carry v =
    if type == 0
    then (if leb 32 shift then 0 else (v * 2 ^ shift) % w32)
    else if type == 1
    then (if leb 32 shift then 0 else v / 2 ^ shift)
    else if type == 2
    then (let s = if leb 32 shift then 31 else shift in
        if leb (2 ^ 31) v then not_32 (not_32 v / 2 ^ s) else v / 2 ^ s)
    else (let s = shift % 32 in
        if s == 0 then v / 2 + carry * 2 ^ 31 else v / 2 ^ s + (v * 2 ^ (32 - s)) % w32)

unfoldable pub arm_get_shifted_register : ArmTask → ℕ → ℕ → ℕ → Option ℕ
arm_get_shifted_register t inst carry pc =
    let by_reg = bit inst 4 == 1 in
    let rm = bits inst 0 3 in
    let shift =
      if by_reg
      then and_then (arm_get_register_offpc t (bits inst 8 11)) (λ v. some (v % 256))
      else some (bits inst 7 11) in
    let res =
      if rm == arm_reg_pc then some ((pc + (if by_reg then 12 else 8)) % w32) else t.reg rm in
    and_then shift (λ s. and_then res (λ v. some (shifted (bits inst 5 6) s carry v)))

-- Bits 0 to 23 are a signed offset in words.
unfoldable pub arm_branch_dest : ℕ → ℕ → ℕ
arm_branch_dest pc inst = (pc + (bit_xor (inst % 2 ^ 24) (2 ^ 23) + w32 - 2 ^ 23) * 4 + 8) % w32

-- The operations of data processing by their number; those that only compare give 0.
unfoldable pub computed : ℕ → ℕ → ℕ → ℕ → ℕ
computed op a b c =
    if op == 0
    then bit_and a b
    else if op == 1
    then bit_xor a b
    else if op == 2
    then (a + w32 - b) % w32
    else if op == 3
    then (b + w32 - a) % w32
    else if op == 4
    then (a + b) % w32
    else if op == 5
    then (a + b + c) % w32
    else if op == 6
    then (a + w32 - b + c) % w32
    else if op == 7
    then (b + w32 - a + c) % w32
    else if op == 12
    then bit_or a b
    else if op == 13
    then b
    else if op == 14
    then bit_and a (not_32 b)
    else if op == 15
    then not_32 b
    else 0

-- An immediate operand, which is rotated to the right.
unfoldable pub immediate : ℕ → ℕ
immediate inst =
    let v = bits inst 0 7 in
    let rotate = 2 * bits inst 8 11 in
    if rotate == 0 then v else v / 2 ^ rotate + (v * 2 ^ (32 - rotate)) % w32

-- What the switch over the opcode finds: `return 0` with the address, or the addresses that it has when it
-- comes to `finish`.
pub data Decoded : Type 0 where
  returned falls : List ℕ → Decoded

abbrev pub is_bx : ℕ → Bool
is_bx inst = (bits inst 4 27 == 1245169) || (bits inst 4 27 == 1245171)

unfoldable pub data_processing : ArmTask → ℕ → ℕ → ℕ → Option Decoded
data_processing t pc inst c = elim (bits inst 12 15 == arm_reg_pc) [
  | false ↦ some (falls [])
  | true ↦ elim ((bits inst 22 25 == 0) && (bits inst 4 7 == 9)) [
    | true ↦ some (falls [])
    | false ↦ elim (is_bx inst) [
      | true ↦ and_then (arm_get_register_offpc t (bits inst 0 3)) (λ v. some (returned (v ∷ [])))
      | false ↦ and_then (arm_get_register_offpc t (bits inst 16 19)) (λ a.
          and_then
            (if bit inst 25 == 1
              then some (immediate inst)
              else arm_get_shifted_register t inst c pc)
            (λ b. some (falls (computed (bits inst 21 24) a b c ∷ []))))
    ]
  ]
]

-- The address that a load into the program counter reads.
unfoldable pub load_address : ArmTask → ℕ → ℕ → ℕ → ℕ → Option ℕ
load_address t pc inst c base = elim (bit inst 24 == 1) [
  | false ↦ some base
  | true ↦
      and_then
        (if bit inst 25 == 1 then arm_get_shifted_register t inst c pc else some (bits inst 0 11))
        (λ o. some (if bit inst 23 == 1 then (base + o) % w32 else (base + w32 - o) % w32))
]

unfoldable pub data_transfer : ArmTask → ℕ → ℕ → ℕ → Option Decoded
data_transfer t pc inst c = elim ((bit inst 20 == 1) && (bits inst 12 15 == arm_reg_pc)) [
  | false ↦ some (falls [])
  | true ↦ elim (bit inst 22 == 1) [
    | true ↦ some (falls [])
    | false ↦ and_then (arm_get_register_offpc t (bits inst 16 19)) (λ base.
        and_then (load_address t pc inst c base)
          (λ a. and_then (t.read_32 a) (λ v. some (falls (v ∷ [])))))
  ]
]

-- Where LDM finds the program counter, from the register of the base on.
unfoldable pub block_address : ℕ → ℕ → ℕ
block_address inst rn =
    let pre = bit inst 24 == 1 in
    if bit inst 23 == 1
    then (rn + bitcount 15 (bits inst 0 14) * 4 + (if pre then 4 else 0)) % w32
    else (rn + w32 - (if pre then 4 else 0)) % w32

unfoldable pub block_transfer : ArmTask → ℕ → Option Decoded
block_transfer t inst = elim ((bit inst 20 == 1) && (bit inst 15 == 1)) [
  | false ↦ some (falls [])
  | true ↦
      and_then (t.reg (bits inst 16 19))
        (λ rn. and_then (t.read_32 (block_address inst rn)) (λ v. some (falls (v ∷ []))))
]

unfoldable pub decode : ArmTask → ℕ → ℕ → ℕ → Option Decoded
decode t pc inst c =
    let op = bits inst 24 27 in
    if leb op 3
    then data_processing t pc inst c
    else if leb op 7
    then data_transfer t pc inst c
    else if leb op 9
    then block_transfer t inst
    else if leb op 11
    then some (falls (arm_branch_dest pc inst ∷ []))
    else some (falls [])

-- BLX to an address changes to Thumb.
unfoldable pub decode_nv : ℕ → ℕ → List ℕ
decode_nv pc inst =
    let op = bits inst 24 27 in
    if (op == 10) || (op == 11)
    then bit_or (bit_or (arm_branch_dest pc inst) (op % 2 * 2)) 1 ∷ []
    else []

-- The next instruction too, unless the jump is always taken.
abbrev pub no_pcs : List ℕ → Bool
no_pcs [] = true
no_pcs (a ∷ as') = false

unfoldable pub finish : ℕ → ℕ → List ℕ → List ℕ
finish cond pc pcs =
    if no_pcs pcs || not (cond == cond_always) then pcs ++ (pc + 4) % w32 ∷ [] else pcs

abbrev pub finished : ℕ → ℕ → Decoded → List ℕ
finished cond pc (returned pcs) = pcs
finished cond pc (falls pcs) = finish cond pc pcs

-- Nothing is the result -1. The list has the addresses that `next_pcs` was filled with.
unfoldable pub arm_get_next_pcs : ArmTask → ℕ → Option (List ℕ)
arm_get_next_pcs t pc = and_then (t.read_32 pc) (λ inst.
    let cond = bits inst 28 31 in
    elim (cond == cond_nv) [
      | true ↦ some (finish cond pc (decode_nv pc inst))
      | false ↦
          and_then (t.reg arm_reg_cpsr)
            (λ status. and_then (decode t pc inst (bit status 29)) (λ d. some (finished cond pc d)))
    ])
