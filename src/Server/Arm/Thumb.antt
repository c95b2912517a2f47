-- ===== src/Server/Arm/Thumb.antt =====
-- sysdeps/linux-gnu/arm/arch.c: the address at which a Thumb instruction goes on.
pub mod One
use mtrace.Base.{
  ℕ, ◌+◌, ◌-◌, ◌*◌, ◌/◌, ◌%◌, ◌==◌, if◌then◌else◌, Bool, true, false, not, ◌&&◌, ◌||◌, Option, none,
  some, List, [], ◌∷◌,
}
use Prim.Native.Nat.{bit_xor, ◌^◌}
use mtrace.Base.Word.{w32}
use mtrace.Server.Arm.{ArmTask, arm_reg_pc, cond_always, bit, bits, bitcount, and_then, no_pcs}

-- A thread with what ptrace reads of its memory in halfwords and bytes.
pub record ThumbTask : Type 0 where
  pub words : ArmTask
  pub read_16 : ℕ → Option ℕ
  pub read_8 : ℕ → Option ℕ

abbrev pub arm_reg_sp : ℕ
arm_reg_sp = 13

abbrev pub arm_reg_lr : ℕ
arm_reg_lr = 14

-- The bits as a signed number, in a word.
unfoldable pub sbits : ℕ → ℕ → ℕ → ℕ
sbits v st fn = bits v st fn + bit v fn * (w32 - 2 ^ (fn - st + 1))

abbrev pub is_wide : ℕ → Bool
is_wide inst1 = (bits inst1 13 15 == 7) && not (bits inst1 11 12 == 0)

unfoldable pub thumb_insn_size : ℕ → ℕ
thumb_insn_size inst1 = if is_wide inst1 then 4 else 2

abbrev pub one : ℕ → Option (List ℕ)
one v = some (v % w32 ∷ [])

-- A jump to the word at an address.
unfoldable pub to_word : ThumbTask → ℕ → Option (List ℕ)
to_word t a = and_then (t.words.read_32 (a % w32)) (λ v. some (v ∷ []))

-- B, BL and BLX; BLX clears the low bits.
unfoldable pub branch_dest : ℕ → ℕ → ℕ → ℕ
branch_dest pc inst1 inst2 =
    let offset = (sbits inst1 0 10 * 2 ^ 12 + bits inst2 0 10 * 2) % w32 in
    let flip = (1 - bit inst2 11) * 2 ^ 22 + (1 - bit inst2 13) * 2 ^ 23 in
    let next = (pc + bit_xor offset flip) % w32 in
    if bit inst2 12 == 0 then next - next % 4 else next

unfoldable pub conditional_offset : ℕ → ℕ → ℕ
conditional_offset inst1 inst2 =
    bit inst1 10 * (w32 - 2 ^ 20)
    + bit inst2 11 * 2 ^ 19
    + bit inst2 13 * 2 ^ 18
    + bits inst1 0 5 * 2 ^ 12
    + bits inst2 0 10 * 2

-- Branches and miscellaneous control instructions.
unfoldable pub control : ThumbTask → ℕ → ℕ → ℕ → Option (List ℕ)
control t pc inst1 inst2 =
    if (bit inst2 12 == 1) || ((bits inst2 14 15 == 3) && (bit inst2 0 == 0))
    then one (branch_dest pc inst1 inst2)
    else if (inst1 == 62430) && (bits inst2 8 15 == 63)
    then and_then (t.words.reg arm_reg_lr) (λ v. one (v + w32 - bits inst2 0 7))
    else if (bits inst2 14 15 == 2) && (bit inst2 12 == 0) && not (bits inst1 7 9 == 7)
    then one (pc + conditional_offset inst1 inst2)
    else some []

-- LDM, POP and RFE: whether the program counter is loaded, and the offset from the base, in a word.
unfoldable pub multiple : ℕ → ℕ → Bool × ℕ
multiple inst1 inst2 =
    if bit inst1 7 == 1
    then (if bit inst1 8 == 1
        then (true, 0)
        else (bit inst2 15 == 1, w32 + bitcount 16 inst2 * 4 - 4))
    else (if bit inst1 8 == 1 then (bit inst2 15 == 1, w32 - 4) else (true, w32 - 8))

unfoldable pub load_multiple : ThumbTask → ℕ → ℕ → Option (List ℕ)
load_multiple t inst1 inst2 =
    let m = multiple inst1 inst2 in
    if m.0 then and_then (t.words.reg (bits inst1 0 3)) (λ a. to_word t (a + m.1)) else some []

-- LDR into the program counter: the address that is read, or nothing where the instruction is reserved.
-- A register that cannot be read is the outer nothing.
unfoldable pub indexed : ThumbTask → ℕ → ℕ → ℕ → Option (Option ℕ)
indexed t inst1 inst2 base =
    if bits inst1 0 3 == arm_reg_pc
    then (let b = (base + 4) % w32 - (base + 4) % w32 % 4 in
        some (some (if bit inst1 7 == 1 then b + bits inst2 0 11 else b + w32 - bits inst2 0 11)))
    else if bit inst1 7 == 1
    then some (some (base + bits inst2 0 11))
    else if bit inst2 11 == 1
    then (if bit inst2 10 == 1
        then (if bit inst2 9 == 1
            then some (some (base + bits inst2 0 7))
            else some (some (base + w32 - bits inst2 0 7)))
        else some (some base))
    else if bits inst2 6 11 == 0
    then and_then (t.words.reg (bits inst2 0 3)) (λ v. some (some (base + v * 2 ^ bits inst2 4 5)))
    else some none

abbrev pub to_indexed : ThumbTask → Option ℕ → Option (List ℕ)
to_indexed t none = some []
to_indexed t (some a) = to_word t a

unfoldable pub load_pc : ThumbTask → ℕ → ℕ → Option (List ℕ)
load_pc t inst1 inst2 =
    and_then (t.words.reg (bits inst1 0 3))
      (λ base. and_then (indexed t inst1 inst2 base) (to_indexed t))

-- TBB and TBH, whose entries have `n` bytes and are read by `read`.
unfoldable pub table_branch : ThumbTask → (ℕ → Option ℕ) → ℕ → ℕ → ℕ → ℕ → Option (List ℕ)
table_branch t read n pc inst1 inst2 =
    and_then (if bits inst1 0 3 == arm_reg_pc then some (pc + 4) else t.words.reg (bits inst1 0 3))
      (λ table.
        and_then (t.words.reg (bits inst2 0 3)) (λ offset.
          and_then (read ((table + n * offset) % w32)) (λ length. one (pc + 2 * length))))

unfoldable pub wide : ThumbTask → ℕ → ℕ → ℕ → Option (List ℕ)
wide t pc inst1 inst2 =
    if (bits inst1 11 15 == 30) && (bit inst2 15 == 1)
    then control t pc inst1 inst2
    else if (bits inst1 9 15 == 116) && (bit inst1 6 == 0) && (bit inst1 4 == 1)
    then load_multiple t inst1 inst2
    else if ((inst1 == 59983) || (inst1 == 59999)) && (bits inst2 4 15 == 240)
    then and_then (t.words.reg (bits inst2 0 3)) one
    else if (bits inst1 8 15 == 248) && (bits inst1 4 6 == 5) && (bits inst2 12 15 == 15)
    then load_pc t inst1 inst2
    else if (bits inst1 4 15 == 3725) && (bits inst2 4 15 == 3840)
    then table_branch t t.read_8 1 pc inst1 inst2
    else if (bits inst1 4 15 == 3725) && (bits inst2 4 15 == 3841)
    then table_branch t t.read_16 2 pc inst1 inst2
    else some []

-- The jump of an instruction, if it has one.
unfoldable pub thumb_jump : ThumbTask → ℕ → ℕ → Option (List ℕ)
thumb_jump t pc inst1 =
    if bits inst1 8 15 == 189
    then and_then (t.words.reg arm_reg_sp) (λ sp. to_word t (sp + bitcount 8 (bits inst1 0 7) * 4))
    else if bits inst1 12 15 == 13
    then (if bits inst1 8 11 == 15 then some [] else one (pc + sbits inst1 0 7 * 2))
    else if bits inst1 11 15 == 28
    then one (pc + sbits inst1 0 10 * 2)
    else if is_wide inst1
    then and_then (t.read_16 ((pc + 2) % w32)) (wide t pc inst1)
    else some []

unfoldable pub thumb_get_next_pcs : ThumbTask → ℕ → Option (List ℕ)
thumb_get_next_pcs t pc = and_then (t.read_16 pc) (λ inst1.
    and_then (thumb_jump t pc inst1)
      (λ pcs. some (if no_pcs pcs then (pc + thumb_insn_size inst1) % w32 ∷ [] else pcs)))
