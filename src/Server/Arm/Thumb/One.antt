-- ===== src/Server/Arm/Thumb/One.antt =====
-- sysdeps/linux-gnu/arm/arch.c: a Thumb instruction gets one address.
use mtrace.Base.{
  inl, inr, not, ◌&&◌, ◌||◌, Bool-cases, ℕ, ◌+◌, ◌%◌, ◌*◌, ◌-◌, ◌≤◌, ◌==◌, ◌≡◌, refl, Bool, true,
  false, if◌then◌else◌, Option, none, some, List, [], ◌∷◌, length, arith,
}
use mtrace.Base.Word.{w32}
use mtrace.Server.Arm.{arm_reg_pc, bit, bits, and_then, no_pcs}
use mtrace.Server.Arm.Next.{WhenSome, Given, IsReadable, and_then-WhenSome}
use mtrace.Server.Arm.Thumb.{
  ThumbTask, arm_reg_sp, arm_reg_lr, to_word, control, multiple, load_multiple, indexed, to_indexed,
  load_pc, table_branch, wide, is_wide, thumb_jump, thumb_get_next_pcs, thumb_insn_size,
}

pub record IsThumbReadable (t : ThumbTask) : Type 0 where
  pub words : IsReadable t.words
  pub halves : (a : ℕ) → Given (t.read_16 a)
  pub bytes : (a : ℕ) → Given (t.read_8 a)

-- There is a result, of which `P` holds.
record Holds {A : Type 0} (P : A → Type 0) (o : Option A) : Type 0 where
  holds : WhenSome P o

abbrev Found : {A : Type 0} → Option A → Type 0
Found o = Holds (λ a. Unit) o

abbrev AtMostOne : Option (List ℕ) → Type 0
AtMostOne = Holds (λ pcs. length pcs ≤ 1)

if-Holds :
    {A : Type 0} (P : A → Type 0) (b : Bool) (m n : Option A)
    → Holds P m
    → Holds P n
    → Holds P (if b then m else n)
if-Holds P true m n g h = g
if-Holds P false m n g h = h

and_then-Holds :
    {A B : Type 0} (P : B → Type 0) (m : Option A) (f : A → Option B)
    → Found m
    → ((a : A) → Holds P (f a))
    → Holds P (and_then m f)
and_then-Holds P m f g h = record { holds = and_then-WhenSome P m f g.holds (λ a. (h a).holds) }

given : {A : Type 0} (o : Option A) → Given o → Found o
given o g = record { holds = g }

found : {A : Type 0} (a : A) → Found (some a)
found a = record { holds = tt }

no_jump : AtMostOne (some [])
no_jump = record { holds = omega arith }

jump : (v : ℕ) → AtMostOne (some (v ∷ []))
jump v = record { holds = omega arith }

module _ (t : ThumbTask) (ok_reads : IsThumbReadable t) where
  abbrev reg : (r : ℕ) → Found (t.words.reg r)
  reg r = given (t.words.reg r) (ok_reads.words.regs r)

  to_word_small : (a : ℕ) → AtMostOne (to_word t a)
  unfolding to_word
  to_word_small a = and_then-Holds _ _ _ (given _ (ok_reads.words.words (a % w32))) (λ v. jump v)

  control_small : (pc inst1 inst2 : ℕ) → AtMostOne (control t pc inst1 inst2)
  unfolding control
  control_small pc inst1 inst2 =
      elim (Bool-cases ((bit inst2 12 == 1) || ((bits inst2 14 15 == 3) && (bit inst2 0 == 0)))) [
        | inl e ↦ rw (e, control) (jump _)
        | inr f1 ↦ elim (Bool-cases ((inst1 == 62430) && (bits inst2 8 15 == 63))) [
          | inl e ↦ rw (f1, e, control) (and_then-Holds _ _ _ (reg arm_reg_lr) (λ v. jump _))
          | inr f2 ↦
              elim (Bool-cases
                ((bits inst2 14 15 == 2) && (bit inst2 12 == 0) && not (bits inst1 7 9 == 7))) [
                  | inl e ↦ rw (f1, f2, e, control) (jump _)
                  | inr f3 ↦ rw (f1, f2, f3, control) (no_jump)
                ]
        ]
      ]

  load_multiple_small : (inst1 inst2 : ℕ) → AtMostOne (load_multiple t inst1 inst2)
  unfolding load_multiple
  load_multiple_small inst1 inst2 = elim (Bool-cases ((multiple inst1 inst2).0)) [
    | inl e ↦
        rw (e, load_multiple)
          (and_then-Holds _ _ _ (reg (bits inst1 0 3))
            (λ a. to_word_small (a + (multiple inst1 inst2).1)))
    | inr f1 ↦ rw (f1, load_multiple) (no_jump)
  ]

  of_offset :
      (inst2 base : ℕ)
      → Found (
          if bit inst2 10 == 1
          then (if bit inst2 9 == 1
              then some (some (base + bits inst2 0 7))
              else some (some (base + w32 - bits inst2 0 7)))
          else some (some base))
  of_offset inst2 base = elim (Bool-cases (bit inst2 10 == 1)) [
    | inr f ↦ rw (f) (found _)
    | inl e ↦ elim (Bool-cases (bit inst2 9 == 1)) [
      | inl u ↦ rw (e, u) (found _)
      | inr d ↦ rw (e, d) (found _)
    ]
  ]

  indexed-Given : (inst1 inst2 base : ℕ) → Found (indexed t inst1 inst2 base)
  unfolding indexed
  indexed-Given inst1 inst2 base = elim (Bool-cases (bits inst1 0 3 == arm_reg_pc)) [
    | inl e ↦ rw (e, indexed) (found _)
    | inr f1 ↦ elim (Bool-cases (bit inst1 7 == 1)) [
      | inl e ↦ rw (f1, e, indexed) (found _)
      | inr f2 ↦ elim (Bool-cases (bit inst2 11 == 1)) [
        | inl e ↦ rw (f1, f2, e, indexed) (of_offset inst2 base)
        | inr f3 ↦ elim (Bool-cases (bits inst2 6 11 == 0)) [
          | inl e ↦
              rw (f1, f2, f3, e, indexed)
                (and_then-Holds _ _ _ (reg (bits inst2 0 3)) (λ v. found _))
          | inr f4 ↦ rw (f1, f2, f3, f4, indexed) (found _)
        ]
      ]
    ]
  ]

  to_indexed_small : (o : Option ℕ) → AtMostOne (to_indexed t o)
  to_indexed_small none = no_jump
  to_indexed_small (some a) = to_word_small a

  load_pc_small : (inst1 inst2 : ℕ) → AtMostOne (load_pc t inst1 inst2)
  unfolding load_pc
  load_pc_small inst1 inst2 =
      and_then-Holds _ _ _ (reg (bits inst1 0 3))
        (λ base. and_then-Holds _ _ _ (indexed-Given inst1 inst2 base) to_indexed_small)

  table_branch_small :
      (read : ℕ → Option ℕ) (n pc inst1 inst2 : ℕ)
      → ((a : ℕ) → Given (read a))
      → AtMostOne (table_branch t read n pc inst1 inst2)
  unfolding table_branch
  table_branch_small read n pc inst1 inst2 h =
      and_then-Holds _ _ _
        (if-Holds _ (bits inst1 0 3 == arm_reg_pc) _ _ (found (pc + 4)) (reg (bits inst1 0 3)))
        (λ table.
          and_then-Holds _ _ _ (reg (bits inst2 0 3)) (λ offset.
            and_then-Holds _ _ _ (given _ (h ((table + n * offset) % w32))) (λ l. jump _)))

  wide_small : (pc inst1 inst2 : ℕ) → AtMostOne (wide t pc inst1 inst2)
  unfolding wide
  wide_small pc inst1 inst2 = elim (Bool-cases ((bits inst1 11 15 == 30) && (bit inst2 15 == 1))) [
    | inl e ↦ rw (e, wide) (control_small pc inst1 inst2)
    | inr f1 ↦
        elim (Bool-cases ((bits inst1 9 15 == 116) && (bit inst1 6 == 0) && (bit inst1 4 == 1))) [
          | inl e ↦ rw (f1, e, wide) (load_multiple_small inst1 inst2)
          | inr f2 ↦
              elim (Bool-cases
                (((inst1 == 59983) || (inst1 == 59999)) && (bits inst2 4 15 == 240))) [
                  | inl e ↦
                      rw (f1, f2, e, wide)
                        (and_then-Holds _ _ _ (reg (bits inst2 0 3)) (λ v. jump _))
                  | inr f3 ↦
                      elim (Bool-cases (
                        (bits inst1 8 15 == 248)
                        && (bits inst1 4 6 == 5)
                        && (bits inst2 12 15 == 15))) [
                          | inl e ↦ rw (f1, f2, f3, e, wide) (load_pc_small inst1 inst2)
                          | inr f4 ↦
                              elim (Bool-cases
                                ((bits inst1 4 15 == 3725) && (bits inst2 4 15 == 3840))) [
                                  | inl e ↦
                                      rw (f1, f2, f3, f4, e, wide)
                                        (table_branch_small t.read_8 1 pc inst1 inst2
                                          ok_reads.bytes)
                                  | inr f5 ↦
                                      elim (Bool-cases
                                        ((bits inst1 4 15 == 3725) && (bits inst2 4 15 == 3841))) [
                                          | inl e ↦
                                              rw (f1, f2, f3, f4, f5, e, wide)
                                                (table_branch_small t.read_16 2 pc inst1 inst2
                                                  ok_reads.halves)
                                          | inr f6 ↦ rw (f1, f2, f3, f4, f5, f6, wide) (no_jump)
                                        ]
                                ]
                        ]
                ]
        ]
  ]

  thumb_jump_small : (pc inst1 : ℕ) → AtMostOne (thumb_jump t pc inst1)
  unfolding thumb_jump
  thumb_jump_small pc inst1 = elim (Bool-cases (bits inst1 8 15 == 189)) [
    | inl e ↦ rw (e, thumb_jump) (and_then-Holds _ _ _ (reg arm_reg_sp) (λ sp. to_word_small _))
    | inr f1 ↦ elim (Bool-cases (bits inst1 12 15 == 13)) [
      | inl e ↦ rw (f1, e, thumb_jump) (if-Holds _ (bits inst1 8 11 == 15) _ _ no_jump (jump _))
      | inr f2 ↦ elim (Bool-cases (bits inst1 11 15 == 28)) [
        | inl e ↦ rw (f1, f2, e, thumb_jump) (jump _)
        | inr f3 ↦ elim (Bool-cases (is_wide inst1)) [
          | inl e ↦
              rw (f1, f2, f3, e, thumb_jump)
                (and_then-Holds _ _ _ (given _ (ok_reads.halves ((pc + 2) % w32)))
                  (wide_small pc inst1))
          | inr f4 ↦ rw (f1, f2, f3, f4, thumb_jump) (no_jump)
        ]
      ]
    ]
  ]

  one_left :
      (pc inst1 : ℕ) (o : Option (List ℕ))
      → AtMostOne o
      → WhenSome
          (λ pcs. length pcs ≡ 1)
          (and_then o
            (λ pcs. some (if no_pcs pcs then (pc + thumb_insn_size inst1) % w32 ∷ [] else pcs)))
  unfolding and_then
  one_left pc inst1 none h = h.holds
  one_left pc inst1 (some []) h = refl
  one_left pc inst1 (some (a ∷ [])) h = refl
  one_left pc inst1 (some (a ∷ b ∷ pcs)) h = absurd (let k = h.holds in ground arith)

  -- Where every read of the thread succeeds the result is not -1, and `next_pcs` gets one address, also for an
  -- instruction that may jump or not.
  pub thumb_get_next_pcs_one : (pc : ℕ) → WhenSome (λ pcs. length pcs ≡ 1) (thumb_get_next_pcs t pc)
  unfolding thumb_get_next_pcs
  thumb_get_next_pcs_one pc =
      and_then-WhenSome _ (t.read_16 pc) _ (ok_reads.halves pc)
        (λ inst1. one_left pc inst1 (thumb_jump t pc inst1) (thumb_jump_small pc inst1))
