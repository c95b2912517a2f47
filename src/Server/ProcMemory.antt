-- ===== src/Server/ProcMemory.antt =====
-- sysdeps/linux-gnu/trace.c: the copies to and from the memory of a stopped process, word by word through
-- ptrace. Addresses are numbers, so a copy does not run over the end of the address space.
pub mod Bytes
pub mod Copy
pub mod Failing
use mtrace.Base.{
  ℕ, zero, suc, ◌+◌, ◌==◌, ltb, if◌then◌else◌, Bool, true, false, not, ◌&&◌, ◌||◌, Option, none,
  some, List, [], ◌∷◌, ◌++◌, length, take, drop, Outcome, ok, diverged,
}
use Prim.Native.Nat.{min}

abbrev pub ProcBytes : Type 0
ProcBytes = ℕ → ℕ

unfoldable pub bytes : ProcBytes → ℕ → ℕ → List ℕ
bytes mem a zero = []
bytes mem a (suc n) = mem a ∷ bytes mem (a + 1) n

unfoldable pub set_byte : ProcBytes → ℕ → ℕ → ProcBytes
set_byte mem a b x = if a == x then b else mem x

unfoldable pub write : ProcBytes → ℕ → List ℕ → ProcBytes
write mem a [] = mem
write mem a (b ∷ bs) = write (set_byte mem a b) (a + 1) bs

-- What ptrace is: the size of a word, where PEEKTEXT and POKETEXT succeed, and whether a failure is EIO.
pub record Ptrace : Type 0 where
  pub word : ℕ
  pub readable : ℕ → Bool
  pub writable : ℕ → Bool
  pub eio : Bool

-- The target's memory, the bytes that came back, and the result, which is nothing for -1.
pub record Copied : Type 0 where
  pub memory : ProcBytes
  pub dst : List ℕ
  pub num_bytes : Option ℕ

module _ (os : Ptrace) where
  -- After a failure: the bytes so far where there are some and the error is EIO, and else -1.
  abbrev pub give_up : ℕ → Option ℕ
  give_up num = if (not (num == 0) && os.eio) then some num else none

  -- The word at `a` with its first bytes replaced by `src`.
  unfoldable pub patched : ProcBytes → ℕ → List ℕ → List ℕ
  patched mem a src = src ++ drop (length src) (bytes mem a os.word)

  unfoldable pub copy_to_loop : ℕ → ProcBytes → ℕ → List ℕ → ℕ → Outcome Copied
  copy_to_loop fuel mem a [] num = ok (record { memory = mem; dst = []; num_bytes = some num })
  copy_to_loop zero mem a (b ∷ src) num = diverged
  copy_to_loop (suc fuel) mem a (b ∷ src) num =
      let n = min os.word (length (b ∷ src)) in
      let part = take n (b ∷ src) in
      elim ((os.readable a || not (ltb n os.word)) && os.writable a) [
        | false ↦ ok (record { memory = mem; dst = []; num_bytes = give_up num })
        | true ↦
            copy_to_loop fuel (write mem a (patched mem a part)) (a + n) (drop n (b ∷ src))
              (num + n)
      ]

  unfoldable pub copy_to_proc : ProcBytes → ℕ → List ℕ → Outcome Copied
  copy_to_proc mem a src = copy_to_loop (length src) mem a src 0

  unfoldable pub copy_from_to_loop : ℕ → ProcBytes → ℕ → List ℕ → List ℕ → ℕ → Outcome Copied
  copy_from_to_loop fuel mem a [] dst num =
      ok (record { memory = mem; dst = dst; num_bytes = some num })
  copy_from_to_loop zero mem a (b ∷ src) dst num = diverged
  copy_from_to_loop (suc fuel) mem a (b ∷ src) dst num =
      let n = min os.word (length (b ∷ src)) in
      let part = take n (b ∷ src) in
      let got = dst ++ take n (bytes mem a os.word) in
      elim (os.readable a) [
        | false ↦ ok (record { memory = mem; dst = dst; num_bytes = give_up num })
        | true ↦ elim (os.writable a) [
          | false ↦ ok (record { memory = mem; dst = got; num_bytes = give_up num })
          | true ↦
              copy_from_to_loop fuel (write mem a (patched mem a part)) (a + n) (drop n (b ∷ src))
                got (num + n)
        ]
      ]

  unfoldable pub copy_from_to_proc : ProcBytes → ℕ → List ℕ → Outcome Copied
  copy_from_to_proc mem a src = copy_from_to_loop (length src) mem a src [] 0
