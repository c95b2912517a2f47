-- ===== src/Server/FindBlock.antt =====
-- common.c: the search for an address in a sorted array of blocks.
pub mod Finds
use mtrace.Base.{
  ℕ, zero, suc, ◌+◌, ◌-◌, ◌/◌, ltb, Bool, true, false, Outcome, ok, fault, diverged, ◌>>=◌,
}
use mtrace.Base.Word.{add64, sub64}

-- `get_val` reads an element of `arr`; a read past the `n` elements is a fault.
module _ (get_val : ℕ → ℕ) (n : ℕ) where
  unfoldable pub read_val : ℕ → Outcome ℕ
  read_val i = elim (ltb i n) [ true ↦ ok (get_val i) | false ↦ fault ]

  unfoldable pub middle_of : ℕ → ℕ → ℕ
  middle_of first last = add64 first last / 2

  -- The body of the loop, with its test at the end.
  unfoldable pub find_from : ℕ → ℕ → ℕ → ℕ → Outcome ℕ
  find_from zero first last addr = diverged
  find_from (suc fuel) first last addr =
      let middle = middle_of first last in
      read_val middle >>= λ val. elim (ltb addr val) [
        | true ↦ elim (ltb first middle) [ true ↦ find_from fuel first middle addr | false ↦ ok n ]
        | false ↦ elim (ltb val addr) [
          | true ↦ elim (ltb (middle + 1) last) [
            | true ↦ find_from fuel (middle + 1) last addr
            | false ↦ ok n
          ]
          | false ↦ ok middle
        ]
      ]

  unfoldable pub find_block : ℕ → Outcome ℕ
  find_block addr = do
    low ← read_val 0
    elim (ltb addr low) [
      | true ↦ ok n
      | false ↦ do
        high ← read_val (sub64 n 1)
        elim (ltb high addr) [ true ↦ ok n | false ↦ find_from n 0 n addr ]
    ]
