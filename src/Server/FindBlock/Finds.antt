-- ===== src/Server/FindBlock/Finds.antt =====
-- common.c: the search for an address finds its block, or there is none.
use mtrace.Base.{
  ℕ, zero, suc, ◌+◌, ◌-◌, ◌≤◌, ◌<◌, ltb, ◌≡◌, refl, ◌≢◌, ◌⊎◌, inl, inr, arith, ok, ◌>>=◌, Ends,
  Bool-cases,
}
use mtrace.Base.Word.{sub64}
use mtrace.Server.FindBlock.{read_val, middle_of, find_from, find_block}

module _ (get_val : ℕ → ℕ) (n : ℕ) where
  abbrev pub Ascends : Type 0
  Ascends = (i j : ℕ) → i ≤ j → j < n → get_val i ≤ get_val j

  -- An index of the address, or `n` where the array does not have it.
  abbrev pub FindsBlock : ℕ → ℕ → Type 0
  FindsBlock addr i =
      ((i < n) × (get_val i ≡ addr)) ⊎ ((i ≡ n) × ((j : ℕ) → j < n → get_val j ≢ addr))

  read-ok : (i : ℕ) → i < n → read_val get_val n i ≡ ok (get_val i)
  unfolding read_val
  read-ok i h = ground arith

  module _ (addr : ℕ) (small : n < 0x8000_0000_0000_0000) (up : Ascends) where
    middle-in :
        (first last : ℕ)
        → first < last
        → last ≤ n
        → (first ≤ middle_of get_val n first last) × (middle_of get_val n first last < last)
    unfolding middle_of
    middle-in first last h k = (omega arith, omega arith)

    -- The block is not in front of `first` and not from `last` on.
    abbrev Outside : ℕ → ℕ → Type 0
    Outside first last =
        ((j : ℕ) → j < first → get_val j < addr) × ((j : ℕ) → last ≤ j → j < n → addr < get_val j)

    nowhere : (first last : ℕ) → Outside first last → last ≤ first → FindsBlock addr n
    nowhere first last o le = inr (
      refl,
      λ j h e. elim (Bool-cases (ltb j first)) [
        | inl lt ↦ let q = o.0 j (ground arith) in omega (arith, e)
        | inr ge ↦ let q = o.1 j (ground arith) h in omega (arith, e)
      ],
    )

    Outside-below : (first last m : ℕ) → Outside first last → addr < get_val m → Outside first m
    Outside-below first last m o h = (o.0, λ j le k. let q = up m j le k in omega arith)

    Outside-above :
        (first last m : ℕ) → Outside first last → m < n → get_val m < addr → Outside (m + 1) last
    Outside-above first last m o k h =
        ((λ j lt. let q = up j m (omega arith) k in omega arith), o.1)

    find_from-FindsBlock :
        (fuel first last : ℕ)
        → first < last
        → last ≤ n
        → last ≤ first + fuel
        → Outside first last
        → Ends ⊥ (FindsBlock addr) (find_from get_val n fuel first last addr)
    unfolding find_from
    find_from-FindsBlock zero first last lt le enough o = omega arith
    find_from-FindsBlock (suc fuel) first last lt le enough o =
        let m = middle_of get_val n first last in
        let b = middle-in first last lt le in
        let r = read-ok m (omega (arith, b.1)) in
        elim (Bool-cases (ltb addr (get_val m))) [
          | inl below ↦ elim (Bool-cases (ltb first m)) [
            | inl more ↦
                rw (r, below, more, find_from, ◌>>=◌, Ends)
                  (find_from-FindsBlock fuel first m (ground arith) (omega (arith, b.1))
                    (omega (arith, b.1)) (Outside-below first last m o (ground arith)))
            | inr done ↦
                rw (r, below, done, find_from, ◌>>=◌, Ends)
                  (nowhere first m (Outside-below first last m o (ground arith)) (ground arith))
          ]
          | inr not_below ↦ elim (Bool-cases (ltb (get_val m) addr)) [
            | inl above ↦ elim (Bool-cases (ltb (m + 1) last)) [
              | inl more ↦
                  rw (r, not_below, above, more, find_from, ◌>>=◌, Ends)
                    (find_from-FindsBlock fuel (m + 1) last (ground arith) le (omega (arith, b.0))
                      (Outside-above first last m o (omega (arith, b.1)) (ground arith)))
              | inr done ↦
                  rw (r, not_below, above, done, find_from, ◌>>=◌, Ends)
                    (nowhere (m + 1) last
                      (Outside-above first last m o (omega (arith, b.1)) (ground arith))
                      (ground arith))
            ]
            | inr same ↦
                rw (r, not_below, same, find_from, ◌>>=◌, Ends)
                  (inl (omega (arith, b.1), ground arith))
          ]
        ]

    last_index : 0 < n → sub64 n 1 ≡ n - 1
    last_index pos = omega arith

    -- In an array of at least one block and less than 2 ^ 63, in ascending order, the search returns the
    -- index of a block at the address, or `n` where there is none; it never reads past the array.
    pub find_block-FindsBlock : 0 < n → Ends ⊥ (FindsBlock addr) (find_block get_val n addr)
    unfolding find_block
    find_block-FindsBlock pos =
        let r = read-ok 0 pos in
        let last = last_index pos in
        let s = read-ok (n - 1) (omega arith) in
        elim (Bool-cases (ltb addr (get_val 0))) [
          | inl below ↦
              rw (r, below, find_block, ◌>>=◌, Ends)
                (inr (refl, λ j h e. let q = up 0 j (omega arith) h in ground arith))
          | inr not_below ↦ elim (Bool-cases (ltb (get_val (n - 1)) addr)) [
            | inl above ↦
                rw (r, not_below, last, s, above, find_block, ◌>>=◌, Ends)
                  (inr (
                    refl,
                    λ j h e. let q = up j (n - 1) (omega arith) (omega arith) in ground arith,
                  ))
            | inr inside ↦
                rw (r, not_below, last, s, inside, find_block, ◌>>=◌, Ends)
                  (find_from-FindsBlock n 0 n pos (omega arith) (omega arith)
                    ((λ j h. omega arith), λ j h k. omega arith))
          ]
        ]
