-- ===== src/Process/Search.antt =====
-- client/process.c: what the searches of the block table find, by exact address and by range.
use mtrace.Base.{
  ℕ, ◌≤◌, ◌<◌, ◌≡◌, refl, ◌≢◌, inl, inr, ◌==◌, ltb, true, false, ◌&&◌, Option, none, some, ◌∷◌,
  ◌++◌, arith, All, All-append, All-map, Bool-cases, Ends, Ends-bind, ltb→lt,
}
use mtrace.Rbtree.{Tree, leaf, node, Dir, left, right, Trail, inorder, get, IsSlot, before, behind}
use mtrace.Rbtree.Sorted.{IsSorted, IsSorted-left, IsSorted-right, sorted_below, sorted_above}
use mtrace.Process.State.{RbBlock, Env}
use mtrace.Process.Blocks.{
  Hit, under, starts_in, at_least_one, search_range_loop, process_rb_search_range,
  process_rb_search, block_place,
}

abbrev pub IsOrdered : Tree RbBlock → Type 0
IsOrdered t = IsSorted (λ b. b.addr) (inorder t)

-- A hit is a node of the tree.
abbrev pub IsAt : Tree RbBlock → Option Hit → (RbBlock → Type 0) → Type 0
IsAt t none P = Unit
IsAt t (some (p, b)) P = (get t p ≡ some b) × P b

IsAt_left :
    (c : _) (l : Tree RbBlock) (b : RbBlock) (r : Tree RbBlock) (h : Option Hit)
    (P : RbBlock → Type 0)
    → IsAt l h P
    → IsAt (node c l b r) (under left h) P
unfolding get
IsAt_left c l b r none P a = tt
IsAt_left c l b r (some (p, x)) P a = a

IsAt_right :
    (c : _) (l : Tree RbBlock) (b : RbBlock) (r : Tree RbBlock) (h : Option Hit)
    (P : RbBlock → Type 0)
    → IsAt r h P
    → IsAt (node c l b r) (under right h) P
unfolding get
IsAt_right c l b r none P a = tt
IsAt_right c l b r (some (p, x)) P a = a

pub search-IsAt :
    (t : Tree RbBlock) (addr : ℕ) → IsAt t (process_rb_search t addr) (λ b. b.addr ≡ addr)
unfolding process_rb_search get
search-IsAt leaf addr = tt
search-IsAt (node c l b r) addr = elim (Bool-cases (addr == b.addr)) [
  | inl e ↦ rw (e, IsAt) (refl, ground arith)
  | inr e ↦ elim (Bool-cases (ltb addr b.addr)) [
    | inl lt ↦ rw (e, lt, IsAt) (IsAt_left c l b r _ _ (search-IsAt l addr))
    | inr ge ↦ rw (e, ge, IsAt) (IsAt_right c l b r _ _ (search-IsAt r addr))
  ]
]

range_loop-IsAt :
    (t : Tree RbBlock) (addr n : ℕ)
    → IsAt t (search_range_loop t addr n) (λ b. starts_in addr n b ≡ true)
unfolding search_range_loop get
range_loop-IsAt leaf addr n = tt
range_loop-IsAt (node c l b r) addr n = elim (Bool-cases (starts_in addr n b)) [
  | inl e ↦ rw (e, IsAt) (refl, e)
  | inr e ↦ elim (Bool-cases (ltb addr b.addr)) [
    | inl lt ↦ rw (e, lt, IsAt) (IsAt_left c l b r _ _ (range_loop-IsAt l addr n))
    | inr ge ↦ rw (e, ge, IsAt) (IsAt_right c l b r _ _ (range_loop-IsAt r addr n))
  ]
]

pub search_range-IsAt :
    (t : Tree RbBlock) (addr size : ℕ)
    → IsAt t
        (process_rb_search_range t addr size)
        (λ b. starts_in addr (at_least_one size) b ≡ true)
unfolding process_rb_search_range
search_range-IsAt t addr size = range_loop-IsAt t addr (at_least_one size)

-- Facts about the two sides of a node in an ordered tree.
module _ (l : Tree RbBlock) (b : RbBlock) (r : Tree RbBlock)
    (s : IsSorted (λ (x : RbBlock). x.addr) (inorder l ++ b ∷ inorder r)) where
  pub left-IsOrdered : IsOrdered l
  left-IsOrdered = IsSorted-left (λ (x : RbBlock). x.addr) (inorder l) _ s

  pub right-IsOrdered : IsOrdered r
  right-IsOrdered = (IsSorted-right (λ (x : RbBlock). x.addr) (inorder l) _ s).1

  pub left_below : All (λ (x : RbBlock). x.addr ≤ b.addr) (inorder l)
  left_below = sorted_below (λ (x : RbBlock). x.addr) (inorder l) b _ s

  pub right_above : All (λ (x : RbBlock). b.addr ≤ x.addr) (inorder r)
  right_above = sorted_above (λ (x : RbBlock). x.addr) (inorder l) b _ s

under-none : (d : Dir) (h : Option Hit) → under d h ≡ none → h ≡ none
under-none d none e = refl
under-none d (some (p, b)) e = cc

-- In an ordered table a failed search means that no block starts at the address.
pub search-none :
    (t : Tree RbBlock) (addr : ℕ)
    → IsOrdered t
    → process_rb_search t addr ≡ none
    → All (λ b. b.addr ≢ addr) (inorder t)
unfolding process_rb_search
search-none leaf addr s e = tt
search-none (node c l b r) addr s e = elim (Bool-cases (addr == b.addr)) [
  | inl eq ↦ cc (rw (eq, process_rb_search) at e)
  | inr ne ↦ elim (Bool-cases (ltb addr b.addr)) [
    | inl lt ↦
        All-append _ (inorder l) (b ∷ inorder r)
          (search-none l addr (left-IsOrdered l b r s)
            (under-none left _ (rw (ne, lt, process_rb_search) at e)))
          (ground arith, All-map (λ x h eq. ground arith) (inorder r) (right_above l b r s))
    | inr ge ↦
        All-append _ (inorder l) (b ∷ inorder r)
          (All-map (λ x h eq. ground arith) (inorder l) (left_below l b r s))
          (
            ground arith,
            search-none r addr (right-IsOrdered l b r s)
                (under-none right _ (rw (ne, ge, process_rb_search) at e)),
          )
  ]
]

range_loop-none :
    (t : Tree RbBlock) (addr n : ℕ)
    → IsOrdered t
    → search_range_loop t addr n ≡ none
    → All (λ b. starts_in addr n b ≡ false) (inorder t)
unfolding search_range_loop
range_loop-none leaf addr n s e = tt
range_loop-none (node c l b r) addr n s e = elim (Bool-cases (starts_in addr n b)) [
  | inl eq ↦ cc (rw (eq, search_range_loop) at e)
  | inr ne ↦ elim (Bool-cases (ltb addr b.addr)) [
    | inl lt ↦
        All-append _ (inorder l) (b ∷ inorder r)
          (range_loop-none l addr n (left-IsOrdered l b r s)
            (under-none left _ (rw (ne, lt, search_range_loop) at e)))
          (ne, All-map (λ x h. ground arith) (inorder r) (right_above l b r s))
    | inr ge ↦
        All-append _ (inorder l) (b ∷ inorder r)
          (All-map (λ x h. ground arith) (inorder l) (left_below l b r s))
          (
            ne,
            range_loop-none r addr n (right-IsOrdered l b r s)
                (under-none right _ (rw (ne, ge, search_range_loop) at e)),
          )
  ]
]

-- In an ordered table a failed range search means that no block starts in the range.
pub search_range-none :
    (t : Tree RbBlock) (addr size : ℕ)
    → IsOrdered t
    → process_rb_search_range t addr size ≡ none
    → All (λ b. starts_in addr (at_least_one size) b ≡ false) (inorder t)
unfolding process_rb_search_range
search_range-none t addr size = range_loop-none t addr (at_least_one size)

-- A place for a block at `addr`: what stands in front of it starts no later, what follows starts
-- behind it.
pub record IsPlace (t : Tree RbBlock) (addr : ℕ) (p : Trail) : Type 0 where
  pub slot : IsSlot t p
  pub low : IsOrdered t → All (λ b. b.addr ≤ addr) (before t p)
  pub high : IsOrdered t → All (λ b. addr ≤ b.addr) (behind t p)

module _ (c : _) (l : Tree RbBlock) (b : RbBlock) (r : Tree RbBlock) (addr : ℕ) (p : Trail) where
  IsPlace-left : addr < b.addr → IsPlace l addr p → IsPlace (node c l b r) addr (left ∷ p)
  unfolding before behind
  IsPlace-left lt h = record {
    slot = h.slot;
    low = λ s. h.low (left-IsOrdered l b r s);
    high = λ s.
        All-append _ (behind l p) (b ∷ inorder r) (h.high (left-IsOrdered l b r s))
          (omega arith, All-map (λ x k. omega arith) (inorder r) (right_above l b r s));
  }

  IsPlace-right : b.addr ≤ addr → IsPlace r addr p → IsPlace (node c l b r) addr (right ∷ p)
  unfolding before behind
  IsPlace-right ge h = record {
    slot = h.slot;
    low = λ s.
        All-append _ (inorder l) (b ∷ before r p)
          (All-map (λ x k. omega arith) (inorder l) (left_below l b r s))
          (ge, h.low (right-IsOrdered l b r s));
    high = λ s. h.high (right-IsOrdered l b r s);
  }

-- The descent of an insertion ends at a free link, unless it aborts under the option for the first
-- error. In an ordered table the blocks in front of the link start no later than the address, and
-- those behind it no earlier.
pub block_place-IsPlace :
    (v : Env) (t : Tree RbBlock) (addr n : ℕ)
    → Ends (v.kill ≡ true) (IsPlace t addr) (block_place v t addr n)
unfolding block_place before behind
block_place-IsPlace v leaf addr n = record { slot = tt; low = λ s. tt; high = λ s. tt }
block_place-IsPlace v (node c l b r) addr n = elim (Bool-cases (starts_in addr n b && v.kill)) [
  | inl e ↦ rw (e, Ends) (ground arith)
  | inr e ↦ elim (Bool-cases (ltb addr b.addr)) [
    | inl lt ↦
        rw (e, lt, Ends)
          (Ends-bind _ (IsPlace l addr) (IsPlace (node c l b r) addr) (block_place v l addr n) _
            (block_place-IsPlace v l addr n) (λ p h. IsPlace-left c l b r addr p (ltb→lt _ _ lt) h))
    | inr ge ↦
        rw (e, ge, Ends)
          (Ends-bind _ (IsPlace r addr) (IsPlace (node c l b r) addr) (block_place v r addr n) _
            (block_place-IsPlace v r addr n) (λ p h. IsPlace-right c l b r addr p (ground arith) h))
  ]
]
