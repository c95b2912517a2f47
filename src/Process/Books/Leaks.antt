-- ===== src/Process/Books/Leaks.antt =====
-- client/process.c: the counters of leaks, and the mark that a leak scan leaves on a block.
use mtrace.Base.{
  ℕ, ◌%◌, ◌≡◌, refl, ◌==◌, ltb, inl, inr, sym, ap, subst, if◌then◌else◌, true, Option, none, some,
  [], ◌∷◌, total, Bool-cases,
}
use mtrace.Base.Word.{w64}
use mtrace.Rbtree.{Tree, leaf, node, Dir, left, right, Trail, get, put}
use mtrace.Process.State.{RbBlock, RbStack, Process}
use mtrace.Process.Blocks.{Hit, under, process_rb_search}
use mtrace.Process.Scan.{as_leaked}
use mtrace.Process.Books.{blocks}

abbrev pub leak_of : RbBlock → ℕ
leak_of b = if b.flags.leaked then 1 else 0

abbrev pub leaked_size : RbBlock → ℕ
leaked_size b = if b.flags.leaked then b.size else 0

abbrev pub if_on : ℕ → (RbBlock → ℕ) → RbBlock → ℕ
if_on i f b = if b.stack_node == i then f b else 0

-- The process and each call stack count the blocks that are marked as leaked, and their bytes.
pub record AreLeaks (p : Process) : Type 0 where
  pub leaks : p.leaks ≡ total leak_of (blocks p) % w64
  pub leaked_bytes : p.leaked_bytes ≡ total leaked_size (blocks p) % w64
  pub stack_leaks :
      (i : ℕ) (s : RbStack)
      → p.rb_stacks i ≡ some s
      → s.leaks ≡ total (if_on i leak_of) (blocks p) % w64
  pub stack_bytes :
      (i : ℕ) (s : RbStack)
      → p.rb_stacks i ≡ some s
      → s.bytes_leaked ≡ total (if_on i leaked_size) (blocks p) % w64

-- A block that the search found is marked.
abbrev pub IsMarked : Option Hit → Type 0
IsMarked none = Unit
IsMarked (some (t, b)) = b.flags.leaked ≡ true

under-IsMarked : (d : Dir) (o : Option Hit) → IsMarked o → IsMarked (under d o)
under-IsMarked d none h = h
under-IsMarked d (some (t, b)) h = h

IsMarked-under : (d : Dir) (o : Option Hit) → IsMarked (under d o) → IsMarked o
IsMarked-under d none h = h
IsMarked-under d (some (t, b)) h = h

some_block : (x b : RbBlock) → some x ≡ some b → x ≡ b
some_block x b e = cc

-- A mark stays when another block, or the same, is marked.
pub put-IsMarked :
    (t : Tree RbBlock) (tr : Trail) (b : RbBlock) (a : ℕ)
    → get t tr ≡ some b
    → IsMarked (process_rb_search t a)
    → IsMarked (process_rb_search (put t tr (as_leaked b)) a)
unfolding get put process_rb_search
put-IsMarked leaf tr b a at h = tt
put-IsMarked (node c l x r) [] b a at h =
    subst (λ (y : RbBlock). IsMarked (process_rb_search (node c l (as_leaked y) r) a))
      (some_block x b at) root
  where
    root : IsMarked (process_rb_search (node c l (as_leaked x) r) a)
    root = elim (Bool-cases (a == x.addr)) [
      | inl e ↦ rw (e, process_rb_search, IsMarked) refl
      | inr f ↦ elim (Bool-cases (ltb a x.addr)) [
        | inl lt ↦ rw (f, lt, process_rb_search) (rw (f, lt, process_rb_search) at h)
        | inr ge ↦ rw (f, ge, process_rb_search) (rw (f, ge, process_rb_search) at h)
      ]
    ]
put-IsMarked (node c l x r) (left ∷ tr) b a at h = elim (Bool-cases (a == x.addr)) [
  | inl e ↦ rw (e, process_rb_search) (rw (e, process_rb_search) at h)
  | inr f ↦ elim (Bool-cases (ltb a x.addr)) [
    | inl lt ↦
        rw (f, lt, process_rb_search)
          (under-IsMarked left _
            (put-IsMarked l tr b a at (IsMarked-under left _ (rw (f, lt, process_rb_search) at h))))
    | inr ge ↦ rw (f, ge, process_rb_search) (rw (f, ge, process_rb_search) at h)
  ]
]
put-IsMarked (node c l x r) (right ∷ tr) b a at h = elim (Bool-cases (a == x.addr)) [
  | inl e ↦ rw (e, process_rb_search) (rw (e, process_rb_search) at h)
  | inr f ↦ elim (Bool-cases (ltb a x.addr)) [
    | inl lt ↦ rw (f, lt, process_rb_search) (rw (f, lt, process_rb_search) at h)
    | inr ge ↦
        rw (f, ge, process_rb_search)
          (under-IsMarked right _ (
            put-IsMarked r tr b a at (IsMarked-under right _ (rw (f, ge, process_rb_search) at h))))
  ]
]

same_hit : (h k : Hit) → some h ≡ some k → h ≡ k
same_hit h k e = cc

under-some :
    (d : Dir) (o : Option Hit) (k : Hit)
    → under d o ≡ some k
    → (tr : Trail) × (k.0 ≡ d ∷ tr) × (o ≡ some (tr, k.1))
under-some d none k e = absurd (no_hit e)
  where
    no_hit : none ≡ some k → ⊥
    no_hit e = cc
under-some d (some (tr, b)) k e =
    let same = same_hit (d ∷ tr, b) k e in
    (
      tr,
      sym (ap (λ (h : Hit). h.0) same),
      ap (λ (y : RbBlock). some (tr, y)) (ap (λ (h : Hit). h.1) same),
    )

-- The block that the search found is marked.
pub found-IsMarked :
    (t : Tree RbBlock) (a : ℕ) (k : Hit)
    → process_rb_search t a ≡ some k
    → IsMarked (process_rb_search (put t k.0 (as_leaked k.1)) a)
unfolding put process_rb_search
found-IsMarked leaf a k e = tt
found-IsMarked (node c l x r) a k e = elim (Bool-cases (a == x.addr)) [
  | inl h ↦
      subst (λ (q : Hit). IsMarked (process_rb_search (put (node c l x r) q.0 (as_leaked q.1)) a))
        (same_hit ([], x) k (rw (h, process_rb_search) at e))
        (rw (h, process_rb_search, IsMarked) refl)
  | inr f ↦ elim (Bool-cases (ltb a x.addr)) [
    | inl lt ↦
        let u = under-some left (process_rb_search l a) k (rw (f, lt, process_rb_search) at e) in
        subst (λ tr. IsMarked (process_rb_search (put (node c l x r) tr (as_leaked k.1)) a))
          (sym u.1)
          (rw (f, lt, process_rb_search)
            (under-IsMarked left _ (found-IsMarked l a (u.0, k.1) u.2)))
    | inr ge ↦
        let u = under-some right (process_rb_search r a) k (rw (f, ge, process_rb_search) at e) in
        subst (λ tr. IsMarked (process_rb_search (put (node c l x r) tr (as_leaked k.1)) a))
          (sym u.1)
          (rw (f, ge, process_rb_search)
            (under-IsMarked right _ (found-IsMarked r a (u.0, k.1) u.2)))
  ]
]
