-- ===== src/Server/Library/Insert.antt =====
-- library.c: a library that is added to those of a process.
use mtrace.Base.{
  ℕ, ◌≤◌, ◌<◌, ltb, ◌≡◌, sym, subst, ap, ◌∙◌, ◌⊎◌, inl, inr, true, List, [], ◌∷◌, ◌++◌, arith, All,
  All-append, All-left, All-right, All-map, All-insert, Bool-cases,
}
use mtrace.Rbtree.{Tree, leaf, node, inorder, Trail, IsSlot, before, behind, Rebalance}
use mtrace.Rbtree.Paths.{inorder-slot}
use mtrace.Server.Library.{in_text, lib_place, Libraries, insert_lib, add_library}
use mtrace.Server.Library.Search.{
  holder, IsText, Below, IsLayout, Misses, holder-front, holder-back, holder-hit, holder-miss,
  in_text-above, in_text-below, in_text-start, in_text-end, around, Texts, miss_above,
}

module _ {A : Type 0} (vaddr size : A → ℕ) where
  abbrev pub Apart : A → A → Type 0
  Apart a b = Below vaddr size a b ⊎ Below vaddr size b a

  -- The link for a library: those in front are above it, those behind are below it.
  record IsGap (t : Tree A) (a : A) (p : Trail) : Type 0 where
    slot : IsSlot t p
    above : All (λ b. Below vaddr size b a) (before t p)
    below : All (Below vaddr size a) (behind t p)

  under : (a b : A) → IsText vaddr size a → vaddr b < vaddr a → Apart a b → Below vaddr size a b
  under a b t lt (inl h) = h
  under a b t lt (inr h) = omega arith

  over : (a b : A) → IsText vaddr size b → vaddr a ≤ vaddr b → Apart a b → Below vaddr size b a
  over a b t le (inl h) = omega (arith, t.0)
  over a b t le (inr h) = h

  lib_place-IsGap :
      (t : Tree A) (a : A)
      → IsText vaddr size a
      → IsLayout vaddr size (inorder t)
      → All (Apart a) (inorder t)
      → IsGap t a (lib_place vaddr size t a)
  unfolding lib_place before behind
  lib_place-IsGap leaf a t h k = record { slot = tt; above = tt; below = tt }
  lib_place-IsGap (node c l b r) a t h k =
      let w = around vaddr size (inorder l) b (inorder r) h in
      let apart = All-right (Apart a) (inorder l) (b ∷ inorder r) k in
      elim (Bool-cases (ltb (vaddr b) (vaddr a))) [
        | inl lt ↦
            let q = lib_place-IsGap l a t w.front (All-left (Apart a) (inorder l) _ k) in
            let u = under a b t (ground arith) apart.0 in
            rw (lt, lib_place)
              (record {
                slot = q.slot;
                above = q.above;
                below =
                    All-append _ (behind l (lib_place vaddr size l a)) (b ∷ inorder r) q.below
                      (u, All-map (λ d e. omega arith) (inorder r) w.below);
              })
        | inr ge ↦
            let q = lib_place-IsGap r a t w.back apart.1 in
            let u = over a b w.text (ground arith) apart.0 in
            rw (ge, lib_place)
              (record {
                slot = q.slot;
                above =
                    All-append _ (inorder l) (b ∷ before r (lib_place vaddr size r a))
                      (All-map (λ d e. omega arith) (inorder l) w.above) (u, q.above);
                below = q.below;
              })
      ]

  IsLayout-insert :
      (xs : List A) (a : A) (ys : List A)
      → IsLayout vaddr size (xs ++ ys)
      → IsText vaddr size a
      → All (λ b. Below vaddr size b a) xs
      → All (Below vaddr size a) ys
      → IsLayout vaddr size (xs ++ a ∷ ys)
  IsLayout-insert [] a ys h t up down = (t, down, h)
  IsLayout-insert (b ∷ xs) a ys h t up down = (
    h.0,
    All-insert (Below vaddr size b) xs a ys up.0 h.1,
    IsLayout-insert xs a ys h.2 t up.1 down,
  )

  -- Libraries that do not overlap, in any order.
  abbrev pub IsSpread : List A → Type 0
  IsSpread [] = Unit
  IsSpread (a ∷ libs) = IsText vaddr size a × All (Apart a) libs × IsSpread libs

  pub swap-Apart : (a b : A) → Apart a b → Apart b a
  swap-Apart a b (inl h) = inr h
  swap-Apart a b (inr h) = inl h

  IsSpread-add :
      (libs : List A) (a : A)
      → IsSpread libs
      → IsText vaddr size a
      → All (Apart a) libs
      → IsSpread (libs ++ a ∷ [])
  IsSpread-add [] a h t k = (t, tt, tt)
  IsSpread-add (b ∷ libs) a h t k = (
    h.0,
    All-append (Apart b) libs (a ∷ []) h.1 (swap-Apart a b k.0, tt),
    IsSpread-add libs a h.2 t k.1,
  )

  pub spread_texts : (libs : List A) → IsSpread libs → All (IsText vaddr size) libs
  spread_texts [] h = tt
  spread_texts (a ∷ libs) h = (h.0, spread_texts libs h.2)

  miss-Apart :
      (a : A) (x : ℕ) (libs : List A)
      → IsText vaddr size a
      → in_text vaddr size a x ≡ true
      → All (Apart a) libs
      → All (IsText vaddr size) libs
      → All (Misses vaddr size x) libs
  miss-Apart a x [] t h k ts = tt
  miss-Apart a x (b ∷ libs) t h k ts = (missed k.0, miss-Apart a x libs t h k.1 ts.1)
    where
      missed : Apart a b → Misses vaddr size x b
      missed (inl q) =
          in_text-below vaddr size b x ts.0 (omega (arith, q, in_text-start vaddr size a x h))
      missed (inr q) =
          in_text-above vaddr size b x ts.0 (omega (arith, q, in_text-end vaddr size a x t h))

  -- The list and the tree of a process hold the same libraries: the tree has every property that all in
  -- the list have, and both answer for an address alike.
  pub record IsLibraries (ops : Rebalance A) (s : Libraries A) : Type 1 where
    pub balanced : ops.IsBalanced s.libraries_tree
    pub spread : IsSpread s.libraries_list
    pub layout : IsLayout vaddr size (inorder s.libraries_tree)
    pub every : (P : A → Type 0) → All P s.libraries_list → All P (inorder s.libraries_tree)
    pub same :
        (x : ℕ)
        → holder vaddr size (inorder s.libraries_tree) x ≡ holder vaddr size s.libraries_list x

  holder-middle :
      (xs : List A) (a : A) (ys : List A) (x : ℕ)
      → Misses vaddr size x a
      → holder vaddr size (xs ++ a ∷ ys) x ≡ holder vaddr size (xs ++ ys) x
  holder-middle [] a ys x f = holder-miss vaddr size a ys x f
  holder-middle (b ∷ xs) a ys x f = elim (Bool-cases (in_text vaddr size b x)) [
    | inl t ↦
        holder-hit vaddr size b (xs ++ a ∷ ys) x t ∙ sym (holder-hit vaddr size b (xs ++ ys) x t)
    | inr g ↦
        holder-miss vaddr size b (xs ++ a ∷ ys) x g
        ∙ holder-middle xs a ys x f
        ∙ sym (holder-miss vaddr size b (xs ++ ys) x g)
  ]

  module _ (ops : Rebalance A) (s : Libraries A) (inv : IsLibraries ops s) (a : A)
      (t : IsText vaddr size a) (k : All (Apart a) s.libraries_list) where
    -- Where the two sides answer for an address once the library is in both.
    answer_alike :
        (xs ys : List A) (x : ℕ)
        → inorder s.libraries_tree ≡ xs ++ ys
        → All (λ b. Below vaddr size b a) xs
        → All (IsText vaddr size) xs
        → holder vaddr size (xs ++ a ∷ ys) x ≡ holder vaddr size (s.libraries_list ++ a ∷ []) x
    answer_alike xs ys x q up ts = elim (Bool-cases (in_text vaddr size a x)) [
      | inl h ↦
          holder-front vaddr size xs (a ∷ ys) x
            (miss_above vaddr size a x xs (in_text-end vaddr size a x t h) ts up)
          ∙ holder-hit vaddr size a ys x h
          ∙ sym (
              holder-front vaddr size s.libraries_list (a ∷ []) x
                (miss-Apart a x s.libraries_list t h k (spread_texts s.libraries_list inv.spread))
              ∙ holder-hit vaddr size a [] x h)
      | inr f ↦
          holder-middle xs a ys x f
          ∙ ap (λ l. holder vaddr size l x) (sym q)
          ∙ inv.same x
          ∙ sym (holder-back vaddr size s.libraries_list (a ∷ []) x (f, tt))
    ]

    -- A library whose text overlaps none of a process is added: the list and the tree hold the same
    -- libraries again, the tree in the order of their addresses.
    pub add_library-IsLibraries : IsLibraries ops (add_library vaddr size ops s a)
    unfolding add_library insert_lib
    add_library-IsLibraries =
        let tree = s.libraries_tree in
        let p = lib_place vaddr size tree a in
        let gap = lib_place-IsGap tree a t inv.layout (inv.every (Apart a) k) in
        let was = inorder-slot tree p gap.slot in
        let now = ops.insert-inorder tree p a inv.balanced gap.slot in
        let texts =
          subst (All (IsText vaddr size)) was (Texts vaddr size (inorder tree) inv.layout) in
        record {
          balanced = ops.insert-IsBalanced tree p a inv.balanced gap.slot;
          spread = IsSpread-add s.libraries_list a inv.spread t k;
          layout = subst (IsLayout vaddr size) (sym now) (
              IsLayout-insert (before tree p) a (behind tree p)
                (subst (IsLayout vaddr size) was inv.layout) t gap.above gap.below);
          every = λ P all. subst (All P) (sym now) (
              All-insert P (before tree p) a (behind tree p)
                (All-right P s.libraries_list (a ∷ []) all).0
                (subst (All P) was (inv.every P (All-left P s.libraries_list (a ∷ []) all))));
          same = λ x.
              ap (λ l. holder vaddr size l x) now
              ∙ answer_alike (before tree p) (behind tree p) x was gap.above
                  (All-left (IsText vaddr size) (before tree p) (behind tree p) texts);
        }
