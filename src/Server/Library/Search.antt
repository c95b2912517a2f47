-- ===== src/Server/Library/Search.antt =====
-- library.c: the search by address against a look through the list of libraries.
use mtrace.Base.{
  ℕ, ◌+◌, ◌≤◌, ◌<◌, ltb, ◌≡◌, refl, sym, ◌∙◌, inl, inr, true, false, Option, none, some, List, [],
  ◌∷◌, ◌++◌, arith, All, All-left, All-right, Bool-cases,
}
use mtrace.Base.Word.{w64}
use mtrace.Rbtree.{Tree, leaf, node, inorder}
use mtrace.Server.Library.{in_text, addr2libref}

module _ {A : Type 0} (vaddr size : A → ℕ) where
  -- The first library of a list that in_text an address.
  unfoldable pub holder : List A → ℕ → Option A
  holder [] x = none
  holder (a ∷ libs) x = elim (in_text vaddr size a x) [ true ↦ some a | false ↦ holder libs x ]

  -- The text of a library is not empty and ends below 2 ^ 64.
  abbrev pub IsText : A → Type 0
  IsText a = (0 < size a) × (vaddr a + size a < w64)

  abbrev pub Below : A → A → Type 0
  Below a b = vaddr b + size b ≤ vaddr a

  -- Libraries that do not overlap, the highest first.
  abbrev pub IsLayout : List A → Type 0
  IsLayout [] = Unit
  IsLayout (a ∷ libs) = IsText a × All (Below a) libs × IsLayout libs

  pub in_text-above : (a : A) (x : ℕ) → IsText a → x < vaddr a → in_text vaddr size a x ≡ false
  unfolding in_text
  in_text-above a x t h = ground arith

  pub in_text-below :
      (a : A) (x : ℕ) → IsText a → vaddr a + size a ≤ x → in_text vaddr size a x ≡ false
  unfolding in_text
  in_text-below a x t h = ground arith

  pub holder-hit :
      (a : A) (libs : List A) (x : ℕ) → in_text vaddr size a x ≡ true → holder (a ∷ libs) x ≡ some a
  unfolding holder
  holder-hit a libs x t = rw (t, holder) refl

  pub holder-miss :
      (a : A) (libs : List A) (x : ℕ)
      → in_text vaddr size a x ≡ false
      → holder (a ∷ libs) x ≡ holder libs x
  unfolding holder
  holder-miss a libs x t = rw (t, holder) refl

  abbrev pub Misses : ℕ → A → Type 0
  Misses x a = in_text vaddr size a x ≡ false

  pub holder-front :
      (xs ys : List A) (x : ℕ) → All (Misses x) xs → holder (xs ++ ys) x ≡ holder ys x
  holder-front [] ys x h = refl
  holder-front (a ∷ xs) ys x h = holder-miss a (xs ++ ys) x h.0 ∙ holder-front xs ys x h.1

  pub holder-none : (ys : List A) (x : ℕ) → All (Misses x) ys → holder ys x ≡ none
  unfolding holder
  holder-none [] x h = refl
  holder-none (a ∷ ys) x h = holder-miss a ys x h.0 ∙ holder-none ys x h.1

  pub holder-back : (xs ys : List A) (x : ℕ) → All (Misses x) ys → holder (xs ++ ys) x ≡ holder xs x
  holder-back [] ys x h = holder-none ys x h ∙ sym (holder-none [] x tt)
  holder-back (a ∷ xs) ys x h = elim (Bool-cases (in_text vaddr size a x)) [
    | inl t ↦ holder-hit a (xs ++ ys) x t ∙ sym (holder-hit a xs x t)
    | inr f ↦ holder-miss a (xs ++ ys) x f ∙ holder-back xs ys x h ∙ sym (holder-miss a xs x f)
  ]

  pub Texts : (libs : List A) → IsLayout libs → All IsText libs
  Texts [] h = tt
  Texts (a ∷ libs) h = (h.0, Texts libs h.2)

  -- A layout around one of its libraries.
  pub record IsAround (xs : List A) (a : A) (ys : List A) : Type 0 where
    pub front : IsLayout xs
    pub above : All (λ b. Below b a) xs
    pub texts : All IsText xs
    pub text : IsText a
    pub below : All (Below a) ys
    pub rest : All IsText ys
    pub back : IsLayout ys

  pub around : (xs : List A) (a : A) (ys : List A) → IsLayout (xs ++ a ∷ ys) → IsAround xs a ys
  around [] a ys h = record {
    front = tt;
    above = tt;
    texts = tt;
    text = h.0;
    below = h.1;
    rest = Texts ys h.2;
    back = h.2;
  }
  around (b ∷ xs) a ys h =
      let w = around xs a ys h.2 in
      record {
        front = (h.0, All-left _ xs (a ∷ ys) h.1, w.front);
        above = ((All-right (Below b) xs (a ∷ ys) h.1).0, w.above);
        texts = (h.0, w.texts);
        text = w.text;
        below = w.below;
        rest = w.rest;
        back = w.back;
      }

  -- Libraries above an address and libraries below it miss it.
  pub miss_above :
      (a : A) (x : ℕ) (libs : List A)
      → x < vaddr a + size a
      → All IsText libs
      → All (λ b. Below b a) libs
      → All (Misses x) libs
  miss_above a x [] lt ts h = tt
  miss_above a x (b ∷ libs) lt ts h =
      (in_text-above b x ts.0 (omega (arith, h.0)), miss_above a x libs lt ts.1 h.1)

  miss_below :
      (a : A) (x : ℕ) (libs : List A)
      → vaddr a ≤ x
      → All IsText libs
      → All (Below a) libs
      → All (Misses x) libs
  miss_below a x [] le ts h = tt
  miss_below a x (b ∷ libs) le ts h =
      (in_text-below b x ts.0 (omega (arith, h.0)), miss_below a x libs le ts.1 h.1)

  pub in_text-start : (a : A) (x : ℕ) → in_text vaddr size a x ≡ true → vaddr a ≤ x
  unfolding in_text
  in_text-start a x h = ground arith

  pub in_text-end :
      (a : A) (x : ℕ) → IsText a → in_text vaddr size a x ≡ true → x < vaddr a + size a
  unfolding in_text
  in_text-end a x t h = ground arith

  Misses-end : (a : A) (x : ℕ) → IsText a → Misses x a → x ≤ vaddr a → x < vaddr a + size a
  Misses-end a x t h le = omega (arith, t.0)

  -- The search by address in the tree finds what a look through the libraries in order finds, where the
  -- libraries do not overlap, none is empty, none reaches 2 ^ 64 and the highest comes first.
  pub addr2libref-holder :
      (t : Tree A) (x : ℕ)
      → IsLayout (inorder t)
      → addr2libref vaddr size t x ≡ holder (inorder t) x
  unfolding addr2libref holder
  addr2libref-holder leaf x h = refl
  addr2libref-holder (node c l a r) x h =
      let w = around (inorder l) a (inorder r) h in
      elim (Bool-cases (in_text vaddr size a x)) [
        | inl t ↦
            rw (t, addr2libref)
              (sym (
                holder-front (inorder l) (a ∷ inorder r) x
                  (miss_above a x (inorder l) (in_text-end a x w.text t) w.texts w.above)
                ∙ holder-hit a (inorder r) x t))
        | inr f ↦ elim (Bool-cases (ltb (vaddr a) x)) [
          | inl lt ↦
              rw (f, lt, addr2libref)
                (addr2libref-holder l x w.front
                  ∙ sym (
                      holder-back (inorder l) (a ∷ inorder r) x
                        (f, miss_below a x (inorder r) (ground arith) w.rest w.below)))
          | inr ge ↦
              rw (f, ge, addr2libref)
                (addr2libref-holder r x w.back
                  ∙ sym (
                      holder-front (inorder l) (a ∷ inorder r) x (
                        miss_above a x (inorder l) (Misses-end a x w.text f (ground arith)) w.texts
                          w.above)
                      ∙ holder-miss a (inorder r) x f))
        ]
      ]
