-- ===== src/Server/Library/Clone.antt =====
-- library.c: the libraries of a forked process.
use mtrace.Base.{ℕ, ◌≡◌, refl, sym, subst, ap, ◌∙◌, List, [], ◌∷◌, ◌++◌, All, All-right}
use mathlib.Core.List.{append-nil, append_assoc}
use mtrace.Rbtree.{Rebalance}
use mtrace.Server.Library.{addr2libref, Libraries, library_setup, add_library, library_clone_all}
use mtrace.Server.Library.Search.{holder, IsText, addr2libref-holder}
use mtrace.Server.Library.Insert.{Apart, swap-Apart, IsSpread, IsLibraries, add_library-IsLibraries}

module _ {A : Type 0} (vaddr size : A → ℕ) where
  -- A library in a spread list is apart from those in front of it.
  Apart-front :
      (xs : List A) (a : A) (ys : List A)
      → IsSpread vaddr size (xs ++ a ∷ ys)
      → All (Apart vaddr size a) xs × IsText vaddr size a
  Apart-front [] a ys h = (tt, h.0)
  Apart-front (b ∷ xs) a ys h =
      let q = Apart-front xs a ys h.2 in
      ((swap-Apart vaddr size b a (All-right (Apart vaddr size b) xs (a ∷ ys) h.1).0, q.0), q.1)

  module _ (ops : Rebalance A) where
    pub setup-IsLibraries : IsLibraries vaddr size ops library_setup
    unfolding holder
    setup-IsLibraries = record {
      balanced = ops.leaf-IsBalanced;
      spread = tt;
      layout = tt;
      every = λ P all. tt;
      same = λ x. refl;
    }

    pub library_clone_all-IsLibraries :
        (libs : List A) (s : Libraries A)
        → IsLibraries vaddr size ops s
        → IsSpread vaddr size (s.libraries_list ++ libs)
        → IsLibraries vaddr size ops (library_clone_all vaddr size ops s libs)
          × ((library_clone_all vaddr size ops s libs).libraries_list ≡ s.libraries_list ++ libs)
    unfolding library_clone_all add_library
    library_clone_all-IsLibraries [] s inv h = (inv, sym (append-nil s.libraries_list))
    library_clone_all-IsLibraries (a ∷ libs) s inv h =
        let q = Apart-front s.libraries_list a libs h in
        let e = append_assoc s.libraries_list (a ∷ []) libs in
        let r =
          library_clone_all-IsLibraries libs (add_library vaddr size ops s a)
            (add_library-IsLibraries vaddr size ops s inv a q.1 q.0)
            (subst (IsSpread vaddr size) (sym e) h) in
        (r.0, r.1 ∙ e)

    -- A process that is forked off finds for every address the library that its parent finds.
    pub library_clone_all-same :
        (s : Libraries A) (x : ℕ)
        → IsLibraries vaddr size ops s
        → addr2libref vaddr size
            (library_clone_all vaddr size ops library_setup s.libraries_list).libraries_tree
            x
          ≡ addr2libref vaddr size s.libraries_tree x
    library_clone_all-same s x inv =
        let r =
          library_clone_all-IsLibraries s.libraries_list library_setup setup-IsLibraries
            inv.spread in
        addr2libref-holder vaddr size _ x r.0.layout
        ∙ r.0.same x
        ∙ ap (λ l. holder vaddr size l x) r.1
        ∙ sym (addr2libref-holder vaddr size s.libraries_tree x inv.layout ∙ inv.same x)
