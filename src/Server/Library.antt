-- ===== src/Server/Library.antt =====
-- library.c: the libraries of a process, in a list and in a tree by address.
pub mod Search
pub mod Insert
pub mod Clone
use mtrace.Base.{
  ℕ, ◌+◌, ◌==◌, ltb, leb, if◌then◌else◌, Bool, true, false, ◌&&◌, Option, none, some, List, [], ◌∷◌,
  ◌++◌, Outcome, ok, aborted, fault, ◌>>=◌,
}
use mtrace.Base.Word.{w64, add64}
use mtrace.Rbtree.{Tree, leaf, node, Dir, left, right, Trail, rb_link_node, Rebalance}

pub record LibrarySymbol : Type 0 where
  pub addr : ℕ
  pub func : ℕ

-- A `struct libref`, without the fields that the ELF reader and the unwinder alone use.
pub record Libref : Type 0 where
  pub dyn : ℕ
  pub filename : List ℕ
  pub txt_vaddr : ℕ
  pub txt_size : ℕ
  pub refcnt : ℕ
  pub sym_list : List LibrarySymbol

unfoldable pub libref_get : Libref → Libref
libref_get r = record r { refcnt = r.refcnt + 1 }

unfoldable pub library_symbol_new : Libref → ℕ → ℕ → Libref
library_symbol_new r addr func = record r {
  sym_list = r.sym_list ++ record { addr = addr; func = func } ∷ [];
}

unfoldable pub symbol_at : List LibrarySymbol → ℕ → Option LibrarySymbol
symbol_at [] a = none
symbol_at (s ∷ syms) a = elim (s.addr == a) [ true ↦ some s | false ↦ symbol_at syms a ]

unfoldable pub library_find_symbol : Libref → ℕ → Option LibrarySymbol
library_find_symbol r a = symbol_at r.sym_list a

-- The libraries of a leader. A `struct library` stands for its `libref`, which is a pointer.
pub record Libraries (A : Type 0) : Type 0 where
  pub libraries_list : List A
  pub libraries_tree : Tree A

abbrev pub library_setup : {A : Type 0} → Libraries A
library_setup = record { libraries_list = []; libraries_tree = leaf }

unfoldable pub library_execname : {A : Type 0} → Libraries A → Option A
library_execname s = elim s.libraries_list [ [] ↦ none | a ∷ libs ↦ some a ]

-- The functions read fields behind the pointers.
module _ {A : Type 0} (dyn : A → ℕ) where
  unfoldable pub library_find_by_dyn : List A → ℕ → Option A
  library_find_by_dyn [] d = none
  library_find_by_dyn (a ∷ libs) d = elim (dyn a == d) [
    | true ↦ some a
    | false ↦ library_find_by_dyn libs d
  ]

module _ {A : Type 0} (txt_vaddr txt_size : A → ℕ) where
  -- Whether the text of a library in_text an address.
  unfoldable pub in_text : A → ℕ → Bool
  in_text a x = leb (txt_vaddr a) x && ltb x (add64 (txt_vaddr a) (txt_size a))

  -- The tree descends: libraries at higher addresses are on the left.
  unfoldable pub addr2libref : Tree A → ℕ → Option A
  addr2libref leaf x = none
  addr2libref (node c l a r) x = elim (in_text a x) [
    | true ↦ some a
    | false ↦ elim (ltb (txt_vaddr a) x) [ true ↦ addr2libref l x | false ↦ addr2libref r x ]
  ]

  unfoldable pub lib_place : Tree A → A → Trail
  lib_place leaf b = []
  lib_place (node c l a r) b = elim (ltb (txt_vaddr a) (txt_vaddr b)) [
    | true ↦ left ∷ lib_place l b
    | false ↦ right ∷ lib_place r b
  ]

  module _ (ops : Rebalance A) where
    unfoldable pub insert_lib : Tree A → A → Tree A
    insert_lib t a = let p = lib_place t a in ops.rb_insert_color (rb_link_node t p a) p

    -- `_library_add`; the reference count is `libref_get`.
    unfoldable pub add_library : Libraries A → A → Libraries A
    add_library s a = record {
      libraries_list = s.libraries_list ++ a ∷ [];
      libraries_tree = insert_lib s.libraries_tree a;
    }

    unfoldable pub library_clone_all : Libraries A → List A → Libraries A
    library_clone_all s [] = s
    library_clone_all s (a ∷ libs) = library_clone_all (add_library s a) libs
