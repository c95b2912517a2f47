-- ===== src/Process/Books/Scan.antt =====
-- client/process.c: `process_scan` keeps the books sound, counts the leaks and marks the reported blocks.
use mtrace.Base.{
  length-drop, sym, subst, ℕ, zero, suc, ◌*◌, ◌/◌, ◌≤◌, ◌≡◌, refl, ◌∙◌, inl, inr, if◌then◌else◌,
  Bool, true, false, some, List, arith, length, drop, Bool-cases, Option-cases, Ends, Ends-bind,
  Ends-map,
}
use mtrace.Message.Wire.{Format, ptr_size, get_ulong}
use mtrace.Message.Codec.{get_ulong-some}
use mtrace.Process.State.{Process, Env}
use mtrace.Process.Blocks.{process_rb_search}
use mtrace.Process.Scan.{as_leaked, scan_address, scan_loop, process_scan}
use mtrace.Process.Search.{search-IsAt}
use mtrace.Process.Books.Leaks.{AreLeaks, IsMarked, put-IsMarked, found-IsMarked}
use mtrace.Process.Books.Mark.{mark_leaked-runs, leaked-Inv, marked-AreLeaks}
use mtrace.Process.Books.{one, Inv, Grown}
use mtrace.Process.Books.Same.{total_put, block-IsKnown}

-- The block that starts at an address is marked, if there is one.
abbrev pub IsReported : Process → ℕ → Type 0
IsReported p a = IsMarked (process_rb_search p.block_table a)

-- What a part of the scan does: it keeps the books, the count of the leaks and the marks that are set.
pub record Scanned (v : Env) (p q : Process) : Type 0 where
  pub grown : Grown v 0 p q
  pub same_format : q.format ≡ p.format
  pub counts : AreLeaks p → AreLeaks q
  pub keeps : (a : ℕ) → IsReported p a → IsReported q a

Scanned-nothing : (v : Env) (p : Process) → Inv v p → Scanned v p p
Scanned-nothing v p inv = record {
  grown = record { inv = inv; grows = omega arith };
  same_format = refl;
  counts = λ c. c;
  keeps = λ a h. h;
}

Scanned-then : (v : Env) (p q r : Process) → Scanned v p q → Scanned v q r → Scanned v p r
Scanned-then v p q r g h = record {
  grown = record { inv = h.grown.inv; grows = omega (arith, g.grown.grows, h.grown.grows) };
  same_format = h.same_format ∙ g.same_format;
  counts = λ c. h.counts (g.counts c);
  keeps = λ a k. h.keeps a (g.keeps a k);
}

scan_address-Scanned :
    (v : Env) (R : Type 0) (a : ℕ) (p : Process)
    → Inv v p
    → Ends R (λ r. Scanned v p r.1 × IsReported r.1 a) (scan_address a p)
unfolding scan_address
scan_address-Scanned v R a p inv = elim (Option-cases (process_rb_search p.block_table a)) [
  | inl unknown ↦ rw (unknown, Ends) (Scanned-nothing v p inv, rw (unknown) tt)
  | inr ((t, b), hit) ↦
      rw (hit, Ends)
        (elim (Bool-cases b.flags.leaked) [
          | inl old ↦ rw (old, Ends) (Scanned-nothing v p inv, rw (hit) old)
          | inr new ↦
              let at = (rw hit at (search-IsAt p.block_table a)).0 in
              let known = block-IsKnown v p t b inv at in
              rw (new, Ends)
                (rw (mark_leaked-runs t b p known.0 known.1) (
                  record {
                    grown = record {
                      inv = leaked-Inv v t b p known.0 inv at known.1;
                      grows = omega (arith, total_put v p t b (as_leaked b) inv at refl one refl);
                    };
                    same_format = refl;
                    counts = marked-AreLeaks v t b p known.0 at known.1 new;
                    keeps = λ a' h. put-IsMarked p.block_table t b a' at h;
                  },
                  found-IsMarked p.block_table a (t, b) hit,
                ))
        ])
]

-- The blocks at the `n` addresses of the report are marked.
abbrev pub AllReported : Format → ℕ → List ℕ → Process → Type 0
AllReported f zero leaks q = Unit
AllReported f (suc n) leaks q =
    ((a : ℕ) → get_ulong f leaks ≡ some a → IsReported q a)
    × AllReported f n (drop (ptr_size f) leaks) q

same_word : (a b : ℕ) → some a ≡ some b → a ≡ b
same_word a b e = cc

scan_loop-Scanned :
    (v : Env) (R : Type 0) (n : ℕ) (leaks : List ℕ) (p : Process)
    → Inv v p
    → n * ptr_size p.format ≤ length leaks
    → Ends R (λ r. Scanned v p r.1 × AllReported p.format n leaks r.1) (scan_loop n leaks p)
unfolding scan_loop
scan_loop-Scanned v R zero leaks p inv h = (Scanned-nothing v p inv, tt)
scan_loop-Scanned v R (suc n) leaks p inv h =
    let word = get_ulong-some p.format leaks (grind arith) in
    rw (word.1, Ends)
      (Ends-bind R (λ r. Scanned v p r.1 × IsReported r.1 word.0)
        (λ r. Scanned v p r.1 × AllReported p.format (suc n) leaks r.1) (scan_address word.0 p) _
        (scan_address-Scanned v R word.0 p inv)
        λ (is_new, q) g.
          Ends-bind R
            (λ r. Scanned v q r.1 × AllReported q.format n (drop (ptr_size p.format) leaks) r.1)
            (λ r. Scanned v p r.1 × AllReported p.format (suc n) leaks r.1) _ _
            (scan_loop-Scanned v R n (drop (ptr_size p.format) leaks) q g.0.grown.inv
              (rw (g.0.same_format, length-drop (ptr_size p.format) leaks) (grind arith)))
            λ (news, r) k. (
              Scanned-then v p q r g.0 k.0,
              (
                λ a e.
                    subst (IsReported r) (same_word word.0 a (sym word.1 ∙ e))
                      (k.0.keeps word.0 g.1),
                subst (λ f. AllReported f n (drop (ptr_size p.format) leaks) r) g.0.same_format k.1,
              ),
            ))

words_fit : (wide : Bool) (n : ℕ) → n / (if wide then 8 else 4) * (if wide then 8 else 4) ≤ n
words_fit true n = omega arith
words_fit false n = omega arith

abbrev pub words : Process → List ℕ → ℕ
words p leaks = length leaks / ptr_size p.format

scan-Scanned :
    (v : Env) (leaks : List ℕ) (p : Process)
    → Inv v p
    → Ends ⊥
        (λ r. Scanned v p r.1 × AllReported p.format (words p leaks) leaks r.1)
        (process_scan leaks p)
unfolding process_scan
scan-Scanned v leaks p inv =
    scan_loop-Scanned v ⊥ (words p leaks) leaks p inv (words_fit p.format.is_64bit (length leaks))

-- The answer to a leak scan is handled whatever its length, and the invariant holds again.
pub process_scan-Grown :
    (v : Env) (leaks : List ℕ) (p : Process)
    → Inv v p
    → Ends ⊥ (λ r. Grown v 0 p r.1) (process_scan leaks p)
process_scan-Grown v leaks p inv =
    Ends-map ⊥ _ (λ r. Grown v 0 p r.1) _ (scan-Scanned v leaks p inv) (λ r h. h.0.grown)

-- The answer to a leak scan is handled whatever its length. The block at each address that it lists is marked
-- as leaked afterwards, if there is one, and if the process and the call stacks counted the marked blocks and
-- their bytes before, modulo 2 ^ 64, they do so again.
pub process_scan-Marked :
    (v : Env) (leaks : List ℕ) (p : Process)
    → Inv v p
    → AreLeaks p
    → Ends ⊥
        (λ r. AreLeaks r.1 × AllReported p.format (words p leaks) leaks r.1)
        (process_scan leaks p)
process_scan-Marked v leaks p inv right =
    Ends-map ⊥ _ (λ r. AreLeaks r.1 × AllReported p.format (words p leaks) leaks r.1) _
      (scan-Scanned v leaks p inv) (λ r h. (h.0.counts right, h.1))
