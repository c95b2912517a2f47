-- ===== src/Process/Report/Order.antt =====
-- client/process.c: the comparisons of the reports are orders by a list of counters.
use Prim.Native.Nat.{Ordering}
use mtrace.Base.{ℕ, ◌≡◌, refl, List, [], ◌∷◌, arith}
use mtrace.Process.State.{RbStack}
use mtrace.Process.Compare.{lex, lex_trans}
use mtrace.Process.Report.{
  descending, or_else, sort_tsc, _sort_badfree, _sort_mismatched, sort_badfree, sort_mismatched,
  sort_usage, average, sort_average, sort_leaks, sort_bytes_leaked, sort_allocations, sort_total,
  SortBy, tsc, badfree, mismatched, usage, average_usage, leaks, bytes_leaked, allocations,
  total_count, sortby,
}

-- The counters that an order compares, the first that differs decides.
pub keys : (ℕ → ℕ → ℕ) → SortBy → RbStack → List ℕ
keys ratio tsc s = s.tsc ∷ []
keys ratio badfree s = s.n_badfree ∷ s.n_mismatched ∷ []
keys ratio mismatched s = s.n_mismatched ∷ s.n_badfree ∷ []
keys ratio usage s = s.bytes_used ∷ s.tsc ∷ []
keys ratio average_usage s = average ratio s ∷ s.bytes_used ∷ s.tsc ∷ []
keys ratio leaks s = s.leaks ∷ s.bytes_used ∷ s.tsc ∷ []
keys ratio bytes_leaked s = s.bytes_leaked ∷ s.leaks ∷ s.bytes_used ∷ s.tsc ∷ []
keys ratio allocations s = s.n_allocations ∷ s.bytes_used ∷ s.tsc ∷ []
keys ratio total_count s = s.total_allocations ∷ s.n_allocations ∷ s.bytes_used ∷ s.tsc ∷ []

descending-lex :
    (a b : ℕ) (xs ys : List ℕ) (next : Ordering)
    → next ≡ lex ys xs
    → descending a b next ≡ lex (b ∷ ys) (a ∷ xs)
unfolding descending lex
descending-lex a b xs ys next e = ground (arith, e)

nothing_left : Ordering.eq ≡ lex [] []
unfolding lex
nothing_left = refl

module _ (p q : RbStack) where
  tsc-lex : sort_tsc p q ≡ lex (q.tsc ∷ []) (p.tsc ∷ [])
  unfolding sort_tsc
  tsc-lex = descending-lex p.tsc q.tsc [] [] Ordering.eq nothing_left

  usage-lex : sort_usage p q ≡ lex (q.bytes_used ∷ q.tsc ∷ []) (p.bytes_used ∷ p.tsc ∷ [])
  unfolding sort_usage
  usage-lex = descending-lex p.bytes_used q.bytes_used _ _ (sort_tsc p q) tsc-lex

  leaks-lex :
      sort_leaks p q
      ≡ lex (q.leaks ∷ q.bytes_used ∷ q.tsc ∷ []) (p.leaks ∷ p.bytes_used ∷ p.tsc ∷ [])
  unfolding sort_leaks
  leaks-lex = descending-lex p.leaks q.leaks _ _ (sort_usage p q) usage-lex

  allocations-lex :
      sort_allocations p q
      ≡ lex
          (q.n_allocations ∷ q.bytes_used ∷ q.tsc ∷ [])
          (p.n_allocations ∷ p.bytes_used ∷ p.tsc ∷ [])
  unfolding sort_allocations
  allocations-lex = descending-lex p.n_allocations q.n_allocations _ _ (sort_usage p q) usage-lex

or_else-lex :
    (a b c d : ℕ)
    → or_else (descending a b Ordering.eq) (descending c d Ordering.eq)
      ≡ lex (b ∷ d ∷ []) (a ∷ c ∷ [])
unfolding descending lex
or_else-lex a b c d = ground arith

-- Each comparison of the reports is the order by its list of counters, the larger ones first.
pub sortby-lex :
    (ratio : ℕ → ℕ → ℕ) (by_what : SortBy) (p q : RbStack)
    → sortby ratio by_what p q ≡ lex (keys ratio by_what q) (keys ratio by_what p)
unfolding sortby keys sort_badfree sort_mismatched _sort_badfree _sort_mismatched sort_average
    sort_bytes_leaked sort_total
sortby-lex ratio tsc p q = tsc-lex p q
sortby-lex ratio badfree p q = or_else-lex p.n_badfree q.n_badfree p.n_mismatched q.n_mismatched
sortby-lex ratio mismatched p q = or_else-lex p.n_mismatched q.n_mismatched p.n_badfree q.n_badfree
sortby-lex ratio usage p q = usage-lex p q
sortby-lex ratio average_usage p q =
    descending-lex (average ratio p) (average ratio q) _ _ (sort_usage p q) (usage-lex p q)
sortby-lex ratio leaks p q = leaks-lex p q
sortby-lex ratio bytes_leaked p q =
    descending-lex p.bytes_leaked q.bytes_leaked _ _ (sort_leaks p q) (leaks-lex p q)
sortby-lex ratio allocations p q = allocations-lex p q
sortby-lex ratio total_count p q =
    descending-lex p.total_allocations q.total_allocations _ _ (sort_allocations p q)
      (allocations-lex p q)

-- What stands first in one of these orders is transitive, as `qsort` needs.
pub sortby_trans :
    (ratio : ℕ → ℕ → ℕ) (by_what : SortBy) (p q r : RbStack)
    → sortby ratio by_what p q ≡ Ordering.lt
    → sortby ratio by_what q r ≡ Ordering.lt
    → sortby ratio by_what p r ≡ Ordering.lt
sortby_trans ratio by_what p q r a b =
    let k = keys ratio by_what in
    rw (sortby-lex ratio by_what p r) (
      lex_trans (k r) (k q) (k p) (rw (sortby-lex ratio by_what q r) at b)
        (rw (sortby-lex ratio by_what p q) at a))
