-- ===== src/Process/Report.antt =====
-- client/process.c: the orders in which the reports list the call stacks, and what they skip.
pub mod Order
use Prim.Native.Nat.{Ordering}
use mtrace.Base.{ℕ, ◌==◌, ltb, if◌then◌else◌, Bool, true, false}
use mtrace.Process.State.{RbStack}

-- The larger value stands first; where they are equal, the next comparison decides.
unfoldable pub descending : ℕ → ℕ → Ordering → Ordering
descending p q next = if ltb q p then Ordering.lt else if ltb p q then Ordering.gt else next

abbrev pub or_else : Ordering → Ordering → Ordering
or_else Ordering.lt next = Ordering.lt
or_else Ordering.eq next = next
or_else Ordering.gt next = Ordering.gt

unfoldable pub sort_tsc : RbStack → RbStack → Ordering
sort_tsc p q = descending p.tsc q.tsc Ordering.eq

unfoldable pub _sort_badfree : RbStack → RbStack → Ordering
_sort_badfree p q = descending p.n_badfree q.n_badfree Ordering.eq

unfoldable pub _sort_mismatched : RbStack → RbStack → Ordering
_sort_mismatched p q = descending p.n_mismatched q.n_mismatched Ordering.eq

unfoldable pub sort_badfree : RbStack → RbStack → Ordering
sort_badfree p q = or_else (_sort_badfree p q) (_sort_mismatched p q)

unfoldable pub sort_mismatched : RbStack → RbStack → Ordering
sort_mismatched p q = or_else (_sort_mismatched p q) (_sort_badfree p q)

unfoldable pub sort_usage : RbStack → RbStack → Ordering
sort_usage p q = descending p.bytes_used q.bytes_used (sort_tsc p q)

-- `ratio` is the division of two integers as `double`; it is known by the place of its result in the
-- order of the non-negative doubles, where 0.0 has the place 0.
module _ (ratio : ℕ → ℕ → ℕ) where
  unfoldable pub average : RbStack → ℕ
  average s = if s.n_allocations == 0 then 0 else ratio s.bytes_used s.n_allocations

  unfoldable pub sort_average : RbStack → RbStack → Ordering
  sort_average p q = descending (average p) (average q) (sort_usage p q)

unfoldable pub sort_leaks : RbStack → RbStack → Ordering
sort_leaks p q = descending p.leaks q.leaks (sort_usage p q)

unfoldable pub sort_bytes_leaked : RbStack → RbStack → Ordering
sort_bytes_leaked p q = descending p.bytes_leaked q.bytes_leaked (sort_leaks p q)

unfoldable pub sort_allocations : RbStack → RbStack → Ordering
sort_allocations p q = descending p.n_allocations q.n_allocations (sort_usage p q)

unfoldable pub sort_total : RbStack → RbStack → Ordering
sort_total p q = descending p.total_allocations q.total_allocations (sort_allocations p q)

-- The comparisons that `process_dump` is called with.
pub data SortBy : Type 0 where
  tsc badfree mismatched usage average_usage leaks bytes_leaked allocations total_count : SortBy

unfoldable pub sortby : (ℕ → ℕ → ℕ) → SortBy → RbStack → RbStack → Ordering
sortby ratio tsc = sort_tsc
sortby ratio badfree = sort_badfree
sortby ratio mismatched = sort_mismatched
sortby ratio usage = sort_usage
sortby ratio average_usage = sort_average ratio
sortby ratio leaks = sort_leaks
sortby ratio bytes_leaked = sort_bytes_leaked
sortby ratio allocations = sort_allocations
sortby ratio total_count = sort_total

unfoldable pub skip_none : RbStack → Bool
skip_none s = false

unfoldable pub skip_zero_allocations : RbStack → Bool
skip_zero_allocations s = s.n_allocations == 0

unfoldable pub skip_zero_leaks : RbStack → Bool
skip_zero_leaks s = s.leaks == 0
