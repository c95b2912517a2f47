-- ===== src/Dict/Tests.antt =====
-- dict.c: runs of the hash table.
use mtrace.Base.{
  ℕ, ◌≡◌, refl, ◌==◌, if◌then◌else◌, Bool, true, false, some, none, Outcome, ok, arith, ◌>>=◌,
}
use mtrace.Dict.{
  Dict, dict_init, bucket_of, find_in, dict_find_in, dict_add, dict_find_entry, dict_remove_entry,
}
use mtrace.Dict.Lookup.{Lawful, Added, is_absent, dict_add-Added}

abbrev compare_keys : ℕ → ℕ → ℕ
compare_keys k l = if k == l then 0 else 1

abbrev empty : Dict ℕ
empty = dict_init 4 (λ k. k) compare_keys

empty-Lawful : Lawful empty
unfolding dict_init
empty-Lawful = record {
  nonempty = λ e. omega arith;
  same = λ k. ground arith;
  flip = λ k l e. ground arith;
  trans = λ k l m e f. ground arith;
  hash = λ k l e. ground arith;
}

unserved : true ≡ false → is_absent (dict_find_entry empty 9) ≡ false
unserved e = cc

abbrev after : Outcome (Bool × Dict ℕ) → Dict ℕ
after (ok r) = r.1
after _ = empty

abbrev one : Dict ℕ
one = after (dict_add true empty 9 70)

dict_add-Added_example : Added empty 9 70 (true, one)
unfolding dict_init dict_add bucket_of find_in dict_find_in
dict_add-Added_example = dict_add-Added true empty empty-Lawful 9 70 unserved

collision : (dict_add true one 5 80 >>= λ r. dict_find_entry r.1 9) ≡ ok (some 70)
unfolding dict_init dict_add bucket_of find_in dict_find_in dict_find_entry
collision = refl

removed : (dict_remove_entry one 9 >>= λ r. dict_find_entry r.1 9) ≡ ok none
unfolding dict_init dict_add bucket_of find_in dict_find_in dict_find_entry dict_remove_entry
removed = refl
