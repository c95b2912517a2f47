-- ===== src/Client/Pids.antt =====
-- client/client.c: the table of the traced processes by pid, and the first pid.
pub mod Lookup
use mtrace.Base.{ℕ, ◌==◌, ltb, if◌then◌else◌, Bool, true, false, Option, none, some, [], ◌∷◌}
use mtrace.Rbtree.{Tree, leaf, node, Dir, left, right, Trail, Rebalance, rb_link_node}

-- The table holds pointers to processes; `pid` reads the field of one.
module _ {A : Type 0} (pid : A → ℕ) where
  abbrev pub deeper : Dir → Option (Trail × A) → Option (Trail × A)
  deeper d none = none
  deeper d (some (t, a)) = some (d ∷ t, a)

  unfoldable pub pid_rb_search : Tree A → ℕ → Option (Trail × A)
  pid_rb_search leaf k = none
  pid_rb_search (node c l a r) k = elim (ltb k (pid a)) [
    | true ↦ deeper left (pid_rb_search l k)
    | false ↦ elim (ltb (pid a) k) [
      | true ↦ deeper right (pid_rb_search r k)
      | false ↦ some ([], a)
    ]
  ]

  abbrev pub link : Dir → Option Trail → Option Trail
  link d none = none
  link d (some t) = some (d ∷ t)

  -- The loop of `process_rb_insert`: the link for the new node, or nothing where the pid is taken.
  unfoldable pub pid_place : Tree A → ℕ → Option Trail
  pid_place leaf k = some []
  pid_place (node c l a r) k = elim (ltb k (pid a)) [
    | true ↦ link left (pid_place l k)
    | false ↦ elim (ltb (pid a) k) [ true ↦ link right (pid_place r k) | false ↦ none ]
  ]

  module _ (ops : Rebalance A) where
    -- `malloc` is not checked here; it is taken to succeed.
    unfoldable pub process_rb_insert : Tree A → A → Bool × Tree A
    process_rb_insert t a = elim (pid_place t (pid a)) [
      | none ↦ (false, t)
      | some p ↦ (true, ops.rb_insert_color (rb_link_node t p a) p)
    ]

    unfoldable pub pid_rb_delete : Tree A → ℕ → Option A × Tree A
    pid_rb_delete t k = elim (pid_rb_search t k) [
      | none ↦ (none, t)
      | some (p, a) ↦ (some a, ops.rb_erase t p)
    ]

    -- `first_pid` is 0 until there is a process.
    unfoldable pub client_add_process : ℕ → Tree A → A → ℕ × Tree A
    client_add_process first_pid t a =
        (if first_pid == 0 then pid a else first_pid, (process_rb_insert t a).1)

  abbrev pub process_of : Option (Trail × A) → Option A
  process_of none = none
  process_of (some (t, a)) = some a

  unfoldable pub client_find_process : Tree A → ℕ → Option A
  client_find_process t k = process_of (pid_rb_search t k)

  unfoldable pub client_first_process : ℕ → Tree A → Option A
  client_first_process first_pid t =
      if first_pid == 0 then none else client_find_process t first_pid
