-- ===== src/Server/PidHash.antt =====
-- task.h and task.c: the hash of the traced tasks by pid.
pub mod Entry
pub mod Refine
use mtrace.Base.{
  ℕ, ◌%◌, ◌+◌, ◌==◌, if◌then◌else◌, Bool, true, false, Option, none, some, List, [], ◌∷◌, ◌++◌,
  length, Outcome, ok, aborted, fault, ◌>>=◌,
}

-- `num` is the length of `tasks`, and `size` is the number of places that are allocated for them.
pub record PidHash (A : Type 0) : Type 0 where
  pub size : ℕ
  pub tasks : List A

abbrev pub pid_hash_size : ℕ
pid_hash_size = 256

-- The array of entries by index. A `pid_t` of a task is not negative, so the conversion keeps it.
abbrev pub PidTable : Type 0 → Type 0
PidTable A = ℕ → Option (PidHash A)

abbrev pub empty_table : {A : Type 0} → PidTable A
empty_table i = none

unfoldable pub set_entry : {A : Type 0} → PidTable A → ℕ → PidHash A → PidTable A
set_entry h i e j = if i == j then some e else h j

-- The table holds pointers to tasks; `pid` reads the field of one.
module _ {A : Type 0} (pid : A → ℕ) where
  abbrev pub pid_slot : ℕ → ℕ
  pid_slot k = k % pid_hash_size

  -- The first task of an entry with the pid, and the entry without it.
  unfoldable pub find_task : List A → ℕ → Option A
  find_task [] k = none
  find_task (a ∷ ts) k = elim (pid a == k) [ true ↦ some a | false ↦ find_task ts k ]

  unfoldable pub drop_task : List A → ℕ → List A
  drop_task [] k = []
  drop_task (a ∷ ts) k = elim (pid a == k) [ true ↦ ts | false ↦ a ∷ drop_task ts k ]

  abbrev pub in_entry : ℕ → Option (PidHash A) → Option A
  in_entry k none = none
  in_entry k (some e) = find_task e.tasks k

  unfoldable pub pid2task : PidTable A → ℕ → Option A
  pid2task h k = in_entry k (h (pid_slot k))

  -- An entry that is full grows by 8; a failure of the allocator is `abort()`.
  unfoldable pub entry_for : Bool → Option (PidHash A) → Outcome (PidHash A)
  entry_for given none = if given then ok (record { size = 8; tasks = [] }) else aborted
  entry_for given (some e) = elim (e.size == length e.tasks) [
    | true ↦ if given then ok (record e { size = e.size + 8 }) else aborted
    | false ↦ ok e
  ]

  unfoldable pub insert_pid : Bool → PidTable A → A → Outcome (PidTable A)
  insert_pid given h a =
      let i = pid_slot (pid a) in
      entry_for given (h i) >>= λ e. ok (set_entry h i (record e { tasks = e.tasks ++ a ∷ [] }))

  unfoldable pub delete_pid : PidTable A → A → Outcome (PidTable A)
  delete_pid h a =
      let i = pid_slot (pid a) in
      elim (h i) [
        | none ↦ fault
        | some e ↦ ok (set_entry h i (record e { tasks = drop_task e.tasks (pid a) }))
      ]
