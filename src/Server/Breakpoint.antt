-- ===== src/Server/Breakpoint.antt =====
-- breakpoint.c, built without hardware breakpoints (HW_BREAKPOINTS is 0 on ARM and PowerPC): the break
-- instructions in the text of a traced process and the table of them. Pointers to `struct breakpoint` are
-- numbers that a store maps to the structure, or to nothing once it is freed.
pub mod Setup
pub mod Text
pub mod Switch
pub mod Enable
pub mod New
pub mod Insert
pub mod Sweep
mod Tests
use mtrace.Base.{
  ℕ, zero, suc, ◌+◌, ◌-◌, ◌==◌, if◌then◌else◌, Bool, true, false, not, Option, none, some, List, [],
  ◌∷◌, ◌++◌, map, length, drop, Outcome, ok, aborted, fault, ◌>>=◌,
}
use mtrace.Dict.{Dict, dict_add, dict_remove_entry, dict_find_entry, dict_init, dict_apply_to_all}
use mtrace.Process.State.{Store, update}
use mtrace.Server.ProcMemory.{ProcBytes, Ptrace, copy_to_proc, copy_from_to_proc}

pub data BpType : Type 0 where
  bp_sw bp_hw_scratch bp_hw bp_auto : BpType

-- `ext` is the number of bytes that follow the structure; `on_hit` is a function pointer.
pub record Breakpoint : Type 0 where
  pub refcnt : ℕ
  pub count : ℕ
  pub ext : ℕ
  pub type : BpType
  pub enabled : Bool
  pub locked : Bool
  pub deleted : Bool
  pub sw : Bool
  pub hw : Bool
  pub was_hw : Bool
  pub break_insn : Bool
  pub orig_value : List ℕ
  pub on_hit : Option ℕ
  pub addr : ℕ
  pub libsym : Option ℕ

-- A leader: its memory, whether its threads are stopped, the heap of breakpoints with the next pointer
-- that `malloc` returns, and the dictionary, which is absent before the set-up.
pub record Leader : Type 0 where
  pub memory : ProcBytes
  pub stopped : Bool
  pub heap : Store Breakpoint
  pub fresh : ℕ
  pub breakpoints : Option (Dict ℕ)

-- The kernel, BREAKPOINT_VALUE, and the option that forbids hardware breakpoints.
pub record Target : Type 0 where
  pub os : Ptrace
  pub break_value : List ℕ
  pub nohwbp : Bool

unfoldable pub require : Bool → Outcome {0} Unit
require b = elim b [ true ↦ ok tt | false ↦ aborted ]

unfoldable pub bp_at : Leader → ℕ → Outcome Breakpoint
bp_at s p = elim (s.heap p) [ none ↦ fault | some b ↦ ok b ]

unfoldable pub store_bp : Leader → ℕ → Option Breakpoint → Leader
store_bp s p b = record s { heap = update s.heap p b }

-- `stop_threads` returns once the leader's threads are all stopped.
abbrev pub stop_threads : Leader → Leader
stop_threads s = record s { stopped = true }

unfoldable pub same_bytes : List ℕ → List ℕ → Bool
same_bytes [] [] = true
same_bytes [] (y ∷ ys) = false
same_bytes (x ∷ xs) [] = false
same_bytes (x ∷ xs) (y ∷ ys) = elim (x == y) [ true ↦ same_bytes xs ys | false ↦ false ]

abbrev pub sw_on : Breakpoint → List ℕ → Bool → Breakpoint
sw_on b orig same = record b {
  orig_value = orig;
  break_insn = same;
  was_hw = false;
  sw = true;
  enabled = true;
}

abbrev pub sw_off : Breakpoint → Breakpoint
sw_off b = record b { sw = false; enabled = false }

module _ (target : Target) where
  -- The result of the copy is not looked at; bytes that did not come keep what was there.
  unfoldable pub enable_sw_breakpoint : Leader → ℕ → Outcome Leader
  enable_sw_breakpoint s p = do
    b ← bp_at s p
    _ ← require s.stopped
    _ ← require (not b.sw)
    _ ← require (not b.hw)
    c ← copy_from_to_proc target.os s.memory b.addr target.break_value
    let orig = c.dst ++ drop (length c.dst) b.orig_value
    ok (
        store_bp (record s { memory = c.memory }) p
          (some (sw_on b orig (same_bytes target.break_value orig))))

  unfoldable pub disable_sw_breakpoint : Leader → ℕ → Outcome Leader
  disable_sw_breakpoint s p = do
    b ← bp_at s p
    _ ← require s.stopped
    _ ← require b.sw
    _ ← require (not b.hw)
    c ← copy_to_proc target.os s.memory b.addr b.orig_value
    ok (store_bp (record s { memory = c.memory }) p (some (sw_off b)))

  unfoldable pub breakpoint_enable : Leader → ℕ → Outcome Leader
  breakpoint_enable s p = do
    b ← bp_at s p
    if b.deleted
        then ok s
        else if b.enabled
        then ok s
        else enable_sw_breakpoint (store_bp (stop_threads s) p (some (record b { hw = false }))) p

  unfoldable pub breakpoint_disable : Leader → ℕ → Outcome Leader
  breakpoint_disable s p = do
    b ← bp_at s p
    if b.deleted then ok s else if b.enabled then disable_sw_breakpoint (stop_threads s) p else ok s

-- The table of breakpoints of a leader; without it the call follows a null pointer.
unfoldable pub table_of : Leader → Outcome (Dict ℕ)
table_of s = elim s.breakpoints [ none ↦ fault | some d ↦ ok d ]

unfoldable pub breakpoint_find : Leader → ℕ → Outcome (Option ℕ)
breakpoint_find s addr = table_of s >>= λ d. dict_find_entry d addr

unfoldable pub breakpoint_get : Leader → Option ℕ → Outcome Leader
breakpoint_get s none = ok s
breakpoint_get s (some p) = do
  b ← bp_at s p
  ok (store_bp s p (some (record b { refcnt = b.refcnt + 1 })))

-- The Boolean is the result: whether the pointer is null or the structure is freed.
unfoldable pub breakpoint_put : Leader → Option ℕ → Outcome (Bool × Leader)
breakpoint_put s none = ok (true, s)
breakpoint_put s (some p) = do
  b ← bp_at s p
  _ ← require (not (b.refcnt == 0))
  if not (b.refcnt - 1 == 0)
      then ok (false, store_bp s p (some (record b { refcnt = b.refcnt - 1 })))
      else do _ ← require (not b.enabled); ok (true, store_bp s p none)

module _ (target : Target) where
  abbrev pub new_breakpoint : ℕ → Option ℕ → BpType → ℕ → Breakpoint
  new_breakpoint addr libsym type ext = record {
    refcnt = 1;
    count = 0;
    ext = ext;
    type = if target.nohwbp then bp_sw else type;
    enabled = false;
    locked = false;
    deleted = false;
    sw = false;
    hw = false;
    was_hw = false;
    break_insn = false;
    orig_value = map (λ b. 0) target.break_value;
    on_hit = none;
    addr = addr;
    libsym = libsym;
  }

  -- `given` is whether `malloc` gives the breakpoint, and `entry_given` whether it gives `dict_add` the entry
  -- of the table.
  unfoldable pub breakpoint_new_ext :
      Bool → Bool → Leader → ℕ → Option ℕ → BpType → ℕ → Outcome (Option ℕ × Leader)
  breakpoint_new_ext given entry_given s addr libsym type ext = elim given [
    | false ↦ ok (none, s)
    | true ↦ do
      d ← table_of s
      (added, d') ← dict_add entry_given d addr s.fresh
      if added
          then ok (
            some s.fresh,
            record s {
              heap = update s.heap s.fresh (some (new_breakpoint addr libsym type ext));
              fresh = s.fresh + 1;
              breakpoints = some d';
            },
          )
          else ok (none, s)
  ]

  abbrev pub breakpoint_new :
      Bool → Bool → Leader → ℕ → Option ℕ → BpType → Outcome (Option ℕ × Leader)
  breakpoint_new given entry_given s addr libsym type =
      breakpoint_new_ext given entry_given s addr libsym type 0

  abbrev pub enabled_one : Option ℕ × Leader → Outcome (Option ℕ × Leader)
  enabled_one (none, s) = ok (none, s)
  enabled_one (some p, s) = breakpoint_enable target s p >>= λ t. ok (some p, t)

  unfoldable pub breakpoint_insert :
      Bool → Bool → Leader → ℕ → Option ℕ → BpType → Outcome (Option ℕ × Leader)
  breakpoint_insert given entry_given s addr libsym type = elim (addr == 0) [
    | true ↦ ok (none, s)
    | false ↦ do
      hit ← breakpoint_find s addr
      elim hit [
        | none ↦ breakpoint_new given entry_given s addr libsym type >>= enabled_one
        | some p ↦ enabled_one (some p, s)
      ]
  ]

  unfoldable pub breakpoint_delete : Leader → ℕ → Outcome Leader
  breakpoint_delete s p = do
    b ← bp_at s p
    if b.deleted then ok s else do
      s1 ← breakpoint_disable target s p
      d ← table_of s1
      (_, d') ← dict_remove_entry d b.addr
      b1 ← bp_at s1 p
      let gone = record b1 { deleted = true; libsym = none }
      (_, s2) ←
          breakpoint_put (store_bp (record s1 { breakpoints = some d' }) p (some gone)) (some p)
      ok s2

  -- The callbacks of `dict_apply_to_all`, which never end the walk; one may stop in `abort()`.
  abbrev pub each : (Leader → ℕ → Outcome Leader) → ℕ → ℕ → Outcome Leader → Bool × Outcome Leader
  each f key p s = (true, s >>= λ t. f t p)

  unfoldable pub apply_to_all : (Leader → ℕ → Outcome Leader) → Leader → Outcome Leader
  apply_to_all f s = elim s.breakpoints [
    | none ↦ ok s
    | some d ↦ (dict_apply_to_all (each f) d (ok s)).1
  ]

  unfoldable pub unless_locked : (Leader → ℕ → Outcome Leader) → Leader → ℕ → Outcome Leader
  unless_locked f s p = bp_at s p >>= λ b. if b.locked then ok s else f s p

  unfoldable pub invalidate_bp : Leader → ℕ → Outcome Leader
  invalidate_bp s p = do
    b ← bp_at s p
    ok (store_bp s p (some (record b { enabled = false; sw = false; hw = false })))

  abbrev pub breakpoint_enable_all_nonlocked : Leader → Outcome Leader
  breakpoint_enable_all_nonlocked = apply_to_all (unless_locked (breakpoint_enable target))

  abbrev pub breakpoint_disable_all_nonlocked : Leader → Outcome Leader
  breakpoint_disable_all_nonlocked = apply_to_all (unless_locked (breakpoint_disable target))

  abbrev pub breakpoint_enable_all : Leader → Outcome Leader
  breakpoint_enable_all = apply_to_all (breakpoint_enable target)

  abbrev pub breakpoint_disable_all : Leader → Outcome Leader
  breakpoint_disable_all = apply_to_all (breakpoint_disable target)

  abbrev pub breakpoint_invalidate_all : Leader → Outcome Leader
  breakpoint_invalidate_all = apply_to_all invalidate_bp

  -- The walk holds the next entry, so it goes on past the entry that the callback removes.
  unfoldable pub breakpoint_clear_all : Leader → Outcome Leader
  breakpoint_clear_all s = elim s.breakpoints [
    | none ↦ ok s
    | some d ↦ apply_to_all breakpoint_delete s >>= λ t. ok (record t { breakpoints = none })
  ]
