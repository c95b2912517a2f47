-- ===== src/Server/Breakpoint/Setup.antt =====
-- breakpoint.c: the table of breakpoints that a leader starts with, and the one of a forked process.
use mtrace.Base.{
  ℕ, zero, suc, ◌+◌, ◌-◌, ◌*◌, ◌/◌, ◌%◌, ltb, if◌then◌else◌, Bool, true, false, none, some, List,
  [], ◌∷◌, Outcome, ok, aborted, fault, diverged, ◌>>=◌,
}
use Prim.Native.Nat.{bit_xor}
use mtrace.Base.Word.{w16, w32}
use mtrace.Dict.{dict_add, dict_init, dict_apply_to_all}
use mtrace.Process.State.{update}
use mtrace.Server.Breakpoint.{Breakpoint, Leader, bp_at, table_of}

-- The 16-bit parts of an address of `n` parts, the low one first.
unfoldable pub halves : ℕ → ℕ → List ℕ
halves zero a = []
halves (suc n) a = a % w16 ∷ halves n (a / w16)

unfoldable pub hash_halves : ℕ → List ℕ → ℕ
hash_halves h [] = h
hash_halves h (v ∷ vs) = hash_halves ((h + bit_xor (h / 4) (v * 8)) % w32) vs

-- Addresses have 32 bits.
unfoldable pub target_address_hash : ℕ → ℕ
target_address_hash key = hash_halves 4713 (halves 2 key)

-- The result -1 as an `unsigned int`; the table asks only whether it is 0.
unfoldable pub target_address_cmp : ℕ → ℕ → ℕ
target_address_cmp k l = if ltb k l then 1 else if ltb l k then w32 - 1 else 0

unfoldable pub breakpoint_setup : Leader → Outcome Leader
breakpoint_setup s = elim s.breakpoints [
  | some d ↦ aborted
  | none ↦
      ok (record s { breakpoints = some (dict_init 12401 target_address_hash target_address_cmp) })
]

-- A copy of a breakpoint; `junk` is what the allocated memory held. The bytes behind the structure are
-- not modelled.
abbrev pub cloned : Breakpoint → Breakpoint → Breakpoint
cloned junk b = record junk {
  libsym = b.libsym;
  addr = b.addr;
  on_hit = b.on_hit;
  enabled = b.enabled;
  locked = b.locked;
  hw = b.hw;
  sw = b.sw;
  type = b.type;
  ext = b.ext;
  refcnt = 1;
  deleted = false;
  count = 0;
  orig_value = if b.sw then b.orig_value else junk.orig_value;
}

-- `given` and `entry_given` are whether `malloc` gives each copy, and each entry of the table.
module _ (junk : Breakpoint) (given entry_given : Bool) where
  -- The Boolean is true for the result 0. `old` is the leader that is copied from.
  unfoldable pub clone_single : Leader → ℕ → Leader → Outcome (Bool × Leader)
  clone_single old p s = do
    b ← bp_at old p
    if b.deleted then ok (true, s) else elim given [
      | false ↦ ok (false, s)
      | true ↦ do
        d ← table_of s
        (added, d') ← dict_add entry_given d b.addr s.fresh
        if added
            then ok (
              true,
              record s {
                heap = update s.heap s.fresh (some (cloned junk b));
                fresh = s.fresh + 1;
                breakpoints = some d';
              },
            )
            else ok (false, s)
    ]

  -- The walk stops at a result other than 0, and where a call did not return.
  abbrev pub goes_on : Outcome (Bool × Leader) → Bool × Outcome (Bool × Leader)
  goes_on (ok (b, s)) = (b, ok (b, s))
  goes_on aborted = (false, aborted)
  goes_on fault = (false, fault)
  goes_on diverged = (false, diverged)

  abbrev pub clone_cb : Leader → ℕ → ℕ → Outcome (Bool × Leader) → Bool × Outcome (Bool × Leader)
  clone_cb old key p s = goes_on (s >>= λ t. clone_single old p t.1)

  unfoldable pub breakpoint_clone_all : Leader → Leader → Outcome (Bool × Leader)
  breakpoint_clone_all s old =
      table_of old >>= λ d. (dict_apply_to_all (clone_cb old) d (ok (true, s))).1
