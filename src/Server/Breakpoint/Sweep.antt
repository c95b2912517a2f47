-- ===== src/Server/Breakpoint/Sweep.antt =====
-- breakpoint.c and dict.c: all breakpoints of a process are switched off, and its text is whole again.
use mtrace.Base.{ℕ, zero, suc, ◌≡◌, ◌⊎◌, Bool, true, some, List, [], ◌∷◌, All, Outcome, Ends}
use mtrace.Dict.{DictEntry, Dict}
use mtrace.Server.ProcMemory.{ProcBytes}
use mtrace.Server.Breakpoint.{Breakpoint, Leader, Target, breakpoint_disable, each}
use mtrace.Server.Breakpoint.Text.{IsText}
use mtrace.Server.Breakpoint.Switch.{IsTraced}
use mtrace.Server.Breakpoint.Enable.{OffAt, IsQuiet}

-- A pointer that one of the entries holds.
abbrev pub Holds : ℕ → List (DictEntry ℕ) → Type 0
Holds q [] = ⊥
Holds q (e ∷ es) = (e.value ≡ q) ⊎ Holds q es

-- The pointers in the buckets from `i`, of which `n` are left.
abbrev pub InBuckets : (ℕ → List (DictEntry ℕ)) → ℕ → ℕ → ℕ → Type 0
InBuckets buckets i zero q = ⊥
InBuckets buckets i (suc n) q = Holds q (buckets i) ⊎ InBuckets buckets (suc i) n q

module _ (target : Target) (text : ProcBytes) (traced : IsTraced target) (r : Leader) where
  abbrev Alive : DictEntry ℕ → Type 0
  Alive e = (b : Breakpoint) × (r.heap e.value ≡ some b)

  -- From the leader `r` on: those in `D` are out of the text.
  abbrev IsSwept : (ℕ → Type 0) → Leader → Type 0
  IsSwept D t =
      IsText target text t
      × IsQuiet target text traced r t
      × ((q : ℕ) → D q → OffAt target text traced t q)

  abbrev func : ℕ → ℕ → Outcome Leader → Bool × Outcome Leader
  func = each target (breakpoint_disable target)

  abbrev Swept : (ℕ → Type 0) → Bool × Outcome Leader → Type 0
  Swept D w = (w.0 ≡ true) × Ends ⊥ (IsSwept D) w.1

-- Each entry of the table points to a breakpoint, and each breakpoint in the text stands in the table.
pub record IsTabled (s : Leader) (d : Dict ℕ) : Type 0 where
  pub table : s.breakpoints ≡ some d
  pub alive : (j : ℕ) → All (λ e. (b : Breakpoint) × (s.heap e.value ≡ some b)) (d.buckets j)
  pub listed :
      (q : ℕ) (b : Breakpoint) → s.heap q ≡ some b → b.sw ≡ true → InBuckets d.buckets 0 d.size q
