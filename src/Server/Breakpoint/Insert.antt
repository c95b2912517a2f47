-- ===== src/Server/Breakpoint/Insert.antt =====
-- breakpoint.c: breakpoints that are inserted.
use mtrace.Base.{ℕ, ◌≡◌, ◌⊎◌, true, Option, none, some}
use mtrace.Dict.{Dict}
use mtrace.Server.ProcMemory.{ProcBytes}
use mtrace.Server.Breakpoint.{Breakpoint, Leader, Target}
use mtrace.Server.Breakpoint.Text.{IsText}

-- A pointer to a breakpoint that is in the text, unless it is deleted.
abbrev pub IsInserted : (target : Target) (text : ProcBytes) → Option ℕ × Leader → Type 0
IsInserted target text (none, t) = IsText target text t
IsInserted target text (some p, t) =
    IsText target text t
    × ((c : Breakpoint) × (t.heap p ≡ some c) × ((c.sw ≡ true) ⊎ (c.deleted ≡ true)))
