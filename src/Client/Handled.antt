-- ===== src/Client/Handled.antt =====
-- client/client.c: what one message that keeps the books does to them, handler by handler.
use mtrace.Base.{
  ℕ, ◌≤◌, ◌≡◌, Bool, true, false, none, some, List, arith, Outcome, ok, aborted, fault, diverged,
  ◌>>=◌, >>=-eq-ok, Ends, subst, Option, refl,
}
use mtrace.Message.{MtOperation}
use mtrace.Process.State.{Process, Env}
use mtrace.Process.State.{exit}
use mtrace.Process.Handlers.{AllocPayload, alloc_payload, process_alloc, process_free}
use mtrace.Process.Unmap.{process_munmap}
use mtrace.Process.Realloc.{process_realloc_done}
use mtrace.Process.Scan.{process_scan}
use mtrace.Process.Life.{process_set_status}
use mtrace.Process.Reset.{process_reinit}
use mtrace.Process.Maps.{Maps, process_add_map, process_del_map}
use mtrace.Process.Resolv.{IsMapped}
use mtrace.Process.Books.{Inv, HasMemory, HasRoom, Grown, references}
use mtrace.Process.Books.Alloc.{process_alloc-Grown}
use mtrace.Process.Books.Free.{process_free-Grown}
use mtrace.Process.Books.Unmap.{process_munmap-Grown}
use mtrace.Process.Books.Done.{process_realloc_done-Grown}
use mtrace.Process.Books.Scan.{process_scan-Grown}
use mtrace.Process.Books.Same.{SameBooks, same-Inv}
use mtrace.Client.Dispatch.{
  Handler, alloc, realloc_done, free, munmap, scan, add_map, del_map, attach, attach64, exits,
  nofollow, other, handler, handle, stays, stays_if, maps_of, with_maps, attached_payload,
}

-- Of the handlers, those that keep the books; an attach empties them.
abbrev pub keeps : Handler → Bool
keeps attach = false
keeps attach64 = false
keeps _ = true

-- The call stack that comes with a message lies in mapped files.
abbrev pub StackIsMapped : Process → List ℕ → Handler → Type 0
StackIsMapped p bytes alloc =
    (m : AllocPayload) → alloc_payload p.format bytes ≡ ok m → IsMapped p m.data_bytes
StackIsMapped p bytes free =
    (m : AllocPayload) → alloc_payload p.format bytes ≡ ok m → IsMapped p m.data_bytes
StackIsMapped p bytes _ = Unit

ends_ok :
    (R : Type 0) (P : Process → Type 0) (m : Outcome Process) (q : Process)
    → Ends R P m
    → m ≡ ok q
    → P q
ends_ok R P (ok a) q h e = let same : a ≡ q = cc in subst P same h
ends_ok R P aborted q h e = cc
ends_ok R P fault q h e = cc
ends_ok R P diverged q h e = cc

pub Grown-self : (v : Env) (n : ℕ) (p : Process) → Inv v p → Grown v n p p
Grown-self v n p inv = record { inv = inv; grows = omega arith }

Grown-le : (v : Env) (n k : ℕ) (p q : Process) → n ≤ k → Grown v n p q → Grown v k p q
Grown-le v n k p q h g = record { inv = g.inv; grows = omega (arith, g.grows) }

-- A handler that starts with the payload decodes it, or is off.
module _ (v : Env) (n : ℕ) (p q : Process) (inv : Inv v p) where
  traced :
      (b : Bool) (m : Outcome AllocPayload) (rest : AllocPayload → Outcome Process)
      (R : AllocPayload → Type 0)
      → ((a : AllocPayload)
          → m ≡ ok a
          → Ends (R a) (Grown v n p) (elim b [ false ↦ ok p | true ↦ m >>= rest ]))
      → elim b [ false ↦ ok p | true ↦ m >>= rest ] ≡ ok q
      → Grown v n p q
  traced true m rest R h e =
      let (a, is, _) = >>=-eq-ok q m rest e in ends_ok (R a) (Grown v n p) _ q (h a is) e
  traced false m rest R h e =
      let same : p ≡ q = cc in subst (Grown v n p) same (Grown-self v n p inv)

module _ (v : Env) (op : MtOperation) (bytes : List ℕ) (p q : Process) (inv : Inv v p)
    (room : HasRoom p) where
  alloc_ok : StackIsMapped p bytes alloc → process_alloc v op bytes p ≡ ok q → Grown v 2 p q
  unfolding process_alloc
  alloc_ok mapped e =
      traced v 2 p q inv p.tracing (alloc_payload p.format bytes) _ _
        (λ m is. process_alloc-Grown v op bytes p m inv (omega arith) is (mapped m is)) e

  free_ok : StackIsMapped p bytes free → process_free v op bytes p ≡ ok q → Grown v 2 p q
  unfolding process_free
  free_ok mapped e =
      traced v 2 p q inv p.tracing (alloc_payload p.format bytes) _ _
        (λ m is. process_free-Grown v op bytes p m inv room is (mapped m is)) e

  munmap_ok : process_munmap v bytes p ≡ ok q → Grown v 2 p q
  unfolding process_munmap
  munmap_ok e = Grown-le v 0 2 p q (omega arith) (
      traced v 0 p q inv p.tracing (alloc_payload p.format bytes) _ _
        (λ m is. process_munmap-Grown v bytes p m inv (omega arith) is) e)

  realloc_done_ok : process_realloc_done v bytes p ≡ ok q → Grown v 2 p q
  unfolding process_realloc_done
  realloc_done_ok e = Grown-le v 1 2 p q (omega arith) (
      traced v 1 p q inv p.tracing (alloc_payload p.format bytes) _ _
        (λ m is. process_realloc_done-Grown v bytes p m inv room is) e)

  stays_ok : (m : Outcome Process) → stays m ≡ ok (some q) → m ≡ ok q
  stays_ok (ok a) e = cc
  stays_ok aborted e = cc
  stays_ok fault e = cc
  stays_ok diverged e = cc

  stays_if_ok : (b : Bool) (r : Process) → stays_if b r ≡ some q → r ≡ q
  stays_if_ok true r e = cc
  stays_if_ok false r e = cc

  -- A process with the same blocks, call stacks and counts.
  same_ok :
      (r : Process)
      → SameBooks p r
      → HasMemory r
      → references r ≡ references p
      → r ≡ q
      → Grown v 2 p q
  same_ok r same memory count e =
      subst (Grown v 2 p) e
        (record { inv = same-Inv v same memory inv; grows = omega (arith, count) })

  maps_ok :
      (m : Outcome Maps) → (m >>= λ r. ok (some (with_maps p r))) ≡ ok (some q) → Grown v 2 p q
  maps_ok (ok r) e =
      same_ok (with_maps p r)
        (record {
          rb_stacks = refl;
          stacks = refl;
          block_table = refl;
          stack_table = refl;
          realloc_list = refl;
          n_allocations = refl;
          stack_trees = refl;
          fresh = refl;
        })
        inv.memory refl cc
  maps_ok aborted e = cc
  maps_ok fault e = cc
  maps_ok diverged e = cc

  exits_ok : stays_if v.interactive (process_set_status p exit) ≡ some q → Grown v 2 p q
  unfolding process_set_status
  exits_ok e =
      same_ok (process_set_status p exit)
        (record {
          rb_stacks = refl;
          stacks = refl;
          block_table = refl;
          stack_table = refl;
          realloc_list = refl;
          n_allocations = refl;
          stack_trees = refl;
          fresh = refl;
        })
        inv.memory refl (stays_if_ok v.interactive _ e)

  scan_ok :
      (process_scan bytes p >>= λ r. ok (stays_if v.interactive r.1)) ≡ ok (some q) → Grown v 2 p q
  scan_ok e =
      let (r, is, kept) = >>=-eq-ok (some q) (process_scan bytes p) _ e in
      let same = stays_if_ok v.interactive r.1 (ok_inj kept) in
      Grown-le v 0 2 p q (omega arith) (
        subst (Grown v 0 p) same
          (scanned (process_scan bytes p) r is (process_scan-Grown v bytes p inv)))
    where
      ok_inj : {a b : Option Process} → ok a ≡ ok b → a ≡ b
      ok_inj h = cc

      scanned :
          (m : Outcome (List ℕ × Process)) (r : List ℕ × Process)
          → m ≡ ok r
          → Ends ⊥ (λ r. Grown v 0 p r.1) m
          → Grown v 0 p r.1
      scanned (ok a) r h g = let same : a ≡ r = cc in subst (λ x. Grown v 0 p x.1) same g
      scanned aborted r h g = cc
      scanned fault r h g = cc
      scanned diverged r h g = cc

  pub handle-Grown :
      (swap : Bool)
      → keeps (handler op) ≡ true
      → StackIsMapped p bytes (handler op)
      → handle v swap op bytes p ≡ some (ok (some q))
      → Grown v 2 p q
  unfolding handle
  handle-Grown swap kept mapped e = by_handler (handler op) kept mapped e
    where
      by_handler :
          (h : Handler)
          → keeps h ≡ true
          → StackIsMapped p bytes h
          → elim h [
            | alloc ↦ some (stays (process_alloc v op bytes p))
            | realloc_done ↦ some (stays (process_realloc_done v bytes p))
            | free ↦ some (stays (process_free v op bytes p))
            | munmap ↦ some (stays (process_munmap v bytes p))
            | scan ↦ some (process_scan bytes p >>= λ r. ok (stays_if v.interactive r.1))
            | add_map ↦
                some (process_add_map p.format (maps_of p) bytes >>= λ m. ok (some (with_maps p m)))
            | del_map ↦
                some (process_del_map p.format (maps_of p) bytes >>= λ m. ok (some (with_maps p m)))
            | attach ↦ some (attached_payload bytes >>= λ a. stays (process_reinit p swap false a))
            | attach64 ↦ some (attached_payload bytes >>= λ a. stays (process_reinit p swap true a))
            | exits ↦ some (ok (stays_if v.interactive (process_set_status p exit)))
            | nofollow ↦ some (ok none)
            | other ↦ none
          ]
            ≡ some (ok (some q))
          → Grown v 2 p q
      by_handler alloc k m e = alloc_ok m (stays_ok (process_alloc v op bytes p) cc)
      by_handler realloc_done k m e = realloc_done_ok (stays_ok (process_realloc_done v bytes p) cc)
      by_handler free k m e = free_ok m (stays_ok (process_free v op bytes p) cc)
      by_handler munmap k m e = munmap_ok (stays_ok (process_munmap v bytes p) cc)
      by_handler scan k m e = scan_ok cc
      by_handler add_map k m e = maps_ok (process_add_map p.format (maps_of p) bytes) cc
      by_handler del_map k m e = maps_ok (process_del_map p.format (maps_of p) bytes) cc
      by_handler attach k m e = cc
      by_handler attach64 k m e = cc
      by_handler exits k m e = exits_ok cc
      by_handler nofollow k m e = cc
      by_handler other k m e = cc
