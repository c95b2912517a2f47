-- ===== src/Client/Dispatch.antt =====
-- client/client.c: the switch of `client_func` that hands a message to its handler, once the process is
-- known. The printed output and the messages that the client sends back are left out.
use mtrace.Base.{
  ℕ, Bool, true, false, not, List, [], ◌∷◌, Option, none, some, Outcome, ok, fault, ◌>>=◌, ◌==◌,
  if◌then◌else◌,
}
use mtrace.Message.{
  MtOperation, mt_malloc, mt_realloc, mt_memalign, mt_posix_memalign, mt_aligned_alloc, mt_valloc,
  mt_pvalloc, mt_mmap, mt_mmap64, mt_new, mt_new_array, mt_realloc_done, mt_realloc_enter, mt_free,
  mt_delete, mt_delete_array, mt_munmap, mt_scan, mt_add_map, mt_del_map, mt_attach, mt_attach64,
  mt_exit, mt_nofollow,
}
use mtrace.Process.State.{Process, Env, exit}
use mtrace.Process.Handlers.{process_alloc, process_free}
use mtrace.Process.Unmap.{process_munmap}
use mtrace.Process.Realloc.{process_realloc_done}
use mtrace.Process.Scan.{process_scan}
use mtrace.Process.Life.{process_set_status}
use mtrace.Process.Reset.{process_reinit}
use mtrace.Process.Maps.{Maps, process_add_map, process_del_map}

pub data Handler : Type 0 where
  alloc realloc_done free munmap scan add_map del_map attach attach64 exits nofollow other : Handler

-- The cases of the switch.
unfoldable pub handler : MtOperation → Handler
handler mt_malloc = alloc
handler mt_realloc = alloc
handler mt_memalign = alloc
handler mt_posix_memalign = alloc
handler mt_aligned_alloc = alloc
handler mt_valloc = alloc
handler mt_pvalloc = alloc
handler mt_mmap = alloc
handler mt_mmap64 = alloc
handler mt_new = alloc
handler mt_new_array = alloc
handler mt_realloc_done = realloc_done
handler mt_realloc_enter = free
handler mt_free = free
handler mt_delete = free
handler mt_delete_array = free
handler mt_munmap = munmap
handler mt_scan = scan
handler mt_add_map = add_map
handler mt_del_map = del_map
handler mt_attach = attach
handler mt_attach64 = attach64
handler mt_exit = exits
handler mt_nofollow = nofollow
handler _ = other

-- The maps of a process, and a process with other maps.
abbrev pub maps_of : Process → Maps
maps_of p = record { filename = p.filename; map_list = p.map_list }

abbrev pub with_maps : Process → Maps → Process
with_maps p m = record p { filename = m.filename; map_list = m.map_list }

-- What is left of the process: nothing where `client_remove_process` takes it out of the tree.
abbrev pub stays : Outcome Process → Outcome (Option Process)
stays m = m >>= λ p. ok (some p)

-- On an interactive client a process that has ended stays.
abbrev pub stays_if : Bool → Process → Option Process
stays_if b p = if b then some p else none

-- A payload without a byte is read past its end.
unfoldable pub attached_payload : List ℕ → Outcome Bool
attached_payload [] = fault
attached_payload (b ∷ bytes) = ok (not (b == 0))

-- One message for a process that is not ignored, on a 64 bit host; `swap` is the order of bytes of the
-- message. Nothing for MT_FORK, whose handler copies from another process, for MT_ABOUT_EXIT and MT_DETACH,
-- which may ask for a leak scan, and for the operations that are a protocol violation.
unfoldable pub handle :
    Env → Bool → MtOperation → List ℕ → Process → Option (Outcome (Option Process))
handle v swap op bytes p = elim (handler op) [
  | alloc ↦ some (stays (process_alloc v op bytes p))
  | realloc_done ↦ some (stays (process_realloc_done v bytes p))
  | free ↦ some (stays (process_free v op bytes p))
  | munmap ↦ some (stays (process_munmap v bytes p))
  | scan ↦ some (process_scan bytes p >>= λ r. ok (stays_if v.interactive r.1))
  | add_map ↦ some (process_add_map p.format (maps_of p) bytes >>= λ m. ok (some (with_maps p m)))
  | del_map ↦ some (process_del_map p.format (maps_of p) bytes >>= λ m. ok (some (with_maps p m)))
  | attach ↦ some (attached_payload bytes >>= λ a. stays (process_reinit p swap false a))
  | attach64 ↦ some (attached_payload bytes >>= λ a. stays (process_reinit p swap true a))
  | exits ↦ some (ok (stays_if v.interactive (process_set_status p exit)))
  | nofollow ↦ some (ok none)
  | other ↦ none
]
