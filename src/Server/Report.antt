-- ===== src/Server/Report.antt =====
-- report.c: the messages that the server sends of the calls it traces.
pub mod Payload
pub mod Bracket
pub mod Maps
use mtrace.Base.{
  ℕ, zero, suc, ◌+◌, ◌-◌, ◌*◌, ◌%◌, ◌==◌, if◌then◌else◌, Bool, true, false, not, Option, none, some,
  List, [], ◌∷◌, ◌++◌, Outcome, ok, aborted,
}
use mtrace.Base.Word.{w32, w64}
use mtrace.Message.{
  MtOperation, mt_malloc, mt_realloc, mt_realloc_enter, mt_realloc_done, mt_memalign,
  mt_posix_memalign, mt_aligned_alloc, mt_valloc, mt_pvalloc, mt_free, mt_new, mt_new_array,
  mt_delete, mt_delete_array, mt_mmap, mt_mmap64, mt_munmap,
}
use mtrace.Message.Wire.{Format, put_ulong}

-- A call that is traced: its parameters and what it returns (`fetch_param` and `fetch_retval`), the
-- symbol that was called, and what the unwinder finds on the stack; nothing where it does not start.
pub record Frame : Type 0 where
  pub in_loader : Bool
  pub ip : ℕ

pub record Call : Type 0 where
  pub param : ℕ → ℕ
  pub retval : ℕ
  pub libsym : ℕ
  pub frames : Option (List Frame)

pub record Caller : Type 0 where
  pub pid : ℕ
  pub leader : ℕ
  pub is_64bit : Bool
  pub in_realloc : Bool

pub record Sent : Type 0 where
  pub operation : MtOperation
  pub pid : ℕ
  pub payload : List ℕ

-- `bt_depth` and `sanity` of the options.
pub record ReportOptions : Type 0 where
  pub bt_depth : ℕ
  pub sanity : Bool

-- The sender writes in its own byte order.
abbrev pub format_of : Caller → Format
format_of t = record { is_64bit = t.is_64bit; swap_endian = false }

-- The cast to `uint64_t` or `uint32_t`; registers have no more bits than 64.
abbrev pub cast : Format → ℕ → ℕ
cast f v = if f.is_64bit then v % w64 else v % w32

-- The loop over the frames, with the room that is left and the address that was stored last. Frames of the
-- loader are left out, as is an address that is the last one again; 0 ends the stack.
unfoldable pub unwind : Format → ℕ → ℕ → List Frame → List ℕ
unwind f zero last frames = []
unwind f (suc room) last [] = []
unwind f (suc room) last (fr ∷ frames) = elim fr.in_loader [
  | true ↦ unwind f (suc room) last frames
  | false ↦ elim (cast f fr.ip == last) [
    | true ↦ unwind f (suc room) last frames
    | false ↦ elim (cast f fr.ip == 0) [
      | true ↦ []
      | false ↦ cast f fr.ip ∷ unwind f room (cast f fr.ip) frames
    ]
  ]
]

unfoldable pub stack_data : Format → ℕ → Call → List ℕ
stack_data f zero c = []
stack_data f (suc room) c =
    let first = cast f c.libsym in
    first ∷ elim c.frames [ none ↦ [] | some frames ↦ unwind f room first frames ]

unfoldable pub put_all : Format → List ℕ → List ℕ
put_all f [] = []
put_all f (v ∷ vs) = put_ulong f v ++ put_all f vs

-- `mt_alloc_payload_64` or `mt_alloc_payload_32`.
unfoldable pub alloc_bytes : Format → ℕ → ℕ → List ℕ → List ℕ
alloc_bytes f ptr size words =
    put_ulong f (cast f ptr) ++ put_ulong f (cast f size) ++ put_all f words

-- `report_alloc64` and `report_alloc32`; the latter lets the thread go on before it sends the message.
unfoldable pub report_alloc : Caller → MtOperation → ℕ → ℕ → ℕ → Call → List Sent
report_alloc t op ptr size depth c = elim (ptr == 0) [
  | true ↦ []
  | false ↦
      record {
        operation = op;
        pid = t.leader;
        payload = alloc_bytes (format_of t) ptr size (stack_data (format_of t) depth c);
      }
      ∷ []
]

module _ (options : ReportOptions) (t : Caller) where
  abbrev pub sane_depth : ℕ
  sane_depth = if options.sanity then options.bt_depth else 0

  abbrev pub if_sane : MtOperation → MtOperation → MtOperation
  if_sane op other = if options.sanity then op else other

  unfoldable pub _report_alloc_op : MtOperation → Call → List Sent
  _report_alloc_op op c = report_alloc t op c.retval (c.param 0) options.bt_depth c

  abbrev pub _report_malloc : Call → List Sent
  _report_malloc = _report_alloc_op mt_malloc

  abbrev pub _report_new : Call → List Sent
  _report_new = _report_alloc_op (if_sane mt_new mt_malloc)

  abbrev pub _report_new_array : Call → List Sent
  _report_new_array = _report_alloc_op (if_sane mt_new_array mt_malloc)

  unfoldable pub _report_reallocarray : Call → List Sent
  _report_reallocarray c =
      report_alloc t mt_malloc c.retval ((c.param 1 * c.param 2) % w64) options.bt_depth c

  unfoldable pub _report_free_op : MtOperation → Call → List Sent
  _report_free_op op c = report_alloc t op (c.param 0) 0 sane_depth c

  abbrev pub report_free : Call → List Sent
  report_free = _report_free_op mt_free

  abbrev pub report_delete : Call → List Sent
  report_delete = _report_free_op (if_sane mt_delete mt_free)

  abbrev pub report_delete_array : Call → List Sent
  report_delete_array = _report_free_op (if_sane mt_delete_array mt_free)

  -- At the entry of `realloc`.
  unfoldable pub report_realloc : Call → Outcome (Caller × List Sent)
  report_realloc c = elim t.in_realloc [
    | true ↦ aborted
    | false ↦ elim (c.param 0 == 0) [
      | true ↦ ok (t, [])
      | false ↦ ok (
        record t { in_realloc = true },
        report_alloc t mt_realloc_enter (c.param 0) t.pid sane_depth c,
      )
    ]
  ]

  abbrev pub realloc_done : ℕ → Sent
  realloc_done ret = record {
    operation = mt_realloc_done;
    pid = t.leader;
    payload = alloc_bytes (format_of t) ret t.pid [];
  }

  -- At its return; `report_alloc` sends nothing for a null pointer.
  unfoldable pub _report_realloc : Call → Caller × List Sent
  _report_realloc c =
      let moved = report_alloc t mt_realloc c.retval (c.param 1) options.bt_depth c in
      elim t.in_realloc [
        | false ↦ (t, moved)
        | true ↦ (record t { in_realloc = false }, moved ++ realloc_done c.retval ∷ [])
      ]

  unfoldable pub _report_calloc : Call → List Sent
  _report_calloc c =
      report_alloc t mt_malloc c.retval ((c.param 0 * c.param 1) % w64) options.bt_depth c

  abbrev pub map_failed : ℕ
  map_failed = w64 - 1

  unfoldable pub _report_mmap : Call → List Sent
  _report_mmap c = elim (c.retval == map_failed) [
    | true ↦ []
    | false ↦ report_alloc t mt_mmap c.retval (c.param 1) options.bt_depth c
  ]

  -- A 32 bit process passes the size in two registers.
  unfoldable pub _report_mmap64 : Call → List Sent
  _report_mmap64 c = elim (c.retval == map_failed) [
    | true ↦ []
    | false ↦
        report_alloc t mt_mmap64 c.retval
          (if t.is_64bit then c.param 1 else c.param 1 % w32 + w32 * (c.param 2 % w32))
          options.bt_depth c
  ]

  unfoldable pub report_munmap : Call → List Sent
  report_munmap c = report_alloc t mt_munmap (c.param 0) (c.param 1) 0 c

  -- An allocation whose size is the parameter `n`.
  unfoldable pub report_sized : MtOperation → ℕ → Call → List Sent
  report_sized op n c = report_alloc t op c.retval (c.param n) options.bt_depth c

  abbrev pub _report_memalign : Call → List Sent
  _report_memalign = report_sized mt_memalign 1

  abbrev pub _report_aligned_alloc : Call → List Sent
  _report_aligned_alloc = report_sized mt_aligned_alloc 1

  abbrev pub _report_valloc : Call → List Sent
  _report_valloc = report_sized mt_valloc 0

  abbrev pub _report_pvalloc : Call → List Sent
  _report_pvalloc = report_sized mt_pvalloc 0

  -- `target` reads the pointer that `posix_memalign` has stored at an address.
  unfoldable pub _report_posix_memalign : (ℕ → ℕ) → Call → List Sent
  _report_posix_memalign target c = elim (c.retval == 0) [
    | false ↦ []
    | true ↦ report_alloc t mt_posix_memalign (target (c.param 0)) (c.param 2) options.bt_depth c
  ]

  abbrev pub report_mremap : Call → List Sent
  report_mremap = report_munmap

  abbrev pub _report_mremap : Call → List Sent
  _report_mremap = report_sized mt_mmap 2
