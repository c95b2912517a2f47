-- ===== src/Message.antt =====
-- memtrace.h: the operations of the protocol between the tracing server and the client.
pub mod Wire
pub mod Codec
pub mod Socket
mod Tests
use mtrace.Base.{Bool, true, false}

pub data MtOperation : Type 0 where
  mt_info mt_disconnect mt_add_map mt_del_map mt_attach mt_attach64 : MtOperation
  mt_fork mt_about_exit mt_exit mt_nofollow : MtOperation
  mt_malloc mt_realloc_enter mt_realloc_done mt_realloc mt_free : MtOperation
  mt_mmap mt_mmap64 mt_munmap : MtOperation
  mt_memalign mt_posix_memalign mt_aligned_alloc mt_valloc mt_pvalloc : MtOperation
  mt_scan mt_stop mt_start mt_detach : MtOperation
  mt_new mt_new_array mt_delete mt_delete_array mt_depth : MtOperation

unfoldable pub MtOperation-discrete : Discrete MtOperation
MtOperation-discrete = hlevel
