-- ===== src/Server/Tests.antt =====
-- Runs of the traced side's operations and witnesses of the theorems on them.
use mtrace.Base.{◌*◌, arith, ℕ, ◌≡◌, refl, true, List, [], ◌∷◌, Ends}
use mtrace.Server.PidHash.{empty_table, pid2task}
use mtrace.Server.PidHash.Refine.{
  Op, insert, delete, run, run-refines, no_tasks, added, removed, Refused,
}
use mtrace.Rbtree.{Tree, leaf, node, red, black}
use mtrace.Rbtree.Plain.{plain}
use mtrace.Server.Library.{
  Libraries, library_setup, addr2libref, add_library, library_clone_all, insert_lib, lib_place,
}
use mtrace.Server.Library.Search.{holder, addr2libref-holder}
use mtrace.Server.Library.Insert.{IsLibraries, add_library-IsLibraries}
use mtrace.Server.Library.Clone.{setup-IsLibraries, library_clone_all-same}
use mtrace.Server.FindBlock.{find_block}
use mtrace.Server.FindBlock.Finds.{FindsBlock, find_block-FindsBlock}
use mtrace.Base.{none, some, Bool, false, ltb, total}
use mtrace.Server.Events.{Task, Group, event_none, Status, no_event, Report, find_member, stop_loop}
use mtrace.Server.Events.Stopping.{AreStopped, stop_loop-AreStopped}
use mtrace.Server.ProcMemory.{Ptrace, copy_to_proc}
use mtrace.Server.ProcMemory.Failing.{IsPrefix, copy_to_proc-IsPrefix}
use mtrace.Base.{◌+◌}
use mtrace.Message.{mt_malloc}
use mtrace.Server.Report.{Call, Caller, ReportOptions, report_alloc, stack_data, format_of, unwind}
use mtrace.Server.Report.Payload.{IsReport, report_alloc-IsReport}
use mtrace.Server.Report.Bracket.{IsBracket, realloc_call, realloc_call-IsBracket}
use mtrace.Process.Maps.{process_add_map}
use mtrace.Base.{ok, length}
use mtrace.Message.Wire.{Format}
use mtrace.Server.Report.Maps.{Mapped, _report_map, process_add_map-report_map}
use mtrace.Server.Arm.{
  ArmTask, arm_get_next_pcs, and_then, decode, finish, bit, bits, arm_branch_dest,
}
use mtrace.Server.Arm.Next.{WhenSome, IsNext, arm_get_next_pcs-IsNext}
use mtrace.Server.Arm.Thumb.{ThumbTask, thumb_get_next_pcs, thumb_jump, sbits}
use mtrace.Server.Arm.Thumb.One.{thumb_get_next_pcs_one}

-- Tasks that are their pids; 5 and 261 share an entry.
abbrev own : ℕ → ℕ
own k = k

abbrev three_calls : List (Op own)
three_calls = insert true 5 ∷ insert true 261 ∷ delete 5 ∷ []

run-refines_example :
    Ends
      (Refused own three_calls)
      (λ h.
        (k : ℕ) → pid2task own h k ≡ removed own (added own (added own (no_tasks own) 5) 261) 5 k)
      (run own empty_table three_calls)
run-refines_example =
    run-refines own three_calls (removed own (added own (added own (no_tasks own) 5) 261) 5)
      (refl, (refl, (refl, λ k. refl)))

-- Libraries of 16 bytes each that are their addresses.
abbrev start : ℕ → ℕ
start a = a

abbrev width : ℕ → ℕ
width a = 16

abbrev two_libs : Tree ℕ
two_libs = node black (node red leaf 8192 leaf) 4096 leaf

addr2libref-holder_example :
    addr2libref start width two_libs 8200 ≡ holder start width (8192 ∷ 4096 ∷ []) 8200
addr2libref-holder_example =
    addr2libref-holder start width two_libs 8200
      ((omega arith, omega arith), (omega arith, tt), ((omega arith, omega arith), tt, tt))

abbrev one_lib : Libraries ℕ
unfolding add_library insert_lib lib_place
one_lib = add_library start width plain library_setup 4096

add_library-IsLibraries_example : IsLibraries start width plain one_lib
unfolding add_library insert_lib lib_place
add_library-IsLibraries_example =
    add_library-IsLibraries start width plain library_setup (setup-IsLibraries start width plain)
      4096 (omega arith, omega arith) tt

library_clone_all-same_example :
    addr2libref start width
      (library_clone_all start width plain library_setup (4096 ∷ [])).libraries_tree
      4100
    ≡ addr2libref start width one_lib.libraries_tree 4100
unfolding add_library insert_lib lib_place
library_clone_all-same_example = library_clone_all-same start width plain one_lib 4100 (
    add_library-IsLibraries start width plain library_setup (setup-IsLibraries start width plain)
      4096 (omega arith, omega arith) tt)

abbrev tens : ℕ → ℕ
tens i = 10 * i

find_block-FindsBlock_example : Ends ⊥ (FindsBlock tens 7 30) (find_block tens 7 30)
find_block-FindsBlock_example =
    find_block-FindsBlock tens 7 30 (omega arith) (λ i j le lt. omega arith) (omega arith)

-- A leader with a thread that is stopped and one that runs.
abbrev idle_task : ℕ → Bool → Task
idle_task pid stopped = record {
  pid = pid;
  attached = true;
  stopped = stopped;
  is_new = false;
  bad = false;
  event = record { type = event_none; value = 0 };
}

abbrev pair : Group
pair = record {
  tasks = idle_task 7 true ∷ idle_task 8 false ∷ [];
  threads_stopped = 1;
  event_head = [];
  breakpoints = record {
    memory = λ x. 0;
    stopped = false;
    heap = λ q. none;
    fresh = 0;
    breakpoints = none;
  };
}

abbrev stop_report : Report
stop_report = record {
  pid = 8;
  status = Status.stopped 19 no_event;
  answers = record { message = 0; child = false; ours = some true; context = true; at = 0 };
}

stop_loop-AreStopped_example : Ends ⊥ (AreStopped 2) (stop_loop (stop_report ∷ []) pair)
unfolding find_member total
stop_loop-AreStopped_example = stop_loop-AreStopped (stop_report ∷ []) pair (record {
  counts = refl;
  small = omega arith;
  due = ((omega arith, (idle_task 8 false, refl, refl, refl)), tt);
  once = (tt, tt);
  enough = omega arith;
})

-- A page that cannot be written behind the first word.
abbrev half_page : Ptrace
half_page = record { word = 4; readable = λ x. true; writable = λ x. ltb x 12; eio = true }

abbrev six : List ℕ
six = 1 ∷ 2 ∷ 3 ∷ 4 ∷ 5 ∷ 6 ∷ []

copy_to_proc-IsPrefix_example :
    Ends ⊥ (IsPrefix (λ x. 0) 8 six 0) (copy_to_proc half_page (λ x. 0) 8 six)
copy_to_proc-IsPrefix_example = copy_to_proc-IsPrefix half_page (λ x. 0) 8 six (omega arith)

-- A call whose stack has a frame of the loader and a frame twice.
abbrev moved : Call
moved = record {
  param = λ n. 4096 + n;
  retval = 8192;
  libsym = 64;
  frames = some (
      record { in_loader = true; ip = 5 }
      ∷ record { in_loader = false; ip = 70 }
      ∷ record { in_loader = false; ip = 70 }
      ∷ record { in_loader = false; ip = 80 }
      ∷ []);
}

abbrev thread : Caller
thread = record { pid = 9; leader = 7; is_64bit = true; in_realloc = false }

report_alloc-IsReport_example :
    IsReport thread mt_malloc 8192 24 3 moved (report_alloc thread mt_malloc 8192 24 3 moved)
report_alloc-IsReport_example = report_alloc-IsReport thread mt_malloc 8192 24 3 moved

abbrev sane : ReportOptions
sane = record { bt_depth = 3; sanity = true }

realloc_call-IsBracket_example :
    Ends ⊥ (IsBracket sane thread moved moved) (realloc_call sane thread moved moved)
realloc_call-IsBracket_example = realloc_call-IsBracket sane thread moved moved refl

stack_of_moved : stack_data (format_of thread) 3 moved ≡ 64 ∷ 70 ∷ 80 ∷ []
unfolding stack_data unwind
stack_of_moved = refl

abbrev swapped : Format
swapped = record { is_64bit = false; swap_endian = true }

abbrev library : Mapped
library = record {
  filename = 47 ∷ 97 ∷ [];
  txt_vaddr = 65536;
  txt_offset = 512;
  txt_size = 4096;
  bias = 0;
}

process_add_map-report_map_example :
    process_add_map swapped
      (record { filename = none; map_list = [] })
      (_report_map swapped library)
    ≡ ok (record {
      filename = some (47 ∷ 97 ∷ []);
      map_list =
          record {
            offset = 512;
            addr = 65536;
            size = 4096;
            bias = 0;
            filename = 47 ∷ 97 ∷ [];
            binfile = none;
            ignore = false;
          }
          ∷ [];
    })
process_add_map-report_map_example =
    process_add_map-report_map swapped (record { filename = none; map_list = [] }) library
      (omega arith, (omega arith, (omega arith, (omega arith, tt))))
      ((λ e. omega (arith, e)), ((λ e. omega (arith, e)), tt))

-- BEQ to the third instruction behind it.
abbrev branch_task : ArmTask
branch_task = record { reg = λ r. some 0; read_32 = λ a. some 167772161 }

branch_goes : arm_get_next_pcs branch_task 4096 ≡ some (4108 ∷ 4100 ∷ [])
unfolding arm_get_next_pcs and_then decode finish bit bits arm_branch_dest
branch_goes = refl

arm_get_next_pcs-IsNext_example :
    WhenSome (IsNext 4096 167772161) (arm_get_next_pcs branch_task 4096)
arm_get_next_pcs-IsNext_example =
    arm_get_next_pcs-IsNext branch_task (record { regs = λ r. tt; words = λ a. tt }) 4096 167772161
      refl

-- BNE to itself, of Thumb.
abbrev loop_task : ThumbTask
loop_task = record { words = branch_task; read_16 = λ a. some 53758; read_8 = λ a. some 0 }

loop_goes : thumb_get_next_pcs loop_task 4096 ≡ some (4092 ∷ [])
unfolding thumb_get_next_pcs and_then thumb_jump sbits bit bits
loop_goes = refl

thumb_get_next_pcs_one_example :
    WhenSome (λ pcs. length pcs ≡ 1) (thumb_get_next_pcs loop_task 4096)
thumb_get_next_pcs_one_example =
    thumb_get_next_pcs_one loop_task
      (record {
        words = record { regs = λ r. tt; words = λ a. tt };
        halves = λ a. tt;
        bytes = λ a. tt;
      })
      4096
