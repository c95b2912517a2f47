-- ===== src/Lib.antt =====
-- mtrace-ng: the client, which keeps the books of the memory that traced processes allocate, and parts of
-- the server, which traces them.
--
-- A server (server.c, report.c, trace.c) stops the traced process at the entry and return of the
-- functions that allocate and free memory, and sends a message for each call. The client
-- (client/client.c) reads the messages and hands each to a handler of client/process.c, which books
-- it: a table of the open blocks by address, a table of the call stacks that made them, counters for
-- the process and for each call stack, and a list of the reallocations that have begun.
--
-- Base       names and lemmas that the modules share; `Outcome` is what a call does: it returns, ends in
--            `abort()`, follows a null or freed pointer or reads past a buffer, or loops for longer than
--            the model follows it. `Ends` is total correctness: no fault, no divergence.
-- Message    memtrace.h, and the readers and writers of client/process.c (`get_uint64`, `put_uint64`,
--            `val16` and their kin): `get_ulong`, `put_ulong`, `bswap` in Wire. Socket has the header of a
--            message, `safe_read` of sysdeps/linux-gnu/socket.c and `socket_read_msg` of client/client.c.
-- Dict       dict.c, the hash table that holds the breakpoints of the server.
-- Rbtree     the trees behind the tables. rbtree.c is a copy of the library of the Linux kernel; its two
--            rebalancing operations are the fields of the interface `Rebalance`, whose laws are its
--            contract. Rbtree.Plain is an instance that never rebalances.
-- Process    client/process.c and client/process.h. State has the structures; Resolv has
--            `resolv_address` and `stack_resolv`, Stacks has `stack_get`, `stack_put` and `stack_add`;
--            Blocks has the block table; Handlers has `process_alloc`, `process_free` and what they call; Unmap, Realloc and Scan have `process_munmap`,
--            `process_realloc_done` and `process_scan`; Life has `process_init` and `process_new`, Reset
--            `process_reset_allocations`, `process_reset` and `process_reinit`; LeakScan has
--            `process_leaks_scan`, Report the comparisons of the reports, and Maps how the list of
--            mapped files changes, in which Resolv looks the addresses up. Search and
--            Compare are about the searches and `memncmp`; Books is about the counts of blocks, references
--            and leaks, and the order of the block table, Unreached about a branch of `process_munmap`.
-- Client     client/client.c: the switch of `client_func` (Dispatch), its handlers and the books
--            (Handled), runs of the client (Reach), the parser of the configuration file (Config) and the table of processes by pid (Pids).
-- Server     the traced side. PidHash is the hash of tasks by pid of task.c, Library the list and tree of
--            libraries of library.c, FindBlock the binary search of common.c, ProcMemory the copies through
--            ptrace of sysdeps/linux-gnu/trace.c, and Breakpoint is breakpoint.c, which uses ProcMemory
--            for the text and Dict for its table. Events has what `waitpid` reports of the threads of a
--            leader, the queue of event.c and the loop of `stop_threads`; Report has the messages that report.c
--            sends of the traced calls and of mapped files, Step `skip_breakpoint` of trace.c with the single step of the
--            kernel, and Arm `arm_get_next_pcs` and `thumb_get_next_pcs` of
--            sysdeps/linux-gnu/arm/arch.c. Breakpoint is the build without hardware breakpoints
--            (HW_BREAKPOINTS 0, as on ARM and PowerPC); `stop_threads` is taken at its end, when every
--            thread is stopped, and breakpoints that a thread hits until then are not followed.
--
-- A pointer to a call stack is a number that two stores map to its structures, and to nothing once
-- `free` was called; a read or write through it then is a fault. A `struct rb_block` is reached through
-- the block table alone, so the table holds it by value, and a pointer to it is the path to its node.
-- `malloc` answers as the list `memory` says. Integers of 64 and 32 bits are natural numbers, and each
-- sum and difference is taken modulo 2 ^ 64 or 2 ^ 32 as in the source, on a 64 bit host.
--
-- The loops of `process_alloc` and `process_munmap` run on fuel, one more than there are blocks. That is
-- enough, since each round but the last takes a block out of the table; running out is `diverged`, which
-- `Ends` excludes. The parser of the configuration runs on one round more than the file has bytes,
-- `find_block` on as many rounds as there are blocks, of which each leaves fewer, and a copy on as many
-- rounds as bytes.
--
-- `Inv` of Process.Books says when books are sound: both tables are balanced, each pointer to a call stack
-- that the books hold is live, `n_allocations` of the process and of each call stack is the number of its
-- blocks, `stack_trees` the number of call stacks, each `refcnt` the number of references, modulo 2 ^ 64,
-- and memory is not exhausted. Of the other counters it says nothing: the code leaves `bytes_used`,
-- `total_allocations` and the counts of leaks wrong after some failed reallocations and large unmappings.
-- `AreLeaks` of Process.Books.Leaks says when the counts of leaks are right.
--
-- A call stack has to lie in mapped files (`IsMapped`), since `resolv_address` follows a null pointer
-- otherwise. The switch of `client_func` is followed for a known process; MT_FORK, MT_ABOUT_EXIT and
-- MT_DETACH are not, and Reach leaves out the attaches, which empty the books.
--
-- Parameters: the rebalancing of rbtree.c, the options that stop on the first error and make the client
-- interactive, the name that bfd has for an address in a mapped file, as `bin_file_lookup` of
-- client/binfile.c gives it, whether a name matches an ignore
-- expression (regexec), and the contents of memory that `malloc` has not cleared (`Env`); `regcomp`; the
-- division of doubles that `sort_average` compares; the hash and comparison of the keys of a hash table;
-- the parameters, the result and the stack of a traced call, which ptrace and the unwinder find (`Call`);
-- ptrace (`Ptrace`: where it reads and writes, and whether a failure is EIO). Not modelled: printed
-- output, the symbols of bfd, `process_duplicate`, connections and threads; of the server the dispatch of
-- events, the other messages, the options, the hardware breakpoints and ARM's
-- `do_singlestep`; dwarf.c, which is derived from libunwind.
pub mod Base
pub mod Dict
pub mod Rbtree
pub mod Message
pub mod Process
pub mod Client
pub mod Server
