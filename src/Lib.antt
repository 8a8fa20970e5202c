-- ===== src/Lib.antt =====
-- Verification of secpoline, a syscall monitor that isolates itself from the application with
-- memory protection keys.
--
-- The page manager (src/syscall_monitor/virt_page_manager.cpp, src/include/virt_page_manager.h)
-- keeps for each mapped range its protection, flags and compartment (the cid: 0 is the monitor, 1
-- the application). Each handler of a mapping syscall asks it first. Its state is a linked list
-- of groups of pages, ordered by address, and a free list of nodes.
--
-- The scanner (src/syscall_monitor/erim.cpp, src/include/erim.h) looks for instructions that
-- would undo the isolation on each page that becomes executable, and keeps the list of unsafe
-- pages. It asks the page manager for the neighbours of a page. The descriptor handlers
-- (src/include/virtualize_files.h, src/syscall_handlers/virtualize_files.cpp) keep a bitmap of
-- the application's descriptors and guard the monitor's own.
--
-- The spinlock (src/include/rigtorp_spinlock.h) stands on its own. The handler table
-- (src/secpoline.cpp) decides which handlers each syscall runs.
--
-- The mapping handlers (src/syscall_handlers/virtualize_maps.cpp) use the page manager and the
-- scanner.
--
-- The segfault handler (src/segfault_handler) switches unsafe pages between writable and
-- executable with the scanner, the page manager and the breakpoint controller.
--
-- The signal handlers (src/syscall_monitor/vIrTuAlIzE_sIgNaLs.cpp) keep the application's actions
-- and ask the kernel through the meta monitor (src/syscall_handlers/meta_monitor.cpp).
--
-- Files:
--   Base           64-bit pointers, Boolean tests, lists, and code that may kill the process.
--   Spinlock       the spinlock, as atomic steps of threads.
--   VirtPage       `struct virt_page` and the two overlap functions; VirtPage/View is the abstract
--                  view of a list of groups, a map from addresses to attributes.
--   PageManager    State: the class, the insertion that ends add_page_locked, and the node pool;
--                  Lookup: lookup_addr, lookup_range, lookup_range_allow_gaps;
--                  Remove: remove_page; MapFixed: remove_page_map_fixed_locked; Add: add_page;
--                  Mprotect: update_mprotect; Resize: update_size.
--                  The children of each are its proofs; Splice is the frame for the edits in place.
--   Erim           Pattern: the byte patterns and the benign sequences; Scan: the scan loop and the
--                  loop over a page; Pages: the list of unsafe pages; Region: erim_memScanRegion.
--   Files          Bitmap: fd_bitmap; Handlers: the handlers of virtualize_files.cpp.
--   Table          add_handler, the rows of handlers, and the dispatch.
--   Maps           Mremap (handle_mremap), World (the state, and the calls of the kernel), Exec (the
--                  scans of executable mappings), Mmap (secpoline_mmap), Protect (mprotect in both
--                  monitors), Exclusive.
--   Segfault       the breakpoints and the segfault handler: Pages (the state, and
--                  set_page_non_executable), Breakpoints, Bounds, Close, Evict, Watch, Guard (what
--                  they do), Handler, InStep (the protections that the kernel has), Fork (the
--                  breakpoints of a new process), Threads (the list of threads).
--   Copies         memcpy_untrusted_to_trusted, memcpy_trusted_to_untrusted and mpk_check.
--   Print          The printing functions of include/nolibc_util.h, with the bytes as a list.
--   Signals        Kernel (rt_sigaction and the meta monitor), Actions (SignalHandlers), Defaults.
--   Tests          runs of the theorems on concrete inputs.
--
-- Correspondence. A list of nodes is a list of records in the order of the `next` pointers: the
-- code keeps one list, so an edit through a pointer is an edit of the record at that place. A
-- node has no other identity than its start address. The free list is a count. `ud2`, a failed
-- assertion and a read through NULL are the outcome `trap`. Pointers and sizes are numbers below
-- 2 ^ 64 with the wrap-around of the sums written out; in the scanner and in the scans of
-- mappings, where pointers go from one page to the next, sums are plain, and a protection is a
-- number that an int holds. The loops over lists need no fuel; the loop over a page takes the
-- length of the page as fuel, since each round goes on by four bytes or more; the loop over the
-- pages of a buffer takes one round for each page from the first to the last; a printed number
-- has at most the 31 places of its buffer. Memory is a function from addresses to bytes, and the
-- answers of the kernel are arguments; the kernel's answers to mmap in refill_free_list are a
-- list in the state.
--
-- Not modelled: the calls of the locks and the selector of syscall user dispatch around each
-- operation of the page manager, the printing of its groups, the assembly, the loader (a C
-- program), the other handlers of the monitors, the handler of SIGTRAP, and the waiting of
-- threads for each other.
pub mod Base
pub mod Spinlock
pub mod VirtPage
pub mod Erim
pub mod Files
pub mod Table
pub mod Maps
pub mod PageManager
pub mod Segfault
pub mod Signals
pub mod Copies
pub mod Print
pub mod Tests
