-- ===== src/Lib.antt =====
-- A model of the crash investigator's core, with theorems on it.
--
-- The program replaces `malloc`, `free`, `new` and `delete`. Each call comes to one of four entry points
-- of src/core/basic/crash_investigator_alloc_dealloc_analyze.cpp, which keep a table of memories and
-- a table of stack traces, and report double frees, frees by the wrong routine and leaks to a
-- callback. The library's own allocations go to the C library, found by `dlsym`; what `dlsym` itself
-- allocates comes from a memory pool.
--
-- The parts, from the lowest up:
-- - MemoryPool: src/cpputilsm/cpputilsm_memorypool.cpp and src/include/cpputilsm/memorypool.hpp. A pool
--   is its members, the headers at the offsets of its buffer and its bytes. `alloc`, `calloc`,
--   `realloc`, `dealloc` and `dealloc_checked_memory` are the methods of these names. The children
--   say what a pool stands for (Blocks, Layout), and treat one operation each; Client is a client of
--   the pool, and History says how its calls go.
-- - HashItems: src/include/cpputilsm/hashitemsbyptr.hpp and hashitemsbyptr.impl.hpp. A table is its
--   buckets, its first item and the items at their addresses. Contents says which entries a table
--   holds; Insert, Lookup, Assign, Removal and Destroy treat the operations.
-- - Backtrace: src/core/backtrace/crash_investigator_backtrace_unix.cpp, without the translation of
--   addresses to lines at its end. The stack at a call is an argument. Windows is
--   crash_investigator_backtrace_windows.cpp, with the Windows API as a parameter.
-- - RawAlloc: src/core/basic/crash_investigator_alloc_dealloc_unix.cpp. The C library is the parameter
--   `Libc`: its heap, its four functions, what `dlsym` finds and which calls `dlsym` makes.
--   Windows is crash_investigator_alloc_dealloc_windows.cpp.
-- - Failure: include/crash_investigator/callback.hpp and types.hpp, the default callback and what it
--   prints.
-- - Analyzer: src/core/basic/crash_investigator_alloc_dealloc_analyze.cpp, and the functions of
--   src/core/basic/crash_investigator_malloc_free.cpp and crash_investigator_new_delete.cpp. Monad has the
--   chains of calls that change the state or stop the program, State the state and the access to it,
--   Report `InitFailureDataAndCallClbk`, Track the tables, Operators the entry points, Aligned the
--   aligned ones, Process the settings, the signal handler and the destructor, Start the static
--   variables and the constructor. Keeps says what the parts leave alone. Of the children of Operators,
--   Record and Allocate treat new memory, Retire and Reallocate memory that `realloc` moves, Delete and
--   Early memory that is given back.
-- - LeakOnly: src/core/analyze/crash_investigator_analyze_leak_only_new_delete.cpp, another analyser, which counts
--   the memories of each stack and reports a leak where a count passes a limit. The state and the access
--   to it stand in LeakOnly, `AllocMem`, `FreeMem` and the set-up in Operations. Consistent says what a
--   state means; Traces, Drop, Counting and Forget treat the steps, Alloc, Free and RoundTrip whole calls,
--   Setup the empty tables, Within and Reach sequences of calls. Windows has the code for Windows
--   alone, and StdHash is crash_investigator_analyze_leak_only_new_delete_std_hash.cpp.
-- - Container: what LeakOnly asks of its hash tables, which a submodule of the repository has: an
--   interface with its promises. NewHash is the table of the file for StdHash, on a list of entries.
-- - Hook: src/core/initial_malloc_free_hook, which hands the runtime's functions on to a structure of
--   pointers on Windows. The Windows API is the parameter `Api`. Install treats the initialisation,
--   Memset the loop for ARM.
-- - Base: shared names and the outcome of a call. Tests: concrete runs.
--
-- Numbers are natural numbers, and sums of `size_t` are taken modulo 2^64. A pointer is an address, 0
-- for null. A call ends normally, or with a failed assertion, undefined behaviour, `exit` or
-- `std::bad_alloc`. Assertions are compiled in; the analyser's own are subject to `ndebug`.
--
-- Loops over pointers run on fuel. In MemoryPool the fuel is the offset of the free space plus 1: the
-- items lie at different offsets below it. In HashItems it is the number of additions plus 1, which no
-- chain exceeds. The theorems on these loops show that this is enough. The fuel of
-- the loop of Hook is an argument.
--
-- In LeakOnly the C library is a parameter with promises of its own: `malloc` returns memory that is not
-- allocated, or null, and `free` takes memory that is allocated, or null. Where a theorem says that memory is
-- plenty, `malloc` never returns null. The memory of a table's entries is not modelled there.
--
-- The model is of one thread. Not modelled: the handler that was installed before, which the destructor
-- puts back; the destructor of `m_handlerMemory`, a type of a submodule; the DWARF translation; the array
-- of names that `backtrace_symbols` allocates and the library gives back at once; the debugger that the
-- report of a leak starts; texts that are printed, of which only the calls and their arguments are kept.
pub mod Base
pub mod Container
pub mod MemoryPool
pub mod Backtrace
pub mod HashItems
pub mod RawAlloc
pub mod Failure
pub mod Analyzer
pub mod LeakOnly
pub mod Hook
pub mod Tests
