-- ===== src/Analyzer.antt =====
-- The analyser of allocations: src/core/basic/crash_investigator_alloc_dealloc_analyze.cpp, and the
-- functions that call it, of src/core/basic/crash_investigator_malloc_free.cpp and
-- src/core/basic/crash_investigator_new_delete.cpp.
pub mod Monad
pub mod State
pub mod Report
pub mod Track
pub mod Operators
pub mod Process
pub mod Start
pub mod Aligned
pub mod Keeps
