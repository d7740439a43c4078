-- ===== src/Tests/Allocations.antt =====
-- The thread of Tests/Analyses.antt allocates 24 bytes more, in
-- src/core/basic/crash_investigator_alloc_dealloc_analyze.cpp.
use old_crash_investigator.Base.{
  ℕ, ◌<◌, Run, size_mod, ◌≡◌, ◌≢◌, refl, false, none, some, ◌∷◌, arith, ok, Returns, null,
}
use old_crash_investigator.Analyzer.Monad.{◌>>=◌}
use old_crash_investigator.Analyzer.Operators.{test_operator_alloc}
use old_crash_investigator.Analyzer.Operators.Allocate.{new_item, test_operator_alloc-tracks}
use old_crash_investigator.Analyzer.Operators.Delete.{entry_of, IsOutside, entered, locked}
use old_crash_investigator.Analyzer.Operators.Record.{entry_at}
use old_crash_investigator.Analyzer.State.{State, init_backtrace_data_for_current_stack, mallocn}
use old_crash_investigator.Analyzer.Track.{
  returned, add_new_allocated_memory, record_memory_item, count_stack,
}
use old_crash_investigator.Failure.{MemoryType}
use old_crash_investigator.Tests.Analyses.{
  libc, env, item, start, one_memory, start-IsOutside, frames, state_of,
}

abbrev given : State libc
given = state_of (mallocn libc 24 (entered libc (start item)))

abbrev captured : State libc
captured = state_of (init_backtrace_data_for_current_stack libc 3 frames given)

abbrev counted : State libc
counted = state_of (
    (record_memory_item libc env 20000 (new_item MemoryType.malloc 20000 20100) >>= λ _.
    count_stack libc env 20100)
      (locked libc captured))

given_runs : mallocn libc 24 (entered libc (start item)) ≡ ok (20000, given)
unfolding mallocn old_crash_investigator.RawAlloc.mallocn
    old_crash_investigator.RawAlloc.ensure_inited old_crash_investigator.RawAlloc.orig_malloc
given_runs = refl

captured_runs : init_backtrace_data_for_current_stack libc 3 frames given ≡ ok (20100, captured)
unfolding init_backtrace_data_for_current_stack mallocn old_crash_investigator.RawAlloc.mallocn
    old_crash_investigator.RawAlloc.ensure_inited old_crash_investigator.RawAlloc.orig_malloc
    old_crash_investigator.Analyzer.State.put_trace
captured_runs = refl

new_missing : entry_of 20000 (one_memory item) ≡ none
unfolding old_crash_investigator.HashItems.Lookup.find_in
new_missing = refl

node_runs :
    mallocn libc 80 (locked libc captured)
    ≡ ok (20300, state_of (mallocn libc 80 (locked libc captured)))
unfolding init_backtrace_data_for_current_stack mallocn old_crash_investigator.RawAlloc.mallocn
    old_crash_investigator.RawAlloc.ensure_inited old_crash_investigator.RawAlloc.orig_malloc
    old_crash_investigator.Analyzer.State.put_trace
node_runs = refl

counted_runs :
    (record_memory_item libc env 20000 (new_item MemoryType.malloc 20000 20100) >>= λ _.
    count_stack libc env 20100)
      (locked libc captured)
    ≡ ok (false, counted)
unfolding init_backtrace_data_for_current_stack mallocn old_crash_investigator.RawAlloc.mallocn
    old_crash_investigator.RawAlloc.ensure_inited old_crash_investigator.RawAlloc.orig_malloc
    old_crash_investigator.Analyzer.State.put_trace record_memory_item count_stack
    old_crash_investigator.Analyzer.State.find_memory_item
    old_crash_investigator.Analyzer.State.find_stack_item
    old_crash_investigator.Analyzer.State.add_memory_item
    old_crash_investigator.Analyzer.State.add_stack_item old_crash_investigator.HashItems.find_entry
    old_crash_investigator.HashItems.find_loop old_crash_investigator.HashItems.load
    old_crash_investigator.HashItems.modify old_crash_investigator.HashItems.modify_unless_null
    old_crash_investigator.HashItems.add_entry_with_known_hash
    old_crash_investigator.Analyzer.State.hash_of_trace
    old_crash_investigator.Analyzer.State.same_trace
    old_crash_investigator.Backtrace.init_backtrace_data
    old_crash_investigator.Backtrace.hash_of_the_stack old_crash_investigator.Backtrace.hash_loop
    old_crash_investigator.Backtrace.is_the_same_stack old_crash_investigator.Backtrace.frames_equal
    old_crash_investigator.Base.update old_crash_investigator.Backtrace.take
    old_crash_investigator.Backtrace.drop
counted_runs = refl

test_operator_alloc-tracks_example :
    Returns (test_operator_alloc libc env 24 MemoryType.malloc false 1 frames (start item)) λ r.
      (r.0 ≡ returned 20000)
      × IsOutside libc r.1
          (entry_at 20300 20000 (new_item MemoryType.malloc 20000 20100) ∷ one_memory item)
      × (entry_of 20000
            (entry_at 20300 20000 (new_item MemoryType.malloc 20000 20100) ∷ one_memory item)
          ≡ some (entry_at 20300 20000 (new_item MemoryType.malloc 20000 20100)))
      × (r.1.clbk_data ≡ (start item).clbk_data)
test_operator_alloc-tracks_example =
    test_operator_alloc-tracks libc env (start item) given captured
      (state_of (mallocn libc 80 (locked libc captured))) counted (one_memory item) 24 20000 20100
      20300 1 MemoryType.malloc false frames (start-IsOutside item) (omega arith) given_runs
      (omega arith) new_missing captured_runs node_runs (omega arith) refl counted_runs

-- 10 bytes at a multiple of 64: the space is 82 bytes at 20000, and the object lies at 20032.
abbrev added : Run (ℕ × State libc)
added = add_new_allocated_memory libc env MemoryType.new 20000 2 frames given
