-- ===== src/Tests/Reallocations.antt =====
-- The memory of Tests/Analyses.antt cannot be moved, in
-- src/core/basic/crash_investigator_alloc_dealloc_analyze.cpp.
use old_crash_investigator.Base.{
  ℕ, ◌≡◌, ◌≢◌, refl, true, false, none, some, [], ◌∷◌, ◌&&◌, arith, Run, ok, stop, Returns, null,
}
use old_crash_investigator.Analyzer.Monad.{◌>>=◌}
use old_crash_investigator.Analyzer.Monad.Chain.{Stops}
use old_crash_investigator.Analyzer.Operators.{test_operator_realloc, test_operator_delete}
use old_crash_investigator.Analyzer.Operators.Allocate.{new_item}
use old_crash_investigator.Analyzer.Operators.Delete.{entry_of, IsOutside, entered, locked}
use old_crash_investigator.Analyzer.Operators.Reallocate.{test_operator_realloc-moves}
use old_crash_investigator.Analyzer.Operators.Record.{entry_at}
use old_crash_investigator.Analyzer.Operators.Retire.{moved_item, retire}
use old_crash_investigator.Analyzer.Report.Exits.{UsesDefault}
use old_crash_investigator.Analyzer.State.{
  State, init_backtrace_data_for_current_stack, mallocn, reallocn,
}
use old_crash_investigator.Analyzer.Track.{returned, record_memory_item, count_stack}
use old_crash_investigator.Failure.{MemoryType}
use old_crash_investigator.HashItems.Assign.{assign_at}
use old_crash_investigator.RawAlloc.{Libc}
use old_crash_investigator.Tests.Analyses.{
  libc, env, item, entry, start, one_memory, start-IsOutside, entry_found, right_kind, uses_default,
  frames,
}

-- A C library whose `realloc` returns this address.
abbrev short : ℕ → Libc
short x = record libc { realloc_fn = λ p n h. ok (x, h) }

abbrev begun : (x : ℕ) → State (short x)
begun x = record {
  raw = record {
    mem_pool = (start item).raw.mem_pool;
    once_done = true;
    orig = λ _. true;
    is_init_function = false;
    is_not_inited = false;
    heap = 20000;
  };
  traces = (start item).traces;
  memory_items = (start item).memory_items;
  stack_items = (start item).stack_items;
  is_allocing_or_deallocing = false;
  max_number_of_alloc_from_the_same_stack = 10;
  handler_memory = none;
  clbk_data = (start item).clbk_data;
  locked = false;
  printed = [];
}

begun-IsOutside : (x : ℕ) → IsOutside (short x) (begun x) (one_memory item)
begun-IsOutside x = record {
  flag = refl;
  unlocked = refl;
  contains = (start-IsOutside item).contains;
}

begun_default : (x : ℕ) → UsesDefault (short x) env (begun x)
unfolding old_crash_investigator.Failure.or_default
begun_default x = uses_default item

abbrev state_in : (x : ℕ) → {A : Type 0} → Run (A × State (short x)) → State (short x)
state_in x (ok (a, s)) = s
state_in x (stop e) = begun x

abbrev captured : (x : ℕ) → State (short x)
captured x =
    state_in x
      (init_backtrace_data_for_current_stack (short x) 2 frames (entered (short x) (begun x)))

abbrev moved : (x : ℕ) → State (short x)
moved x = state_in x (reallocn (short x) 7000 48 (locked (short x) (captured x)))

abbrev retired : (x : ℕ) → State (short x)
retired x = state_in x (retire (short x) env entry (moved x))

abbrev counted : (x : ℕ) → State (short x)
counted x = state_in x (
    (record_memory_item (short x) env x (new_item MemoryType.malloc x 20000) >>= λ _.
    count_stack (short x) env 20000)
      (retired x))

captured_runs :
    (x : ℕ)
    → init_backtrace_data_for_current_stack (short x) 2 frames (entered (short x) (begun x))
      ≡ ok (20000, captured x)
unfolding init_backtrace_data_for_current_stack mallocn old_crash_investigator.RawAlloc.mallocn
    old_crash_investigator.RawAlloc.ensure_inited old_crash_investigator.RawAlloc.orig_malloc
    old_crash_investigator.Analyzer.State.put_trace
captured_runs x = refl

moved_runs : (x : ℕ) → reallocn (short x) 7000 48 (locked (short x) (captured x)) ≡ ok (x, moved x)
unfolding init_backtrace_data_for_current_stack mallocn old_crash_investigator.RawAlloc.mallocn
    old_crash_investigator.RawAlloc.ensure_inited old_crash_investigator.RawAlloc.orig_malloc
    old_crash_investigator.Analyzer.State.put_trace reallocn
    old_crash_investigator.RawAlloc.reallocn old_crash_investigator.RawAlloc.glibc_realloc
moved_runs x = refl

retired_runs : (x : ℕ) → retire (short x) env entry (moved x) ≡ ok (tt, retired x)
unfolding init_backtrace_data_for_current_stack mallocn old_crash_investigator.RawAlloc.mallocn
    old_crash_investigator.RawAlloc.ensure_inited old_crash_investigator.RawAlloc.orig_malloc
    old_crash_investigator.Analyzer.State.put_trace reallocn
    old_crash_investigator.RawAlloc.reallocn old_crash_investigator.RawAlloc.glibc_realloc
    old_crash_investigator.Analyzer.Track.take_stack_out old_crash_investigator.Analyzer.State.freen
    old_crash_investigator.RawAlloc.freen old_crash_investigator.RawAlloc.glibc_dealloc
    old_crash_investigator.Analyzer.State.find_stack_item
    old_crash_investigator.Analyzer.State.stack_count_at
    old_crash_investigator.Analyzer.State.set_stack_count
    old_crash_investigator.Analyzer.State.set_memory_item
    old_crash_investigator.Analyzer.State.remove_stack_item
    old_crash_investigator.HashItems.find_entry old_crash_investigator.HashItems.find_loop
    old_crash_investigator.HashItems.load old_crash_investigator.HashItems.modify
    old_crash_investigator.HashItems.modify_unless_null
    old_crash_investigator.HashItems.remove_entry old_crash_investigator.HashItems.set_second
    old_crash_investigator.HashItems.unlink_chain old_crash_investigator.HashItems.unlink_list
    old_crash_investigator.Analyzer.State.hash_of_trace
    old_crash_investigator.Analyzer.State.same_trace
    old_crash_investigator.Backtrace.init_backtrace_data
    old_crash_investigator.Backtrace.hash_of_the_stack old_crash_investigator.Backtrace.hash_loop
    old_crash_investigator.Backtrace.is_the_same_stack old_crash_investigator.Backtrace.frames_equal
    old_crash_investigator.Base.update old_crash_investigator.Backtrace.take
    old_crash_investigator.Backtrace.drop
retired_runs x = refl

abbrev node : (x : ℕ) → Run (ℕ × State (short x))
node x = mallocn (short x) 80 (retired x)

node_runs : (x : ℕ) → node x ≡ ok (20200, state_in x (node x))
unfolding init_backtrace_data_for_current_stack mallocn old_crash_investigator.RawAlloc.mallocn
    old_crash_investigator.RawAlloc.ensure_inited old_crash_investigator.RawAlloc.orig_malloc
    old_crash_investigator.Analyzer.State.put_trace reallocn
    old_crash_investigator.RawAlloc.reallocn old_crash_investigator.RawAlloc.glibc_realloc
    old_crash_investigator.Analyzer.Track.take_stack_out old_crash_investigator.Analyzer.State.freen
    old_crash_investigator.RawAlloc.freen old_crash_investigator.RawAlloc.glibc_dealloc
    old_crash_investigator.Analyzer.State.find_stack_item
    old_crash_investigator.Analyzer.State.stack_count_at
    old_crash_investigator.Analyzer.State.set_stack_count
    old_crash_investigator.Analyzer.State.set_memory_item
    old_crash_investigator.Analyzer.State.remove_stack_item
    old_crash_investigator.HashItems.find_entry old_crash_investigator.HashItems.find_loop
    old_crash_investigator.HashItems.load old_crash_investigator.HashItems.modify
    old_crash_investigator.HashItems.modify_unless_null
    old_crash_investigator.HashItems.remove_entry old_crash_investigator.HashItems.set_second
    old_crash_investigator.HashItems.unlink_chain old_crash_investigator.HashItems.unlink_list
    old_crash_investigator.Analyzer.State.hash_of_trace
    old_crash_investigator.Analyzer.State.same_trace
    old_crash_investigator.Backtrace.init_backtrace_data
    old_crash_investigator.Backtrace.hash_of_the_stack old_crash_investigator.Backtrace.hash_loop
    old_crash_investigator.Backtrace.is_the_same_stack old_crash_investigator.Backtrace.frames_equal
    old_crash_investigator.Base.update old_crash_investigator.Backtrace.take
    old_crash_investigator.Backtrace.drop
node_runs x = refl

fail_missing : entry_of 0 (one_memory item) ≡ none
unfolding old_crash_investigator.HashItems.Lookup.find_in
fail_missing = refl

fail_counted :
    (record_memory_item (short 0) env 0 (new_item MemoryType.malloc 0 20000) >>= λ _.
    count_stack (short 0) env 20000)
      (retired 0)
    ≡ ok (false, counted 0)
unfolding init_backtrace_data_for_current_stack mallocn old_crash_investigator.RawAlloc.mallocn
    old_crash_investigator.RawAlloc.ensure_inited old_crash_investigator.RawAlloc.orig_malloc
    old_crash_investigator.Analyzer.State.put_trace reallocn
    old_crash_investigator.RawAlloc.reallocn old_crash_investigator.RawAlloc.glibc_realloc
    old_crash_investigator.Analyzer.Track.take_stack_out old_crash_investigator.Analyzer.State.freen
    old_crash_investigator.RawAlloc.freen old_crash_investigator.RawAlloc.glibc_dealloc
    old_crash_investigator.Analyzer.State.find_stack_item
    old_crash_investigator.Analyzer.State.stack_count_at
    old_crash_investigator.Analyzer.State.set_stack_count
    old_crash_investigator.Analyzer.State.set_memory_item
    old_crash_investigator.Analyzer.State.remove_stack_item
    old_crash_investigator.HashItems.find_entry old_crash_investigator.HashItems.find_loop
    old_crash_investigator.HashItems.load old_crash_investigator.HashItems.modify
    old_crash_investigator.HashItems.modify_unless_null
    old_crash_investigator.HashItems.remove_entry old_crash_investigator.HashItems.set_second
    old_crash_investigator.HashItems.unlink_chain old_crash_investigator.HashItems.unlink_list
    old_crash_investigator.Analyzer.State.hash_of_trace
    old_crash_investigator.Analyzer.State.same_trace
    old_crash_investigator.Backtrace.init_backtrace_data
    old_crash_investigator.Backtrace.hash_of_the_stack old_crash_investigator.Backtrace.hash_loop
    old_crash_investigator.Backtrace.is_the_same_stack old_crash_investigator.Backtrace.frames_equal
    old_crash_investigator.Base.update old_crash_investigator.Backtrace.take
    old_crash_investigator.Backtrace.drop record_memory_item count_stack
    old_crash_investigator.Analyzer.State.find_memory_item
    old_crash_investigator.Analyzer.State.add_memory_item
    old_crash_investigator.Analyzer.State.add_stack_item
    old_crash_investigator.HashItems.add_entry_with_known_hash
fail_counted = refl

-- Where `realloc` fails.
test_operator_realloc-moves_example :
    Returns (test_operator_realloc (short 0) env 7000 48 1 frames (begun 0)) λ q.
      (q.0 ≡ returned null)
      × IsOutside (short 0) q.1 (
          entry_at 20200 0 (new_item MemoryType.malloc 0 20000)
          ∷ assign_at 400 (moved_item entry) (one_memory item))
      × (q.1.clbk_data ≡ (begun 0).clbk_data)
      × Stops (test_operator_delete (short 0) env 7000 MemoryType.malloc 1 frames q.1)
test_operator_realloc-moves_example =
    test_operator_realloc-moves (short 0) env (begun 0) (captured 0) (moved 0) (retired 0)
      (state_in 0 (node 0)) (counted 0) (one_memory item) entry 7000 48 20000 0 20200 1 frames
      (omega arith) (omega arith) (begun-IsOutside 0) (entry_found item) right_kind
      (captured_runs 0) (moved_runs 0) (omega arith) fail_missing (retired_runs 0) (node_runs 0)
      (omega arith) refl fail_counted MemoryType.malloc 1 frames (begun_default 0)
