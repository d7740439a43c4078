-- ===== src/Tests/Frees.antt =====
-- The memory of Tests/Analyses.antt is freed, in
-- src/core/basic/crash_investigator_alloc_dealloc_analyze.cpp.
use old_crash_investigator.Base.{
  ◌≡◌, ◌≢◌, ◌&&◌, refl, inl, inr, true, false, exited, arith, Run, ok, stop, Returns,
}
use old_crash_investigator.Analyzer.Operators.{test_operator_delete}
use old_crash_investigator.Analyzer.Operators.Delete.{locked}
use old_crash_investigator.Analyzer.Operators.Delete.Once.{FreedWith, test_operator_delete-returns}
use old_crash_investigator.Analyzer.Keeps.{IsReadable}
use old_crash_investigator.Analyzer.Operators.Delete.Wrong.{wrong_routine-exits}
use old_crash_investigator.Analyzer.State.{
  allocated, State, init_backtrace_data_for_current_stack, mallocn, freen,
}
use old_crash_investigator.Analyzer.Track.{take_stack_out, is_allocated, same_type}
use old_crash_investigator.Failure.{MemoryType}
use old_crash_investigator.RawAlloc
use old_crash_investigator.RawAlloc.{Libc, Raw}
use old_crash_investigator.Tests.Analyses.{
  libc, env, item, entry, start, one_memory, start-IsOutside, entry_found, right_kind, frames,
  state_of, captured_at, captured_runs, raw, trace, uses_default,
}

abbrev taken_out : State libc
taken_out = state_of (take_stack_out libc env 300 (locked libc (captured_at (start item))))

abbrev raw_of : Run (Raw libc) → Raw libc
raw_of (ok r) = r
raw_of (stop e) = raw

taken_out_runs :
    take_stack_out libc env 300 (locked libc (captured_at (start item))) ≡ ok (tt, taken_out)
unfolding test_operator_delete old_crash_investigator.Analyzer.Track.with_handler
    old_crash_investigator.Analyzer.Track.set_allocing
    old_crash_investigator.Analyzer.Operators.delete_tracked init_backtrace_data_for_current_stack
    mallocn old_crash_investigator.RawAlloc.mallocn old_crash_investigator.RawAlloc.ensure_inited
    old_crash_investigator.RawAlloc.orig_malloc old_crash_investigator.Analyzer.State.put_trace
    old_crash_investigator.Base.update old_crash_investigator.Backtrace.init_backtrace_data
    old_crash_investigator.Backtrace.take old_crash_investigator.Backtrace.drop
    old_crash_investigator.Analyzer.State.lock old_crash_investigator.Analyzer.State.unlock
    old_crash_investigator.Analyzer.State.find_memory_item
    old_crash_investigator.HashItems.find_entry old_crash_investigator.HashItems.find_loop
    old_crash_investigator.HashItems.load old_crash_investigator.Analyzer.State.memory_item_at
    is_allocated same_type old_crash_investigator.Analyzer.Operators.delete_allocated
    old_crash_investigator.Analyzer.Track.take_stack_out
    old_crash_investigator.Analyzer.State.find_stack_item
    old_crash_investigator.Analyzer.State.hash_of_trace
    old_crash_investigator.Analyzer.State.same_trace
    old_crash_investigator.Backtrace.hash_of_the_stack old_crash_investigator.Backtrace.hash_loop
    old_crash_investigator.Backtrace.is_the_same_stack old_crash_investigator.Backtrace.frames_equal
    old_crash_investigator.Analyzer.Track.decrement_in_assert
    old_crash_investigator.Analyzer.State.stack_count_at
    old_crash_investigator.Analyzer.State.set_stack_count
    old_crash_investigator.HashItems.set_second old_crash_investigator.HashItems.modify
    old_crash_investigator.Analyzer.State.remove_stack_item
    old_crash_investigator.HashItems.remove_entry old_crash_investigator.HashItems.unlink_chain
    old_crash_investigator.HashItems.unlink_list old_crash_investigator.HashItems.modify_unless_null
    freen old_crash_investigator.RawAlloc.freen old_crash_investigator.RawAlloc.glibc_dealloc
    old_crash_investigator.Analyzer.State.set_memory_item
taken_out_runs = refl

freed_runs :
    RawAlloc.freen libc 7000 taken_out.raw ≡ ok (raw_of (RawAlloc.freen libc 7000 taken_out.raw))
unfolding test_operator_delete old_crash_investigator.Analyzer.Track.with_handler
    old_crash_investigator.Analyzer.Track.set_allocing
    old_crash_investigator.Analyzer.Operators.delete_tracked init_backtrace_data_for_current_stack
    mallocn old_crash_investigator.RawAlloc.mallocn old_crash_investigator.RawAlloc.ensure_inited
    old_crash_investigator.RawAlloc.orig_malloc old_crash_investigator.Analyzer.State.put_trace
    old_crash_investigator.Base.update old_crash_investigator.Backtrace.init_backtrace_data
    old_crash_investigator.Backtrace.take old_crash_investigator.Backtrace.drop
    old_crash_investigator.Analyzer.State.lock old_crash_investigator.Analyzer.State.unlock
    old_crash_investigator.Analyzer.State.find_memory_item
    old_crash_investigator.HashItems.find_entry old_crash_investigator.HashItems.find_loop
    old_crash_investigator.HashItems.load old_crash_investigator.Analyzer.State.memory_item_at
    is_allocated same_type old_crash_investigator.Analyzer.Operators.delete_allocated
    old_crash_investigator.Analyzer.Track.take_stack_out
    old_crash_investigator.Analyzer.State.find_stack_item
    old_crash_investigator.Analyzer.State.hash_of_trace
    old_crash_investigator.Analyzer.State.same_trace
    old_crash_investigator.Backtrace.hash_of_the_stack old_crash_investigator.Backtrace.hash_loop
    old_crash_investigator.Backtrace.is_the_same_stack old_crash_investigator.Backtrace.frames_equal
    old_crash_investigator.Analyzer.Track.decrement_in_assert
    old_crash_investigator.Analyzer.State.stack_count_at
    old_crash_investigator.Analyzer.State.set_stack_count
    old_crash_investigator.HashItems.set_second old_crash_investigator.HashItems.modify
    old_crash_investigator.Analyzer.State.remove_stack_item
    old_crash_investigator.HashItems.remove_entry old_crash_investigator.HashItems.unlink_chain
    old_crash_investigator.HashItems.unlink_list old_crash_investigator.HashItems.modify_unless_null
    freen old_crash_investigator.RawAlloc.freen old_crash_investigator.RawAlloc.glibc_dealloc
    old_crash_investigator.Analyzer.State.set_memory_item
freed_runs = refl

test_operator_delete-returns_example :
    Returns (test_operator_delete libc env 7000 MemoryType.malloc 1 frames (start item)) λ r.
      FreedWith libc env 7000 MemoryType.malloc 1 frames
        (start item)
        (one_memory item)
        entry
        20000
        (raw_of (RawAlloc.freen libc 7000 taken_out.raw))
        r.1
test_operator_delete-returns_example =
    test_operator_delete-returns libc env 7000 MemoryType.malloc 1 frames (start item)
      (captured_at (start item)) taken_out (one_memory item) entry 20000
      (raw_of (RawAlloc.freen libc 7000 taken_out.raw)) (omega arith) (start-IsOutside item)
      (entry_found item) right_kind (captured_runs item) taken_out_runs freed_runs

wrong_kind : same_type MemoryType.malloc MemoryType.new ≡ false
unfolding same_type
wrong_kind = refl

live : is_allocated allocated ≡ true
unfolding is_allocated
live = refl

alloc_lives : IsReadable libc taken_out 300
unfolding test_operator_delete old_crash_investigator.Analyzer.Track.with_handler
    old_crash_investigator.Analyzer.Track.set_allocing
    old_crash_investigator.Analyzer.Operators.delete_tracked init_backtrace_data_for_current_stack
    mallocn old_crash_investigator.RawAlloc.mallocn old_crash_investigator.RawAlloc.ensure_inited
    old_crash_investigator.RawAlloc.orig_malloc old_crash_investigator.Analyzer.State.put_trace
    old_crash_investigator.Base.update old_crash_investigator.Backtrace.init_backtrace_data
    old_crash_investigator.Backtrace.take old_crash_investigator.Backtrace.drop
    old_crash_investigator.Analyzer.State.lock old_crash_investigator.Analyzer.State.unlock
    old_crash_investigator.Analyzer.State.find_memory_item
    old_crash_investigator.HashItems.find_entry old_crash_investigator.HashItems.find_loop
    old_crash_investigator.HashItems.load old_crash_investigator.Analyzer.State.memory_item_at
    is_allocated same_type old_crash_investigator.Analyzer.Operators.delete_allocated
    old_crash_investigator.Analyzer.Track.take_stack_out
    old_crash_investigator.Analyzer.State.find_stack_item
    old_crash_investigator.Analyzer.State.hash_of_trace
    old_crash_investigator.Analyzer.State.same_trace
    old_crash_investigator.Backtrace.hash_of_the_stack old_crash_investigator.Backtrace.hash_loop
    old_crash_investigator.Backtrace.is_the_same_stack old_crash_investigator.Backtrace.frames_equal
    old_crash_investigator.Analyzer.Track.decrement_in_assert
    old_crash_investigator.Analyzer.State.stack_count_at
    old_crash_investigator.Analyzer.State.set_stack_count
    old_crash_investigator.HashItems.set_second old_crash_investigator.HashItems.modify
    old_crash_investigator.Analyzer.State.remove_stack_item
    old_crash_investigator.HashItems.remove_entry old_crash_investigator.HashItems.unlink_chain
    old_crash_investigator.HashItems.unlink_list old_crash_investigator.HashItems.modify_unless_null
    freen old_crash_investigator.RawAlloc.freen old_crash_investigator.RawAlloc.glibc_dealloc
    old_crash_investigator.Analyzer.State.set_memory_item
alloc_lives = inr (trace, refl)

call_lives : IsReadable libc taken_out 20000
unfolding test_operator_delete old_crash_investigator.Analyzer.Track.with_handler
    old_crash_investigator.Analyzer.Track.set_allocing
    old_crash_investigator.Analyzer.Operators.delete_tracked init_backtrace_data_for_current_stack
    mallocn old_crash_investigator.RawAlloc.mallocn old_crash_investigator.RawAlloc.ensure_inited
    old_crash_investigator.RawAlloc.orig_malloc old_crash_investigator.Analyzer.State.put_trace
    old_crash_investigator.Base.update old_crash_investigator.Backtrace.init_backtrace_data
    old_crash_investigator.Backtrace.take old_crash_investigator.Backtrace.drop
    old_crash_investigator.Analyzer.State.lock old_crash_investigator.Analyzer.State.unlock
    old_crash_investigator.Analyzer.State.find_memory_item
    old_crash_investigator.HashItems.find_entry old_crash_investigator.HashItems.find_loop
    old_crash_investigator.HashItems.load old_crash_investigator.Analyzer.State.memory_item_at
    is_allocated same_type old_crash_investigator.Analyzer.Operators.delete_allocated
    old_crash_investigator.Analyzer.Track.take_stack_out
    old_crash_investigator.Analyzer.State.find_stack_item
    old_crash_investigator.Analyzer.State.hash_of_trace
    old_crash_investigator.Analyzer.State.same_trace
    old_crash_investigator.Backtrace.hash_of_the_stack old_crash_investigator.Backtrace.hash_loop
    old_crash_investigator.Backtrace.is_the_same_stack old_crash_investigator.Backtrace.frames_equal
    old_crash_investigator.Analyzer.Track.decrement_in_assert
    old_crash_investigator.Analyzer.State.stack_count_at
    old_crash_investigator.Analyzer.State.set_stack_count
    old_crash_investigator.HashItems.set_second old_crash_investigator.HashItems.modify
    old_crash_investigator.Analyzer.State.remove_stack_item
    old_crash_investigator.HashItems.remove_entry old_crash_investigator.HashItems.unlink_chain
    old_crash_investigator.HashItems.unlink_list old_crash_investigator.HashItems.modify_unless_null
    freen old_crash_investigator.RawAlloc.freen old_crash_investigator.RawAlloc.glibc_dealloc
    old_crash_investigator.Analyzer.State.set_memory_item
call_lives = inr (_, refl)

wrong_routine-exits_example :
    test_operator_delete libc env 7000 MemoryType.new 1 frames (start item) ≡ stop (exited 1)
wrong_routine-exits_example =
    wrong_routine-exits libc env 7000 MemoryType.new 1 frames (start item)
      (captured_at (start item)) taken_out (one_memory item) entry 20000 (omega arith)
      (start-IsOutside item) (entry_found item) live wrong_kind (uses_default item)
      (captured_runs item) taken_out_runs
      (record { alloc = alloc_lives; dealloc = inl refl; analize = call_lives })
