-- ===== src/Tests/Analyses.antt =====
-- A thread with one allocation of 24 bytes at 7000, which `malloc` gave, in
-- src/core/basic/crash_investigator_alloc_dealloc_analyze.cpp.
use old_crash_investigator.Base.{
  ◌%◌, ◌≤◌, ℕ, suc, ◌+◌, ◌≡◌, ◌≢◌, refl, inl, inr, Bool, true, false, ◌&&◌, Option, none, some,
  List, [], ◌∷◌, ◌==◌, if◌then◌else◌, arith, Run, ok, stop, exited, Returns, null,
}
use old_crash_investigator.Analyzer.Monad.Chain.{Stops}
use old_crash_investigator.Analyzer.Operators.{
  test_operator_delete, test_operator_alloc, test_operator_calloc, test_operator_realloc,
}
use old_crash_investigator.Analyzer.Operators.Delete.{Memories, entry_of, IsOutside, entered}
use old_crash_investigator.Analyzer.Operators.Delete.Freed.{test_operator_delete-twice}
use old_crash_investigator.Analyzer.Operators.Delete.Wrong.{double_free-exits}
use old_crash_investigator.Analyzer.Operators.Early.{IsEarly, test_operator_delete-early}
use old_crash_investigator.Analyzer.Aligned.{alignment_of}
use old_crash_investigator.Analyzer.Process.{
  destroy_tables, destroy_analyzer, destroy_analyzer-verbose,
}
use old_crash_investigator.Analyzer.Report.{init_failure_data_and_call_clbk}
use old_crash_investigator.Analyzer.Report.Exits.{
  UsesDefault, init_failure_data_and_call_clbk-exits,
}
use old_crash_investigator.Analyzer.State.{
  State, Env, MemoryItem, MemoryStatus, allocated, deallocated, Trace,
  init_backtrace_data_for_current_stack, mallocn, callocn, reallocn, freen,
}
use old_crash_investigator.Backtrace.{Backtrace}
use old_crash_investigator.Analyzer.Track.{record_memory_item, is_allocated, same_type}
use old_crash_investigator.Failure.Default.{is_fatal}
use old_crash_investigator.Failure.{MemoryType, FailureType, or_default}
use old_crash_investigator.HashItems.{Item, Table, empty}
use old_crash_investigator.HashItems.Contents.{Entry, head, has}
use old_crash_investigator.MemoryPool
use old_crash_investigator.MemoryPool.Blocks.{free}
use old_crash_investigator.MemoryPool.Dealloc.{Frees}
use old_crash_investigator.Tests.Pools.{
  two_blocks, two_stack, two_blocks-Represents, two_blocks-IsPlaced, old_block,
}
use old_crash_investigator.RawAlloc.{Libc, Raw}

abbrev pub libc : Libc
libc = record {
  Heap = ℕ;
  malloc_fn = λ n h. (h, h + 100);
  calloc_fn = λ n m h. (h, h + 100);
  realloc_fn = λ p n h. ok (h, h + 100);
  free_fn = λ p h. ok h;
  resolves = λ _. true;
  dlsym_calls = [];
}

abbrev pub env : Env
env = record { symbols = λ _. none; ndebug = false }

abbrev pub raw : Raw libc
raw = record {
  mem_pool =
      MemoryPool.init 1000 500
        (λ _. record { count = 0; is_in_use = false; prev = none; next = none }) (λ _. 0);
  once_done = true;
  orig = λ _. true;
  is_init_function = false;
  is_not_inited = false;
  heap = 20000;
}

abbrev pub item : MemoryItem
item = record {
  type = MemoryType.malloc;
  status = allocated;
  real_address = 7000;
  alloc_trace = 300;
  dealloc_trace = null;
}

-- 7000 = 4096 + 2904; the trace of the allocation has the one frame 5, and so the hash 5.
abbrev pub entry : Entry ℕ MemoryItem
entry = record { ptr = 400; key = 7000; value = item; index = 2904 }

abbrev memories : MemoryItem → Table ℕ MemoryItem
memories m = record {
  buckets = λ i. if 2904 == i then 400 else null;
  first_item = 400;
  items = λ p.
      if p == 400
      then some (record {
        first = 7000;
        second = m;
        index = 2904;
        prev = 0;
        next = 0;
        prev_in_the_list = 0;
        next_in_the_list = 0;
      })
      else none;
  added = 1;
}

abbrev stacks : Table ℕ ℕ
stacks = record {
  buckets = λ i. if 5 == i then 500 else null;
  first_item = 500;
  items = λ p.
      if p == 500
      then some (record {
        first = 300;
        second = 1;
        index = 5;
        prev = 0;
        next = 0;
        prev_in_the_list = 0;
        next_in_the_list = 0;
      })
      else none;
  added = 1;
}

abbrev pub trace : Trace
trace = record { buffer = 310; backtrace = record { pp_buffer = 5 ∷ []; stack_deepness = 1 } }

abbrev pub start : MemoryItem → State libc
start m = record {
  raw = raw;
  traces = λ p. if p == 300 then some trace else none;
  memory_items = memories m;
  stack_items = stacks;
  is_allocing_or_deallocing = false;
  max_number_of_alloc_from_the_same_stack = 10;
  handler_memory = none;
  clbk_data = record { user_data = 0; clbk_fnc = none; info_clbk = none; error_clbk = none };
  locked = false;
  printed = [];
}

abbrev pub one_memory : MemoryItem → Memories
one_memory m = record entry { value = m } ∷ []

pub start-IsOutside : (m : MemoryItem) → IsOutside libc (start m) (one_memory m)
unfolding head has
start-IsOutside m = record {
  flag = refl;
  unlocked = refl;
  contains = record {
    cells = ((0, refl), omega arith, refl, tt);
    buckets = λ i. refl;
    first_item = refl;
    added = omega arith;
  };
}

pub entry_found :
    (m : MemoryItem) → entry_of 7000 (one_memory m) ≡ some (record entry { value = m })
unfolding old_crash_investigator.HashItems.Lookup.find_in
entry_found m = refl

pub uses_default : (m : MemoryItem) → UsesDefault libc env (start m)
unfolding or_default
uses_default m = refl

abbrev freed_item : MemoryItem
freed_item = record item { status = deallocated }

not_live : is_allocated deallocated ≡ false
unfolding is_allocated
not_live = refl

pub right_kind : (is_allocated allocated && same_type MemoryType.malloc MemoryType.malloc) ≡ true
unfolding is_allocated same_type
right_kind = refl

wrong_kind : (is_allocated allocated && same_type MemoryType.malloc MemoryType.new) ≡ false
unfolding is_allocated same_type
wrong_kind = refl

fatal_missmatch : is_fatal FailureType.free_missmatch ≡ true
unfolding is_fatal
fatal_missmatch = refl

abbrev pub frames : List ℕ
frames = 1 ∷ 2 ∷ 3 ∷ 4 ∷ []

-- The state that a call leaves.
abbrev pub state_of : {A : Type 0} → Run (A × State libc) → State libc
state_of (ok (a, s)) = s
state_of (stop e) = start item

abbrev pub captured_at : State libc → State libc
captured_at s = state_of (init_backtrace_data_for_current_stack libc 2 frames (entered libc s))

pub captured_runs :
    (m : MemoryItem)
    → init_backtrace_data_for_current_stack libc 2 frames (entered libc (start m))
      ≡ ok (20000, captured_at (start m))
unfolding init_backtrace_data_for_current_stack mallocn old_crash_investigator.RawAlloc.mallocn
    old_crash_investigator.RawAlloc.ensure_inited old_crash_investigator.RawAlloc.orig_malloc
    old_crash_investigator.Analyzer.State.put_trace
captured_runs m = refl

double_free-exits_example :
    test_operator_delete libc env 7000 MemoryType.malloc 1 frames (start freed_item)
    ≡ stop (exited 1)
double_free-exits_example =
    double_free-exits libc env 7000 MemoryType.malloc 1 frames (start freed_item)
      (captured_at (start freed_item)) (one_memory freed_item) (record entry { value = freed_item })
      20000 (omega arith)
      (record {
        outside = start-IsOutside freed_item;
        found = entry_found freed_item;
        freed = not_live;
        uses = uses_default freed_item;
        alloc = inr (trace, refl);
        dealloc = inl refl;
      })
      (captured_runs freed_item)

abbrev after_delete : State libc
after_delete = state_of (test_operator_delete libc env 7000 MemoryType.malloc 1 frames (start item))

delete_runs :
    test_operator_delete libc env 7000 MemoryType.malloc 1 frames (start item)
    ≡ ok (tt, after_delete)
unfolding test_operator_delete old_crash_investigator.Analyzer.Track.with_handler
    old_crash_investigator.Analyzer.Track.set_allocing
    old_crash_investigator.Analyzer.Operators.delete_tracked init_backtrace_data_for_current_stack
    mallocn old_crash_investigator.RawAlloc.mallocn old_crash_investigator.RawAlloc.ensure_inited
    old_crash_investigator.RawAlloc.orig_malloc old_crash_investigator.Analyzer.State.put_trace
    old_crash_investigator.Base.update old_crash_investigator.Backtrace.init_backtrace_data
    old_crash_investigator.Backtrace.take old_crash_investigator.Backtrace.drop
    old_crash_investigator.Analyzer.State.lock old_crash_investigator.Analyzer.State.unlock
    old_crash_investigator.Analyzer.State.find_memory_item
    old_crash_investigator.HashItems.find_entry old_crash_investigator.HashItems.find_loop
    old_crash_investigator.HashItems.load old_crash_investigator.Analyzer.State.memory_item_at
    is_allocated same_type old_crash_investigator.Analyzer.Operators.delete_allocated
    old_crash_investigator.Analyzer.Track.take_stack_out
    old_crash_investigator.Analyzer.State.find_stack_item
    old_crash_investigator.Analyzer.State.hash_of_trace
    old_crash_investigator.Analyzer.State.same_trace
    old_crash_investigator.Backtrace.hash_of_the_stack old_crash_investigator.Backtrace.hash_loop
    old_crash_investigator.Backtrace.is_the_same_stack old_crash_investigator.Backtrace.frames_equal
    old_crash_investigator.Analyzer.Track.decrement_in_assert
    old_crash_investigator.Analyzer.State.stack_count_at
    old_crash_investigator.Analyzer.State.set_stack_count
    old_crash_investigator.HashItems.set_second old_crash_investigator.HashItems.modify
    old_crash_investigator.Analyzer.State.remove_stack_item
    old_crash_investigator.HashItems.remove_entry old_crash_investigator.HashItems.unlink_chain
    old_crash_investigator.HashItems.unlink_list old_crash_investigator.HashItems.modify_unless_null
    freen old_crash_investigator.RawAlloc.freen old_crash_investigator.RawAlloc.glibc_dealloc
    old_crash_investigator.Analyzer.State.set_memory_item
delete_runs = refl

test_operator_delete-twice_example :
    Stops (test_operator_delete libc env 7000 MemoryType.new 1 (9 ∷ []) after_delete)
test_operator_delete-twice_example =
    test_operator_delete-twice libc env 7000 MemoryType.malloc 1 frames MemoryType.new 1 (9 ∷ [])
      (start item) after_delete (one_memory item) entry tt (omega arith) (start-IsOutside item)
      (entry_found item) right_kind (uses_default item) delete_runs

init_failure_data_and_call_clbk-exits_example :
    init_failure_data_and_call_clbk libc env item MemoryType.not_provided 7000 0
      FailureType.free_missmatch null
      (start item)
    ≡ stop (exited 1)
init_failure_data_and_call_clbk-exits_example =
    init_failure_data_and_call_clbk-exits libc env item MemoryType.not_provided 7000 0 null
      (start item) (uses_default item)
      (record { alloc = inr (trace, refl); dealloc = inl refl; analize = inl refl })
      FailureType.free_missmatch fatal_missmatch

-- The thread of before, and two blocks in the memory pool.
abbrev early_start : State libc
early_start = record (start item) { raw = record raw { mem_pool = two_blocks } }

early_runs :
    init_backtrace_data_for_current_stack libc 2 frames (entered libc early_start)
    ≡ ok (20000, captured_at early_start)
unfolding init_backtrace_data_for_current_stack mallocn old_crash_investigator.RawAlloc.mallocn
    old_crash_investigator.RawAlloc.ensure_inited old_crash_investigator.RawAlloc.orig_malloc
    old_crash_investigator.Analyzer.State.put_trace
early_runs = refl

early_start-IsEarly : IsEarly libc env (captured_at early_start).raw two_stack 1032 0 10
unfolding init_backtrace_data_for_current_stack mallocn old_crash_investigator.RawAlloc.mallocn
    old_crash_investigator.RawAlloc.ensure_inited old_crash_investigator.RawAlloc.orig_malloc
    old_crash_investigator.Analyzer.State.put_trace
early_start-IsEarly = record {
  represents = two_blocks-Represents;
  placed = two_blocks-IsPlaced;
  block = old_block;
  at = refl;
}

early_missing : entry_of 1032 (one_memory item) ≡ none
unfolding old_crash_investigator.HashItems.Lookup.find_in
early_missing = refl

early_start-IsOutside : IsOutside libc early_start (one_memory item)
early_start-IsOutside =
    let o = start-IsOutside item in
    record { flag = o.flag; unlocked = o.unlocked; contains = o.contains }

test_operator_delete-early_example :
    Returns (test_operator_delete libc env 1032 MemoryType.malloc 1 frames early_start) λ r.
      Frees (captured_at early_start).raw.mem_pool (free 0 two_stack) r.1.raw.mem_pool
      × (r.1.raw.heap ≡ (captured_at early_start).raw.heap)
      × IsOutside libc r.1 (one_memory item)
test_operator_delete-early_example =
    test_operator_delete-early libc env early_start (captured_at early_start) (one_memory item)
      two_stack 1032 0 10 1 20000 MemoryType.malloc frames (omega arith) early_start-IsOutside
      early_missing early_runs early_start-IsEarly

abbrev destroyed : State libc
destroyed = state_of (destroy_tables libc env (start item))

destroyed_runs : destroy_tables libc env (start item) ≡ ok (tt, destroyed)
unfolding destroy_tables old_crash_investigator.Analyzer.Process.destroy_items
    old_crash_investigator.HashItems.load freen old_crash_investigator.RawAlloc.freen
    old_crash_investigator.RawAlloc.ensure_inited old_crash_investigator.RawAlloc.glibc_dealloc
    old_crash_investigator.Base.update
destroyed_runs = refl

destroy_analyzer-verbose_example :
    (destroy_analyzer libc env true (start item) ≡ ok (tt, destroyed))
    × (destroyed.traces ≡ (start item).traces)
    × (destroyed.printed ≡ (start item).printed)
destroy_analyzer-verbose_example =
    destroy_analyzer-verbose libc env (one_memory item) (start item) destroyed tt
      (start-IsOutside item).contains destroyed_runs

-- An alignment that is too small, and one that is not a power of two.
small_alignment : alignment_of 4 ≡ 16
unfolding alignment_of
small_alignment = refl

odd_alignment : alignment_of 48 ≡ 64
unfolding alignment_of old_crash_investigator.Analyzer.Aligned.round_up
    old_crash_investigator.Analyzer.Aligned.smear
odd_alignment = refl
