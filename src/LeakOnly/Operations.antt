-- ===== src/LeakOnly/Operations.antt =====
-- The operations of src/core/analyze/crash_investigator_analyze_leak_only_new_delete.cpp: the set-up,
-- the allocation, the free and the operators.
use old_crash_investigator.Base.{
  ℕ, ◌+◌, ◌-◌, ◌%◌, true, false, ◌||◌, none, some, ltb, leb, ◌==◌, if◌then◌else◌, ok,
  assertion_failed, exited, null, size_mod,
}
use old_crash_investigator.Analyzer.Monad.{pure, ◌>>=◌, ◌>>◌, abort, get}
use old_crash_investigator.Container.{Hash}
use old_crash_investigator.LeakOnly.{
  CLibrary, Call, Act, stack_keys, mem_keys, c_malloc, c_free, with_int_handler, lock, unlock,
  find_mem, find_stack, mem_second, stack_second, change_mem, change_stack, free_backtrace_data,
  clone_back_trace, init_backtrace_data_for_current_stack, convert,
}

module _ (lib : CLibrary) (hash : Hash) where
  -- `MemAnalyzeData::InitRaw`, also the constructor: the time, the mutex and two tables. What they
  -- were before is lost.
  unfoldable pub init_raw : (now : ℕ) → Act lib hash (Unit {0})
  init_raw now = do
    (λ s. ok (tt, record s { init_or_exit_ongoing = true }))
    with_int_handler lib hash (λ s. ok (
      tt,
      record s {
        init_time = now;
        locked = some false;
        stack = some (hash.empty);
        mem = some (hash.empty);
      },
    ))

  -- `MemAnalyzeData::Init`.
  unfoldable pub init : (now : ℕ) → Act lib hash (Unit {0})
  unfolding init_raw
  init now = do
    s ← get
    elim s.locked [
      | some b ↦ pure tt
      | none ↦
          if s.once_done
          then pure tt
          else do init_raw now; λ s. ok (tt, record s { once_done = true })
    ]

  -- `~MemAnalyzeData`. The deletes of the tables come back to `FreeMem`, which leaves them to `free`.
  unfoldable pub destroy : Act lib hash (Unit {0})
  destroy s =
      ok (tt, record s { init_or_exit_ongoing = true; mem = none; stack = none; locked = none })

  -- `TakeStackOut`, of the trace that the entry of the memory has.
  unfoldable pub take_stack_out : (iter_mem : ℕ) → Act lib hash (Unit {0})
  take_stack_out iter_mem = do
    trace ← mem_second lib hash iter_mem
    (iter_stack, code) ← find_stack lib hash trace
    elim iter_stack [
      | none ↦ abort assertion_failed
      | some iter ↦ stack_second lib hash iter >>= λ n.
          if n == 1
          then (do
            change_stack lib hash (λ t. hash.remove iter t)
            free_backtrace_data lib hash iter)
          else change_stack lib hash (λ t. hash.set_second iter ((n + size_mod - 1) % size_mod) t)
    ]

  -- The report: the frames are printed, and the program exits.
  unfoldable pub report_leak : Call → (trace : ℕ) → Act lib hash (Unit {0})
  report_leak call trace = do
    items ← convert lib hash call trace
    (λ s. ok (tt, record s { printed = items }))
    abort (exited 1)

  -- The stack is counted; it is reported if the count passes the limit and the clock has not gone
  -- back behind the start.
  unfoldable pub count_stack : Call → (trace : ℕ) → Act lib hash (Unit {0})
  unfolding report_leak
  count_stack call trace = do
    (iter_stack, code) ← find_stack lib hash trace
    elim iter_stack [
      | none ↦ clone_back_trace lib hash trace >>= λ trace2. get >>= λ s.
          change_stack lib hash
            (λ t. hash.add_entry_with_known_hash (stack_keys s.traces) trace2 1 code t)
      | some iter ↦ stack_second lib hash iter >>= λ n. do
        change_stack lib hash (λ t. hash.set_second iter ((n + 1) % size_mod) t)
        s ← get
        if ltb s.max_number_of_alloc_in_the_stack ((n + 1) % size_mod)
            then (if leb s.init_time call.now
                then (do unlock lib hash; report_leak call trace)
                else pure tt)
            else pure tt
    ]

  -- The block of `AllocMem` under the mutex.
  unfoldable pub track : Call → (address trace : ℕ) → Act lib hash (Unit {0})
  unfolding count_stack
  track call address trace = do
    lock lib hash
    (iter_mem, code) ← find_mem lib hash address
    elim iter_mem [
      | some iter ↦ abort assertion_failed
      | none ↦ do
        change_mem lib hash (λ t. hash.add_entry_with_known_hash mem_keys address trace code t)
        count_stack call trace
        unlock lib hash
    ]

  -- `AllocMem`.
  unfoldable pub alloc_mem : Call → (size go_back : ℕ) → Act lib hash ℕ
  unfolding init track
  alloc_mem call size go_back = do
    s ← get
    if s.init_or_exit_ongoing || (ltb 0 s.is_ongoing || s.ignore_this_stack)
        then c_malloc lib hash size
        else with_int_handler lib hash (do
          init call.now
          p ← c_malloc lib hash size
          if p == null then pure p else do
            trace ← init_backtrace_data_for_current_stack lib hash (go_back + 1) call.frames
            if trace == null then pure p else do track call p trace; pure p)

  -- The block of `FreeMemAnalyze` under the mutex, which is locked unless an operation is going on.
  unfoldable pub forget : (ptr : ℕ) → Act lib hash (Unit {0})
  unfolding take_stack_out
  forget ptr = do
    (iter_mem, code) ← find_mem lib hash ptr
    elim iter_mem [
      | none ↦ pure tt
      | some iter ↦ do
        take_stack_out iter
        trace ← mem_second lib hash iter
        change_mem lib hash (λ t. hash.remove iter t)
        free_backtrace_data lib hash trace
    ]

  -- `FreeMemAnalyze`.
  unfoldable pub free_mem_analyze : (ptr : ℕ) → Act lib hash (Unit {0})
  unfolding forget
  free_mem_analyze ptr = do
    s ← get
    if s.init_or_exit_ongoing
        then pure tt
        else with_int_handler lib hash (do
          inner ← get
          if ltb inner.is_ongoing 2
              then (do lock lib hash; forget ptr; unlock lib hash)
              else forget ptr)

  -- `FreeMem`.
  unfoldable pub free_mem : (ptr : ℕ) → Act lib hash (Unit {0})
  unfolding free_mem_analyze
  free_mem ptr = do
    free_mem_analyze ptr
    (λ s. ok (tt, record s { operator_delete_called = true }))
    c_free lib hash ptr
    λ s. ok (tt, record s { operator_delete_called = false })

  -- `operator new` and `operator new[]`, with and without `nothrow`.
  unfoldable pub operator_new : Call → (count : ℕ) → Act lib hash ℕ
  operator_new call count = alloc_mem call count 1

  -- The same with an alignment.
  unfoldable pub operator_new_aligned : Call → (count al : ℕ) → Act lib hash ℕ
  operator_new_aligned call count al = alloc_mem call (if ltb count al then al else count) 1

  -- `operator delete` and `operator delete[]` in all their forms.
  unfoldable pub operator_delete : (ptr : ℕ) → Act lib hash (Unit {0})
  operator_delete ptr = free_mem ptr
