-- ===== src/Analyzer/Track.antt =====
-- The functions of src/core/basic/crash_investigator_alloc_dealloc_analyze.cpp that keep track of
-- allocations: what is allocated, and how often from which stack.
use old_crash_investigator.Base.{
  ℕ, ◌+◌, ◌-◌, ◌%◌, Bool, true, false, none, some, List, ltb, ◌==◌, if◌then◌else◌, ok,
  assertion_failed, undefined_behaviour, null, size_mod,
}
use old_crash_investigator.Analyzer.Monad.{pure, ◌>>=◌, ◌>>◌, abort, get}
use old_crash_investigator.Analyzer.Report.{init_failure_data_and_call_clbk}
use old_crash_investigator.Analyzer.State.{
  Act, Env, MemoryItem, MemoryStatus, HandlerItem, allocated, does_not_exist_at_all, mallocn, lock,
  unlock, free_backtrace_data, init_backtrace_data_for_current_stack, find_memory_item,
  find_stack_item, memory_item_at, stack_count_at, set_memory_item, set_stack_count,
  add_memory_item, add_stack_item, remove_stack_item,
}
use old_crash_investigator.Failure.{MemoryType, FailureType}
use old_crash_investigator.RawAlloc.{Libc}

-- A call returns a pointer, or throws `std::bad_alloc`.
pub data Result : Type 0 where
  returned : ℕ → Result
  threw : Result

unfoldable pub is_allocated : MemoryStatus → Bool
is_allocated allocated = true
is_allocated _ = false

unfoldable pub same_type : MemoryType → MemoryType → Bool
same_type MemoryType.not_provided MemoryType.not_provided = true
same_type MemoryType.new MemoryType.new = true
same_type MemoryType.new_arr MemoryType.new_arr = true
same_type MemoryType.malloc MemoryType.malloc = true
same_type _ _ = false

module _ (libc : Libc) (env : Env) where
  unfoldable pub set_allocing : Bool → Act libc (Unit {0})
  set_allocing b s = ok (tt, record s { is_allocing_or_deallocing = b })

  -- `IsAllocingHandler aHandler;` where the flag was not set: it is set during the rest of the block.
  unfoldable pub with_handler : {A : Type 0} → Act libc A → Act libc A
  unfolding set_allocing
  with_handler body = do set_allocing true; r ← body; set_allocing false; pure r

  -- The entry of the address in `s_memoryItems`: a new one, or the old one, whose traces are freed.
  unfoldable pub record_memory_item : ℕ → MemoryItem → Act libc (Unit {0})
  record_memory_item address item = do
    (iter, hash) ← find_memory_item libc address
    if iter == null then add_memory_item libc address hash item else do
      old ← memory_item_at libc iter
      free_backtrace_data libc old.dealloc_trace
      free_backtrace_data libc old.alloc_trace
      set_memory_item libc iter item

  -- The count of the stack in `m_stackItems`; whether it has passed the limit. It does not grow
  -- where the limit is 0.
  unfoldable pub count_stack : ℕ → Act libc Bool
  count_stack trace = do
    (iter, hash) ← find_stack_item libc trace
    if iter == null then (do add_stack_item libc trace hash 1; pure false) else do
      s ← get
      if ltb 0 s.max_number_of_alloc_from_the_same_stack
          then (do
            n ← stack_count_at libc iter
            set_stack_count libc iter ((n + 1) % size_mod)
            pure (ltb s.max_number_of_alloc_from_the_same_stack ((n + 1) % size_mod)))
          else pure false

  -- `AddNewAllocatedMemoryAndCleanOldEntryNoLock`.
  unfoldable pub add_new_allocated_memory_no_lock : MemoryType → ℕ → ℕ → Act libc ℕ
  unfolding record_memory_item count_stack
  add_new_allocated_memory_no_lock type address trace = do
    let item : MemoryItem = record {
      type = type;
      status = allocated;
      real_address = address;
      alloc_trace = trace;
      dealloc_trace = null;
    }
    record_memory_item address item
    too_many ← count_stack trace
    if too_many
        then (do
          unlock libc
          ignored ←
              init_failure_data_and_call_clbk libc env item type address 0
                FailureType.possibility_of_memory_leak trace
          pure address)
        else pure address

  -- `AddNewAllocatedMemoryAndCleanOldEntry`; the guard unlocks the mutex at the end.
  unfoldable pub add_new_allocated_memory : MemoryType → ℕ → (go_back : ℕ) → List ℕ → Act libc ℕ
  unfolding add_new_allocated_memory_no_lock
  add_new_allocated_memory type address go_back frames = do
    trace ← init_backtrace_data_for_current_stack libc (go_back + 1) frames
    lock libc
    r ← add_new_allocated_memory_no_lock type address trace
    unlock libc
    pure r

  -- The lines `let's remove corresponding trace`. The count goes down inside the `assert`, so it
  -- does not where the program is compiled with `NDEBUG`.
  unfoldable pub decrement_in_assert : ℕ → Act libc (Unit {0})
  decrement_in_assert iter =
      if env.ndebug then pure tt else if iter == null then abort assertion_failed else do
        n ← stack_count_at libc iter
        set_stack_count libc iter ((n + size_mod - 1) % size_mod)
        if n == 0 then abort assertion_failed else pure tt

  unfoldable pub take_stack_out : (alloc_trace : ℕ) → Act libc (Unit {0})
  unfolding decrement_in_assert
  take_stack_out alloc_trace = do
    (iter, hash) ← find_stack_item libc alloc_trace
    decrement_in_assert iter
    n ← stack_count_at libc iter
    if n == 0 then remove_stack_item libc iter else pure tt

  -- `new CMemoryItem`, an allocation in the handler's scope, unless the thread has one.
  unfoldable pub handler_item : Act libc HandlerItem
  handler_item = do
    s ← get
    elim s.handler_memory [
      | some h ↦ pure h
      | none ↦ mallocn libc 48 >>= λ p.
          if p == null
          then abort undefined_behaviour
          else pure (record {
            item = record {
              type = MemoryType.not_provided;
              status = does_not_exist_at_all;
              real_address = null;
              alloc_trace = null;
              dealloc_trace = null;
            };
            failure_type = FailureType.unknown;
            count = 0;
          })
    ]

  -- The variable for the signal handler, and `CMemoryItem::Init`.
  unfoldable pub prepare_handler_memory : ℕ → FailureType → ℕ → ℕ → Act libc (Unit {0})
  unfolding handler_item
  prepare_handler_memory count type address trace = do
    h ← handler_item
    free_backtrace_data libc h.item.dealloc_trace
    λ s. ok (
      tt,
      record s {
        handler_memory = some (record {
          item = record (h.item) { dealloc_trace = trace; real_address = address };
          failure_type = type;
          count = count;
        });
      },
    )

  -- `~CMemoryItem`, where the thread ends.
  unfoldable pub drop_handler_item : HandlerItem → Act libc (Unit {0})
  drop_handler_item h = free_backtrace_data libc h.item.dealloc_trace
