-- ===== src/Analyzer/Operators.antt =====
-- The entry points of src/core/basic/crash_investigator_alloc_dealloc_analyze.cpp, and the functions
-- of src/core/basic/crash_investigator_malloc_free.cpp and
-- src/core/basic/crash_investigator_new_delete.cpp that call them.
--
-- `frames` is the stack at the call. A function that returns `void` returns the unit, and one that
-- cannot throw returns a pointer as its result.
pub mod Early
pub mod Record
pub mod Allocate
pub mod Retire
pub mod Reallocate
pub mod Delete
use old_crash_investigator.Base.{
  ℕ, ◌+◌, ◌*◌, ◌%◌, Bool, true, false, not, List, Run, ok, stop, ◌==◌, if◌then◌else◌, null,
  size_mod,
}
use old_crash_investigator.Analyzer.Monad.{M, pure, ◌>>=◌, ◌>>◌, get, lift, lift_unit}
use old_crash_investigator.Analyzer.Report.{init_failure_data_and_call_clbk}
use old_crash_investigator.Analyzer.State.{
  State, Act, Env, MemoryItem, MemoryStatus, deallocated, mallocn, callocn, reallocn, freen, lock,
  unlock, free_backtrace_data, init_backtrace_data_for_current_stack, find_memory_item,
  memory_item_at, set_memory_item,
}
use old_crash_investigator.Analyzer.Track.{
  Result, returned, threw, is_allocated, same_type, with_handler, add_new_allocated_memory_no_lock,
  add_new_allocated_memory, take_stack_out, prepare_handler_memory,
}
use old_crash_investigator.Failure.{MemoryType, FailureType}
use old_crash_investigator.RawAlloc
use old_crash_investigator.RawAlloc.{Libc}

-- The three parts of a result as a pair and the state.
abbrev pub regroup : {A B C : Type 0} → Run (A × B × C) → Run ((A × B) × C)
regroup (ok (a, b, c)) = ok ((a, b), c)
regroup (stop e) = stop e

module _ (libc : Libc) (env : Env) where
  -- `SystemSpecificLibInitialDealloc` and its kin, on the analyser's state.
  unfoldable pub lib_initial_dealloc : ℕ → Act libc Bool
  lib_initial_dealloc p s =
      lift (RawAlloc.lib_initial_dealloc libc p s.raw) (λ r. record s { raw = r })

  unfoldable pub glibc_dealloc : ℕ → Act libc (Unit {0})
  glibc_dealloc p s = lift_unit (RawAlloc.glibc_dealloc libc p s.raw) (λ r. record s { raw = r })

  -- The pointer of `SystemSpecificLibInitialRealloc`, or none if it does not know the address.
  unfoldable pub lib_initial_realloc : ℕ → ℕ → Act libc (Bool × ℕ)
  lib_initial_realloc p n = do
    r ← λ s.
        lift (regroup (RawAlloc.lib_initial_realloc libc p n s.raw)) (λ r. record s { raw = r })
    pure r

  unfoldable pub glibc_realloc : ℕ → ℕ → Act libc ℕ
  glibc_realloc p n s = lift (RawAlloc.glibc_realloc libc p n s.raw) (λ r. record s { raw = r })

  -- `TestOperatorDelete` of an address that is not in `s_memoryItems`, the mutex unlocked.
  unfoldable pub delete_unknown : (ptr trace : ℕ) → Act libc (Unit {0})
  delete_unknown ptr trace = do
    early ← lib_initial_dealloc ptr
    if early then pure tt else do
      prepare_handler_memory libc env 0 FailureType.dealloc_of_non_existing_memory ptr trace
      glibc_dealloc ptr

  -- `TestOperatorDelete` of an address whose entry is allocated.
  unfoldable pub delete_allocated :
      (ptr : ℕ) → MemoryType → (trace iter : ℕ) → MemoryItem → Act libc (Unit {0})
  delete_allocated ptr type_expected trace iter item = do
    take_stack_out libc env item.alloc_trace
    if not (same_type item.type type_expected)
        then (do
          unlock libc
          ignored ←
              init_failure_data_and_call_clbk libc env item MemoryType.not_provided ptr 0
                FailureType.free_missmatch trace
          pure tt)
        else (do
          set_memory_item libc iter (record item { status = deallocated; dealloc_trace = trace })
          unlock libc
          freen libc item.real_address)

  -- `TestOperatorDelete` of an address whose entry is not allocated.
  unfoldable pub delete_deallocated : (ptr trace : ℕ) → MemoryItem → Act libc (Unit {0})
  delete_deallocated ptr trace item = do
    unlock libc
    ignored ←
        init_failure_data_and_call_clbk libc env item MemoryType.not_provided ptr 0
          FailureType.double_free trace
    pure tt

  unfoldable pub delete_tracked :
      (ptr : ℕ) → MemoryType → (go_back : ℕ) → List ℕ → Act libc (Unit {0})
  delete_tracked ptr type_expected go_back frames = do
    trace ← init_backtrace_data_for_current_stack libc (go_back + 1) frames
    lock libc
    (iter, hash) ← find_memory_item libc ptr
    if iter == null then (do unlock libc; delete_unknown ptr trace) else (do
      item ← memory_item_at libc iter
      if is_allocated item.status
          then delete_allocated ptr type_expected trace iter item
          else delete_deallocated ptr trace item)

  -- `TestOperatorDelete`.
  unfoldable pub test_operator_delete :
      (ptr : ℕ) → MemoryType → (go_back : ℕ) → List ℕ → Act libc (Unit {0})
  test_operator_delete ptr type_expected go_back frames = if ptr == null then pure tt else do
    s ← get
    if s.is_allocing_or_deallocing
        then freen libc ptr
        else with_handler libc env (delete_tracked ptr type_expected go_back frames)

  -- `if(a_bThrow){throw ::std::bad_alloc();} else{return CPPUTILS_NULL;}`
  abbrev pub no_memory : Bool → Result
  no_memory throws = if throws then threw else returned null

  unfoldable pub alloc_tracked :
      (count : ℕ) → MemoryType → Bool → (go_back : ℕ) → List ℕ → Act libc Result
  alloc_tracked count type throws go_back frames =
      if count == 0 then pure (no_memory throws) else do
        p ← mallocn libc count
        if p == null then pure (no_memory throws) else do
          r ← add_new_allocated_memory libc env type p (go_back + 1) frames
          pure (returned r)

  -- `TestOperatorAlloc`.
  unfoldable pub test_operator_alloc :
      (count : ℕ) → MemoryType → Bool → (go_back : ℕ) → List ℕ → Act libc Result
  test_operator_alloc count type throws go_back frames = do
    s ← get
    if s.is_allocing_or_deallocing
        then (do p ← mallocn libc count; pure (returned p))
        else with_handler libc env (alloc_tracked count type throws go_back frames)

  -- `TestOperatorCalloc`, its product in `size_t`.
  unfoldable pub test_operator_calloc : (nmemb size go_back : ℕ) → List ℕ → Act libc Result
  test_operator_calloc nmemb size go_back frames = do
    s ← get
    if s.is_allocing_or_deallocing
        then (do p ← callocn libc nmemb size; pure (returned p))
        else with_handler libc env (
            if (nmemb * size) % size_mod == 0 then pure (no_memory false) else do
              p ← callocn libc nmemb size
              if p == null then pure (returned null) else do
                r ← add_new_allocated_memory libc env MemoryType.malloc p (go_back + 1) frames
                pure (returned r))

  -- `TestOperatorReAlloc` of an address that is not in `s_memoryItems`, the mutex unlocked.
  unfoldable pub realloc_unknown : (ptr count trace : ℕ) → Act libc ℕ
  realloc_unknown ptr count trace = do
    (early, p) ← lib_initial_realloc ptr count
    if early then pure p else do
      prepare_handler_memory libc env count FailureType.bad_realloc_mem_not_exist ptr trace
      glibc_realloc ptr count

  -- `TestOperatorReAlloc` of an address that `malloc` and its kin allocated.
  unfoldable pub realloc_allocated : (ptr count trace iter : ℕ) → MemoryItem → Act libc ℕ
  realloc_allocated ptr count trace iter item = do
    r ← reallocn libc item.real_address count
    if r == ptr then (do unlock libc; free_backtrace_data libc trace; pure r) else (do
      take_stack_out libc env item.alloc_trace
      set_memory_item libc iter (record item { status = deallocated })
      p ← add_new_allocated_memory_no_lock libc env MemoryType.malloc r trace
      unlock libc
      pure p)

  unfoldable pub realloc_tracked : (ptr count go_back : ℕ) → List ℕ → Act libc ℕ
  realloc_tracked ptr count go_back frames = do
    trace ← init_backtrace_data_for_current_stack libc (go_back + 1) frames
    lock libc
    (iter, hash) ← find_memory_item libc ptr
    if iter == null then (do unlock libc; realloc_unknown ptr count trace) else (do
      item ← memory_item_at libc iter
      if not (same_type item.type MemoryType.malloc)
          then (do
            unlock libc
            init_failure_data_and_call_clbk libc env item MemoryType.not_provided ptr count
                FailureType.bad_realloc_created_by_wrong_alloc trace)
          else if not (is_allocated item.status)
          then (do
            unlock libc
            init_failure_data_and_call_clbk libc env item MemoryType.not_provided ptr count
                FailureType.bad_realloc_deleted_mem trace)
          else realloc_allocated ptr count trace iter item)

  -- `TestOperatorReAlloc`.
  unfoldable pub test_operator_realloc : (ptr count go_back : ℕ) → List ℕ → Act libc Result
  test_operator_realloc ptr count go_back frames = do
    s ← get
    if s.is_allocing_or_deallocing
        then (do p ← reallocn libc ptr count; pure (returned p))
        else if ptr == null
        then test_operator_alloc count MemoryType.malloc false (go_back + 1) frames
        else if count == 0
        then (do
          test_operator_delete ptr MemoryType.malloc (go_back + 1) frames
          pure (returned null))
        else with_handler libc env
            (do p ← realloc_tracked ptr count go_back frames; pure (returned p))

  -- `malloc`, `calloc`, `realloc` and `free`.
  unfoldable pub malloc : ℕ → List ℕ → Act libc Result
  malloc count = test_operator_alloc count MemoryType.malloc false 1

  unfoldable pub calloc : ℕ → ℕ → List ℕ → Act libc Result
  calloc nmemb size = test_operator_calloc nmemb size 1

  unfoldable pub realloc : ℕ → ℕ → List ℕ → Act libc Result
  realloc ptr count = test_operator_realloc ptr count 1

  unfoldable pub free : ℕ → List ℕ → Act libc (Unit {0})
  free ptr = test_operator_delete ptr MemoryType.malloc 1

  -- The operators `new` and `delete`, of one object and of an array.
  unfoldable pub operator_new : ℕ → List ℕ → Act libc Result
  operator_new count = test_operator_alloc count MemoryType.new true 1

  unfoldable pub operator_new_arr : ℕ → List ℕ → Act libc Result
  operator_new_arr count = test_operator_alloc count MemoryType.new_arr true 1

  unfoldable pub operator_new_nothrow : ℕ → List ℕ → Act libc Result
  operator_new_nothrow count = test_operator_alloc count MemoryType.new false 1

  unfoldable pub operator_new_arr_nothrow : ℕ → List ℕ → Act libc Result
  operator_new_arr_nothrow count = test_operator_alloc count MemoryType.new_arr false 1

  unfoldable pub operator_delete : ℕ → List ℕ → Act libc (Unit {0})
  operator_delete ptr = test_operator_delete ptr MemoryType.new 1

  unfoldable pub operator_delete_arr : ℕ → List ℕ → Act libc (Unit {0})
  operator_delete_arr ptr = test_operator_delete ptr MemoryType.new_arr 1
