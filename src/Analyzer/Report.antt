-- ===== src/Analyzer/Report.antt =====
-- `InitFailureDataAndCallClbk` of src/core/basic/crash_investigator_alloc_dealloc_analyze.cpp: the
-- data of a failure, the call of the callback, and the action that it returns.
pub mod Exits
pub mod Stops
use old_crash_investigator.Base.{
  if◌then◌else◌, ℕ, Bool, true, false, Option, none, some, List, [], ◌∷◌, ◌++◌, Run, ok, stop,
  assertion_failed, exited, null,
}
use old_crash_investigator.Analyzer.Monad.{M, pure, ◌>>=◌, ◌>>◌, abort, get}
use old_crash_investigator.Analyzer.State.{
  State, Act, Env, MemoryItem, convert, freen, reallocn, free_backtrace_data,
}
use old_crash_investigator.Backtrace.{StackItem}
use old_crash_investigator.Failure.{
  MemoryType, FailureAction, FailureType, FailureData, FailureClbk, Piece, or_default,
  default_failure_clbk,
}
use old_crash_investigator.RawAlloc.{Libc}

module _ (libc : Libc) (env : Env) where
  -- `(*s_clbkData.clbkFnc)(aFailureData)`.
  unfoldable pub call_clbk : FailureData → Act libc FailureAction
  unfolding or_default
  call_clbk d s = elim (or_default s.clbk_data.clbk_fnc (default_failure_clbk env.ndebug) d) [
    | ok (action, pieces) ↦ ok (action, record s { printed = s.printed ++ pieces })
    | stop e ↦ stop e
  ]

  -- The switch over the action where the memory is freed: the case `MakeAction` falls through, and
  -- any unknown action ends the program.
  unfoldable pub free_by_action : ℕ → FailureAction → Act libc ℕ
  free_by_action address FailureAction.make_action = do freen libc address; pure null
  free_by_action address FailureAction.do_not_make_action_to_prevent_crash = pure null
  free_by_action address FailureAction.exit_app = abort (exited 1)
  free_by_action address FailureAction.unknown = abort (exited 1)

  -- The switch where the memory is reallocated.
  unfoldable pub realloc_by_action : ℕ → ℕ → FailureAction → Act libc ℕ
  realloc_by_action address count FailureAction.make_action = reallocn libc address count
  realloc_by_action address count FailureAction.do_not_make_action_to_prevent_crash = pure null
  realloc_by_action address count FailureAction.exit_app = abort (exited 1)
  realloc_by_action address count FailureAction.unknown = abort (exited 1)

  -- What the seven cases set alike.
  unfoldable pub failure_data :
      FailureType
      → (alloc_type free_type : MemoryType) → (address second_arg : ℕ)
      → (alloc free analize : List StackItem) → State libc
      → FailureData
  failure_data type alloc_type free_type address second_arg alloc free analize s = record {
    failure_type = type;
    alloc_type = alloc_type;
    free_type = free_type;
    clbk_data = s.clbk_data.user_data;
    failure_address = address;
    bad_realloc_second_arg = second_arg;
    stack_alloc = alloc;
    stack_free = free;
    analize_stack = analize;
  }

  -- The cases of the switch over the type of the failure; `trace` is the trace of the analysis.
  unfoldable pub report_dealloc_of_non_existing_memory :
      (free_type : MemoryType) → (address trace : ℕ) → Act libc ℕ
  unfolding failure_data call_clbk free_by_action
  report_dealloc_of_non_existing_memory free_type address trace = do
    analize ← convert libc env trace
    s ← get
    action ← call_clbk (
        failure_data FailureType.dealloc_of_non_existing_memory MemoryType.not_provided free_type
          address 0 [] [] analize s)
    free_by_action address action

  unfoldable pub report_double_free :
      MemoryItem → (free_type : MemoryType) → (address trace : ℕ) → Act libc ℕ
  unfolding failure_data call_clbk free_by_action
  report_double_free item free_type address trace = do
    alloc ← convert libc env item.alloc_trace
    free ← convert libc env item.dealloc_trace
    analize ← convert libc env trace
    s ← get
    action ←
        call_clbk
          (failure_data FailureType.double_free item.type free_type address 0 alloc free analize s)
    free_by_action address action

  unfoldable pub report_bad_realloc_mem_not_exist : (address count trace : ℕ) → Act libc ℕ
  unfolding failure_data call_clbk realloc_by_action
  report_bad_realloc_mem_not_exist address count trace = do
    analize ← convert libc env trace
    s ← get
    action ← call_clbk (
        failure_data FailureType.bad_realloc_mem_not_exist MemoryType.not_provided
          MemoryType.not_provided address count [] [] analize s)
    realloc_by_action address count action

  unfoldable pub report_bad_realloc_deleted_mem :
      MemoryItem → (free_type : MemoryType) → (address count trace : ℕ) → Act libc ℕ
  unfolding failure_data call_clbk realloc_by_action
  report_bad_realloc_deleted_mem item free_type address count trace = do
    alloc ← convert libc env item.alloc_trace
    free ← convert libc env item.dealloc_trace
    analize ← convert libc env trace
    s ← get
    action ← call_clbk (
        failure_data FailureType.bad_realloc_deleted_mem item.type free_type address count alloc
          free analize s)
    realloc_by_action address count action

  unfoldable pub report_bad_realloc_created_by_wrong_alloc :
      MemoryItem → (address count trace : ℕ) → Act libc ℕ
  unfolding failure_data call_clbk realloc_by_action
  report_bad_realloc_created_by_wrong_alloc item address count trace = do
    alloc ← convert libc env item.alloc_trace
    analize ← convert libc env trace
    s ← get
    action ← call_clbk (
        failure_data FailureType.bad_realloc_created_by_wrong_alloc item.type
          MemoryType.not_provided address count alloc [] analize s)
    realloc_by_action address count action

  unfoldable pub report_free_missmatch :
      MemoryItem → (free_type : MemoryType) → (address trace : ℕ) → Act libc ℕ
  unfolding failure_data call_clbk free_by_action
  report_free_missmatch item free_type address trace = do
    alloc ← convert libc env item.alloc_trace
    analize ← convert libc env trace
    s ← get
    action ←
        call_clbk
          (failure_data FailureType.free_missmatch item.type free_type address 0 alloc [] analize s)
    free_by_action address action

  unfoldable pub report_possibility_of_memory_leak :
      MemoryItem → (free_type : MemoryType) → (address : ℕ) → Act libc ℕ
  unfolding failure_data call_clbk free_by_action
  report_possibility_of_memory_leak item free_type address = do
    alloc ← convert libc env item.alloc_trace
    s ← get
    action ← call_clbk (
        failure_data FailureType.possibility_of_memory_leak item.type free_type address 0 alloc []
          [] s)
    free_by_action address action

  unfoldable pub report_sig_segv_handler :
      MemoryItem → (free_type : MemoryType) → (address trace : ℕ) → Act libc ℕ
  unfolding failure_data call_clbk free_by_action
  report_sig_segv_handler item free_type address trace = do
    analize ← convert libc env trace
    s ← get
    action ←
        call_clbk
          (failure_data FailureType.sig_segv_handler item.type free_type address 0 [] [] analize s)
    free_by_action address action

  -- The switch over the type of the failure.
  unfoldable pub report :
      FailureType → MemoryItem → (free_type : MemoryType) → (address count trace : ℕ) → Act libc ℕ
  report FailureType.dealloc_of_non_existing_memory item free_type address count trace =
      report_dealloc_of_non_existing_memory free_type address trace
  report FailureType.double_free item free_type address count trace =
      report_double_free item free_type address trace
  report FailureType.bad_realloc_mem_not_exist item free_type address count trace =
      report_bad_realloc_mem_not_exist address count trace
  report FailureType.bad_realloc_deleted_mem item free_type address count trace =
      report_bad_realloc_deleted_mem item free_type address count trace
  report FailureType.bad_realloc_created_by_wrong_alloc item free_type address count trace =
      report_bad_realloc_created_by_wrong_alloc item address count trace
  report FailureType.free_missmatch item free_type address count trace =
      report_free_missmatch item free_type address trace
  report FailureType.possibility_of_memory_leak item free_type address count trace =
      report_possibility_of_memory_leak item free_type address
  report FailureType.sig_segv_handler item free_type address count trace =
      report_sig_segv_handler item free_type address trace
  report FailureType.unknown item free_type address count trace =
      if env.ndebug then pure null else abort assertion_failed

  -- `InitFailureDataAndCallClbk`: the trace of the analysis is freed on the way out.
  unfoldable pub init_failure_data_and_call_clbk :
      MemoryItem
      → (free_type : MemoryType) → (address count : ℕ) → FailureType
      → (trace : ℕ) → Act libc ℕ
  init_failure_data_and_call_clbk item free_type address count type trace = do
    r ← report type item free_type address count trace
    free_backtrace_data libc trace
    pure r
