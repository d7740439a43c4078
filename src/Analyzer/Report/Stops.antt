-- ===== src/Analyzer/Report/Stops.antt =====
-- `InitFailureDataAndCallClbk` of src/core/basic/crash_investigator_alloc_dealloc_analyze.cpp never
-- returns with the default callback, whichever traces live.
use old_crash_investigator.Base.{ℕ, ◌≡◌, refl, true, List, exited}
use old_crash_investigator.Analyzer.Monad.{M, and_then}
use old_crash_investigator.Analyzer.State.{State, Env, MemoryItem, convert}
use old_crash_investigator.Analyzer.Monad.Chain.{Stops, bind-Stops, bind-stop}
use old_crash_investigator.Analyzer.Keeps.{convert-keeps}
use old_crash_investigator.Analyzer.Report.{
  failure_data, report_double_free, report_bad_realloc_mem_not_exist,
  report_bad_realloc_deleted_mem, report_bad_realloc_created_by_wrong_alloc, report_free_missmatch,
  report_possibility_of_memory_leak, report_sig_segv_handler, report,
  init_failure_data_and_call_clbk,
}
use old_crash_investigator.Analyzer.Report.Exits.{UsesDefault, free_exits, realloc_exits}
use old_crash_investigator.Backtrace.{StackItem}
use old_crash_investigator.Failure.{FailureType, MemoryType}
use old_crash_investigator.Failure.Default.{is_fatal}
use old_crash_investigator.RawAlloc.{Libc}

module _ (libc : Libc) (env : Env) (s : State libc) where
  -- A step that reads a trace.
  reads-Stops :
      (p : ℕ) (k : List StackItem → M (State libc) ℕ)
      → ((names : List StackItem) → Stops (k names s))
      → Stops (and_then (convert libc env p s) k)
  reads-Stops p k h =
      bind-Stops (convert libc env p s) k
        λ names v e. rw (convert-keeps libc env p s v names e) (h names)

  module _ (item : MemoryItem) (free_type : MemoryType) (address count trace : ℕ)
      (uses : UsesDefault libc env s) where
    report-Stops :
        (type : FailureType)
        → is_fatal type ≡ true
        → Stops (report libc env type item free_type address count trace s)
    unfolding report is_fatal report_double_free report_bad_realloc_mem_not_exist
        report_bad_realloc_deleted_mem report_bad_realloc_created_by_wrong_alloc
        report_free_missmatch report_possibility_of_memory_leak report_sig_segv_handler failure_data
    report-Stops FailureType.unknown f = cc
    report-Stops FailureType.dealloc_of_non_existing_memory f = cc
    report-Stops FailureType.double_free f = reads-Stops item.alloc_trace _ λ _.
        reads-Stops item.dealloc_trace _
          λ _. reads-Stops trace _ λ _. (exited 1, free_exits libc env _ address s uses refl)
    report-Stops FailureType.bad_realloc_mem_not_exist f =
        reads-Stops trace _ λ _. (exited 1, realloc_exits libc env _ address count s uses refl)
    report-Stops FailureType.bad_realloc_deleted_mem f = reads-Stops item.alloc_trace _ λ _.
        reads-Stops item.dealloc_trace _ λ _.
          reads-Stops trace _ λ _. (exited 1, realloc_exits libc env _ address count s uses refl)
    report-Stops FailureType.bad_realloc_created_by_wrong_alloc f =
        reads-Stops item.alloc_trace _ λ _.
          reads-Stops trace _ λ _. (exited 1, realloc_exits libc env _ address count s uses refl)
    report-Stops FailureType.free_missmatch f =
        reads-Stops item.alloc_trace _
          λ _. reads-Stops trace _ λ _. (exited 1, free_exits libc env _ address s uses refl)
    report-Stops FailureType.possibility_of_memory_leak f =
        reads-Stops item.alloc_trace _ λ _. (exited 1, free_exits libc env _ address s uses refl)
    report-Stops FailureType.sig_segv_handler f =
        reads-Stops trace _ λ _. (exited 1, free_exits libc env _ address s uses refl)

    pub report_fatal-Stops :
        (type : FailureType)
        → is_fatal type ≡ true
        → Stops (init_failure_data_and_call_clbk libc env item free_type address count type trace s)
    unfolding init_failure_data_and_call_clbk
    report_fatal-Stops type f = let (e, h) = report-Stops type f in (e, bind-stop _ h)
