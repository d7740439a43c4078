-- ===== src/Analyzer/Report/Exits.antt =====
-- `InitFailureDataAndCallClbk` of src/core/basic/crash_investigator_alloc_dealloc_analyze.cpp with the
-- default callback.
use old_crash_investigator.Base.{ℕ, ◌≡◌, refl, ap, ◌∙◌, true, List, ◌++◌, ok, stop, exited}
use old_crash_investigator.Analyzer.Monad.{◌>>=◌}
use old_crash_investigator.Analyzer.State.{State, Env, MemoryItem}
use old_crash_investigator.Analyzer.Monad.Chain.{bind-step, bind-stop}
use old_crash_investigator.Analyzer.Keeps.{IsReadable, convert-returns}
use old_crash_investigator.Analyzer.Report.{
  call_clbk, free_by_action, realloc_by_action, failure_data, report_double_free,
  report_bad_realloc_mem_not_exist, report_bad_realloc_deleted_mem,
  report_bad_realloc_created_by_wrong_alloc, report_free_missmatch,
  report_possibility_of_memory_leak, report_sig_segv_handler, report,
  init_failure_data_and_call_clbk,
}
use old_crash_investigator.Failure.{
  MemoryType, FailureAction, FailureType, FailureData, Piece, or_default, default_failure_clbk,
}
use old_crash_investigator.Failure.Default.{is_fatal, default_failure_clbk-action}
use old_crash_investigator.RawAlloc.{Libc}

module _ (libc : Libc) (env : Env) where
  abbrev pub UsesDefault : State libc → Type 0
  UsesDefault s =
      or_default s.clbk_data.clbk_fnc (default_failure_clbk env.ndebug)
      ≡ default_failure_clbk env.ndebug

  call_clbk-runs :
      (d : FailureData) (s : State libc) (action : FailureAction) (pieces : List Piece)
      → UsesDefault s
      → default_failure_clbk env.ndebug d ≡ ok (action, pieces)
      → call_clbk libc env d s ≡ ok (action, record s { printed = s.printed ++ pieces })
  unfolding call_clbk
  call_clbk-runs d s action pieces uses runs = rw (call_clbk, uses, runs) refl

  -- The callback's answer to a fatal failure.
  pub call_clbk-fatal :
      (d : FailureData) (s : State libc)
      → UsesDefault s
      → is_fatal d.failure_type ≡ true
      → (u : State libc) × (call_clbk libc env d s ≡ ok (FailureAction.exit_app, u))
  unfolding is_fatal
  call_clbk-fatal d s uses fatal =
      let (r, runs, says) = default_failure_clbk-action env.ndebug d (λ e. cc (ap is_fatal e)) in
      (
        record s { printed = s.printed ++ r.1 },
        call_clbk-runs d s FailureAction.exit_app r.1 uses
            (runs ∙ ap (λ a. ok (a, r.1)) (says ∙ rw fatal refl)),
      )

  -- What the seven cases end with, after the callback's answer.
  pub free_exits :
      (d : FailureData) (address : ℕ) (s : State libc)
      → UsesDefault s
      → is_fatal d.failure_type ≡ true
      → (call_clbk libc env d >>= free_by_action libc env address) s ≡ stop (exited 1)
  unfolding free_by_action
  free_exits d address s uses fatal = simp ((call_clbk-fatal d s uses fatal).1)

  pub realloc_exits :
      (d : FailureData) (address count : ℕ) (s : State libc)
      → UsesDefault s
      → is_fatal d.failure_type ≡ true
      → (call_clbk libc env d >>= realloc_by_action libc env address count) s ≡ stop (exited 1)
  unfolding realloc_by_action
  realloc_exits d address count s uses fatal = simp ((call_clbk-fatal d s uses fatal).1)

  -- The traces that the reports read are null or live.
  pub record CanReport (s : State libc) (item : MemoryItem) (trace : ℕ) : Type 0 where
    pub alloc : IsReadable libc s item.alloc_trace
    pub dealloc : IsReadable libc s item.dealloc_trace
    pub analize : IsReadable libc s trace

  module _ (item : MemoryItem) (free_type : MemoryType) (address count trace : ℕ) (s : State libc)
      (uses : UsesDefault s) (can : CanReport s item trace) where
    double_free_exits :
        report libc env FailureType.double_free item free_type address count trace s
        ≡ stop (exited 1)
    unfolding report report_double_free failure_data is_fatal
    double_free_exits = bind-step _ (convert-returns libc env item.alloc_trace s can.alloc).1 (
        bind-step _ (convert-returns libc env item.dealloc_trace s can.dealloc).1 (
          bind-step _ (convert-returns libc env trace s can.analize).1
            (free_exits _ address s uses refl)))

    free_missmatch_exits :
        report libc env FailureType.free_missmatch item free_type address count trace s
        ≡ stop (exited 1)
    unfolding report report_free_missmatch failure_data is_fatal
    free_missmatch_exits = bind-step _ (convert-returns libc env item.alloc_trace s can.alloc).1 (
        bind-step _ (convert-returns libc env trace s can.analize).1
          (free_exits _ address s uses refl))

    leak_exits :
        report libc env FailureType.possibility_of_memory_leak item free_type address count trace s
        ≡ stop (exited 1)
    unfolding report report_possibility_of_memory_leak failure_data is_fatal
    leak_exits =
        bind-step _ (convert-returns libc env item.alloc_trace s can.alloc).1
          (free_exits _ address s uses refl)

    sig_segv_exits :
        report libc env FailureType.sig_segv_handler item free_type address count trace s
        ≡ stop (exited 1)
    unfolding report report_sig_segv_handler failure_data is_fatal
    sig_segv_exits =
        bind-step _ (convert-returns libc env trace s can.analize).1
          (free_exits _ address s uses refl)

    mem_not_exist_exits :
        report libc env FailureType.bad_realloc_mem_not_exist item free_type address count trace s
        ≡ stop (exited 1)
    unfolding report report_bad_realloc_mem_not_exist failure_data is_fatal
    mem_not_exist_exits =
        bind-step _ (convert-returns libc env trace s can.analize).1
          (realloc_exits _ address count s uses refl)

    deleted_mem_exits :
        report libc env FailureType.bad_realloc_deleted_mem item free_type address count trace s
        ≡ stop (exited 1)
    unfolding report report_bad_realloc_deleted_mem failure_data is_fatal
    deleted_mem_exits = bind-step _ (convert-returns libc env item.alloc_trace s can.alloc).1 (
        bind-step _ (convert-returns libc env item.dealloc_trace s can.dealloc).1 (
          bind-step _ (convert-returns libc env trace s can.analize).1
            (realloc_exits _ address count s uses refl)))

    wrong_alloc_exits :
        report libc env FailureType.bad_realloc_created_by_wrong_alloc item free_type address count
          trace s
        ≡ stop (exited 1)
    unfolding report report_bad_realloc_created_by_wrong_alloc failure_data is_fatal
    wrong_alloc_exits = bind-step _ (convert-returns libc env item.alloc_trace s can.alloc).1 (
        bind-step _ (convert-returns libc env trace s can.analize).1
          (realloc_exits _ address count s uses refl))

    -- With the default callback every report of a fatal failure ends the program with code 1, where
    -- the traces that it prints live.
    pub init_failure_data_and_call_clbk-exits :
        (type : FailureType)
        → is_fatal type ≡ true
        → init_failure_data_and_call_clbk libc env item free_type address count type trace s
          ≡ stop (exited 1)
    unfolding init_failure_data_and_call_clbk is_fatal
    init_failure_data_and_call_clbk-exits FailureType.unknown f = cc
    init_failure_data_and_call_clbk-exits FailureType.dealloc_of_non_existing_memory f = cc
    init_failure_data_and_call_clbk-exits FailureType.double_free f = bind-stop _ double_free_exits
    init_failure_data_and_call_clbk-exits FailureType.bad_realloc_mem_not_exist f =
        bind-stop _ mem_not_exist_exits
    init_failure_data_and_call_clbk-exits FailureType.bad_realloc_deleted_mem f =
        bind-stop _ deleted_mem_exits
    init_failure_data_and_call_clbk-exits FailureType.bad_realloc_created_by_wrong_alloc f =
        bind-stop _ wrong_alloc_exits
    init_failure_data_and_call_clbk-exits FailureType.free_missmatch f =
        bind-stop _ free_missmatch_exits
    init_failure_data_and_call_clbk-exits FailureType.possibility_of_memory_leak f =
        bind-stop _ leak_exits
    init_failure_data_and_call_clbk-exits FailureType.sig_segv_handler f =
        bind-stop _ sig_segv_exits
