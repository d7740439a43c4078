-- ===== src/Analyzer/Operators/Delete/Wrong.antt =====
-- `TestOperatorDelete` of src/core/basic/crash_investigator_alloc_dealloc_analyze.cpp of memory that is
-- not to be freed so, with the default callback.
use old_crash_investigator.Base.{
  ℕ, ◌+◌, ◌≡◌, ◌≢◌, ◌⊎◌, refl, ◌∙◌, inl, inr, true, false, ◌&&◌, some, List, Bool-cases, ok, stop,
  exited, null,
}
use old_crash_investigator.Analyzer.Monad.Chain.{bind-step, bind-stop, Stops, bind-Stops, Run-cases}
use old_crash_investigator.Analyzer.Keeps.{capture-Captures, IsReadable}
use old_crash_investigator.Analyzer.Keeps.Counting.{take_stack_out-Keeps}
use old_crash_investigator.Analyzer.Operators.{
  delete_allocated, delete_deallocated, delete_tracked, test_operator_delete,
}
use old_crash_investigator.Analyzer.Report.Exits.{
  UsesDefault, CanReport, init_failure_data_and_call_clbk-exits,
}
use old_crash_investigator.Analyzer.Report.Stops.{report_fatal-Stops}
use old_crash_investigator.Analyzer.State.{
  State, Env, MemoryItem, unlock, init_backtrace_data_for_current_stack,
}
use old_crash_investigator.Analyzer.Track.{is_allocated, same_type, take_stack_out}
use old_crash_investigator.Failure.{MemoryType, FailureType}
use old_crash_investigator.Failure.Default.{is_fatal}
use old_crash_investigator.HashItems.Contents.{Entry}
use old_crash_investigator.RawAlloc.{Libc}
use old_crash_investigator.Analyzer.Operators.Delete.{
  Memories, entry_of, IsOutside, locked, unlocked, entered, delete_outside, on_entry, tracked_found,
  no_capture-Stops, fits,
}

module _ (libc : Libc) where
  module _ (env : Env) (ptr : ℕ) where
    -- What the analyser has at the second free, with the default callback: the two traces of the
    -- memory live or are null.
    pub record FreedBefore (s : State libc) (es : Memories) (e : Entry ℕ MemoryItem) : Type 0 where
      pub outside : IsOutside libc s es
      pub found : entry_of ptr es ≡ some e
      pub freed : is_allocated e.value.status ≡ false
      pub uses : UsesDefault libc env s
      pub alloc : IsReadable libc s e.value.alloc_trace
      pub dealloc : IsReadable libc s e.value.dealloc_trace

  module _ (env : Env) (ptr : ℕ) (type : MemoryType) (go_back : ℕ) (frames : List ℕ) where
    -- A pointer whose memory has been freed is not freed again: with the default callback the program
    -- ends with code 1, where the trace of the call can be taken and the traces of the memory live.
    pub double_free-exits :
        (s v : State libc) (es : Memories) (e : Entry ℕ MemoryItem) (trace : ℕ)
        → ptr ≢ null
        → FreedBefore env ptr s es e
        → init_backtrace_data_for_current_stack libc (go_back + 1) frames (entered libc s)
          ≡ ok (trace, v)
        → test_operator_delete libc env ptr type go_back frames s ≡ stop (exited 1)
    unfolding delete_deallocated unlock is_fatal
    double_free-exits s v es e trace real f captured =
        let cap = capture-Captures libc (go_back + 1) frames (entered libc s) v trace captured in
        delete_outside libc env ptr type go_back frames s real f.outside.flag
        ∙ bind-stop _ (
            tracked_found libc env ptr type go_back frames (entered libc s) v es e trace
              f.outside.unlocked f.outside.contains f.found captured
            ∙ rw f.freed (
                bind-stop _ (
                  init_failure_data_and_call_clbk-exits libc env e.value MemoryType.not_provided ptr
                    0 trace (unlocked libc v) (rw cap.keeps.clbk_data f.uses)
                    (record {
                      alloc = cap.others e.value.alloc_trace f.alloc;
                      dealloc = cap.others e.value.dealloc_trace f.dealloc;
                      analize = cap.readable;
                    })
                    FailureType.double_free refl)))

    -- Memory is not freed by a routine that does not go with its allocation: with the default callback,
    -- and outside of the analyser, a call of `TestOperatorDelete` for a pointer whose entry is allocated
    -- by another kind of routine ends the program with code 1, where the trace of the call can be
    -- taken, the stack of the allocation can be taken out of the counts, and the traces then live. The
    -- C library's `free` is not asked: whatever it does, the end is the same.
    pub wrong_routine-exits :
        (s v c : State libc) (es : Memories) (e : Entry ℕ MemoryItem) (trace : ℕ)
        → ptr ≢ null
        → IsOutside libc s es
        → entry_of ptr es ≡ some e
        → is_allocated e.value.status ≡ true
        → same_type e.value.type type ≡ false
        → UsesDefault libc env s
        → init_backtrace_data_for_current_stack libc (go_back + 1) frames (entered libc s)
          ≡ ok (trace, v)
        → take_stack_out libc env e.value.alloc_trace (locked libc v) ≡ ok (tt, c)
        → CanReport libc env c e.value trace
        → test_operator_delete libc env ptr type go_back frames s ≡ stop (exited 1)
    unfolding delete_allocated unlock is_fatal
    wrong_routine-exits s v c es e trace real out found live wrong uses captured counts readable =
        let k =
          (capture-Captures libc (go_back + 1) frames (entered libc s) v trace captured).keeps in
        let l = take_stack_out-Keeps libc env e.value.alloc_trace (locked libc v) c tt counts in
        delete_outside libc env ptr type go_back frames s real out.flag
        ∙ bind-stop _ (
            tracked_found libc env ptr type go_back frames (entered libc s) v es e trace
              out.unlocked out.contains found captured
            ∙ rw live (
                bind-step _ counts (
                  rw wrong (
                    bind-stop _ (
                      init_failure_data_and_call_clbk-exits libc env e.value MemoryType.not_provided
                        ptr 0 trace (unlocked libc c) (rw (l.clbk_data, k.clbk_data) uses)
                        (record {
                          alloc = readable.alloc;
                          dealloc = readable.dealloc;
                          analize = readable.analize;
                        })
                        FailureType.free_missmatch refl)))))

    allocated_mismatch-Stops :
        (s : State libc) (e : Entry ℕ MemoryItem) (trace : ℕ)
        → UsesDefault libc env s
        → same_type e.value.type type ≡ false
        → Stops (delete_allocated libc env ptr type trace e.ptr e.value s)
    unfolding delete_allocated unlock is_fatal
    allocated_mismatch-Stops s e trace uses wrong =
        bind-Stops (take_stack_out libc env e.value.alloc_trace s) _ λ x w taken.
          let k = take_stack_out-Keeps libc env e.value.alloc_trace s w x taken in
          rw wrong (
            let (stopped, h) =
              report_fatal-Stops libc env (unlocked libc w) e.value MemoryType.not_provided ptr 0
                trace (rw k.clbk_data uses) FailureType.free_missmatch refl in
            (stopped, bind-stop _ h))

    on_entry-Stops :
        (s : State libc) (e : Entry ℕ MemoryItem) (trace : ℕ)
        → UsesDefault libc env s
        → fits libc env ptr type go_back frames e ≡ false
        → Stops (on_entry libc env ptr type go_back frames trace e s)
    unfolding delete_deallocated unlock is_fatal
    on_entry-Stops s e trace uses wrong = elim (Bool-cases (is_allocated e.value.status)) [
      | inl live ↦ rw live (allocated_mismatch-Stops s e trace uses (rw live at wrong))
      | inr dead ↦ rw dead (
          let (stopped, h) =
            report_fatal-Stops libc env (unlocked libc s) e.value MemoryType.not_provided ptr 0
              trace uses FailureType.double_free refl in
          (stopped, bind-stop _ h))
    ]

    -- With the default callback, and outside of the analyser, a call of `TestOperatorDelete` for a pointer in the table of memories does not return, if the memory is
    -- not allocated any more or was allocated by another kind of routine.
    pub wrong_delete-Stops :
        (s : State libc) (es : Memories) (e : Entry ℕ MemoryItem)
        → ptr ≢ null
        → IsOutside libc s es
        → entry_of ptr es ≡ some e
        → UsesDefault libc env s
        → (is_allocated e.value.status && same_type e.value.type type) ≡ false
        → Stops (test_operator_delete libc env ptr type go_back frames s)
    wrong_delete-Stops s es e real out found uses wrong =
        let (stopped, h) = inner (
          Run-cases
            (init_backtrace_data_for_current_stack libc (go_back + 1) frames (entered libc s))) in
        (stopped, delete_outside libc env ptr type go_back frames s real out.flag ∙ bind-stop _ h)
      where
        inner :
            ((r : ℕ × State libc) × (init_backtrace_data_for_current_stack libc
                    (go_back + 1)
                    frames
                    (entered libc s)
                  ≡ ok r))
              ⊎ Stops
                  (init_backtrace_data_for_current_stack libc (go_back + 1) frames (entered libc s))
            → Stops (delete_tracked libc env ptr type go_back frames (entered libc s))
        inner (inr failed) =
            no_capture-Stops libc env ptr type go_back frames (entered libc s) failed
        inner (inl ((trace, v), captured)) =
            let k =
              (capture-Captures libc (go_back + 1) frames (entered libc s) v trace
                captured).keeps in
            let (stopped, h) = on_entry-Stops (locked libc v) e trace (rw k.clbk_data uses) wrong in
            (
              stopped,
              tracked_found libc env ptr type go_back frames (entered libc s) v es e trace
                    out.unlocked out.contains found captured
                  ∙ h,
            )
