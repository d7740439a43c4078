-- ===== src/Analyzer/Operators/Delete/Freed.antt =====
-- What `TestOperatorDelete` of src/core/basic/crash_investigator_alloc_dealloc_analyze.cpp has done
-- where it returns, and a second free of the same pointer.
use old_crash_investigator.Base.{
  ℕ, ◌+◌, ◌%◌, ◌≡◌, ◌≢◌, ◌⊎◌, refl, sym, ◌∙◌, inl, inr, true, false, ◌&&◌, some, List, ◌==◌, ok,
  null, hash_size, arith,
}
use old_crash_investigator.Analyzer.Monad.Chain.{and_then-returns, Stops, Run-cases}
use old_crash_investigator.Analyzer.Keeps.{capture-Captures, freen-traces}
use old_crash_investigator.Analyzer.Keeps.Counting.{take_stack_out-Keeps}
use old_crash_investigator.Analyzer.Monad.{◌>>=◌}
use old_crash_investigator.Analyzer.Operators.{
  delete_allocated, delete_tracked, test_operator_delete,
}
use old_crash_investigator.Analyzer.Report.Exits.{UsesDefault}
use old_crash_investigator.Analyzer.State.{
  State, Act, Env, MemoryItem, deallocated, freen, unlock, init_backtrace_data_for_current_stack,
  set_memory_item,
}
use old_crash_investigator.Analyzer.Track.{is_allocated, same_type, set_allocing, take_stack_out}
use old_crash_investigator.Failure.{MemoryType}
use old_crash_investigator.HashItems.Assign.{assign_at}
use old_crash_investigator.HashItems.Contents.{Entry, Contains}
use old_crash_investigator.RawAlloc.{Libc}
use old_crash_investigator.Analyzer.Operators.Delete.{
  Memories, entry_of, IsOutside, locked, unlocked, entered, delete_outside, tracked_found,
  no_capture-Stops, fits,
}
use old_crash_investigator.Analyzer.Operators.Delete.Wrong.{wrong_delete-Stops}
use old_crash_investigator.HashItems.Assign.{find_in-assign_at}
use old_crash_investigator.Analyzer.Operators.Retire.{set_memory_item-Marks}

module _ (libc : Libc) where
  module _ (env : Env) (ptr : ℕ) (type : MemoryType) (go_back : ℕ) (frames : List ℕ) where
    -- The entry after the free, with the trace of the call.
    abbrev pub after_free : Entry ℕ MemoryItem → ℕ → MemoryItem
    after_free e trace = record (e.value) { status = deallocated; dealloc_trace = trace }

    -- What the call has done, where it returns.
    pub record Freed (s : State libc) (es : Memories) (e : Entry ℕ MemoryItem) (u : State libc)
        : Type 0 where
      pub trace : ℕ
      pub outside : IsOutside libc u (assign_at e.ptr (after_free e trace) es)
      pub clbk_data : u.clbk_data ≡ s.clbk_data

    -- The part of the call under the mutex, and the free.
    abbrev marking : Entry ℕ MemoryItem → ℕ → Act libc (Unit {0})
    marking e trace = set_memory_item libc e.ptr (after_free e trace) >>= λ _.
        unlock libc >>= λ _. freen libc e.value.real_address

    marking-Freed :
        (s u : State libc) (es : Memories) (e : Entry ℕ MemoryItem) (trace : ℕ) (x : Unit {0})
        → Contains s.memory_items es
        → entry_of ptr es ≡ some e
        → marking e trace s ≡ ok (x, u)
        → Contains u.memory_items (assign_at e.ptr (after_free e trace) es)
          × (u.locked ≡ false)
          × (u.clbk_data ≡ s.clbk_data)
    unfolding unlock
    marking-Freed s u es e trace x c found h =
        let (y, v, one, rest) =
          and_then-returns (set_memory_item libc e.ptr (after_free e trace) s) _ h in
        let m = set_memory_item-Marks libc env s v es e (after_free e trace) ptr y c found one in
        let k = (freen-traces libc e.value.real_address (unlocked libc v) u x rest).0 in
        (rw k.memory_items m.contains, k.locked, k.clbk_data ∙ m.clbk_data)

    allocated-Freed :
        (s u : State libc) (es : Memories) (e : Entry ℕ MemoryItem) (trace : ℕ) (x : Unit {0})
        → Contains s.memory_items es
        → entry_of ptr es ≡ some e
        → same_type e.value.type type ≡ true
        → delete_allocated libc env ptr type trace e.ptr e.value s ≡ ok (x, u)
        → Contains u.memory_items (assign_at e.ptr (after_free e trace) es)
          × (u.locked ≡ false)
          × (u.clbk_data ≡ s.clbk_data)
    unfolding delete_allocated
    allocated-Freed s u es e trace x c found right h =
        let (y, v, one, rest) =
          and_then-returns (take_stack_out libc env e.value.alloc_trace s) _ h in
        let k = take_stack_out-Keeps libc env e.value.alloc_trace s v y one in
        let (c', open', same) =
          marking-Freed v u es e trace x (rw k.memory_items c) found (rw right at rest) in
        (c', open', same ∙ k.clbk_data)

    tracked-Freed :
        (s u : State libc) (es : Memories) (e : Entry ℕ MemoryItem) (x : Unit {0})
        → s.locked ≡ false
        → Contains s.memory_items es
        → entry_of ptr es ≡ some e
        → fits libc env ptr type go_back frames e ≡ true
        → delete_tracked libc env ptr type go_back frames s ≡ ok (x, u)
        → (trace : ℕ) × Contains u.memory_items (assign_at e.ptr (after_free e trace) es)
          × (u.locked ≡ false)
          × (u.clbk_data ≡ s.clbk_data)
    tracked-Freed s u es e x free c found right h =
        go (Run-cases (init_backtrace_data_for_current_stack libc (go_back + 1) frames s))
      where
        go :
            ((r : ℕ × State libc) × (init_backtrace_data_for_current_stack libc
                    (go_back + 1)
                    frames
                    s
                  ≡ ok r))
              ⊎ Stops (init_backtrace_data_for_current_stack libc (go_back + 1) frames s)
            → (trace : ℕ) × Contains u.memory_items (assign_at e.ptr (after_free e trace) es)
              × (u.locked ≡ false)
              × (u.clbk_data ≡ s.clbk_data)
        go (inr failed) =
            let (stopped, no_result) = no_capture-Stops libc env ptr type go_back frames s failed in
            cc
        go (inl ((trace, v), captured)) =
            let k = (capture-Captures libc (go_back + 1) frames s v trace captured).keeps in
            let live : is_allocated e.value.status ≡ true = ground arith in
            let kind : same_type e.value.type type ≡ true = ground arith in
            let runs =
              sym (
                tracked_found libc env ptr type go_back frames s v es e trace free c found captured)
              ∙ h in
            let (c', free', same) =
              allocated-Freed (locked libc v) u es e trace x (rw k.memory_items c) found kind
                (rw live at runs) in
            (trace, c', free', same ∙ k.clbk_data)

    -- Where `TestOperatorDelete`, called outside of the analyser, returns for a pointer whose entry
    -- is allocated by the routine's kind, the entry is marked as deallocated, with some trace, and the other entries are as they were; the mutex is unlocked, the thread is outside of
    -- the analyser again, and the callbacks are the same.
    pub test_operator_delete-Freed :
        (s u : State libc) (es : Memories) (e : Entry ℕ MemoryItem) (x : Unit {0})
        → ptr ≢ null
        → IsOutside libc s es
        → entry_of ptr es ≡ some e
        → (is_allocated e.value.status && same_type e.value.type type) ≡ true
        → test_operator_delete libc env ptr type go_back frames s ≡ ok (x, u)
        → Freed s es e u
    unfolding set_allocing
    test_operator_delete-Freed s u es e x real out found right h =
        let (y, v, one, rest) =
          and_then-returns (delete_tracked libc env ptr type go_back frames (entered libc s)) _
            (sym (delete_outside libc env ptr type go_back frames s real out.flag) ∙ h) in
        let (trace, c, free, same) =
          tracked-Freed (entered libc s) v es e y out.unlocked out.contains found right one in
        let last : record v { is_allocing_or_deallocing = false } ≡ u = ground arith in
        rw (← last) (record {
          trace = trace;
          outside = record { flag = refl; unlocked = free; contains = c };
          clbk_data = same;
        })

    -- A second free of a pointer does not return, whichever routine is called and however its stack
    -- looks: where the first call of `TestOperatorDelete` has freed memory that was allocated by the
    -- routine's kind, and the default callback is in place, the second one stops the program.
    pub test_operator_delete-twice :
        (type' : MemoryType) (go_back' : ℕ) (frames' : List ℕ) (s u : State libc) (es : Memories)
        (e : Entry ℕ MemoryItem) (x : Unit {0})
        → ptr ≢ null
        → IsOutside libc s es
        → entry_of ptr es ≡ some e
        → (is_allocated e.value.status && same_type e.value.type type) ≡ true
        → UsesDefault libc env s
        → test_operator_delete libc env ptr type go_back frames s ≡ ok (x, u)
        → Stops (test_operator_delete libc env ptr type' go_back' frames' u)
    unfolding is_allocated
    test_operator_delete-twice type' go_back' frames' s u es e x real out found right uses runs =
        let f = test_operator_delete-Freed s u es e x real out found right runs in
        wrong_delete-Stops libc env ptr type' go_back' frames' u
          (assign_at e.ptr (after_free e f.trace) es) (record e { value = after_free e f.trace })
          real f.outside
          (find_in-assign_at s.memory_items.items (λ a b. a == b) (ptr % hash_size) ptr
            (after_free e f.trace) es e out.contains.cells found)
          (rw f.clbk_data uses) refl
