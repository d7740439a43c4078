-- ===== src/Analyzer/Operators/Delete/Once.antt =====
-- `TestOperatorDelete` of src/core/basic/crash_investigator_alloc_dealloc_analyze.cpp returns for memory
-- that is allocated.
use old_crash_investigator.Base.{
  ℕ, ◌+◌, ◌%◌, ◌≡◌, ◌≢◌, refl, ◌∙◌, true, false, ◌&&◌, some, List, ◌==◌, ok, Returns, null,
  hash_size, arith,
}
use old_crash_investigator.Analyzer.Keeps.{capture-Captures}
use old_crash_investigator.Analyzer.Keeps.Counting.{take_stack_out-Keeps}
use old_crash_investigator.Analyzer.Monad.Chain.{bind-step}
use old_crash_investigator.Analyzer.Operators.{
  delete_allocated, delete_tracked, test_operator_delete,
}
use old_crash_investigator.Analyzer.Operators.Delete.{
  Memories, entry_of, IsOutside, locked, entered, delete_outside, tracked_found,
}
use old_crash_investigator.Analyzer.Operators.Delete.Freed.{after_free}
use old_crash_investigator.Analyzer.Operators.Retire.{Marks}
use old_crash_investigator.Analyzer.State.{
  State, Env, MemoryItem, freen, unlock, init_backtrace_data_for_current_stack, set_memory_item,
}
use old_crash_investigator.Analyzer.Track.{is_allocated, same_type, set_allocing, take_stack_out}
use old_crash_investigator.Failure.{MemoryType}
use old_crash_investigator.HashItems.Assign.{assign_at, set_second-Contains}
use old_crash_investigator.HashItems.Contents.{Entry, Contains}
use old_crash_investigator.HashItems.Lookup.{find_in-Found}
use old_crash_investigator.RawAlloc
use old_crash_investigator.RawAlloc.{Libc, Raw}

module _ (libc : Libc) (env : Env) (ptr : ℕ) (type : MemoryType) (go_back : ℕ)
    (frames : List ℕ) where
  -- What a free has done, with this trace and these variables of the library's own allocations.
  pub record FreedWith (s : State libc) (es : Memories) (e : Entry ℕ MemoryItem) (trace : ℕ)
      (raw : Raw libc) (u : State libc) : Type 0 where
    pub raw-is : u.raw ≡ raw
    pub outside :
        IsOutside libc u (assign_at e.ptr (after_free libc env ptr type go_back frames e trace) es)
    pub clbk_data : u.clbk_data ≡ s.clbk_data

  set_memory_item-runs :
      (s : State libc) (es : Memories) (e : Entry ℕ MemoryItem) (item : MemoryItem)
      → Contains s.memory_items es
      → entry_of ptr es ≡ some e
      → Returns
          (set_memory_item libc e.ptr item s)
          λ r. (r.1.raw ≡ s.raw) × Marks libc env s r.1 es e item
  unfolding set_memory_item
  set_memory_item-runs s es e item c found =
      let f =
        find_in-Found s.memory_items (λ a b. a == b) (ptr % hash_size) ptr es e c.cells found in
      let (t, runs, holds) =
        set_second-Contains e.ptr item s.memory_items f.item es c f.at f.inside in
      (
        (tt, record s { memory_items = t }),
        rw runs refl,
        (refl, record { contains = holds.0; absent = holds.1; clbk_data = refl }),
      )

  allocated-returns :
      (s c : State libc) (es : Memories) (e : Entry ℕ MemoryItem) (trace : ℕ) (raw : Raw libc)
      → Contains s.memory_items es
      → entry_of ptr es ≡ some e
      → same_type e.value.type type ≡ true
      → take_stack_out libc env e.value.alloc_trace s ≡ ok (tt, c)
      → RawAlloc.freen libc e.value.real_address c.raw ≡ ok raw
      → Returns (delete_allocated libc env ptr type trace e.ptr e.value s) λ r.
        (r.1.raw ≡ raw)
        × (r.1.locked ≡ false)
        × (r.1.clbk_data ≡ s.clbk_data)
        × Contains r.1.memory_items
            (assign_at e.ptr (after_free libc env ptr type go_back frames e trace) es)
  unfolding delete_allocated freen unlock
  allocated-returns s c es e trace raw holds found right counts frees =
      let k = take_stack_out-Keeps libc env e.value.alloc_trace s c tt counts in
      let ((x, v), sets, (same, marks)) =
        set_memory_item-runs c es e (after_free libc env ptr type go_back frames e trace)
          (rw k.memory_items holds) found in
      (
        (tt, record v { raw = raw; locked = false }),
        bind-step _ counts (rw right (bind-step _ sets (rw (same, frees) refl))),
        (refl, refl, marks.clbk_data ∙ k.clbk_data, marks.contains),
      )

  -- `TestOperatorDelete`, called outside of the analyser for a pointer whose entry is allocated by
  -- the routine's kind, returns, where the trace of the call can be taken, the stack of the allocation
  -- can be taken out of the counts, and the library's `freen` takes the memory back. What `freen` makes
  -- of the C library's memory is what there is afterwards. The entry is marked as deallocated, with the
  -- trace of the call, and the other entries are as they were; the mutex is unlocked, the thread is
  -- outside of the analyser again, and the callbacks are the same.
  pub test_operator_delete-returns :
      (s b c : State libc) (es : Memories) (e : Entry ℕ MemoryItem) (trace : ℕ) (raw : Raw libc)
      → ptr ≢ null
      → IsOutside libc s es
      → entry_of ptr es ≡ some e
      → (is_allocated e.value.status && same_type e.value.type type) ≡ true
      → init_backtrace_data_for_current_stack libc (go_back + 1) frames (entered libc s)
        ≡ ok (trace, b)
      → take_stack_out libc env e.value.alloc_trace (locked libc b) ≡ ok (tt, c)
      → RawAlloc.freen libc e.value.real_address c.raw ≡ ok raw
      → Returns
          (test_operator_delete libc env ptr type go_back frames s)
          λ r. FreedWith s es e trace raw r.1
  unfolding set_allocing
  test_operator_delete-returns s b c es e trace raw real out found right captured counts frees =
      let k =
        (capture-Captures libc (go_back + 1) frames (entered libc s) b trace captured).keeps in
      let live : is_allocated e.value.status ≡ true = ground arith in
      let kind : same_type e.value.type type ≡ true = ground arith in
      let ((x, u), returns, (is_raw, opened, callbacks, holds)) =
        allocated-returns (locked libc b) c es e trace raw (rw k.memory_items out.contains) found
          kind counts frees in
      let tracks : delete_tracked libc env ptr type go_back frames (entered libc s) ≡ ok (x, u) =
        tracked_found libc env ptr type go_back frames (entered libc s) b es e trace out.unlocked
          out.contains found captured
        ∙ rw live returns in
      (
        (tt, record u { is_allocing_or_deallocing = false }),
        delete_outside libc env ptr type go_back frames s real out.flag ∙ bind-step _ tracks refl,
        record {
          raw-is = is_raw;
          outside = record { flag = refl; unlocked = opened; contains = holds };
          clbk_data = callbacks ∙ k.clbk_data;
        },
      )
