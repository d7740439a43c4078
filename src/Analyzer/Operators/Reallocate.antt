-- ===== src/Analyzer/Operators/Reallocate.antt =====
-- `TestOperatorReAlloc` of src/core/basic/crash_investigator_alloc_dealloc_analyze.cpp of memory that
-- does not stay where it is.
use old_crash_investigator.Base.{
  ℕ, ◌+◌, ◌%◌, ◌≡◌, ◌≢◌, refl, ◌∙◌, true, false, ◌&&◌, none, some, List, ◌∷◌, ◌==◌, ne→==, ok,
  Returns, null, arith, hash_size,
}
use old_crash_investigator.Analyzer.Keeps.{Keeps, capture-Captures, reallocn-Keeps}
use old_crash_investigator.Analyzer.Monad.{◌>>=◌}
use old_crash_investigator.Analyzer.Monad.Chain.{bind-step, bind-returns, Stops}
use old_crash_investigator.Analyzer.Operators.{
  realloc_allocated, realloc_tracked, test_operator_realloc, test_operator_delete,
}
use old_crash_investigator.Analyzer.Operators.Allocate.{new_item, recorded}
use old_crash_investigator.Analyzer.Operators.Delete.{
  Memories, entry_of, IsOutside, locked, unlocked, entered, lock_free, find_memory_item-found,
  memory_item_at-found, real-found,
}
use old_crash_investigator.Analyzer.Operators.Record.{entry_at, older_found}
use old_crash_investigator.Analyzer.State.{
  State, Env, MemoryItem, mallocn, reallocn, unlock, init_backtrace_data_for_current_stack,
  set_memory_item,
}
use old_crash_investigator.Analyzer.Track.{
  returned, is_allocated, same_type, with_handler, set_allocing, record_memory_item, count_stack,
  take_stack_out, add_new_allocated_memory_no_lock,
}
use old_crash_investigator.Failure.{MemoryType}
use old_crash_investigator.HashItems.Assign.{assign_at, missing-assign_at}
use old_crash_investigator.HashItems.Contents.{Entry, Contains}
use old_crash_investigator.HashItems.Assign.{find_in-assign_at}
use old_crash_investigator.Analyzer.Operators.Delete.Wrong.{wrong_delete-Stops}
use old_crash_investigator.Analyzer.Report.Exits.{UsesDefault}
use old_crash_investigator.RawAlloc.{Libc}
use old_crash_investigator.Analyzer.Operators.Retire.{moved_item, Marks, retire, retire-Marks}

module _ (libc : Libc) (env : Env) where
  allocated_moves :
      (s c g y : State libc) (e : Entry ℕ MemoryItem) (ptr count trace r : ℕ)
      → r ≢ ptr
      → reallocn libc e.value.real_address count s ≡ ok (r, c)
      → retire libc env e c ≡ ok (tt, g)
      → add_new_allocated_memory_no_lock libc env MemoryType.malloc r trace g ≡ ok (r, y)
      → realloc_allocated libc env ptr count trace e.ptr e.value s ≡ ok (r, unlocked libc y)
  unfolding realloc_allocated unlock
  allocated_moves s c g y e ptr count trace r moved reallocs retires adds =
      let (x, v, one, rest) =
        bind-returns (take_stack_out libc env e.value.alloc_trace)
          (λ _. set_memory_item libc e.ptr (moved_item e)) c retires in
      bind-step _ reallocs
        (rw (ne→== r ptr moved) (bind-step _ one (bind-step _ rest (bind-step _ adds refl))))

  module _ (s b c g w y : State libc) (es : Memories) (e : Entry ℕ MemoryItem)
      (ptr count trace r fresh go_back : ℕ) (frames : List ℕ) (real : ptr ≢ null)
      (some_bytes : count ≢ 0) (out : IsOutside libc s es) (found : entry_of ptr es ≡ some e)
      (right : (is_allocated e.value.status && same_type e.value.type MemoryType.malloc) ≡ true)
      (captured : init_backtrace_data_for_current_stack libc (go_back + 1) frames (entered libc s)
        ≡ ok (trace, b))
      (reallocs : reallocn libc e.value.real_address count (locked libc b) ≡ ok (r, c))
      (moved : r ≢ ptr) (missing : entry_of r es ≡ none)
      (retires : retire libc env e c ≡ ok (tt, g)) (node : mallocn libc 80 g ≡ ok (fresh, w))
      (fresh_real : fresh ≢ null) (free : s.memory_items.items fresh ≡ none)
      (counts : (record_memory_item libc env r (new_item MemoryType.malloc r trace) >>= λ _.
            count_stack libc env trace)
          g
        ≡ ok (false, y)) where
    -- The entries afterwards.
    abbrev pub after_move : Memories
    after_move =
        entry_at fresh r (new_item MemoryType.malloc r trace) ∷ assign_at e.ptr (moved_item e) es

    capture-Keeps : Keeps libc (entered libc s) b
    capture-Keeps =
        (capture-Captures libc (go_back + 1) frames (entered libc s) b trace captured).keeps

    reallocn_kept : Keeps libc (locked libc b) c
    reallocn_kept = reallocn-Keeps libc e.value.real_address count (locked libc b) c r reallocs

    entries_kept : Contains b.memory_items es
    entries_kept = rw capture-Keeps.memory_items out.contains

    marks : Marks libc env c g es e (moved_item e)
    marks =
        retire-Marks libc env c g es e ptr tt (rw reallocn_kept.memory_items entries_kept) found
          retires

    records :
        (add_new_allocated_memory_no_lock libc env MemoryType.malloc r trace g ≡ ok (r, y))
        × Contains y.memory_items after_move
        × (y.clbk_data ≡ g.clbk_data)
    records =
        recorded libc env g w y (assign_at e.ptr (moved_item e) es) MemoryType.malloc r trace fresh
          marks.contains
          (missing-assign_at (λ a b. a == b) (r % hash_size) r e.ptr (moved_item e) es missing) node
          fresh_real
          (marks.absent fresh (rw (reallocn_kept.memory_items, capture-Keeps.memory_items) free))
          counts

    tracked_moves :
        realloc_tracked libc env ptr count go_back frames (entered libc s) ≡ ok (r, unlocked libc y)
    unfolding realloc_tracked
    tracked_moves =
        let live : is_allocated e.value.status ≡ true = ground arith in
        let kind : same_type e.value.type MemoryType.malloc ≡ true = ground arith in
        let at = locked libc b in
        bind-step _ captured (
          bind-step _ (lock_free libc b (capture-Keeps.locked ∙ out.unlocked)) (
            bind-step _ (find_memory_item-found libc at es ptr e entries_kept found) (
              rw (ne→== e.ptr null (real-found libc at es ptr e entries_kept found)) (
                bind-step _ (memory_item_at-found libc at es ptr e entries_kept found) (
                  rw (kind, live)
                    (allocated_moves at c g y e ptr count trace r moved reallocs retires
                      records.0))))))

    moves :
        Returns
          (test_operator_realloc libc env ptr count go_back frames s)
          λ q. (q.0 ≡ returned r) × IsOutside libc q.1 after_move × (q.1.clbk_data ≡ s.clbk_data)
    unfolding test_operator_realloc with_handler set_allocing
    moves = (
      (returned r, record (unlocked libc y) { is_allocing_or_deallocing = false }),
      rw (out.flag, ne→== ptr null real, ne→== count 0 some_bytes)
          (bind-step _ (bind-step _ tracked_moves refl) refl),
      (
        refl,
        record { flag = refl; unlocked = refl; contains = records.1 },
        records.2 ∙ marks.clbk_data ∙ reallocn_kept.clbk_data ∙ capture-Keeps.clbk_data,
      ),
    )

    old_found : entry_of ptr after_move ≡ some (record e { value = moved_item e })
    old_found =
        older_found fresh r ptr (new_item MemoryType.malloc r trace)
          (assign_at e.ptr (moved_item e) es) moved
        ∙ (find_in-assign_at s.memory_items.items (λ a b. a == b) (ptr % hash_size) ptr
            (moved_item e) es e out.contains.cells found)

    -- `TestOperatorReAlloc`, with the default callback in place, of memory that `malloc` and its kin
    -- allocated, to another count but 0, of a thread that is outside of the analyser, where `reallocn`
    -- returns another address `r` than the pointer, or null because it has failed, the table has no
    -- entry for `r`, the C library has memory for the trace and for one entry, the old stack is taken
    -- out of the counts, and the new one is counted without passing its limit: the call returns `r`;
    -- the table has an entry for `r` in front, allocated and with the trace of the call, null
    -- included, and the entry of the pointer is marked as deallocated; the mutex is unlocked, the
    -- thread is outside again, and the callbacks are the same. A free of the old pointer does not
    -- return from then on, whichever routine is called, also where `reallocn` has failed and the
    -- memory is still allocated.
    pub test_operator_realloc-moves :
        (type : MemoryType) (go_back' : ℕ) (frames' : List ℕ)
        → UsesDefault libc env s
        → Returns (test_operator_realloc libc env ptr count go_back frames s) λ q.
          (q.0 ≡ returned r)
          × IsOutside libc q.1 after_move
          × (q.1.clbk_data ≡ s.clbk_data)
          × Stops (test_operator_delete libc env ptr type go_back' frames' q.1)
    unfolding is_allocated
    test_operator_realloc-moves type go_back' frames' uses =
        let (q, runs, result) = moves in
        (
          q,
          runs,
          (
            result.0,
            result.1,
            result.2,
            wrong_delete-Stops libc env ptr type go_back' frames' q.1 after_move
                (record e { value = moved_item e }) real result.1 old_found (rw result.2 uses) refl,
          ),
        )
