-- ===== src/Analyzer/Operators/Delete.antt =====
-- `TestOperatorDelete` of src/core/basic/crash_investigator_alloc_dealloc_analyze.cpp of an address
-- that the table of memories has.
pub mod Wrong
pub mod Freed
pub mod Once
use old_crash_investigator.Base.{
  ℕ, ◌+◌, ◌%◌, ◌≡◌, ◌≢◌, ◌⊎◌, refl, sym, ap, ◌∙◌, inl, inr, Bool, true, false, not, ◌&&◌, Returns,
  Option, none, some, List, [], ◌∷◌, ◌==◌, ne→==, if◌then◌else◌, Bool-cases, Run, ok, stop, Stop,
  exited, null, hash_size, arith,
}
use old_crash_investigator.Analyzer.Monad.Chain.{
  and_then-returns, bind-returns, bind-step, bind-stop, Stops, bind-Stops, Run-cases,
}
use old_crash_investigator.Analyzer.Keeps.{
  Keeps, Keeps-trans, Captures, capture-Captures, IsReadable, freen-traces,
}
use old_crash_investigator.Analyzer.Keeps.Counting.{take_stack_out-Keeps}
use old_crash_investigator.Analyzer.Monad.{
  M, pure, ◌>>=◌, ◌>>◌, and_then, get, lift, lift_unit, lift_read,
}
use old_crash_investigator.Analyzer.Operators.{
  delete_allocated, delete_deallocated, delete_tracked, delete_unknown, test_operator_delete,
}
use old_crash_investigator.Analyzer.Report.{init_failure_data_and_call_clbk}
use old_crash_investigator.Analyzer.Report.Exits.{
  UsesDefault, CanReport, init_failure_data_and_call_clbk-exits,
}
use old_crash_investigator.Analyzer.Report.Stops.{report_fatal-Stops}
use old_crash_investigator.Analyzer.State.{
  State, Act, Env, MemoryItem, MemoryStatus, deallocated, freen, lock, unlock,
  init_backtrace_data_for_current_stack, find_memory_item, memory_item_at, set_memory_item,
}
use old_crash_investigator.Analyzer.Track.{
  is_allocated, same_type, with_handler, set_allocing, take_stack_out,
}
use old_crash_investigator.Failure.{MemoryType, FailureType}
use old_crash_investigator.Failure.Default.{is_fatal}
use old_crash_investigator.HashItems
use old_crash_investigator.HashItems.{Table}
use old_crash_investigator.HashItems.Assign.{assign_at, set_second-Contains}
use old_crash_investigator.HashItems.Contents.{Entry, Contains, has}
use old_crash_investigator.HashItems.Insert.{load_at}
use old_crash_investigator.HashItems.Lookup.{find_in, find_in-Found, find_entry-find_in, address}
use old_crash_investigator.RawAlloc.{Libc}

abbrev pub Memories : Type 0
Memories = List (Entry ℕ MemoryItem)

-- The entry that stands for an address.
abbrev pub entry_of : ℕ → Memories → Option (Entry ℕ MemoryItem)
entry_of ptr es = find_in (λ a b. a == b) (ptr % hash_size) ptr es

module _ (libc : Libc) where
  -- The thread is outside of the analyser, and the table holds these entries.
  pub record IsOutside (s : State libc) (es : Memories) : Type 0 where
    pub flag : s.is_allocing_or_deallocing ≡ false
    pub unlocked : s.locked ≡ false
    pub contains : Contains s.memory_items es

  module _ (s : State libc) (es : Memories) (ptr : ℕ) (e : Entry ℕ MemoryItem)
      (c : Contains s.memory_items es) (found : entry_of ptr es ≡ some e) where
    pub find_memory_item-found : find_memory_item libc ptr s ≡ ok ((e.ptr, ptr % hash_size), s)
    unfolding find_memory_item address
    find_memory_item-found =
        rw
          (
            find_entry-find_in (λ a b. a == b) (λ a b. ok (a == b)) (λ a b. refl) s.memory_items
                (λ k. ok k) ptr ptr es refl c,
            found,
          )
          refl

    pub memory_item_at-found : memory_item_at libc e.ptr s ≡ ok (e.value, s)
    unfolding memory_item_at
    memory_item_at-found =
        let f =
          find_in-Found s.memory_items (λ a b. a == b) (ptr % hash_size) ptr es e c.cells found in
        rw (load_at e.ptr s.memory_items f.item f.at, f.value) refl

    pub real-found : e.ptr ≢ null
    real-found =
        (find_in-Found s.memory_items (λ a b. a == b) (ptr % hash_size) ptr es e c.cells found).real

  abbrev pub locked : State libc → State libc
  locked s = record s { locked = true }

  pub lock_free : (s : State libc) → s.locked ≡ false → lock libc s ≡ ok (tt, locked s)
  unfolding lock
  lock_free s h = rw h refl

  abbrev pub unlocked : State libc → State libc
  unlocked s = record s { locked = false }

  abbrev pub entered : State libc → State libc
  entered s = record s { is_allocing_or_deallocing = true }

  module _ (env : Env) (ptr : ℕ) (type : MemoryType) (go_back : ℕ) (frames : List ℕ) where
    -- Outside of the analyser, `TestOperatorDelete` of a pointer that is not null is tracked.
    pub delete_outside :
        (s : State libc)
        → ptr ≢ null
        → s.is_allocing_or_deallocing ≡ false
        → test_operator_delete libc env ptr type go_back frames s
          ≡ and_then
              (delete_tracked libc env ptr type go_back frames (entered s))
              (λ x. set_allocing libc env false >>= λ _. pure x)
    unfolding test_operator_delete with_handler set_allocing
    delete_outside s real out = simp (ne→== ptr null real, out)

    -- What is done with an entry that is there.
    abbrev pub on_entry : ℕ → Entry ℕ MemoryItem → Act libc (Unit {0})
    on_entry trace e =
        if is_allocated e.value.status
        then delete_allocated libc env ptr type trace e.ptr e.value
        else delete_deallocated libc env ptr trace e.value

    module _ (s v : State libc) (es : Memories) (e : Entry ℕ MemoryItem) (trace : ℕ)
        (unlocked : s.locked ≡ false) (c : Contains s.memory_items es)
        (found : entry_of ptr es ≡ some e)
        (captured : init_backtrace_data_for_current_stack libc (go_back + 1) frames s
          ≡ ok (trace, v)) where
      pub tracked_found :
          delete_tracked libc env ptr type go_back frames s ≡ on_entry trace e (locked v)
      unfolding delete_tracked
      tracked_found =
          let k = (capture-Captures libc (go_back + 1) frames s v trace captured).keeps in
          let c' : Contains (locked v).memory_items es = rw k.memory_items c in
          bind-step _ captured (
            bind-step _ (lock_free v (k.locked ∙ unlocked)) (
              bind-step _ (find_memory_item-found (locked v) es ptr e c' found) (
                rw (ne→== e.ptr null (real-found (locked v) es ptr e c' found))
                  (bind-step _ (memory_item_at-found (locked v) es ptr e c' found) refl))))

    pub no_capture-Stops :
        (s : State libc)
        → Stops (init_backtrace_data_for_current_stack libc (go_back + 1) frames s)
        → Stops (delete_tracked libc env ptr type go_back frames s)
    unfolding delete_tracked
    no_capture-Stops s (e, h) = (e, bind-stop _ h)

    abbrev pub fits : Entry ℕ MemoryItem → Bool
    fits e = is_allocated e.value.status && same_type e.value.type type
