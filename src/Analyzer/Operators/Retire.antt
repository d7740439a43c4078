-- ===== src/Analyzer/Operators/Retire.antt =====
-- What `TestOperatorReAlloc` of src/core/basic/crash_investigator_alloc_dealloc_analyze.cpp does with
-- the entry of memory that has moved.
use old_crash_investigator.Base.{
  Run, ℕ, ◌%◌, ◌≡◌, refl, ◌∙◌, none, some, ◌==◌, ok, arith, hash_size,
}
use old_crash_investigator.Analyzer.Keeps.Counting.{take_stack_out-Keeps}
use old_crash_investigator.Analyzer.Monad.{◌>>=◌}
use old_crash_investigator.Analyzer.Monad.Chain.{bind-returns}
use old_crash_investigator.Analyzer.Operators.Delete.{Memories, entry_of}
use old_crash_investigator.Analyzer.State.{State, Env, MemoryItem, deallocated, set_memory_item}
use old_crash_investigator.Analyzer.Track.{take_stack_out}
use old_crash_investigator.HashItems.Assign.{assign_at, set_second-Contains}
use old_crash_investigator.HashItems.Contents.{Entry, Contains}
use old_crash_investigator.HashItems.Lookup.{find_in-Found}
use old_crash_investigator.RawAlloc.{Libc}

-- The entry of a memory that has moved.
abbrev pub moved_item : Entry ℕ MemoryItem → MemoryItem
moved_item e = record (e.value) { status = deallocated }

module _ (libc : Libc) (env : Env) where
  -- The entry has the item, and nothing else that the table holds has changed.
  pub record Marks (s u : State libc) (es : Memories) (e : Entry ℕ MemoryItem) (item : MemoryItem)
      : Type 0 where
    pub contains : Contains u.memory_items (assign_at e.ptr item es)
    pub absent : (x : ℕ) → s.memory_items.items x ≡ none → u.memory_items.items x ≡ none
    pub clbk_data : u.clbk_data ≡ s.clbk_data

  pub set_memory_item-Marks :
      (s u : State libc) (es : Memories) (e : Entry ℕ MemoryItem) (item : MemoryItem) (ptr : ℕ)
      (x : Unit {0})
      → Contains s.memory_items es
      → entry_of ptr es ≡ some e
      → set_memory_item libc e.ptr item s ≡ ok (x, u)
      → Marks s u es e item
  unfolding set_memory_item
  set_memory_item-Marks s u es e item ptr x c found h =
      let f =
        find_in-Found s.memory_items (λ a b. a == b) (ptr % hash_size) ptr es e c.cells found in
      let (t, runs, holds) =
        set_second-Contains e.ptr item s.memory_items f.item es c f.at f.inside in
      let h' : ok (tt, record s { memory_items = t }) ≡ ok (x, u) = rw runs at h in
      let same : record s { memory_items = t } ≡ u = ground arith in
      rw (← same) (record { contains = holds.0; absent = holds.1; clbk_data = refl })

  -- The old memory is taken out of the counts and marked.
  abbrev pub retire : Entry ℕ MemoryItem → State libc → Run (Unit {0} × State libc)
  retire e =
      take_stack_out libc env e.value.alloc_trace >>= λ _. set_memory_item libc e.ptr (moved_item e)

  pub retire-Marks :
      (s u : State libc) (es : Memories) (e : Entry ℕ MemoryItem) (ptr : ℕ) (x : Unit {0})
      → Contains s.memory_items es
      → entry_of ptr es ≡ some e
      → retire e s ≡ ok (x, u)
      → Marks s u es e (moved_item e)
  retire-Marks s u es e ptr x c found h =
      let (y, v, one, rest) =
        bind-returns (take_stack_out libc env e.value.alloc_trace)
          (λ _. set_memory_item libc e.ptr (moved_item e)) s h in
      let k = take_stack_out-Keeps libc env e.value.alloc_trace s v y one in
      let m =
        set_memory_item-Marks v u es e (moved_item e) ptr x (rw k.memory_items c) found rest in
      record {
        contains = m.contains;
        absent = λ q n. m.absent q (rw k.memory_items n);
        clbk_data = m.clbk_data ∙ k.clbk_data;
      }
