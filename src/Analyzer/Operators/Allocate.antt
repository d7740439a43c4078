-- ===== src/Analyzer/Operators/Allocate.antt =====
-- `TestOperatorAlloc` of src/core/basic/crash_investigator_alloc_dealloc_analyze.cpp of a thread that
-- is outside of the analyser.
use old_crash_investigator.Base.{
  ℕ, ◌+◌, ◌≡◌, ◌≢◌, refl, sym, ap, ◌∙◌, Bool, false, none, some, List, ◌∷◌, ne→==, ok, Returns,
  null, arith,
}
use old_crash_investigator.Analyzer.Keeps.{Keeps-trans, mallocn-traces, capture-Captures}
use old_crash_investigator.Analyzer.Keeps.Recording.{count_stack-Keeps}
use old_crash_investigator.Analyzer.Monad.{◌>>=◌}
use old_crash_investigator.Analyzer.Monad.Chain.{bind-step, bind-returns}
use old_crash_investigator.Analyzer.Operators.{alloc_tracked, test_operator_alloc}
use old_crash_investigator.Analyzer.Operators.Delete.{
  Memories, entry_of, IsOutside, locked, unlocked, entered, lock_free,
}
use old_crash_investigator.Analyzer.Operators.Record.{
  entry_at, newest_found, record_memory_item-new,
}
use old_crash_investigator.Analyzer.State.{
  State, Env, MemoryItem, allocated, mallocn, unlock, init_backtrace_data_for_current_stack,
}
use old_crash_investigator.Analyzer.Track.{
  returned, with_handler, set_allocing, record_memory_item, count_stack,
  add_new_allocated_memory_no_lock, add_new_allocated_memory,
}
use old_crash_investigator.Failure.{MemoryType}
use old_crash_investigator.HashItems.Contents.{Contains}
use old_crash_investigator.RawAlloc.{Libc}

-- The item of a new memory.
abbrev pub new_item : MemoryType → (address trace : ℕ) → MemoryItem
new_item type address trace = record {
  type = type;
  status = allocated;
  real_address = address;
  alloc_trace = trace;
  dealloc_trace = null;
}

module _ (libc : Libc) (env : Env) where
  -- The two steps under the mutex return, and the table holds the new entry.
  pub recorded :
      (s w y : State libc) (es : Memories) (type : MemoryType) (p trace fresh : ℕ)
      → Contains s.memory_items es
      → entry_of p es ≡ none
      → mallocn libc 80 s ≡ ok (fresh, w)
      → fresh ≢ null
      → s.memory_items.items fresh ≡ none
      → (record_memory_item libc env p (new_item type p trace) >>= λ _. count_stack libc env trace)
          s
        ≡ ok (false, y)
      → (add_new_allocated_memory_no_lock libc env type p trace s ≡ ok (p, y))
        × Contains y.memory_items (entry_at fresh p (new_item type p trace) ∷ es)
        × (y.clbk_data ≡ s.clbk_data)
  unfolding add_new_allocated_memory_no_lock
  recorded s w y es type p trace fresh c missing node real free runs =
      let (r, records, result) =
        record_memory_item-new libc env s w es p fresh (new_item type p trace) c missing node real
          free in
      let (x, v, one, rest) =
        bind-returns (record_memory_item libc env p (new_item type p trace))
          (λ _. count_stack libc env trace) s runs in
      let k = count_stack-Keeps libc env trace v y false rest in
      let same : r.1 ≡ v = ground arith in
      (
        bind-step _ one (bind-step _ rest refl),
        rw (k.memory_items, ← same) result.0,
        k.clbk_data ∙ sym (ap (λ z. z.clbk_data) same) ∙ result.2,
      )

  -- The call of the thread returns the memory.
  tracked :
      (s a b y : State libc) (count p trace go_back : ℕ) (type : MemoryType) (throws : Bool)
      (frames : List ℕ)
      → count ≢ 0
      → p ≢ null
      → mallocn libc count s ≡ ok (p, a)
      → init_backtrace_data_for_current_stack libc (go_back + 1 + 1) frames a ≡ ok (trace, b)
      → b.locked ≡ false
      → add_new_allocated_memory_no_lock libc env type p trace (locked libc b) ≡ ok (p, y)
      → alloc_tracked libc env count type throws go_back frames s ≡ ok (returned p, unlocked libc y)
  unfolding alloc_tracked add_new_allocated_memory unlock
  tracked s a b y count p trace go_back type throws frames some_bytes real mallocs captured open'
        adds =
      rw (ne→== count 0 some_bytes) (
        bind-step _ mallocs (
          rw (ne→== p null real) (
            bind-step _
              (bind-step _ captured (bind-step _ (lock_free libc b open') (bind-step _ adds refl)))
              refl)))

  -- `TestOperatorAlloc` of a thread that is outside of the analyser, for some bytes, where the C
  -- library has memory `p` for them and for the trace, the table has no entry for `p`, `mallocn` has
  -- memory at `fresh` for one, and the stack is counted without passing its limit: the call returns
  -- `p`, also where it could throw; the table has the entry of `p` in front of the old ones,
  -- allocated, of the routine's kind and with the trace of the call; the address leads to it; the
  -- mutex is unlocked, the thread is outside again, and the callbacks are the same.
  pub test_operator_alloc-tracks :
      (s a b w y : State libc) (es : Memories) (count p trace fresh go_back : ℕ) (type : MemoryType)
      (throws : Bool) (frames : List ℕ)
      → IsOutside libc s es
      → count ≢ 0
      → mallocn libc count (entered libc s) ≡ ok (p, a)
      → p ≢ null
      → entry_of p es ≡ none
      → init_backtrace_data_for_current_stack libc (go_back + 1 + 1) frames a ≡ ok (trace, b)
      → mallocn libc 80 (locked libc b) ≡ ok (fresh, w)
      → fresh ≢ null
      → s.memory_items.items fresh ≡ none
      → (record_memory_item libc env p (new_item type p trace) >>= λ _. count_stack libc env trace)
          (locked libc b)
        ≡ ok (false, y)
      → Returns (test_operator_alloc libc env count type throws go_back frames s) λ r.
        (r.0 ≡ returned p)
        × IsOutside libc r.1 (entry_at fresh p (new_item type p trace) ∷ es)
        × (entry_of p (entry_at fresh p (new_item type p trace) ∷ es)
            ≡ some (entry_at fresh p (new_item type p trace)))
        × (r.1.clbk_data ≡ s.clbk_data)
  unfolding test_operator_alloc with_handler set_allocing
  test_operator_alloc-tracks s a b w y es count p trace fresh go_back type throws frames out
        some_bytes mallocs real missing captured node fresh_real free counts =
      let k = (mallocn-traces libc count (entered libc s) a p mallocs).0 in
      let l = (capture-Captures libc (go_back + 1 + 1) frames a b trace captured).keeps in
      let m = Keeps-trans libc (entered libc s) a b k l in
      let c : Contains b.memory_items es = rw m.memory_items out.contains in
      let (adds, holds, callbacks) =
        recorded (locked libc b) w y es type p trace fresh c missing node fresh_real
          (rw m.memory_items free) counts in
      let z = record (unlocked libc y) { is_allocing_or_deallocing = false } in
      (
        (returned p, z),
        rw (out.flag) (
            bind-step _
              (tracked (entered libc s) a b y count p trace go_back type throws frames some_bytes
                real mallocs captured (m.locked ∙ out.unlocked) adds)
              refl),
        (
          refl,
          record { flag = refl; unlocked = refl; contains = holds },
          newest_found fresh p (new_item type p trace) es,
          callbacks ∙ m.clbk_data,
        ),
      )
