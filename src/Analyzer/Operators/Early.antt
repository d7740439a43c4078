-- ===== src/Analyzer/Operators/Early.antt =====
-- `TestOperatorDelete` of src/core/basic/crash_investigator_alloc_dealloc_analyze.cpp of memory that
-- the memory pool of src/cpputilsm/cpputilsm_memorypool.cpp gave out before the C library's functions
-- were known.
use old_crash_investigator.Base.{
  ℕ, ◌+◌, ◌%◌, ◌≡◌, ◌≢◌, refl, ◌∙◌, true, false, none, some, List, ◌==◌, ok, Returns, null,
  hash_size,
}
use old_crash_investigator.Analyzer.Monad.Chain.{bind-step}
use old_crash_investigator.Analyzer.Keeps.{capture-Captures}
use old_crash_investigator.Analyzer.Operators.{
  lib_initial_dealloc, delete_unknown, delete_tracked, test_operator_delete,
}
use old_crash_investigator.Analyzer.Operators.Delete.{
  Memories, entry_of, IsOutside, locked, unlocked, entered, lock_free, delete_outside,
}
use old_crash_investigator.Analyzer.State.{
  State, Env, unlock, init_backtrace_data_for_current_stack, find_memory_item,
}
use old_crash_investigator.Analyzer.Track.{set_allocing}
use old_crash_investigator.Failure.{MemoryType}
use old_crash_investigator.HashItems.Contents.{Contains}
use old_crash_investigator.HashItems.Lookup.{find_entry-find_in, address}
use old_crash_investigator.MemoryPool.{Pool, item_size}
use old_crash_investigator.MemoryPool.Blocks.{Stack, count_at, free}
use old_crash_investigator.MemoryPool.Dealloc.{Frees, dealloc-Frees}
use old_crash_investigator.MemoryPool.Layout.{Represents, IsPlaced}
use old_crash_investigator.RawAlloc
use old_crash_investigator.RawAlloc.{Libc, Raw}

module _ (libc : Libc) (env : Env) where
  pub missing-found :
      (s : State libc) (es : Memories) (ptr : ℕ)
      → Contains s.memory_items es
      → entry_of ptr es ≡ none
      → find_memory_item libc ptr s ≡ ok ((null, ptr % hash_size), s)
  unfolding find_memory_item address
  missing-found s es ptr c missing =
      rw
        (
          find_entry-find_in (λ a b. a == b) (λ a b. ok (a == b)) (λ a b. refl) s.memory_items
              (λ k. ok k) ptr ptr es refl c,
          missing,
        )
        refl

  -- The memory is a block of the pool.
  pub record IsEarly (raw : Raw libc) (bs : Stack) (ptr o n : ℕ) : Type 0 where
    pub represents : Represents raw.mem_pool bs
    pub placed : IsPlaced raw.mem_pool
    pub block : count_at o bs ≡ some n
    pub at : ptr ≡ raw.mem_pool.buffer + o + item_size

  pool_dealloc :
      (s : State libc) (bs : Stack) (ptr o n : ℕ)
      → IsEarly s.raw bs ptr o n
      → (p : Pool) × (lib_initial_dealloc libc env ptr s
          ≡ ok (true, record s { raw = record (s.raw) { mem_pool = p } }))
        × Frees s.raw.mem_pool (free o bs) p
  unfolding lib_initial_dealloc RawAlloc.lib_initial_dealloc
  pool_dealloc s bs ptr o n early =
      let (r, runs, result) =
        dealloc-Frees s.raw.mem_pool bs o n early.represents early.placed early.block in
      (r.1, rw (early.at, runs, result.0) refl, result.1)

  -- Memory that the pool gave out goes back to the pool, and the C library's `free` does not see it:
  -- the call returns, where the trace of the call can be taken and the table of memories has no entry
  -- for the pointer.
  pub test_operator_delete-early :
      (s v : State libc) (es : Memories) (bs : Stack) (ptr o n go_back trace : ℕ)
      (type : MemoryType) (frames : List ℕ)
      → ptr ≢ null
      → IsOutside libc s es
      → entry_of ptr es ≡ none
      → init_backtrace_data_for_current_stack libc (go_back + 1) frames (entered libc s)
        ≡ ok (trace, v)
      → IsEarly v.raw bs ptr o n
      → Returns (test_operator_delete libc env ptr type go_back frames s) λ r.
        Frees v.raw.mem_pool (free o bs) r.1.raw.mem_pool
        × (r.1.raw.heap ≡ v.raw.heap)
        × IsOutside libc r.1 es
  unfolding delete_tracked delete_unknown set_allocing unlock
  test_operator_delete-early s v es bs ptr o n go_back trace type frames real out missing captured
        early =
      let k =
        (capture-Captures libc (go_back + 1) frames (entered libc s) v trace captured).keeps in
      let c' : Contains (locked libc v).memory_items es = rw k.memory_items out.contains in
      let (p, deallocs, frees) = pool_dealloc (unlocked libc v) bs ptr o n early in
      let gone = record (unlocked libc v) { raw = record (v.raw) { mem_pool = p } } in
      (
        (tt, record gone { is_allocing_or_deallocing = false }),
        delete_outside libc env ptr type go_back frames s real out.flag
            ∙ bind-step _
                (bind-step _ captured (
                  bind-step _ (lock_free libc v (k.locked ∙ out.unlocked)) (
                    bind-step _ (missing-found (locked libc v) es ptr c' missing)
                      (bind-step _ deallocs refl))))
                refl,
        (
          frees,
          refl,
          record { flag = refl; unlocked = refl; contains = rw k.memory_items out.contains },
        ),
      )
