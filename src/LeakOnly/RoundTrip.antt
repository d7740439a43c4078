-- ===== src/LeakOnly/RoundTrip.antt =====
-- A memory that is allocated and freed at once, in
-- src/core/analyze/crash_investigator_analyze_leak_only_new_delete.cpp.
use native.Mathlib.Decide.{ℕ_discrete}
use old_crash_investigator.Base.{
  ℕ, ◌+◌, ◌≤◌, ◌<◌, ◌≡◌, ◌⊎◌, sym, ◌∙◌, ap, Bool, false, Option, none, some, update, update_self,
  update_ne, ok, size_mod, length, arith,
}
use old_crash_investigator.Analyzer.Monad.{◌>>=◌}
use old_crash_investigator.Backtrace.{Backtrace}
use old_crash_investigator.Container.{Hash, IsHash, one_if}
use old_crash_investigator.LeakOnly.{CLibrary, State, Call, Trace}
use old_crash_investigator.LeakOnly.Operations.{free_mem, alloc_mem}
use old_crash_investigator.LeakOnly.Consistent.{IsLibrary, IsPlenty, Role, is_like, Consistent}
use old_crash_investigator.LeakOnly.Traces.{in_state}
use old_crash_investigator.LeakOnly.Alloc.{
  memories_like, Allocates, captured, alloc_mem_tracks, untracked,
}
use old_crash_investigator.LeakOnly.Free.{after_free, free_mem-Releases}

module _ (lib : CLibrary) (library : IsLibrary lib) (hash : Hash) (is_hash : IsHash hash)
    (base : State lib hash) {role : ℕ → Role} {heap : lib.Heap} {traces : ℕ → Option Trace}
    {mem stack : hash.Table} (c : Consistent lib library hash is_hash role heap traces mem stack)
    (call : Call) (size go_back : ℕ) where
  -- The two calls return, and the state is consistent; the table of memories is as it was, and so is
  -- the number of memories with any stack.
  pub record Restores : Type 0 where
    pub heap' : lib.Heap
    pub after_role : ℕ → Role
    pub after_traces : ℕ → Option Trace
    pub mem' : hash.Table
    pub stack' : hash.Table
    pub returns :
        (alloc_mem lib hash call size go_back >>= free_mem lib hash)
          (in_state lib hash base heap traces mem stack 0 false)
        ≡ ok (tt, after_free lib library hash is_hash base c heap' after_traces mem' stack')
    pub mem'-is : (a : ℕ) → is_hash.value_at mem' a ≡ is_hash.value_at mem a
    pub numbers :
        (b : Backtrace)
        → memories_like lib library hash is_hash b after_traces mem'
          ≡ memories_like lib library hash is_hash b traces mem
    pub consistent : Consistent lib library hash is_hash after_role heap' after_traces mem' stack'

  module _ (made : Allocates lib library hash is_hash base c call size go_back) where
    -- The numbers of memories after the allocation.
    pub more :
        (b : Backtrace)
        → memories_like lib library hash is_hash b made.after_traces made.mem'
          ≡ one_if (is_like b (made.after_traces made.at))
            + memories_like lib library hash is_hash b traces mem
    unfolding memories_like
    more b =
        made.mem'-counts (λ _ u. is_like b (made.after_traces u))
        ∙ ap (λ n. one_if (is_like b (made.after_traces made.at)) + n)
            (is_hash.count_where_ext _ _ mem c.mem-sound (λ q u e.
              ap (is_like b) (made.kept u (λ f. let g = sym (c.mem_trace q u e).1.0 ∙ f in cc)).1))

    one_if_le : (b : Bool) → one_if b ≤ 1
    one_if_le b = ground arith

  -- Where memory is plenty, the stack is not empty and no leak is reported, an allocation that is freed at
  -- once restores the tables.
  pub alloc_mem-free_mem :
      IsPlenty lib
      → 0 < length call.frames
      → memories_like lib library hash is_hash
            (captured lib library hash is_hash base c call size go_back)
            traces
            mem
          + 1
        < size_mod
      → (memories_like lib library hash is_hash
            (captured lib library hash is_hash base c call size go_back)
            traces
            mem
          ≡ 0)
        ⊎ ((memories_like lib library hash is_hash
                  (captured lib library hash is_hash base c call size go_back)
                  traces
                  mem
                + 1
              ≤ base.max_number_of_alloc_in_the_stack)
            ⊎ (call.now < base.init_time))
      → Restores
  alloc_mem-free_mem plenty deep small calm =
      let made =
        alloc_mem_tracks lib library hash is_hash base c call size go_back plenty deep small calm in
      let b = made.trace.backtrace in
      let few : memories_like lib library hash is_hash b made.after_traces made.mem' < size_mod =
        omega (
          arith,
          more made b,
          one_if_le made (is_like b (made.after_traces made.at)),
          small,
          ap (λ z. memories_like lib library hash is_hash z traces mem) made.at-is.1,
        ) in
      let p = (lib.malloc_fn size heap).0 in
      let freed =
        free_mem-Releases lib library hash is_hash base made.consistent p made.at made.trace
          (made.mem'-is p ∙ update_self (is_hash.value_at mem) p (some made.at)) made.at-is.0 few in
      record {
        heap' = freed.heap';
        after_role = freed.after_role;
        after_traces = freed.after_traces;
        mem' = freed.mem';
        stack' = freed.stack';
        returns = rw (made.returns) (freed.returns);
        mem'-is = λ a. freed.mem'-is a ∙ elim (ℕ_discrete a p) [
          | yes here ↦
              ap (update (is_hash.value_at made.mem') p none) here
              ∙ update_self (is_hash.value_at made.mem') p none
              ∙ sym (
                  ap (is_hash.value_at mem) here
                  ∙ untracked lib library hash is_hash base c call size go_back plenty deep)
          | no other ↦
              update_ne (is_hash.value_at made.mem') p a none other
              ∙ made.mem'-is a
              ∙ update_ne (is_hash.value_at mem) p a (some made.at) other
        ];
        numbers = λ d. omega (arith, more made d, freed.fewer d);
        consistent = freed.consistent;
      }
