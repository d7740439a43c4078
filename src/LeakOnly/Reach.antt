-- ===== src/LeakOnly/Reach.antt =====
-- The states that calls of the operators lead to, in
-- src/core/analyze/crash_investigator_analyze_leak_only_new_delete.cpp: no stack keeps more memories than the
-- limit.
use old_crash_investigator.Base.{
  ℕ, ◌+◌, ◌≤◌, ◌<◌, ◌≡◌, refl, inl, false, null, Option, some, ok, size_mod, length, arith,
}
use old_crash_investigator.Container.{Hash, IsHash}
use old_crash_investigator.LeakOnly.{CLibrary, State, Call, Trace}
use old_crash_investigator.LeakOnly.Operations.{free_mem, alloc_mem}
use old_crash_investigator.LeakOnly.Consistent.{IsLibrary, IsPlenty, unowned}
use old_crash_investigator.LeakOnly.Traces.{in_state}
use old_crash_investigator.LeakOnly.Setup.{empty-Consistent, memories_like_empty}
use old_crash_investigator.LeakOnly.Within.{
  Within, allocated-Within, freed-Within, freed-null-Within,
}

module _ (lib : CLibrary) (library : IsLibrary lib) (hash : Hash) (is_hash : IsHash hash)
    (limit init_time : ℕ) where
  -- From a state with empty tables, calls that return: allocations on a clock that does not go back behind
  -- the start, with a stack that is not empty, and deletes of memories of the table and of null.
  pub data Reaches : State lib hash → Type 1 where
    begun :
        (base : State lib hash) (heap : lib.Heap) (traces : ℕ → Option Trace)
        → base.max_number_of_alloc_in_the_stack ≡ limit
        → base.init_time ≡ init_time
        → Reaches (in_state lib hash base heap traces hash.empty hash.empty 0 false)
    allocated :
        (s s' : State lib hash) (call : Call) (size go_back p : ℕ)
        → Reaches s
        → 0 < length call.frames
        → init_time ≤ call.now
        → alloc_mem lib hash call size go_back s ≡ ok (p, s')
        → Reaches s'
    freed :
        (s s' : State lib hash) (mem : hash.Table) (p trace : ℕ)
        → Reaches s
        → s.mem ≡ some mem
        → is_hash.value_at mem p ≡ some trace
        → free_mem lib hash p s ≡ ok (tt, s')
        → Reaches s'
    freed_null :
        (s s' : State lib hash) → Reaches s → free_mem lib hash null s ≡ ok (tt, s') → Reaches s'

  module _ (plenty : IsPlenty lib) (small : limit + 1 < size_mod) where
    -- From the set-up on, as long as the program calls `new` with a stack that is not empty and a clock
    -- that has not gone back behind the set-up, and `delete` for memory of the table or null, and these
    -- calls return, where memory is plenty and the limit is less than the largest number of a `size_t`:
    -- the state between two calls is consistent, and no stack has more memories than the limit, or
    -- than one.
    pub Reaches-Within :
        (s : State lib hash) → Reaches s → Within lib library hash is_hash limit init_time s
    Reaches-Within _ (begun base heap traces lim start) = record {
      base = base;
      role = λ _. unowned;
      heap = heap;
      traces = traces;
      mem = hash.empty;
      stack = hash.empty;
      state-is = refl;
      limit-is = lim;
      init_time-is = start;
      consistent = empty-Consistent lib library hash is_hash heap traces;
      within =
          λ b whole. inl (omega (arith, memories_like_empty lib library hash is_hash b traces));
    }
    Reaches-Within _ (allocated s s' call size go_back p before deep since ran) =
        allocated-Within lib library hash is_hash limit init_time plenty small s s' call size
          go_back p (Reaches-Within s before) deep since ran
    Reaches-Within _ (freed s s' mem p trace before has tracked ran) =
        freed-Within lib library hash is_hash limit init_time plenty small s s' mem p trace
          (Reaches-Within s before) has tracked ran
    Reaches-Within _ (freed_null s s' before ran) =
        freed-null-Within lib library hash is_hash limit init_time s s' (Reaches-Within s before)
          ran
