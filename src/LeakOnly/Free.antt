-- ===== src/LeakOnly/Free.antt =====
-- What `FreeMem` of src/core/analyze/crash_investigator_analyze_leak_only_new_delete.cpp does between other
-- calls, in a consistent state; and an allocation that is freed at once.
use old_crash_investigator.Base.{
  ℕ, ◌+◌, ◌<◌, ◌≡◌, ◌≢◌, ◌⊎◌, Option-cases, null, refl, sym, ◌∙◌, ap, inl, inr, true, false, Option,
  none, some, update, update_self, ok, size_mod, ne→==,
}
use old_crash_investigator.Analyzer.Monad.{lift_unit}
use old_crash_investigator.Analyzer.Monad.Chain.{Run-cases}
use old_crash_investigator.Backtrace.{Backtrace}
use old_crash_investigator.Container.{Hash, IsHash, one_if}
use old_crash_investigator.LeakOnly.{
  CLibrary, State, Trace, c_free, lock, unlock, find_mem, the_table, mem_keys, with_int_handler,
}
use old_crash_investigator.LeakOnly.Operations.{forget, free_mem, free_mem_analyze}
use old_crash_investigator.LeakOnly.Consistent.{
  IsLibrary, Role, unowned, alike, is_like, Consistent, live,
}
use old_crash_investigator.LeakOnly.Consistent.Heap.{shrink}
use old_crash_investigator.LeakOnly.Traces.{in_state}
use old_crash_investigator.LeakOnly.Forget.{forget-Forgets}
use old_crash_investigator.LeakOnly.Alloc.{memories_like}

module _ (lib : CLibrary) (library : IsLibrary lib) (hash : Hash) (is_hash : IsHash hash)
    (base : State lib hash) {role : ℕ → Role} {heap : lib.Heap} {traces : ℕ → Option Trace}
    {mem stack : hash.Table}
    (c : Consistent lib library hash is_hash role heap traces mem stack) where
  -- The state between calls.
  abbrev pub after_free : lib.Heap → (ℕ → Option Trace) → (mem stack : hash.Table) → State lib hash
  after_free heap traces mem stack =
      in_state lib hash (record base { operator_delete_called = false }) heap traces mem stack 0
        false

  -- The call returns; the C library has the memory back; the memory is out of the table, which is
  -- otherwise as it was, and so are the numbers of memories with other stacks; that with its stack is one
  -- less. The state is consistent.
  pub record Releases (p trace : ℕ) : Type 0 where
    pub heap' : lib.Heap
    pub after_role : ℕ → Role
    pub after_traces : ℕ → Option Trace
    pub mem' : hash.Table
    pub stack' : hash.Table
    pub returns :
        free_mem lib hash p (in_state lib hash base heap traces mem stack 0 false)
        ≡ ok (tt, after_free heap' after_traces mem' stack')
    pub dead : library.is_live heap' p ≡ false
    pub others : (q u : ℕ) → is_hash.value_at mem' q ≡ some u → library.is_live heap' q ≡ true
    pub mem'-is : (a : ℕ) → is_hash.value_at mem' a ≡ update (is_hash.value_at mem) p none a
    pub fewer :
        (b : Backtrace)
        → memories_like lib library hash is_hash b traces mem
          ≡ one_if (is_like b (traces trace))
            + memories_like lib library hash is_hash b after_traces mem'
    pub consistent : Consistent lib library hash is_hash after_role heap' after_traces mem' stack'

  few_alike :
      (trace : ℕ) (t : Trace)
      → traces trace ≡ some t
      → memories_like lib library hash is_hash t.backtrace traces mem < size_mod
      → is_hash.count_where (λ _ u. alike traces trace u) mem < size_mod
  unfolding memories_like alike
  few_alike trace t lives small = rw lives small

  -- A delete of a memory of the table returns, where fewer than 2^64 memories have its stack: the C
  -- library has the memory back, and the other memories of the table are still allocated; the table
  -- has lost the entry of the memory and no other; the number of memories with its stack is one less,
  -- and the others are as they were; the state is consistent, and one between calls.
  pub free_mem-Releases :
      (p trace : ℕ) (t : Trace)
      → is_hash.value_at mem p ≡ some trace
      → traces trace ≡ some t
      → memories_like lib library hash is_hash t.backtrace traces mem < size_mod
      → Releases p trace
  unfolding free_mem free_mem_analyze with_int_handler lock unlock c_free memories_like
  free_mem-Releases p trace t tracked lives small =
      let it = forget-Forgets lib library hash is_hash base 1 true c p trace tracked few in
      let owned : it.after_role p ≢ unowned = λ f. let g = sym it.own ∙ f in cc in
      let (heap', freed, lives') =
        library.free_fn-live p it.heap' (live lib library hash is_hash it.consistent p owned) in
      let released : Consistent lib library hash is_hash (update it.after_role p unowned) heap'
          it.after_traces it.mem' it.stack' =
        shrink lib library hash is_hash it.consistent p heap' lives'
          (
            λ q u e f.
                let g = sym (it.consistent.mem_trace q u e).1.0 ∙ ap it.after_role f ∙ it.own in cc,
            λ k n e f.
                let g = sym (it.consistent.stack_trace k n e).0 ∙ ap it.after_role f ∙ it.own in cc,
          )
          (λ q u e f.
            let g =
              sym e
              ∙ ap (is_hash.value_at it.mem') f
              ∙ it.mem'-is p
              ∙ update_self (is_hash.value_at mem) p none in
            cc)
          (λ q u e f. let g = sym it.own ∙ f in cc) (λ k n e f. let g = sym it.own ∙ f in cc) in
      record {
        heap' = heap';
        dead = lives' p ∙ update_self (library.is_live it.heap') p false;
        others = λ q u e.
            live lib library hash is_hash released q
              (λ f. let g = sym (released.mem_trace q u e).0 ∙ f in cc);
        after_role = update it.after_role p unowned;
        after_traces = it.after_traces;
        mem' = it.mem';
        stack' = it.stack';
        returns = rw (it.returns, freed) refl;
        mem'-is = it.mem'-is;
        fewer = λ b.
            it.mem'-counts (λ _ u. is_like b (traces u))
            ∙ ap (λ n. one_if (is_like b (traces trace)) + n)
                (is_hash.count_where_ext _ _ it.mem' it.consistent.mem-sound
                  (λ q u e. ap (is_like b) (sym (it.kept q u e))));
        consistent = released;
      }
    where
      few : is_hash.count_where (λ _ u. alike traces trace u) mem < size_mod
      few = few_alike trace t lives small

  -- A delete of an address that is not in the table goes to `free` alone.
  free_mem_untracked :
      (p : ℕ)
      → is_hash.value_at mem p ≡ none
      → free_mem lib hash p (in_state lib hash base heap traces mem stack 0 false)
        ≡ lift_unit (lib.free_fn p heap) (λ h. after_free h traces mem stack)
  unfolding free_mem free_mem_analyze with_int_handler lock unlock c_free forget find_mem the_table
  free_mem_untracked p absent = elim (Run-cases (lib.free_fn p heap)) [
    | inl (h, freed) ↦ rw (not_found, freed) refl
    | inr (why, stops) ↦ rw (not_found, stops) refl
  ]
    where
      not_found : hash.find mem_keys p mem ≡ ok (none, p)
      not_found = is_hash.find_absent mem_keys p p mem c.mem-sound refl (λ l w e.
          ap ok (ne→== l p (λ f. let g = sym e ∙ ap (is_hash.value_at mem) f ∙ absent in cc)))

  -- A delete of null changes nothing.
  pub free_mem-null :
      free_mem lib hash null (in_state lib hash base heap traces mem stack 0 false)
      ≡ ok (tt, after_free heap traces mem stack)
  free_mem-null =
      free_mem_untracked null (missing (Option-cases (is_hash.value_at mem null)))
      ∙ rw (library.free_fn-null heap) refl
    where
      missing :
          (is_hash.value_at mem null ≡ none) ⊎ ((t : ℕ) × (is_hash.value_at mem null ≡ some t))
          → is_hash.value_at mem null ≡ none
      missing (inl e) = e
      missing (inr (t, e)) =
          let g = sym (c.mem_trace null t e).0 ∙ c.dead null (library.null-live heap) in cc
