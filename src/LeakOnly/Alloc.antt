-- ===== src/LeakOnly/Alloc.antt =====
-- What `AllocMem` of src/core/analyze/crash_investigator_analyze_leak_only_new_delete.cpp does between other
-- calls, in a consistent state.
use old_crash_investigator.Base.{
  ℕ, ◌+◌, ◌≤◌, ◌<◌, ◌≡◌, ◌≢◌, ◌⊎◌, refl, sym, ◌∙◌, ap, inl, inr, Bool, false, Option, none, some,
  update, update_self, update_ne, ok, stop, exited, null, size_mod, ne→==, length, Option-cases,
}
use old_crash_investigator.Backtrace.{Backtrace, init_backtrace_data}
use old_crash_investigator.Backtrace.Capture.{init_backtrace_data-IsWhole, init_backtrace_data-deep}
use old_crash_investigator.Container.{Hash, IsHash, one_if}
use old_crash_investigator.LeakOnly.{
  CLibrary, State, Call, Trace, c_malloc, with_int_handler, init_backtrace_data_for_current_stack,
}
use old_crash_investigator.LeakOnly.Operations.{alloc_mem, init}
use old_crash_investigator.LeakOnly.Consistent.{
  IsLibrary, IsPlenty, Role, unowned, user, trace_of, alike, is_like, same_trace, Consistent,
  not_null,
}
use old_crash_investigator.LeakOnly.Consistent.Heap.{grow}
use old_crash_investigator.LeakOnly.Traces.{in_state, Makes, Makes_kept, new_trace-Makes}
use old_crash_investigator.LeakOnly.Counting.{same_stacks, track_returns, track_reports}

module _ (lib : CLibrary) (library : IsLibrary lib) (hash : Hash) (is_hash : IsHash hash) where
  -- How many memories of the table have that stack.
  unfoldable pub memories_like : Backtrace → (ℕ → Option Trace) → hash.Table → ℕ
  memories_like b traces mem = is_hash.count_where (λ _ t. is_like b (traces t)) mem

  module _ (base : State lib hash) {role : ℕ → Role} {heap : lib.Heap} {traces : ℕ → Option Trace}
      {mem stack : hash.Table} (c : Consistent lib library hash is_hash role heap traces mem stack)
      (call : Call) (size go_back : ℕ) where
    abbrev pub captured : Backtrace
    captured = init_backtrace_data (go_back + 1) call.frames

    -- The call returns what `malloc` returns; the table of memories has it, with a trace of the call's stack,
    -- and is otherwise as it was; the state is consistent.
    pub record Allocates : Type 0 where
      pub trace : Trace
      pub at : ℕ
      pub heap' : lib.Heap
      pub after_role : ℕ → Role
      pub after_traces : ℕ → Option Trace
      pub mem' : hash.Table
      pub stack' : hash.Table
      pub returns :
          alloc_mem lib hash call size go_back
            (in_state lib hash base heap traces mem stack 0 false)
          ≡ ok (
            (lib.malloc_fn size heap).0,
            in_state lib hash base heap' after_traces mem' stack' 0 false,
          )
      pub mem'-is :
          (a : ℕ)
          → is_hash.value_at mem' a
            ≡ update (is_hash.value_at mem) (lib.malloc_fn size heap).0 (some at) a
      pub mem'-counts :
          (test : ℕ → ℕ → Bool)
          → is_hash.count_where test mem'
            ≡ one_if (test (lib.malloc_fn size heap).0 at) + is_hash.count_where test mem
      pub at-is : (after_traces at ≡ some trace) × (trace.backtrace ≡ captured)
      pub kept : (a : ℕ) → role a ≢ unowned → (after_role a ≡ role a) × (after_traces a ≡ traces a)
      pub consistent : Consistent lib library hash is_hash after_role heap' after_traces mem' stack'

    module _ (plenty : IsPlenty lib) (deep : 0 < length call.frames) where
      abbrev address : ℕ
      address = (lib.malloc_fn size heap).0

      free-before : role address ≡ unowned
      free-before = c.dead address (library.malloc_fn-live size heap (plenty size heap)).0

      grown :
          Consistent lib library hash is_hash
            (update role address user)
            (lib.malloc_fn size heap).1
            traces
            mem
            stack
      grown =
          grow lib library hash is_hash c address user (lib.malloc_fn size heap).1
            (library.malloc_fn-live size heap (plenty size heap)).0
            (library.malloc_fn-live size heap (plenty size heap)).1

      depth : 0 < captured.stack_deepness
      depth = init_backtrace_data-deep (go_back + 1) call.frames deep

      made :
          Makes lib library hash is_hash base 1 false grown
            (init_backtrace_data_for_current_stack lib hash (go_back + 1) call.frames)
            (trace_of address)
            captured
      unfolding init_backtrace_data_for_current_stack
      made =
          new_trace-Makes lib library hash is_hash base 1 false grown plenty (trace_of address)
            (λ f. cc) _ captured (init_backtrace_data-IsWhole (go_back + 1) call.frames).0 depth

      kept_grown : (a : ℕ) → role a ≢ unowned → update role address user a ≡ role a
      kept_grown a owned = update_ne role address a user (λ f. owned (ap role f ∙ free-before))

      kept_made :
          (a : ℕ)
          → role a ≢ unowned
          → (made.after_role a ≡ role a) × (made.after_traces a ≡ traces a)
      kept_made a owned =
          let step =
            Makes_kept lib library hash is_hash base 1 false grown made a
              (λ f. owned (sym (kept_grown a owned) ∙ f)) in
          (step.0 ∙ kept_grown a owned, step.1)

      mine : made.after_role address ≡ user
      mine =
          (Makes_kept lib library hash is_hash base 1 false grown made address
            (λ f. let g = sym (update_self role address user) ∙ f in cc)).0
          ∙ update_self role address user

      pub untracked : is_hash.value_at mem address ≡ none
      untracked = elim (Option-cases (is_hash.value_at mem address)) [
        | inl absent ↦ absent
        | inr (t, e) ↦ let f = sym free-before ∙ (c.mem_trace address t e).0 in cc
      ]

      captured_at :
          made.after_traces made.address
          ≡ some (record { buffer = made.buffer; backtrace = captured })
      captured_at =
          ap (λ f. f made.address) made.after_traces-is ∙ update_self traces made.address _

      counts :
          same_stacks lib library hash is_hash base 1 made.consistent address made.address mine
            untracked made.is_trace
          ≡ memories_like captured traces mem
      unfolding memories_like alike
      counts = is_hash.count_where_ext _ _ mem c.mem-sound (λ q t e.
          ap (λ o. same_trace o (made.after_traces t)) captured_at
          ∙ ap (is_like captured)
              (kept_made t (λ f. let g = sym (c.mem_trace q t e).1.0 ∙ f in cc)).1)

      -- In a consistent state, where memory is plenty and the stack of the call is not empty, and fewer
      -- than 2^64 memories have it with the new one, `AllocMem` returns the memory and tracks it, unless
      -- the number of memories with the stack passes the limit while the clock has not gone back.
      pub alloc_mem_tracks :
          memories_like captured traces mem + 1 < size_mod
          → (memories_like captured traces mem ≡ 0)
            ⊎ ((memories_like captured traces mem + 1 ≤ base.max_number_of_alloc_in_the_stack)
                ⊎ (call.now < base.init_time))
          → Allocates
      unfolding alloc_mem init c_malloc with_int_handler
      alloc_mem_tracks small calm =
          let tracks =
            track_returns lib library hash is_hash base 1 made.consistent address made.address mine
              untracked made.is_trace call plenty (rw counts small) (rw counts calm) in
          let trace_kept = tracks.kept made.address (λ f. let g = sym made.is_trace.0 ∙ f in cc) in
          record {
            trace = record { buffer = made.buffer; backtrace = captured };
            at = made.address;
            heap' = tracks.heap';
            after_role = tracks.after_role;
            after_traces = tracks.after_traces;
            mem' = tracks.mem';
            stack' = tracks.stack';
            returns =
                rw
                  (
                    ne→== address null (plenty size heap),
                    made.returns mem stack,
                    ne→== made.address null (
                        not_null lib library hash is_hash made.consistent made.address
                          (λ f. let g = sym made.is_trace.0 ∙ f in cc)),
                    tracks.returns,
                  )
                  refl;
            mem'-is = tracks.mem'-is;
            mem'-counts = tracks.mem'-counts;
            at-is = (trace_kept.1 ∙ captured_at, refl);
            kept = λ a owned.
                let first = kept_made a owned in
                let second = tracks.kept a (λ f. owned (sym first.0 ∙ f)) in
                (second.0 ∙ first.0, second.1 ∙ first.1);
            consistent = tracks.consistent;
          }

      pub alloc_mem_reports :
          0 < memories_like captured traces mem
          → memories_like captured traces mem + 1 < size_mod
          → base.max_number_of_alloc_in_the_stack < memories_like captured traces mem + 1
          → base.init_time ≤ call.now
          → alloc_mem lib hash call size go_back
              (in_state lib hash base heap traces mem stack 0 false)
            ≡ stop (exited 1)
      unfolding alloc_mem init c_malloc with_int_handler
      alloc_mem_reports some_one small above since =
          rw
            (
              ne→== address null (plenty size heap),
              made.returns mem stack,
              ne→== made.address null (
                  not_null lib library hash is_hash made.consistent made.address
                    (λ f. let g = sym made.is_trace.0 ∙ f in cc)),
              track_reports lib library hash is_hash base 1 made.consistent address made.address
                  mine untracked made.is_trace call (rw counts some_one) (rw counts small)
                  (rw counts above) since,
            )
            refl
