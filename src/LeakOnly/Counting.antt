-- ===== src/LeakOnly/Counting.antt =====
-- `count_stack` and the block of `AllocMem` under the mutex, of
-- src/core/analyze/crash_investigator_analyze_leak_only_new_delete.cpp, in a consistent state.
use old_crash_investigator.Base.{
  ℕ, ◌+◌, ◌%◌, ◌≤◌, ◌<◌, ◌≡◌, ◌≢◌, ◌⊎◌, refl, sym, ◌∙◌, ap, inl, inr, Bool, true, false, Option,
  none, some, update, ok, stop, exited, null, size_mod, ne→==, lt→ltb, ge→ltb, ltb, leb, le→leb,
  arith, Bool-cases,
}
use old_crash_investigator.Container.{Hash, IsHash, one_if}
use old_crash_investigator.LeakOnly.{
  CLibrary, State, Act, Call, Trace, lock, unlock, find_mem, find_stack, stack_second, change_mem,
  change_stack, clone_back_trace, convert, load_trace, the_table, mem_keys,
}
use old_crash_investigator.LeakOnly.Operations.{count_stack, track, report_leak}
use old_crash_investigator.LeakOnly.Consistent.{
  IsLibrary, IsPlenty, Role, unowned, user, stack_key, trace_of, IsTrace, alike, alike_join,
  Consistent, not_null, find_stack_present, find_stack_absent,
}
use old_crash_investigator.LeakOnly.Consistent.Tables.{track-Consistent}
use old_crash_investigator.LeakOnly.Traces.{in_state, Makes, clone_back_trace-Makes}
use old_crash_investigator.LeakOnly.Consistent.Alike.{alike_ext}
use old_crash_investigator.LeakOnly.Clone.{
  copy_kept, own_kept, copy_alike, others_kept, copy_number, copy_entered,
}

module _ (lib : CLibrary) (library : IsLibrary lib) (hash : Hash) (is_hash : IsHash hash)
    (base : State lib hash) (ongoing : ℕ) {role : ℕ → Role} {heap : lib.Heap}
    {traces : ℕ → Option Trace} {mem stack : hash.Table}
    (c : Consistent lib library hash is_hash role heap traces mem stack) (p trace : ℕ)
    (mine : role p ≡ user) (untracked : is_hash.value_at mem p ≡ none)
    (own : IsTrace role traces trace (trace_of p)) where
  -- How many memories have the stack of the trace.
  abbrev pub same_stacks : ℕ
  same_stacks = is_hash.count_where (λ _ t. alike traces trace t) mem

  -- The stack has an entry, with that number, or the number is 0 and no entry has the stack.
  pub known_or_new :
      ((k : ℕ) × (is_hash.value_at stack k ≡ some same_stacks)
        × (alike traces k trace ≡ true)
        × (same_stacks ≡ is_hash.count_where (λ _ t. alike traces k t) mem)
        × (0 < same_stacks))
      ⊎ ((same_stacks ≡ 0)
          × ((l w : ℕ) → is_hash.value_at stack l ≡ some w → alike traces l trace ≡ false))
  known_or_new = elim (is_hash.find_where (λ l _. alike traces l trace) stack c.stack-sound) [
    | inl (k, n, e, same) ↦
        let equal : is_hash.count_where (λ _ t. alike traces k t) mem ≡ same_stacks =
          is_hash.count_where_ext _ _ mem c.mem-sound (λ q t f.
            alike_ext traces k trace t (c.stack_trace k n e).1 own.1 (c.mem_trace q t f).1.1
              same) in
        let counted = c.counted k n e in
        inl (
          k,
          e ∙ ap some (counted.0 ∙ equal),
          same,
          sym equal,
          omega (arith, counted.0, counted.1, equal),
        )
    | inr others ↦ inr (
      is_hash.count_where_none _ mem c.mem-sound (λ q t f.
          elim (Bool-cases (alike traces trace t)) [
            | inr fails ↦ fails
            | inl holds ↦
                let (l, w, g, a) = c.present q t f in
                let known : alike traces l trace ≡ true =
                  alike_join traces l trace t (c.stack_trace l w g).1 own.1 (c.mem_trace q t f).1.1
                    a holds in
                let unknown = others l w g in cc
          ]),
      others,
    )
  ]

  -- What the call does: the memory is in the table with its trace, and the state is consistent.
  pub record Tracks (call : Act lib hash (Unit {0})) : Type 0 where
    pub heap' : lib.Heap
    pub after_role : ℕ → Role
    pub after_traces : ℕ → Option Trace
    pub mem' : hash.Table
    pub stack' : hash.Table
    pub returns :
        call (in_state lib hash base heap traces mem stack ongoing false)
        ≡ ok (tt, in_state lib hash base heap' after_traces mem' stack' ongoing false)
    pub mem'-is : (a : ℕ) → is_hash.value_at mem' a ≡ update (is_hash.value_at mem) p (some trace) a
    pub mem'-counts :
        (test : ℕ → ℕ → Bool)
        → is_hash.count_where test mem' ≡ one_if (test p trace) + is_hash.count_where test mem
    pub kept : (a : ℕ) → role a ≢ unowned → (after_role a ≡ role a) × (after_traces a ≡ traces a)
    pub consistent : Consistent lib library hash is_hash after_role heap' after_traces mem' stack'

  added :
      (m : hash.Table) × (hash.add_entry_with_known_hash mem_keys p trace p mem ≡ ok m)
      × is_hash.IsSound m
      × ((l : ℕ) → is_hash.value_at m l ≡ update (is_hash.value_at mem) p (some trace) l)
      × ((test : ℕ → ℕ → Bool)
          → is_hash.count_where test m ≡ one_if (test p trace) + is_hash.count_where test mem)
  added = is_hash.add-value_at mem_keys p trace p mem c.mem-sound refl untracked (λ l w e.
      ap ok (ne→== l p (λ same. let f = sym e ∙ ap (is_hash.value_at mem) same ∙ untracked in cc)))

  not_found : hash.find mem_keys p mem ≡ ok (none, p)
  not_found = is_hash.find_absent mem_keys p p mem c.mem-sound refl (λ l w e.
      ap ok (ne→== l p (λ same. let f = sym e ∙ ap (is_hash.value_at mem) same ∙ untracked in cc)))

  module _ (call : Call) where
    -- A stack that has an entry, where the count stays within the limit, or the clock has gone back.
    track_known :
        (k : ℕ)
        → is_hash.value_at stack k ≡ some same_stacks
        → alike traces k trace ≡ true
        → same_stacks ≡ is_hash.count_where (λ _ t. alike traces k t) mem
        → same_stacks + 1 < size_mod
        → (same_stacks + 1 ≤ base.max_number_of_alloc_in_the_stack) ⊎ (call.now < base.init_time)
        → Tracks (track lib hash call p trace)
    unfolding track count_stack lock unlock find_mem find_stack stack_second change_mem change_stack
        the_table
    track_known k e same count small calm =
        let (code, found) =
          find_stack_present lib library hash is_hash c k same_stacks trace e own.1 same in
        let (stack', set, sound, values) =
          is_hash.set_second-value_at k same_stacks ((same_stacks + 1) % size_mod) stack
            c.stack-sound e in
        let second = is_hash.second-value_at k same_stacks stack c.stack-sound e in
        record {
          heap' = heap;
          after_role = role;
          after_traces = traces;
          mem' = added.0;
          stack' = stack';
          returns = elim (Bool-cases over) [
            | inr under ↦ rw (not_found, added.1, found, second, set, under) refl
            | inl above ↦ rw (not_found, added.1, found, second, set, above, late above) refl
          ];
          mem'-is = added.3;
          mem'-counts = added.4;
          kept = λ a owned. (refl, refl);
          consistent =
              track-Consistent lib library hash is_hash c p trace k ((same_stacks + 1) % size_mod)
                added.0 stack' mine own (c.stack_trace k same_stacks e) same
                (λ l w f ne. elim (Bool-cases (alike traces l trace)) [
                  | inr fails ↦ fails
                  | inl holds ↦ absurd (
                      ne (
                        c.unique l k w same_stacks f e (
                          alike_join traces l k trace (c.stack_trace l w f).1
                            (c.stack_trace k same_stacks e).1 own.1 holds same)))
                ])
                (omega (arith, count)) added.2 added.3 added.4 sound values;
        }
      where
        over : Bool
        over = ltb base.max_number_of_alloc_in_the_stack ((same_stacks + 1) % size_mod)

        late : over ≡ true → leb base.init_time call.now ≡ false
        late above = elim calm [
          | inl within ↦
              let under =
                ge→ltb base.max_number_of_alloc_in_the_stack ((same_stacks + 1) % size_mod)
                  (omega arith) in
              cc
          | inr back ↦ ground arith
        ]

    -- The same where the count passes the limit and the clock has not gone back.
    track_reports_known :
        (k : ℕ)
        → is_hash.value_at stack k ≡ some same_stacks
        → alike traces k trace ≡ true
        → same_stacks + 1 < size_mod
        → base.max_number_of_alloc_in_the_stack < same_stacks + 1
        → base.init_time ≤ call.now
        → track lib hash call p trace (in_state lib hash base heap traces mem stack ongoing false)
          ≡ stop (exited 1)
    unfolding track count_stack report_leak lock unlock find_mem find_stack stack_second change_mem
        change_stack the_table convert load_trace
    track_reports_known k e same small above since =
        let (code, found) =
          find_stack_present lib library hash is_hash c k same_stacks trace e own.1 same in
        let (stack', set, sound, values) =
          is_hash.set_second-value_at k same_stacks ((same_stacks + 1) % size_mod) stack
            c.stack-sound e in
        rw
          (
            not_found,
            added.1,
            found,
            is_hash.second-value_at k same_stacks stack c.stack-sound e,
            set,
            lt→ltb base.max_number_of_alloc_in_the_stack ((same_stacks + 1) % size_mod)
                (omega arith),
            le→leb base.init_time call.now since,
            ne→== trace null
                (not_null lib library hash is_hash c trace (λ f. let g = sym own.0 ∙ f in cc)),
            own.1.1,
          )
          refl

    -- A stack that has no entry gets one, whatever the limit is.
    track_new :
        Makes lib library hash is_hash base ongoing true c
          (clone_back_trace lib hash trace)
          stack_key
          own.1.0.backtrace
        → same_stacks ≡ 0
        → ((l w : ℕ) → is_hash.value_at stack l ≡ some w → alike traces l trace ≡ false)
        → Tracks (track lib hash call p trace)
    unfolding track count_stack lock unlock find_mem find_stack change_mem change_stack the_table
    track_new made zero others =
        let (code, hashed, found) =
          find_stack_absent lib library hash is_hash c trace own.1 others in
        let (stack', add, sound, values, counts) =
          copy_entered lib library hash is_hash base ongoing c p trace own made zero others code
            hashed in
        record {
          heap' = made.heap';
          after_role = made.after_role;
          after_traces = made.after_traces;
          mem' = added.0;
          stack' = stack';
          returns = rw (not_found, added.1, found, made.returns added.0 stack, add) refl;
          mem'-is = added.3;
          mem'-counts = added.4;
          kept = copy_kept lib library hash is_hash base ongoing c p trace own made zero others;
          consistent =
              track-Consistent lib library hash is_hash made.consistent p trace made.address 1
                added.0 stack'
                ((copy_kept lib library hash is_hash base ongoing c p trace own made zero others p
                    (λ f. let g = sym mine ∙ f in cc)).0
                  ∙ mine)
                (own_kept lib library hash is_hash base ongoing c p trace own made zero others)
                made.is_trace
                (copy_alike lib library hash is_hash base ongoing c p trace own made zero others)
                (λ l w f ne.
                  others_kept lib library hash is_hash base ongoing c p trace own made zero others l
                    w f)
                (omega (
                  arith,
                  copy_number lib library hash is_hash base ongoing c p trace own made zero others,
                ))
                added.2 added.3 added.4 sound values;
        }

    -- The memory is tracked, unless the count of a stack that has an entry passes the limit while the clock
    -- has not gone back.
    pub track_returns :
        IsPlenty lib
        → same_stacks + 1 < size_mod
        → (same_stacks ≡ 0)
          ⊎ ((same_stacks + 1 ≤ base.max_number_of_alloc_in_the_stack)
              ⊎ (call.now < base.init_time))
        → Tracks (track lib hash call p trace)
    track_returns plenty small calm = elim known_or_new [
      | inr (zero, others) ↦
          track_new
            (clone_back_trace-Makes lib library hash is_hash base ongoing true c plenty trace
              (trace_of p) own (λ f. cc))
            zero others
      | inl (k, e, same, count, some_one) ↦ elim calm [
        | inl zero ↦ absurd (omega arith)
        | inr quiet ↦ track_known k e same count small quiet
      ]
    ]

    pub track_reports :
        0 < same_stacks
        → same_stacks + 1 < size_mod
        → base.max_number_of_alloc_in_the_stack < same_stacks + 1
        → base.init_time ≤ call.now
        → track lib hash call p trace (in_state lib hash base heap traces mem stack ongoing false)
          ≡ stop (exited 1)
    track_reports some_one small above since = elim known_or_new [
      | inr (zero, others) ↦ absurd (omega arith)
      | inl (k, e, same, count, _) ↦ track_reports_known k e same small above since
    ]
