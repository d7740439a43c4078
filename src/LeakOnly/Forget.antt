-- ===== src/LeakOnly/Forget.antt =====
-- The block of `FreeMemAnalyze` under the mutex, of
-- src/core/analyze/crash_investigator_analyze_leak_only_new_delete.cpp, with a memory of the table in a
-- consistent state.
use native.Mathlib.Decide.{ℕ_discrete}
use old_crash_investigator.Base.{
  ℕ, ◌+◌, ◌-◌, ◌%◌, ◌<◌, ◌≡◌, ◌≢◌, refl, sym, ◌∙◌, ap, inl, inr, Bool, true, Option, none, some,
  update, update_self, update_ne, ok, size_mod, ne→==, eq→==, arith,
}
use old_crash_investigator.Container.{Hash, IsHash, one_if}
use old_crash_investigator.LeakOnly.{
  CLibrary, State, Act, Trace, find_mem, find_stack, mem_second, stack_second, change_mem,
  change_stack, the_table, mem_keys,
}
use old_crash_investigator.LeakOnly.Operations.{take_stack_out, forget}
use old_crash_investigator.LeakOnly.Consistent.{
  IsLibrary, Role, user, stack_key, trace_of, IsTrace, alike, Consistent, find_stack_present,
}
use old_crash_investigator.LeakOnly.Consistent.Tables.{forget-Consistent}
use old_crash_investigator.LeakOnly.Traces.{in_state}
use old_crash_investigator.LeakOnly.Consistent.Alike.{alike_ext}
use old_crash_investigator.LeakOnly.Drop.{drop_trace, drop_key, IsTrace-Frees}

module _ (lib : CLibrary) (library : IsLibrary lib) (hash : Hash) (is_hash : IsHash hash)
    (base : State lib hash) (ongoing : ℕ) (locked : Bool) {role : ℕ → Role} {heap : lib.Heap}
    {traces : ℕ → Option Trace} {mem stack : hash.Table}
    (c : Consistent lib library hash is_hash role heap traces mem stack) (p trace : ℕ)
    (tracked : is_hash.value_at mem p ≡ some trace) where
  -- The call takes the memory out of the table, frees its trace and leaves the others' alone; the state is
  -- consistent, and the memory still the client's.
  pub record Forgets (call : Act lib hash (Unit {0})) : Type 0 where
    pub heap' : lib.Heap
    pub after_role : ℕ → Role
    pub after_traces : ℕ → Option Trace
    pub mem' : hash.Table
    pub stack' : hash.Table
    pub returns :
        call (in_state lib hash base heap traces mem stack ongoing locked)
        ≡ ok (tt, in_state lib hash base heap' after_traces mem' stack' ongoing locked)
    pub mem'-is : (a : ℕ) → is_hash.value_at mem' a ≡ update (is_hash.value_at mem) p none a
    pub mem'-counts :
        (test : ℕ → ℕ → Bool)
        → is_hash.count_where test mem ≡ one_if (test p trace) + is_hash.count_where test mem'
    pub own : after_role p ≡ user
    pub kept : (q t : ℕ) → is_hash.value_at mem' q ≡ some t → after_traces t ≡ traces t
    pub consistent : Consistent lib library hash is_hash after_role heap' after_traces mem' stack'

  found : hash.find mem_keys p mem ≡ ok (some p, p)
  found =
      is_hash.find_present mem_keys p p p trace mem c.mem-sound refl refl tracked
        (ap ok (eq→== p p refl)) (λ l w e other. ap ok (ne→== l p other))

  second : hash.second p mem ≡ ok trace
  second = is_hash.second-value_at p trace mem c.mem-sound tracked

  mine : IsTrace role traces trace (trace_of p)
  mine = (c.mem_trace p trace tracked).1

  user_of : role p ≡ user
  user_of = (c.mem_trace p trace tracked).0

  removed :
      (u : hash.Table) × (hash.remove p mem ≡ ok u)
      × is_hash.IsSound u
      × ((l : ℕ) → is_hash.value_at u l ≡ update (is_hash.value_at mem) p none l)
      × ((test : ℕ → ℕ → Bool)
          → is_hash.count_where test mem ≡ one_if (test p trace) + is_hash.count_where test u)
  removed = is_hash.remove-value_at p trace mem c.mem-sound tracked

  gone : is_hash.value_at removed.0 p ≡ none
  gone = removed.3 p ∙ update_self (is_hash.value_at mem) p none

  others : (q t : ℕ) → is_hash.value_at removed.0 q ≡ some t → t ≢ trace
  others q t e f = elim (ℕ_discrete q p) [
    | yes here ↦ let g = sym e ∙ ap (is_hash.value_at removed.0) here ∙ gone in cc
    | no other ↦
        let was =
          c.mem_trace q t
            (sym (update_ne (is_hash.value_at mem) p q none other) ∙ sym (removed.3 q) ∙ e) in
        let both : trace_of q ≡ trace_of p = sym was.1.0 ∙ ap role f ∙ mine.0 in
        let it : q ≡ p = cc in other it
  ]

  module _ (k n : ℕ) (entry : is_hash.value_at stack k ≡ some n)
      (same : alike traces k trace ≡ true) (small : n < size_mod) where
    key : IsTrace role traces k stack_key
    key = c.stack_trace k n entry

    -- The stack has other memories.
    forget_many : n ≢ 1 → Forgets (forget lib hash p)
    unfolding forget take_stack_out find_mem find_stack mem_second stack_second change_mem
        change_stack the_table
    forget_many many =
        let (code, found_stack) =
          find_stack_present lib library hash is_hash c k n trace entry mine.1 same in
        let (stack', set, sound, values) =
          is_hash.set_second-value_at k n ((n + size_mod - 1) % size_mod) stack c.stack-sound
            entry in
        let less : (n + size_mod - 1) % size_mod ≡ n - 1 = omega (arith, (c.counted k n entry).1) in
        let after =
          forget-Consistent lib library hash is_hash c p trace k n
            (some ((n + size_mod - 1) % size_mod)) removed.0 stack' tracked entry same
            (inr (many, ap some less)) removed.2 removed.3 removed.4 sound values in
        let frees =
          drop_trace lib library hash is_hash base ongoing locked after p trace gone mine in
        record {
          heap' = frees.heap';
          after_role = frees.after_role;
          after_traces = update traces trace none;
          mem' = removed.0;
          stack' = stack';
          returns =
              rw
                (
                  found,
                  second,
                  found_stack,
                  is_hash.second-value_at k n stack c.stack-sound entry,
                  ne→== n 1 many,
                  set,
                  second,
                  removed.1,
                  frees.returns removed.0 stack',
                )
                refl;
          mem'-is = removed.3;
          mem'-counts = removed.4;
          own =
              frees.after_role-other p (λ f. let g = sym user_of ∙ f in cc)
                (λ f. let g = sym user_of ∙ ap role f ∙ mine.0 in cc)
              ∙ user_of;
          kept = λ q t e. update_ne traces trace t none (others q t e);
          consistent = frees.consistent;
        }

    -- It was the last memory of the stack.
    forget_last : n ≡ 1 → Forgets (forget lib hash p)
    unfolding forget take_stack_out find_mem find_stack mem_second stack_second change_mem
        change_stack the_table
    forget_last last =
        let (code, found_stack) =
          find_stack_present lib library hash is_hash c k n trace entry mine.1 same in
        let (stack', remove, sound, values, _) =
          is_hash.remove-value_at k n stack c.stack-sound entry in
        let after =
          forget-Consistent lib library hash is_hash c p trace k n none removed.0 stack' tracked
            entry same (inl (last, refl)) removed.2 removed.3 removed.4 sound values in
        let frees_key =
          drop_key lib library hash is_hash base ongoing locked after k
            (values k ∙ update_self (is_hash.value_at stack) k none) key in
        let frees =
          drop_trace lib library hash is_hash base ongoing locked frees_key.consistent p trace gone
            (IsTrace-Frees lib library hash is_hash base ongoing locked after k trace (trace_of p)
              stack_key frees_key key (λ a f. cc) mine (λ a f. cc)
              (λ f. let g = sym mine.0 ∙ ap role f ∙ key.0 in cc)) in
        let user_after : frees_key.after_role p ≡ user =
          frees_key.after_role-other p (λ f. let g = sym user_of ∙ f in cc)
            (λ f. let g = sym user_of ∙ ap role f ∙ key.0 in cc)
          ∙ user_of in
        record {
          heap' = frees.heap';
          after_role = frees.after_role;
          after_traces = update (update traces k none) trace none;
          mem' = removed.0;
          stack' = stack';
          returns =
              rw
                (
                  found,
                  second,
                  found_stack,
                  is_hash.second-value_at k n stack c.stack-sound entry,
                  eq→== n 1 last,
                  remove,
                  frees_key.returns mem stack',
                  second,
                  removed.1,
                  frees.returns removed.0 stack',
                )
                refl;
          mem'-is = removed.3;
          mem'-counts = removed.4;
          own =
              frees.after_role-other p (λ f. let g = sym user_after ∙ f in cc)
                (λ f. let g = sym user_of ∙ ap role f ∙ mine.0 in cc)
              ∙ user_after;
          kept = λ q t e.
              update_ne (update traces k none) trace t none (others q t e)
              ∙ update_ne traces k t none
                  (λ f. let g = sym (after.mem_trace q t e).1.0 ∙ ap role f ∙ key.0 in cc);
          consistent = frees.consistent;
        }

  -- Any memory of the table is forgotten, where its stack has less than 2^64 memories.
  pub forget-Forgets :
      is_hash.count_where (λ _ t. alike traces trace t) mem < size_mod → Forgets (forget lib hash p)
  forget-Forgets small =
      let (k, n, entry, same) = c.present p trace tracked in
      let equal : is_hash.count_where (λ _ t. alike traces k t) mem
          ≡ is_hash.count_where (λ _ t. alike traces trace t) mem =
        is_hash.count_where_ext _ _ mem c.mem-sound (λ q t e.
          alike_ext traces k trace t (c.stack_trace k n entry).1 mine.1 (c.mem_trace q t e).1.1
            same) in
      let few : n < size_mod = omega (arith, small, (c.counted k n entry).0, equal) in
      elim (ℕ_discrete n 1) [
        | yes last ↦ forget_last k n entry same few last
        | no many ↦ forget_many k n entry same few many
      ]
