-- ===== src/LeakOnly/Within.antt =====
-- Between calls of src/core/analyze/crash_investigator_analyze_leak_only_new_delete.cpp no stack has more memories
-- than the limit: an allocation and a free keep that so.
use old_crash_investigator.Base.{
  ℕ, ◌+◌, ◌≤◌, ◌<◌, ◌≡◌, ◌⊎◌, refl, sym, ◌∙◌, ap, subst, inl, inr, true, false, null, Option, none,
  some, Run, ok, size_mod, length, arith, Bool-cases, Bool-ext,
}
use native.Mathlib.Decide.{dec_lt, ℕ_discrete}
use old_crash_investigator.Backtrace.{Backtrace, IsWhole, init_backtrace_data}
use old_crash_investigator.Backtrace.Same.{is_the_same_stack_iff}
use old_crash_investigator.Backtrace.Capture.{init_backtrace_data-IsWhole}
use old_crash_investigator.Container.{Hash, IsHash}
use old_crash_investigator.LeakOnly.{CLibrary, State, Call, Trace}
use old_crash_investigator.LeakOnly.Operations.{free_mem, alloc_mem}
use old_crash_investigator.LeakOnly.Consistent.{IsLibrary, IsPlenty, Role, is_like, Consistent}
use old_crash_investigator.LeakOnly.Traces.{in_state}
use old_crash_investigator.LeakOnly.Alloc.{
  memories_like, Allocates, captured, alloc_mem_tracks, alloc_mem_reports,
}
use old_crash_investigator.LeakOnly.Free.{free_mem-Releases, free_mem-null}
use old_crash_investigator.LeakOnly.RoundTrip.{more}

module _ (lib : CLibrary) (library : IsLibrary lib) (hash : Hash) (is_hash : IsHash hash)
    (limit init_time : ℕ) where
  -- The state is one between calls, it is consistent, and no stack has more memories than the limit, or
  -- than one.
  pub record Within (s : State lib hash) : Type 0 where
    pub base : State lib hash
    pub role : ℕ → Role
    pub heap : lib.Heap
    pub traces : ℕ → Option Trace
    pub mem : hash.Table
    pub stack : hash.Table
    pub state-is : s ≡ in_state lib hash base heap traces mem stack 0 false
    pub limit-is : base.max_number_of_alloc_in_the_stack ≡ limit
    pub init_time-is : base.init_time ≡ init_time
    pub consistent : Consistent lib library hash is_hash role heap traces mem stack
    pub within :
        (b : Backtrace)
        → IsWhole b
        → (memories_like lib library hash is_hash b traces mem ≤ 1)
          ⊎ (memories_like lib library hash is_hash b traces mem ≤ limit)

  is_like_join :
      (a b : Backtrace) (o : Option Trace)
      → IsWhole a
      → IsWhole b
      → ((t : Trace) → o ≡ some t → IsWhole t.backtrace)
      → is_like a (some (record { buffer = 0; backtrace = b })) ≡ true
      → is_like a o ≡ is_like b o
  is_like_join a b none wa wb wo same = refl
  is_like_join a b (some t) wa wb wo same =
      let ab = (is_the_same_stack_iff a b wa wb).0 same in
      let deep : 0 < b.stack_deepness = omega (arith, ab.0, wa, wb, ap length ab.1) in
      let with_a = is_the_same_stack_iff a t.backtrace wa (wo t refl) in
      let with_b = is_the_same_stack_iff b t.backtrace wb (wo t refl) in
      Bool-ext (is_like a (some t)) (is_like b (some t))
        (λ e. with_b.1 (deep, sym ab.1 ∙ (with_a.0 e).1))
        (λ e. with_a.1 (ab.0, ab.1 ∙ (with_b.0 e).1))

  -- The bound on the numbers after an allocation that does not report a leak.
  within-Allocates :
      (base : State lib hash) {role : ℕ → Role} {heap : lib.Heap} {traces : ℕ → Option Trace}
      {mem stack : hash.Table} (c : Consistent lib library hash is_hash role heap traces mem stack)
      (call : Call) (size go_back : ℕ)
      (made : Allocates lib library hash is_hash base c call size go_back)
      → (memories_like lib library hash is_hash
            (captured lib library hash is_hash base c call size go_back)
            traces
            mem
          ≡ 0)
        ⊎ (memories_like lib library hash is_hash
                (captured lib library hash is_hash base c call size go_back)
                traces
                mem
              + 1
            ≤ limit)
      → (b : Backtrace) → IsWhole b
      → (memories_like lib library hash is_hash b traces mem ≤ 1)
        ⊎ (memories_like lib library hash is_hash b traces mem ≤ limit)
      → (memories_like lib library hash is_hash b made.after_traces made.mem' ≤ 1)
        ⊎ (memories_like lib library hash is_hash b made.after_traces made.mem' ≤ limit)
  unfolding memories_like
  within-Allocates base {traces = traces} {mem = mem} c call size go_back made calm b whole before =
      elim (Bool-cases (is_like b (made.after_traces made.at))) [
        | inr fails ↦
            let same : number b made.after_traces made.mem' ≡ number b traces mem =
              more lib library hash is_hash base c call size go_back made b
              ∙ rw fails (omega arith) in
            rw same before
        | inl holds ↦
            let grown : number b made.after_traces made.mem' ≡ 1 + number b traces mem =
              more lib library hash is_hash base c call size go_back made b ∙ rw holds refl in
            let like : is_like b (some made.trace) ≡ true = rw (made.at-is.0) at holds in
            let same : number b traces mem ≡ number now traces mem =
              is_hash.count_where_ext _ _ mem c.mem-sound (λ q t e.
                is_like_join b now (traces t) whole
                  (init_backtrace_data-IsWhole (go_back + 1) call.frames).0
                  (λ u f.
                    let good = (c.mem_trace q t e).1.1 in
                    subst (λ (v : Trace). IsWhole v.backtrace) (some-injective (sym good.1 ∙ f))
                      good.2)
                  (subst
                    (λ (v : Backtrace).
                      is_like b (some (record { buffer = 0; backtrace = v })) ≡ true)
                    made.at-is.1 like)) in
            elim calm [
              | inl zero ↦ inl (omega (arith, grown, same, zero))
              | inr few ↦ inr (omega (arith, grown, same, few))
            ]
      ]
    where
      number : Backtrace → (ℕ → Option Trace) → hash.Table → ℕ
      number b traces mem = is_hash.count_where (λ _ t. is_like b (traces t)) mem

      now : Backtrace
      now = init_backtrace_data (go_back + 1) call.frames

      some-injective : {t u : Trace} → some t ≡ some u → t ≡ u
      some-injective e = cc

  ok-state :
      {a b : State lib hash} (r : Run (Unit {0} × State lib hash))
      → r ≡ ok (tt, a)
      → r ≡ ok (tt, b)
      → a ≡ b
  ok-state r e f = cc

  module _ (plenty : IsPlenty lib) (small : limit + 1 < size_mod) where
    -- A step from such a state.
    pub allocated-Within :
        (s s' : State lib hash) (call : Call) (size go_back p : ℕ)
        → Within s
        → 0 < length call.frames
        → init_time ≤ call.now
        → alloc_mem lib hash call size go_back s ≡ ok (p, s')
        → Within s'
    allocated-Within s s' call size go_back p w deep since ran =
        let n =
          memories_like lib library hash is_hash
            (captured lib library hash is_hash w.base w.consistent call size go_back) w.traces
            w.mem in
        let start : alloc_mem lib hash call size go_back
              (in_state lib hash w.base w.heap w.traces w.mem w.stack 0 false)
            ≡ ok (p, s') =
          rw (w.state-is) at ran in
        let few : n + 1 < size_mod =
          bound n (w.within _ (init_backtrace_data-IsWhole (go_back + 1) call.frames).0) in
        let done : (n ≡ 0) ⊎ (n + 1 ≤ limit) → Within s' = λ calm.
          let made =
            alloc_mem_tracks lib library hash is_hash w.base w.consistent call size go_back plenty
              deep few (loose n calm) in
          record {
            base = w.base;
            role = made.after_role;
            heap = made.heap';
            traces = made.after_traces;
            mem = made.mem';
            stack = made.stack';
            state-is = ok-state _ start made.returns;
            limit-is = w.limit-is;
            init_time-is = w.init_time-is;
            consistent = made.consistent;
            within = λ b whole.
                within-Allocates w.base w.consistent call size go_back made calm b whole
                  (w.within b whole);
          } in
        elim (ℕ_discrete n 0) [
          | yes zero ↦ done (inl zero)
          | no some_one ↦ elim (dec_lt limit (n + 1)) [
            | no few_now ↦ done (inr (omega arith))
            | yes above ↦
                let reported =
                  alloc_mem_reports lib library hash is_hash w.base w.consistent call size go_back
                    plenty deep (omega arith) few (omega (arith, w.limit-is))
                    (omega (arith, w.init_time-is, since)) in
                cc
          ]
        ]
      where
        bound : (n : ℕ) → (n ≤ 1) ⊎ (n ≤ limit) → n + 1 < size_mod
        bound n h = ground arith

        loose :
            (n : ℕ)
            → (n ≡ 0) ⊎ (n + 1 ≤ limit)
            → (n ≡ 0)
              ⊎ ((n + 1 ≤ w.base.max_number_of_alloc_in_the_stack) ⊎ (call.now < w.base.init_time))
        loose n (inl zero) = inl zero
        loose n (inr few) = inr (inl (omega (arith, w.limit-is)))

        ok-state :
            {p q : ℕ} {a b : State lib hash} (r : Run (ℕ × State lib hash))
            → r ≡ ok (p, a)
            → r ≡ ok (q, b)
            → a ≡ b
        ok-state r e f = cc

    pub freed-Within :
        (s s' : State lib hash) (mem : hash.Table) (p trace : ℕ)
        → Within s
        → s.mem ≡ some mem
        → is_hash.value_at mem p ≡ some trace
        → free_mem lib hash p s ≡ ok (tt, s')
        → Within s'
    freed-Within s s' mem p trace w has tracked ran =
        let start : free_mem lib hash p
              (in_state lib hash w.base w.heap w.traces w.mem w.stack 0 false)
            ≡ ok (tt, s') =
          rw (w.state-is) at ran in
        let same : mem ≡ w.mem =
          some-injective (sym has ∙ ap (λ (u : State lib hash). u.mem) w.state-is) in
        let entry : is_hash.value_at w.mem p ≡ some trace = rw same at tracked in
        let good = (w.consistent.mem_trace p trace entry).1.1 in
        let released =
          free_mem-Releases lib library hash is_hash w.base w.consistent p trace good.0 entry good.1
            (bound _ (w.within good.0.backtrace good.2)) in
        record {
          base = record (w.base) { operator_delete_called = false };
          role = released.after_role;
          heap = released.heap';
          traces = released.after_traces;
          mem = released.mem';
          stack = released.stack';
          state-is = ok-state _ start released.returns;
          limit-is = w.limit-is;
          init_time-is = w.init_time-is;
          consistent = released.consistent;
          within = λ b whole. less _ _ _ (released.fewer b) (w.within b whole);
        }
      where
        bound : (n : ℕ) → (n ≤ 1) ⊎ (n ≤ limit) → n < size_mod
        bound n h = ground arith

        less : (n m k : ℕ) → n ≡ k + m → (n ≤ 1) ⊎ (n ≤ limit) → (m ≤ 1) ⊎ (m ≤ limit)
        less n m k e (inl h) = inl (omega arith)
        less n m k e (inr h) = inr (omega arith)

        some-injective : {a b : hash.Table} → some a ≡ some b → a ≡ b
        some-injective e = cc

  -- A delete of null.
  pub freed-null-Within :
      (s s' : State lib hash) → Within s → free_mem lib hash null s ≡ ok (tt, s') → Within s'
  freed-null-Within s s' w ran =
      let start : free_mem lib hash null
            (in_state lib hash w.base w.heap w.traces w.mem w.stack 0 false)
          ≡ ok (tt, s') =
        rw (w.state-is) at ran in
      let done = free_mem-null lib library hash is_hash w.base w.consistent in
      record {
        base = record (w.base) { operator_delete_called = false };
        role = w.role;
        heap = w.heap;
        traces = w.traces;
        mem = w.mem;
        stack = w.stack;
        state-is = ok-state _ start done;
        limit-is = w.limit-is;
        init_time-is = w.init_time-is;
        consistent = w.consistent;
        within = w.within;
      }
