-- ===== src/LeakOnly/Traces.antt =====
-- The traces of src/core/analyze/crash_investigator_analyze_leak_only_new_delete.cpp: that they are made,
-- copied and freed in a consistent state.
use old_crash_investigator.Base.{
  ℕ, ◌*◌, ◌%◌, ◌<◌, ◌≡◌, ◌≢◌, refl, sym, ◌∙◌, ap, Bool, false, Option, some, update, update_self,
  update_ne, ok, null, size_mod, ne→==,
}
use old_crash_investigator.Backtrace.{Backtrace, IsWhole}
use old_crash_investigator.Container.{Hash, IsHash}
use old_crash_investigator.LeakOnly.{
  CLibrary, State, Act, Trace, c_malloc, c_free, new_trace, clone_back_trace, load_trace, put_trace,
}
use old_crash_investigator.LeakOnly.Consistent.{
  IsLibrary, IsPlenty, Role, unowned, stack_key, trace_of, buffer_of, IsTrace, Consistent, not_null,
}
use old_crash_investigator.LeakOnly.Consistent.Heap.{grow, put, IsSpare}

module _ (lib : CLibrary) (hash : Hash) where
  -- The state during a call, or between calls: the memory, the tables, how many calls are going on and
  -- whether the mutex is locked; the stack is not ignored. `base` has the other variables.
  abbrev pub in_state :
      State lib hash
      → lib.Heap
      → (ℕ → Option Trace)
      → (mem stack : hash.Table) → ℕ
      → Bool
      → State lib hash
  in_state base heap traces mem stack ongoing locked = record base {
    heap = heap;
    traces = traces;
    ignore_this_stack = false;
    init_or_exit_ongoing = false;
    is_ongoing = ongoing;
    mem = some mem;
    stack = some stack;
    locked = some locked;
  }

module _ (lib : CLibrary) (library : IsLibrary lib) (hash : Hash) (is_hash : IsHash hash)
    (base : State lib hash) (ongoing : ℕ) (locked : Bool) {role : ℕ → Role} {heap : lib.Heap}
    {traces : ℕ → Option Trace} {mem stack : hash.Table}
    (c : Consistent lib library hash is_hash role heap traces mem stack) where
  pub unowned-IsSpare : (p : ℕ) → role p ≡ unowned → IsSpare lib library hash is_hash c p
  unowned-IsSpare p nobody = (
    λ q trace e same.
        let own = (c.mem_trace q trace e).1.0 in
        let both : unowned ≡ trace_of q = sym nobody ∙ ap role (sym same) ∙ own in cc,
    λ k n e same.
        let own = (c.stack_trace k n e).0 in
        let both : unowned ≡ stack_key = sym nobody ∙ ap role (sym same) ∙ own in cc,
  )

  -- The call makes this trace, at addresses that had no owner before.
  pub record Makes (call : Act lib hash ℕ) (w : Role) (t : Backtrace) : Type 0 where
    pub address : ℕ
    pub buffer : ℕ
    pub heap' : lib.Heap
    pub after_role : ℕ → Role
    pub after_role-is : after_role ≡ update (update role address w) buffer (buffer_of address)
    pub after_traces : ℕ → Option Trace
    pub after_traces-is :
        after_traces ≡ update traces address (some (record { buffer = buffer; backtrace = t }))
    pub returns :
        (m s : hash.Table)
        → call (in_state lib hash base heap traces m s ongoing locked)
          ≡ ok (address, in_state lib hash base heap' after_traces m s ongoing locked)
    pub address-free : role address ≡ unowned
    pub buffer-free : role buffer ≡ unowned
    pub is_trace : IsTrace after_role after_traces address w
    pub consistent : Consistent lib library hash is_hash after_role heap' after_traces mem stack

  -- What had an owner keeps it, and a trace with an owner stays.
  pub Makes_kept :
      {call : Act lib hash ℕ} {w : Role} {t : Backtrace} (made : Makes call w t) (a : ℕ)
      → role a ≢ unowned
      → (made.after_role a ≡ role a) × (made.after_traces a ≡ traces a)
  Makes_kept {w = w} made a owned = (
    ap (λ f. f a) made.after_role-is
        ∙ update_ne (update role made.address w) made.buffer a (buffer_of made.address)
            (λ f. owned (ap role f ∙ made.buffer-free))
        ∙ update_ne role made.address a w (λ f. owned (ap role f ∙ made.address-free)),
    ap (λ f. f a) made.after_traces-is
        ∙ update_ne traces made.address a _ (λ f. owned (ap role f ∙ made.address-free)),
  )

  -- A whole trace that is not empty is made, where memory is plenty.
  pub new_trace-Makes :
      IsPlenty lib
      → (w : Role) → w ≢ unowned
      → (give_up : ℕ → Act lib hash (Unit {0})) → (t : Backtrace) → IsWhole t
      → 0 < t.stack_deepness
      → Makes (new_trace lib hash give_up t) w t
  unfolding new_trace c_malloc put_trace
  new_trace-Makes plenty w owned give_up t whole deep = record {
    address = q;
    buffer = b;
    heap' = h2;
    after_role = role';
    after_role-is = refl;
    after_traces = traces';
    after_traces-is = refl;
    returns = λ m s. rw (ne→== q null (plenty 16 heap), ne→== b null (plenty size h1)) refl;
    address-free = q-free;
    buffer-free = sym (update_ne role q b w b-other) ∙ b-free;
    is_trace = (
      update_ne (update role q w) b q (buffer_of q) (λ e. b-other (sym e)) ∙ update_self role q w,
      (made, update_self traces q (some made), whole, deep),
      update_self (update role q w) b (buffer_of q),
    );
    consistent = put lib library hash is_hash c2 q (some made) (unowned-IsSpare q q-free);
  }
    where
      size : ℕ
      size = (t.stack_deepness * 8) % size_mod

      q : ℕ
      q = (lib.malloc_fn 16 heap).0

      h1 : lib.Heap
      h1 = (lib.malloc_fn 16 heap).1

      b : ℕ
      b = (lib.malloc_fn size h1).0

      h2 : lib.Heap
      h2 = (lib.malloc_fn size h1).1

      made : Trace
      made = record { buffer = b; backtrace = t }

      role' : ℕ → Role
      role' = update (update role q w) b (buffer_of q)

      traces' : ℕ → Option Trace
      traces' = update traces q (some made)

      q-free : role q ≡ unowned
      q-free = c.dead q (library.malloc_fn-live 16 heap (plenty 16 heap)).0

      c1 : Consistent lib library hash is_hash (update role q w) h1 traces mem stack
      c1 =
          grow lib library hash is_hash c q w h1 (library.malloc_fn-live 16 heap (plenty 16 heap)).0
            (library.malloc_fn-live 16 heap (plenty 16 heap)).1

      b-free : update role q w b ≡ unowned
      b-free = c1.dead b (library.malloc_fn-live size h1 (plenty size h1)).0

      b-other : b ≢ q
      b-other e = owned (sym (update_self role q w) ∙ ap (update role q w) (sym e) ∙ b-free)

      c2 : Consistent lib library hash is_hash role' h2 traces mem stack
      c2 =
          grow lib library hash is_hash c1 b (buffer_of q) h2
            (library.malloc_fn-live size h1 (plenty size h1)).0
            (library.malloc_fn-live size h1 (plenty size h1)).1

  -- A trace of a table is copied for a key.
  pub clone_back_trace-Makes :
      IsPlenty lib
      → (p : ℕ) (w : Role) → (own : IsTrace role traces p w) → w ≢ unowned
      → Makes (clone_back_trace lib hash p) stack_key own.1.0.backtrace
  unfolding clone_back_trace load_trace
  clone_back_trace-Makes plenty p w (own, (t, here, whole, deep), buf) owned =
      let made =
        new_trace-Makes plenty stack_key (λ e. cc) (c_free lib hash) t.backtrace whole deep in
      record {
        address = made.address;
        buffer = made.buffer;
        heap' = made.heap';
        after_role = made.after_role;
        after_role-is = made.after_role-is;
        after_traces = made.after_traces;
        after_traces-is = made.after_traces-is;
        returns = λ m s.
            rw
              (
                ne→== p null (not_null lib library hash is_hash c p (λ e. owned (sym own ∙ e))),
                here,
              )
              (made.returns m s);
        address-free = made.address-free;
        buffer-free = made.buffer-free;
        is_trace = made.is_trace;
        consistent = made.consistent;
      }
