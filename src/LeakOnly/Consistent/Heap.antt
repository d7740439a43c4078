-- ===== src/LeakOnly/Consistent/Heap.antt =====
-- The invariant of src/core/analyze/crash_investigator_analyze_leak_only_new_delete.cpp when memory is
-- taken and given back, and when a trace that no table has is written or freed.
use native.Mathlib.Decide.{ℕ_discrete}
use old_crash_investigator.Base.{
  ℕ, ◌≡◌, ◌≢◌, sym, ◌∙◌, ap, true, false, Option, some, update, update_self, update_ne,
}
use old_crash_investigator.Container.{Hash, IsHash}
use old_crash_investigator.LeakOnly.{CLibrary, Trace}
use old_crash_investigator.LeakOnly.Consistent.{
  IsLibrary, Role, unowned, user, stack_key, trace_of, buffer_of, IsTrace, alike, same_trace,
  Consistent,
}

-- A trace that has an owner keeps it where a memory without an owner gets one, and where another memory,
-- not the trace's own, loses its.
pub IsTrace-update_role :
    (role : ℕ → Role) (traces : ℕ → Option Trace) (p r : ℕ) (w x : Role)
    → IsTrace role traces p w
    → p ≢ r
    → role r ≢ buffer_of p
    → IsTrace (update role r x) traces p w
IsTrace-update_role role traces p r w x (own, good, buf) ne nb = (
  update_ne role r p x ne ∙ own,
  good,
  update_ne role r good.0.buffer x (λ e. nb (ap role (sym e) ∙ buf)) ∙ buf,
)

pub IsTrace-put :
    (role : ℕ → Role) (traces : ℕ → Option Trace) (p r : ℕ) (w : Role) (t : Option Trace)
    → IsTrace role traces p w
    → p ≢ r
    → IsTrace role (update traces r t) p w
IsTrace-put role traces p r w t (own, (u, e, whole, deep), buf) ne =
    (own, (u, update_ne traces r p t ne ∙ e, whole, deep), buf)

pub alike-put :
    (traces : ℕ → Option Trace) (p q r : ℕ) (t : Option Trace)
    → p ≢ r
    → q ≢ r
    → alike (update traces r t) p q ≡ alike traces p q
unfolding alike
alike-put traces p q r t np nq =
    ap (λ o. same_trace o (update traces r t q)) (update_ne traces r p t np)
    ∙ ap (λ o. same_trace (traces p) o) (update_ne traces r q t nq)

module _ (lib : CLibrary) (library : IsLibrary lib) (hash : Hash) (is_hash : IsHash hash)
    {role : ℕ → Role} {heap : lib.Heap} {traces : ℕ → Option Trace} {mem stack : hash.Table}
    (c : Consistent lib library hash is_hash role heap traces mem stack) where
  -- The memory that `malloc` returns, whatever it is for.
  pub grow :
      (r : ℕ) (x : Role) (heap' : lib.Heap)
      → library.is_live heap r ≡ false
      → ((a : ℕ) → library.is_live heap' a ≡ update (library.is_live heap) r true a)
      → Consistent lib library hash is_hash (update role r x) heap' traces mem stack
  grow r x heap' fresh lives = record {
    mem-sound = c.mem-sound;
    stack-sound = c.stack-sound;
    dead = λ a e. elim (ℕ_discrete a r) [
      | yes here ↦
          let up : library.is_live heap' a ≡ true =
            lives a
            ∙ ap (update (library.is_live heap) r true) here
            ∙ update_self (library.is_live heap) r true in
          cc
      | no other ↦
          update_ne role r a x other
          ∙ c.dead a (sym (update_ne (library.is_live heap) r a true other) ∙ sym (lives a) ∙ e)
    ];
    mem_trace = λ p trace e.
        let old = c.mem_trace p trace e in
        let owned : role p ≡ user = old.0 in
        (
          update_ne role r p x (λ q. differs p q owned cc) ∙ owned,
          kept trace (trace_of p) old.1 cc,
        );
    stack_trace = λ k n e. kept k stack_key (c.stack_trace k n e) cc;
    counted = c.counted;
    unique = c.unique;
    present = c.present;
  }
    where
      nobody : role r ≡ unowned
      nobody = c.dead r fresh

      differs : (p : ℕ) {w : Role} → p ≡ r → role p ≡ w → w ≢ unowned → ⊥
      differs p e own ne = ne (sym own ∙ ap role e ∙ nobody)

      kept :
          (p : ℕ) (w : Role)
          → IsTrace role traces p w
          → w ≢ unowned
          → IsTrace (update role r x) traces p w
      kept p w t ne =
          IsTrace-update_role role traces p r w x t (λ e. differs p e t.0 ne)
            (λ e. let both : unowned ≡ buffer_of p = sym nobody ∙ e in cc)

  -- No table has the trace.
  abbrev pub IsSpare : ℕ → Type 0
  IsSpare p =
      ((q trace : ℕ) → is_hash.value_at mem q ≡ some trace → trace ≢ p)
      × ((k n : ℕ) → is_hash.value_at stack k ≡ some n → k ≢ p)

  -- A trace that no table has is written or freed.
  pub put :
      (p : ℕ) (t : Option Trace)
      → IsSpare p
      → Consistent lib library hash is_hash role heap (update traces p t) mem stack
  put p t (spare_mem, spare_stack) = record {
    mem-sound = c.mem-sound;
    stack-sound = c.stack-sound;
    dead = c.dead;
    mem_trace = λ q trace e.
        let old = c.mem_trace q trace e in
        (old.0, IsTrace-put role traces trace p (trace_of q) t old.1 (spare_mem q trace e));
    stack_trace =
        λ k n e. IsTrace-put role traces k p stack_key t (c.stack_trace k n e) (spare_stack k n e);
    counted = λ k n e.
        let old = c.counted k n e in
        (
          old.0
              ∙ is_hash.count_where_ext _ _ mem c.mem-sound (λ q trace f.
                sym (alike-put traces k trace p t (spare_stack k n e) (spare_mem q trace f))),
          old.1,
        );
    unique = λ k l n w e f a.
        c.unique k l n w e f
          (sym (alike-put traces k l p t (spare_stack k n e) (spare_stack l w f)) ∙ a);
    present = λ q trace e.
        let old = c.present q trace e in
        (
          old.0,
          old.1,
          old.2,
          alike-put traces old.0 trace p t (spare_stack old.0 old.1 old.2) (spare_mem q trace e)
              ∙ old.3,
        );
  }

  -- A memory that no entry needs is given back.
  pub shrink :
      (r : ℕ) (heap' : lib.Heap)
      → ((a : ℕ) → library.is_live heap' a ≡ update (library.is_live heap) r false a)
      → IsSpare r
      → ((q trace : ℕ) → is_hash.value_at mem q ≡ some trace → q ≢ r)
      → ((q trace : ℕ) → is_hash.value_at mem q ≡ some trace → role r ≢ buffer_of trace)
      → ((k n : ℕ) → is_hash.value_at stack k ≡ some n → role r ≢ buffer_of k)
      → Consistent lib library hash is_hash (update role r unowned) heap' traces mem stack
  shrink r heap' lives (spare_mem, spare_stack) spare_key mem_buffer stack_buffer = record {
    mem-sound = c.mem-sound;
    stack-sound = c.stack-sound;
    dead = λ a e. elim (ℕ_discrete a r) [
      | yes here ↦ ap (update role r unowned) here ∙ update_self role r unowned
      | no other ↦
          update_ne role r a unowned other
          ∙ c.dead a (sym (update_ne (library.is_live heap) r a false other) ∙ sym (lives a) ∙ e)
    ];
    mem_trace = λ q trace e.
        let old = c.mem_trace q trace e in
        (
          update_ne role r q unowned (spare_key q trace e) ∙ old.0,
          IsTrace-update_role role traces trace r (trace_of q) unowned old.1 (spare_mem q trace e)
              (mem_buffer q trace e),
        );
    stack_trace = λ k n e.
        IsTrace-update_role role traces k r stack_key unowned (c.stack_trace k n e)
          (spare_stack k n e) (stack_buffer k n e);
    counted = c.counted;
    unique = c.unique;
    present = c.present;
  }
