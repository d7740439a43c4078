-- ===== src/LeakOnly/Drop.antt =====
-- `FreeBacktraceData` of src/core/analyze/crash_investigator_analyze_leak_only_new_delete.cpp in a consistent
-- state, of a trace that no table has, as one that has just left them.
use old_crash_investigator.Base.{
  ℕ, ◌≡◌, ◌≢◌, refl, sym, ◌∙◌, ap, Bool, false, Option, none, update, update_ne, ok, null, ne→==,
}
use old_crash_investigator.Container.{Hash, IsHash}
use old_crash_investigator.LeakOnly.{
  CLibrary, State, Act, Trace, c_free, load_trace, put_trace, free_backtrace_data,
}
use old_crash_investigator.LeakOnly.Consistent.{
  IsLibrary, Role, unowned, user, stack_key, trace_of, buffer_of, IsTrace, Consistent, live,
  not_null,
}
use old_crash_investigator.LeakOnly.Consistent.Heap.{put, shrink, IsSpare}
use old_crash_investigator.LeakOnly.Traces.{in_state}

module _ (lib : CLibrary) (library : IsLibrary lib) (hash : Hash) (is_hash : IsHash hash)
    (base : State lib hash) (ongoing : ℕ) (locked : Bool) {role : ℕ → Role} {heap : lib.Heap}
    {traces : ℕ → Option Trace} {mem stack : hash.Table}
    (c : Consistent lib library hash is_hash role heap traces mem stack) where
  -- What is freed: a trace that no table has goes, with its two addresses.
  pub record Frees (call : Act lib hash (Unit {0})) (p : ℕ) : Type 0 where
    pub heap' : lib.Heap
    pub after_role : ℕ → Role
    pub after_role-other : (a : ℕ) → role a ≢ buffer_of p → a ≢ p → after_role a ≡ role a
    pub returns :
        (m s : hash.Table)
        → call (in_state lib hash base heap traces m s ongoing locked)
          ≡ ok (tt, in_state lib hash base heap' (update traces p none) m s ongoing locked)
    pub consistent :
        Consistent lib library hash is_hash after_role heap' (update traces p none) mem stack

  pub free_backtrace_data-Frees :
      (p : ℕ) (w : Role)
      → IsTrace role traces p w
      → w ≢ unowned
      → w ≢ user
      → ((a : ℕ) → w ≢ buffer_of a)
      → IsSpare lib library hash is_hash c p
      → Frees (free_backtrace_data lib hash p) p
  unfolding free_backtrace_data load_trace c_free put_trace
  free_backtrace_data-Frees p w (own, (t, here, whole, deep), buf) owned not_user not_buffer spare =
      record {
        heap' = h2;
        after_role = update (update role b unowned) p unowned;
        after_role-other = λ a no_buffer other.
            update_ne (update role b unowned) p a unowned other
            ∙ update_ne role b a unowned (λ e. no_buffer (ap role e ∙ buf));
        returns = λ m s.
            rw
              (
                ne→== p null (not_null lib library hash is_hash c p (λ e. owned (sym own ∙ e))),
                here,
                freed.1,
                freed'.1,
              )
              refl;
        consistent = put lib library hash is_hash c2 p none spare;
      }
    where
      b : ℕ
      b = t.buffer

      b-owned : role b ≢ unowned
      b-owned e = let both : unowned ≡ buffer_of p = sym e ∙ buf in cc

      p-other : p ≢ b
      p-other e = not_buffer p (sym own ∙ ap role e ∙ buf)

      freed :
          (h : lib.Heap) × (lib.free_fn b heap ≡ ok h)
          × ((a : ℕ) → library.is_live h a ≡ update (library.is_live heap) b false a)
      freed = library.free_fn-live b heap (live lib library hash is_hash c b b-owned)

      c1 : Consistent lib library hash is_hash (update role b unowned) freed.0 traces mem stack
      c1 =
          shrink lib library hash is_hash c b freed.0 freed.2
            (
              λ q trace e same.
                  let mine = (c.mem_trace q trace e).1.0 in
                  let both : trace_of q ≡ buffer_of p = sym mine ∙ ap role same ∙ buf in cc,
              λ k n e same.
                  let mine = (c.stack_trace k n e).0 in
                  let both : stack_key ≡ buffer_of p = sym mine ∙ ap role same ∙ buf in cc,
            )
            (λ q trace e same.
              let mine = (c.mem_trace q trace e).0 in
              let both : user ≡ buffer_of p = sym mine ∙ ap role same ∙ buf in cc)
            (λ q trace e same.
              let both : buffer_of p ≡ buffer_of trace = sym buf ∙ same in
              let it : p ≡ trace = cc in spare.0 q trace e (sym it))
            (λ k n e same.
              let both : buffer_of p ≡ buffer_of k = sym buf ∙ same in
              let it : p ≡ k = cc in spare.1 k n e (sym it))

      own1 : update role b unowned p ≡ w
      own1 = update_ne role b p unowned p-other ∙ own

      freed' :
          (h : lib.Heap) × (lib.free_fn p freed.0 ≡ ok h)
          × ((a : ℕ) → library.is_live h a ≡ update (library.is_live freed.0) p false a)
      freed' =
          library.free_fn-live p freed.0
            (live lib library hash is_hash c1 p (λ e. owned (sym own1 ∙ e)))

      h2 : lib.Heap
      h2 = freed'.0

      c2 :
          Consistent lib library hash is_hash
            (update (update role b unowned) p unowned)
            h2
            traces
            mem
            stack
      c2 =
          shrink lib library hash is_hash c1 p h2 freed'.2 spare
            (λ q trace e same. not_user (sym own ∙ ap role (sym same) ∙ (c.mem_trace q trace e).0))
            (λ q trace e same. not_buffer trace (sym own1 ∙ same))
            (λ k n e same. not_buffer k (sym own1 ∙ same))

  -- The trace of a memory that is in the table no more is freed.
  pub drop_trace :
      (p trace : ℕ)
      → is_hash.value_at mem p ≡ none
      → IsTrace role traces trace (trace_of p)
      → Frees (free_backtrace_data lib hash trace) trace
  drop_trace p trace gone own =
      free_backtrace_data-Frees trace (trace_of p) own (λ f. cc) (λ f. cc) (λ a f. cc)
        (
          λ q t e same.
              let both : trace_of q ≡ trace_of p =
                sym (c.mem_trace q t e).1.0 ∙ ap role same ∙ own.0 in
              let it : q ≡ p = cc in let f = sym e ∙ ap (is_hash.value_at mem) it ∙ gone in cc,
          λ k n e same.
              let both : stack_key ≡ trace_of p =
                sym (c.stack_trace k n e).0 ∙ ap role same ∙ own.0 in
              cc,
        )

  -- The key of a stack that is in the table no more is freed.
  pub drop_key :
      (k : ℕ)
      → is_hash.value_at stack k ≡ none
      → IsTrace role traces k stack_key
      → Frees (free_backtrace_data lib hash k) k
  drop_key k gone own =
      free_backtrace_data-Frees k stack_key own (λ f. cc) (λ f. cc) (λ a f. cc)
        (
          λ q t e same.
              let both : trace_of q ≡ stack_key =
                sym (c.mem_trace q t e).1.0 ∙ ap role same ∙ own.0 in
              cc,
          λ l n e same. let f = sym e ∙ ap (is_hash.value_at stack) same ∙ gone in cc,
        )

  -- A trace stays where another is freed.
  pub IsTrace-Frees :
      {call : Act lib hash (Unit {0})} (k t : ℕ) (w v : Role)
      → (frees : Frees call k) → IsTrace role traces k v
      → ((a : ℕ) → v ≢ buffer_of a)
      → IsTrace role traces t w
      → ((a : ℕ) → w ≢ buffer_of a)
      → t ≢ k
      → IsTrace frees.after_role (update traces k none) t w
  IsTrace-Frees k t w v frees key not_buffer own plain other = (
    frees.after_role-other t (λ f. plain k (sym own.0 ∙ f)) other ∙ own.0,
    (own.1.0, update_ne traces k t none other ∙ own.1.1, own.1.2, own.1.3),
    frees.after_role-other own.1.0.buffer
          (λ f.
            let g : buffer_of t ≡ buffer_of k = sym own.2 ∙ f in let it : t ≡ k = cc in other it)
          (λ f. not_buffer t (sym key.0 ∙ ap role (sym f) ∙ own.2))
        ∙ own.2,
  )
