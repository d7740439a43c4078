-- ===== src/LeakOnly/Clone.antt =====
-- The copy of a trace that becomes the key of a new stack, in
-- src/core/analyze/crash_investigator_analyze_leak_only_new_delete.cpp.
use old_crash_investigator.Base.{
  ℕ, ◌+◌, ◌≡◌, ◌≢◌, sym, ◌∙◌, ap, inl, inr, Bool, true, false, Option, none, some, update,
  update_self, ok, Bool-cases, Option-cases,
}
use old_crash_investigator.Container.{Hash, IsHash, one_if}
use old_crash_investigator.LeakOnly.{CLibrary, State, Trace, clone_back_trace, stack_keys, bt_hash}
use old_crash_investigator.LeakOnly.Consistent.{
  IsLibrary, Role, unowned, stack_key, trace_of, IsTrace, alike, alike_join, alike_sym,
  bt_hash-alike, Consistent, back_trc_eql-alike,
}
use old_crash_investigator.LeakOnly.Traces.{Makes, Makes_kept}
use old_crash_investigator.LeakOnly.Consistent.Alike.{
  alike_ext, alike_kept, alike_copy, bt_hash_kept, IsTrace_kept,
}

module _ (lib : CLibrary) (library : IsLibrary lib) (hash : Hash) (is_hash : IsHash hash)
    (base : State lib hash) (ongoing : ℕ) {role : ℕ → Role} {heap : lib.Heap}
    {traces : ℕ → Option Trace} {mem stack : hash.Table}
    (c : Consistent lib library hash is_hash role heap traces mem stack) (p trace : ℕ)
    (own : IsTrace role traces trace (trace_of p))
    (made : Makes lib library hash is_hash base ongoing true c
      (clone_back_trace lib hash trace)
      stack_key
      own.1.0.backtrace)
    (zero : is_hash.count_where (λ _ t. alike traces trace t) mem ≡ 0)
    (others : (l w : ℕ) → is_hash.value_at stack l ≡ some w → alike traces l trace ≡ false) where
  pub copy_kept :
      (a : ℕ) → role a ≢ unowned → (made.after_role a ≡ role a) × (made.after_traces a ≡ traces a)
  copy_kept a owned = Makes_kept lib library hash is_hash base ongoing true c made a owned

  pub own_kept : IsTrace made.after_role made.after_traces trace (trace_of p)
  own_kept =
      IsTrace_kept role made.after_role traces made.after_traces trace (trace_of p) own (λ f. cc)
        copy_kept

  copy_kept_alike :
      (l t : ℕ)
      → role l ≢ unowned
      → role t ≢ unowned
      → alike made.after_traces l t ≡ alike traces l t
  copy_kept_alike l t ol ot =
      alike_kept traces made.after_traces l t (copy_kept l ol).1 (copy_kept t ot).1

  trace_owned : role trace ≢ unowned
  trace_owned f = let g = sym own.0 ∙ f in cc

  pub copy_alike : alike made.after_traces made.address trace ≡ true
  copy_alike =
      alike_copy made.after_traces made.address trace made.buffer own.1.0
        (ap (λ f. f made.address) made.after_traces-is ∙ update_self traces made.address _)
        ((copy_kept trace trace_owned).1 ∙ own.1.1) own.1.2 own.1.3

  key_owned : (l w : ℕ) → is_hash.value_at stack l ≡ some w → role l ≢ unowned
  key_owned l w f g = let h = sym (c.stack_trace l w f).0 ∙ g in cc

  pub others_kept :
      (l w : ℕ) → is_hash.value_at stack l ≡ some w → alike made.after_traces l trace ≡ false
  others_kept l w f = copy_kept_alike l trace (key_owned l w f) trace_owned ∙ others l w f

  pub copy_number : is_hash.count_where (λ _ t. alike made.after_traces made.address t) mem ≡ 0
  copy_number =
      is_hash.count_where_ext _ _ mem c.mem-sound (λ q t f.
        let t-trace = made.consistent.mem_trace q t f in
        alike_ext made.after_traces made.address trace t made.is_trace.1 own_kept.1 t-trace.1.1
          copy_alike
        ∙ copy_kept_alike trace t trace_owned (λ g. let h = sym (c.mem_trace q t f).1.0 ∙ g in cc))
      ∙ zero

  copy_absent : is_hash.value_at stack made.address ≡ none
  copy_absent = elim (Option-cases (is_hash.value_at stack made.address)) [
    | inl empty ↦ empty
    | inr (w, f) ↦ absurd (key_owned made.address w f made.address-free)
  ]

  pub copy_entered :
      (code : ℕ)
      → bt_hash traces trace ≡ ok code
      → (s : hash.Table) × (hash.add_entry_with_known_hash
            (stack_keys made.after_traces)
            made.address
            1
            code
            stack
          ≡ ok s)
        × is_hash.IsSound s
        × ((l : ℕ) → is_hash.value_at s l ≡ update (is_hash.value_at stack) made.address (some 1) l)
        × ((test : ℕ → ℕ → Bool)
            → is_hash.count_where test s
              ≡ one_if (test made.address 1) + is_hash.count_where test stack)
  copy_entered code hashed =
      is_hash.add-value_at (stack_keys made.after_traces) made.address 1 code stack c.stack-sound
        (let (code', f, g) =
            bt_hash-alike made.after_traces made.address trace made.is_trace.1 own_kept.1
              copy_alike in
          f
          ∙ sym g
          ∙ bt_hash_kept traces made.after_traces trace (copy_kept trace trace_owned).1
          ∙ hashed)
        copy_absent
        (λ l w f.
          let l-trace = (made.consistent.stack_trace l w f).1 in
          back_trc_eql-alike made.after_traces l made.address l-trace made.is_trace.1
          ∙ ap ok (elim (Bool-cases (alike made.after_traces l made.address)) [
            | inr fails ↦ fails
            | inl holds ↦
                let a : alike made.after_traces l trace ≡ true =
                  alike_join made.after_traces l trace made.address l-trace own_kept.1
                    made.is_trace.1 holds
                    (alike_sym made.after_traces made.address trace made.is_trace.1 own_kept.1
                      copy_alike) in
                let b = others_kept l w f in cc
          ]))
