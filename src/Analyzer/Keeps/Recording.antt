-- ===== src/Analyzer/Keeps/Recording.antt =====
-- What counting a stack leaves alone, in
-- src/core/basic/crash_investigator_alloc_dealloc_analyze.cpp.
use old_crash_investigator.Base.{
  ℕ, ◌+◌, ◌%◌, ◌≡◌, refl, inl, inr, Bool, ltb, ◌==◌, Bool-cases, ok, null, size_mod, arith,
}
use old_crash_investigator.Analyzer.Keeps.{Keeps, Keeps-refl, Keeps-trans, mallocn-traces}
use old_crash_investigator.Analyzer.Keeps.Counting.{
  find_stack_item-keeps, stack_count_at-keeps, set_stack_count-Keeps,
}
use old_crash_investigator.Analyzer.Monad.{pure, ◌>>=◌}
use old_crash_investigator.Analyzer.Monad.Chain.{bind-returns, lift_unit-returns}
use old_crash_investigator.Analyzer.State.{
  State, Env, mallocn, find_stack_item, stack_count_at, set_stack_count, add_stack_item,
}
use old_crash_investigator.Analyzer.Track.{count_stack}
use old_crash_investigator.HashItems
use old_crash_investigator.RawAlloc.{Libc}

module _ (libc : Libc) where
  add_stack_item-Keeps :
      (key hash n : ℕ) (s u : State libc) (x : Unit {0})
      → add_stack_item libc key hash n s ≡ ok (x, u)
      → Keeps libc s u
  unfolding add_stack_item
  add_stack_item-Keeps key hash n s u x h =
      let (fresh, v, one, rest) = bind-returns (mallocn libc 56) _ s h in
      let (t, e) =
        lift_unit-returns (HashItems.add_entry_with_known_hash fresh key hash n v.stack_items)
          (λ t. record v { stack_items = t }) rest in
      Keeps-trans libc s v u (mallocn-traces libc 56 s v fresh one).0
        (rw e (record { memory_items = refl; clbk_data = refl; flag = refl; locked = refl }))

  -- The branch of a stack that has been counted before, below a limit.
  counted-Keeps :
      (iter limit : ℕ) (s u : State libc) (r : Bool)
      → (stack_count_at libc iter >>= λ n. set_stack_count libc iter ((n + 1) % size_mod) >>= λ _.
            pure (ltb limit ((n + 1) % size_mod)))
          s
        ≡ ok (r, u)
      → Keeps libc s u
  counted-Keeps iter limit s u r h =
      let (n, v, one, rest) = bind-returns (stack_count_at libc iter) _ s h in
      let (x, w, two, last) =
        bind-returns (set_stack_count libc iter ((n + 1) % size_mod)) _ v rest in
      let k = set_stack_count-Keeps libc iter ((n + 1) % size_mod) v w x two in
      let e = stack_count_at-keeps libc iter s v n one in
      let f : w ≡ u = ground arith in rw (← f, ← e) k

  pub count_stack-Keeps :
      (env : Env) (trace : ℕ) (s u : State libc) (r : Bool)
      → count_stack libc env trace s ≡ ok (r, u)
      → Keeps libc s u
  unfolding count_stack
  count_stack-Keeps env trace s u r h =
      let ((iter, hash), v, one, rest) = bind-returns (find_stack_item libc trace) _ s h in
      let e = find_stack_item-keeps libc trace s v (iter, hash) one in
      elim (Bool-cases (iter == null)) [
        | inl new ↦
            let (x, w, two, last) =
              bind-returns (add_stack_item libc trace hash 1) _ v (rw new at rest) in
            let f : w ≡ u = ground arith in
            rw (← f, ← e) (add_stack_item-Keeps trace hash 1 v w x two)
        | inr old ↦ elim (Bool-cases (ltb 0 v.max_number_of_alloc_from_the_same_stack)) [
          | inl limited ↦ rw (← e) (
              counted-Keeps iter v.max_number_of_alloc_from_the_same_stack v u r
                (rw (old, limited) at rest))
          | inr free ↦
              let last = rw (old, free) at rest in
              let f : v ≡ u = ground arith in rw (← f, ← e) (Keeps-refl libc v)
        ]
      ]
