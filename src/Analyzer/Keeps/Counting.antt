-- ===== src/Analyzer/Keeps/Counting.antt =====
-- What taking a stack out of the counts leaves alone, in
-- src/core/basic/crash_investigator_alloc_dealloc_analyze.cpp.
use old_crash_investigator.Base.{
  ℕ, ◌+◌, ◌-◌, ◌%◌, ◌≡◌, refl, inl, inr, ◌==◌, if◌then◌else◌, Bool-cases, ok, null, size_mod, arith,
  assertion_failed,
}
use old_crash_investigator.Analyzer.Monad.{pure, ◌>>=◌, abort, lift_unit, lift_read}
use old_crash_investigator.Analyzer.State.{
  State, Env, freen, find_stack_item, stack_count_at, set_stack_count, remove_stack_item,
  hash_of_trace, same_trace,
}
use old_crash_investigator.Analyzer.Track.{decrement_in_assert, take_stack_out}
use old_crash_investigator.HashItems
use old_crash_investigator.RawAlloc.{Libc}
use old_crash_investigator.Analyzer.Monad.Chain.{bind-returns, lift_unit-returns, lift_read-returns}
use old_crash_investigator.Analyzer.Keeps.{Keeps, Keeps-refl, Keeps-trans, freen-traces}

module _ (libc : Libc) where
  pub find_stack_item-keeps :
      (key : ℕ) (s u : State libc) (r : ℕ × ℕ) → find_stack_item libc key s ≡ ok (r, u) → u ≡ s
  unfolding find_stack_item
  find_stack_item-keeps key s u r h =
      lift_read-returns
        (HashItems.find_entry (hash_of_trace libc s.traces) (same_trace libc s.traces) key
          s.stack_items)
        s h

  pub stack_count_at-keeps :
      (p : ℕ) (s u : State libc) (n : ℕ) → stack_count_at libc p s ≡ ok (n, u) → u ≡ s
  unfolding stack_count_at
  stack_count_at-keeps p s u n h =
      let (item, v, one, rest) =
        bind-returns (λ s. lift_read (HashItems.load p s.stack_items) s) (λ item. pure item.second)
          s h in
      let e = lift_read-returns (HashItems.load p s.stack_items) s one in ground arith

  pub set_stack_count-Keeps :
      (p n : ℕ) (s u : State libc) (x : Unit {0})
      → set_stack_count libc p n s ≡ ok (x, u)
      → Keeps libc s u
  unfolding set_stack_count
  set_stack_count-Keeps p n s u x h =
      let (t, e) =
        lift_unit-returns (HashItems.set_second p n s.stack_items)
          (λ t. record s { stack_items = t }) h in
      rw e (record { memory_items = refl; clbk_data = refl; flag = refl; locked = refl })

  remove_stack_item-Keeps :
      (p : ℕ) (s u : State libc) (x : Unit {0})
      → remove_stack_item libc p s ≡ ok (x, u)
      → Keeps libc s u
  unfolding remove_stack_item
  remove_stack_item-Keeps p s u x h =
      let (y, v, one, rest) =
        bind-returns
          (λ _.
            lift_unit (HashItems.remove_entry p s.stack_items) (λ t. record s { stack_items = t }))
          (λ _. freen libc p) s h in
      let (t, e) =
        lift_unit-returns (HashItems.remove_entry p s.stack_items)
          (λ t. record s { stack_items = t }) one in
      Keeps-trans libc s v u
        (rw e (record { memory_items = refl; clbk_data = refl; flag = refl; locked = refl }))
        (freen-traces libc p v u x rest).0

  decrement-Keeps :
      (env : Env) (iter : ℕ) (s u : State libc) (x : Unit {0})
      → decrement_in_assert libc env iter s ≡ ok (x, u)
      → Keeps libc s u
  unfolding decrement_in_assert
  decrement-Keeps env iter s u x h = elim (Bool-cases env.ndebug) [
    | inl release ↦
        let e = rw release at h in
        let same : s ≡ u = ground arith in rw (← same) (Keeps-refl libc s)
    | inr debug ↦ elim (Bool-cases (iter == null)) [
      | inl end ↦ let e = rw (debug, end) at h in cc
      | inr found ↦
          let (n, v, one, rest) =
            bind-returns (stack_count_at libc iter)
              (λ n. set_stack_count libc iter ((n + size_mod - 1) % size_mod) >>= λ _.
                if n == 0 then abort assertion_failed else pure tt)
              s (rw (debug, found) at h) in
          let (y, w, two, last) =
            bind-returns (set_stack_count libc iter ((n + size_mod - 1) % size_mod))
              (λ _. if n == 0 then abort assertion_failed else pure tt) v rest in
          let k = set_stack_count-Keeps iter ((n + size_mod - 1) % size_mod) v w y two in
          let e = stack_count_at-keeps iter s v n one in
          elim (Bool-cases (n == 0)) [
            | inl bad ↦ let e = rw bad at last in cc
            | inr good ↦ let l = rw good at last in let f : w ≡ u = ground arith in rw (← f, ← e) k
          ]
    ]
  ]

  pub take_stack_out-Keeps :
      (env : Env) (trace : ℕ) (s u : State libc) (x : Unit {0})
      → take_stack_out libc env trace s ≡ ok (x, u)
      → Keeps libc s u
  unfolding take_stack_out
  take_stack_out-Keeps env trace s u x h =
      let (r, v, one, rest) =
        bind-returns (find_stack_item libc trace)
          (λ r. decrement_in_assert libc env r.0 >>= λ _.
            stack_count_at libc r.0 >>= λ n. if n == 0 then remove_stack_item libc r.0 else pure tt)
          s h in
      let (y, w, two, rest') =
        bind-returns (decrement_in_assert libc env r.0)
          (λ _.
            stack_count_at libc r.0 >>= λ n. if n == 0 then remove_stack_item libc r.0 else pure tt)
          v rest in
      let (n, z, three, last) =
        bind-returns (stack_count_at libc r.0)
          (λ n. if n == 0 then remove_stack_item libc r.0 else pure tt) w rest' in
      let e = find_stack_item-keeps trace s v r one in
      let k = decrement-Keeps env r.0 v w y two in
      let f = stack_count_at-keeps r.0 w z n three in
      elim (Bool-cases (n == 0)) [
        | inl gone ↦
            Keeps-trans libc s w u (rw (← e) k)
              (rw (← f) (remove_stack_item-Keeps r.0 z u x (rw gone at last)))
        | inr left ↦ let l = rw left at last in let g : z ≡ u = ground arith in rw (← g, f, ← e) k
      ]
