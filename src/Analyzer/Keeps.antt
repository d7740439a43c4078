-- ===== src/Analyzer/Keeps.antt =====
-- What the functions of src/core/basic/crash_investigator_alloc_dealloc_analyze.cpp leave alone when
-- they take, free and count traces.
pub mod Counting
pub mod Recording
use old_crash_investigator.Base.{
  ℕ, ◌+◌, ◌-◌, ◌*◌, ◌%◌, ◌≡◌, refl, ap, ◌∙◌, ◌⊎◌, inl, inr, some, List, [], ◌==◌, if◌then◌else◌,
  update, update_self, update_ne, Bool-cases, Option-cases, Run, ok, stop, Stop, null, size_mod,
  arith, ==→eq, ==→ne, assertion_failed,
}
use old_crash_investigator.Backtrace.{init_backtrace_data, convert_backtrace_to_names, StackItem}
use old_crash_investigator.Analyzer.Monad.{
  M, pure, ◌>>=◌, ◌>>◌, and_then, abort, lift, lift_unit, lift_read,
}
use old_crash_investigator.Analyzer.State.{
  State, Env, Trace, mallocn, reallocn, freen, load_trace, put_trace,
  init_backtrace_data_for_current_stack, find_stack_item, stack_count_at, set_stack_count,
  remove_stack_item, hash_of_trace, same_trace, convert,
}
use old_crash_investigator.Analyzer.Track.{decrement_in_assert, take_stack_out}
use old_crash_investigator.HashItems
use old_crash_investigator.RawAlloc
use old_crash_investigator.RawAlloc.{Libc, Raw}
use old_crash_investigator.Analyzer.Monad.Chain.{
  and_then-returns, bind-returns, lift-returns, lift_unit-returns, lift_read-returns, bind-step,
  bind-stop, Stops, bind-Stops, Run-cases,
}

module _ (libc : Libc) where
  -- The memories, the callbacks and the thread's flag are as they were.
  pub record Keeps (s u : State libc) : Type 0 where
    pub memory_items : u.memory_items ≡ s.memory_items
    pub clbk_data : u.clbk_data ≡ s.clbk_data
    pub flag : u.is_allocing_or_deallocing ≡ s.is_allocing_or_deallocing
    pub locked : u.locked ≡ s.locked

  pub Keeps-refl : (s : State libc) → Keeps s s
  Keeps-refl s = record { memory_items = refl; clbk_data = refl; flag = refl; locked = refl }

  pub Keeps-trans : (s u v : State libc) → Keeps s u → Keeps u v → Keeps s v
  Keeps-trans s u v h k = record {
    memory_items = k.memory_items ∙ h.memory_items;
    clbk_data = k.clbk_data ∙ h.clbk_data;
    flag = k.flag ∙ h.flag;
    locked = k.locked ∙ h.locked;
  }

  -- Null, or a trace that lives.
  abbrev pub IsReadable : State libc → ℕ → Type 0
  IsReadable s p = (p ≡ null) ⊎ ((t : Trace) × (s.traces p ≡ some t))

  pub mallocn-traces :
      (n : ℕ) (s u : State libc) (p : ℕ)
      → mallocn libc n s ≡ ok (p, u)
      → Keeps s u × (u.traces ≡ s.traces)
  unfolding mallocn
  mallocn-traces n s u p h =
      let (r, e) = lift-returns (RawAlloc.mallocn libc n s.raw) (λ r. record s { raw = r }) h in
      rw e (record { memory_items = refl; clbk_data = refl; flag = refl; locked = refl }, refl)

  pub reallocn-Keeps :
      (p n : ℕ) (s u : State libc) (r : ℕ) → reallocn libc p n s ≡ ok (r, u) → Keeps s u
  unfolding reallocn
  reallocn-Keeps p n s u r h =
      let (x, e) = lift-returns (RawAlloc.reallocn libc p n s.raw) (λ r. record s { raw = r }) h in
      rw e (record { memory_items = refl; clbk_data = refl; flag = refl; locked = refl })

  pub freen-traces :
      (p : ℕ) (s u : State libc) (x : Unit {0})
      → freen libc p s ≡ ok (x, u)
      → Keeps s u × (u.traces ≡ s.traces)
  unfolding freen
  freen-traces p s u x h =
      let (r, e) = lift_unit-returns (RawAlloc.freen libc p s.raw) (λ r. record s { raw = r }) h in
      rw e (record { memory_items = refl; clbk_data = refl; flag = refl; locked = refl }, refl)

  -- What taking a trace does: it keeps the memories and the live traces, and what it returns is null
  -- or lives.
  pub record Captures (s u : State libc) (p : ℕ) : Type 0 where
    pub keeps : Keeps s u
    pub readable : IsReadable u p
    pub others : (q : ℕ) → IsReadable s q → IsReadable u q

  readable_same : (s u : State libc) (q : ℕ) → u.traces ≡ s.traces → IsReadable s q → IsReadable u q
  readable_same s u q e (inl n) = inl n
  readable_same s u q e (inr (t, at)) = inr (t, ap (λ f. f q) e ∙ at)

  readable_put :
      (s : State libc) (p q : ℕ) (t : Trace)
      → IsReadable s q
      → IsReadable (record s { traces = update s.traces p (some t) }) q
  readable_put s p q t r = elim (Bool-cases (q == p)) [
    | inl here ↦
        inr (t, ap (update s.traces p (some t)) (==→eq q p here) ∙ update_self s.traces p (some t))
    | inr there ↦ elim r [
      | inl n ↦ inl n
      | inr (t', at) ↦ inr (t', update_ne s.traces p q (some t) (==→ne q p there) ∙ at)
    ]
  ]

  capture_failed :
      (p : ℕ) (s u : State libc) (r : ℕ)
      → (do freen libc null; freen libc p; pure null) s ≡ ok (r, u)
      → Captures s u r
  capture_failed p s u r h =
      let (x, v, one, rest) =
        bind-returns (freen libc null) (λ _. freen libc p >>= λ _. pure null) s h in
      let (y, w, two, end) = bind-returns (freen libc p) (λ _. pure null) v rest in
      let (k, same) = freen-traces null s v x one in
      let (k', same') = freen-traces p v w y two in
      let e : w ≡ u = ground arith in
      rw (← e) (record {
        keeps = Keeps-trans s v w k k';
        readable = inl (ground arith);
        others = λ q. readable_same s w q (same' ∙ same);
      })

  capture_buffer :
      (p : ℕ) (go_back : ℕ) (frames : List ℕ) (s u : State libc) (r : ℕ)
      → (mallocn libc (((init_backtrace_data go_back frames).stack_deepness * 8) % size_mod)
            >>= λ b. if b == null then (do freen libc null; freen libc p; pure null) else do
              put_trace libc p
                  (some (record { buffer = b; backtrace = init_backtrace_data go_back frames }))
              pure p)
          s
        ≡ ok (r, u)
      → Captures s u r
  unfolding put_trace
  capture_buffer p go_back frames s u r h =
      let (b, v, one, rest) =
        bind-returns
          (mallocn libc (((init_backtrace_data go_back frames).stack_deepness * 8) % size_mod))
          (λ b. if b == null then (do freen libc null; freen libc p; pure null) else do
            put_trace libc p
                (some (record { buffer = b; backtrace = init_backtrace_data go_back frames }))
            pure p)
          s h in
      let (k, same) =
        mallocn-traces (((init_backtrace_data go_back frames).stack_deepness * 8) % size_mod) s v b
          one in
      elim (Bool-cases (b == null)) [
        | inl failed ↦
            let c = capture_failed p v u r (rw failed at rest) in
            record {
              keeps = Keeps-trans s v u k c.keeps;
              readable = c.readable;
              others = λ q h. c.others q (readable_same s v q same h);
            }
        | inr got ↦
            let t : Trace = record { buffer = b; backtrace = init_backtrace_data go_back frames } in
            let end = rw got at rest in
            let e : record v { traces = update v.traces p (some t) } ≡ u = ground arith in
            let f : p ≡ r = ground arith in
            rw (← e, ← f)
              (record {
                keeps =
                    Keeps-trans s v (record v { traces = update v.traces p (some t) }) k
                      (record {
                        memory_items = refl;
                        clbk_data = refl;
                        flag = refl;
                        locked = refl;
                      });
                readable = inr (t, update_self v.traces p (some t));
                others = λ q h. readable_put v p q t (readable_same s v q same h);
              })
      ]

  pub capture-Captures :
      (go_back : ℕ) (frames : List ℕ) (s u : State libc) (r : ℕ)
      → init_backtrace_data_for_current_stack libc go_back frames s ≡ ok (r, u)
      → Captures s u r
  unfolding init_backtrace_data_for_current_stack
  capture-Captures go_back frames s u r h =
      let (p, v, one, rest) =
        bind-returns (mallocn libc 16)
          (λ p.
            if p == null
            then pure null
            else (mallocn libc
                  (((init_backtrace_data go_back frames).stack_deepness * 8) % size_mod)
                >>= λ b. if b == null then (do freen libc null; freen libc p; pure null) else do
                  put_trace libc p
                      (some (record { buffer = b; backtrace = init_backtrace_data go_back frames }))
                  pure p))
          s h in
      let (k, same) = mallocn-traces 16 s v p one in
      elim (Bool-cases (p == null)) [
        | inl failed ↦
            let end = rw failed at rest in
            let e : v ≡ u = ground arith in
            rw (← e) (record {
              keeps = k;
              readable = inl (ground arith);
              others = λ q. readable_same s v q same;
            })
        | inr got ↦
            let c = capture_buffer p go_back frames v u r (rw got at rest) in
            record {
              keeps = Keeps-trans s v u k c.keeps;
              readable = c.readable;
              others = λ q h. c.others q (readable_same s v q same h);
            }
      ]

  load_trace-at :
      (p : ℕ) (t : Trace) (s : State libc) → s.traces p ≡ some t → load_trace libc p s ≡ ok (t, s)
  unfolding load_trace
  load_trace-at p t s at = rw (load_trace, at) refl

  -- `ConvertBacktraceToNames` returns where it reads a live trace, or none, and changes nothing.
  pub convert-returns :
      (env : Env) (p : ℕ) (s : State libc)
      → IsReadable s p
      → (names : List StackItem) × (convert libc env p s ≡ ok (names, s))
  unfolding convert
  convert-returns env p s (inl n) = ([], rw n refl)
  convert-returns env p s (inr (t, at)) = elim (Bool-cases (p == null)) [
    | inl here ↦ ([], rw here refl)
    | inr there ↦ (
      convert_backtrace_to_names env.symbols (some t.backtrace) [],
      simp (there, load_trace-at p t s at),
    )
  ]

load_trace-keeps :
    (libc : Libc) (p : ℕ) (s u : State libc) (t : Trace) → load_trace libc p s ≡ ok (t, u) → u ≡ s
unfolding load_trace
load_trace-keeps libc p s u t h = elim (Option-cases (s.traces p)) [
  | inl missing ↦ let e = rw (load_trace, missing) at h in cc
  | inr (t', at) ↦ let e = rw (load_trace, at) at h in ground arith
]

-- `ConvertBacktraceToNames` changes nothing.
pub convert-keeps :
    (libc : Libc) (env : Env) (p : ℕ) (s u : State libc) (names : List StackItem)
    → convert libc env p s ≡ ok (names, u)
    → u ≡ s
unfolding convert
convert-keeps libc env p s u names h = elim (Bool-cases (p == null)) [
  | inl here ↦ let e = rw here at h in ground arith
  | inr there ↦
      let (t, v, one, rest) =
        bind-returns (load_trace libc p)
          (λ t. pure (convert_backtrace_to_names env.symbols (some t.backtrace) [])) s
          (rw there at h) in
      let e = load_trace-keeps libc p s v t one in ground arith
]
