-- ===== src/Analyzer/Process.antt =====
-- What src/core/basic/crash_investigator_alloc_dealloc_analyze.cpp does for the process as a whole:
-- settings, the signal handler and the end of the program.
use old_crash_investigator.Base.{
  ℕ, update, Bool-cases, inl, inr, zero, suc, ◌+◌, ◌≡◌, refl, ap, ◌∙◌, Bool, true, false, none,
  some, List, [], ◌∷◌, ◌++◌, ◌<◌, length, ne→==, ◌==◌, if◌then◌else◌, ok, out_of_fuel, exited, null,
  arith,
}
use old_crash_investigator.Analyzer.Monad.Chain.{
  bind-step, and_then-returns, lift_unit-returns, lift_read-returns,
}
use old_crash_investigator.Analyzer.Monad.{pure, ◌>>=◌, ◌>>◌, abort, get, lift_read}
use old_crash_investigator.Analyzer.Report.{init_failure_data_and_call_clbk}
use old_crash_investigator.Analyzer.State.{
  State, Act, Env, MemoryItem, does_not_exist_at_all, convert, freen, free_backtrace_data,
  init_backtrace_data_for_current_stack,
}
use old_crash_investigator.Analyzer.Track.{is_allocated, set_allocing}
use old_crash_investigator.Failure.{MemoryType, FailureType, Callback, print_stack}
use old_crash_investigator.HashItems
use old_crash_investigator.HashItems.{Item, Table}
use old_crash_investigator.HashItems.Contents.{Entry, Contains, Cells, list_head, item_of}
use old_crash_investigator.HashItems.Insert.{load_at}
use old_crash_investigator.RawAlloc
use old_crash_investigator.RawAlloc.{Libc}

module _ (libc : Libc) where
  -- `GetMaxAllowedAllocInTheSameStack` and `SetMaxAllowedAllocInTheSameStack`.
  unfoldable pub get_max_allowed_alloc_in_the_same_stack : Act libc ℕ
  get_max_allowed_alloc_in_the_same_stack s = ok (s.max_number_of_alloc_from_the_same_stack, s)

  unfoldable pub set_max_allowed_alloc_in_the_same_stack : ℕ → Act libc ℕ
  set_max_allowed_alloc_in_the_same_stack n s = ok (
    s.max_number_of_alloc_from_the_same_stack,
    record s { max_number_of_alloc_from_the_same_stack = n },
  )

  -- `GetFailureClbk`.
  unfoldable pub get_failure_clbk : Act libc Callback
  get_failure_clbk s = ok (s.clbk_data, s)

  module _ (env : Env) where
    -- `SignalSigsegvHandler`; `frames` is the stack at the signal.
    unfoldable pub signal_sigsegv_handler : List ℕ → Act libc (Unit {0})
    signal_sigsegv_handler frames = do
      trace ← init_backtrace_data_for_current_stack libc 1 frames
      s ← get
      ignored ← elim s.handler_memory [
        | some h ↦
            init_failure_data_and_call_clbk libc env h.item h.item.type h.item.real_address h.count
              FailureType.sig_segv_handler trace
        | none ↦
            init_failure_data_and_call_clbk libc env
              (record {
                type = MemoryType.not_provided;
                status = does_not_exist_at_all;
                real_address = null;
                alloc_trace = null;
                dealloc_trace = null;
              })
              MemoryType.not_provided null 0 FailureType.dealloc_of_non_existing_memory trace
      ]
      abort (exited 3)

    -- `*iter` of the table of memories.
    unfoldable pub memory_at : ℕ → Act libc (Item ℕ MemoryItem)
    memory_at p s = lift_read (HashItems.load p s.memory_items) s

    -- The first loop of the verbose destructor: the number of allocated memories from `iter` on. It
    -- leaves `iter` at the end.
    unfoldable pub count_unallocated : ℕ → (iter size : ℕ) → Act libc (ℕ × ℕ)
    count_unallocated zero iter size = abort out_of_fuel
    count_unallocated (suc fuel) iter size = elim (iter == null) [
      | true ↦ pure (size, iter)
      | false ↦ memory_at iter >>= λ item.
          count_unallocated fuel item.next_in_the_list
            (if is_allocated item.second.status then size + 1 else size)
    ]

    -- What the second loop prints of a memory.
    unfoldable pub print_leak : MemoryItem → Act libc (Unit {0})
    print_leak item =
        if is_allocated item.status
        then (do
          stack ← convert libc env item.alloc_trace
          λ s. ok (tt, record s { printed = s.printed ++ print_stack stack }))
        else pure tt

    -- The loop that frees the traces; the verbose one prints the leaks first.
    unfoldable pub free_traces : Bool → ℕ → (iter : ℕ) → Act libc (Unit {0})
    free_traces verbose zero iter = abort out_of_fuel
    free_traces verbose (suc fuel) iter = elim (iter == null) [
      | true ↦ pure tt
      | false ↦ memory_at iter >>= λ item.
          (if verbose then print_leak item.second else pure tt) >>= λ _.
          free_backtrace_data libc item.second.dealloc_trace >>= λ _.
          free_backtrace_data libc item.second.alloc_trace >>= λ _.
          free_traces verbose fuel item.next_in_the_list
    ]

    -- The loops of `~CrashInvestAnalizerInit`, in the verbose build and in the other. The rounds are
    -- one more than the entries that were ever added. What `infoClbk` prints is not kept.
    unfoldable pub walk_memories : Bool → Act libc (Unit {0})
    walk_memories verbose = do
      s ← get
      if verbose
          then (do
            counted ← count_unallocated (suc s.memory_items.added) s.memory_items.first_item 0
            free_traces true (suc s.memory_items.added) counted.1)
          else free_traces false (suc s.memory_items.added) s.memory_items.first_item

    -- `~HashItemsByPtr` of a table of the state, whose items `freen` takes back.
    unfoldable pub destroy_items :
        {V : Type 0}
        → (table : State libc → Table ℕ V) (put : Table ℕ V → State libc → State libc)
        → (fuel p : ℕ) → Act libc (Unit {0})
    destroy_items table put zero p = abort out_of_fuel
    destroy_items table put (suc fuel) p = elim (p == null) [
      | true ↦ pure tt
      | false ↦ (λ s. lift_read (HashItems.load p (table s)) s) >>= λ item. freen libc p >>= λ _.
          (λ s. ok (tt, put (record (table s) { items = update (table s).items p none }) s))
          >>= λ _. destroy_items table put fuel item.next_in_the_list
    ]

    -- The destructors of `m_stackItems` and `m_memoryItems`, in this order. That of `m_handlerMemory`,
    -- between them, is the submodule's, and left out.
    unfoldable pub destroy_tables : Act libc (Unit {0})
    destroy_tables = do
      s ← get
      destroy_items (λ s. s.stack_items) (λ t s. record s { stack_items = t })
          (suc s.stack_items.added) s.stack_items.first_item
      u ← get
      destroy_items (λ s. s.memory_items) (λ t s. record s { memory_items = t })
          (suc u.memory_items.added) u.memory_items.first_item

    -- The body of `~CrashInvestAnalizerInit`, without the signal's old handler, which it puts back.
    unfoldable pub destroy_body : Bool → Act libc (Unit {0})
    destroy_body verbose = do
      s ← get
      set_allocing libc env true
      walk_memories verbose
      set_allocing libc env s.is_allocing_or_deallocing

    -- `~CrashInvestAnalizerInit`: the body, and then the members.
    unfoldable pub destroy_analyzer : Bool → Act libc (Unit {0})
    destroy_analyzer verbose = do destroy_body verbose; destroy_tables

    memory_at-runs :
        (p : ℕ) (item : Item ℕ MemoryItem) (s : State libc)
        → s.memory_items.items p ≡ some item
        → memory_at p s ≡ ok (item, s)
    unfolding memory_at
    memory_at-runs p item s at = rw (load_at p s.memory_items item at) refl

    count-runs :
        (fuel size : ℕ) (es : List (Entry ℕ MemoryItem)) (s : State libc)
        → Cells s.memory_items.items es
        → length es < fuel
        → (n : ℕ) × (count_unallocated fuel (list_head es) size s ≡ ok ((n, null), s))
    unfolding count_unallocated
    count-runs zero size es s c h = absurd (omega arith)
    count-runs (suc fuel) size [] s c h = (size, refl)
    count-runs (suc fuel) size (e ∷ es) s c h =
        let item = item_of e es c.0.0 in
        let (n, rest) =
          count-runs fuel (if is_allocated item.second.status then size + 1 else size) es s c.3
            (omega arith) in
        (
          n,
          rw (count_unallocated, ne→== e.ptr null c.1)
              (bind-step _ (memory_at-runs e.ptr item s c.0.1) rest),
        )

    body-verbose :
        (es : List (Entry ℕ MemoryItem)) (s : State libc)
        → Contains s.memory_items es
        → destroy_body true s ≡ ok (tt, s)
    unfolding destroy_body walk_memories set_allocing free_traces
    body-verbose es s c =
        let set = record s { is_allocing_or_deallocing = true } in
        let (n, counts) =
          count-runs (suc s.memory_items.added) 0 es set c.cells (omega (arith, c.added)) in
        let counted : count_unallocated (suc s.memory_items.added) s.memory_items.first_item 0 set
            ≡ ok ((n, null), set) =
          ap (λ p. count_unallocated (suc s.memory_items.added) p 0 set) c.first_item ∙ counts in
        bind-step _ (bind-step _ counted refl) refl

    -- The traces that live, and what has been printed, are as they were.
    abbrev Quiet : State libc → State libc → Type 0
    Quiet s u = (u.traces ≡ s.traces) × (u.printed ≡ s.printed)

    freen-Quiet : (p : ℕ) (s u : State libc) (x : Unit {0}) → freen libc p s ≡ ok (x, u) → Quiet s u
    unfolding freen
    freen-Quiet p s u x h =
        let (r, e) =
          lift_unit-returns (RawAlloc.freen libc p s.raw) (λ r. record s { raw = r }) h in
        rw e (refl, refl)

    destroy_items-Quiet :
        {V : Type 0} (table : State libc → Table ℕ V) (put : Table ℕ V → State libc → State libc)
        → ((t : Table ℕ V) (s : State libc) → Quiet s (put t s))
        → (fuel p : ℕ) (s u : State libc) (x : Unit {0})
        → destroy_items table put fuel p s ≡ ok (x, u)
        → Quiet s u
    unfolding destroy_items
    destroy_items-Quiet table put quiet zero p s u x h = cc
    destroy_items-Quiet table put quiet (suc fuel) p s u x h = elim (Bool-cases (p == null)) [
      | inl end ↦
          let e = rw (destroy_items, end) at h in
          let same : s ≡ u = ground arith in rw (← same) (refl, refl)
      | inr there ↦
          let (item, v, one, rest) =
            and_then-returns (lift_read (HashItems.load p (table s)) s) _
              (rw (destroy_items, there) at h) in
          let e : v ≡ s = lift_read-returns (HashItems.load p (table s)) s one in
          let (y, w, two, last) = and_then-returns (freen libc p v) _ rest in
          let k = freen-Quiet p v w y two in
          let q = quiet (record (table w) { items = update (table w).items p none }) w in
          let r =
            destroy_items-Quiet table put quiet fuel item.next_in_the_list
              (put (record (table w) { items = update (table w).items p none }) w) u x last in
          rw (← e) (r.0 ∙ q.0 ∙ k.0, r.1 ∙ q.1 ∙ k.1)
    ]

    -- The destructor of the verbose build prints no leak and gives no trace back, whatever memory is
    -- left, where the items of the two tables can be given back: the loop that counts the memories
    -- ends with the iterator at the end, and so the loop that is to print the leaks and free the traces
    -- has no round.
    pub destroy_analyzer-verbose :
        (es : List (Entry ℕ MemoryItem)) (s u : State libc) (x : Unit {0})
        → Contains s.memory_items es
        → destroy_tables s ≡ ok (x, u)
        → (destroy_analyzer true s ≡ ok (x, u)) × (u.traces ≡ s.traces) × (u.printed ≡ s.printed)
    unfolding destroy_analyzer destroy_tables
    destroy_analyzer-verbose es s u x c frees =
        let (y, v, one, rest) =
          and_then-returns
            (destroy_items (λ s. s.stack_items) (λ t s. record s { stack_items = t })
              (suc s.stack_items.added) s.stack_items.first_item s)
            _ frees in
        let j =
          destroy_items-Quiet (λ s. s.stack_items) (λ t s. record s { stack_items = t })
            (λ t s. (refl, refl)) (suc s.stack_items.added) s.stack_items.first_item s v y one in
        let k =
          destroy_items-Quiet (λ s. s.memory_items) (λ t s. record s { memory_items = t })
            (λ t s. (refl, refl)) (suc v.memory_items.added) v.memory_items.first_item v u x rest in
        (bind-step _ (body-verbose es s c) frees, k.0 ∙ j.0, k.1 ∙ j.1)
