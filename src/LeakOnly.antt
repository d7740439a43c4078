-- ===== src/LeakOnly.antt =====
-- The analyser that looks for leaks alone, for one thread:
-- src/core/analyze/crash_investigator_analyze_leak_only_new_delete.cpp.
--
-- The hash table `cpputils::hash::Hash` and the C library are parameters. A `Backtrace*` is an
-- address: `traces` holds the live traces, and an access through another address is undefined
-- behaviour. Assertions are compiled in.
pub mod Operations
pub mod Consistent
pub mod Traces
pub mod Clone
pub mod Counting
pub mod Alloc
pub mod Drop
pub mod Forget
pub mod Free
pub mod RoundTrip
pub mod Setup
pub mod Within
pub mod Reach
pub mod Windows
pub mod StdHash
use old_crash_investigator.Base.{
  ℕ, ◌+◌, ◌-◌, ◌*◌, ◌%◌, Bool, true, false, Option, none, some, List, [], ◌∷◌, ◌==◌, if◌then◌else◌,
  update, Run, ok, stop, undefined_behaviour, null, size_mod,
}
use old_crash_investigator.Backtrace.{
  Backtrace, StackItem, Text, is_the_same_stack, hash_of_the_stack, init_backtrace_data,
  convert_backtrace_to_names,
}
use old_crash_investigator.Analyzer.Monad.{
  M, pure, ◌>>=◌, ◌>>◌, get, lift, lift_unit, lift_read, abort,
}
use old_crash_investigator.Container.{Keys, Hash}

-- `malloc` and `free`. A free of an address that is not allocated is undefined.
pub record CLibrary : Type 1 where
  pub Heap : Type 0
  pub malloc_fn : ℕ → Heap → ℕ × Heap
  pub free_fn : ℕ → Heap → Run Heap

-- What a call finds outside: the stack at the call, what `time` says, and `backtrace_symbols`.
pub record Call : Type 0 where
  pub frames : List ℕ
  pub now : ℕ
  pub symbols : List ℕ → Option (List Text)

-- A `Backtrace` at its address, with the address of its buffer.
pub record Trace : Type 0 where
  pub buffer : ℕ
  pub backtrace : Backtrace

-- The static variables. `mem`, `stack` and `locked` are `none` while the pointers `s_pMem`, `s_pStack`
-- and `s_pMutex` are null; `once_done` is the state of `s_call_once_flag`. `printed` is what the
-- report of a leak writes: the frames.
pub record State (lib : CLibrary) (hash : Hash) : Type 0 where
  pub heap : lib.Heap
  pub traces : ℕ → Option Trace
  pub ignore_this_stack : Bool
  pub init_or_exit_ongoing : Bool
  pub is_ongoing : ℕ
  pub operator_delete_called : Bool
  pub max_number_of_alloc_in_the_stack : ℕ
  pub init_time : ℕ
  pub mem : Option hash.Table
  pub stack : Option hash.Table
  pub locked : Option Bool
  pub once_done : Bool
  pub printed : List StackItem

-- `BtHash` and `BackTrcEql`, on the traces that live now.
unfoldable pub bt_hash : (ℕ → Option Trace) → ℕ → Run ℕ
bt_hash traces p = elim (traces p) [
  | none ↦ stop undefined_behaviour
  | some t ↦ ok (hash_of_the_stack t.backtrace)
]

unfoldable pub back_trc_eql : (ℕ → Option Trace) → ℕ → ℕ → Run Bool
back_trc_eql traces p q = elim (traces p) [
  | none ↦ stop undefined_behaviour
  | some t ↦ elim (traces q) [
    | none ↦ stop undefined_behaviour
    | some u ↦ ok (is_the_same_stack t.backtrace u.backtrace)
  ]
]

-- The template arguments of `HashMem`, of which `BtVoidPtr` is the hash, and of `HashStack`.
abbrev pub mem_keys : Keys
mem_keys = record { hash = λ p. ok p; equal = λ p q. ok (p == q) }

abbrev pub stack_keys : (ℕ → Option Trace) → Keys
stack_keys traces = record { hash = bt_hash traces; equal = back_trc_eql traces }

module _ (lib : CLibrary) (hash : Hash) where
  abbrev pub Act : Type 0 → Type 0
  Act A = M (State lib hash) A

  unfoldable pub c_malloc : ℕ → Act ℕ
  c_malloc n s = let (p, h) = lib.malloc_fn n s.heap in ok (p, record s { heap = h })

  unfoldable pub c_free : ℕ → Act (Unit {0})
  c_free p s = lift_unit (lib.free_fn p s.heap) (λ h. record s { heap = h })

  -- `IntHandler aHndl;` and the rest of the block.
  unfoldable pub with_int_handler : {A : Type 0} → Act A → Act A
  with_int_handler body = do
    (λ s. ok (tt, record s { is_ongoing = s.is_ongoing + 1 }))
    r ← body
    (λ s. ok (tt, record s { is_ongoing = s.is_ongoing - 1; init_or_exit_ongoing = false }))
    pure r

  -- `aGuard.lock()` and `aGuard.unlock()`: a thread that locks the mutex twice never goes on, which
  -- the standard leaves undefined.
  unfoldable pub lock : Act (Unit {0})
  lock s = elim s.locked [
    | none ↦ stop undefined_behaviour
    | some b ↦ if b then stop undefined_behaviour else ok (tt, record s { locked = some true })
  ]

  unfoldable pub unlock : Act (Unit {0})
  unlock s = ok (tt, record s { locked = some false })

  -- `*s_pMem` and `*s_pStack`.
  unfoldable pub the_table : Option hash.Table → Act hash.Table
  the_table none s = stop undefined_behaviour
  the_table (some t) s = ok (t, s)

  unfoldable pub find_mem : ℕ → Act (Option ℕ × ℕ)
  unfolding the_table
  find_mem p = do s ← get; t ← the_table s.mem; lift_read (hash.find mem_keys p t)

  unfoldable pub find_stack : ℕ → Act (Option ℕ × ℕ)
  unfolding the_table
  find_stack p = do s ← get; t ← the_table s.stack; lift_read (hash.find (stack_keys s.traces) p t)

  -- `iterMem->second` and `iterStack->second`.
  unfoldable pub mem_second : ℕ → Act ℕ
  unfolding the_table
  mem_second p = do s ← get; t ← the_table s.mem; lift_read (hash.second p t)

  unfoldable pub stack_second : ℕ → Act ℕ
  unfolding the_table
  stack_second p = do s ← get; t ← the_table s.stack; lift_read (hash.second p t)

  unfoldable pub change_mem : (hash.Table → Run hash.Table) → Act (Unit {0})
  unfolding the_table
  change_mem f = do
    s ← get
    t ← the_table s.mem
    λ _. lift_unit (f t) (λ u. record s { mem = some u })

  unfoldable pub change_stack : (hash.Table → Run hash.Table) → Act (Unit {0})
  unfolding the_table
  change_stack f = do
    s ← get
    t ← the_table s.stack
    λ _. lift_unit (f t) (λ u. record s { stack = some u })

  unfoldable pub load_trace : ℕ → Act Trace
  load_trace p s = elim (s.traces p) [ none ↦ stop undefined_behaviour | some t ↦ ok (t, s) ]

  unfoldable pub put_trace : ℕ → Option Trace → Act (Unit {0})
  put_trace p t s = ok (tt, record s { traces = update s.traces p t })

  -- `FreeBacktraceData`.
  unfoldable pub free_backtrace_data : ℕ → Act (Unit {0})
  free_backtrace_data p =
      if p == null
      then pure tt
      else do t ← load_trace p; c_free t.buffer; c_free p; put_trace p none

  -- The structure, then its buffer; null if one of the two cannot be allocated. What is done with the
  -- structure where the buffer cannot be allocated is an argument.
  unfoldable pub new_trace : (give_up : ℕ → Act (Unit {0})) → Backtrace → Act ℕ
  new_trace give_up t = do
    p ← c_malloc 16
    if p == null then pure null else do
      b ← c_malloc ((t.stack_deepness * 8) % size_mod)
      if b == null
          then (do give_up p; pure null)
          else do put_trace p (some (record { buffer = b; backtrace = t })); pure p

  -- `CloneBackTrace`.
  unfoldable pub clone_back_trace : ℕ → Act ℕ
  clone_back_trace p =
      if p == null then pure null else do t ← load_trace p; new_trace c_free t.backtrace

  -- `InitBacktraceDataForCurrentStack`, of a stack of these frames; where the buffer cannot be
  -- allocated, both pointers are freed, of which one is null.
  unfoldable pub init_backtrace_data_for_current_stack : ℕ → List ℕ → Act ℕ
  init_backtrace_data_for_current_stack go_back frames =
      new_trace (λ p. do c_free null; c_free p) (init_backtrace_data go_back frames)

  -- `ConvertBacktraceToNames`, into an empty vector.
  unfoldable pub convert : Call → ℕ → Act (List StackItem)
  convert call p =
      if p == null
      then pure []
      else do t ← load_trace p; pure (convert_backtrace_to_names call.symbols (some t.backtrace) [])
