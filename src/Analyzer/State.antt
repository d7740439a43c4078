-- ===== src/Analyzer/State.antt =====
-- The state of src/core/basic/crash_investigator_alloc_dealloc_analyze.cpp, for one thread, and
-- the functions through which the analyser reads and writes it.
--
-- A `Backtrace*` is an address: `traces` holds the live traces, each with the address of its buffer.
-- An access through the address of a trace that has been freed is undefined behaviour.
use old_crash_investigator.Base.{
  ℕ, ◌*◌, ◌%◌, Bool, true, false, Option, none, some, List, [], ◌==◌, if◌then◌else◌, update, Run,
  ok, stop, undefined_behaviour, null, size_mod,
}
use old_crash_investigator.Backtrace.{
  Backtrace, StackItem, Text, is_the_same_stack, hash_of_the_stack, init_backtrace_data,
  convert_backtrace_to_names,
}
use old_crash_investigator.Analyzer.Monad.{M, pure, ◌>>=◌, ◌>>◌, get, lift, lift_unit, lift_read}
use old_crash_investigator.Failure.{MemoryType, FailureType, Callback, Piece}
use old_crash_investigator.HashItems
use old_crash_investigator.HashItems.{Table}
use old_crash_investigator.RawAlloc
use old_crash_investigator.RawAlloc.{Libc, Raw}

-- `DuringReallocChanged` is the same value as `Deallocated`.
pub data MemoryStatus : Type 0 where
  does_not_exist_at_all allocated deallocated : MemoryStatus

-- `SMemoryItem`.
pub record MemoryItem : Type 0 where
  pub type : MemoryType
  pub status : MemoryStatus
  pub real_address : ℕ
  pub alloc_trace : ℕ
  pub dealloc_trace : ℕ

-- `CMemoryItem`.
pub record HandlerItem : Type 0 where
  pub item : MemoryItem
  pub failure_type : FailureType
  pub count : ℕ

pub record Trace : Type 0 where
  pub buffer : ℕ
  pub backtrace : Backtrace

-- The library's `backtrace_symbols`, and whether the program is compiled with `NDEBUG`.
pub record Env : Type 0 where
  pub symbols : List ℕ → Option (List Text)
  pub ndebug : Bool

-- `locked` is the state of the mutex, `printed` what the error callback was called with.
pub record State (libc : Libc) : Type 0 where
  pub raw : Raw libc
  pub traces : ℕ → Option Trace
  pub memory_items : Table ℕ MemoryItem
  pub stack_items : Table ℕ ℕ
  pub is_allocing_or_deallocing : Bool
  pub max_number_of_alloc_from_the_same_stack : ℕ
  pub handler_memory : Option HandlerItem
  pub clbk_data : Callback
  pub locked : Bool
  pub printed : List Piece

module _ (libc : Libc) where
  abbrev pub Act : Type 0 → Type 0
  Act A = M (State libc) A

  unfoldable pub mallocn : ℕ → Act ℕ
  mallocn n s = lift (RawAlloc.mallocn libc n s.raw) (λ r. record s { raw = r })

  unfoldable pub callocn : ℕ → ℕ → Act ℕ
  callocn n m s = lift (RawAlloc.callocn libc n m s.raw) (λ r. record s { raw = r })

  unfoldable pub reallocn : ℕ → ℕ → Act ℕ
  reallocn p n s = lift (RawAlloc.reallocn libc p n s.raw) (λ r. record s { raw = r })

  unfoldable pub freen : ℕ → Act (Unit {0})
  freen p s = lift_unit (RawAlloc.freen libc p s.raw) (λ r. record s { raw = r })

  -- `aGuard`: a thread that locks the mutex twice never goes on, which the standard leaves undefined.
  unfoldable pub lock : Act (Unit {0})
  lock s = if s.locked then stop undefined_behaviour else ok (tt, record s { locked = true })

  unfoldable pub unlock : Act (Unit {0})
  unlock s = ok (tt, record s { locked = false })

  unfoldable pub load_trace : ℕ → Act Trace
  load_trace p s = elim (s.traces p) [ none ↦ stop undefined_behaviour | some t ↦ ok (t, s) ]

  unfoldable pub put_trace : ℕ → Option Trace → Act (Unit {0})
  put_trace p t s = ok (tt, record s { traces = update s.traces p t })

  -- `FreeBacktraceData`.
  unfoldable pub free_backtrace_data : ℕ → Act (Unit {0})
  free_backtrace_data p =
      if p == null then pure tt else do t ← load_trace p; freen t.buffer; freen p; put_trace p none

  -- `InitBacktraceDataForCurrentStack`, of a stack of these frames: the structure and its buffer are
  -- two allocations, and null is returned if one fails.
  unfoldable pub init_backtrace_data_for_current_stack : ℕ → List ℕ → Act ℕ
  init_backtrace_data_for_current_stack go_back frames = do
    p ← mallocn 16
    if p == null then pure null else do
      let t = init_backtrace_data go_back frames
      b ← mallocn ((t.stack_deepness * 8) % size_mod)
      if b == null
          then (do freen null; freen p; pure null)
          else do put_trace p (some (record { buffer = b; backtrace = t })); pure p

  -- `ConvertBacktraceToNames` into an empty vector. The array that `backtrace_symbols` allocates, and
  -- that is freed at once, is not on the model's heap.
  unfoldable pub convert : Env → ℕ → Act (List StackItem)
  convert env p =
      if p == null
      then pure []
      else do t ← load_trace p; pure (convert_backtrace_to_names env.symbols (some t.backtrace) [])

  -- `BackTrcHasher` and `BackTrcEql`, on the traces that live now.
  unfoldable pub hash_of_trace : (ℕ → Option Trace) → ℕ → Run ℕ
  hash_of_trace traces p = elim (traces p) [
    | none ↦ stop undefined_behaviour
    | some t ↦ ok (hash_of_the_stack t.backtrace)
  ]

  unfoldable pub same_trace : (ℕ → Option Trace) → ℕ → ℕ → Run Bool
  same_trace traces p q = elim (traces p) [
    | none ↦ stop undefined_behaviour
    | some t ↦ elim (traces q) [
      | none ↦ stop undefined_behaviour
      | some u ↦ ok (is_the_same_stack t.backtrace u.backtrace)
    ]
  ]

  -- `s_memoryItems.FindEntry` and `m_stackItems.FindEntry`: the iterator and the index.
  unfoldable pub find_memory_item : ℕ → Act (ℕ × ℕ)
  find_memory_item key s =
      lift_read (HashItems.find_entry (λ k. ok k) (λ a b. ok (a == b)) key s.memory_items) s

  unfoldable pub find_stack_item : ℕ → Act (ℕ × ℕ)
  find_stack_item key s =
      lift_read
        (HashItems.find_entry (hash_of_trace s.traces) (same_trace s.traces) key s.stack_items) s

  -- `iter->second`.
  unfoldable pub memory_item_at : ℕ → Act MemoryItem
  memory_item_at p = do item ← λ s. lift_read (HashItems.load p s.memory_items) s; pure item.second

  unfoldable pub stack_count_at : ℕ → Act ℕ
  stack_count_at p = do item ← λ s. lift_read (HashItems.load p s.stack_items) s; pure item.second

  -- `iter->second = …`.
  unfoldable pub set_memory_item : ℕ → MemoryItem → Act (Unit {0})
  set_memory_item p item s =
      lift_unit (HashItems.set_second p item s.memory_items) (λ t. record s { memory_items = t })

  unfoldable pub set_stack_count : ℕ → ℕ → Act (Unit {0})
  set_stack_count p n s =
      lift_unit (HashItems.set_second p n s.stack_items) (λ t. record s { stack_items = t })

  -- `AddEntryWithKnownHash`: the tables take their items from `mallocn`.
  unfoldable pub add_memory_item : ℕ → ℕ → MemoryItem → Act (Unit {0})
  add_memory_item key hash item = do
    fresh ← mallocn 80
    s ← get
    λ _.
        lift_unit (HashItems.add_entry_with_known_hash fresh key hash item s.memory_items)
          (λ t. record s { memory_items = t })

  unfoldable pub add_stack_item : ℕ → ℕ → ℕ → Act (Unit {0})
  add_stack_item key hash n = do
    fresh ← mallocn 56
    s ← get
    λ _.
        lift_unit (HashItems.add_entry_with_known_hash fresh key hash n s.stack_items)
          (λ t. record s { stack_items = t })

  -- `m_stackItems.RemoveEntry`, which gives the item back by `freen`.
  unfoldable pub remove_stack_item : ℕ → Act (Unit {0})
  remove_stack_item p = do
    s ← get
    (λ _. lift_unit (HashItems.remove_entry p s.stack_items) (λ t. record s { stack_items = t }))
    freen p
