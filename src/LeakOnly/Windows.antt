-- ===== src/LeakOnly/Windows.antt =====
-- What src/core/analyze/crash_investigator_analyze_leak_only_new_delete.cpp has for Windows alone: the process
-- heap, the traces, and the hook on the C runtime's memory, which is there in a debug build.
use old_crash_investigator.Base.{
  ℕ, ◌*◌, ◌%◌, Bool, true, false, none, some, List, if◌then◌else◌, Run, null, size_mod,
}
use old_crash_investigator.Backtrace.{StackItem}
use old_crash_investigator.Backtrace.Windows.{
  Capture, Symbols, init_backtrace_data_windows, convert_backtrace_to_names_windows,
}
use old_crash_investigator.RawAlloc.Windows.{System}
use old_crash_investigator.Analyzer.Monad.{pure, ◌>>=◌, ◌>>◌, get}
use old_crash_investigator.Container.{Hash}
use old_crash_investigator.LeakOnly.{CLibrary, Act, new_trace, c_free, load_trace}
use old_crash_investigator.LeakOnly.Operations.{free_mem_analyze}

module _ (system : System) where
  unfoldable pub free_default : ℕ → system.Heap → Run system.Heap
  free_default p h = system.heap_free p h

  unfoldable pub malloc_default : ℕ → system.Heap → ℕ × system.Heap
  malloc_default count h = system.heap_alloc false count h

  unfoldable pub realloc_default : ℕ → ℕ → system.Heap → Run (ℕ × system.Heap)
  realloc_default p count h = system.heap_realloc p count h

  -- The product is one of `size_t`.
  unfoldable pub calloc_default : ℕ → ℕ → system.Heap → ℕ × system.Heap
  calloc_default nmemb size h = system.heap_alloc true ((nmemb * size) % size_mod) h

-- The kind of a call that the hook is told of.
pub data HookKind : Type 0 where
  hook_alloc hook_realloc hook_free : HookKind

module _ (lib : CLibrary) (hash : Hash) where
  -- `InitBacktraceDataForCurrentStack`.
  unfoldable pub init_backtrace_data_for_current_stack : Capture → (go_back : ℕ) → Act lib hash ℕ
  init_backtrace_data_for_current_stack capture go_back =
      elim (init_backtrace_data_windows capture go_back) [
        | none ↦ pure null
        | some t ↦ new_trace lib hash (λ p. do c_free lib hash null; c_free lib hash p) t
      ]

  -- `ConvertBacktraceToNames`, into an empty vector.
  unfoldable pub convert : Symbols → (trace : ℕ) → Act lib hash (List StackItem)
  convert symbols p = do
    t ← load_trace lib hash p
    pure (
        convert_backtrace_to_names_windows symbols t.backtrace.stack_deepness t.backtrace.pp_buffer)

  -- `CrashInvestMemHook`: a free or a reallocation by the runtime itself.
  unfoldable pub crash_invest_mem_hook : HookKind → (ptr : ℕ) → Act lib hash Bool
  crash_invest_mem_hook kind ptr = do
    s ← get
    if s.operator_delete_called
        then pure true
        else elim kind [ hook_alloc ↦ pure true | _ ↦ do free_mem_analyze lib hash ptr; pure true ]
