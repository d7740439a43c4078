-- ===== src/Hook.antt =====
-- The hook on the C runtime's allocation functions on Windows:
-- src/core/initial_malloc_free_hook/crash_investigator_malloc_free_hook_windows1.c and
-- src/core/initial_malloc_free_hook/crash_investigator_malloc_free_hook_windows2.c.
--
-- The Windows API and the runtime library are a parameter. A function is its address, 0 for null. A
-- structure of functions lies at an address; `tables` holds those that live, and an access through
-- another address is undefined behaviour.
pub mod Install
pub mod Memset
use old_crash_investigator.Base.{
  ℕ, zero, suc, ◌+◌, ◌-◌, ◌%◌, Bool, true, false, not, ◌&&◌, ◌||◌, Option, none, some, ◌≡◌, ltb,
  ◌==◌, if◌then◌else◌, update, Run, ok, stop, undefined_behaviour, out_of_fuel, ◌>>=◌, null,
}

-- `SCrInvAllFreeFunctions`, which begins with `m_free`.
pub record Functions : Type 0 where
  pub m_free : ℕ
  pub m_malloc : ℕ
  pub m_calloc : ℕ
  pub m_realloc : ℕ

-- Whether `LoadLibraryA` finds the runtime library, what `GetProcAddress` finds in it, what these functions do,
-- the process heap, and what the atomic exchange returns and leaves.
pub record Api : Type 1 where
  pub Heap : Type 0
  pub library_loads : Bool
  pub functions : Functions
  pub atexit : ℕ
  pub run_free : ℕ → ℕ → Heap → Run Heap
  pub run_malloc : ℕ → ℕ → Heap → ℕ × Heap
  pub run_calloc : ℕ → ℕ → ℕ → Heap → ℕ × Heap
  pub run_realloc : ℕ → ℕ → ℕ → Heap → Run (ℕ × Heap)
  pub heap_alloc : ℕ → Heap → ℕ × Heap
  pub heap_free : ℕ → Heap → Run Heap
  pub interlocked : (word exchange comparand : ℕ) → ℕ × ℕ

-- What `InterlockedCompareExchangePointer` promises of a word: it returns the word, and replaces it where it is
-- the comparand.
abbrev pub IsInterlocked : Api → Type 0
IsInterlocked api =
    (word exchange comparand : ℕ)
    → api.interlocked word exchange comparand ≡ (word, if word == comparand then exchange else word)

-- The addresses of `s_fncsPointerCrInvAlloc` and of the four functions in it.
pub record Layout : Type 0 where
  pub default_at : ℕ
  pub defaults : Functions

-- The static variables; `references` counts the loads of the runtime library that have not been freed, and
-- `at_exit` the calls of `atexit`.
pub record State (api : Api) : Type 0 where
  pub heap : api.Heap
  pub tables : ℕ → Option Functions
  pub fncs_ptrs : ℕ
  pub fncs_ptrs_allocated : ℕ
  pub cran_lib : ℕ
  pub references : ℕ
  pub at_exit : ℕ

module _ (api : Api) (layout : Layout) where
  -- `CrInvAllocFree_free_default` and the other three: the library is loaded for the call.
  unfoldable pub free_default : ℕ → State api → Run (State api)
  free_default ptr s =
      if api.library_loads && not (api.functions.m_free == null)
      then api.run_free api.functions.m_free ptr s.heap >>= (λ h. ok (record s { heap = h }))
      else ok s

  unfoldable pub malloc_default : ℕ → State api → Run (ℕ × State api)
  malloc_default count s =
      if api.library_loads && not (api.functions.m_malloc == null)
      then (let (p, h) = api.run_malloc api.functions.m_malloc count s.heap in
          ok (p, record s { heap = h }))
      else ok (null, s)

  unfoldable pub realloc_default : ℕ → ℕ → State api → Run (ℕ × State api)
  realloc_default ptr count s =
      if api.library_loads && not (api.functions.m_realloc == null)
      then api.run_realloc api.functions.m_realloc ptr count s.heap
        >>= (λ r. ok (r.0, record s { heap = r.1 }))
      else ok (null, s)

  unfoldable pub calloc_default : ℕ → ℕ → State api → Run (ℕ × State api)
  calloc_default nmemb size s =
      if api.library_loads && not (api.functions.m_calloc == null)
      then (let (p, h) = api.run_calloc api.functions.m_calloc nmemb size s.heap in
          ok (p, record s { heap = h }))
      else ok (null, s)

  -- `*s_pCrInvAllocFncsPtrs`.
  unfoldable pub load_functions : State api → Run Functions
  load_functions s = elim (s.tables s.fncs_ptrs) [ none ↦ stop undefined_behaviour | some t ↦ ok t ]

  -- The exported `free`, `malloc`, `calloc` and `realloc`: a call through the pointer, to one of the
  -- defaults or to a function of the library.
  unfoldable pub free : ℕ → State api → Run (State api)
  free ptr s = load_functions s >>= λ t.
      if t.m_free == layout.defaults.m_free
      then free_default ptr s
      else api.run_free t.m_free ptr s.heap >>= (λ h. ok (record s { heap = h }))

  unfoldable pub malloc : ℕ → State api → Run (ℕ × State api)
  malloc count s = load_functions s >>= λ t.
      if t.m_malloc == layout.defaults.m_malloc
      then malloc_default count s
      else (let (p, h) = api.run_malloc t.m_malloc count s.heap in ok (p, record s { heap = h }))

  unfoldable pub calloc : ℕ → ℕ → State api → Run (ℕ × State api)
  calloc nmemb size s = load_functions s >>= λ t.
      if t.m_calloc == layout.defaults.m_calloc
      then calloc_default nmemb size s
      else (let (p, h) = api.run_calloc t.m_calloc nmemb size s.heap in
          ok (p, record s { heap = h }))

  unfoldable pub realloc : ℕ → ℕ → State api → Run (ℕ × State api)
  realloc ptr count s = load_functions s >>= λ t.
      if t.m_realloc == layout.defaults.m_realloc
      then realloc_default ptr count s
      else api.run_realloc t.m_realloc ptr count s.heap >>= (λ r. ok (r.0, record s { heap = r.1 }))

  -- The exchange at a destination. The destination here is the structure, so the word is its `m_free`.
  unfoldable pub interlocked_compare_exchange :
      (destination exchange comparand : ℕ) → State api → Run (ℕ × State api)
  interlocked_compare_exchange destination exchange comparand s = elim (s.tables destination) [
    | none ↦ stop undefined_behaviour
    | some t ↦
        let (initial, word) = api.interlocked t.m_free exchange comparand in
        ok (
          initial,
          record s { tables = update s.tables destination (some (record t { m_free = word })) },
        )
  ]

  -- `HeapFree(GetProcessHeap(), 0, p)` of a structure of functions.
  unfoldable pub free_functions : ℕ → State api → Run (State api)
  free_functions p s =
      api.heap_free p s.heap >>= λ h. ok (record s { heap = h; tables = update s.tables p none })

  unfoldable pub free_library : State api → State api
  free_library s = record s { references = s.references - 1 }

  -- `CrInvAllocFreeCleanupRoutineStatic`.
  unfoldable pub cleanup_routine : State api → Run (State api)
  cleanup_routine s = if s.cran_lib == null then ok s else do
    t ← free_functions s.fncs_ptrs_allocated (record s { fncs_ptrs = layout.default_at })
    ok (record (free_library (record t { fncs_ptrs_allocated = null })) { cran_lib = null })

  -- The end of `CrInvAllocFreeInitializationRoutineStatic`: the exchange, and what follows from it.
  unfoldable pub install : (fncs : ℕ) → State api → Run (State api)
  unfolding interlocked_compare_exchange free_functions free_library
  install fncs s = do
    (init_val, t) ← interlocked_compare_exchange s.fncs_ptrs fncs layout.default_at s
    if init_val == layout.default_at
        then (do u ← free_functions fncs t; ok (free_library u))
        else ok (record t {
          fncs_ptrs_allocated = fncs;
          at_exit = if api.atexit == null then t.at_exit else t.at_exit + 1;
        })

  -- `CrInvAllocFreeInitializationRoutineStatic`. The handle of the library goes to a variable of the
  -- function; the structure is not given back where a function is not found.
  unfoldable pub initialization_routine : State api → Run (State api)
  unfolding install free_library
  initialization_routine s = if not (s.cran_lib == null) || not api.library_loads then ok s else do
    let loaded = record s { references = s.references + 1 }
    let fncs = (api.heap_alloc 32 loaded.heap).0
    let taken = record loaded { heap = (api.heap_alloc 32 loaded.heap).1 }
    let f = api.functions
    if fncs == null
        then ok taken
        else if f.m_free == null
            || (f.m_malloc == null || (f.m_calloc == null || f.m_realloc == null))
        then ok (free_library (record taken { tables = update taken.tables fncs (some f) }))
        else install fncs (record taken { tables = update taken.tables fncs (some f) })

-- The loop of `CrInvAllocFree_memset`, on ARM: the rounds left and `i`; a byte is below 256.
unfoldable pub memset_loop : ℕ → (dest c count i : ℕ) → (ℕ → ℕ) → Run (ℕ → ℕ)
memset_loop zero dest c count i bytes = stop out_of_fuel
memset_loop (suc fuel) dest c count i bytes = elim (ltb i count) [
  | true ↦ memset_loop fuel dest c count i (update bytes (dest + i) (c % 256))
  | false ↦ ok bytes
]

-- `CrInvAllocFree_memset`: the destination and the bytes.
unfoldable pub memset : (fuel dest c count : ℕ) → (ℕ → ℕ) → Run (ℕ × (ℕ → ℕ))
memset fuel dest c count bytes = memset_loop fuel dest c count 0 bytes >>= λ b. ok (dest, b)
