-- ===== src/Hook/Install.antt =====
-- What the initialisation of
-- src/core/initial_malloc_free_hook/crash_investigator_malloc_free_hook_windows2.c installs.
use old_crash_investigator.Base.{
  ℕ, ◌+◌, ◌-◌, ◌≡◌, ◌≢◌, refl, sym, ◌∙◌, inl, inr, Bool, true, false, not, ◌||◌, some, ◌==◌,
  if◌then◌else◌, update, update_self, update_ne, ok, null, ne→==, eq→==, Bool-cases,
}
use old_crash_investigator.Hook.{
  Api, IsInterlocked, Layout, Functions, State, initialization_routine, install,
  interlocked_compare_exchange, cleanup_routine, malloc, malloc_default, load_functions,
  free_library,
}

module _ (api : Api) (interlocked : IsInterlocked api) (layout : Layout) where
  -- The pointer leads to the default structure, with the default functions, and the library is not held.
  pub record IsDefault (s : State api) : Type 0 where
    pub pointer : s.fncs_ptrs ≡ layout.default_at
    pub table : s.tables layout.default_at ≡ some layout.defaults
    pub not_held : s.cran_lib ≡ null

  install-IsDefault :
      (fncs : ℕ) (s : State api)
      → IsDefault s
      → layout.defaults.m_free ≢ layout.default_at
      → (t : State api) × (install api layout fncs s ≡ ok t) × IsDefault t
  unfolding install interlocked_compare_exchange
  install-IsDefault fncs s d apart = (
    record s {
      tables = update s.tables layout.default_at (some layout.defaults);
      fncs_ptrs_allocated = fncs;
      at_exit = if api.atexit == null then s.at_exit else s.at_exit + 1;
    },
    rw
        (
          d.pointer,
          d.table,
          interlocked layout.defaults.m_free fncs layout.default_at,
          ne→== layout.defaults.m_free layout.default_at apart,
        )
        refl,
    record {
      pointer = d.pointer;
      table = update_self s.tables layout.default_at (some layout.defaults);
      not_held = d.not_held;
    },
  )

  malloc_default_lem :
      (t : State api)
      → IsDefault t
      → (count : ℕ) → malloc api layout count t ≡ malloc_default api layout count t
  unfolding malloc load_functions
  malloc_default_lem t e count =
      rw (e.pointer, e.table, eq→== layout.defaults.m_malloc layout.defaults.m_malloc refl) refl

  cleanup_routine-IsDefault : (t : State api) → IsDefault t → cleanup_routine api layout t ≡ ok t
  unfolding cleanup_routine
  cleanup_routine-IsDefault t e = rw (e.not_held) refl

  -- A structure is written that is not the default one.
  written :
      (fncs : ℕ) (f : Functions) (s : State api)
      → IsDefault s
      → fncs ≢ layout.default_at
      → (heap : api.Heap) (references : ℕ)
      → IsDefault (record s {
        heap = heap;
        references = references;
        tables = update s.tables fncs (some f);
      })
  written fncs f s d other heap references = record {
    pointer = d.pointer;
    table = update_ne s.tables fncs layout.default_at (some f) (λ e. other (sym e)) ∙ d.table;
    not_held = d.not_held;
  }

  routine-IsDefault :
      (s : State api)
      → IsDefault s
      → layout.defaults.m_free ≢ layout.default_at
      → ((n : ℕ) (h : api.Heap) → (api.heap_alloc n h).0 ≢ layout.default_at)
      → (t : State api) × (initialization_routine api layout s ≡ ok t) × IsDefault t
  unfolding initialization_routine free_library
  routine-IsDefault s d apart fresh = elim (Bool-cases api.library_loads) [
    | inr absent ↦ (s, rw (d.not_held, absent) refl, d)
    | inl loads ↦ elim (Bool-cases (fncs == null)) [
      | inl full ↦ (
        record s { heap = heap'; references = s.references + 1 },
        rw (d.not_held, loads, full) refl,
        record { pointer = d.pointer; table = d.table; not_held = d.not_held },
      )
      | inr room ↦ elim (Bool-cases missing) [
        | inl some_missing ↦ (
          record s {
            heap = heap';
            references = s.references + 1 - 1;
            tables = update s.tables fncs (some f);
          },
          rw (d.not_held, loads, room, some_missing) refl,
          written fncs f s d (fresh 32 s.heap) heap' (s.references + 1 - 1),
        )
        | inr all_found ↦
            let ready = written fncs f s d (fresh 32 s.heap) heap' (s.references + 1) in
            let (t, returns, default) = install-IsDefault fncs _ ready apart in
            (t, rw (goes_on loads, room, all_found) returns, default)
      ]
    ]
  ]
    where
      goes_on : api.library_loads ≡ true → not (s.cran_lib == null) || not api.library_loads ≡ false
      goes_on loads = rw (d.not_held, loads) refl

      fncs : ℕ
      fncs = (api.heap_alloc 32 s.heap).0

      heap' : api.Heap
      heap' = (api.heap_alloc 32 s.heap).1

      f : Functions
      f = api.functions

      missing : Bool
      missing =
          f.m_free == null || (f.m_malloc == null || (f.m_calloc == null || f.m_realloc == null))

  -- A call of the initialisation returns, on every path, but installs nothing: calls still go to the
  -- default functions, which load the library each time, and the clean-up does nothing.
  pub initialization_routine-IsDefault :
      (s : State api)
      → IsDefault s
      → layout.defaults.m_free ≢ layout.default_at
      → ((n : ℕ) (h : api.Heap) → (api.heap_alloc n h).0 ≢ layout.default_at)
      → (t : State api) × (initialization_routine api layout s ≡ ok t)
        × IsDefault t
        × ((count : ℕ) → malloc api layout count t ≡ malloc_default api layout count t)
        × (cleanup_routine api layout t ≡ ok t)
  initialization_routine-IsDefault s d apart fresh =
      let (t, returns, default) = routine-IsDefault s d apart fresh in
      (t, returns, default, malloc_default_lem t default, cleanup_routine-IsDefault t default)
