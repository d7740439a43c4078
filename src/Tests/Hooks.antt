-- ===== src/Tests/Hooks.antt =====
-- Runs of src/core/initial_malloc_free_hook/crash_investigator_malloc_free_hook_windows2.c with a runtime library
-- that has all functions.
use old_crash_investigator.Base.{
  ℕ, ◌+◌, ◌≡◌, ◌<◌, ◌⊎◌, refl, true, Option, none, some, ◌==◌, if◌then◌else◌, Run, ok, stop,
  out_of_fuel, arith, ◌>>=◌, update,
}
use old_crash_investigator.Hook.{
  Api, IsInterlocked, Layout, State, initialization_routine, cleanup_routine, malloc,
  malloc_default, memset, install, interlocked_compare_exchange,
}
use old_crash_investigator.Hook.Install.{IsDefault, initialization_routine-IsDefault}
use old_crash_investigator.Hook.Memset.{memset-ends}

-- The process heap is the next address.
abbrev api : Api
api = record {
  Heap = ℕ;
  library_loads = true;
  functions = record { m_free = 11; m_malloc = 12; m_calloc = 13; m_realloc = 14 };
  atexit = 15;
  run_free = λ f p h. ok h;
  run_malloc = λ f n h. (h, h + n);
  run_calloc = λ f n m h. (h, h + n);
  run_realloc = λ f p n h. ok (h, h + n);
  heap_alloc = λ n h. (50 + h, h + n);
  heap_free = λ p h. ok h;
  interlocked = λ w e c. (w, if w == c then e else w);
}

interlocked : IsInterlocked api
interlocked w e c = refl

abbrev layout : Layout
layout = record {
  default_at = 40;
  defaults = record { m_free = 21; m_malloc = 22; m_calloc = 23; m_realloc = 24 };
}

abbrev fresh : State api
fresh = record {
  heap = 1000;
  tables = λ a. if a == 40 then some (layout.defaults) else none;
  fncs_ptrs = 40;
  fncs_ptrs_allocated = 0;
  cran_lib = 0;
  references = 0;
  at_exit = 0;
}

initialization_routine-IsDefault_example :
    (t : State api) × (initialization_routine api layout fresh ≡ ok t)
    × IsDefault api interlocked layout t
    × ((count : ℕ) → malloc api layout count t ≡ malloc_default api layout count t)
    × (cleanup_routine api layout t ≡ ok t)
initialization_routine-IsDefault_example =
    initialization_routine-IsDefault api interlocked layout fresh
      (record { pointer = refl; table = refl; not_held = refl }) (λ e. absurd (omega arith))
      (λ n h e. absurd (omega arith))

-- Two calls hold the library twice, and two structures.
abbrev counts : Run (State api) → Option (ℕ × ℕ)
counts (ok s) = some (s.references, s.heap)
counts (stop why) = none

twice :
    counts (initialization_routine api layout fresh >>= initialization_routine api layout)
    ≡ some (2, 1064)
unfolding initialization_routine install interlocked_compare_exchange update
twice = refl

abbrev three : ℕ
three = 3

abbrev zeros : ℕ → ℕ
zeros _ = 0

memset-ends_example :
    ((three ≡ 0) × (memset 9 100 255 three zeros ≡ ok (100, zeros)))
    ⊎ ((0 < three) × (memset 9 100 255 three zeros ≡ stop out_of_fuel))
memset-ends_example = memset-ends 8 100 255 three zeros
