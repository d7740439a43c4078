-- ===== src/RawAlloc/Windows.antt =====
-- The allocation functions that the library uses on Windows:
-- src/core/basic/crash_investigator_alloc_dealloc_windows.cpp.
use old_crash_investigator.Base.{
  ℕ, ◌*◌, ◌%◌, Bool, true, false, Option, none, some, if◌then◌else◌, Run, ok, null, size_mod,
}

-- The process heap, and the C runtime library: whether it can be loaded, and its functions if it has
-- them. A free of an address that is not allocated is undefined.
pub record System : Type 1 where
  pub Heap : Type 0
  pub heap_alloc : (zero_memory : Bool) → ℕ → Heap → ℕ × Heap
  pub heap_realloc : ℕ → ℕ → Heap → Run (ℕ × Heap)
  pub heap_free : ℕ → Heap → Run Heap
  pub library_loads : Bool
  pub realloc_fn : Option (ℕ → ℕ → Heap → Run (ℕ × Heap))
  pub free_fn : Option (ℕ → Heap → Run Heap)

module _ (system : System) where
  unfoldable pub mallocn : ℕ → system.Heap → ℕ × system.Heap
  mallocn count h = system.heap_alloc false count h

  unfoldable pub reallocn : ℕ → ℕ → system.Heap → Run (ℕ × system.Heap)
  reallocn ptr count h = system.heap_realloc ptr count h

  -- The product is one of `size_t`.
  unfoldable pub callocn : ℕ → ℕ → system.Heap → ℕ × system.Heap
  callocn nmemb size h = system.heap_alloc true ((nmemb * size) % size_mod) h

  unfoldable pub freen : ℕ → system.Heap → Run system.Heap
  freen ptr h = system.heap_free ptr h

  -- `SystemSpecificLibInitialRealloc` and `SystemSpecificLibInitialDealloc`: there is no early memory.
  unfoldable pub lib_initial_realloc : ℕ → ℕ → Bool × ℕ
  lib_initial_realloc ptr count = (false, null)

  unfoldable pub lib_initial_dealloc : ℕ → Bool
  lib_initial_dealloc ptr = false

  -- `SystemSpecificGlibcRealloc`.
  unfoldable pub glibc_realloc : ℕ → ℕ → system.Heap → Run (ℕ × system.Heap)
  glibc_realloc ptr count h =
      if system.library_loads
      then elim system.realloc_fn [ some f ↦ f ptr count h | none ↦ ok (null, h) ]
      else ok (null, h)

  -- `SystemSpecificGlibcDealloc`.
  unfoldable pub glibc_dealloc : ℕ → system.Heap → Run system.Heap
  glibc_dealloc ptr h =
      if system.library_loads then elim system.free_fn [ some f ↦ f ptr h | none ↦ ok h ] else ok h
