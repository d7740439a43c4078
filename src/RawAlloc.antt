-- ===== src/RawAlloc.antt =====
-- The allocation functions that the library itself uses:
-- src/core/basic/crash_investigator_alloc_dealloc_unix.cpp.
--
-- The C library's functions and `dlsym` are a parameter, `Libc`. `dlsym` may allocate memory while
-- it looks a symbol up: `dlsym_calls` lists these calls, in their order.
pub mod Init
pub mod Windows
use old_crash_investigator.Base.{
  ℕ, Bool, true, false, not, ◌&&◌, ◌||◌, List, [], ◌∷◌, if◌then◌else◌, Run, ok, stop,
  undefined_behaviour, exited, ◌>>=◌, null,
}
use old_crash_investigator.MemoryPool
use old_crash_investigator.MemoryPool.{Pool}

pub data Symbol : Type 0 where
  malloc calloc realloc free : Symbol

-- A call of an allocation function: `realloc(ptr, count)` and `free(ptr)` name an address.
pub data RawCall : Type 0 where
  mallocs : ℕ → RawCall
  callocs : ℕ → ℕ → RawCall
  reallocs : ℕ → ℕ → RawCall
  frees : ℕ → RawCall

-- `realloc` and `free` of an address that the library does not know are undefined.
pub record Libc : Type 1 where
  pub Heap : Type 0
  pub malloc_fn : ℕ → Heap → ℕ × Heap
  pub calloc_fn : ℕ → ℕ → Heap → ℕ × Heap
  pub realloc_fn : ℕ → ℕ → Heap → Run (ℕ × Heap)
  pub free_fn : ℕ → Heap → Run Heap
  pub resolves : Symbol → Bool
  pub dlsym_calls : List RawCall

-- The static variables; `orig` says which of the `s_orig_…` pointers are not null.
pub record Raw (libc : Libc) : Type 0 where
  pub mem_pool : Pool
  pub once_done : Bool
  pub orig : Symbol → Bool
  pub is_init_function : Bool
  pub is_not_inited : Bool
  pub heap : libc.Heap

module _ (libc : Libc) where
  -- The calls that `dlsym` makes, which the memory pool serves.
  unfoldable pub serve : List RawCall → Raw libc → Run (Raw libc)
  serve [] s = ok s
  serve (mallocs n ∷ cs) s = serve cs (record s { mem_pool = (MemoryPool.alloc n s.mem_pool).1 })
  serve (callocs n m ∷ cs) s =
      serve cs (record s { mem_pool = (MemoryPool.calloc n m s.mem_pool).1 })
  serve (reallocs p n ∷ cs) s =
      MemoryPool.realloc p n s.mem_pool >>= λ r. serve cs (record s { mem_pool = r.2 })
  serve (frees p ∷ cs) s =
      MemoryPool.dealloc p s.mem_pool >>= λ r. serve cs (record s { mem_pool = r.1 })

  -- `InitFunction`.
  unfoldable pub init_function : Raw libc → Run (Raw libc)
  init_function s = do
    found ← serve libc.dlsym_calls (record s { is_init_function = true })
    let resolved = record found { orig = libc.resolves }
    if not (resolved.orig malloc) || (not (resolved.orig realloc) || not (resolved.orig free))
        then stop (exited 1)
        else ok (record resolved { is_init_function = false; is_not_inited = false })

  -- `if(s_isNotInited){pthread_once(&s_once_control,&InitFunction);}`
  unfoldable pub ensure_inited : Raw libc → Run (Raw libc)
  ensure_inited s =
      if s.is_not_inited && not s.once_done
      then init_function (record s { once_done = true })
      else ok s

  -- A call through `s_orig_malloc`, and through the other three pointers.
  unfoldable pub orig_malloc : ℕ → Raw libc → Run (ℕ × Raw libc)
  orig_malloc n s =
      if s.orig malloc
      then (let (r, h) = libc.malloc_fn n s.heap in ok (r, record s { heap = h }))
      else stop undefined_behaviour

  unfoldable pub orig_calloc : ℕ → ℕ → Raw libc → Run (ℕ × Raw libc)
  orig_calloc n m s =
      if s.orig calloc
      then (let (r, h) = libc.calloc_fn n m s.heap in ok (r, record s { heap = h }))
      else stop undefined_behaviour

  -- `SystemSpecificGlibcRealloc`.
  unfoldable pub glibc_realloc : ℕ → ℕ → Raw libc → Run (ℕ × Raw libc)
  glibc_realloc p n s =
      if s.orig realloc
      then libc.realloc_fn p n s.heap >>= (λ r. ok (r.0, record s { heap = r.1 }))
      else stop undefined_behaviour

  -- `SystemSpecificGlibcDealloc`.
  unfoldable pub glibc_dealloc : ℕ → Raw libc → Run (Raw libc)
  glibc_dealloc p s =
      if s.orig free
      then libc.free_fn p s.heap >>= (λ h. ok (record s { heap = h }))
      else stop undefined_behaviour

  -- `SystemSpecificLibInitialRealloc`: whether the pool knows the address, and the new one.
  unfoldable pub lib_initial_realloc : ℕ → ℕ → Raw libc → Run (Bool × ℕ × Raw libc)
  lib_initial_realloc p n s =
      MemoryPool.realloc p n s.mem_pool >>= λ r. ok (r.0, r.1, record s { mem_pool = r.2 })

  -- `SystemSpecificLibInitialDealloc`.
  unfoldable pub lib_initial_dealloc : ℕ → Raw libc → Run (Bool × Raw libc)
  lib_initial_dealloc p s =
      MemoryPool.dealloc p s.mem_pool >>= λ r. ok (r.0, record s { mem_pool = r.1 })

  unfoldable pub mallocn : ℕ → Raw libc → Run (ℕ × Raw libc)
  mallocn n s =
      if s.is_init_function
      then (let (r, p) = MemoryPool.alloc n s.mem_pool in ok (r, record s { mem_pool = p }))
      else ensure_inited s >>= orig_malloc n

  unfoldable pub callocn : ℕ → ℕ → Raw libc → Run (ℕ × Raw libc)
  callocn n m s =
      if s.is_init_function
      then (let (r, p) = MemoryPool.calloc n m s.mem_pool in ok (r, record s { mem_pool = p }))
      else ensure_inited s >>= orig_calloc n m

  unfoldable pub reallocn : ℕ → ℕ → Raw libc → Run (ℕ × Raw libc)
  reallocn p n s =
      if s.is_init_function
      then lib_initial_realloc p n s >>= (λ r. ok (if r.0 then r.1 else null, r.2))
      else ensure_inited s >>= glibc_realloc p n

  unfoldable pub freen : ℕ → Raw libc → Run (Raw libc)
  freen p s =
      if s.is_init_function
      then lib_initial_dealloc p s >>= (λ r. ok r.1)
      else ensure_inited s >>= glibc_dealloc p
