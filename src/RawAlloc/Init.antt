-- ===== src/RawAlloc/Init.antt =====
-- The initialisation of src/core/basic/crash_investigator_alloc_dealloc_unix.cpp.
use old_crash_investigator.Base.{
  ℕ, ◌≡◌, refl, ◌∙◌, true, false, ok, stop, undefined_behaviour, exited, ◌&&◌, >>=-eq-ok, Returns,
  arith, List, [], ◌∷◌,
}
use old_crash_investigator.MemoryPool
use old_crash_investigator.RawAlloc.{
  Symbol, RawCall, mallocs, callocs, reallocs, frees, malloc, calloc, realloc, free, Libc, Raw,
  serve, init_function, ensure_inited, callocn, orig_calloc,
}

module _ (libc : Libc) where
  -- The state before the first call, and after the initialisation.
  pub record IsFresh (s : Raw libc) : Type 0 where
    pub once : s.once_done ≡ false
    pub outside : s.is_init_function ≡ false
    pub waiting : s.is_not_inited ≡ true

  pub record IsInited (s : Raw libc) : Type 0 where
    pub outside : s.is_init_function ≡ false
    pub done : s.is_not_inited ≡ false
    pub malloc_set : s.orig malloc ≡ true
    pub realloc_set : s.orig realloc ≡ true
    pub free_set : s.orig free ≡ true
    pub orig : (x : Symbol) → s.orig x ≡ libc.resolves x

  -- The calls of `dlsym` change the memory pool alone.
  serve_keeps :
      (cs : List RawCall) (s u : Raw libc)
      → serve libc cs s ≡ ok u
      → (u.heap ≡ s.heap) × (u.once_done ≡ s.once_done)
  unfolding serve
  serve_keeps [] s u e = ground arith
  serve_keeps (mallocs n ∷ cs) s u e =
      serve_keeps cs (record s { mem_pool = (MemoryPool.alloc n s.mem_pool).1 }) u e
  serve_keeps (callocs n m ∷ cs) s u e =
      serve_keeps cs (record s { mem_pool = (MemoryPool.calloc n m s.mem_pool).1 }) u e
  serve_keeps (reallocs p n ∷ cs) s u e =
      let (r, runs, rest) =
        >>=-eq-ok (MemoryPool.realloc p n s.mem_pool)
          (λ r. serve libc cs (record s { mem_pool = r.2 })) e in
      serve_keeps cs (record s { mem_pool = r.2 }) u rest
  serve_keeps (frees p ∷ cs) s u e =
      let (r, runs, rest) =
        >>=-eq-ok (MemoryPool.dealloc p s.mem_pool)
          (λ r. serve libc cs (record s { mem_pool = r.1 })) e in
      serve_keeps cs (record s { mem_pool = r.1 }) u rest

  -- The first call initialises the functions, once: if the pool can serve what `dlsym` asks for, the
  -- program goes on with the C library's functions set and its heap untouched where `dlsym` finds
  -- `malloc`, `realloc` and `free`, and exits with code 1 where it misses one.
  pub ensure_inited_fresh :
      (s : Raw libc)
      → IsFresh s
      → Returns
          (serve libc libc.dlsym_calls (record s { once_done = true; is_init_function = true }))
          (λ u. Unit {0})
      → ((libc.resolves malloc && (libc.resolves realloc && libc.resolves free)) ≡ true
          → Returns
              (ensure_inited libc s)
              λ u. IsInited u × (u.heap ≡ s.heap) × (u.once_done ≡ true))
        × ((libc.resolves malloc && (libc.resolves realloc && libc.resolves free)) ≡ false
            → ensure_inited libc s ≡ stop (exited 1))
  unfolding ensure_inited init_function
  ensure_inited_fresh s f (u, runs, _) = (
    λ found. (
      record u { orig = libc.resolves; is_init_function = false; is_not_inited = false },
      ground arith,
      (
        record {
          outside = refl;
          done = refl;
          malloc_set = ground arith;
          realloc_set = ground arith;
          free_set = ground arith;
          orig = λ x. refl;
        },
        (serve_keeps libc.dlsym_calls (record s { once_done = true; is_init_function = true }) u
            runs).0,
        (serve_keeps libc.dlsym_calls (record s { once_done = true; is_init_function = true }) u
            runs).1,
      ),
    ),
    λ missing. ground arith,
  )

  -- A first call of `callocn`, where the pool can serve what `dlsym` asks for, and `dlsym` finds
  -- `malloc`, `realloc` and `free`, but not `calloc`: the initialisation does not end the program, and
  -- the call goes through a null pointer.
  pub callocn_first :
      (s : Raw libc) (n m : ℕ)
      → IsFresh s
      → Returns
          (serve libc libc.dlsym_calls (record s { once_done = true; is_init_function = true }))
          (λ u. Unit {0})
      → (libc.resolves malloc && (libc.resolves realloc && libc.resolves free)) ≡ true
      → libc.resolves calloc ≡ false
      → Returns (ensure_inited libc s) (λ u. IsInited u)
        × (callocn libc n m s ≡ stop undefined_behaviour)
  unfolding callocn orig_calloc
  callocn_first s n m fresh serves found missing =
      let (u, runs, i) = (ensure_inited_fresh s fresh serves).0 found in
      ((u, runs, i.0), simp (fresh.outside, runs, i.0.orig calloc ∙ missing))
