-- ===== src/Tests/Traces.antt =====
-- Traces of src/core/backtrace/crash_investigator_backtrace_unix.cpp and the initialisation of
-- src/core/basic/crash_investigator_alloc_dealloc_unix.cpp.
use old_crash_investigator.Base.{
  size_mod, arith, some, ◌+◌, ℕ, suc, ◌%◌, ◌≡◌, ◌↔◌, refl, ◌<◌, ◌≤◌, true, false, ◌&&◌, none, List,
  [], ◌∷◌, ◌++◌, length, ok, stop, exited, undefined_behaviour, Returns, hash_size,
}
use old_crash_investigator.Backtrace.{
  Backtrace, IsWhole, is_the_same_stack, hash_of_the_stack, init_backtrace_data, take, drop,
  symbols_count_max,
}
use old_crash_investigator.Backtrace.Capture.{length-take, init_backtrace_data-IsWhole}
use old_crash_investigator.Backtrace.Hash.{poly, hash-poly, hash_prefix}
use old_crash_investigator.Backtrace.Windows.{
  Capture, init_backtrace_data_windows, init_backtrace_data_windows-same,
}
use old_crash_investigator.Backtrace.Same.{is_the_same_stack_iff}
use old_crash_investigator.MemoryPool
use old_crash_investigator.RawAlloc.{Libc, Raw, calloc, serve, ensure_inited, callocn, mallocs}
use old_crash_investigator.RawAlloc.Init.{IsInited, ensure_inited_fresh, callocn_first}

abbrev two : List ℕ
two = 5 ∷ 6 ∷ []

abbrev trace_of : List ℕ → Backtrace
trace_of frames = record { pp_buffer = frames; stack_deepness = length frames }

is_the_same_stack_iff_example :
    (is_the_same_stack (trace_of two) (trace_of two) ≡ true) ↔ ((0 < 2) × (two ≡ two))
is_the_same_stack_iff_example = is_the_same_stack_iff (trace_of two) (trace_of two) refl refl

abbrev four : List ℕ
four = 1 ∷ 2 ∷ 3 ∷ 4 ∷ []

hash-poly_example : hash_of_the_stack (trace_of four) ≡ poly four % size_mod
hash-poly_example = hash-poly (trace_of four) refl

hash_prefix_example :
    (length four ≡ 22
      → hash_of_the_stack (trace_of (four ++ (5 ∷ [])))
        ≡ hash_of_the_stack (trace_of (four ++ (6 ∷ 7 ∷ []))))
    × (length four ≡ 4
        → hash_of_the_stack (trace_of (four ++ (5 ∷ []))) % hash_size
          ≡ hash_of_the_stack (trace_of (four ++ (6 ∷ 7 ∷ []))) % hash_size)
hash_prefix_example =
    hash_prefix (trace_of (four ++ (5 ∷ []))) (trace_of (four ++ (6 ∷ 7 ∷ []))) four (5 ∷ [])
      (6 ∷ 7 ∷ []) refl refl refl refl

init_backtrace_data-IsWhole_example :
    IsWhole (init_backtrace_data 1 (9 ∷ 8 ∷ []))
    × (1 < 2
        → (init_backtrace_data 1 (9 ∷ 8 ∷ [])).pp_buffer
          ≡ take symbols_count_max (drop 1 (9 ∷ 8 ∷ [])))
    × (2 ≤ 1 → (init_backtrace_data 1 (9 ∷ 8 ∷ [])).pp_buffer ≡ (9 ∷ 8 ∷ []))
init_backtrace_data-IsWhole_example = init_backtrace_data-IsWhole 1 (9 ∷ 8 ∷ [])

-- A C library whose `malloc` hands out addresses one after the other, without `calloc`. Its `dlsym`
-- allocates 64 bytes.
abbrev counting_libc : Libc
counting_libc = record {
  Heap = ℕ;
  malloc_fn = λ n h. (h, suc h);
  calloc_fn = λ n m h. (h, suc h);
  realloc_fn = λ p n h. ok (h, suc h);
  free_fn = λ p h. ok h;
  resolves = λ s. elim s [ calloc ↦ false | _ ↦ true ];
  dlsym_calls = mallocs 64 ∷ [];
}

abbrev fresh_raw : Raw counting_libc
fresh_raw = record {
  mem_pool =
      MemoryPool.init 1000 500
        (λ _. record { count = 0; is_in_use = false; prev = none; next = none }) (λ _. 0);
  once_done = false;
  orig = λ _. false;
  is_init_function = false;
  is_not_inited = true;
  heap = 5000;
}

served :
    Returns
      (serve counting_libc counting_libc.dlsym_calls
        (record fresh_raw { once_done = true; is_init_function = true }))
      λ u. Unit {0}
unfolding serve
served = (_, refl, tt)

ensure_inited_fresh_example :
    ((true && (true && true)) ≡ true
      → Returns
          (ensure_inited counting_libc fresh_raw)
          λ u. IsInited counting_libc u × (u.heap ≡ 5000) × (u.once_done ≡ true))
    × ((true && (true && true)) ≡ false → ensure_inited counting_libc fresh_raw ≡ stop (exited 1))
ensure_inited_fresh_example =
    ensure_inited_fresh counting_libc fresh_raw
      (record { once = refl; outside = refl; waiting = refl }) served

callocn_first_example :
    Returns (ensure_inited counting_libc fresh_raw) (λ u. IsInited counting_libc u)
    × (callocn counting_libc 3 4 fresh_raw ≡ stop undefined_behaviour)
callocn_first_example =
    callocn_first counting_libc fresh_raw 3 4
      (record { once = refl; outside = refl; waiting = refl }) served refl refl

-- A capture that finds no more than two frames.
abbrev two_frames : Capture
two_frames skip count = take count two

two_frames-length : (skip count : ℕ) → length (two_frames skip count) ≤ count
two_frames-length skip count = omega (arith, length-take count two)

two_captured : init_backtrace_data_windows two_frames 1 ≡ some (trace_of two)
unfolding init_backtrace_data_windows take
two_captured = refl

init_backtrace_data_windows-same_example :
    IsWhole (trace_of two) × (is_the_same_stack (trace_of two) (trace_of two) ≡ true) × (2 + 1 < 64)
init_backtrace_data_windows-same_example =
    init_backtrace_data_windows-same two_frames 1 (trace_of two) two_frames-length (omega arith)
      two_captured
