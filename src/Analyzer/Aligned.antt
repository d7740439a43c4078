-- ===== src/Analyzer/Aligned.antt =====
-- `TestOperatorNewAligned` of src/core/basic/crash_investigator_alloc_dealloc_analyze.cpp, and the
-- aligned operators of src/core/basic/crash_investigator_new_delete.cpp.
use Prim.Native.Nat.{bit_or}
use old_crash_investigator.Base.{
  ℕ, ◌+◌, ◌-◌, ◌*◌, ◌/◌, ◌%◌, ◌^◌, Bool, true, Option, none, some, List, ltb, leb, ◌==◌,
  if◌then◌else◌, null, size_mod,
}
use old_crash_investigator.Analyzer.Monad.{pure, ◌>>=◌, get}
use old_crash_investigator.Analyzer.Operators.{no_memory, test_operator_delete}
use old_crash_investigator.Analyzer.State.{State, Act, Env, mallocn}
use old_crash_investigator.Analyzer.Track.{Result, returned, with_handler, add_new_allocated_memory}
use old_crash_investigator.Failure.{MemoryType}
use old_crash_investigator.RawAlloc.{Libc}

-- `__STDCPP_DEFAULT_NEW_ALIGNMENT__` on x86-64.
abbrev pub default_new_alignment : ℕ
default_new_alignment = 16

-- `ullnAlign |= (ullnAlign >> n)`.
unfoldable pub smear : (n ullnAlign : ℕ) → ℕ
smear n x = bit_or x (x / 2 ^ n)

-- The next power of two, for an alignment that is not 0.
unfoldable pub round_up : ℕ → ℕ
unfolding smear
round_up align =
    (smear 32 (smear 16 (smear 8 (smear 4 (smear 2 (smear 1 ((align + size_mod - 1) % size_mod))))))
      + 1)
    % size_mod

unfoldable pub alignment_of : ℕ → ℕ
unfolding round_up
alignment_of align =
    if ltb align default_new_alignment then default_new_alignment else round_up align

-- `std::align` of the standard library: the first aligned address in the space, if the size fits
-- behind it.
unfoldable pub std_align : (align size ptr space : ℕ) → Option ℕ
std_align align size ptr space =
    let aligned = align * ((ptr + align - 1) / align) in
    if leb (size + (aligned - ptr)) space then some aligned else none

module _ (libc : Libc) (env : Env) where
  unfoldable pub aligned_tracked :
      (count : ℕ) → MemoryType → Bool → (align go_back : ℕ) → List ℕ → Act libc Result
  unfolding alignment_of std_align
  aligned_tracked count type throws align go_back frames =
      if count == 0 then pure (no_memory libc env throws) else do
        let space = (count + alignment_of align + 8) % size_mod
        p ← mallocn libc space
        if p == null
            then pure (no_memory libc env throws)
            else elim (std_align (alignment_of align) count p space) [
              | none ↦ pure (no_memory libc env throws)
              | some aligned ↦
                  add_new_allocated_memory libc env type p (go_back + 1) frames >>= λ _.
                  pure (returned aligned)
            ]

  -- `TestOperatorNewAligned`.
  unfoldable pub test_operator_new_aligned :
      (count : ℕ) → MemoryType → Bool → (align go_back : ℕ) → List ℕ → Act libc Result
  unfolding aligned_tracked
  test_operator_new_aligned count type throws align go_back frames = do
    s ← get
    if s.is_allocing_or_deallocing
        then (do p ← mallocn libc count; pure (returned p))
        else with_handler libc env (aligned_tracked count type throws align go_back frames)

  -- The aligned operators `new`; those with `std::nothrow` pass `true` as well.
  unfoldable pub operator_new_aligned : (count align : ℕ) → List ℕ → Act libc Result
  operator_new_aligned count align = test_operator_new_aligned count MemoryType.new true align 1

  unfoldable pub operator_new_arr_aligned : (count align : ℕ) → List ℕ → Act libc Result
  operator_new_arr_aligned count align =
      test_operator_new_aligned count MemoryType.new_arr true align 1

  unfoldable pub operator_new_aligned_nothrow : (count align : ℕ) → List ℕ → Act libc Result
  operator_new_aligned_nothrow count align =
      test_operator_new_aligned count MemoryType.new true align 1

  unfoldable pub operator_new_arr_aligned_nothrow : (count align : ℕ) → List ℕ → Act libc Result
  operator_new_arr_aligned_nothrow count align =
      test_operator_new_aligned count MemoryType.new_arr true align 1

  -- The aligned operators `delete`.
  unfoldable pub operator_delete_aligned : (ptr align : ℕ) → List ℕ → Act libc (Unit {0})
  operator_delete_aligned ptr align = test_operator_delete libc env ptr MemoryType.new 1

  unfoldable pub operator_delete_arr_aligned : (ptr align : ℕ) → List ℕ → Act libc (Unit {0})
  operator_delete_arr_aligned ptr align = test_operator_delete libc env ptr MemoryType.new_arr 1
