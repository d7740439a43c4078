-- ===== src/Hook/Memset.antt =====
-- `CrInvAllocFree_memset` of
-- src/core/initial_malloc_free_hook/crash_investigator_malloc_free_hook_windows2.c: whether it ends.
use old_crash_investigator.Base.{
  ℕ, zero, suc, ◌+◌, ◌%◌, ◌<◌, ◌≡◌, refl, ◌⊎◌, inl, inr, ok, stop, out_of_fuel, lt→ltb, update,
  arith,
}
use old_crash_investigator.Hook.{memset, memset_loop}
use native.Mathlib.Decide.{ℕ_discrete}

memset_loop-endless :
    (fuel dest c count i : ℕ) (bytes : ℕ → ℕ)
    → i < count
    → memset_loop fuel dest c count i bytes ≡ stop out_of_fuel
unfolding memset_loop
memset_loop-endless zero dest c count i bytes below = refl
memset_loop-endless (suc fuel) dest c count i bytes below =
    rw (memset_loop, lt→ltb i count below)
      (memset_loop-endless fuel dest c count i (update bytes (dest + i) (c % 256)) below)

-- `CrInvAllocFree_memset` ends for a count of 0 alone, and then changes nothing: for any other count no
-- number of rounds is enough, as the loop does not count.
pub memset-ends :
    (fuel dest c count : ℕ) (bytes : ℕ → ℕ)
    → ((count ≡ 0) × (memset (suc fuel) dest c count bytes ≡ ok (dest, bytes)))
      ⊎ ((0 < count) × (memset (suc fuel) dest c count bytes ≡ stop out_of_fuel))
unfolding memset memset_loop
memset-ends fuel dest c count bytes = elim (ℕ_discrete count 0) [
  | yes none_of ↦ inl (none_of, rw (memset, memset_loop, none_of) refl)
  | no some_of ↦ inr (
    omega arith,
    rw (memset, memset_loop-endless (suc fuel) dest c count 0 bytes (omega arith)) refl,
  )
]
