-- ===== src/MemoryPool/Overflow.antt =====
-- The sums of src/cpputilsm/cpputilsm_memorypool.cpp are sums of `size_t`, with no test for a wrap.
use old_crash_investigator.Base.{
  ℕ, ◌+◌, ◌-◌, ◌%◌, ◌≤◌, ◌<◌, ◌≡◌, refl, arith, lt→ltb, update_self, size_mod,
}
use old_crash_investigator.MemoryPool.{Pool, item_size, alloc}
use old_crash_investigator.MemoryPool.Layout.{IsPlaced}

-- A count of at least 2^64 - 32 makes the sum with the header's size wrap. If what is left of the
-- sum fits, `Alloc` returns an address as if the block were there, although the buffer is smaller
-- than the count, and the header claims the whole count.
pub alloc_wraps :
    (count : ℕ) (p : Pool)
    → IsPlaced p
    → p.buffer_size + item_size < size_mod
    → count < size_mod
    → size_mod ≤ count + item_size
    → count + item_size - size_mod + p.offset < p.buffer_size
    → ((alloc count p).0 ≡ p.buffer + p.offset + item_size)
      × (p.buffer_size < count)
      × ((alloc count p).1.offset ≡ count + item_size - size_mod + p.offset)
      × (((alloc count p).1.items p.offset).count ≡ count)
unfolding alloc
alloc_wraps count p placed usual small big left =
    rw
      (lt→ltb ((((count + item_size) % size_mod) + p.offset) % size_mod) p.buffer_size
        (omega (arith, placed.in_space)))
      (refl, omega arith, omega (arith, placed.in_space), rw update_self)
