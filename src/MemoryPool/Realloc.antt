-- ===== src/MemoryPool/Realloc.antt =====
-- `Realloc` of src/cpputilsm/cpputilsm_memorypool.cpp, branch by branch.
use old_crash_investigator.Base.{
  ℕ, ◌+◌, ◌-◌, ◌%◌, ◌≤◌, ◌<◌, ◌≡◌, ◌≢◌, refl, sym, true, some, ◌∷◌, arith, ne→==, eq→==, lt→ltb,
  ge→ltb, le→leb, update, update_self, null, size_mod, ok, Returns, ◌>>=◌,
}
use old_crash_investigator.MemoryPool.{
  Pool, item_size, alloc, dealloc_checked_memory, resize_last, realloc_checked_memory, realloc,
}
use old_crash_investigator.MemoryPool.Blocks.{
  Block, Stack, block, count_at, count_at-le, free, resize_top,
}
use old_crash_investigator.MemoryPool.Layout.{Represents, IsPlaced, Linked-update, count_lem, freed}
use old_crash_investigator.MemoryPool.Alloc.{alloc_room, alloc_full}
use old_crash_investigator.MemoryPool.Dealloc.{
  Frees, dealloc_checked_memory-Frees, inner-Frees, checked-inner, ptr_offset_of_block,
}

-- `Realloc` of null is `Alloc`.
pub realloc-null :
    (count : ℕ) (p : Pool) → realloc null count p ≡ ok (true, (alloc count p).0, (alloc count p).1)
unfolding realloc
realloc-null count p = refl

-- The arguments are the address of a block.
module _ (p : Pool) (bs : Stack) (o n : ℕ) (r : Represents p bs) (placed : IsPlaced p)
    (at : count_at o bs ≡ some n) where
  inside : o + item_size + n ≤ p.offset
  inside = count_at-le o n bs p.offset r.packed at

  holds : (p.items o).count ≡ n
  holds = count_lem p.items o n p.last bs r.linked at

  -- `Realloc` of the address of a block to 0 frees the block, and returns null.
  realloc_zero :
      Returns
        (realloc (p.buffer + o + item_size) 0 p)
        λ x. (x.0 ≡ true) × (x.1 ≡ null) × Frees p (free o bs) x.2
  unfolding realloc
  realloc_zero =
      let (q, runs, frees) =
        dealloc_checked_memory-Frees p bs o n r (omega (arith, placed.in_space)) at in
      (
        (true, null, q),
        rw (
          ptr_offset_of_block p o (omega (arith, placed.in_space, r.fits, inside)),
          ne→== (p.buffer + o + item_size) null (omega arith),
          lt→ltb (o + item_size) p.buffer_size (omega (arith, r.fits, inside)),
          le→leb item_size (o + item_size) (omega arith),
          runs,
        ),
        (refl, refl, frees),
      )

  -- To another count it comes to the inner function.
  realloc_pos :
      (count : ℕ)
      → 0 < count
      → realloc (p.buffer + o + item_size) count p
        ≡ realloc_checked_memory (p.buffer + o + item_size) (o + item_size) count p
  unfolding realloc
  realloc_pos count pos = rw (
    ptr_offset_of_block p o (omega (arith, placed.in_space, r.fits, inside)),
    ne→== (p.buffer + o + item_size) null (omega arith),
    lt→ltb (o + item_size) p.buffer_size (omega (arith, r.fits, inside)),
    le→leb item_size (o + item_size) (omega arith),
    ne→== count 0 (omega arith),
  )

  add_sub : o + item_size - item_size ≡ o
  add_sub = omega arith

  wraps : (o + item_size + n) % size_mod ≡ o + item_size + n
  wraps = omega (arith, inside, r.fits, placed.in_space)

  -- `Realloc` to the count that the block has changes nothing.
  pub realloc_same :
      0 < n → realloc (p.buffer + o + item_size) n p ≡ ok (true, p.buffer + o + item_size, p)
  unfolding realloc_checked_memory
  realloc_same pos = rw (realloc_pos n pos, add_sub, holds, eq→== n n refl)

  -- A block below the newest one is freed first and allocated anew.
  checked_moved :
      (count : ℕ)
      → count ≢ n
      → o + item_size + n < p.offset
      → realloc_checked_memory (p.buffer + o + item_size) (o + item_size) count p
        ≡ dealloc_checked_memory (o + item_size) p
          >>= (λ q. ok (true, (alloc count q).0, (alloc count q).1))
  unfolding realloc_checked_memory
  checked_moved count ne below = rw (
    add_sub,
    holds,
    wraps,
    ne→== count n ne,
    ne→== (o + item_size + n) p.offset (omega arith),
    lt→ltb (o + item_size + n) p.offset below,
  )

  -- The newest block is resized in place.
  checked_last :
      (count : ℕ)
      → count ≢ n
      → count < size_mod
      → o + item_size + n ≡ p.offset
      → realloc_checked_memory (p.buffer + o + item_size) (o + item_size) count p
        ≡ ok (resize_last (p.buffer + o + item_size) o ((o + item_size + count) % size_mod) count p)
  unfolding realloc_checked_memory
  checked_last count ne small top =
      rw (add_sub, holds, wraps, ne→== count n ne, eq→== (o + item_size + n) p.offset top, new_end)
    where
      new_end :
          (o + item_size + n + count + size_mod - n) % size_mod ≡ (o + item_size + count) % size_mod
      new_end = omega (arith, inside, r.fits, placed.in_space)

-- The newest block is `b`.
module _ (p : Pool) (b : Block) (bs : Stack) (r : Represents p (b ∷ bs)) (placed : IsPlaced p) where
  at_top : count_at b.offset (b ∷ bs) ≡ some b.count
  unfolding count_at
  at_top = rw (eq→== b.offset b.offset refl)

  resized-Represents :
      (count : ℕ)
      → b.offset + item_size + count < p.buffer_size
      → Represents
          (record p {
            offset = b.offset + item_size + count;
            items = update p.items b.offset (record (p.items b.offset) { count = count });
          })
          (resize_top count (b ∷ bs))
  unfolding resize_top
  resized-Represents count room = record {
    linked = (
      r.linked.0,
      rw update_self,
      rw update_self r.linked.2,
      rw update_self (
          Linked-update p.items b.offset (record (p.items b.offset) { count = count })
            (p.items b.offset).prev bs b.offset r.packed.1 (omega arith) r.linked.3),
    );
    packed = (refl, r.packed.1);
    first = r.first;
    top = r.top;
    fits = room;
  }

  -- `Realloc` of the address of the newest block to another count but 0 cuts or extends the block
  -- in place where the new end lies in the buffer. Its bytes and those of the other blocks stay.
  pub realloc_last_room :
      (count : ℕ)
      → 0 < count
      → count ≢ b.count
      → b.offset + item_size + count < p.buffer_size
      → Returns (realloc (p.buffer + b.offset + item_size) count p) λ x.
        (x.0 ≡ true)
        × (x.1 ≡ p.buffer + b.offset + item_size)
        × Represents x.2 (resize_top count (b ∷ bs))
        × (x.2.bytes ≡ p.bytes)
  unfolding resize_last
  realloc_last_room count pos ne room = (
    _,
    rw (
      realloc_pos p (b ∷ bs) b.offset b.count r placed at_top count pos,
      checked_last p (b ∷ bs) b.offset b.count r placed at_top count ne
          (omega (arith, placed.in_space)) (sym r.packed.0),
      fits,
      lt→ltb (b.offset + item_size + count) p.buffer_size room,
    ),
    (refl, refl, resized-Represents count room, refl),
  )
    where
      fits : (b.offset + item_size + count) % size_mod ≡ b.offset + item_size + count
      fits = omega (arith, placed.in_space)

  -- Where the new end of the newest block would not lie in the buffer, and is a `size_t`, `Realloc`
  -- of its address returns null, and the block stays as it was.
  pub realloc_last_full :
      (count : ℕ)
      → count ≢ b.count
      → b.offset + item_size + count < size_mod
      → p.buffer_size ≤ b.offset + item_size + count
      → realloc (p.buffer + b.offset + item_size) count p ≡ ok (true, null, p)
  unfolding resize_last
  realloc_last_full count ne small full = rw (
    realloc_pos p (b ∷ bs) b.offset b.count r placed at_top count (omega (arith, r.packed, r.fits)),
    checked_last p (b ∷ bs) b.offset b.count r placed at_top count ne (omega arith)
        (sym r.packed.0),
    fits,
    ge→ltb (b.offset + item_size + count) p.buffer_size full,
  )
    where
      fits : (b.offset + item_size + count) % size_mod ≡ b.offset + item_size + count
      fits = omega arith

  module _ (o n count : ℕ) (inner : b.offset ≢ o) (at : count_at o bs ≡ some n) (pos : 0 < count)
      (ne : count ≢ n) where
    at_inner : count_at o (b ∷ bs) ≡ some n
    unfolding count_at
    at_inner = rw (ne→== b.offset o inner) at

    below : o + item_size + n ≤ b.offset
    below = count_at-le o n bs b.offset r.packed.1 at

    moved : Pool
    moved = record p { items = freed p.items o }

    frees : Frees p (free o (b ∷ bs)) moved
    unfolding moved
    frees = inner-Frees p b bs o r inner

    moved_runs :
        realloc (p.buffer + o + item_size) count p
        ≡ ok (true, (alloc count moved).0, (alloc count moved).1)
    unfolding moved
    moved_runs = rw (
      realloc_pos p (b ∷ bs) o n r placed at_inner count pos,
      checked_moved p (b ∷ bs) o n r placed at_inner count ne (omega (arith, below, r.packed)),
      checked-inner o n p (count_lem p.items o n p.last (b ∷ bs) r.linked at_inner)
          (omega (arith, below, r.packed, r.fits, placed.in_space))
          (omega (arith, below, r.packed)),
    )

    -- `Realloc` of a block below the newest one, to another count but 0 for which there is room,
    -- frees the block and pushes another one on top, at another address. The client's bytes are
    -- where they were: nothing is copied to the new block.
    pub realloc_inner_room :
        count + item_size + p.offset < p.buffer_size
        → Returns (realloc (p.buffer + o + item_size) count p) λ x.
          (x.0 ≡ true)
          × (x.1 ≡ p.buffer + p.offset + item_size)
          × Represents x.2 (block p.offset count true ∷ free o (b ∷ bs))
          × (x.2.bytes ≡ p.bytes)
    unfolding moved
    realloc_inner_room room =
        let (address, pushes) =
          alloc_room count moved (free o (b ∷ bs)) frees.0
            (record { not_null = placed.not_null; in_space = placed.in_space }) room in
        (_, moved_runs, (refl, address, pushes.represents, pushes.bytes))

    -- Where there is no room for the new block, `Realloc` of a block below the newest one returns
    -- null, and yet has freed the old block.
    pub realloc_inner_full :
        count + item_size + p.offset < size_mod
        → p.buffer_size ≤ count + item_size + p.offset
        → Returns
            (realloc (p.buffer + o + item_size) count p)
            λ x. (x.0 ≡ true) × (x.1 ≡ null) × Frees p (free o (b ∷ bs)) x.2
    unfolding moved
    realloc_inner_full small full = (
      (true, null, moved),
      rw (moved_runs, alloc_full count moved small full),
      (refl, refl, frees),
    )
