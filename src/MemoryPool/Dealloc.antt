-- ===== src/MemoryPool/Dealloc.antt =====
-- `Dealloc` and `DeallocCheckedMemory` of src/cpputilsm/cpputilsm_memorypool.cpp free a block of
-- the stack.
use old_crash_investigator.Base.{
  ℕ, zero, suc, ◌+◌, ◌-◌, ◌%◌, ◌≤◌, ◌<◌, ◌≡◌, ◌≢◌, refl, ◌∙◌, inl, inr, true, false, some, [], ◌∷◌,
  arith, ◌==◌, eq→==, ==→eq, ==→ne, ne→==, lt→ltb, ge→ltb, le→leb, ◌⊎◌, length, Bool-cases, update,
  ok, Returns, size_mod,
}
use old_crash_investigator.MemoryPool.{
  Pool, item_size, is_ptr, reset, cut_behind, unwind, dealloc_checked_memory, dealloc,
  ptr_offset_of,
}
use old_crash_investigator.MemoryPool.Blocks.{
  Block, Stack, Packed, count_at, mark, drop_free, free, count_at-le, length-le-end, free_top,
  drop_free_used, drop_free_unused,
}
use old_crash_investigator.MemoryPool.Layout.{
  Linked, Represents, IsPlaced, Linked-frame, Linked-mark, Packed-mark, count_lem, freed,
}

-- What a call that frees memory leaves alone.
pub record SameBuffer (p q : Pool) : Type 0 where
  pub buffer : q.buffer ≡ p.buffer
  pub buffer_size : q.buffer_size ≡ p.buffer_size
  pub bytes : q.bytes ≡ p.bytes
  pub offset : q.offset ≤ p.offset

abbrev pub Frees : Pool → Stack → Pool → Type 0
Frees p bs q = Represents q bs × SameBuffer p q

reset-Frees : (p : Pool) → p.offset < p.buffer_size → Frees p [] (reset p)
unfolding reset
reset-Frees p fits = (
  record { linked = refl; packed = refl; first = refl; top = tt; fits = omega arith },
  record { buffer = refl; buffer_size = refl; bytes = refl; offset = omega arith },
)

-- The header of the newest block in use loses its `next`, and the blocks above are gone.
cut_behind-Frees :
    (p : Pool) (b : Block) (bs : Stack) (end : ℕ)
    → Linked p.items (some b.offset) (b ∷ bs)
    → Packed (b ∷ bs) end
    → p.first ≡ some 0
    → b.used ≡ true
    → end ≤ p.offset
    → p.offset < p.buffer_size
    → Frees p (b ∷ bs) (cut_behind b.offset end p)
unfolding cut_behind update
cut_behind-Frees p b bs end l h first used le fits = (
  record {
    linked =
        Linked-frame p.items (cut_behind b.offset end p).items (some b.offset) (b ∷ bs) end h l
          λ a lt. record { count = ground arith; is_in_use = ground arith; prev = ground arith };
    packed = h;
    first = first;
    top = used;
    fits = omega arith;
  },
  record { buffer = refl; buffer_size = refl; bytes = refl; offset = le },
)

module _ (fuel a end : ℕ) (p : Pool) where
  unwind-used :
      (p.items a).is_in_use ≡ true → unwind (suc fuel) (some a) end p ≡ ok (cut_behind a end p)
  unfolding unwind
  unwind-used used = ground arith

  unwind-first :
      (p.items a).is_in_use ≡ false
      → is_ptr a p.first ≡ true
      → unwind (suc fuel) (some a) end p ≡ ok (reset p)
  unfolding unwind
  unwind-first unused first = ground arith

  unwind-inner :
      (p.items a).is_in_use ≡ false
      → is_ptr a p.first ≡ false
      → unwind (suc fuel) (some a) end p ≡ unwind fuel (p.items a).prev a p
  unfolding unwind
  unwind-inner unused inner = ground arith

-- The loop walks to the newest block in use, or to the first item.
unwind-Frees :
    (fuel : ℕ) (p : Pool) (b : Block) (bs : Stack) (end : ℕ)
    → Linked p.items (some b.offset) (b ∷ bs)
    → Packed (b ∷ bs) end
    → p.first ≡ some 0
    → length (b ∷ bs) < fuel
    → end ≤ p.offset
    → p.offset < p.buffer_size
    → Returns (unwind fuel (some b.offset) end p) (Frees p (drop_free (b ∷ bs)))
unfolding is_ptr drop_free
unwind-Frees zero p b bs end l h first enough le fits = absurd (omega arith)
unwind-Frees (suc fuel) p b [] end l h first enough le fits = elim (Bool-cases b.used) [
  | inl used ↦ (
    _,
    unwind-used fuel b.offset end p (l.2 ∙ used),
    rw (drop_free_used (b ∷ []) used) (cut_behind-Frees p b [] end l h first used le fits),
  )
  | inr unused ↦ (
    _,
    unwind-first fuel b.offset end p (l.2 ∙ unused) (ground arith),
    rw (drop_free_unused b [] unused) (reset-Frees p fits),
  )
]
unwind-Frees (suc fuel) p b (c ∷ cs) end l h first enough le fits = elim (Bool-cases b.used) [
  | inl used ↦ (
    _,
    unwind-used fuel b.offset end p (l.2 ∙ used),
    rw (drop_free_used (b ∷ c ∷ cs) used)
        (cut_behind-Frees p b (c ∷ cs) end l h first used le fits),
  )
  | inr unused ↦
      rw
        (
          unwind-inner fuel b.offset end p (l.2 ∙ unused) (ground arith),
          l.3.0,
          drop_free_unused b (c ∷ cs) unused,
        )
        (unwind-Frees fuel p c cs b.offset (refl, l.3.1, l.3.2, l.3.3) h.1 first (omega arith)
          (omega arith) fits)
]

-- The three ways through `DeallocCheckedMemory`, at a header that holds its block's count.
module _ (o n : ℕ) (p : Pool) (holds : (p.items o).count ≡ n)
    (small : o + item_size + n < size_mod) where
  add_sub : o + item_size - item_size ≡ o
  add_sub = omega arith

  wraps : (o + item_size + n) % size_mod ≡ o + item_size + n
  wraps = omega arith

  checked-first :
      o + item_size + n ≡ p.offset
      → is_ptr o p.first ≡ true
      → dealloc_checked_memory (o + item_size) p ≡ ok (reset p)
  unfolding dealloc_checked_memory
  checked-first top first = rw (add_sub, holds, wraps, eq→== _ _ top, first)

  checked-last :
      o + item_size + n ≡ p.offset
      → is_ptr o p.first ≡ false
      → dealloc_checked_memory (o + item_size) p ≡ unwind (suc p.offset) (p.items o).prev o p
  unfolding dealloc_checked_memory
  checked-last top first = rw (add_sub, holds, wraps, eq→== _ _ top, first)

  pub checked-inner :
      o + item_size + n < p.offset
      → dealloc_checked_memory (o + item_size) p
        ≡ ok (record p { items = update p.items o (record (p.items o) { is_in_use = false }) })
  unfolding dealloc_checked_memory
  checked-inner below =
      rw (add_sub, holds, wraps, ne→== (o + item_size + n) p.offset (omega arith), lt→ltb _ _ below)

-- Below the newest block, which is in use, a freed block only loses its mark.
pub inner-Frees :
    (p : Pool) (b : Block) (bs : Stack) (o : ℕ)
    → Represents p (b ∷ bs)
    → b.offset ≢ o
    → Frees p (free o (b ∷ bs)) (record p { items = freed p.items o })
unfolding free mark
inner-Frees p b bs o r ne =
    rw (ne→== b.offset o ne, drop_free_used (b ∷ mark o bs) r.top)
      (
        record {
          linked =
              rw (ne→== b.offset o ne) at
                (Linked-mark p.items o p.last (b ∷ bs) p.offset r.packed r.linked);
          packed = (r.packed.0, Packed-mark o bs b.offset r.packed.1);
          first = r.first;
          top = r.top;
          fits = r.fits;
        },
        record { buffer = refl; buffer_size = refl; bytes = refl; offset = omega arith },
      )

-- The newest block goes, and with it the free blocks below it.
top-Frees :
    (p : Pool) (b : Block) (bs : Stack)
    → Represents p (b ∷ bs)
    → p.buffer_size < size_mod
    → Returns (dealloc_checked_memory (b.offset + item_size) p) (Frees p (drop_free bs))
unfolding is_ptr drop_free
top-Frees p b [] r small = (
  _,
  checked-first b.offset b.count p r.linked.1 (omega (arith, r.packed, r.fits))
      (omega (arith, r.packed)) (rw (r.first, r.packed.1)),
  reset-Frees p r.fits,
)
top-Frees p b (c ∷ cs) r small =
    rw
      (
        checked-last b.offset b.count p r.linked.1 (omega (arith, r.packed, r.fits))
            (omega (arith, r.packed)) inner,
        l.0,
      )
      (unwind-Frees (suc p.offset) p c cs b.offset (refl, l.1, l.2, l.3) r.packed.1 r.first
        (omega (arith, length-le-end (b ∷ c ∷ cs) p.offset r.packed)) (omega (arith, r.packed))
        r.fits)
  where
    l : Linked p.items (p.items b.offset).prev (c ∷ cs)
    l = r.linked.3

    inner : is_ptr b.offset p.first ≡ false
    inner = rw r.first (ne→== b.offset 0 (omega (arith, r.packed)))

-- On the header of a block `DeallocCheckedMemory` returns, and frees that block.
pub dealloc_checked_memory-Frees :
    (p : Pool) (bs : Stack) (o n : ℕ)
    → Represents p bs
    → p.buffer_size < size_mod
    → count_at o bs ≡ some n
    → Returns (dealloc_checked_memory (o + item_size) p) (Frees p (free o bs))
unfolding count_at
dealloc_checked_memory-Frees p [] o n r small e = cc
dealloc_checked_memory-Frees p (b ∷ bs) o n r small e = elim (Bool-cases (b.offset == o)) [
  | inl here ↦ rw (free_top b bs o here, ← ==→eq b.offset o here) (top-Frees p b bs r small)
  | inr there ↦
      let below : o + item_size + n ≤ b.offset =
        count_at-le o n bs b.offset r.packed.1 (rw there at e) in
      (
        _,
        checked-inner o n p (count_lem p.items o n p.last (b ∷ bs) r.linked e)
            (omega (arith, r.packed, r.fits)) (omega (arith, r.packed)),
        inner-Frees p b bs o r (==→ne b.offset o there),
      )
]

pub ptr_offset_of_block :
    (p : Pool) (o : ℕ)
    → p.buffer + o + item_size < size_mod
    → ptr_offset_of (p.buffer + o + item_size) p ≡ o + item_size
unfolding ptr_offset_of
ptr_offset_of_block p o h = omega arith

-- In a pool that stands for a stack of blocks, and whose buffer lies in the address space,
-- `Dealloc` of the address of a block returns, says that the address was the pool's, and frees the
-- block: if blocks above it are in use it is only marked, and otherwise it goes together with the
-- freed blocks at the top.
pub dealloc-Frees :
    (p : Pool) (bs : Stack) (o n : ℕ)
    → Represents p bs
    → IsPlaced p
    → count_at o bs ≡ some n
    → Returns (dealloc (p.buffer + o + item_size) p) λ r. (r.0 ≡ true) × Frees p (free o bs) r.1
unfolding dealloc
dealloc-Frees p bs o n r placed e =
    let inside : o + item_size + n ≤ p.offset = count_at-le o n bs p.offset r.packed e in
    let (q, runs, frees) =
      dealloc_checked_memory-Frees p bs o n r (omega (arith, placed.in_space)) e in
    (
      (true, q),
      rw (
        ptr_offset_of_block p o (omega (arith, placed.in_space, r.fits)),
        lt→ltb (o + item_size) p.buffer_size (omega (arith, r.fits)),
        le→leb item_size (o + item_size) (omega arith),
        runs,
      ),
      (refl, frees),
    )

-- `Dealloc` of an address outside of the pool's buffer says that it was not the pool's, and nothing
-- happens.
dealloc_foreign :
    (p : Pool) (ptr : ℕ)
    → IsPlaced p
    → ptr < size_mod
    → (ptr < p.buffer) ⊎ (p.buffer + p.buffer_size ≤ ptr)
    → dealloc ptr p ≡ ok (false, p)
unfolding dealloc ptr_offset_of
dealloc_foreign p ptr placed small outside = rw (
    ge→ltb ((ptr + size_mod - p.buffer) % size_mod) p.buffer_size
      (omega (arith, placed.in_space, placed.not_null)))
