-- ===== src/MemoryPool/Alloc.antt =====
-- `Alloc` and `Calloc` of src/cpputilsm/cpputilsm_memorypool.cpp push a block.
use old_crash_investigator.Base.{
  ℕ, ◌+◌, ◌-◌, ◌*◌, ◌%◌, ◌≤◌, ◌<◌, ◌≡◌, ◌⊎◌, refl, true, some, [], ◌∷◌, arith, ne→==, lt→ltb,
  ge→ltb, update, null, size_mod,
}
use old_crash_investigator.MemoryPool.{
  Pool, item_size, link_last, append_item, alloc, calloc, clear,
}
use old_crash_investigator.MemoryPool.Blocks.{Stack, block}
use old_crash_investigator.MemoryPool.Layout.{Linked, Represents, IsPlaced, Linked-frame, last_lem}

-- The header written at the end of the blocks heads them, whatever becomes of the `next` pointers.
append_item-Linked :
    (count : ℕ) (p : Pool) (bs : Stack)
    → Represents p bs
    → Linked (append_item count p).items (some p.offset) (block p.offset count true ∷ bs)
unfolding append_item link_last update
append_item-Linked count p [] r = (refl, ground arith, ground arith, ground (arith, r.linked))
append_item-Linked count p (b ∷ bs) r = (
  refl,
  ground (arith, last_lem p (b ∷ bs) r),
  ground (arith, last_lem p (b ∷ bs) r),
  rw head (
      Linked-frame p.items (append_item count p).items p.last (b ∷ bs) p.offset r.packed r.linked
        λ a lt. record {
          count = ground (arith, last_lem p (b ∷ bs) r);
          is_in_use = ground (arith, last_lem p (b ∷ bs) r);
          prev = ground (arith, last_lem p (b ∷ bs) r);
        }),
)
  where
    head : ((append_item count p).items p.offset).prev ≡ p.last
    head = ground (arith, last_lem p (b ∷ bs) r)

append_item-first :
    (count : ℕ) (p : Pool) (bs : Stack) → Represents p bs → (append_item count p).first ≡ some 0
unfolding append_item link_last
append_item-first count p [] r = rw (r.linked, r.packed)
append_item-first count p (b ∷ bs) r = rw (last_lem p (b ∷ bs) r) r.first

append_item-last : (count : ℕ) (p : Pool) → (append_item count p).last ≡ some p.offset
unfolding append_item
append_item-last count p = refl

-- What the pool looks like when a block has been pushed.
pub record Pushes (p : Pool) (bs : Stack) (count : ℕ) (q : Pool) : Type 0 where
  pub represents : Represents q (block p.offset count true ∷ bs)
  pub buffer : q.buffer ≡ p.buffer
  pub buffer_size : q.buffer_size ≡ p.buffer_size
  pub bytes : q.bytes ≡ p.bytes

abbrev pushed : ℕ → Pool → Pool
pushed count p = record (append_item count p) {
  offset = (p.offset + (count + item_size) % size_mod) % size_mod;
}

module _ (count : ℕ) (p : Pool) where
  append_item_same :
      ((append_item count p).buffer ≡ p.buffer)
      × ((append_item count p).buffer_size ≡ p.buffer_size)
      × ((append_item count p).bytes ≡ p.bytes)
  unfolding append_item link_last
  append_item_same = ground arith

  module _ (bs : Stack) (r : Represents p bs) (placed : IsPlaced p) where
    pushed-Pushes :
        count + item_size + p.offset < p.buffer_size → Pushes p bs count (pushed count p)
    pushed-Pushes room = record {
      represents = record {
        linked = rw (append_item-last count p) (append_item-Linked count p bs r);
        packed = (omega (arith, placed.in_space), r.packed);
        first = append_item-first count p bs r;
        top = refl;
        fits = rw append_item_same.1 (omega (arith, placed.in_space));
      };
      buffer = append_item_same.0;
      buffer_size = append_item_same.1;
      bytes = append_item_same.2;
    }

    -- In a pool that stands for a stack of blocks, and whose buffer lies in the address space,
    -- `Alloc` pushes a block in use at the end of the blocks where there is room, and returns the
    -- address behind its header.
    pub alloc_room :
        count + item_size + p.offset < p.buffer_size
        → ((alloc count p).0 ≡ p.buffer + p.offset + item_size)
          × Pushes p bs count (alloc count p).1
    unfolding alloc
    alloc_room room =
        rw
          (lt→ltb ((((count + item_size) % size_mod) + p.offset) % size_mod) p.buffer_size
            (omega (arith, placed.in_space)))
          (refl, pushed-Pushes room)

  -- Where there is no room for the header and the bytes, and the sum of the sizes is a `size_t`,
  -- `Alloc` returns null and does nothing.
  pub alloc_full :
      count + item_size + p.offset < size_mod
      → p.buffer_size ≤ count + item_size + p.offset
      → alloc count p ≡ (null, p)
  unfolding alloc
  alloc_full small full = rw (
      ge→ltb ((((count + item_size) % size_mod) + p.offset) % size_mod) p.buffer_size (omega arith))

clear_inside : (o n a : ℕ) (bytes : ℕ → ℕ) → o ≤ a → a < o + n → clear o n bytes a ≡ 0
unfolding clear
clear_inside o n a bytes h k = ground arith

clear_outside : (o n a : ℕ) (bytes : ℕ → ℕ) → (a < o) ⊎ (o + n ≤ a) → clear o n bytes a ≡ bytes a
unfolding clear
clear_outside o n a bytes h = ground arith

-- The new block holds zeros, and all else what it held before.
pub record Zeroes (p : Pool) (count : ℕ) (q : Pool) : Type 0 where
  pub zero_inside :
      (a : ℕ) → p.offset + item_size ≤ a → a < p.offset + item_size + count → q.bytes a ≡ 0
  pub same_outside :
      (a : ℕ)
      → (a < p.offset + item_size) ⊎ (p.offset + item_size + count ≤ a)
      → q.bytes a ≡ p.bytes a

-- In a pool that stands for a stack of blocks, and whose buffer lies in the address space, `Calloc`
-- pushes a block of as many zero bytes as the product says, where the product is a `size_t` and
-- there is room. All other bytes stay.
pub calloc_room :
    (nmemb size : ℕ) (p : Pool) (bs : Stack)
    → Represents p bs
    → IsPlaced p
    → nmemb * size + item_size + p.offset < p.buffer_size
    → ((calloc nmemb size p).0 ≡ p.buffer + p.offset + item_size)
      × Represents (calloc nmemb size p).1 (block p.offset (nmemb * size) true ∷ bs)
      × Zeroes p (nmemb * size) (calloc nmemb size p).1
unfolding calloc
calloc_room nmemb size p bs r placed room =
    rw (wraps, a.0, ne→== (p.buffer + p.offset + item_size) null (omega arith), a.1.buffer)
      (
        refl,
        record {
          linked = a.1.represents.linked;
          packed = a.1.represents.packed;
          first = a.1.represents.first;
          top = refl;
          fits = a.1.represents.fits;
        },
        record {
          zero_inside =
              λ x h k. rw start (clear_inside (p.offset + item_size) (nmemb * size) x _ h k);
          same_outside = λ x h.
              rw (start, clear_outside (p.offset + item_size) (nmemb * size) x _ h, a.1.bytes);
        },
      )
  where
    wraps : (nmemb * size) % size_mod ≡ nmemb * size
    wraps = omega (arith, placed.in_space)

    start : p.buffer + p.offset + item_size - p.buffer ≡ p.offset + item_size
    start = omega arith

    a :
        ((alloc (nmemb * size) p).0 ≡ p.buffer + p.offset + item_size)
        × Pushes p bs (nmemb * size) (alloc (nmemb * size) p).1
    a = alloc_room (nmemb * size) p bs r placed room
