-- ===== src/MemoryPool/Blocks.antt =====
-- What the memory pool of src/cpputilsm/cpputilsm_memorypool.cpp stands for: a stack of blocks,
-- the newest first. A block that is freed below the top only loses its mark; it goes when the
-- blocks above it have gone.
use old_crash_investigator.Base.{
  ℕ, ◌+◌, ◌⊎◌, ◌≢◌, ◌≤◌, ◌≡◌, refl, Bool, true, false, Option, none, some, List, [], ◌∷◌, arith,
  ◌==◌, if◌then◌else◌, length,
}
use old_crash_investigator.MemoryPool.{item_size}

pub record Block : Type 0 where
  pub offset : ℕ
  pub count : ℕ
  pub used : Bool

abbrev pub Stack : Type 0
Stack = List Block

abbrev pub block : ℕ → ℕ → Bool → Block
block offset count used = record { offset = offset; count = count; used = used }

-- The count of the block whose header lies at the offset.
unfoldable pub count_at : ℕ → Stack → Option ℕ
count_at o [] = none
count_at o (b ∷ bs) = if b.offset == o then some b.count else count_at o bs

-- The block at the offset is no longer in use.
unfoldable pub mark : ℕ → Stack → Stack
mark o [] = []
mark o (b ∷ bs) = if b.offset == o then record b { used = false } ∷ bs else b ∷ mark o bs

-- The blocks above the newest one in use are gone.
unfoldable pub drop_free : Stack → Stack
drop_free [] = []
drop_free (b ∷ bs) = if b.used then b ∷ bs else drop_free bs

unfoldable pub free : ℕ → Stack → Stack
unfolding mark drop_free
free o bs = drop_free (mark o bs)

-- The newest block is cut or extended.
unfoldable pub resize_top : ℕ → Stack → Stack
resize_top count [] = []
resize_top count (b ∷ bs) = record b { count = count } ∷ bs

-- The blocks lie one behind the other from the buffer's start, and end at the offset.
abbrev pub Packed : Stack → ℕ → Type 0
Packed [] end = end ≡ 0
Packed (b ∷ bs) end = (end ≡ b.offset + item_size + b.count) × Packed bs b.offset

abbrev pub TopUsed : Stack → Type 0
TopUsed [] = Unit {0}
TopUsed (b ∷ bs) = b.used ≡ true

abbrev pub first_of : Stack → Option ℕ
first_of [] = none
first_of (b ∷ bs) = some 0

abbrev pub last_of : Stack → Option ℕ
last_of [] = none
last_of (b ∷ bs) = some b.offset

pub length-le-end : (bs : Stack) (end : ℕ) → Packed bs end → length bs ≤ end
length-le-end [] end h = omega arith
length-le-end (b ∷ bs) end h = omega (arith, length-le-end bs b.offset h.1)

-- A block lies whole below the end.
pub count_at-le :
    (o n : ℕ) (bs : Stack) (end : ℕ)
    → Packed bs end
    → count_at o bs ≡ some n
    → o + item_size + n ≤ end
unfolding count_at
count_at-le o n [] end h e = ground arith
count_at-le o n (b ∷ bs) end h e = ground (arith, count_at-le o n bs b.offset h.1)

pub TopUsed-drop_free : (bs : Stack) → TopUsed (drop_free bs)
unfolding drop_free
TopUsed-drop_free [] = tt
TopUsed-drop_free (b ∷ bs) = ground (arith, TopUsed-drop_free bs)

pub drop_free_used : (bs : Stack) → TopUsed bs → drop_free bs ≡ bs
unfolding drop_free
drop_free_used [] h = refl
drop_free_used (b ∷ bs) h = rw h

pub drop_free_unused : (b : Block) (bs : Stack) → b.used ≡ false → drop_free (b ∷ bs) ≡ drop_free bs
unfolding drop_free
drop_free_unused b bs h = simp h

pub free_top :
    (b : Block) (bs : Stack) (o : ℕ) → b.offset == o ≡ true → free o (b ∷ bs) ≡ drop_free bs
unfolding free mark
free_top b bs o h = simp (h, drop_free_unused)

-- The count of the block in use whose header lies at the offset.
unfoldable pub used_at : ℕ → Stack → Option ℕ
used_at o [] = none
used_at o (b ∷ bs) = if b.offset == o then (if b.used then some b.count else none) else used_at o bs

module _ (o n : ℕ) where
  pub count_at-used : (bs : Stack) → used_at o bs ≡ some n → count_at o bs ≡ some n
  unfolding used_at count_at
  count_at-used [] e = cc
  count_at-used (b ∷ bs) e = ground (arith, count_at-used bs)

  used_at-drop_free : (bs : Stack) → used_at o bs ≡ some n → used_at o (drop_free bs) ≡ some n
  unfolding used_at drop_free
  used_at-drop_free [] e = e
  used_at-drop_free (b ∷ bs) e = ground (arith, used_at-drop_free bs)

  used_at-mark :
      (k : ℕ) (bs : Stack) → o ≢ k → used_at o bs ≡ some n → used_at o (mark k bs) ≡ some n
  unfolding used_at mark
  used_at-mark k [] ne e = e
  used_at-mark k (b ∷ bs) ne e = ground (arith, used_at-mark k bs)

  -- To free another block leaves a block in use.
  pub used_at-free :
      (k : ℕ) (bs : Stack) → o ≢ k → used_at o bs ≡ some n → used_at o (free k bs) ≡ some n
  unfolding free
  used_at-free k bs ne e = used_at-drop_free (mark k bs) (used_at-mark k bs ne e)

  -- A block that is pushed behind the others leaves them.
  pub used_at-push :
      (end count : ℕ) (bs : Stack)
      → Packed bs end
      → used_at o bs ≡ some n
      → used_at o (block end count true ∷ bs) ≡ some n
  unfolding used_at
  used_at-push end count bs h e = ground (arith, count_at-le o n bs end h (count_at-used bs e))

  -- Two blocks have no byte in common, headers included.
  pub blocks_apart :
      (k m : ℕ) (bs : Stack) (end : ℕ)
      → Packed bs end
      → count_at o bs ≡ some n
      → count_at k bs ≡ some m
      → o ≢ k
      → (o + item_size + n ≤ k) ⊎ (k + item_size + m ≤ o)
  unfolding count_at
  blocks_apart k m [] end h e f ne = cc
  blocks_apart k m (b ∷ bs) end h e f ne = ground (
    arith,
    count_at-le o n bs b.offset h.1,
    count_at-le k m bs b.offset h.1,
    blocks_apart k m bs b.offset h.1,
  )

pub used_at_top :
    (end count : ℕ) (bs : Stack) → used_at end (block end count true ∷ bs) ≡ some count
unfolding used_at
used_at_top end count bs = ground arith
