-- ===== src/Tests/Pools.antt =====
-- A memory pool of src/cpputilsm/cpputilsm_memorypool.cpp with two blocks, of 10 and of 20 bytes.
use old_crash_investigator.Base.{
  ok, ℕ, ◌-◌, ◌≡◌, refl, true, false, none, some, [], ◌∷◌, ◌==◌, if◌then◌else◌, ◌<◌, arith, Returns,
  null, size_mod,
}
use old_crash_investigator.MemoryPool.{Item, Pool, init, alloc, calloc, dealloc, realloc}
use old_crash_investigator.MemoryPool.Alloc.{Pushes, Zeroes, alloc_room, calloc_room}
use old_crash_investigator.MemoryPool.Blocks.{Stack, block, free, count_at, resize_top}
use old_crash_investigator.MemoryPool.Dealloc.{Frees, dealloc-Frees}
use old_crash_investigator.MemoryPool.Client.{allocs, frees, run, IsSafe}
use old_crash_investigator.MemoryPool.History.{run-IsSafe}
use old_crash_investigator.MemoryPool.Layout.{Represents, IsPlaced}
use old_crash_investigator.MemoryPool.Overflow.{alloc_wraps}
use old_crash_investigator.MemoryPool.Realloc.{
  realloc_last_full, realloc_last_room, realloc_inner_room, realloc_inner_full,
}

abbrev no_items : ℕ → Item
no_items _ = record { count = 0; is_in_use = false; prev = none; next = none }

abbrev two_items : ℕ → Item
two_items a =
    if a == 0
    then record { count = 10; is_in_use = true; prev = none; next = some 42 }
    else record { count = 20; is_in_use = true; prev = some 0; next = none }

abbrev pub two_blocks : Pool
two_blocks = record {
  buffer = 1000;
  buffer_size = 500;
  offset = 94;
  first = some 0;
  last = some 42;
  items = two_items;
  bytes = λ _. 7;
}

abbrev pub two_stack : Stack
two_stack = block 42 20 true ∷ block 0 10 true ∷ []

pub two_blocks-Represents : Represents two_blocks two_stack
two_blocks-Represents = record {
  linked = (refl, refl, refl, (refl, refl, refl, refl));
  packed = (refl, (refl, refl));
  first = refl;
  top = refl;
  fits = omega arith;
}

pub two_blocks-IsPlaced : IsPlaced two_blocks
two_blocks-IsPlaced = record { not_null = omega arith; in_space = omega arith }

pub old_block : count_at 0 two_stack ≡ some 10
unfolding count_at
old_block = refl

run-IsSafe_example :
    Returns
      (run
        (allocs 10 ∷ allocs 20 ∷ frees 1032 ∷ allocs 4 ∷ [])
        (record { pool = init 1000 500 no_items (λ _. 7); live = [] }))
      IsSafe
run-IsSafe_example =
    run-IsSafe 1000 500 no_items (λ _. 7) (allocs 10 ∷ allocs 20 ∷ frees 1032 ∷ allocs 4 ∷ [])
      (omega arith) (omega arith) (omega arith) (omega arith, (omega arith, (omega arith, tt)))

dealloc-Frees_example :
    Returns (dealloc 1032 two_blocks) λ r. (r.0 ≡ true) × Frees two_blocks (free 0 two_stack) r.1
dealloc-Frees_example =
    dealloc-Frees two_blocks two_stack 0 10 two_blocks-Represents two_blocks-IsPlaced old_block

alloc_room_example :
    ((alloc 8 two_blocks).0 ≡ 1126) × Pushes two_blocks two_stack 8 (alloc 8 two_blocks).1
alloc_room_example =
    alloc_room 8 two_blocks two_stack two_blocks-Represents two_blocks-IsPlaced (omega arith)

calloc_room_example :
    ((calloc 4 5 two_blocks).0 ≡ 1126)
    × Represents (calloc 4 5 two_blocks).1 (block 94 20 true ∷ two_stack)
    × Zeroes two_blocks 20 (calloc 4 5 two_blocks).1
calloc_room_example =
    calloc_room 4 5 two_blocks two_stack two_blocks-Represents two_blocks-IsPlaced (omega arith)

alloc_wraps_example :
    ((alloc (size_mod - 10) two_blocks).0 ≡ 1126)
    × (500 < size_mod - 10)
    × ((alloc (size_mod - 10) two_blocks).1.offset ≡ 116)
    × (((alloc (size_mod - 10) two_blocks).1.items 94).count ≡ size_mod - 10)
alloc_wraps_example =
    alloc_wraps (size_mod - 10) two_blocks two_blocks-IsPlaced (omega arith) (omega arith)
      (omega arith) (omega arith)

realloc_last_room_example : Returns (realloc 1074 100 two_blocks) λ x.
    (x.0 ≡ true)
    × (x.1 ≡ 1074)
    × Represents x.2 (resize_top 100 two_stack)
    × (x.2.bytes ≡ two_blocks.bytes)
realloc_last_room_example =
    realloc_last_room two_blocks (block 42 20 true) (block 0 10 true ∷ []) two_blocks-Represents
      two_blocks-IsPlaced 100 (omega arith) (omega arith) (omega arith)

realloc_last_full_example : realloc 1074 450 two_blocks ≡ ok (true, null, two_blocks)
realloc_last_full_example =
    realloc_last_full two_blocks (block 42 20 true) (block 0 10 true ∷ []) two_blocks-Represents
      two_blocks-IsPlaced 450 (omega arith) (omega arith) (omega arith)

inner_block : count_at 0 (block 0 10 true ∷ []) ≡ some 10
unfolding count_at
inner_block = refl

realloc_inner_room_example : Returns (realloc 1032 30 two_blocks) λ x.
    (x.0 ≡ true)
    × (x.1 ≡ 1126)
    × Represents x.2 (block 94 30 true ∷ free 0 two_stack)
    × (x.2.bytes ≡ two_blocks.bytes)
realloc_inner_room_example =
    realloc_inner_room two_blocks (block 42 20 true) (block 0 10 true ∷ []) two_blocks-Represents
      two_blocks-IsPlaced 0 10 30 (omega arith) inner_block (omega arith) (omega arith)
      (omega arith)

realloc_inner_full_example :
    Returns
      (realloc 1032 400 two_blocks)
      λ x. (x.0 ≡ true) × (x.1 ≡ null) × Frees two_blocks (free 0 two_stack) x.2
realloc_inner_full_example =
    realloc_inner_full two_blocks (block 42 20 true) (block 0 10 true ∷ []) two_blocks-Represents
      two_blocks-IsPlaced 0 10 400 (omega arith) inner_block (omega arith) (omega arith)
      (omega arith) (omega arith)
