-- ===== src/MemoryPool/History.antt =====
-- Any sequence of calls of a client of the pool of src/cpputilsm/cpputilsm_memorypool.cpp runs to the
-- end, and its memory never overlaps.
use old_crash_investigator.Base.{
  ℕ, ◌+◌, ◌-◌, ◌≤◌, ◌<◌, ◌≡◌, refl, ◌∙◌, inl, inr, true, false, List, [], ◌∷◌, arith, ◌==◌, ==→ne,
  ne→==, ==→eq, Bool-cases, ltb, Returns, null, size_mod, some, ltb→lt, ltb→ge,
}
use old_crash_investigator.MemoryPool.{Item, Pool, item_size, alloc, init}
use old_crash_investigator.MemoryPool.Blocks.{
  Stack, block, used_at, used_at-free, used_at-push, used_at_top, count_at-used, count_at-le, free,
}
use old_crash_investigator.MemoryPool.Layout.{Represents, IsPlaced, init-Represents}
use old_crash_investigator.MemoryPool.Alloc.{alloc_room, alloc_full}
use old_crash_investigator.MemoryPool.Dealloc.{dealloc-Frees}
use old_crash_investigator.MemoryPool.Client.{
  Ledger, Client, Call, allocs, frees, holds, remove, step, run, ApartFrom, Apart, Inside, IsSafe,
  SmallCalls,
}

-- The memory at the address is a block in use of that count.
record IsBlock (p : Pool) (bs : Stack) (a n : ℕ) : Type 0 where
  pub above : p.buffer + item_size ≤ a
  pub used : used_at (a - item_size - p.buffer) bs ≡ some n

abbrev AllBlocks : Pool → Stack → Ledger → Type 0
AllBlocks p bs [] = Unit {0}
AllBlocks p bs ((a, n) ∷ l) = IsBlock p bs a n × AllBlocks p bs l

record Keeps (buffer size : ℕ) (c : Client) : Type 0 where
  pub stack : Stack
  pub represents : Represents c.pool stack
  pub placed : IsPlaced c.pool
  pub blocks : AllBlocks c.pool stack c.live
  pub apart : Apart c.live
  pub buffer_same : c.pool.buffer ≡ buffer
  pub size_same : c.pool.buffer_size ≡ size

block-le :
    (p : Pool) (bs : Stack) (a n : ℕ)
    → Represents p bs
    → IsBlock p bs a n
    → a + n ≤ p.buffer + p.offset
block-le p bs a n r b = omega (
  arith,
  b.above,
  count_at-le (a - item_size - p.buffer) n bs p.offset r.packed
      (count_at-used (a - item_size - p.buffer) n bs b.used),
)

Inside-blocks :
    (p : Pool) (bs : Stack) (l : Ledger) → Represents p bs → AllBlocks p bs l → Inside p l
Inside-blocks p bs [] r b = tt
Inside-blocks p bs ((a, n) ∷ l) r b = (
  omega (arith, b.0.above),
  omega (arith, block-le p bs a n r b.0, r.fits),
  Inside-blocks p bs l r b.1,
)

ApartFrom-new :
    (p : Pool) (bs : Stack) (n : ℕ) (l : Ledger)
    → Represents p bs
    → AllBlocks p bs l
    → ApartFrom (p.buffer + p.offset + item_size) n l
ApartFrom-new p bs n [] r b = tt
ApartFrom-new p bs n ((a, m) ∷ l) r b =
    (inr (omega (arith, block-le p bs a m r b.0)), ApartFrom-new p bs n l r b.1)

AllBlocks-push :
    (p q : Pool) (bs : Stack) (n : ℕ) (l : Ledger)
    → Represents p bs
    → q.buffer ≡ p.buffer
    → AllBlocks p bs l
    → AllBlocks q (block p.offset n true ∷ bs) l
AllBlocks-push p q bs n [] r same b = tt
AllBlocks-push p q bs n ((a, m) ∷ l) r same b = (
  record {
    above = rw same b.0.above;
    used = rw same (used_at-push (a - item_size - p.buffer) m p.offset n bs r.packed b.0.used);
  },
  AllBlocks-push p q bs n l r same b.1,
)

AllBlocks-free :
    (p q : Pool) (bs : Stack) (k : ℕ) (l : Ledger)
    → p.buffer + item_size ≤ k
    → q.buffer ≡ p.buffer
    → AllBlocks p bs l
    → AllBlocks q (free (k - item_size - p.buffer) bs) (remove k l)
unfolding remove
AllBlocks-free p q bs k [] above same b = tt
AllBlocks-free p q bs k ((a, m) ∷ l) above same b = elim (Bool-cases (a == k)) [
  | inl gone ↦ rw gone (AllBlocks-free p q bs k l above same b.1)
  | inr stays ↦ rw stays (
    record {
      above = rw same b.0.above;
      used = rw same (
          used_at-free (a - item_size - p.buffer) m (k - item_size - p.buffer) bs
            (omega (arith, ==→ne a k stays, b.0.above, above)) b.0.used);
    },
    AllBlocks-free p q bs k l above same b.1,
  )
]

ApartFrom-remove : (a n k : ℕ) (l : Ledger) → ApartFrom a n l → ApartFrom a n (remove k l)
unfolding remove
ApartFrom-remove a n k [] h = tt
ApartFrom-remove a n k ((b, m) ∷ l) h = elim (Bool-cases (b == k)) [
  | inl gone ↦ rw gone (ApartFrom-remove a n k l h.1)
  | inr stays ↦ rw stays (h.0, ApartFrom-remove a n k l h.1)
]

Apart-remove : (k : ℕ) (l : Ledger) → Apart l → Apart (remove k l)
unfolding remove
Apart-remove k [] h = tt
Apart-remove k ((b, m) ∷ l) h = elim (Bool-cases (b == k)) [
  | inl gone ↦ rw gone (Apart-remove k l h.1)
  | inr stays ↦ rw stays (ApartFrom-remove b m k l h.0, Apart-remove k l h.1)
]

IsBlock-held :
    (p : Pool) (bs : Stack) (a : ℕ) (l : Ledger)
    → holds a l ≡ true
    → AllBlocks p bs l
    → (n : ℕ) × IsBlock p bs a n
unfolding holds
IsBlock-held p bs a [] h b = cc
IsBlock-held p bs a ((c, n) ∷ l) h b = elim (Bool-cases (c == a)) [
  | inl here ↦ (n, rw (← ==→eq c a here) b.0)
  | inr there ↦ IsBlock-held p bs a l (rw there at h) b.1
]

module _ (buffer size : ℕ) where
  allocs-Keeps :
      (n : ℕ) (c : Client)
      → n + item_size + size < size_mod
      → Keeps buffer size c
      → Returns (step (allocs n) c) (Keeps buffer size)
  unfolding step
  allocs-Keeps n c small k =
      elim (Bool-cases (ltb (n + item_size + c.pool.offset) c.pool.buffer_size)) [
        | inl room ↦
            let (address, push) =
              alloc_room n c.pool k.stack k.represents k.placed
                (ltb→lt (n + item_size + c.pool.offset) c.pool.buffer_size room) in
            let held : ((alloc n c.pool).0 == null) ≡ false =
              ne→== (alloc n c.pool).0 null (omega (arith, address)) in
            (
              _,
              refl,
              rw held (record {
                stack = block c.pool.offset n true ∷ k.stack;
                represents = push.represents;
                placed = record {
                  not_null = rw push.buffer k.placed.not_null;
                  in_space = rw (push.buffer, push.buffer_size) k.placed.in_space;
                };
                blocks = (
                  record {
                    above = omega (arith, address, push.buffer);
                    used = rw (address, push.buffer, offset) (used_at_top c.pool.offset n k.stack);
                  },
                  AllBlocks-push c.pool (alloc n c.pool).1 k.stack n c.live k.represents push.buffer
                      k.blocks,
                );
                apart = (
                  rw address (ApartFrom-new c.pool k.stack n c.live k.represents k.blocks),
                  k.apart,
                );
                buffer_same = push.buffer ∙ k.buffer_same;
                size_same = push.buffer_size ∙ k.size_same;
              }),
            )
        | inr full ↦ (
          _,
          rw
              (alloc_full n c.pool (omega (arith, k.size_same, k.represents.fits))
                (ltb→ge (n + item_size + c.pool.offset) c.pool.buffer_size full))
              refl,
          k,
        )
      ]
    where
      offset : c.pool.buffer + c.pool.offset + item_size - item_size - c.pool.buffer ≡ c.pool.offset
      offset = omega arith

  frees-Keeps :
      (a : ℕ) (c : Client) → Keeps buffer size c → Returns (step (frees a) c) (Keeps buffer size)
  unfolding step
  frees-Keeps a c k = elim (Bool-cases (holds a c.live)) [
    | inr other ↦ (c, rw other refl, k)
    | inl held ↦
        let (n, b) = IsBlock-held c.pool k.stack a c.live held k.blocks in
        let address : c.pool.buffer + (a - item_size - c.pool.buffer) + item_size ≡ a =
          omega (arith, b.above) in
        let (x, runs, post) =
          dealloc-Frees c.pool k.stack (a - item_size - c.pool.buffer) n k.represents k.placed
            (count_at-used (a - item_size - c.pool.buffer) n k.stack b.used) in
        (
          record { pool = x.1; live = remove a c.live },
          rw (held, rw address at runs),
          record {
            stack = free (a - item_size - c.pool.buffer) k.stack;
            represents = post.1.0;
            placed = record {
              not_null = rw post.1.1.buffer k.placed.not_null;
              in_space = rw (post.1.1.buffer, post.1.1.buffer_size) k.placed.in_space;
            };
            blocks = AllBlocks-free c.pool x.1 k.stack a c.live b.above post.1.1.buffer k.blocks;
            apart = Apart-remove a c.live k.apart;
            buffer_same = post.1.1.buffer ∙ k.buffer_same;
            size_same = post.1.1.buffer_size ∙ k.size_same;
          },
        )
  ]

  run-Keeps :
      (ks : List Call) (c : Client)
      → SmallCalls size ks
      → Keeps buffer size c
      → Returns (run ks c) (Keeps buffer size)
  unfolding run
  run-Keeps [] c small k = (c, refl, k)
  run-Keeps (allocs n ∷ ks) c small k =
      let (d, runs, kept) = allocs-Keeps n c small.0 k in rw runs (run-Keeps ks d small.1 kept)
  run-Keeps (frees a ∷ ks) c small k =
      let (d, runs, kept) = frees-Keeps a c k in rw runs (run-Keeps ks d small kept)

-- A client with a new pool, who frees only what it holds, and asks for counts that do not wrap,
-- runs to the end without a failed assertion or an endless loop. The memory that it then holds lies
-- in the buffer, and no two parts of it overlap.
pub run-IsSafe :
    (buffer size : ℕ) (items : ℕ → Item) (bytes : ℕ → ℕ) (ks : List Call)
    → 0 < buffer
    → 0 < size
    → buffer + size < size_mod
    → SmallCalls size ks
    → Returns (run ks (record { pool = init buffer size items bytes; live = [] })) IsSafe
unfolding init
run-IsSafe buffer size items bytes ks pos room space small =
    let (c, runs, k) = run-Keeps buffer size ks _ small start in
    (
      c,
      runs,
      record {
        apart = k.apart;
        inside = Inside-blocks c.pool k.stack c.live k.represents k.blocks;
      },
    )
  where
    start : Keeps buffer size (record { pool = init buffer size items bytes; live = [] })
    start = record {
      stack = [];
      represents = init-Represents buffer size items bytes room;
      placed = record { not_null = pos; in_space = space };
      blocks = tt;
      apart = tt;
      buffer_same = refl;
      size_same = refl;
    }
