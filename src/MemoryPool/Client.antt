-- ===== src/MemoryPool/Client.antt =====
-- A client of the pool of src/cpputilsm/cpputilsm_memorypool.cpp, with a ledger of the memory that it
-- holds.
use old_crash_investigator.Base.{
  ℕ, ◌+◌, ◌≤◌, ◌<◌, ◌⊎◌, Bool, false, List, [], ◌∷◌, ◌==◌, if◌then◌else◌, ◌||◌, Run, ok, ◌>>=◌,
  null, size_mod,
}
use old_crash_investigator.MemoryPool.{Pool, item_size, alloc, dealloc}

-- An address with the count that was asked for.
abbrev pub Ledger : Type 0
Ledger = List (ℕ × ℕ)

pub record Client : Type 0 where
  pub pool : Pool
  pub live : Ledger

pub data Call : Type 0 where
  allocs frees : ℕ → Call

unfoldable pub holds : ℕ → Ledger → Bool
holds a [] = false
holds a ((b, n) ∷ l) = (b == a) || holds a l

unfoldable pub remove : ℕ → Ledger → Ledger
remove a [] = []
remove a ((b, n) ∷ l) = if b == a then remove a l else (b, n) ∷ remove a l

-- The client frees what it holds, and nothing else.
unfoldable pub step : Call → Client → Run Client
unfolding holds remove
step (allocs n) c =
    let (a, p) = alloc n c.pool in
    ok (record { pool = p; live = if a == null then c.live else (a, n) ∷ c.live })
step (frees a) c =
    if holds a c.live
    then (do (known, p) ← dealloc a c.pool; ok (record { pool = p; live = remove a c.live }))
    else ok c

unfoldable pub run : List Call → Client → Run Client
run [] c = ok c
run (k ∷ ks) c = step k c >>= run ks

-- The bytes of one part do not meet those of another, nor its header.
abbrev pub ApartFrom : ℕ → ℕ → Ledger → Type 0
ApartFrom a n [] = Unit {0}
ApartFrom a n ((b, m) ∷ l) = ((a + n ≤ b) ⊎ (b + m ≤ a)) × ApartFrom a n l

abbrev pub Apart : Ledger → Type 0
Apart [] = Unit {0}
Apart ((a, n) ∷ l) = ApartFrom a n l × Apart l

abbrev pub Inside : Pool → Ledger → Type 0
Inside p [] = Unit {0}
Inside p ((a, n) ∷ l) = (p.buffer < a) × (a + n ≤ p.buffer + p.buffer_size) × Inside p l

pub record IsSafe (c : Client) : Type 0 where
  pub apart : Apart c.live
  pub inside : Inside c.pool c.live

-- The counts that are asked for do not make the pool's sums wrap.
abbrev pub SmallCalls : ℕ → List Call → Type 0
SmallCalls size [] = Unit {0}
SmallCalls size (allocs n ∷ ks) = (n + item_size + size < size_mod) × SmallCalls size ks
SmallCalls size (frees a ∷ ks) = SmallCalls size ks
