-- ===== src/Analyzer/Operators/Record.antt =====
-- How src/core/basic/crash_investigator_alloc_dealloc_analyze.cpp records a memory that it does not
-- know yet.
use native.Mathlib.Nat.{mod-lt}
use old_crash_investigator.Base.{
  ℕ, arith, ◌%◌, ◌≡◌, ◌≢◌, refl, none, some, ◌∷◌, eq→==, ne→==, ◌==◌, Bool-cases, inl, inr, ok,
  Returns, null, hash_size,
}
use old_crash_investigator.Analyzer.Keeps.{mallocn-traces}
use old_crash_investigator.Analyzer.Monad.Chain.{bind-step}
use old_crash_investigator.Analyzer.Operators.Delete.{Memories, entry_of}
use old_crash_investigator.Analyzer.Operators.Early.{missing-found}
use old_crash_investigator.Analyzer.State.{State, Env, MemoryItem, mallocn, add_memory_item}
use old_crash_investigator.Analyzer.Track.{record_memory_item}
use old_crash_investigator.HashItems.Contents.{Entry, Contains}
use old_crash_investigator.HashItems.Insert.{add_entry_with_known_hash-Adds}
use old_crash_investigator.HashItems.Lookup.{find_in}
use old_crash_investigator.RawAlloc.{Libc}

-- The entry of a memory in an item of the table.
abbrev pub entry_at : (fresh address : ℕ) → MemoryItem → Entry ℕ MemoryItem
entry_at fresh address item = record {
  ptr = fresh;
  key = address;
  value = item;
  index = address % hash_size;
}

pub newest_found :
    (fresh address : ℕ) (item : MemoryItem) (es : Memories)
    → entry_of address (entry_at fresh address item ∷ es) ≡ some (entry_at fresh address item)
unfolding find_in
newest_found fresh address item es =
    rw (eq→== (address % hash_size) (address % hash_size) refl, eq→== address address refl) refl

pub older_found :
    (fresh address key : ℕ) (item : MemoryItem) (es : Memories)
    → address ≢ key
    → entry_of key (entry_at fresh address item ∷ es) ≡ entry_of key es
unfolding find_in
older_found fresh address key item es other =
    let differ = ne→== address key other in
    elim (Bool-cases (address % hash_size == key % hash_size)) [
      | inl same ↦ rw (same, differ) refl
      | inr apart ↦ rw apart refl
    ]

module _ (libc : Libc) (env : Env) where
  -- The memory of an address that the table does not know is recorded, where `mallocn` gives a new item:
  -- the call returns, the entry is in front of the others, and the address leads to it from then on,
  -- and the callbacks are the same.
  pub record_memory_item-new :
      (s v : State libc) (es : Memories) (address fresh : ℕ) (item : MemoryItem)
      → Contains s.memory_items es
      → entry_of address es ≡ none
      → mallocn libc 80 s ≡ ok (fresh, v)
      → fresh ≢ null
      → s.memory_items.items fresh ≡ none
      → Returns (record_memory_item libc env address item s) λ r.
        Contains r.1.memory_items (entry_at fresh address item ∷ es)
        × (entry_of address (entry_at fresh address item ∷ es) ≡ some (entry_at fresh address item))
        × (r.1.clbk_data ≡ s.clbk_data)
  unfolding record_memory_item add_memory_item
  record_memory_item-new s v es address fresh item c missing allocates real free =
      let k = (mallocn-traces libc 80 s v fresh allocates).0 in
      let (t, runs, adds) =
        add_entry_with_known_hash-Adds fresh address (address % hash_size) item v.memory_items es
          real (mod-lt address (omega arith)) (rw k.memory_items free) (rw k.memory_items c) in
      (
        (tt, record v { memory_items = t }),
        bind-step _ (missing-found libc env s es address c missing)
            (bind-step _ allocates (rw runs refl)),
        (adds.contains, newest_found fresh address item es, k.clbk_data),
      )
