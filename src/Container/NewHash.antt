-- ===== src/Container/NewHash.antt =====
-- `NewHash` of src/core/analyze/crash_investigator_analyze_leak_only_new_delete_std_hash.cpp: the standard
-- library's `unordered_map` as the list of its entries.
pub mod Promises
use native.Mathlib.Decide.{ℕ_discrete}
use old_crash_investigator.Base.{
  ℕ, ◌+◌, ◌≡◌, ◌≢◌, refl, sym, ap, inl, inr, Bool, true, false, Option, none, some, List, [], ◌∷◌,
  ◌==◌, if◌then◌else◌, update, Run, ok, stop, undefined_behaviour, ◌>>=◌, arith, eq→==, Bool-cases,
  ◌⊎◌, ne→==,
}
use old_crash_investigator.Container.{Keys, Hash, IsHash, one_if}

abbrev pub Entries : Type 0
Entries = List (ℕ × ℕ)

-- The entry with an equal key, after the hash of the key.
unfoldable pub find_equal : (ℕ → ℕ → Run Bool) → ℕ → Entries → Run (Option ℕ)
find_equal equal key [] = ok none
find_equal equal key ((k, v) ∷ es) =
    equal k key >>= λ same. elim same [ true ↦ ok (some k) | false ↦ find_equal equal key es ]

-- `find`, which leaves its second argument alone: no hash is stored there.
unfoldable pub find : Keys → ℕ → Entries → Run (Option ℕ × ℕ)
find keys key es = do code ← keys.hash key; found ← find_equal keys.equal key es; ok (found, code)

unfoldable pub lookup : Entries → ℕ → Option ℕ
lookup [] key = none
lookup ((k, v) ∷ es) key = if key == k then some v else lookup es key

-- `iterator->second`, of an iterator that names an entry.
unfoldable pub second : ℕ → Entries → Run ℕ
second k es = elim (lookup es k) [ some v ↦ ok v | none ↦ stop undefined_behaviour ]

unfoldable pub change : ℕ → ℕ → Entries → Entries
change key w [] = []
change key w ((k, v) ∷ es) =
    let rest = change key w es in if key == k then (k, w) ∷ es else (k, v) ∷ rest

unfoldable pub set_second : ℕ → ℕ → Entries → Run Entries
set_second k w es = elim (lookup es k) [
  | some v ↦ ok (change k w es)
  | none ↦ stop undefined_behaviour
]

-- `AddEntryWithKnownHashC`: `insert` computes the hash again, and adds nothing where an entry has
-- an equal key.
unfoldable pub add_entry_with_known_hash : Keys → (key value hash : ℕ) → Entries → Run Entries
add_entry_with_known_hash keys key value hash es = do
  code ← keys.hash key
  found ← find_equal keys.equal key es
  ok (elim found [ some k ↦ es | none ↦ (key, value) ∷ es ])

unfoldable pub without : ℕ → Entries → Entries
without key [] = []
without key ((k, v) ∷ es) = let rest = without key es in if key == k then es else (k, v) ∷ rest

-- `RemoveEntryRaw`, and `erase`.
unfoldable pub remove : ℕ → Entries → Run Entries
remove k es = elim (lookup es k) [ some v ↦ ok (without k es) | none ↦ stop undefined_behaviour ]

-- The entries that satisfy a test.
unfoldable pub count_where : (ℕ → ℕ → Bool) → Entries → ℕ
count_where test [] = 0
count_where test ((k, v) ∷ es) = one_if (test k v) + count_where test es

abbrev pub new_hash : Hash
new_hash = record {
  Table = Entries;
  empty = [];
  find = find;
  second = second;
  set_second = set_second;
  add_entry_with_known_hash = add_entry_with_known_hash;
  remove = remove;
}

-- No two entries have the same key.
unfoldable pub Distinct : Entries → Type 0
Distinct [] = Unit {0}
Distinct ((k, v) ∷ es) = (lookup es k ≡ none) × Distinct es
