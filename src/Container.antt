-- ===== src/Container.antt =====
-- The hash tables of the analysers that look for leaks alone: what src/core/analyze asks of
-- `HashMem` and `HashStack`. A key and a value are numbers: an address, an address or a counter.
--
-- An iterator names its entry by the key that is stored in it; `none` is `end()`. The memory of a
-- table's entries is not modelled: an addition succeeds.
pub mod NewHash
use old_crash_investigator.Base.{
  ℕ, ◌+◌, ◌<◌, ◌≡◌, ◌≢◌, ◌⊎◌, Bool, true, false, Option, none, some, if◌then◌else◌, update, Run, ok,
}

-- The template's `Hash` and `KeyEqual`, which may read memory.
pub record Keys : Type 0 where
  pub hash : ℕ → Run ℕ
  pub equal : ℕ → ℕ → Run Bool

-- The methods: `find` also gives the hash of the key.
pub record Hash : Type 1 where
  pub Table : Type 0
  pub empty : Table
  pub find : Keys → ℕ → Table → Run (Option ℕ × ℕ)
  pub second : ℕ → Table → Run ℕ
  pub set_second : ℕ → ℕ → Table → Run Table
  pub add_entry_with_known_hash : Keys → (key value hash : ℕ) → Table → Run Table
  pub remove : ℕ → Table → Run Table

abbrev pub one_if : Bool → ℕ
one_if b = if b then 1 else 0

-- What a table promises: it is a partial map from keys to values, of which the entries that satisfy a
-- test can be counted.
pub record IsHash (h : Hash) : Type 1 where
  pub IsSound : h.Table → Type 0
  pub value_at : h.Table → ℕ → Option ℕ
  pub count_where : (ℕ → ℕ → Bool) → h.Table → ℕ
  pub empty-IsSound : IsSound h.empty
  pub value_at-empty : (k : ℕ) → value_at h.empty k ≡ none
  pub find_absent :
      (keys : Keys) (key code : ℕ) (t : h.Table)
      → IsSound t
      → keys.hash key ≡ ok code
      → ((k v : ℕ) → value_at t k ≡ some v → keys.equal k key ≡ ok false)
      → h.find keys key t ≡ ok (none, code)
  pub find_present :
      (keys : Keys) (key code k v : ℕ) (t : h.Table)
      → IsSound t
      → keys.hash key ≡ ok code
      → keys.hash k ≡ ok code
      → value_at t k ≡ some v
      → keys.equal k key ≡ ok true
      → ((l w : ℕ) → value_at t l ≡ some w → l ≢ k → keys.equal l key ≡ ok false)
      → h.find keys key t ≡ ok (some k, code)
  pub second-value_at :
      (k v : ℕ) (t : h.Table) → IsSound t → value_at t k ≡ some v → h.second k t ≡ ok v
  pub set_second-value_at :
      (k v w : ℕ) (t : h.Table)
      → IsSound t
      → value_at t k ≡ some v
      → (u : h.Table) × (h.set_second k w t ≡ ok u)
        × IsSound u
        × ((l : ℕ) → value_at u l ≡ update (value_at t) k (some w) l)
  pub add-value_at :
      (keys : Keys) (k v code : ℕ) (t : h.Table)
      → IsSound t
      → keys.hash k ≡ ok code
      → value_at t k ≡ none
      → ((l w : ℕ) → value_at t l ≡ some w → keys.equal l k ≡ ok false)
      → (u : h.Table) × (h.add_entry_with_known_hash keys k v code t ≡ ok u)
        × IsSound u
        × ((l : ℕ) → value_at u l ≡ update (value_at t) k (some v) l)
        × ((test : ℕ → ℕ → Bool) → count_where test u ≡ one_if (test k v) + count_where test t)
  pub remove-value_at :
      (k v : ℕ) (t : h.Table)
      → IsSound t
      → value_at t k ≡ some v
      → (u : h.Table) × (h.remove k t ≡ ok u)
        × IsSound u
        × ((l : ℕ) → value_at u l ≡ update (value_at t) k none l)
        × ((test : ℕ → ℕ → Bool) → count_where test t ≡ one_if (test k v) + count_where test u)
  pub count_where_ext :
      (test test' : ℕ → ℕ → Bool) (t : h.Table)
      → IsSound t
      → ((k v : ℕ) → value_at t k ≡ some v → test k v ≡ test' k v)
      → count_where test t ≡ count_where test' t
  pub count_where_none :
      (test : ℕ → ℕ → Bool) (t : h.Table)
      → IsSound t
      → ((k v : ℕ) → value_at t k ≡ some v → test k v ≡ false)
      → count_where test t ≡ 0
  pub find_where :
      (test : ℕ → ℕ → Bool) (t : h.Table)
      → IsSound t
      → ((k : ℕ) × (v : ℕ) × (value_at t k ≡ some v) × (test k v ≡ true))
        ⊎ ((k v : ℕ) → value_at t k ≡ some v → test k v ≡ false)
