-- ===== src/HashItems.antt =====
-- cpputilsm::HashItemsByPtr: src/include/cpputilsm/hashitemsbyptr.hpp and
-- src/include/cpputilsm/hashitemsbyptr.impl.hpp.
--
-- A table of 4096 buckets on an explicit heap: `items` holds the item at an address, `none` where
-- no item of the table lives, and an access through such an address is undefined behaviour. The
-- address that the template's `allocFn` returns is an argument, `fresh`. `added` counts the calls
-- of `AddEntryWithKnownHash`: it bounds the rounds of the loops and has no other use.
pub mod Contents
pub mod Insert
pub mod Lookup
pub mod Assign
pub mod Removal
pub mod Destroy
use old_crash_investigator.Base.{
  ℕ, zero, suc, ◌+◌, ◌%◌, Bool, true, false, Option, none, some, ◌==◌, leb, if◌then◌else◌, update,
  Run, ok, stop, bad_alloc, undefined_behaviour, out_of_fuel, ◌>>=◌, null, hash_size,
}

-- `HashItemsByPtr::Item`.
pub record Item {ℓ} (K V : Type ℓ) : Type ℓ where
  pub first : K
  pub second : V
  pub index : ℕ
  pub prev : ℕ
  pub next : ℕ
  pub prev_in_the_list : ℕ
  pub next_in_the_list : ℕ

pub record Table {ℓ} (K V : Type ℓ) : Type ℓ where
  pub buckets : ℕ → ℕ
  pub first_item : ℕ
  pub items : ℕ → Option (Item K V)
  pub added : ℕ

-- The constructor.
unfoldable pub empty {ℓ} : {K V : Type ℓ} → Table K V
empty = record { buckets = λ _. null; first_item = null; items = λ _. none; added = 0 }

module _ {ℓ} {K V : Type ℓ} where
  unfoldable pub load : ℕ → Table K V → Run (Item K V)
  load p t = elim (t.items p) [ none ↦ stop undefined_behaviour | some item ↦ ok item ]

  unfoldable pub modify : ℕ → (Item K V → Item K V) → Table K V → Run (Table K V)
  unfolding load
  modify p f t = do item ← load p t; ok (record t { items = update t.items p (some (f item)) })

  -- `if(p){…}` around a write through `p`.
  unfoldable pub modify_unless_null : ℕ → (Item K V → Item K V) → Table K V → Run (Table K V)
  modify_unless_null p f t = if p == null then ok t else modify p f t

  abbrev pub with_prev : ℕ → Item K V → Item K V
  with_prev p item = record item { prev = p }

  -- `AddEntryWithKnownHash`. `m_ppItems` has `hash_size` buckets: an index behind them is out of its
  -- bounds.
  unfoldable pub add_entry_with_known_hash :
      (fresh : ℕ) → K → (hash : ℕ) → V → Table K V → Run (Table K V)
  add_entry_with_known_hash fresh key hash data' t =
      if fresh == null
      then stop bad_alloc
      else if leb hash_size hash
      then stop undefined_behaviour
      else do
        let item : Item K V = record {
          first = key;
          second = data';
          index = hash;
          prev = null;
          next = t.buckets hash;
          prev_in_the_list = null;
          next_in_the_list = t.first_item;
        }
        let made = record t { items = update t.items fresh (some item); added = suc t.added }
        linked ← modify_unless_null (t.buckets hash) (with_prev fresh) made
        let chained = record linked { buckets = update linked.buckets hash fresh }
        listed ← modify_unless_null t.first_item (with_prev fresh) chained
        ok (record listed { first_item = fresh })

  -- The loop of `FindEntryRaw`; `eql` is the template's `EqlT`, which may read memory.
  unfoldable pub find_loop : (eql : K → K → Run Bool) → ℕ → K → ℕ → Table K V → Run ℕ
  find_loop eql zero key p t = stop out_of_fuel
  find_loop eql (suc fuel) key p t = elim (p == null) [
    | true ↦ ok null
    | false ↦ load p t >>= λ item. eql item.first key >>= λ same. elim same [
      | true ↦ ok p
      | false ↦ find_loop eql fuel key item.next t
    ]
  ]

  -- `FindEntryRaw` and `FindEntry`: the item's address or null, and the index of the bucket.
  unfoldable pub find_entry :
      (hash : K → Run ℕ) → (eql : K → K → Run Bool) → K → Table K V → Run (ℕ × ℕ)
  find_entry hash eql key t = do
    h ← hash key
    p ← find_loop eql (suc t.added) key (t.buckets (h % hash_size)) t
    ok (p, h % hash_size)

  -- `iter->second = data`.
  unfoldable pub set_second : ℕ → V → Table K V → Run (Table K V)
  set_second p data' t = modify p (λ item. record item { second = data' }) t

  -- The statements of `RemoveEntry` on the bucket's chain; the members of the item are read again
  -- for each of them.
  unfoldable pub unlink_chain : ℕ → Table K V → Run (Table K V)
  unlink_chain p t = do
    a ← load p t
    t₁ ← modify_unless_null a.next (with_prev a.prev) t
    b ← load p t₁
    t₂ ← modify_unless_null b.prev (λ item. record item { next = b.next }) t₁
    c ← load p t₂
    ok (
        if p == t₂.buckets c.index
        then record t₂ { buckets = update t₂.buckets c.index c.next }
        else t₂)

  -- Those on the list of all items.
  unfoldable pub unlink_list : ℕ → Table K V → Run (Table K V)
  unlink_list p t = do
    a ← load p t
    t₁ ←
        modify_unless_null a.next_in_the_list
          (λ item. record item { prev_in_the_list = a.prev_in_the_list }) t
    b ← load p t₁
    t₂ ←
        modify_unless_null b.prev_in_the_list
          (λ item. record item { next_in_the_list = b.next_in_the_list }) t₁
    c ← load p t₂
    ok (if p == t₂.first_item then record t₂ { first_item = c.next_in_the_list } else t₂)

  -- `RemoveEntry`.
  unfoldable pub remove_entry : ℕ → Table K V → Run (Table K V)
  remove_entry p t = if p == null then ok t else do
    t₁ ← unlink_chain p t
    t₂ ← unlink_list p t₁
    ok (record t₂ { items = update t₂.items p none })

  -- The loop of `~HashItemsByPtr`.
  unfoldable pub destroy_loop : ℕ → ℕ → Table K V → Run (Table K V)
  destroy_loop zero p t = stop out_of_fuel
  destroy_loop (suc fuel) p t = elim (p == null) [
    | true ↦ ok t
    | false ↦ load p t >>= λ item.
        destroy_loop fuel item.next_in_the_list (record t { items = update t.items p none })
  ]

  -- `~HashItemsByPtr`.
  unfoldable pub destroy : Table K V → Run (Table K V)
  destroy t = destroy_loop (suc t.added) t.first_item t
