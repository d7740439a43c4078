-- ===== src/HashItems/Lookup.antt =====
-- `FindEntry` of src/include/cpputilsm/hashitemsbyptr.impl.hpp finds the newest entry of a key.
use old_crash_investigator.Base.{
  ℕ, zero, suc, ◌<◌, ◌%◌, ◌≡◌, ◌≢◌, inl, inr, refl, Bool, true, false, ◌&&◌, Option, none, some,
  List, [], ◌∷◌, arith, ◌==◌, ==→eq, ne→==, Bool-cases, if◌then◌else◌, length, null, Run, ok,
  hash_size,
}
use old_crash_investigator.HashItems.{Item, Table, find_loop, find_entry}
use old_crash_investigator.HashItems.Contents.{Entry, head, has, item_of, Cells, Contains}
use old_crash_investigator.HashItems.Insert.{load_at}

module _ {ℓ} {K V : Type ℓ} where
  -- The newest entry of a bucket whose key is the one looked for.
  unfoldable pub find_in : (K → K → Bool) → ℕ → K → List (Entry K V) → Option (Entry K V)
  find_in eq i key [] = none
  find_in eq i key (e ∷ es) = if (e.index == i) && eq e.key key then some e else find_in eq i key es

  -- `iterator::m_pItem`.
  unfoldable pub address : Option (Entry K V) → ℕ
  address none = null
  address (some e) = e.ptr

  -- What is found is an entry, with its item at its address.
  pub record Found (t : Table K V) (eq : K → K → Bool) (key : K) (es : List (Entry K V))
      (e : Entry K V) : Type ℓ where
    pub item : Item K V
    pub at : t.items e.ptr ≡ some item
    pub value : item.second ≡ e.value
    pub real : e.ptr ≢ null
    pub inside : has e.ptr es ≡ true
    pub equal : eq e.key key ≡ true

  pub find_in-Found :
      (t : Table K V) (eq : K → K → Bool) (i : ℕ) (key : K) (es : List (Entry K V)) (e : Entry K V)
      → Cells t.items es
      → find_in eq i key es ≡ some e
      → Found t eq key es e
  unfolding find_in has
  find_in-Found t eq i key [] e c h = cc
  find_in-Found t eq i key (x ∷ es) e c h = elim (Bool-cases ((x.index == i) && eq x.key key)) [
    | inl here ↦
        let same : x ≡ e = ground arith in
        rw (← same) (record {
          item = item_of x es c.0.0;
          at = c.0.1;
          value = refl;
          real = c.1;
          inside = ground arith;
          equal = ground arith;
        })
    | inr there ↦
        let f = find_in-Found t eq i key es e c.3 (rw there at h) in
        record {
          item = f.item;
          at = f.at;
          value = f.value;
          real = f.real;
          inside = ground (arith, f.inside);
          equal = f.equal;
        }
  ]

  module _ (eq : K → K → Bool) (eql : K → K → Run Bool) (pure : (x y : K) → eql x y ≡ ok (eq x y))
      (t : Table K V) where
    module _ (fuel : ℕ) (key : K) (p : ℕ) (item : Item K V) (real : p ≢ null)
        (at : t.items p ≡ some item) where
      loop_hit : eq item.first key ≡ true → find_loop eql (suc fuel) key p t ≡ ok p
      unfolding find_loop
      loop_hit same =
          rw (ne→== p null real, load_at p t item at, pure item.first key, same, find_loop)

      loop_next :
          eq item.first key ≡ false
          → find_loop eql (suc fuel) key p t ≡ find_loop eql fuel key item.next t
      unfolding find_loop
      loop_next other =
          rw (ne→== p null real, load_at p t item at, pure item.first key, other, find_loop)

    loop_null : (fuel : ℕ) (key : K) → find_loop eql (suc fuel) key null t ≡ ok null
    unfolding find_loop
    loop_null fuel key = refl

    find_loop-find_in :
        (fuel i : ℕ) (key : K) (es : List (Entry K V))
        → Cells t.items es
        → length es < fuel
        → find_loop eql fuel key (head i es) t ≡ ok (address (find_in eq i key es))
    unfolding find_in head address
    find_loop-find_in zero i key es c h = absurd (omega arith)
    find_loop-find_in (suc fuel) i key [] c h = loop_null fuel key
    find_loop-find_in (suc fuel) i key (e ∷ es) c h = elim (Bool-cases (e.index == i)) [
      | inr there ↦ rw there (find_loop-find_in (suc fuel) i key es c.3 (omega arith))
      | inl here ↦ elim (Bool-cases (eq e.key key)) [
        | inl same ↦ rw (here, same) (loop_hit fuel key e.ptr (item_of e es c.0.0) c.1 c.0.1 same)
        | inr other ↦
            rw
              (
                here,
                other,
                loop_next fuel key e.ptr (item_of e es c.0.0) c.1 c.0.1 other,
                ==→eq e.index i here,
              )
              (find_loop-find_in fuel i key es c.3 (omega arith))
      ]
    ]

    -- In a table that holds a list of entries, `FindEntry` returns, and finds the newest entry of
    -- the key's bucket whose key is equal, or none, and the index of the bucket, where the hash and
    -- the comparison return.
    pub find_entry-find_in :
        (hash : K → Run ℕ) (h : ℕ) (key : K) (es : List (Entry K V))
        → hash key ≡ ok h
        → Contains t es
        → find_entry hash eql key t
          ≡ ok (address (find_in eq (h % hash_size) key es), h % hash_size)
    unfolding find_entry
    find_entry-find_in hash h key es e c = rw (
      e,
      c.buckets (h % hash_size),
      find_loop-find_in (suc t.added) (h % hash_size) key es c.cells (omega (arith, c.added)),
    )
