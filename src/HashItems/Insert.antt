-- ===== src/HashItems/Insert.antt =====
-- `AddEntryWithKnownHash` of src/include/cpputilsm/hashitemsbyptr.impl.hpp puts an entry in front.
use old_crash_investigator.Base.{
  ℕ, ◌<◌, hash_size, gt→leb, suc, ◌≡◌, ◌≢◌, ◌⊎◌, inl, inr, refl, sym, ap, ◌∙◌, true, none, some,
  List, [], ◌∷◌, arith, ◌==◌, ==→eq, ==→ne, eq→==, ne→==, Bool-cases, null, update, update_self,
  update_ne, ok, Returns,
}
use old_crash_investigator.HashItems.{
  Item, Table, load, modify, modify_unless_null, with_prev, add_entry_with_known_hash,
}
use old_crash_investigator.HashItems.Contents.{
  Entry, head, list_head, has, item_of, Cells, Contains, has-none, Cells-frame,
}

module _ {ℓ} {K V : Type ℓ} where
  -- A write of `prev` through the pointer, if it is not null.
  pub record Relinks (p q : ℕ) (t u : Table K V) : Type ℓ where
    pub buckets : u.buckets ≡ t.buckets
    pub first_item : u.first_item ≡ t.first_item
    pub added : u.added ≡ t.added
    pub items :
        (x : ℕ) (item : Item K V)
        → t.items x ≡ some item
        → (prev : ℕ) × (u.items x ≡ some (with_prev prev item))
    pub there :
        (item : Item K V) → p ≢ null → t.items p ≡ some item → u.items p ≡ some (with_prev q item)
    pub elsewhere : (x : ℕ) → x ≢ p → u.items x ≡ t.items x
    pub absent : (x : ℕ) → t.items x ≡ none → u.items x ≡ none

  abbrev pub IsLink : ℕ → Table K V → Type ℓ
  IsLink p t = (p ≡ null) ⊎ ((item : Item K V) × (t.items p ≡ some item))

  written-Relinks :
      (p q : ℕ) (t : Table K V) (item : Item K V)
      → t.items p ≡ some item
      → Relinks p q t (record t { items = update t.items p (some (with_prev q item)) })
  written-Relinks p q t item at = record {
    buckets = refl;
    first_item = refl;
    added = refl;
    items = λ x it e. elim (Bool-cases (x == p)) [
      | inl same ↦
          (q, rw (==→eq x p same) (update_self t.items p _ ∙ ap some (cc (==→eq x p same))))
      | inr other ↦ (it.prev, update_ne t.items p x _ (==→ne x p other) ∙ e)
    ];
    there = λ it n e. update_self t.items p _ ∙ cc;
    elsewhere = λ x n. update_ne t.items p x _ n;
    absent = λ x n. update_ne t.items p x _ (λ e. cc (ap t.items e)) ∙ n;
  }

  pub load_at :
      (p : ℕ) (t : Table K V) (item : Item K V) → t.items p ≡ some item → load p t ≡ ok item
  unfolding load
  load_at p t item e = rw (e, load)

  pub modify_at :
      (p : ℕ) (f : Item K V → Item K V) (t : Table K V) (item : Item K V)
      → t.items p ≡ some item
      → modify p f t ≡ ok (record t { items = update t.items p (some (f item)) })
  unfolding modify
  modify_at p f t item e = rw (e, load)

  untouched-Relinks :
      (p q : ℕ) (t : Table K V)
      → p ≡ null
      → Returns (modify_unless_null p (with_prev q) t) (Relinks p q t)
  unfolding modify_unless_null
  untouched-Relinks p q t e = (
    t,
    rw (eq→== p null e),
    record {
      buckets = refl;
      first_item = refl;
      added = refl;
      items = λ x it h. (it.prev, h);
      there = λ it n h. absurd (n e);
      elsewhere = λ x n. refl;
      absent = λ x n. n;
    },
  )

  pub modify_unless_null-Relinks :
      (p q : ℕ) (t : Table K V)
      → IsLink p t
      → Returns (modify_unless_null p (with_prev q) t) (Relinks p q t)
  unfolding modify_unless_null
  modify_unless_null-Relinks p q t (inl e) = untouched-Relinks p q t e
  modify_unless_null-Relinks p q t (inr (item, at)) = elim (Bool-cases (p == null)) [
    | inl null' ↦ untouched-Relinks p q t (==→eq p null null')
    | inr real ↦ (_, rw (real, modify_at p (with_prev q) t item at), written-Relinks p q t item at)
  ]

  head-IsLink :
      (i : ℕ) (t : Table K V) (es : List (Entry K V)) → Cells t.items es → IsLink (head i es) t
  unfolding head
  head-IsLink i t [] c = inl refl
  head-IsLink i t (e ∷ es) c = elim (Bool-cases (e.index == i)) [
    | inl here ↦ rw here (inr (item_of e es c.0.0, c.0.1))
    | inr there ↦ rw there (head-IsLink i t es c.3)
  ]

  list_head-IsLink :
      (t : Table K V) (es : List (Entry K V)) → Cells t.items es → IsLink (list_head es) t
  list_head-IsLink t [] c = inl refl
  list_head-IsLink t (e ∷ es) c = inr (item_of e es c.0.0, c.0.1)

  IsLink-Relinks : (r p q : ℕ) (t u : Table K V) → Relinks p q t u → IsLink r t → IsLink r u
  IsLink-Relinks r p q t u x (inl e) = inl e
  IsLink-Relinks r p q t u x (inr (item, at)) =
      let (prev, at') = x.items r item at in inr (with_prev prev item, at')

  Cells-Relinks :
      (p q : ℕ) (t u : Table K V) (es : List (Entry K V))
      → Relinks p q t u
      → Cells t.items es
      → Cells u.items es
  Cells-Relinks p q t u es x c = Cells-frame t.items u.items es c (λ r item h at. x.items r item at)

  -- The table to which a new item has been added that nothing points to yet.
  abbrev made : ℕ → Item K V → Table K V → Table K V
  made fresh item t = record t { items = update t.items fresh (some item); added = suc t.added }

  Cells-made :
      (fresh : ℕ) (item : Item K V) (t : Table K V) (es : List (Entry K V))
      → t.items fresh ≡ none
      → Cells t.items es
      → Cells (made fresh item t).items es
  Cells-made fresh item t es free c =
      Cells-frame t.items (made fresh item t).items es c
        λ p it h at. (it.prev, update_ne t.items fresh p (some item) (other p h) ∙ at)
    where
      other : (p : ℕ) → has p es ≡ true → p ≢ fresh
      other p h = ground (arith, has-none t.items fresh es c free)

  IsLink-made :
      (r fresh : ℕ) (item : Item K V) (t : Table K V)
      → t.items fresh ≡ none
      → IsLink r t
      → IsLink r (made fresh item t)
  IsLink-made r fresh item t free (inl e) = inl e
  IsLink-made r fresh item t free (inr (it, at)) =
      inr (it, update_ne t.items fresh r (some item) other ∙ at)
    where
      other : r ≢ fresh
      other e = cc (ap t.items e)

  -- What an addition makes of a table, and what it leaves.
  pub record Adds (fresh : ℕ) (e : Entry K V) (t : Table K V) (es : List (Entry K V))
      (u : Table K V) : Type ℓ where
    pub contains : Contains u (e ∷ es)
    pub elsewhere : (x : ℕ) → t.items x ≡ none → x ≢ fresh → u.items x ≡ none

  module _ (fresh : ℕ) (key : K) (hash : ℕ) (value : V) (t : Table K V) (es : List (Entry K V))
      (real : fresh ≢ null) (inside : hash < hash_size) (free : t.items fresh ≡ none)
      (c : Contains t es) where
    abbrev entry : Entry K V
    entry = record { ptr = fresh; key = key; value = value; index = hash }

    abbrev item : Item K V
    item = record (item_of entry es null) { next = t.buckets hash; next_in_the_list = t.first_item }

    -- The table between the two writes of `prev`.
    abbrev chained : Table K V → Table K V
    chained t₁ = record t₁ { buckets = update t₁.buckets hash fresh }

    module _ (t₁ u : Table K V) (x₁ : Relinks (t.buckets hash) fresh (made fresh item t) t₁)
        (x₂ : Relinks t.first_item fresh (chained t₁) u) where
      new_item : (prev : ℕ) × (u.items fresh ≡ some (with_prev prev item))
      new_item =
          let (p₁, at₁) = x₁.items fresh item (update_self t.items fresh (some item)) in
          let (p₂, at₂) = x₂.items fresh (with_prev p₁ item) at₁ in (p₂, at₂)

      added-Contains : Contains (record u { first_item = fresh }) (entry ∷ es)
      unfolding head
      added-Contains = record {
        cells = (
          rw (← c.buckets hash, ← c.first_item) new_item,
          real,
          has-none t.items fresh es c.cells free,
          Cells-Relinks t.first_item fresh (chained t₁) u es x₂ (
              Cells-Relinks (t.buckets hash) fresh (made fresh item t) t₁ es x₁
                (Cells-made fresh item t es free c.cells)),
        );
        buckets = λ i.
            rw (x₂.buckets, x₁.buckets)
              (elim (Bool-cases (hash == i)) [
                | inl same ↦ rw (same, ==→eq hash i same) (update_self t.buckets i fresh)
                | inr other ↦ rw other (
                    update_ne t.buckets hash i fresh (λ e. ==→ne hash i other (sym e))
                    ∙ c.buckets i)
              ]);
        first_item = refl;
        added = omega (arith, c.added, x₁.added, x₂.added);
      }

      added-Adds : Adds fresh entry t es (record u { first_item = fresh })
      added-Adds = record {
        contains = added-Contains;
        elsewhere = λ x none' ne.
            x₂.absent x (x₁.absent x (update_ne t.items fresh x (some item) ne ∙ none'));
      }

    -- In a table that holds a list of entries, `AddEntryWithKnownHash` with the index of a bucket, at
    -- a new address that is not null, returns, and puts the entry in front of the others.
    pub add_entry_with_known_hash-Adds :
        Returns (add_entry_with_known_hash fresh key hash value t) (Adds fresh entry t es)
    unfolding add_entry_with_known_hash
    add_entry_with_known_hash-Adds =
        let (t₁, r₁, x₁) = modify_unless_null-Relinks (t.buckets hash) fresh (made fresh item t) (
          IsLink-made (t.buckets hash) fresh item t free
            (rw (c.buckets hash) (head-IsLink hash t es c.cells))) in
        let (u, r₂, x₂) = modify_unless_null-Relinks t.first_item fresh (chained t₁) (
          IsLink-Relinks t.first_item (t.buckets hash) fresh (made fresh item t) t₁ x₁ (
            IsLink-made t.first_item fresh item t free
              (rw c.first_item (list_head-IsLink t es c.cells)))) in
        (_, rw (ne→== fresh null real, gt→leb hash_size hash inside, r₁, r₂), added-Adds t₁ u x₁ x₂)
