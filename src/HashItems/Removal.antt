-- ===== src/HashItems/Removal.antt =====
-- `RemoveEntry` of src/include/cpputilsm/hashitemsbyptr.impl.hpp and the list of all items.
--
-- `AddEntryWithKnownHash` writes the new item to `m_pFirstItem->prev`, and never to
-- `m_pFirstItem->prevInTheList`, so no item knows the one in front of it in the list.
use old_crash_investigator.Base.{
  ℕ, zero, suc, ◌<◌, ◌≡◌, ◌≢◌, ◌⊎◌, inl, inr, refl, sym, ap, ◌∙◌, Bool, true, false, Option, none,
  some, List, [], ◌∷◌, arith, ◌==◌, ==→eq, ==→ne, eq→==, ne→==, Bool-cases, Option-cases,
  if◌then◌else◌, length, null, update, update_self, update_ne, ok, stop, undefined_behaviour,
  Returns, ◌>>=◌,
}
use old_crash_investigator.HashItems.{
  Item, Table, load, modify_unless_null, modify, unlink_chain, unlink_list, remove_entry,
  destroy_loop, destroy, with_prev,
}
use old_crash_investigator.HashItems.Contents.{Entry, list_head, has, item_of, Cells, Contains}
use old_crash_investigator.HashItems.Insert.{load_at}

module _ {ℓ} {K V : Type ℓ} where
  -- The change leaves the list of all items as it is, and no item gains a predecessor in it.
  abbrev SameList : (Item K V → Item K V) → Type ℓ
  SameList f =
      (item : Item K V)
      → ((f item).next_in_the_list ≡ item.next_in_the_list)
        × (item.prev_in_the_list ≡ null → (f item).prev_in_the_list ≡ null)

  abbrev KeepsList : (f g : ℕ → Option (Item K V)) → Type ℓ
  KeepsList f g =
      (x : ℕ) (item : Item K V)
      → f x ≡ some item
      → (item' : Item K V) × (g x ≡ some item')
        × (item'.next_in_the_list ≡ item.next_in_the_list)
        × (item.prev_in_the_list ≡ null → item'.prev_in_the_list ≡ null)

  record Changes (t u : Table K V) : Type ℓ where
    pub first_item : u.first_item ≡ t.first_item
    pub added : u.added ≡ t.added
    pub items : KeepsList t.items u.items

  KeepsList-refl : (f : ℕ → Option (Item K V)) → KeepsList f f
  KeepsList-refl f x item e = (item, e, refl, λ h. h)

  KeepsList-trans : (f g h : ℕ → Option (Item K V)) → KeepsList f g → KeepsList g h → KeepsList f h
  KeepsList-trans f g h a b x item e =
      let (i, e₁, n₁, p₁) = a x item e in
      let (j, e₂, n₂, p₂) = b x i e₁ in (j, e₂, n₂ ∙ n₁, λ q. p₂ (p₁ q))

  KeepsList-update :
      (f : ℕ → Option (Item K V)) (p : ℕ) (item : Item K V) (g : Item K V → Item K V)
      → SameList g
      → f p ≡ some item
      → KeepsList f (update f p (some (g item)))
  KeepsList-update f p item g same at x it e = elim (Bool-cases (x == p)) [
    | inl here ↦
        let eq : it ≡ item = cc (ap f (==→eq x p here)) in
        (
          g item,
          ap (update f p (some (g item))) (==→eq x p here) ∙ update_self f p (some (g item)),
          rw eq (same item).0,
          rw eq (same item).1,
        )
    | inr there ↦ (it, update_ne f p x _ (==→ne x p there) ∙ e, refl, λ h. h)
  ]

  -- A write through a pointer that may be null or dangling.
  modify_cases :
      (p : ℕ) (g : Item K V → Item K V) (t : Table K V)
      → SameList g
      → (modify_unless_null p g t ≡ stop undefined_behaviour)
        ⊎ Returns (modify_unless_null p g t) (Changes t)
  unfolding modify_unless_null modify load
  modify_cases p g t same = elim (Bool-cases (p == null)) [
    | inl null' ↦
        inr
          (t, rw null', record { first_item = refl; added = refl; items = KeepsList-refl t.items })
    | inr real ↦ elim (Option-cases (t.items p)) [
      | inl missing ↦ inl (rw (real, missing, load))
      | inr (item, at) ↦ inr (
        record t { items = update t.items p (some (g item)) },
        rw (real, at, load),
        record {
          first_item = refl;
          added = refl;
          items = KeepsList-update t.items p item g same at;
        },
      )
    ]
  ]

  Changes-trans : (t u v : Table K V) → Changes t u → Changes u v → Changes t v
  Changes-trans t u v x y = record {
    first_item = y.first_item ∙ x.first_item;
    added = y.added ∙ x.added;
    items = KeepsList-trans t.items u.items v.items x.items y.items;
  }

  -- A change of the buckets alone.
  Changes-if :
      (b : Bool) (buckets : ℕ → ℕ) (t : Table K V)
      → Changes t (if b then record t { buckets = buckets } else t)
  Changes-if true buckets t = record {
    first_item = refl;
    added = refl;
    items = KeepsList-refl t.items;
  }
  Changes-if false buckets t = record {
    first_item = refl;
    added = refl;
    items = KeepsList-refl t.items;
  }

  unlink_chain_cases :
      (p : ℕ) (t : Table K V) (a : Item K V)
      → t.items p ≡ some a
      → (unlink_chain p t ≡ stop undefined_behaviour) ⊎ Returns (unlink_chain p t) (Changes t)
  unfolding unlink_chain
  unlink_chain_cases p t a at =
      elim (modify_cases a.next (with_prev a.prev) t (λ it. (refl, λ h. h))) [
        | inl bad ↦ inl (rw (load_at p t a at, bad))
        | inr (t₁, r₁, x₁) ↦
            let (b, at₁, n₁, z₁) = x₁.items p a at in
            elim (modify_cases b.prev (λ it. record it { next = b.next }) t₁
              (λ it. (refl, λ h. h))) [
                | inl bad ↦ inl (rw (load_at p t a at, r₁, load_at p t₁ b at₁, bad))
                | inr (t₂, r₂, x₂) ↦
                    let (c, at₂, n₂, z₂) = x₂.items p b at₁ in
                    inr (
                      _,
                      rw (load_at p t a at, r₁, load_at p t₁ b at₁, r₂, load_at p t₂ c at₂),
                      Changes-trans t t₂ _ (Changes-trans t t₁ t₂ x₁ x₂) (
                          Changes-if (p == t₂.buckets c.index) (update t₂.buckets c.index c.next)
                            t₂),
                    )
              ]
      ]

  -- The item has no predecessor in the list and is not the first: the list is not changed.
  unlink_list_cases :
      (p : ℕ) (t : Table K V) (a : Item K V)
      → t.items p ≡ some a
      → a.prev_in_the_list ≡ null
      → p ≢ t.first_item
      → (unlink_list p t ≡ stop undefined_behaviour) ⊎ Returns (unlink_list p t) (Changes t)
  unfolding unlink_list
  unlink_list_cases p t a at alone inner =
      elim (modify_cases a.next_in_the_list
        (λ it. record it { prev_in_the_list = a.prev_in_the_list }) t (λ it. (refl, λ h. alone))) [
          | inl bad ↦ inl (rw (load_at p t a at, bad))
          | inr (t₁, r₁, x₁) ↦
              let (b, at₁, n₁, z₁) = x₁.items p a at in
              let step : modify_unless_null b.prev_in_the_list
                    (λ it. record it { next_in_the_list = b.next_in_the_list }) t₁
                  ≡ ok t₁ =
                unfold modify_unless_null in rw (eq→== b.prev_in_the_list null (z₁ alone)) in
              let there : (p == t₁.first_item) ≡ false =
                ne→== p t₁.first_item (λ e. inner (e ∙ x₁.first_item)) in
              inr (
                t₁,
                rw (load_at p t a at, r₁, load_at p t₁ b at₁, step, load_at p t₁ b at₁, there),
                x₁,
              )
        ]

  -- From the list's head the items lead to the entry at the address, and that has no item.
  abbrev ListTo : (ℕ → Option (Item K V)) → ℕ → List (Entry K V) → Type ℓ
  ListTo items p [] = Unit
  ListTo items p (e ∷ es) =
      (e.ptr ≢ p
        → (item : Item K V) × (items e.ptr ≡ some item) × (item.next_in_the_list ≡ list_head es))
      × (e.ptr ≢ null)
      × (has e.ptr es ≡ false)
      × ListTo items p es

  ListTo-update :
      (items : ℕ → Option (Item K V)) (p q : ℕ) (es : List (Entry K V))
      → has q es ≡ false
      → ListTo items p es
      → ListTo (update items q none) p es
  unfolding has
  ListTo-update items p q [] out l = tt
  ListTo-update items p q (e ∷ es) out l = (
    λ ne.
        let (item, at, n) = l.0 ne in
        (item, update_ne items q e.ptr none (==→ne e.ptr q (ground arith)) ∙ at, n),
    l.1,
    l.2,
    ListTo-update items p q es (ground arith) l.3,
  )

  -- The destructor's loop comes to the address that has no item.
  destroy_loop-dangling :
      (fuel p : ℕ) (es : List (Entry K V)) (t : Table K V)
      → ListTo t.items p es
      → t.items p ≡ none
      → has p es ≡ true
      → length es < fuel
      → destroy_loop fuel (list_head es) t ≡ stop undefined_behaviour
  unfolding destroy_loop has load
  destroy_loop-dangling zero p es t l gone h enough = absurd (omega arith)
  destroy_loop-dangling (suc fuel) p [] t l gone h enough = cc
  destroy_loop-dangling (suc fuel) p (e ∷ es) t l gone h enough = elim (Bool-cases (e.ptr == p)) [
    | inl here ↦
        rw (ne→== e.ptr null l.1, destroy_loop, ap t.items (==→eq e.ptr p here) ∙ gone, load)
    | inr there ↦
        let (item, at, n) = l.0 (==→ne e.ptr p there) in
        rw (ne→== e.ptr null l.1, destroy_loop, at, load, n)
          (destroy_loop-dangling fuel p es (record t { items = update t.items e.ptr none })
            (ListTo-update t.items p e.ptr es l.2 l.3)
            (update_ne t.items e.ptr p none (λ q. ==→ne e.ptr p there (sym q)) ∙ gone)
            (rw there at h) (omega arith))
  ]

  ListTo-Cells :
      (f g : ℕ → Option (Item K V)) (p : ℕ) (es : List (Entry K V))
      → Cells f es
      → KeepsList f g
      → ListTo (update g p none) p es
  ListTo-Cells f g p [] c k = tt
  ListTo-Cells f g p (e ∷ es) c k = (
    λ ne.
        let (item, at, n, z) = k e.ptr (item_of e es c.0.0) c.0.1 in
        (item, update_ne g p e.ptr none ne ∙ at, n),
    c.1,
    c.2,
    ListTo-Cells f g p es c.3 k,
  )

  item_at :
      (items : ℕ → Option (Item K V)) (p : ℕ) (es : List (Entry K V))
      → Cells items es
      → has p es ≡ true
      → (p ≢ null) × (a : Item K V) × (items p ≡ some a) × (a.prev_in_the_list ≡ null)
  unfolding has
  item_at items p [] c h = cc
  item_at items p (e ∷ es) c h = elim (Bool-cases (e.ptr == p)) [
    | inl here ↦
        let at = ==→eq e.ptr p here in
        (λ z. c.1 (at ∙ z), item_of e es c.0.0, ap items (sym at) ∙ c.0.1, refl)
    | inr there ↦ item_at items p es c.3 (rw there at h)
  ]

  -- When any entry but the newest is removed from a table from which none has been removed, the
  -- list of all items still leads to its item, which has been given back: the removal itself or the
  -- destructor, at the latest, has undefined behaviour.
  pub destroy-remove_entry :
      (p : ℕ) (e : Entry K V) (es : List (Entry K V)) (t : Table K V)
      → Contains t (e ∷ es)
      → has p es ≡ true
      → (remove_entry p t >>= destroy) ≡ stop undefined_behaviour
  unfolding remove_entry destroy has
  destroy-remove_entry p e es t c h =
      let (real, a, at, alone) = item_at t.items p es c.cells.3 h in
      let inner : p ≢ e.ptr = λ q. cc (ap (λ x. has x es) q) in
      elim (unlink_chain_cases p t a at) [
        | inl bad ↦ rw (ne→== p null real, bad)
        | inr (t₁, r₁, x₁) ↦
            let (b, at₁, n, z) = x₁.items p a at in
            elim (unlink_list_cases p t₁ b at₁ (z alone)
              (λ q. inner (q ∙ x₁.first_item ∙ c.first_item))) [
                | inl bad ↦ rw (ne→== p null real, r₁, bad)
                | inr (t₂, r₂, x₂) ↦
                    rw (ne→== p null real, r₁, r₂, x₂.first_item, x₁.first_item, c.first_item)
                      (destroy_loop-dangling (suc t₂.added) p (e ∷ es)
                        (record t₂ { first_item = e.ptr; items = update t₂.items p none })
                        (ListTo-Cells t.items t₂.items p (e ∷ es) c.cells
                          (KeepsList-trans t.items t₁.items t₂.items x₁.items x₂.items))
                        (update_self t₂.items p none) (ground arith)
                        (omega (arith, c.added, x₁.added, x₂.added)))
              ]
      ]
