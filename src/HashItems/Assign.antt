-- ===== src/HashItems/Assign.antt =====
-- A write through an iterator of src/include/cpputilsm/hashitemsbyptr.hpp.
use old_crash_investigator.Base.{
  ℕ, ◌≡◌, refl, sym, ap, ◌∙◌, inl, inr, Bool, ◌&&◌, true, false, Option, none, some, List, [], ◌∷◌,
  arith, ◌==◌, ==→eq, ==→ne, eq→==, ne→==, Bool-cases, if◌then◌else◌, length, update, update_self,
  update_ne, Returns,
}
use old_crash_investigator.HashItems.{Item, Table, set_second}
use old_crash_investigator.HashItems.Contents.{
  Entry, head, list_head, has, item_of, Cells, Contains, Cells-frame,
}
use old_crash_investigator.HashItems.Insert.{modify_at}
use old_crash_investigator.HashItems.Lookup.{find_in, find_in-Found}

module _ {ℓ} {K V : Type ℓ} where
  -- The entry at the address has the value, and the others are as they were.
  unfoldable pub assign_at : ℕ → V → List (Entry K V) → List (Entry K V)
  assign_at p v [] = []
  assign_at p v (e ∷ es) = if e.ptr == p then record e { value = v } ∷ es else e ∷ assign_at p v es

  module _ (p : ℕ) (v : V) where
    head-assign_at : (i : ℕ) (es : List (Entry K V)) → head i (assign_at p v es) ≡ head i es
    unfolding head assign_at
    head-assign_at i [] = refl
    head-assign_at i (e ∷ es) = ground (arith, head-assign_at i es)

    list_head-assign_at : (es : List (Entry K V)) → list_head (assign_at p v es) ≡ list_head es
    unfolding assign_at
    list_head-assign_at [] = refl
    list_head-assign_at (e ∷ es) = ground arith

    length-assign_at : (es : List (Entry K V)) → length (assign_at p v es) ≡ length es
    unfolding assign_at
    length-assign_at [] = refl
    length-assign_at (e ∷ es) = ground (arith, length-assign_at es)

    has-assign_at : (q : ℕ) (es : List (Entry K V)) → has q (assign_at p v es) ≡ has q es
    unfolding assign_at has
    has-assign_at q [] = refl
    has-assign_at q (e ∷ es) = ground (arith, has-assign_at q es)

    abbrev written : (ℕ → Option (Item K V)) → Item K V → ℕ → Option (Item K V)
    written items item = update items p (some (record item { second = v }))

    Cells-written :
        (items : ℕ → Option (Item K V)) (item : Item K V) (es : List (Entry K V))
        → has p es ≡ false
        → Cells items es
        → Cells (written items item) es
    Cells-written items item es out c =
        Cells-frame items (written items item) es c
          λ q it h at. (it.prev, update_ne items p q _ (λ e. cc (ap (λ x. has x es) e)) ∙ at)

    Cells-assign_at :
        (items : ℕ → Option (Item K V)) (item : Item K V) (es : List (Entry K V))
        → items p ≡ some item
        → has p es ≡ true
        → Cells items es
        → Cells (written items item) (assign_at p v es)
    unfolding has assign_at
    Cells-assign_at items item [] at h c = cc
    Cells-assign_at items item (e ∷ es) at h c = elim (Bool-cases (e.ptr == p)) [
      | inl here ↦
          let same : item ≡ item_of e es c.0.0 = cc (ap items (==→eq e.ptr p here)) in
          simp here (
            (
              c.0.0,
              ap (written items item) (==→eq e.ptr p here)
                  ∙ update_self items p (some (record item { second = v }))
                  ∙ ap (λ (x : Item K V). some (record x { second = v })) same,
            ),
            c.1,
            c.2,
            Cells-written items item es (rw (==→eq e.ptr p here) at c.2) c.3,
          )
      | inr there ↦ simp there (
        (
          c.0.0,
          update_ne items p e.ptr _ (==→ne e.ptr p there)
              ∙ rw (head-assign_at e.index es, list_head-assign_at es) c.0.1,
        ),
        c.1,
        has-assign_at e.ptr es ∙ c.2,
        Cells-assign_at items item es at (rw there at h) c.3,
      )
    ]

    -- A write through an iterator returns, where the address is that of an entry, and gives that
    -- entry the value. Nothing else that the table holds changes.
    pub set_second-Contains :
        (t : Table K V) (item : Item K V) (es : List (Entry K V))
        → Contains t es
        → t.items p ≡ some item
        → has p es ≡ true
        → Returns
            (set_second p v t)
            λ u. Contains u (assign_at p v es) × ((x : ℕ) → t.items x ≡ none → u.items x ≡ none)
    unfolding set_second
    set_second-Contains t item es c at h = (
      record t { items = written t.items item },
      modify_at p (λ x. record x { second = v }) t item at,
      (
        record {
          cells = Cells-assign_at t.items item es at h c.cells;
          buckets = λ i. c.buckets i ∙ sym (head-assign_at i es);
          first_item = c.first_item ∙ sym (list_head-assign_at es);
          added = omega (arith, c.added, length-assign_at es);
        },
        λ x n. update_ne t.items p x _ (λ e. cc (ap t.items e)) ∙ n,
      ),
    )

  -- The entry that is found for a key is found after the write, with its new value.
  pub find_in-assign_at :
      (items : ℕ → Option (Item K V)) (eq : K → K → Bool) (i : ℕ) (key : K) (v : V)
      (es : List (Entry K V)) (e : Entry K V)
      → Cells items es
      → find_in eq i key es ≡ some e
      → find_in eq i key (assign_at e.ptr v es) ≡ some (record e { value = v })
  unfolding find_in assign_at
  find_in-assign_at items eq i key v [] e c h = cc
  find_in-assign_at items eq i key v (x ∷ es) e c h =
      elim (Bool-cases ((x.index == i) && eq x.key key)) [
        | inl here ↦
            let same : x ≡ e = ground arith in rw (← same) (rw (eq→== x.ptr x.ptr refl, here) refl)
        | inr there ↦
            let later : find_in eq i key es ≡ some e = rw there at h in
            let f =
              find_in-Found (record { buckets = λ _. 0; first_item = 0; items = items; added = 0 })
                eq i key es e c.3 later in
            let other : x.ptr == e.ptr ≡ false =
              ne→== x.ptr e.ptr (λ p. cc (ap (λ a. has a es) p)) in
            rw (other, there) (find_in-assign_at items eq i key v es e c.3 later)
      ]

  -- A key without an entry has none after the write.
  pub missing-assign_at :
      (eq : K → K → Bool) (i : ℕ) (key : K) (p : ℕ) (v : V) (es : List (Entry K V))
      → find_in eq i key es ≡ none
      → find_in eq i key (assign_at p v es) ≡ none
  unfolding find_in assign_at
  missing-assign_at eq i key p v [] h = refl
  missing-assign_at eq i key p v (x ∷ es) h = ground (arith, missing-assign_at eq i key p v es)
