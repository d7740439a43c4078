-- ===== src/HashItems/Contents.antt =====
-- What a table of src/include/cpputilsm/hashitemsbyptr.impl.hpp holds from which no entry has been
-- removed: the list of its entries, the newest first.
use old_crash_investigator.Base.{
  ℕ, ◌≤◌, ◌≡◌, ◌≢◌, refl, Bool, true, false, ◌||◌, Option, none, some, List, [], ◌∷◌, arith, ◌==◌,
  if◌then◌else◌, length, null,
}
use old_crash_investigator.HashItems.{Item, Table, empty}

pub record Entry {ℓ} (K V : Type ℓ) : Type ℓ where
  pub ptr : ℕ
  pub key : K
  pub value : V
  pub index : ℕ

module _ {ℓ} {K V : Type ℓ} where
  -- The first entry's address in a bucket.
  unfoldable pub head : ℕ → List (Entry K V) → ℕ
  head i [] = null
  head i (e ∷ es) = if e.index == i then e.ptr else head i es

  abbrev pub list_head : List (Entry K V) → ℕ
  list_head [] = null
  list_head (e ∷ es) = e.ptr

  unfoldable pub has : ℕ → List (Entry K V) → Bool
  has p [] = false
  has p (e ∷ es) = (e.ptr == p) || has p es

  -- The item of an entry in front of the entries: `prev` alone is left open.
  abbrev pub item_of : Entry K V → List (Entry K V) → ℕ → Item K V
  item_of e es prev = record {
    first = e.key;
    second = e.value;
    index = e.index;
    prev = prev;
    next = head e.index es;
    prev_in_the_list = null;
    next_in_the_list = list_head es;
  }

  abbrev pub Cells : (ℕ → Option (Item K V)) → List (Entry K V) → Type ℓ
  Cells items [] = Unit
  Cells items (e ∷ es) =
      ((prev : ℕ) × (items e.ptr ≡ some (item_of e es prev)))
      × (e.ptr ≢ null)
      × (has e.ptr es ≡ false)
      × Cells items es

  pub record Contains (t : Table K V) (es : List (Entry K V)) : Type ℓ where
    pub cells : Cells t.items es
    pub buckets : (i : ℕ) → t.buckets i ≡ head i es
    pub first_item : t.first_item ≡ list_head es
    pub added : length es ≤ t.added

  pub empty-Contains : Contains empty []
  unfolding empty head
  empty-Contains = record {
    cells = tt;
    buckets = λ i. refl;
    first_item = refl;
    added = omega arith;
  }

  -- No entry lies where there is no item.
  pub has-none :
      (items : ℕ → Option (Item K V)) (p : ℕ) (es : List (Entry K V))
      → Cells items es
      → items p ≡ none
      → has p es ≡ false
  unfolding has
  has-none items p [] c e = refl
  has-none items p (x ∷ es) c e = ground (arith, has-none items p es c.3 e)

  -- The cells are kept by any change that keeps the items at the entries' addresses up to `prev`.
  pub Cells-frame :
      (f g : ℕ → Option (Item K V)) (es : List (Entry K V))
      → Cells f es
      → ((p : ℕ) (item : Item K V)
          → has p es ≡ true
          → f p ≡ some item
          → (prev : ℕ) × (g p ≡ some (record item { prev = prev })))
      → Cells g es
  unfolding has
  Cells-frame f g [] c same = tt
  Cells-frame f g (e ∷ es) c same = (
    same e.ptr (item_of e es c.0.0) (ground arith) c.0.1,
    c.1,
    c.2,
    Cells-frame f g es c.3 (λ p item h. same p item (ground arith)),
  )
