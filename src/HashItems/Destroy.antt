-- ===== src/HashItems/Destroy.antt =====
-- `~HashItemsByPtr` of src/include/cpputilsm/hashitemsbyptr.impl.hpp, of a table from which no entry has
-- been removed.
use old_crash_investigator.Base.{
  ℕ, zero, suc, ◌<◌, ◌≡◌, refl, sym, ◌∙◌, ap, true, false, Option, none, List, [], ◌∷◌, ◌⊎◌, arith,
  ◌==◌, inl, inr, if◌then◌else◌, length, null, update, update_ne, update_self, Returns, ne→==,
  eq→==, ==→eq, ==→ne, Bool-cases,
}
use old_crash_investigator.HashItems.{Item, Table, load, destroy, destroy_loop}
use old_crash_investigator.HashItems.Contents.{Entry, list_head, has, Cells, Contains, Cells-frame}

module _ {ℓ} {K V : Type ℓ} where
  -- The items at the addresses of the entries are gone; nothing else is changed.
  abbrev pub Frees : List (Entry K V) → (f g : ℕ → Option (Item K V)) → Type ℓ
  Frees es f g = (x : ℕ) → g x ≡ (if has x es then none else f x)

  destroy_loop-Frees :
      (fuel : ℕ) (es : List (Entry K V)) (t : Table K V)
      → length es < fuel
      → Cells t.items es
      → Returns (destroy_loop fuel (list_head es) t) (λ u. Frees es t.items u.items)
  unfolding destroy_loop load has
  destroy_loop-Frees zero es t enough c = absurd (omega arith)
  destroy_loop-Frees (suc fuel) [] t enough c = (t, refl, λ x. refl)
  destroy_loop-Frees (suc fuel) (e ∷ es) t enough c =
      let (u, returns, frees) = destroy_loop-Frees fuel es rest (omega arith) kept in
      (
        u,
        rw (destroy_loop, ne→== e.ptr null c.1, load, c.0.1) returns,
        λ x. frees x ∙ both x (Bool-cases (x == e.ptr)),
      )
    where
      rest : Table K V
      rest = record t { items = update t.items e.ptr none }

      kept : Cells rest.items es
      kept = Cells-frame t.items rest.items es c.3 (λ p item there at. (
        item.prev,
        update_ne t.items e.ptr p none (λ f. let g = sym there ∙ ap (λ q. has q es) f ∙ c.2 in cc)
            ∙ at,
      ))

      both :
          (x : ℕ)
          → (x == e.ptr ≡ true) ⊎ (x == e.ptr ≡ false)
          → (if has x es then none else rest.items x) ≡ (if has x (e ∷ es) then none else t.items x)
      both x (inl here) =
          let x_is : x ≡ e.ptr = ==→eq x e.ptr here in
          rw (eq→== e.ptr x (sym x_is)) (
            ap (λ q. if has q es then none else rest.items q) x_is
            ∙ rw (c.2) (update_self t.items e.ptr none))
      both x (inr other) =
          let ne = ==→ne x e.ptr other in
          rw (ne→== e.ptr x (λ f. ne (sym f)))
            (ap (λ i. if has x es then none else i) (update_ne t.items e.ptr x none ne))

  -- The destructor of a table from which no entry has been removed returns, and gives the item of every
  -- entry back and nothing else.
  pub destroy-Frees :
      (es : List (Entry K V)) (t : Table K V)
      → Contains t es
      → Returns (destroy t) (λ u. Frees es t.items u.items)
  unfolding destroy
  destroy-Frees es t c =
      let (u, returns, frees) =
        destroy_loop-Frees (suc t.added) es t (omega (arith, c.added)) c.cells in
      (u, ap (λ p. destroy_loop (suc t.added) p t) c.first_item ∙ returns, frees)
