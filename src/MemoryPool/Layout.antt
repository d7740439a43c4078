-- ===== src/MemoryPool/Layout.antt =====
-- How a pool of src/cpputilsm/cpputilsm_memorypool.cpp represents a stack of blocks.
use mathlib.Core.Path.{subst}
use old_crash_investigator.Base.{
  inl, inr, false, ◌==◌, Bool-cases, ==→eq, ==→ne, update_self, ℕ, ◌+◌, ◌≤◌, ◌<◌, ◌≡◌, refl, sym,
  ap, ◌∙◌, Option, none, some, [], ◌∷◌, arith, update, update_ne, size_mod,
}
use old_crash_investigator.MemoryPool.{Item, Pool, init}
use old_crash_investigator.MemoryPool.Blocks.{
  Block, Stack, Packed, TopUsed, first_of, last_of, count_at, mark,
}

-- From the pointer the `prev` pointers lead through the headers of the blocks, to null.
abbrev pub Linked : (ℕ → Item) → Option ℕ → Stack → Type 0
Linked items ptr [] = ptr ≡ none
Linked items ptr (b ∷ bs) =
    (ptr ≡ some b.offset)
    × ((items b.offset).count ≡ b.count)
    × ((items b.offset).is_in_use ≡ b.used)
    × Linked items (items b.offset).prev bs

pub record Represents (p : Pool) (bs : Stack) : Type 0 where
  pub linked : Linked p.items p.last bs
  pub packed : Packed bs p.offset
  pub first : p.first ≡ first_of bs
  pub top : TopUsed bs
  pub fits : p.offset < p.buffer_size

-- The buffer is an object of the address space, not at the null address.
pub record IsPlaced (p : Pool) : Type 0 where
  pub not_null : 0 < p.buffer
  pub in_space : p.buffer + p.buffer_size < size_mod

-- The headers agree in all but their `next` pointers.
pub record SameHeader (x y : Item) : Type 0 where
  pub count : x.count ≡ y.count
  pub is_in_use : x.is_in_use ≡ y.is_in_use
  pub prev : x.prev ≡ y.prev

-- The chain reads the headers below its end, and of those no `next`.
pub Linked-frame :
    (f g : ℕ → Item) (ptr : Option ℕ) (bs : Stack) (end : ℕ)
    → Packed bs end
    → Linked f ptr bs
    → ((a : ℕ) → a < end → SameHeader (g a) (f a))
    → Linked g ptr bs
Linked-frame f g ptr [] end h l same = l
Linked-frame f g ptr (b ∷ bs) end h l same = (
  l.0,
  s.count ∙ l.1,
  s.is_in_use ∙ l.2,
  rw s.prev (Linked-frame f g _ bs b.offset h.1 l.3 (λ a lt. same a (omega arith))),
)
  where
    s : SameHeader (g b.offset) (f b.offset)
    s = same b.offset (omega arith)

pub Linked-update :
    (f : ℕ → Item) (o : ℕ) (x : Item) (ptr : Option ℕ) (bs : Stack) (end : ℕ)
    → Packed bs end
    → end ≤ o
    → Linked f ptr bs
    → Linked (update f o x) ptr bs
Linked-update f o x ptr bs end h below l = Linked-frame f (update f o x) ptr bs end h l λ a lt.
    rw (update_ne f o a x (omega arith)) (record { count = refl; is_in_use = refl; prev = refl })

pub last_lem : (p : Pool) (bs : Stack) → Represents p bs → p.last ≡ last_of bs
last_lem p [] r = r.linked
last_lem p (b ∷ bs) r = r.linked.0

-- A new pool stands for the empty stack, whatever the buffer holds.
pub init-Represents :
    (buffer buffer_size : ℕ) (items : ℕ → Item) (bytes : ℕ → ℕ)
    → 0 < buffer_size
    → Represents (init buffer buffer_size items bytes) []
unfolding init
init-Represents buffer buffer_size items bytes room = record {
  linked = refl;
  packed = refl;
  first = refl;
  top = tt;
  fits = omega arith;
}

pub count_lem :
    (f : ℕ → Item) (o n : ℕ) (ptr : Option ℕ) (bs : Stack)
    → Linked f ptr bs
    → count_at o bs ≡ some n
    → (f o).count ≡ n
unfolding count_at
count_lem f o n ptr [] l e = cc
count_lem f o n ptr (b ∷ bs) l e = elim (Bool-cases (b.offset == o)) [
  | inl here ↦
      let at : b.offset ≡ o = ==→eq b.offset o here in
      let held : b.count ≡ n = ground arith in ap (λ x. (f x).count) (sym at) ∙ l.1 ∙ held
  | inr there ↦ count_lem f o n _ bs l.3 (rw there at e)
]

abbrev pub freed : (ℕ → Item) → ℕ → ℕ → Item
freed f o = update f o (record (f o) { is_in_use = false })

pub Packed-mark : (o : ℕ) (bs : Stack) (end : ℕ) → Packed bs end → Packed (mark o bs) end
unfolding mark
Packed-mark o [] end h = h
Packed-mark o (b ∷ bs) end h = elim (Bool-cases (b.offset == o)) [
  | inl here ↦ simp here h
  | inr there ↦ simp there (h.0, Packed-mark o bs b.offset h.1)
]

pub first_of-mark : (o : ℕ) (bs : Stack) → first_of (mark o bs) ≡ first_of bs
unfolding mark
first_of-mark o [] = refl
first_of-mark o (b ∷ bs) = ground arith

Linked-freed :
    (f : ℕ → Item) (b : Block) (ptr : Option ℕ) (bs : Stack)
    → Packed bs b.offset
    → Linked f ptr (b ∷ bs)
    → Linked (freed f b.offset) ptr (record b { used = false } ∷ bs)
Linked-freed f b ptr bs h l =
    let e = update_self f b.offset (record (f b.offset) { is_in_use = false }) in
    (
      l.0,
      rw e l.1,
      rw e,
      rw e (Linked-update f b.offset _ (f b.offset).prev bs b.offset h (omega arith) l.3),
    )

pub Linked-mark :
    (f : ℕ → Item) (o : ℕ) (ptr : Option ℕ) (bs : Stack) (end : ℕ)
    → Packed bs end
    → Linked f ptr bs
    → Linked (freed f o) ptr (mark o bs)
unfolding mark
Linked-mark f o ptr [] end h l = l
Linked-mark f o ptr (b ∷ bs) end h l = elim (Bool-cases (b.offset == o)) [
  | inl here ↦ simp here (
      subst (λ x. Linked (freed f x) ptr (record b { used = false } ∷ bs)) (==→eq b.offset o here)
        (Linked-freed f b ptr bs h.1 l))
  | inr there ↦
      let e : freed f o b.offset ≡ f b.offset = update_ne f o b.offset _ (==→ne b.offset o there) in
      simp there (l.0, rw e l.1, rw e l.2, rw e (Linked-mark f o _ bs b.offset h.1 l.3))
]
