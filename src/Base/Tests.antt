-- ===== src/Base/Tests.antt =====
-- Boolean tests on numbers, the conditional, lists and functions changed at one place.
use Prim.Native.Nat.{ℕ, suc, ◌≤◌, ◌<◌, compare, Ordering}
use mathlib.Core.Bool.{Bool, true, false}
use mathlib.Core.List.{List, [], ◌∷◌}
use mathlib.Core.Logic.{◌⊎◌, inl, inr, ◌≢◌}
use mathlib.Core.Option.{Option, none, some}
use mathlib.Core.Path.{◌≡◌, refl, sym}
use native.Mathlib.Omega.{arith}

abbrev pub ltb : ℕ → ℕ → Bool
ltb a b = elim (compare a b) [ Ordering.lt ↦ true | _ ↦ false ]

abbrev pub leb : ℕ → ℕ → Bool
leb a b = elim (compare a b) [ Ordering.gt ↦ false | _ ↦ true ]

infix 50 ◌==◌
abbrev pub ◌==◌ : ℕ → ℕ → Bool
a == b = elim (compare a b) [ Ordering.eq ↦ true | _ ↦ false ]

infix 1 if◌then◌else◌
abbrev pub if◌then◌else◌ {ℓ} : {A : Type ℓ} → Bool → A → A → A
if true then x else y = x
if false then x else y = y

pub ltb→lt : (a b : ℕ) → ltb a b ≡ true → a < b
ltb→lt a b h = ground arith

pub ltb→ge : (a b : ℕ) → ltb a b ≡ false → b ≤ a
ltb→ge a b h = ground arith

pub lt→ltb : (a b : ℕ) → a < b → ltb a b ≡ true
lt→ltb a b h = ground arith

pub ge→ltb : (a b : ℕ) → b ≤ a → ltb a b ≡ false
ge→ltb a b h = ground arith

pub gt→leb : (a b : ℕ) → b < a → leb a b ≡ false
gt→leb a b h = ground arith

pub le→leb : (a b : ℕ) → a ≤ b → leb a b ≡ true
le→leb a b h = ground arith

pub ==→eq : (a b : ℕ) → a == b ≡ true → a ≡ b
==→eq a b h = ground arith

pub ==→ne : (a b : ℕ) → a == b ≡ false → a ≢ b
==→ne a b h = ground arith

pub eq→== : (a b : ℕ) → a ≡ b → a == b ≡ true
eq→== a b h = ground arith

pub ne→== : (a b : ℕ) → a ≢ b → a == b ≡ false
ne→== a b h = ground arith

pub Bool-cases : (b : Bool) → (b ≡ true) ⊎ (b ≡ false)
Bool-cases true = inl refl
Bool-cases false = inr refl

pub Bool-ext : (b c : Bool) → (b ≡ true → c ≡ true) → (c ≡ true → b ≡ true) → b ≡ c
Bool-ext true c to from = sym (to refl)
Bool-ext false false to from = refl
Bool-ext false true to from = from refl

module _ {ℓ} {A : Type ℓ} where
  pub Option-cases : (o : Option A) → (o ≡ none) ⊎ ((a : A) × (o ≡ some a))
  Option-cases none = inl refl
  Option-cases (some a) = inr (a, refl)

  abbrev pub length : List A → ℕ
  length [] = 0
  length (x ∷ xs) = suc (length xs)

  -- A memory or a map that is changed at one place.
  unfoldable pub update : (ℕ → A) → ℕ → A → ℕ → A
  update f a x b = if b == a then x else f b

  pub update_self : (f : ℕ → A) (a : ℕ) (x : A) → update f a x a ≡ x
  unfolding update
  update_self f a x = ground arith

  pub update_ne : (f : ℕ → A) (a b : ℕ) (x : A) → b ≢ a → update f a x b ≡ f b
  unfolding update
  update_ne f a b x h = ground arith
