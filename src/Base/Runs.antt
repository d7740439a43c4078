-- ===== src/Base/Runs.antt =====
-- The outcome of a call: a result, or the way in which the program stops.
use Prim.Native.Nat.{ℕ, ◌^◌}
use mathlib.Core.Path.{◌≡◌, refl}

-- A failed `assert`, undefined behaviour such as an access through a dangling pointer, a loop of
-- the model that has used up its rounds, `exit(code)`, and a thrown `std::bad_alloc`.
pub data Stop : Type 0 where
  assertion_failed undefined_behaviour out_of_fuel bad_alloc : Stop
  exited : ℕ → Stop

pub data Run {ℓ} (Value : Type ℓ) : Type ℓ where
  stop : Stop → Run Value
  ok : Value → Run Value

module _ {ℓ κ} {Value : Type ℓ} where
  module _ {Next : Type κ} where
    -- What comes after a call: nothing, where it stops the program.
    infixl 5 ◌>>=◌
    abbrev pub ◌>>=◌ : Run Value → (Value → Run Next) → Run Next
    stop why >>= after = stop why
    ok value >>= after = after value

    -- Inversion of a chain that ends normally.
    pub >>=-eq-ok :
        (call : Run Value) (after : Value → Run Next) {end : Next}
        → (call >>= after) ≡ ok end
        → (value : Value) × (call ≡ ok value) × (after value ≡ ok end)
    >>=-eq-ok (stop why) after h = cc
    >>=-eq-ok (ok value) after h = (value, refl, h)

  -- The call ends normally, with a result of which the condition holds.
  abbrev pub Returns : (call : Run Value) → (Value → Type κ) → Type (ℓ ⊔ κ)
  Returns call Holds = (value : Value) × (call ≡ ok value) × Holds value

-- The null pointer, and the number of values of a `size_t`.
abbrev pub null : ℕ
null = 0

abbrev pub size_mod : ℕ
size_mod = 2 ^ 64

-- `CPPUTILSM_HASH_SIZE`, the number of buckets of a table.
abbrev pub hash_size : ℕ
hash_size = 4096
