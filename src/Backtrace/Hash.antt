-- ===== src/Backtrace/Hash.antt =====
-- `HashOfTheStack` of src/core/backtrace/crash_investigator_backtrace_unix.cpp as a polynomial.
use native.Mathlib.Nat.{pow-suc}
use old_crash_investigator.Base.{
  ℕ, zero, suc, ◌+◌, ◌*◌, ◌/◌, ◌%◌, ◌^◌, ◌<◌, ◌≡◌, sym, ap, ◌∙◌, true, List, [], ◌∷◌, ◌++◌, arith,
  length, size_mod, hash_size,
}
use old_crash_investigator.Backtrace.{
  Backtrace, IsWhole, hash_loop, hash_of_the_stack, is_the_same_stack,
}
use old_crash_investigator.Backtrace.Same.{is_the_same_stack_iff}

-- The frames as the digits of a number to the base 1000, the lowest first.
unfoldable pub poly : List ℕ → ℕ
poly [] = 0
poly (x ∷ xs) = x + 1000 * poly xs

-- A factor may be reduced before it is multiplied.
mod_factor :
    (a r x p : ℕ)
    → ((r + x * a) % size_mod + (a * 1000) % size_mod * p) % size_mod
      ≡ (r + a * (x + 1000 * p)) % size_mod
mod_factor a r x p = omega (arith, ap (λ (t : ℕ). t * p) split)
  where
    split : a * 1000 ≡ size_mod * (a * 1000 / size_mod) + (a * 1000) % size_mod
    split = omega arith

hash_loop-poly :
    (n mult ret : ℕ) (xs : List ℕ)
    → length xs ≡ n
    → ret < size_mod
    → hash_loop n mult ret xs ≡ (ret + mult * poly xs) % size_mod
unfolding hash_loop poly
hash_loop-poly zero mult ret [] p h = omega arith
hash_loop-poly zero mult ret (x ∷ xs) p h = absurd (omega arith)
hash_loop-poly (suc n) mult ret [] p h = absurd (omega arith)
hash_loop-poly (suc n) mult ret (x ∷ xs) p h =
    hash_loop-poly n ((mult * 1000) % size_mod) ((ret + x * mult) % size_mod) xs (omega arith)
      (omega arith)
    ∙ mod_factor mult ret x (poly xs)

-- The hash of a whole trace is the number whose digits to the base 1000 are the frames, the lowest
-- first, modulo 2^64.
pub hash-poly : (t : Backtrace) → IsWhole t → hash_of_the_stack t ≡ poly t.pp_buffer % size_mod
unfolding hash_of_the_stack
hash-poly t h =
    hash_loop-poly t.stack_deepness 1 0 t.pp_buffer h (omega arith)
    ∙ ap (λ x. x % size_mod) (omega arith)

poly-append : (xs ys : List ℕ) → poly (xs ++ ys) ≡ poly xs + 1000 ^ length xs * poly ys
unfolding poly
poly-append [] ys = omega arith
poly-append (x ∷ xs) ys =
    omega (arith, poly-append xs ys, ap (λ (t : ℕ). t * poly ys) (pow-suc 1000 (length xs)))

-- Two stacks that count as the same have the same hash, as a hash table needs.
pub hash-same :
    (a b : Backtrace)
    → IsWhole a
    → IsWhole b
    → is_the_same_stack a b ≡ true
    → hash_of_the_stack a ≡ hash_of_the_stack b
hash-same a b p q e =
    hash-poly a p
    ∙ ap (λ x. poly x % size_mod) ((is_the_same_stack_iff a b p q).0 e).1
    ∙ sym (hash-poly b q)

-- Since 1000^22 is a multiple of 2^64, no frame behind the first 22 counts in the hash; since
-- 1000^4 is a multiple of 4096, none behind the first 4 counts in the choice of a bucket.
pub hash_prefix :
    (a b : Backtrace) (xs ys zs : List ℕ)
    → IsWhole a
    → IsWhole b
    → a.pp_buffer ≡ xs ++ ys
    → b.pp_buffer ≡ xs ++ zs
    → (length xs ≡ 22 → hash_of_the_stack a ≡ hash_of_the_stack b)
      × (length xs ≡ 4 → hash_of_the_stack a % hash_size ≡ hash_of_the_stack b % hash_size)
hash_prefix a b xs ys zs p q e f = (
  λ n.
      rw (hash-poly a p, hash-poly b q, e, f, poly-append xs ys, poly-append xs zs, n)
        (omega arith),
  λ n.
      rw (hash-poly a p, hash-poly b q, e, f, poly-append xs ys, poly-append xs zs, n)
        (omega arith),
)
