-- ===== src/Backtrace/Same.antt =====
-- When `IsTheSameStack` of src/core/backtrace/crash_investigator_backtrace_unix.cpp says yes.
use old_crash_investigator.Base.{
  ℕ, zero, suc, ◌<◌, ◌≡◌, refl, sym, ◌↔◌, ap, ◌∙◌, true, List, [], ◌∷◌, arith, length,
}
use old_crash_investigator.Backtrace.{Backtrace, IsWhole, frames_equal, is_the_same_stack}

pub frames_equal→eq :
    (n : ℕ) (xs ys : List ℕ) → length xs ≡ n → length ys ≡ n → frames_equal n xs ys ≡ true → xs ≡ ys
unfolding frames_equal
frames_equal→eq zero [] [] p q e = refl
frames_equal→eq zero (x ∷ xs) ys p q e = absurd (omega arith)
frames_equal→eq zero [] (y ∷ ys) p q e = absurd (omega arith)
frames_equal→eq (suc n) [] ys p q e = cc
frames_equal→eq (suc n) (x ∷ xs) [] p q e = cc
frames_equal→eq (suc n) (x ∷ xs) (y ∷ ys) p q e =
    ground (arith, frames_equal→eq n xs ys (omega arith) (omega arith))

frames_equal_refl : (n : ℕ) (xs : List ℕ) → length xs ≡ n → frames_equal n xs xs ≡ true
unfolding frames_equal
frames_equal_refl zero xs p = refl
frames_equal_refl (suc n) [] p = absurd (omega arith)
frames_equal_refl (suc n) (x ∷ xs) p = ground (arith, frames_equal_refl n xs (omega arith))

-- Two traces with whole buffers are the same stack exactly if they have the same frames, at least
-- one. So an empty trace is not the same stack as itself.
pub is_the_same_stack_iff :
    (a b : Backtrace)
    → IsWhole a
    → IsWhole b
    → (is_the_same_stack a b ≡ true) ↔ ((0 < a.stack_deepness) × (a.pp_buffer ≡ b.pp_buffer))
unfolding is_the_same_stack
is_the_same_stack_iff a b p q = (
  λ e. (
    ground arith,
    frames_equal→eq a.stack_deepness a.pp_buffer b.pp_buffer p (ground arith) (ground arith),
  ),
  λ (pos, same).
      let deep : a.stack_deepness ≡ b.stack_deepness = sym p ∙ ap length same ∙ q in
      rw (← same) (ground (arith, frames_equal_refl a.stack_deepness a.pp_buffer p)),
)
