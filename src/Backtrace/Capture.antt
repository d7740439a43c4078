-- ===== src/Backtrace/Capture.antt =====
-- What `InitBacktraceDataForCurrentStack` of
-- src/core/backtrace/crash_investigator_backtrace_unix.cpp keeps of the stack.
use Prim.Native.Nat.{min}
use native.Mathlib.Decide.{dec_lt}
use old_crash_investigator.Base.{
  ℕ, zero, suc, ◌+◌, ◌-◌, ◌≤◌, ◌<◌, ◌≡◌, refl, ap, List, [], ◌∷◌, arith, length, lt→ltb, ge→ltb,
}
use old_crash_investigator.Backtrace.{IsWhole, take, drop, init_backtrace_data, symbols_count_max}

pub length-take : (n : ℕ) (xs : List ℕ) → length (take n xs) ≡ min n (length xs)
unfolding take
length-take zero xs = omega arith
length-take (suc n) [] = omega arith
length-take (suc n) (x ∷ xs) = omega (arith, length-take n xs)

length-drop : (n : ℕ) (xs : List ℕ) → length (drop n xs) ≡ length xs - n
unfolding drop
length-drop zero xs = omega arith
length-drop (suc n) [] = omega arith
length-drop (suc n) (x ∷ xs) = omega (arith, length-drop n xs)

take_all : (n : ℕ) (xs : List ℕ) → length xs ≤ n → take n xs ≡ xs
unfolding take
take_all zero [] h = refl
take_all zero (x ∷ xs) h = absurd (omega arith)
take_all (suc n) [] h = refl
take_all (suc n) (x ∷ xs) h = ap (λ l. x ∷ l) (take_all n xs (omega arith))

drop-take : (k n m : ℕ) (xs : List ℕ) → m ≡ n + k → drop k (take m xs) ≡ take n (drop k xs)
unfolding take drop
drop-take zero n m xs e = ap (λ t. take t xs) (omega arith)
drop-take (suc k) n zero xs e = absurd (omega arith)
drop-take (suc k) zero (suc m) [] e = refl
drop-take (suc k) (suc n) (suc m) [] e = refl
drop-take (suc k) n (suc m) (x ∷ xs) e = drop-take k n m xs (omega arith)

module _ (go_back : ℕ) (frames : List ℕ) where
  -- Of a stack deeper than the frames to leave out, up to 256 frames behind those are kept.
  deep :
      go_back < length frames
      → init_backtrace_data go_back frames ≡ record {
        pp_buffer = take symbols_count_max (drop go_back frames);
        stack_deepness = min symbols_count_max (length frames - go_back);
      }
  unfolding init_backtrace_data
  deep h = rw (
    length-take (symbols_count_max + go_back) frames,
    lt→ltb go_back (min (symbols_count_max + go_back) (length frames)) (omega arith),
    drop-take go_back symbols_count_max (symbols_count_max + go_back) frames (omega arith),
    take_all (min (symbols_count_max + go_back) (length frames) - go_back)
        (take symbols_count_max (drop go_back frames))
        (omega
          (arith, length-take symbols_count_max (drop go_back frames), length-drop go_back frames)),
    depth,
  )
    where
      depth :
          min (symbols_count_max + go_back) (length frames) - go_back
          ≡ min symbols_count_max (length frames - go_back)
      depth = omega arith

  -- Of any other stack all frames are kept.
  shallow :
      length frames ≤ go_back
      → init_backtrace_data go_back frames
        ≡ record { pp_buffer = frames; stack_deepness = length frames }
  unfolding init_backtrace_data
  shallow h = rw (
    take_all (symbols_count_max + go_back) frames (omega arith),
    ge→ltb go_back (length frames) h,
    take_all (length frames) frames (omega arith),
  )

  -- The trace is whole. It holds the frames behind those to leave out, 256 of them at most, where
  -- the stack is deeper than that, and otherwise the whole stack.
  pub init_backtrace_data-IsWhole :
      IsWhole (init_backtrace_data go_back frames)
      × (go_back < length frames
          → (init_backtrace_data go_back frames).pp_buffer
            ≡ take symbols_count_max (drop go_back frames))
      × (length frames ≤ go_back → (init_backtrace_data go_back frames).pp_buffer ≡ frames)
  init_backtrace_data-IsWhole = (
    elim (dec_lt go_back (length frames)) [
      | yes h ↦ rw (deep h) (
          omega (
            arith,
            length-take symbols_count_max (drop go_back frames),
            length-drop go_back frames,
          ))
      | no h ↦ rw (shallow (omega arith))
    ],
    λ h. ap (λ t. t.pp_buffer) (deep h),
    λ h. ap (λ t. t.pp_buffer) (shallow h),
  )

  -- The trace of a stack with a frame has a frame.
  pub init_backtrace_data-deep :
      0 < length frames → 0 < (init_backtrace_data go_back frames).stack_deepness
  init_backtrace_data-deep some_frame = elim (dec_lt go_back (length frames)) [
    | yes h ↦ rw (deep h) (omega arith)
    | no h ↦ rw (shallow (omega arith)) some_frame
  ]
