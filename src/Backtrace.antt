-- ===== src/Backtrace.antt =====
-- Stack traces: src/core/backtrace/crash_investigator_backtrace_unix.cpp and the structures of
-- include/crash_investigator/callback.hpp.
--
-- A frame is its return address. `stackDeepness` is an `int` that the code never makes negative. A
-- text is the list of its bytes.
pub mod Same
pub mod Hash
pub mod Capture
pub mod Windows
use old_crash_investigator.Base.{
  ℕ, zero, suc, ◌+◌, ◌-◌, ◌*◌, ◌%◌, ◌≡◌, Bool, true, false, ◌&&◌, Option, none, some, List, [], ◌∷◌,
  ltb, ◌==◌, if◌then◌else◌, size_mod, length,
}

pub record Backtrace : Type 0 where
  pub pp_buffer : List ℕ
  pub stack_deepness : ℕ

-- The buffer was allocated for so many frames.
abbrev pub IsWhole : Backtrace → Type 0
IsWhole t = length t.pp_buffer ≡ t.stack_deepness

-- `memcmp(…) == 0` over that many frames; a buffer that is too short is read as different.
unfoldable pub frames_equal : ℕ → List ℕ → List ℕ → Bool
frames_equal zero xs ys = true
frames_equal (suc n) [] ys = false
frames_equal (suc n) (x ∷ xs) [] = false
frames_equal (suc n) (x ∷ xs) (y ∷ ys) = x == y && frames_equal n xs ys

-- `IsTheSameStack`.
unfoldable pub is_the_same_stack : Backtrace → Backtrace → Bool
is_the_same_stack a b =
    ltb 0 a.stack_deepness
    && (a.stack_deepness == b.stack_deepness)
    && frames_equal a.stack_deepness a.pp_buffer b.pp_buffer

-- The loop of `HashOfTheStack`: the rounds left, `unMult` and `cunRet`.
unfoldable pub hash_loop : ℕ → (mult ret : ℕ) → List ℕ → ℕ
hash_loop zero mult ret xs = ret
hash_loop (suc n) mult ret [] = ret
hash_loop (suc n) mult ret (x ∷ xs) =
    hash_loop n ((mult * 1000) % size_mod) ((ret + x * mult) % size_mod) xs

-- `HashOfTheStack`.
unfoldable pub hash_of_the_stack : Backtrace → ℕ
hash_of_the_stack t = hash_loop t.stack_deepness 1 0 t.pp_buffer

abbrev pub symbols_count_max : ℕ
symbols_count_max = 256

unfoldable pub take : ℕ → List ℕ → List ℕ
take zero xs = []
take (suc n) [] = []
take (suc n) (x ∷ xs) = x ∷ take n xs

unfoldable pub drop : ℕ → List ℕ → List ℕ
drop zero xs = xs
drop (suc n) [] = []
drop (suc n) (x ∷ xs) = drop n xs

-- `InitBacktraceDataForCurrentStack`, where its allocations succeed. `frames` is the whole stack,
-- of which the library's `backtrace` writes as much as the buffer takes.
unfoldable pub init_backtrace_data : (go_back_in_the_stack_calc : ℕ) → (frames : List ℕ) → Backtrace
init_backtrace_data go_back frames =
    let buffer = take (symbols_count_max + go_back) frames in
    let initial_deepness = length buffer in
    if ltb go_back initial_deepness
    then record {
      pp_buffer = take (initial_deepness - go_back) (drop go_back buffer);
      stack_deepness = initial_deepness - go_back;
    }
    else record { pp_buffer = take initial_deepness buffer; stack_deepness = initial_deepness }

abbrev pub Text : Type 0
Text = List ℕ

-- `line` is an `int`, negative if unknown: `none` here.
pub record StackItem : Type 0 where
  pub address : ℕ
  pub dll_name : Text
  pub func_name : Text
  pub source_file_name : Text
  pub line : Option ℕ

-- The loop of `ConvertBacktraceToNames` over the frames and the texts of `backtrace_symbols`.
unfoldable pub name_frames : List ℕ → List Text → List StackItem
name_frames [] texts = []
name_frames (x ∷ xs) [] = []
name_frames (x ∷ xs) (t ∷ texts) =
    record { address = x; dll_name = t; func_name = []; source_file_name = []; line = none }
    ∷ name_frames xs texts

-- `ConvertBacktraceToNames`: what becomes of the vector. `symbols` is the library's
-- `backtrace_symbols`, which may fail.
unfoldable pub convert_backtrace_to_names :
    (symbols : List ℕ → Option (List Text)) → Option Backtrace → List StackItem → List StackItem
convert_backtrace_to_names symbols none stack = stack
convert_backtrace_to_names symbols (some t) stack =
    elim (symbols (take t.stack_deepness t.pp_buffer)) [
      | none ↦ stack
      | some texts ↦ name_frames (take t.stack_deepness t.pp_buffer) texts
    ]
