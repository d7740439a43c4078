-- ===== src/Backtrace/Windows.antt =====
-- Stack traces on Windows: src/core/backtrace/crash_investigator_backtrace_windows.cpp, where its
-- allocations succeed. `IsTheSameStack` and `HashOfTheStack` are written there as they are for Linux.
use old_crash_investigator.Base.{
  ℕ, suc, ◌+◌, ◌-◌, ◌%◌, ◌^◌, ◌≤◌, ◌<◌, ◌≡◌, refl, inl, inr, true, Option, none, some, List, [],
  ◌∷◌, length, ltb, ltb→ge, Bool-cases, if◌then◌else◌, arith,
}
use old_crash_investigator.Backtrace.{Backtrace, IsWhole, is_the_same_stack, Text, StackItem}
use old_crash_investigator.Backtrace.Same.{is_the_same_stack_iff}

-- `CaptureStackBackTrace`, which is not asked for a hash: the frames to skip and to capture.
abbrev pub Capture : Type 0
Capture = ℕ → ℕ → List ℕ

-- `InitBacktraceDataForCurrentStack`; the number of frames to capture is a `DWORD`.
unfoldable pub init_backtrace_data_windows : Capture → (go_back : ℕ) → Option Backtrace
init_backtrace_data_windows capture go_back =
    let frames = capture (go_back + 1) ((64 + 2 ^ 32 - (go_back + 1)) % 2 ^ 32) in
    if ltb (length frames) 1
    then none
    else some (record { pp_buffer = frames; stack_deepness = length frames })

-- What the symbol handler knows of an address: the function, the line with its file, the module.
pub record Symbols : Type 0 where
  pub sym_from_addr : ℕ → Option Text
  pub sym_get_line_from_addr : ℕ → Option (Option Text × ℕ)
  pub sym_get_module_info : ℕ → Option Text

unfoldable pub or_text : Option Text → Text → Text
or_text none t = t
or_text (some u) t = u

-- `GetSymbolInfo`.
unfoldable pub get_symbol_info : Symbols → StackItem → StackItem
unfolding or_text
get_symbol_info symbols i =
    let named = record i { func_name = or_text (symbols.sym_from_addr i.address) i.func_name } in
    let lined : StackItem = elim (symbols.sym_get_line_from_addr i.address) [
      | some (file, n) ↦ record named {
        source_file_name = or_text file named.source_file_name;
        line = some n;
      }
      | none ↦ record named { line = none }
    ] in
    record lined { dll_name = or_text (symbols.sym_get_module_info i.address) lined.dll_name }

abbrev pub empty_item : ℕ → StackItem
empty_item address = record {
  address = address;
  dll_name = [];
  func_name = [];
  source_file_name = [];
  line = none;
}

-- `ConvertBacktraceToNames`, into an empty vector: the frames of the buffer.
unfoldable pub convert_backtrace_to_names_windows : Symbols → (rounds : ℕ) → List ℕ → List StackItem
unfolding get_symbol_info
convert_backtrace_to_names_windows symbols (suc n) (x ∷ xs) =
    get_symbol_info symbols (empty_item x) ∷ convert_backtrace_to_names_windows symbols n xs
convert_backtrace_to_names_windows symbols _ _ = []

-- A trace that is taken on Windows, where less than 64 callers are left out and the system captures no
-- more frames than it is asked for, is the same stack as itself: it is whole and not empty. With those
-- left out counted, it has less than 64 frames.
pub init_backtrace_data_windows-same :
    (capture : Capture) (go_back : ℕ) (t : Backtrace)
    → ((skip count : ℕ) → length (capture skip count) ≤ count)
    → go_back < 64
    → init_backtrace_data_windows capture go_back ≡ some t
    → IsWhole t × (is_the_same_stack t t ≡ true) × (t.stack_deepness + go_back < 64)
unfolding init_backtrace_data_windows
init_backtrace_data_windows-same capture go_back t most small h =
    elim (Bool-cases (ltb (length frames) 1)) [
      | inl bare ↦ let e = rw bare at h in cc
      | inr full ↦
          let e = rw full at h in
          let same : taken ≡ t = ground arith in
          rw (← same) (
            refl,
            (is_the_same_stack_iff taken taken refl refl).1 (ltb→ge (length frames) 1 full, refl),
            omega (arith, most (go_back + 1) ((64 + 2 ^ 32 - (go_back + 1)) % 2 ^ 32)),
          )
    ]
  where
    frames : List ℕ
    frames = capture (go_back + 1) ((64 + 2 ^ 32 - (go_back + 1)) % 2 ^ 32)

    taken : Backtrace
    taken = record { pp_buffer = frames; stack_deepness = length frames }
