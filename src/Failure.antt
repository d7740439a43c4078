-- ===== src/Failure.antt =====
-- What is reported, and to whom: include/crash_investigator/types.hpp,
-- include/crash_investigator/callback.hpp, and of
-- src/core/basic/crash_investigator_alloc_dealloc_analyze.cpp the callbacks and what they print.
--
-- What is printed is the list of the calls of the error callback, a `Piece` for each.
pub mod Default
use old_crash_investigator.Base.{
  ℕ, Bool, true, false, Option, none, some, List, [], ◌∷◌, ◌++◌, ltb, ◌==◌, if◌then◌else◌, length,
  Run, ok, stop, assertion_failed,
}
use old_crash_investigator.Backtrace.{StackItem, Text}

pub data MemoryType : Type 0 where
  not_provided new new_arr malloc : MemoryType

pub data FailureAction : Type 0 where
  unknown make_action do_not_make_action_to_prevent_crash exit_app : FailureAction

pub data FailureType : Type 0 where
  unknown : FailureType
  dealloc_of_non_existing_memory double_free bad_realloc_mem_not_exist : FailureType
  bad_realloc_deleted_mem bad_realloc_created_by_wrong_alloc free_missmatch : FailureType
  possibility_of_memory_leak sig_segv_handler : FailureType

pub record FailureData : Type 0 where
  pub failure_type : FailureType
  pub alloc_type : MemoryType
  pub free_type : MemoryType
  pub clbk_data : ℕ
  pub failure_address : ℕ
  pub bad_realloc_second_arg : ℕ
  pub stack_alloc : List StackItem
  pub stack_free : List StackItem
  pub analize_stack : List StackItem

pub data AllocName : Type 0 where
  new new_arr malloc_realloc_calloc not_provided : AllocName

pub data Piece : Type 0 where
  address : ℕ → Piece
  func_name file_name dll_name : Text → Piece
  line line_alone : ℕ → Piece
  close newline : Piece
  invalid_deallocation invalid_free realloc_invalid realloc_deallocated : ℕ → Piece
  realloc_wrong_routine : ℕ → AllocName → Piece
  non_proper_routine : ℕ → AllocName → AllocName → Piece
  previous_deallocation deallocation_was_done deallocation_was memory_was_created : Piece
  probable_leak sig_segv unable_to_change_signal_handler : Piece

-- A callback returns the action to take, and may print.
abbrev pub FailureClbk : Type 0
FailureClbk = FailureData → Run (FailureAction × List Piece)

-- `SCallback`; a report function is its address.
pub record Callback : Type 0 where
  pub user_data : ℕ
  pub clbk_fnc : Option FailureClbk
  pub info_clbk : Option ℕ
  pub error_clbk : Option ℕ

-- `strrchr(text, byte)`, and then the text behind it: none if the byte does not occur.
unfoldable pub behind_last : ℕ → Text → Option Text
behind_last byte [] = none
behind_last byte (c ∷ cs) = elim (behind_last byte cs) [
  | some rest ↦ some rest
  | none ↦ if c == byte then some cs else none
]

-- The file's name without its folders.
unfoldable pub base_name : Text → Text
unfolding behind_last
base_name path = elim (behind_last b'\\' path) [
  | some name ↦ name
  | none ↦ elim (behind_last b'/' path) [ some name ↦ name | none ↦ path ]
]

abbrev pub not_empty : Text → Bool
not_empty t = ltb 0 (length t)

-- The line's number, which is printed if it is positive.
unfoldable pub line_pieces : Bool → Option ℕ → List Piece
line_pieces in_brackets none = if in_brackets then close ∷ [] else []
line_pieces in_brackets (some n) =
    if ltb 0 n
    then (if in_brackets then line n else line_alone n) ∷ close ∷ []
    else (if in_brackets then close ∷ [] else [])

-- `PrintStackSingleLine`.
unfoldable pub print_stack_single_line : StackItem → List Piece
unfolding line_pieces base_name
print_stack_single_line i =
    address i.address
    ∷ ((if not_empty i.func_name then func_name i.func_name ∷ [] else [])
        ++ ((if not_empty i.source_file_name
              then file_name (base_name i.source_file_name) ∷ []
              else [])
            ++ (line_pieces (not_empty i.source_file_name) i.line
                ++ ((if not_empty i.dll_name then dll_name i.dll_name ∷ [] else [])
                    ++ newline ∷ []))))

-- `PrintStack`.
unfoldable pub print_stack : List StackItem → List Piece
unfolding print_stack_single_line
print_stack [] = []
print_stack (i ∷ is) = print_stack_single_line i ++ print_stack is

-- `AllocTypeFromMemoryType`.
unfoldable pub alloc_type_from_memory_type : MemoryType → AllocName
alloc_type_from_memory_type MemoryType.new = AllocName.new
alloc_type_from_memory_type MemoryType.new_arr = AllocName.new_arr
alloc_type_from_memory_type MemoryType.malloc = AllocName.malloc_realloc_calloc
alloc_type_from_memory_type MemoryType.not_provided = AllocName.not_provided

-- The body of `DefaultFailureClbk` for a type of failure, compiled with `NDEBUG` or without.
unfoldable pub default_report :
    (ndebug : Bool) → FailureType → FailureData → Run (FailureAction × List Piece)
unfolding print_stack alloc_type_from_memory_type
default_report ndebug FailureType.dealloc_of_non_existing_memory d = ok (
  FailureAction.do_not_make_action_to_prevent_crash,
  invalid_deallocation d.failure_address ∷ print_stack d.analize_stack,
)
default_report ndebug FailureType.double_free d = ok (
  FailureAction.exit_app,
  (invalid_free d.failure_address ∷ print_stack d.analize_stack)
      ++ ((previous_deallocation ∷ print_stack d.stack_free)
          ++ (memory_was_created ∷ print_stack d.stack_alloc)),
)
default_report ndebug FailureType.bad_realloc_mem_not_exist d =
    ok (FailureAction.exit_app, realloc_invalid d.failure_address ∷ print_stack d.analize_stack)
default_report ndebug FailureType.bad_realloc_deleted_mem d = ok (
  FailureAction.exit_app,
  (realloc_deallocated d.failure_address ∷ print_stack d.analize_stack)
      ++ ((deallocation_was_done ∷ print_stack d.stack_free)
          ++ (memory_was_created ∷ print_stack d.stack_alloc)),
)
default_report ndebug FailureType.bad_realloc_created_by_wrong_alloc d = ok (
  FailureAction.exit_app,
  (realloc_wrong_routine d.failure_address (alloc_type_from_memory_type d.alloc_type)
        ∷ print_stack d.analize_stack)
      ++ (memory_was_created ∷ print_stack d.stack_alloc),
)
default_report ndebug FailureType.free_missmatch d = ok (
  FailureAction.exit_app,
  (non_proper_routine d.failure_address (alloc_type_from_memory_type d.alloc_type)
          (alloc_type_from_memory_type d.free_type)
        ∷ print_stack d.analize_stack)
      ++ ((deallocation_was ∷ print_stack d.stack_free)
          ++ (memory_was_created ∷ print_stack d.stack_alloc)),
)
default_report ndebug FailureType.possibility_of_memory_leak d =
    ok (FailureAction.exit_app, probable_leak ∷ print_stack d.stack_alloc)
default_report ndebug FailureType.sig_segv_handler d =
    ok (FailureAction.exit_app, sig_segv ∷ print_stack d.analize_stack)
default_report ndebug FailureType.unknown d =
    if ndebug then ok (FailureAction.exit_app, []) else stop assertion_failed

-- `DefaultFailureClbk`.
unfoldable pub default_failure_clbk : (ndebug : Bool) → FailureClbk
unfolding default_report
default_failure_clbk ndebug d = default_report ndebug d.failure_type d

-- The default report functions write to `stdout` and `stderr`: their addresses in the model.
abbrev pub default_info_report_static : ℕ
default_info_report_static = 1

abbrev pub default_error_report_static : ℕ
default_error_report_static = 2

-- A null pointer stands for the default.
unfoldable pub or_default {ℓ} : {A : Type ℓ} → Option A → A → A
or_default none d = d
or_default (some a) d = a

-- `ReplaceFailureClbk`: the callbacks that there were, and the new ones.
unfoldable pub replace_failure_clbk :
    (ndebug : Bool) (s_clbk_data new_clbk : Callback) → Callback × Callback
unfolding or_default
replace_failure_clbk ndebug s_clbk_data new_clbk = (
  s_clbk_data,
  record {
    user_data = new_clbk.user_data;
    clbk_fnc = some (or_default new_clbk.clbk_fnc (default_failure_clbk ndebug));
    info_clbk = some (or_default new_clbk.info_clbk default_info_report_static);
    error_clbk = some (or_default new_clbk.error_clbk default_error_report_static);
  },
)
