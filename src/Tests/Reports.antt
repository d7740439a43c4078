-- ===== src/Tests/Reports.antt =====
-- Reports and callbacks of src/core/basic/crash_investigator_alloc_dealloc_analyze.cpp.
use old_crash_investigator.Base.{
  ℕ, ◌≡◌, ◌≢◌, ◌⊎◌, refl, false, none, some, [], ◌∷◌, ◌++◌, ok, Returns, if◌then◌else◌,
}
use old_crash_investigator.Backtrace.{Text}
use old_crash_investigator.Failure.{
  MemoryType, FailureAction, FailureType, FailureData, Callback, base_name, default_failure_clbk,
  replace_failure_clbk,
}
use old_crash_investigator.Failure.Default.{
  is_fatal, default_failure_clbk-action, AllGiven, replace_failure_clbk-twice, IsFree,
  base_name_lem,
}

abbrev double_free_data : FailureData
double_free_data = record {
  failure_type = FailureType.double_free;
  alloc_type = MemoryType.new;
  free_type = MemoryType.not_provided;
  clbk_data = 0;
  failure_address = 4096;
  bad_realloc_second_arg = 0;
  stack_alloc = [];
  stack_free = [];
  analize_stack = [];
}

double_free_known : FailureType.double_free ≢ FailureType.unknown
double_free_known e = cc

default_failure_clbk-action_example : Returns (default_failure_clbk false double_free_data) λ r.
    r.0 ≡ (
      if is_fatal FailureType.double_free
      then FailureAction.exit_app
      else FailureAction.do_not_make_action_to_prevent_crash)
default_failure_clbk-action_example =
    default_failure_clbk-action false double_free_data double_free_known

abbrev initial_clbk : Callback
initial_clbk = record {
  user_data = 0;
  clbk_fnc = some (default_failure_clbk false);
  info_clbk = some 1;
  error_clbk = some 2;
}

abbrev own_clbk : Callback
own_clbk = record {
  user_data = 9;
  clbk_fnc = some (λ d. ok (FailureAction.make_action, []));
  info_clbk = none;
  error_clbk = some 77;
}

replace_failure_clbk-twice_example :
    AllGiven (replace_failure_clbk false initial_clbk own_clbk).1
    × (replace_failure_clbk false
          (replace_failure_clbk false initial_clbk own_clbk).1
          (replace_failure_clbk false initial_clbk own_clbk).0
        ≡ ((replace_failure_clbk false initial_clbk own_clbk).1, initial_clbk))
replace_failure_clbk-twice_example =
    replace_failure_clbk-twice false initial_clbk own_clbk
      ((default_failure_clbk false, refl), (1, refl), (2, refl))

-- The bytes of `a/b\c`.
abbrev mixed_path : Text
mixed_path = b'a' ∷ b'/' ∷ b'b' ∷ b'\\' ∷ b'c' ∷ []

base_name_lem_example :
    ((base_name mixed_path ≡ mixed_path)
      ⊎ ((front : Text) × (c : ℕ) × ((c ≡ b'\\') ⊎ (c ≡ b'/'))
          × (mixed_path ≡ front ++ (c ∷ base_name mixed_path))))
    × IsFree b'\\' (base_name mixed_path)
    × (IsFree b'\\' mixed_path → IsFree b'/' (base_name mixed_path))
base_name_lem_example = base_name_lem mixed_path
