-- ===== src/Failure/Default.antt =====
-- The default callback and the replacing of callbacks in
-- src/core/basic/crash_investigator_alloc_dealloc_analyze.cpp.
use mathlib.Core.Path.{subst}
use old_crash_investigator.Base.{
  ℕ, ◌≡◌, ◌≢◌, ◌⊎◌, refl, ap, inl, inr, Bool, true, false, Option, none, some, [], ◌∷◌, ◌++◌,
  Returns, ◌==◌, if◌then◌else◌, Bool-cases, ==→eq, ==→ne,
}
use old_crash_investigator.Backtrace.{Text}
use old_crash_investigator.Failure.{
  FailureAction, FailureType, FailureData, FailureClbk, Callback, behind_last, base_name,
  default_report, default_failure_clbk, or_default, replace_failure_clbk,
  default_info_report_static, default_error_report_static,
}

-- The types of failure after which the default callback ends the program.
unfoldable pub is_fatal : FailureType → Bool
is_fatal FailureType.unknown = false
is_fatal FailureType.dealloc_of_non_existing_memory = false
is_fatal _ = true

-- For every type of failure but the unknown one the default callback returns, and says to end the
-- program, unless memory was freed that does not exist: then nothing is to be done.
pub default_failure_clbk-action :
    (ndebug : Bool) (d : FailureData)
    → d.failure_type ≢ FailureType.unknown
    → Returns (default_failure_clbk ndebug d) λ r. r.0 ≡ (
        if is_fatal d.failure_type
        then FailureAction.exit_app
        else FailureAction.do_not_make_action_to_prevent_crash)
unfolding default_failure_clbk default_report is_fatal
default_failure_clbk-action ndebug d known = action d.failure_type known
  where
    action :
        (t : FailureType)
        → t ≢ FailureType.unknown
        → Returns (default_report ndebug t d) λ r. r.0 ≡ (
            if is_fatal t
            then FailureAction.exit_app
            else FailureAction.do_not_make_action_to_prevent_crash)
    action FailureType.unknown n = absurd (n refl)
    action FailureType.dealloc_of_non_existing_memory n = (_, refl, refl)
    action FailureType.double_free n = (_, refl, refl)
    action FailureType.bad_realloc_mem_not_exist n = (_, refl, refl)
    action FailureType.bad_realloc_deleted_mem n = (_, refl, refl)
    action FailureType.bad_realloc_created_by_wrong_alloc n = (_, refl, refl)
    action FailureType.free_missmatch n = (_, refl, refl)
    action FailureType.possibility_of_memory_leak n = (_, refl, refl)
    action FailureType.sig_segv_handler n = (_, refl, refl)

-- No callback is null.
abbrev pub AllGiven : Callback → Type 0
AllGiven c =
    ((f : FailureClbk) × (c.clbk_fnc ≡ some f))
    × ((i : ℕ) × (c.info_clbk ≡ some i))
    × ((e : ℕ) × (c.error_clbk ≡ some e))

or_default_lem {ℓ} : {A : Type ℓ} (o : Option A) (d a : A) → o ≡ some a → some (or_default o d) ≡ o
unfolding or_default
or_default_lem none d a h = cc
or_default_lem (some b) d a h = refl

-- A client that puts back the callbacks which `ReplaceFailureClbk` returned leaves them as they
-- were, if none of them was null. In between no callback is null, whatever the client gave.
pub replace_failure_clbk-twice :
    (ndebug : Bool) (s_clbk_data new_clbk : Callback)
    → AllGiven s_clbk_data
    → AllGiven (replace_failure_clbk ndebug s_clbk_data new_clbk).1
      × (replace_failure_clbk ndebug
            (replace_failure_clbk ndebug s_clbk_data new_clbk).1
            (replace_failure_clbk ndebug s_clbk_data new_clbk).0
          ≡ ((replace_failure_clbk ndebug s_clbk_data new_clbk).1, s_clbk_data))
unfolding replace_failure_clbk
replace_failure_clbk-twice ndebug s n ((f, p), (i, q), (e, r)) = (
  ((_, refl), (_, refl), (_, refl)),
  simp (
    or_default_lem s.clbk_fnc (default_failure_clbk ndebug) f p,
    or_default_lem s.info_clbk default_info_report_static i q,
    or_default_lem s.error_clbk default_error_report_static e r,
  ),
)

-- The text has the byte nowhere.
abbrev pub IsFree : ℕ → Text → Type 0
IsFree byte [] = Unit
IsFree byte (c ∷ cs) = (c ≢ byte) × IsFree byte cs

behind_last_lem :
    (byte : ℕ) (t : Text)
    → ((behind_last byte t ≡ none) × IsFree byte t)
      ⊎ ((front name : Text) × (behind_last byte t ≡ some name)
          × (t ≡ front ++ (byte ∷ name))
          × IsFree byte name)
unfolding behind_last
behind_last_lem byte [] = inl (refl, tt)
behind_last_lem byte (c ∷ cs) = elim (behind_last_lem byte cs) [
  | inr (front, name, e, f, g) ↦ inr (c ∷ front, name, rw e refl, ap (λ x. c ∷ x) f, g)
  | inl (e, f) ↦ elim (Bool-cases (c == byte)) [
    | inl here ↦ inr ([], cs, rw (e, here) refl, ap (λ x. x ∷ cs) (==→eq c byte here), f)
    | inr there ↦ inl (rw (e, there) refl, (==→ne c byte there, f))
  ]
]

IsFree-end : (byte : ℕ) (front name : Text) → IsFree byte (front ++ name) → IsFree byte name
IsFree-end byte [] name f = f
IsFree-end byte (c ∷ cs) name f = IsFree-end byte cs name f.1

module _ (path : Text) where
  base_name_backslash : (name : Text) → behind_last b'\\' path ≡ some name → base_name path ≡ name
  unfolding base_name
  base_name_backslash name e = rw (base_name, e) refl

  base_name_slash :
      (name : Text)
      → behind_last b'\\' path ≡ none
      → behind_last b'/' path ≡ some name
      → base_name path ≡ name
  unfolding base_name
  base_name_slash name e f = rw (base_name, e, f) refl

  base_name_whole :
      behind_last b'\\' path ≡ none → behind_last b'/' path ≡ none → base_name path ≡ path
  unfolding base_name
  base_name_whole e f = rw (base_name, e, f) refl

-- What is printed of a path is its end, without a backslash, and it is the whole path or follows a
-- backslash or a slash. If the path has no backslash then it has no slash either.
pub base_name_lem :
    (path : Text)
    → ((base_name path ≡ path)
        ⊎ ((front : Text) × (c : ℕ) × ((c ≡ b'\\') ⊎ (c ≡ b'/'))
            × (path ≡ front ++ (c ∷ base_name path))))
      × IsFree b'\\' (base_name path)
      × (IsFree b'\\' path → IsFree b'/' (base_name path))
base_name_lem path = elim (behind_last_lem b'\\' path) [
  | inr (front, name, e, f, g) ↦ rw (base_name_backslash path name e) (
    inr (front, b'\\', inl refl, f),
    g,
    λ free. absurd ((IsFree-end b'\\' front (b'\\' ∷ name) (subst (IsFree b'\\') f free)).0 refl),
  )
  | inl (e, f) ↦ elim (behind_last_lem b'/' path) [
    | inr (front, name, e', f', g') ↦ rw (base_name_slash path name e e') (
      inr (front, b'/', inr refl, f'),
      (IsFree-end b'\\' front (b'/' ∷ name) (subst (IsFree b'\\') f' f)).1,
      λ _. g',
    )
    | inl (e', f') ↦ rw (base_name_whole path e e') (inl refl, f, λ _. f')
  ]
]
