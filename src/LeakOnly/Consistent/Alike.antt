-- ===== src/LeakOnly/Consistent/Alike.antt =====
-- Traces with the same stack, in two maps of traces or where one is a copy, for
-- src/core/analyze/crash_investigator_analyze_leak_only_new_delete.cpp.
use old_crash_investigator.Base.{
  ℕ, ◌<◌, ◌≡◌, ◌≢◌, refl, sym, ◌∙◌, ap, inl, inr, true, Option, some, Bool-cases,
}
use old_crash_investigator.Backtrace.{IsWhole}
use old_crash_investigator.Backtrace.Same.{is_the_same_stack_iff}
use old_crash_investigator.LeakOnly.{Trace, bt_hash}
use old_crash_investigator.LeakOnly.Consistent.{
  Role, unowned, IsTrace, IsGood, alike, alike_join, alike_sym, same_trace,
}

pub alike_ext :
    (traces : ℕ → Option Trace) (p q r : ℕ)
    → IsGood traces p
    → IsGood traces q
    → IsGood traces r
    → alike traces p q ≡ true
    → alike traces p r ≡ alike traces q r
alike_ext traces p q r gp gq gr same = elim (Bool-cases (alike traces p r)) [
  | inl holds ↦
      holds
      ∙ sym (
          alike_join traces q r p gq gr gp (alike_sym traces p q gp gq same)
            (alike_sym traces p r gp gr holds))
  | inr fails ↦ elim (Bool-cases (alike traces q r)) [
    | inr fails' ↦ fails ∙ sym fails'
    | inl holds' ↦
        let both : alike traces p r ≡ true =
          alike_join traces p r q gp gr gq same (alike_sym traces q r gq gr holds') in
        cc
  ]
]

pub alike_kept :
    (traces traces' : ℕ → Option Trace) (p q : ℕ)
    → traces' p ≡ traces p
    → traces' q ≡ traces q
    → alike traces' p q ≡ alike traces p q
unfolding alike
alike_kept traces traces' p q e f =
    ap (λ o. same_trace o (traces' q)) e ∙ ap (λ o. same_trace (traces p) o) f

-- A copy has the same stack.
pub alike_copy :
    (traces : ℕ → Option Trace) (p q b : ℕ) (t : Trace)
    → traces p ≡ some (record { buffer = b; backtrace = t.backtrace })
    → traces q ≡ some t
    → IsWhole t.backtrace
    → 0 < t.backtrace.stack_deepness
    → alike traces p q ≡ true
unfolding alike
alike_copy traces p q b t e f whole deep =
    ap (λ o. same_trace o (traces q)) e
    ∙ ap (λ o. same_trace (some (record { buffer = b; backtrace = t.backtrace })) o) f
    ∙ (is_the_same_stack_iff t.backtrace t.backtrace whole whole).1 (deep, refl)

pub bt_hash_kept :
    (traces traces' : ℕ → Option Trace) (p : ℕ)
    → traces' p ≡ traces p
    → bt_hash traces' p ≡ bt_hash traces p
unfolding bt_hash
bt_hash_kept traces traces' p e = ap (λ (o : Option Trace). bt_hash (λ _. o) p) e

pub IsTrace_kept :
    (role role' : ℕ → Role) (traces traces' : ℕ → Option Trace) (p : ℕ) (w : Role)
    → IsTrace role traces p w
    → w ≢ unowned
    → ((a : ℕ) → role a ≢ unowned → (role' a ≡ role a) × (traces' a ≡ traces a))
    → IsTrace role' traces' p w
IsTrace_kept role role' traces traces' p w (own, (t, e, whole, deep), buf) owned kept =
    let mine = kept p (λ f. owned (sym own ∙ f)) in
    (
      mine.0 ∙ own,
      (t, mine.1 ∙ e, whole, deep),
      (kept t.buffer (λ f. let g = sym buf ∙ f in cc)).0 ∙ buf,
    )
