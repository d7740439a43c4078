-- ===== src/LeakOnly/Setup.antt =====
-- The empty tables that the set-up of
-- src/core/analyze/crash_investigator_analyze_leak_only_new_delete.cpp makes.
use old_crash_investigator.Base.{ℕ, ◌≡◌, refl, sym, ◌∙◌, Option, some}
use old_crash_investigator.Container.{Hash, IsHash}
use old_crash_investigator.LeakOnly.{CLibrary, Trace}
use old_crash_investigator.LeakOnly.Consistent.{IsLibrary, unowned, is_like, Consistent}
use old_crash_investigator.LeakOnly.Alloc.{memories_like}
use old_crash_investigator.Backtrace.{Backtrace}

module _ (lib : CLibrary) (library : IsLibrary lib) (hash : Hash) (is_hash : IsHash hash) where
  nothing : {v : ℕ} (k : ℕ) → is_hash.value_at hash.empty k ≡ some v → ⊥
  nothing k e = let f = sym (is_hash.value_at-empty k) ∙ e in cc

  -- Empty tables are consistent with any memory that has no owner.
  pub empty-Consistent :
      (heap : lib.Heap) (traces : ℕ → Option Trace)
      → Consistent lib library hash is_hash (λ _. unowned) heap traces hash.empty hash.empty
  empty-Consistent heap traces = record {
    mem-sound = is_hash.empty-IsSound;
    stack-sound = is_hash.empty-IsSound;
    dead = λ a e. refl;
    mem_trace = λ p t e. absurd (nothing p e);
    stack_trace = λ k n e. absurd (nothing k e);
    counted = λ k n e. absurd (nothing k e);
    unique = λ k l n w e f a. absurd (nothing k e);
    present = λ p t e. absurd (nothing p e);
  }

  pub memories_like_empty :
      (b : Backtrace) (traces : ℕ → Option Trace)
      → memories_like lib library hash is_hash b traces hash.empty ≡ 0
  unfolding memories_like
  memories_like_empty b traces =
      is_hash.count_where_none (λ _ t. is_like b (traces t)) hash.empty is_hash.empty-IsSound
        (λ k v e. absurd (nothing k e))
