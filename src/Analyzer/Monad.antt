-- ===== src/Analyzer/Monad.antt =====
-- Code that changes a state and may stop the program, for
-- src/core/basic/crash_investigator_alloc_dealloc_analyze.cpp.
pub mod Chain
use old_crash_investigator.Base.{Run, ok, stop, Stop}

abbrev pub M : Type 0 → Type 0 → Type 0
M S A = S → Run (A × S)

module _ {S : Type 0} where
  abbrev pub pure : {A : Type 0} → A → M S A
  pure a s = ok (a, s)

  abbrev pub and_then : {A B : Type 0} → Run (A × S) → (A → M S B) → Run (B × S)
  and_then (ok (a, s)) k = k a s
  and_then (stop e) k = stop e

  infixl 5 ◌>>=◌ ◌>>◌
  abbrev pub ◌>>=◌ : {A B : Type 0} → M S A → (A → M S B) → M S B
  ◌>>=◌ m k s = and_then (m s) k

  abbrev pub ◌>>◌ : {B : Type 0} → M S (Unit {0}) → M S B → M S B
  m >> k = m >>= λ _. k

  abbrev pub abort : {A : Type 0} → Stop → M S A
  abort e s = stop e

  abbrev pub get : M S S
  get s = ok (s, s)

  -- A call that reads a part of the state and returns it anew, or changes it alone, or only reads.
  abbrev pub lift : {A B : Type 0} → Run (A × B) → (B → S) → Run (A × S)
  lift (ok (a, b)) f = ok (a, f b)
  lift (stop e) f = stop e

  abbrev pub lift_unit : {B : Type 0} → Run B → (B → S) → Run (Unit {0} × S)
  lift_unit (ok b) f = ok (tt, f b)
  lift_unit (stop e) f = stop e

  abbrev pub lift_read : {A : Type 0} → Run A → S → Run (A × S)
  lift_read (ok a) s = ok (a, s)
  lift_read (stop e) s = stop e
