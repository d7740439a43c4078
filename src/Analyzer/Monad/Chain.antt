-- ===== src/Analyzer/Monad/Chain.antt =====
-- Chains of calls: what is known of the steps where the whole returns, and of the whole where a step
-- does, for src/core/basic/crash_investigator_alloc_dealloc_analyze.cpp.
use old_crash_investigator.Base.{◌≡◌, refl, ◌⊎◌, inl, inr, Run, ok, stop, Stop, arith}
use old_crash_investigator.Analyzer.Monad.{M, ◌>>=◌, and_then, lift, lift_unit, lift_read}

-- Inversion of a chain that returns.
pub and_then-returns :
    {S A B : Type 0} (first : Run (A × S)) (k : A → M S B) {b : B} {u : S}
    → and_then first k ≡ ok (b, u)
    → (a : A) × (v : S) × (first ≡ ok (a, v)) × (k a v ≡ ok (b, u))
and_then-returns (ok (a, v)) k h = (a, v, refl, h)
and_then-returns (stop e) k h = cc

pub bind-returns :
    {S A B : Type 0} (m : M S A) (k : A → M S B) (s : S) {b : B} {u : S}
    → (m >>= k) s ≡ ok (b, u)
    → (a : A) × (v : S) × (m s ≡ ok (a, v)) × (k a v ≡ ok (b, u))
bind-returns m k s h = and_then-returns (m s) k h

pub lift-returns :
    {S A B : Type 0} (r : Run (A × B)) (f : B → S) {a : A} {u : S}
    → lift r f ≡ ok (a, u)
    → (b : B) × (u ≡ f b)
lift-returns (ok (a, b)) f h = (b, ground arith)
lift-returns (stop e) f h = cc

pub lift_unit-returns :
    {S B : Type 0} (r : Run B) (f : B → S) {a : Unit {0}} {u : S}
    → lift_unit r f ≡ ok (a, u)
    → (b : B) × (u ≡ f b)
lift_unit-returns (ok b) f h = (b, ground arith)
lift_unit-returns (stop e) f h = cc

pub lift_read-returns :
    {S A : Type 0} (r : Run A) (s : S) {a : A} {u : S} → lift_read r s ≡ ok (a, u) → u ≡ s
lift_read-returns (ok a) s h = ground arith
lift_read-returns (stop e) s h = cc

-- A chain whose first step returns, or stops.
pub bind-step :
    {S A B : Type 0} {first : Run (A × S)} (k : A → M S B) {v : S} {a : A} {r : Run (B × S)}
    → first ≡ ok (a, v)
    → k a v ≡ r
    → and_then first k ≡ r
bind-step k h g = rw h g

pub bind-stop :
    {S A B : Type 0} {first : Run (A × S)} (k : A → M S B) {e : Stop}
    → first ≡ stop e
    → and_then first k ≡ stop e
bind-stop k h = rw h refl

-- The program stops in one way or another.
abbrev pub Stops : {A : Type 0} → Run A → Type 0
Stops r = (e : Stop) × (r ≡ stop e)

pub bind-Stops :
    {S A B : Type 0} (first : Run (A × S)) (k : A → M S B)
    → ((a : A) (v : S) → first ≡ ok (a, v) → Stops (k a v))
    → Stops (and_then first k)
bind-Stops (ok (a, v)) k h = h a v refl
bind-Stops (stop e) k h = (e, refl)

pub Run-cases : {A : Type 0} (r : Run A) → ((a : A) × (r ≡ ok a)) ⊎ Stops r
Run-cases (ok a) = inl (a, refl)
Run-cases (stop e) = inr (e, refl)
