-- ===== src/LeakOnly/Consistent.antt =====
-- What the state of src/core/analyze/crash_investigator_analyze_leak_only_new_delete.cpp means: whom the
-- C library's memory belongs to, and that the table of the stacks counts the table of the memories.
pub mod Alike
pub mod Heap
pub mod Tables
use old_crash_investigator.Base.{
  ℕ, ◌<◌, ◌≡◌, ◌≢◌, refl, sym, ◌∙◌, ap, Bool, true, false, Option, none, some, update, Run, ok,
  null, inl, inr, Bool-cases,
}
use old_crash_investigator.Backtrace.{Backtrace, IsWhole, is_the_same_stack, hash_of_the_stack}
use old_crash_investigator.Backtrace.Same.{is_the_same_stack_iff}
use old_crash_investigator.Backtrace.Hash.{hash-same}
use old_crash_investigator.Container.{Hash, IsHash}
use old_crash_investigator.LeakOnly.{CLibrary, Trace, bt_hash, back_trc_eql, stack_keys}

-- What `malloc` and `free` promise: `malloc` returns null, or memory that is not allocated yet; `free`
-- takes any memory that is allocated, and null, which is not allocated and changes nothing.
pub record IsLibrary (lib : CLibrary) : Type 1 where
  pub is_live : lib.Heap → ℕ → Bool
  pub null-live : (h : lib.Heap) → is_live h null ≡ false
  pub malloc_fn-live :
      (n : ℕ) (h : lib.Heap)
      → (lib.malloc_fn n h).0 ≢ null
      → (is_live h (lib.malloc_fn n h).0 ≡ false)
        × ((a : ℕ)
            → is_live (lib.malloc_fn n h).1 a ≡ update (is_live h) (lib.malloc_fn n h).0 true a)
  pub free_fn-live :
      (p : ℕ) (h : lib.Heap)
      → is_live h p ≡ true
      → (h' : lib.Heap) × (lib.free_fn p h ≡ ok h')
        × ((a : ℕ) → is_live h' a ≡ update (is_live h) p false a)
  pub free_fn-null : (h : lib.Heap) → lib.free_fn null h ≡ ok h

-- `malloc` never returns null.
abbrev pub IsPlenty : CLibrary → Type 0
IsPlenty lib = (n : ℕ) (h : lib.Heap) → (lib.malloc_fn n h).0 ≢ null

-- Whom a memory belongs to: the program's client, the trace of one of its memories, the key of a
-- stack, the buffer of a trace; or nobody that is known.
pub data Role : Type 0 where
  unowned user stack_key : Role
  trace_of buffer_of : ℕ → Role

-- A trace that lives, is whole and not empty.
abbrev pub IsGood : (ℕ → Option Trace) → ℕ → Type 0
IsGood traces p =
    (t : Trace) × (traces p ≡ some t) × IsWhole t.backtrace × (0 < t.backtrace.stack_deepness)

abbrev pub IsTrace : (ℕ → Role) → (ℕ → Option Trace) → ℕ → Role → Type 0
IsTrace role traces p r =
    (role p ≡ r) × (good : IsGood traces p) × (role good.0.buffer ≡ buffer_of p)

-- A trace that lives, with that stack; and the same stack, for traces that live.
abbrev pub is_like : Backtrace → Option Trace → Bool
is_like b none = false
is_like b (some t) = is_the_same_stack b t.backtrace

abbrev pub same_trace : Option Trace → Option Trace → Bool
same_trace none o = false
same_trace (some t) o = is_like t.backtrace o

unfoldable pub alike : (ℕ → Option Trace) → ℕ → ℕ → Bool
alike traces p q = same_trace (traces p) (traces q)

pub alike_refl : (traces : ℕ → Option Trace) (p : ℕ) → IsGood traces p → alike traces p p ≡ true
unfolding alike
alike_refl traces p (t, e, whole, deep) =
    rw (alike, e) ((is_the_same_stack_iff t.backtrace t.backtrace whole whole).1 (deep, refl))

pub alike_join :
    (traces : ℕ → Option Trace) (p q r : ℕ)
    → IsGood traces p
    → IsGood traces q
    → IsGood traces r
    → alike traces p r ≡ true
    → alike traces q r ≡ true
    → alike traces p q ≡ true
unfolding alike
alike_join traces p q r (t, e, w, deep) (u, f, x, deep') (v, g, y, deep'') a b =
    let a' : is_the_same_stack t.backtrace v.backtrace ≡ true = rw (alike, e, g) at a in
    let b' : is_the_same_stack u.backtrace v.backtrace ≡ true = rw (alike, f, g) at b in
    let i = (is_the_same_stack_iff t.backtrace v.backtrace w y).0 a' in
    let j = (is_the_same_stack_iff u.backtrace v.backtrace x y).0 b' in
    rw (alike, e, f) ((is_the_same_stack_iff t.backtrace u.backtrace w x).1 (deep, i.1 ∙ sym j.1))

pub alike_sym :
    (traces : ℕ → Option Trace) (p q : ℕ)
    → IsGood traces p
    → IsGood traces q
    → alike traces p q ≡ true
    → alike traces q p ≡ true
alike_sym traces p q g h a = alike_join traces q p q h g h (alike_refl traces q h) a

-- The keys of the table of stacks, in these words.
pub back_trc_eql-alike :
    (traces : ℕ → Option Trace) (p q : ℕ)
    → IsGood traces p
    → IsGood traces q
    → back_trc_eql traces p q ≡ ok (alike traces p q)
unfolding back_trc_eql alike
back_trc_eql-alike traces p q (t, e, _, _) (u, f, _, _) = rw (back_trc_eql, alike, e, f) refl

pub bt_hash-alike :
    (traces : ℕ → Option Trace) (p q : ℕ)
    → IsGood traces p
    → IsGood traces q
    → alike traces p q ≡ true
    → (code : ℕ) × (bt_hash traces p ≡ ok code) × (bt_hash traces q ≡ ok code)
unfolding bt_hash alike
bt_hash-alike traces p q (t, e, w, deep) (u, f, x, deep') a =
    let a' : is_the_same_stack t.backtrace u.backtrace ≡ true = rw (alike, e, f) at a in
    (
      hash_of_the_stack t.backtrace,
      rw (bt_hash, e) refl,
      rw (bt_hash, f, hash-same t.backtrace u.backtrace w x a') refl,
    )

module _ (lib : CLibrary) (library : IsLibrary lib) (hash : Hash) (is_hash : IsHash hash) where
  -- The invariant. Every entry of the table of memories is of a memory of the client, with a trace of its
  -- own; every entry of the table of stacks has a trace of its own as its key, and its counter is the
  -- number of memories with that stack, at least one; each such stack has one entry.
  pub record Consistent (role : ℕ → Role) (heap : lib.Heap) (traces : ℕ → Option Trace)
      (mem stack : hash.Table) : Type 0 where
    pub mem-sound : is_hash.IsSound mem
    pub stack-sound : is_hash.IsSound stack
    pub dead : (a : ℕ) → library.is_live heap a ≡ false → role a ≡ unowned
    pub mem_trace :
        (p trace : ℕ)
        → is_hash.value_at mem p ≡ some trace
        → (role p ≡ user) × IsTrace role traces trace (trace_of p)
    pub stack_trace :
        (k n : ℕ) → is_hash.value_at stack k ≡ some n → IsTrace role traces k stack_key
    pub counted :
        (k n : ℕ)
        → is_hash.value_at stack k ≡ some n
        → (n ≡ is_hash.count_where (λ _ trace. alike traces k trace) mem) × (0 < n)
    pub unique :
        (k l n w : ℕ)
        → is_hash.value_at stack k ≡ some n
        → is_hash.value_at stack l ≡ some w
        → alike traces k l ≡ true
        → k ≡ l
    pub present :
        (p trace : ℕ)
        → is_hash.value_at mem p ≡ some trace
        → (k : ℕ) × (n : ℕ) × (is_hash.value_at stack k ≡ some n) × (alike traces k trace ≡ true)

  module _ {role : ℕ → Role} {heap : lib.Heap} {traces : ℕ → Option Trace} {mem stack : hash.Table}
      (c : Consistent role heap traces mem stack) where
    pub live : (a : ℕ) → role a ≢ unowned → library.is_live heap a ≡ true
    live a owned = elim (Bool-cases (library.is_live heap a)) [
      | inl holds ↦ holds
      | inr fails ↦ absurd (owned (c.dead a fails))
    ]

    pub not_null : (a : ℕ) → role a ≢ unowned → a ≢ null
    not_null a owned e = owned (c.dead a (ap (library.is_live heap) e ∙ library.null-live heap))

    -- `find` of a trace whose stack has an entry, and of one whose stack has none.
    pub find_stack_present :
        (k n trace : ℕ)
        → is_hash.value_at stack k ≡ some n
        → IsGood traces trace
        → alike traces k trace ≡ true
        → (code : ℕ) × (hash.find (stack_keys traces) trace stack ≡ ok (some k, code))
    find_stack_present k n trace e good a =
        let key = (c.stack_trace k n e).1 in
        let codes = bt_hash-alike traces k trace key good a in
        (
          codes.0,
          is_hash.find_present (stack_keys traces) trace codes.0 k n stack c.stack-sound codes.2
              codes.1 e (back_trc_eql-alike traces k trace key good ∙ ap ok a)
              (λ l w f ne.
                back_trc_eql-alike traces l trace (c.stack_trace l w f).1 good
                ∙ ap ok (other l w f ne)),
        )
      where
        other : (l w : ℕ) → is_hash.value_at stack l ≡ some w → l ≢ k → alike traces l trace ≡ false
        other l w f ne = elim (Bool-cases (alike traces l trace)) [
          | inr fails ↦ fails
          | inl holds ↦ absurd (
              ne (
                c.unique l k w n f e (
                  alike_join traces l k trace (c.stack_trace l w f).1 (c.stack_trace k n e).1 good
                    holds a)))
        ]

    pub find_stack_absent :
        (trace : ℕ)
        → IsGood traces trace
        → ((l w : ℕ) → is_hash.value_at stack l ≡ some w → alike traces l trace ≡ false)
        → (code : ℕ) × (bt_hash traces trace ≡ ok code)
          × (hash.find (stack_keys traces) trace stack ≡ ok (none, code))
    find_stack_absent trace good others =
        let codes = bt_hash-alike traces trace trace good good (alike_refl traces trace good) in
        (
          codes.0,
          codes.1,
          is_hash.find_absent (stack_keys traces) trace codes.0 stack c.stack-sound codes.1
              (λ l w f.
                back_trc_eql-alike traces l trace (c.stack_trace l w f).1 good
                ∙ ap ok (others l w f)),
        )
