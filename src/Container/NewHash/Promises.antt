-- ===== src/Container/NewHash/Promises.antt =====
-- That `NewHash` of src/core/analyze/crash_investigator_analyze_leak_only_new_delete_std_hash.cpp keeps the
-- promises of a table.
use native.Mathlib.Decide.{ℕ_discrete}
use old_crash_investigator.Base.{
  ℕ, ◌+◌, ◌≡◌, ◌≢◌, refl, sym, ap, inl, inr, Bool, true, false, none, some, [], ◌∷◌, update, Run,
  ok, arith, eq→==, Bool-cases, ◌⊎◌, ne→==,
}
use old_crash_investigator.Container.{IsHash, one_if}
use old_crash_investigator.Container.NewHash.{
  Entries, find_equal, find, lookup, second, change, set_second, add_entry_with_known_hash, without,
  remove, count_where, new_hash, Distinct,
}

find_equal_absent :
    (equal : ℕ → ℕ → Run Bool) (key : ℕ) (es : Entries)
    → Distinct es
    → ((k v : ℕ) → lookup es k ≡ some v → equal k key ≡ ok false)
    → find_equal equal key es ≡ ok none
unfolding find_equal lookup Distinct
find_equal_absent equal key [] d h = refl
find_equal_absent equal key ((k, v) ∷ es) d h =
    rw (h k v (ground arith))
      (find_equal_absent equal key es d.1 (λ l w e. h l w (ground (arith, d.0))))

find_equal_present :
    (equal : ℕ → ℕ → Run Bool) (key k v : ℕ) (es : Entries)
    → Distinct es
    → lookup es k ≡ some v
    → equal k key ≡ ok true
    → ((l w : ℕ) → lookup es l ≡ some w → l ≢ k → equal l key ≡ ok false)
    → find_equal equal key es ≡ ok (some k)
unfolding find_equal lookup Distinct
find_equal_present equal key k v [] d e same h = cc
find_equal_present equal key k v ((l, w) ∷ es) d e same h = elim (ℕ_discrete k l) [
  | yes here ↦
      let same' : equal l key ≡ ok true = rw (← here) same in
      rw same' (ap (λ x. ok (some x)) (sym here))
  | no other ↦ rw (h l w (ground arith) (λ q. other (sym q))) (
      find_equal_present equal key k v es d.1 (ground arith) same
        (λ m x f ne. h m x (ground (arith, d.0)) ne))
]

lookup-change :
    (k v w : ℕ) (es : Entries)
    → lookup es k ≡ some v
    → (l : ℕ) → lookup (change k w es) l ≡ update (lookup es) k (some w) l
unfolding lookup change update
lookup-change k v w [] e l = cc
lookup-change k v w ((m, x) ∷ es) e l = elim (ℕ_discrete k m) [
  | yes here ↦ ground arith
  | no other ↦ ground (arith, lookup-change k v w es (ground arith) l)
]

change-Distinct :
    (k v w : ℕ) (es : Entries) → Distinct es → lookup es k ≡ some v → Distinct (change k w es)
unfolding lookup change Distinct update
change-Distinct k v w [] d e = d
change-Distinct k v w ((m, x) ∷ es) d e = elim (ℕ_discrete k m) [
  | yes here ↦ rw (eq→== k m here) d
  | no other ↦ rw (ne→== k m other) (
    ground (arith, lookup-change k v w es (ground arith) m),
    change-Distinct k v w es d.1 (ground arith),
  )
]

lookup-without :
    (k v : ℕ) (es : Entries)
    → Distinct es
    → lookup es k ≡ some v
    → (l : ℕ) → lookup (without k es) l ≡ update (lookup es) k none l
unfolding lookup without Distinct update
lookup-without k v [] d e l = cc
lookup-without k v ((m, x) ∷ es) d e l = elim (ℕ_discrete k m) [
  | yes here ↦ ground (arith, d.0)
  | no other ↦ ground (arith, lookup-without k v es d.1 (ground arith) l)
]

without-Distinct :
    (k v : ℕ) (es : Entries) → Distinct es → lookup es k ≡ some v → Distinct (without k es)
unfolding lookup without Distinct update
without-Distinct k v [] d e = d
without-Distinct k v ((m, x) ∷ es) d e = elim (ℕ_discrete k m) [
  | yes here ↦ rw (eq→== k m here) d.1
  | no other ↦ rw (ne→== k m other) (
    ground (arith, lookup-without k v es d.1 (ground arith) m, d.0),
    without-Distinct k v es d.1 (ground arith),
  )
]

count_where-without :
    (k v : ℕ) (es : Entries)
    → lookup es k ≡ some v
    → (test : ℕ → ℕ → Bool)
    → count_where test es ≡ one_if (test k v) + count_where test (without k es)
unfolding lookup without count_where
count_where-without k v [] e test = cc
count_where-without k v ((m, x) ∷ es) e test = elim (ℕ_discrete k m) [
  | yes here ↦ ground arith
  | no other ↦
      let rest = count_where-without k v es (ground arith) test in
      rw (ne→== k m other) (omega arith)
]

count_where_ext :
    (test test' : ℕ → ℕ → Bool) (es : Entries)
    → Distinct es
    → ((k v : ℕ) → lookup es k ≡ some v → test k v ≡ test' k v)
    → count_where test es ≡ count_where test' es
unfolding lookup count_where Distinct
count_where_ext test test' [] d h = refl
count_where_ext test test' ((k, v) ∷ es) d h =
    rw
      (
        h k v (ground arith),
        count_where_ext test test' es d.1 (λ l w e. h l w (ground (arith, d.0))),
      )
      refl

count_where_none :
    (test : ℕ → ℕ → Bool) (es : Entries)
    → Distinct es
    → ((k v : ℕ) → lookup es k ≡ some v → test k v ≡ false)
    → count_where test es ≡ 0
unfolding lookup count_where Distinct
count_where_none test [] d h = refl
count_where_none test ((k, v) ∷ es) d h =
    rw (h k v (ground arith), count_where_none test es d.1 (λ l w e. h l w (ground (arith, d.0))))
      refl

find_where :
    (test : ℕ → ℕ → Bool) (es : Entries)
    → Distinct es
    → ((k : ℕ) × (v : ℕ) × (lookup es k ≡ some v) × (test k v ≡ true))
      ⊎ ((k v : ℕ) → lookup es k ≡ some v → test k v ≡ false)
unfolding lookup Distinct
find_where test [] d = inr (λ k v e. cc)
find_where test ((k, v) ∷ es) d = elim (Bool-cases (test k v)) [
  | inl holds ↦ inl (k, v, ground arith, holds)
  | inr fails ↦ elim (find_where test es d.1) [
    | inl (l, w, e, t) ↦ inl (l, w, ground (arith, d.0), t)
    | inr none_of ↦ inr (λ l w e. elim (ℕ_discrete l k) [
      | yes here ↦ ground arith
      | no other ↦ none_of l w (ground arith)
    ])
  ]
]

-- `NewHash` keeps what a table promises: `find`, `second`, the assignment to it, the addition and
-- the removal act on the map and on the number of its entries as `IsHash` says.
pub new_hash-IsHash : IsHash new_hash
unfolding find lookup second set_second add_entry_with_known_hash remove count_where Distinct update
new_hash-IsHash = record {
  IsSound = Distinct;
  value_at = lookup;
  count_where = count_where;
  empty-IsSound = tt;
  value_at-empty = λ k. refl;
  find_absent = λ keys key code es sound h none_equal.
      rw (h, find_equal_absent keys.equal key es sound none_equal) refl;
  find_present = λ keys key code k v es sound h hk e same others.
      rw (h, find_equal_present keys.equal key k v es sound e same others) refl;
  second-value_at = λ k v es sound e. rw (second, e) refl;
  set_second-value_at = λ k v w es sound e. (
    change k w es,
    rw (set_second, e) refl,
    change-Distinct k v w es sound e,
    lookup-change k v w es e,
  );
  add-value_at = λ keys k v code es sound h absent none_equal. (
    (k, v) ∷ es,
    rw (h, find_equal_absent keys.equal k es sound none_equal) refl,
    (absent, sound),
    λ l. added k v es l,
    λ test. refl,
  );
  remove-value_at = λ k v es sound e. (
    without k es,
    rw (remove, e) refl,
    without-Distinct k v es sound e,
    lookup-without k v es sound e,
    count_where-without k v es e,
  );
  count_where_ext = λ test test' es sound h. count_where_ext test test' es sound h;
  count_where_none = λ test es sound h. count_where_none test es sound h;
  find_where = λ test es sound. find_where test es sound;
}
  where
    added :
        (k v : ℕ) (es : Entries) (l : ℕ) → lookup ((k, v) ∷ es) l ≡ update (lookup es) k (some v) l
    added k v es l = ground arith
