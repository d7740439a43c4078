-- ===== src/LeakOnly/Consistent/Tables.antt =====
-- The invariant of src/core/analyze/crash_investigator_analyze_leak_only_new_delete.cpp when a memory
-- comes into the tables and when it leaves them.
use native.Mathlib.Decide.{ℕ_discrete}
use old_crash_investigator.Base.{
  ℕ, ◌+◌, ◌-◌, ◌<◌, ◌≡◌, ◌≢◌, ◌⊎◌, refl, sym, ◌∙◌, ap, subst, inl, inr, Bool, true, false, Option,
  none, some, update, update_self, update_ne, Bool-cases, arith,
}
use old_crash_investigator.Container.{Hash, IsHash, one_if}
use old_crash_investigator.LeakOnly.{CLibrary, Trace}
use old_crash_investigator.LeakOnly.Consistent.{
  IsLibrary, Role, user, stack_key, trace_of, IsTrace, alike, alike_join, alike_sym, Consistent,
}

-- What a changed map has at a key, from where it stands: at the changed key, or elsewhere.
changed :
    (f g : ℕ → Option ℕ) (k : ℕ) (x : Option ℕ) (l v : ℕ)
    → ((a : ℕ) → g a ≡ update f k x a)
    → g l ≡ some v
    → ((l ≡ k) × (x ≡ some v)) ⊎ ((l ≢ k) × (f l ≡ some v))
changed f g k x l v gs e = elim (ℕ_discrete l k) [
  | yes here ↦ inl (here, sym (update_self f k x) ∙ ap (update f k x) (sym here) ∙ sym (gs l) ∙ e)
  | no other ↦ inr (other, sym (update_ne f k l x other) ∙ sym (gs l) ∙ e)
]

module _ (lib : CLibrary) (library : IsLibrary lib) (hash : Hash) (is_hash : IsHash hash)
    {role : ℕ → Role} {heap : lib.Heap} {traces : ℕ → Option Trace} {mem stack : hash.Table}
    (c : Consistent lib library hash is_hash role heap traces mem stack) where
  -- The number of memories with the stack of that trace.
  abbrev pub memories : (ℕ → Option Trace) → hash.Table → ℕ → ℕ
  memories traces mem k = is_hash.count_where (λ _ trace. alike traces k trace) mem

  -- A memory comes in with its trace; the entry of its stack, old or new, gets the number of memories
  -- with one more.
  pub track-Consistent :
      (p trace k n : ℕ) (mem' stack' : hash.Table)
      → role p ≡ user
      → IsTrace role traces trace (trace_of p)
      → IsTrace role traces k stack_key
      → alike traces k trace ≡ true
      → ((l w : ℕ) → is_hash.value_at stack l ≡ some w → l ≢ k → alike traces l trace ≡ false)
      → n ≡ 1 + memories traces mem k
      → is_hash.IsSound mem'
      → ((a : ℕ) → is_hash.value_at mem' a ≡ update (is_hash.value_at mem) p (some trace) a)
      → ((test : ℕ → ℕ → Bool)
          → is_hash.count_where test mem' ≡ one_if (test p trace) + is_hash.count_where test mem)
      → is_hash.IsSound stack'
      → ((a : ℕ) → is_hash.value_at stack' a ≡ update (is_hash.value_at stack) k (some n) a)
      → Consistent lib library hash is_hash role heap traces mem' stack'
  track-Consistent p trace k n mem' stack' own new key same others count ms mv mc ss sv = record {
    mem-sound = ms;
    stack-sound = ss;
    dead = c.dead;
    mem_trace = λ q t e. elim (changed _ _ _ _ q t mv e) [
      | inl (here, got) ↦
          let it : trace ≡ t = cc in
          (
            ap role here ∙ own,
            subst (λ a. IsTrace role traces t (trace_of a)) (sym here)
                (subst (λ b. IsTrace role traces b (trace_of p)) it new),
          )
      | inr (other, old) ↦ c.mem_trace q t old
    ];
    stack_trace = λ l w e. elim (changed _ _ _ _ l w sv e) [
      | inl (here, got) ↦ subst (λ a. IsTrace role traces a stack_key) (sym here) key
      | inr (other, old) ↦ c.stack_trace l w old
    ];
    counted = λ l w e. elim (changed _ _ _ _ l w sv e) [
      | inl (here, got) ↦
          let it : n ≡ w = cc in
          let grown : memories traces mem' k ≡ n =
            rw (mc (λ _ t. alike traces k t), same, count) refl in
          (sym it ∙ sym grown ∙ ap (memories traces mem') (sym here), omega (arith, it, count))
      | inr (other, old) ↦
          let before = c.counted l w old in
          let grown : memories traces mem' l ≡ memories traces mem l =
            rw (mc (λ _ t. alike traces l t), others l w old other) (omega arith) in
          (before.0 ∙ sym grown, before.1)
    ];
    unique = λ l m w x e f a. elim (changed _ _ _ _ l w sv e) [
      | inl (l_here, _) ↦ elim (changed _ _ _ _ m x sv f) [
        | inl (m_here, _) ↦ l_here ∙ sym m_here
        | inr (m_other, m_old) ↦
            let b : alike traces k m ≡ true = subst (λ z. alike traces z m ≡ true) l_here a in
            let d : alike traces m trace ≡ true =
              alike_join traces m trace k (c.stack_trace m x m_old).1 new.1 key.1
                (alike_sym traces k m key.1 (c.stack_trace m x m_old).1 b)
                (alike_sym traces k trace key.1 new.1 same) in
            let no_d = others m x m_old m_other in cc
      ]
      | inr (l_other, l_old) ↦ elim (changed _ _ _ _ m x sv f) [
        | inl (m_here, _) ↦
            let b : alike traces l k ≡ true = subst (λ z. alike traces l z ≡ true) m_here a in
            let d : alike traces l trace ≡ true =
              alike_join traces l trace k (c.stack_trace l w l_old).1 new.1 key.1 b
                (alike_sym traces k trace key.1 new.1 same) in
            let no_d = others l w l_old l_other in cc
        | inr (m_other, m_old) ↦ c.unique l m w x l_old m_old a
      ]
    ];
    present = λ q t e. elim (changed _ _ _ _ q t mv e) [
      | inl (here, got) ↦
          let it : trace ≡ t = cc in
          (
            k,
            n,
            sv k ∙ update_self (is_hash.value_at stack) k (some n),
            subst (λ b. alike traces k b ≡ true) it same,
          )
      | inr (other, old) ↦
          let (l, w, f, a) = c.present q t old in
          elim (ℕ_discrete l k) [
            | yes here ↦ (
              k,
              n,
              sv k ∙ update_self (is_hash.value_at stack) k (some n),
              subst (λ z. alike traces z t ≡ true) here a,
            )
            | no l_other ↦
                (l, w, sv l ∙ update_ne (is_hash.value_at stack) k l (some n) l_other ∙ f, a)
          ]
    ];
  }

  -- A memory leaves with its trace; the entry of its stack loses one of its counter, or leaves if it
  -- had one.
  pub forget-Consistent :
      (p trace k n : ℕ) (x : Option ℕ) (mem' stack' : hash.Table)
      → is_hash.value_at mem p ≡ some trace
      → is_hash.value_at stack k ≡ some n
      → alike traces k trace ≡ true
      → ((n ≡ 1) × (x ≡ none)) ⊎ ((n ≢ 1) × (x ≡ some (n - 1)))
      → is_hash.IsSound mem'
      → ((a : ℕ) → is_hash.value_at mem' a ≡ update (is_hash.value_at mem) p none a)
      → ((test : ℕ → ℕ → Bool)
          → is_hash.count_where test mem ≡ one_if (test p trace) + is_hash.count_where test mem')
      → is_hash.IsSound stack'
      → ((a : ℕ) → is_hash.value_at stack' a ≡ update (is_hash.value_at stack) k x a)
      → Consistent lib library hash is_hash role heap traces mem' stack'
  forget-Consistent p trace k n x mem' stack' is_mem is_stack same cases ms mv mc ss sv = record {
    mem-sound = ms;
    stack-sound = ss;
    dead = c.dead;
    mem_trace = λ q t e. c.mem_trace q t (was_mem q t e);
    stack_trace = λ l w e. elim (changed _ _ _ _ l w sv e) [
      | inl (here, got) ↦
          subst (λ a. IsTrace role traces a stack_key) (sym here) (c.stack_trace k n is_stack)
      | inr (other, old) ↦ c.stack_trace l w old
    ];
    counted = λ l w e. elim (changed _ _ _ _ l w sv e) [
      | inl (here, got) ↦ elim cases [
        | inl (_, gone) ↦ cc
        | inr (many, less) ↦
            let it : n - 1 ≡ w = some-injective (sym less ∙ got) in
            (
              omega (arith, it, dropped) ∙ ap (memories traces mem') (sym here),
              omega (arith, it, (c.counted k n is_stack).1),
            )
      ]
      | inr (other, old) ↦
          let before = c.counted l w old in
          let kept : memories traces mem l ≡ memories traces mem' l =
            rw (mc (λ _ t. alike traces l t), differs l w old other) (omega arith) in
          (before.0 ∙ kept, before.1)
    ];
    unique = λ l m w y e f a.
        let (w', e') = was_stack l w e in
        let (y', f') = was_stack m y f in c.unique l m w' y' e' f' a;
    present = λ q t e.
        let (l, w, f, a) = c.present q t (was_mem q t e) in
        elim (ℕ_discrete l k) [
          | no other ↦ (l, w, sv l ∙ update_ne (is_hash.value_at stack) k l x other ∙ f, a)
          | yes here ↦
              let a' : alike traces k t ≡ true = subst (λ z. alike traces z t ≡ true) here a in
              elim cases [
                | inl (one, gone) ↦ absurd (omega (arith, dropped, counts q t e a'))
                | inr (many, less) ↦
                    (k, n - 1, sv k ∙ update_self (is_hash.value_at stack) k x ∙ less, a')
              ]
        ];
  }
    where
      some-injective : {a b : ℕ} → some a ≡ some b → a ≡ b
      some-injective e = cc

      was_mem : (q t : ℕ) → is_hash.value_at mem' q ≡ some t → is_hash.value_at mem q ≡ some t
      was_mem q t e = elim (changed _ _ _ _ q t mv e) [ inl (_, got) ↦ cc | inr (_, old) ↦ old ]

      was_stack :
          (l w : ℕ)
          → is_hash.value_at stack' l ≡ some w
          → (v : ℕ) × (is_hash.value_at stack l ≡ some v)
      was_stack l w e = elim (changed _ _ _ _ l w sv e) [
        | inl (here, _) ↦ (n, ap (is_hash.value_at stack) here ∙ is_stack)
        | inr (_, old) ↦ (w, old)
      ]

      dropped : n ≡ 1 + memories traces mem' k
      dropped = (c.counted k n is_stack).0 ∙ rw (mc (λ _ t. alike traces k t), same) refl

      differs : (l w : ℕ) → is_hash.value_at stack l ≡ some w → l ≢ k → alike traces l trace ≡ false
      differs l w e ne = elim (Bool-cases (alike traces l trace)) [
        | inr fails ↦ fails
        | inl holds ↦ absurd (
            ne (
              c.unique l k w n e is_stack (
                alike_join traces l k trace (c.stack_trace l w e).1 (c.stack_trace k n is_stack).1
                  (c.mem_trace p trace is_mem).1.1 holds same)))
      ]

      counts :
          (q t : ℕ)
          → is_hash.value_at mem' q ≡ some t
          → alike traces k t ≡ true
          → 0 < memories traces mem' k
      counts q t e a =
          let (u, _, _, _, d) = is_hash.remove-value_at q t mem' ms e in
          let whole : memories traces mem' k ≡ 1 + memories traces u k =
            d (λ _ z. alike traces k z) ∙ rw a refl in
          omega (arith, whole)
