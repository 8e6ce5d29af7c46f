-- ===== src/Metamethod/Cache.antt =====
-- The flags of `mt_get_fast` in cpp/src/metamethod.cpp: when they are right, and when they are not.
use lulu.Prelude.{
  ◌⊎◌, inl, inr, ℕ, ◌<◌, List, [], ◌∷◌, ◌==◌, ◌≡◌, refl, sym, ◌∙◌, ap, true, false, Bool-cases,
  Option, some, Option-cases, length, get_elem?, set, arith, get_elem?-set_self, get_elem?-set_ne,
  lt_of_get_elem?, if◌then◌else◌,
}
use mathlib.Core.Option.{some-injective}
use lulu.Value.{Runtime, Value, nil, is_nil}
use lulu.Table.{Table}
use lulu.Metamethod.{
  Metamethod, is_fast, mt_index, mt_newindex, mt_eq, mt_len, mt_gc, mt_add, mt_sub, mt_mul, mt_div,
  mt_mod, mt_pow, mt_unm, mt_lt, mt_leq, bit_of, TableObject, World, put_table, is_absent,
  mark_absent, raw_metamethod, mt_get_fast,
}

pub some-parts {ℓ ℓ'} :
    {A : Type ℓ} {B : Type ℓ'} {a a' : A} {b b' : B}
    → ◌≡◌ {A = Option (A × B)} (some (a, b)) (some (a', b'))
    → (a ≡ a') × (b ≡ b')
some-parts {A = A} {B = B} {a = a} {a' = a'} {b = b} {b' = b'} h =
    let e : ◌≡◌ {A = A × B} (a, b) (a', b') = some-injective _ _ h in
    (ap (λ p. p.0) e, ap (λ p. p.1) e)

pub is_nil_eq : {D : Type 0} (v : Value D) → is_nil v ≡ true → v ≡ nil
unfolding is_nil
is_nil_eq nil h = refl
is_nil_eq _ h = cc

abbrev methods : List Metamethod
methods =
    mt_index ∷ mt_newindex ∷ mt_eq ∷ mt_len ∷ mt_gc ∷ mt_add ∷ mt_sub ∷ mt_mul ∷ mt_div ∷ mt_mod
    ∷ mt_pow ∷ mt_unm ∷ mt_lt ∷ mt_leq ∷ []

methods-bit_of : (m : Metamethod) → get_elem? methods (bit_of m) ≡ some m
unfolding bit_of
methods-bit_of mt_index = refl
methods-bit_of mt_newindex = refl
methods-bit_of mt_eq = refl
methods-bit_of mt_len = refl
methods-bit_of mt_gc = refl
methods-bit_of mt_add = refl
methods-bit_of mt_sub = refl
methods-bit_of mt_mul = refl
methods-bit_of mt_div = refl
methods-bit_of mt_mod = refl
methods-bit_of mt_pow = refl
methods-bit_of mt_unm = refl
methods-bit_of mt_lt = refl
methods-bit_of mt_leq = refl

bit_of-injective : (m m' : Metamethod) → bit_of m ≡ bit_of m' → m ≡ m'
bit_of-injective m m' h =
    some-injective _ _ (sym (methods-bit_of m) ∙ ap (get_elem? methods) h ∙ methods-bit_of m')

module _ {D : Type 0} (N : Runtime D) where
  -- Every flag that is set stands for a metamethod that the metatable does not have.
  unfoldable pub IsTruthful : World D → Type 0
  IsTruthful w =
      (a : ℕ) (mt : TableObject D) (m : Metamethod)
      → get_elem? w.tables a ≡ some mt
      → is_absent mt m ≡ true
      → raw_metamethod N w mt m ≡ some nil

  module _ (w : World D) (a : ℕ) (mt : TableObject D) (m : Metamethod) where
    pub mt_get_fast-flagged :
        get_elem? w.tables a ≡ some mt
        → is_absent mt m ≡ true
        → mt_get_fast N w (some a) m ≡ some (nil, w)
    unfolding mt_get_fast
    mt_get_fast-flagged q r = rw (mt_get_fast, q, r) refl

    -- Without the flag the result is the metamethod itself, and the flag is set for none.
    pub mt_get_fast-raw :
        (mf : Value D)
        → get_elem? w.tables a ≡ some mt
        → is_absent mt m ≡ false
        → raw_metamethod N w mt m ≡ some mf
        → is_fast m ≡ true
        → mt_get_fast N w (some a) m
          ≡ some (mf, (if is_nil mf then put_table w a (mark_absent mt m) else w))
    unfolding mt_get_fast
    mt_get_fast-raw mf q r r' fast = rw (mt_get_fast, q, r, r', fast) refl

    pub mt_get_fast-cases :
        (mf : Value D) (w' : World D)
        → get_elem? w.tables a ≡ some mt
        → mt_get_fast N w (some a) m ≡ some (mf, w')
        → ((is_absent mt m ≡ true) × (nil ≡ mf) × (w ≡ w'))
          ⊎ ((is_absent mt m ≡ false)
              × (raw_metamethod N w mt m ≡ some mf)
              × ((if is_nil mf then put_table w a (mark_absent mt m) else w) ≡ w'))
    unfolding mt_get_fast
    mt_get_fast-cases mf w' q h = elim (Bool-cases (is_absent mt m)) [
      | inl r ↦ let (e, e') = some-parts (sym (mt_get_fast-flagged q r) ∙ h) in inl (r, e, e')
      | inr r ↦ elim (Option-cases (raw_metamethod N w mt m)) [
        | inl r' ↦ absurd (ground (arith, q, r, r', h))
        | inr (f, r') ↦ elim (Bool-cases (is_fast m)) [
          | inr slow ↦ absurd (ground (arith, q, r, r', slow, h))
          | inl fast ↦
              let (e, e') = some-parts (sym (mt_get_fast-raw f q r r' fast) ∙ h) in
              inr (r, r' ∙ ap some e, (rw (← e) e'))
        ]
      ]
    ]

  mark_absent-is_absent :
      (w : World D) (mt : TableObject D) (m m' : Metamethod)
      → raw_metamethod N w mt m ≡ some nil
      → is_absent (mark_absent mt m) m' ≡ true
      → (is_absent mt m' ≡ true) ⊎ (raw_metamethod N w mt m' ≡ some nil)
  unfolding is_absent mark_absent
  mark_absent-is_absent w mt m m' h q = elim (Bool-cases (bit_of m == bit_of m')) [
    | inl e ↦ inr (rw (← bit_of-injective m m' (ground (arith, e))) h)
    | inr e ↦ inl (
        cc (
          q,
          get_elem?-set_ne mt.flags {i = bit_of m} {j = bit_of m'} true
              (λ d. absurd (ground (arith, d, e))),
        ))
  ]

  mark_absent-IsTruthful :
      (w : World D) (a : ℕ) (mt : TableObject D) (m : Metamethod)
      → IsTruthful w
      → get_elem? w.tables a ≡ some mt
      → raw_metamethod N w mt m ≡ some nil
      → IsTruthful (put_table w a (mark_absent mt m))
  unfolding put_table raw_metamethod IsTruthful mark_absent
  mark_absent-IsTruthful w a mt m t q r b mt' m' q' r' = elim (Bool-cases (a == b)) [
    | inl e ↦
        let room = lt_of_get_elem? w.tables a mt q in
        let index : a ≡ b = ground (arith, e) in
        let here = ap (get_elem? (set w.tables a (mark_absent mt m))) index in
        let set_here = get_elem?-set_self w.tables a (mark_absent mt m) room in
        let same = some-injective _ _ (sym set_here ∙ here ∙ q') in
        rw (← same) (elim (mark_absent-is_absent w mt m m' r (rw (same) r')) [
          | inl set ↦ t a mt m' q set
          | inr absent ↦ absent
        ])
    | inr e ↦
        t b mt' m'
          (sym (get_elem?-set_ne w.tables (mark_absent mt m) (λ d. absurd (ground (arith, d, e))))
            ∙ q')
          r'
  ]

  -- In a world in which the flags are right, `mt_get_fast` gives what the metatable has under the
  -- name of the metamethod, and the flags that it leaves are right.
  pub mt_get_fast-IsTruthful :
      (w w' : World D) (a : ℕ) (mt : TableObject D) (m : Metamethod) (mf : Value D)
      → IsTruthful w
      → get_elem? w.tables a ≡ some mt
      → mt_get_fast N w (some a) m ≡ some (mf, w')
      → (raw_metamethod N w mt m ≡ some mf) × IsTruthful w'
  unfolding IsTruthful
  mt_get_fast-IsTruthful w w' a mt m mf t q h = elim (mt_get_fast-cases w a mt m mf w' q h) [
    | inl c ↦ let (r, e, e') = c in (t a mt m q r ∙ ap some e, (rw (← e') t))
    | inr c ↦
        let (r, r', e') = c in
        elim (Bool-cases (is_nil mf)) [
          | inl n ↦
              let none_found = r' ∙ ap some (is_nil_eq mf n) in
              (r', (rw (← e', n) (mark_absent-IsTruthful w a mt m t q none_found)))
          | inr n ↦ (r', (rw (← e', n) t))
        ]
  ]

  mark_absent-flag :
      (mt : TableObject D) (m : Metamethod)
      → bit_of m < length mt.flags
      → is_absent (mark_absent mt m) m ≡ true
  unfolding is_absent mark_absent
  mark_absent-flag mt m f = rw (is_absent, get_elem?-set_self mt.flags (bit_of m) true f) refl

  -- The flag is set once no metamethod was found.
  mt_get_fast-flag :
      (w w' : World D) (a : ℕ) (mt : TableObject D) (m : Metamethod)
      → get_elem? w.tables a ≡ some mt
      → bit_of m < length mt.flags
      → mt_get_fast N w (some a) m ≡ some (nil, w')
      → (mt' : TableObject D) × (get_elem? w'.tables a ≡ some mt') × (is_absent mt' m ≡ true)
  unfolding put_table is_nil
  mt_get_fast-flag w w' a mt m q f h = elim (mt_get_fast-cases w a mt m nil w' q h) [
    | inl c ↦ let (r, e, e') = c in (mt, (rw (← e') q), r)
    | inr c ↦
        let (r, r', e') = c in
        let room = lt_of_get_elem? w.tables a mt q in
        let marked = mark_absent mt m in
        (marked, (rw (← e') (get_elem?-set_self w.tables a marked room)), mark_absent-flag mt m f)
  ]

  -- Once `mt_get_fast` has found no metamethod, one that has a flag, it finds none from then on,
  -- whatever the fields of the metatable are changed to.
  pub mt_get_fast-stale :
      (w w' : World D) (a : ℕ) (mt : TableObject D) (m : Metamethod) (fields : Table D)
      → get_elem? w.tables a ≡ some mt
      → bit_of m < length mt.flags
      → mt_get_fast N w (some a) m ≡ some (nil, w')
      → (mt' : TableObject D) × (get_elem? w'.tables a ≡ some mt')
        × (let w'' = put_table w' a (record mt' { fields = fields }) in
            mt_get_fast N w'' (some a) m ≡ some (nil, w''))
  unfolding put_table is_absent
  mt_get_fast-stale w w' a mt m fields q f h =
      let (mt', q', r) = mt_get_fast-flag w w' a mt m q f h in
      let changed : TableObject D = record mt' { fields = fields } in
      let room = lt_of_get_elem? w'.tables a mt' q' in
      let found = get_elem?-set_self w'.tables a changed room in
      (mt', q', mt_get_fast-flagged (put_table w' a changed) a changed m found r)
