-- ===== src/Metamethod/Handlers.antt =====
-- The arguments with which the loops of `vm_table_get` and `vm_table_set` in cpp/src/vm.cpp call a
-- metamethod, whose pointer to the value is that to the metamethod from the second round on.
use lulu.Prelude.{
  ◌⊎◌, inl, inr, ℕ, zero, suc, ◌≡◌, refl, sym, ◌∙◌, Bool, true, false, Bool-cases, Option, none,
  some, Option-cases, not, ◌&&◌, get_elem?, arith,
}
use mathlib.Core.Path.{subst}
use lulu.Value.{Runtime, Value, table, is_nil}
use lulu.Table.{table_get}
use lulu.Metamethod.{TableObject, World, mt_index, mt_get_fast, mt_get_method}
use lulu.Metamethod.Cache.{some-parts}
use lulu.Metamethod.Access.{
  calls_index, Round, leaves, follows, pointed, follow, get_other, get_missing, get_table,
  get_round, get_loop, vm_table_get, is_function,
}

module _ {D : Type 0} where
  -- Where the round ends in a call, it is of a metamethod with the value that the pointer then points
  -- to, and with the key.
  unfoldable Receives : Bool → Value D → Value D → Round D → Type 0
  Receives aliased vt k (leaves (calls_index f a k')) = (pointed aliased vt f ≡ a) × (k ≡ k')
  Receives aliased vt k _ = Unit

  unfoldable AllReceive : Bool → Value D → Value D → Option (Round D × World D) → Type 0
  AllReceive aliased vt k none = Unit
  AllReceive aliased vt k (some (r, w)) = Receives aliased vt k r

  follow-Receives :
      (aliased : Bool) (vt mf k : Value D)
      → Receives aliased vt k (follow aliased vt mf (λ f a. calls_index f a k))
  unfolding Receives follow
  follow-Receives aliased vt mf k = elim (Bool-cases (is_nil mf)) [
    | inl q ↦ rw (follow, q) tt
    | inr q ↦ elim (Bool-cases (is_function mf)) [
      | inl r ↦ rw (follow, q, r) (refl, refl)
      | inr r ↦ rw (follow, q, r) tt
    ]
  ]

module _ {D : Type 0} (N : Runtime D) where
  get_other-AllReceive :
      (w : World D) (aliased : Bool) (vt k : Value D)
      → AllReceive aliased vt k (get_other N w aliased vt k)
  unfolding AllReceive get_other
  get_other-AllReceive w aliased vt k = elim (Option-cases (mt_get_method N w vt mt_index)) [
    | inl q ↦ rw (get_other, q) tt
    | inr (mf, q) ↦ rw (get_other, q) (follow-Receives aliased vt mf k)
  ]

  get_missing-AllReceive :
      (w : World D) (aliased : Bool) (a : ℕ) (k : Value D) (t : TableObject D) (exists : Bool)
      (v : Value D)
      → AllReceive aliased (table a) k (get_missing N w aliased a k t exists v)
  unfolding AllReceive Receives get_missing
  get_missing-AllReceive w aliased a k t exists v =
      elim (Option-cases (mt_get_fast N w t.metatable mt_index)) [
        | inl q ↦ rw (get_missing, q) tt
        | inr ((mf, w'), q) ↦ elim (Bool-cases (is_nil mf)) [
          | inl n ↦ rw (get_missing, q, n) tt
          | inr n ↦ rw (get_missing, q, n) (follow-Receives aliased (table a) mf k)
        ]
      ]

  get_table-AllReceive :
      (w : World D) (aliased : Bool) (a : ℕ) (k : Value D)
      → AllReceive aliased (table a) k (get_table N w aliased a k)
  unfolding AllReceive Receives get_table
  get_table-AllReceive w aliased a k = elim (Bool-cases (is_nil k)) [
    | inl n ↦ rw (get_table, n) tt
    | inr n ↦ elim (Option-cases (get_elem? w.tables a)) [
      | inl q ↦ rw (get_table, n, q) tt
      | inr (t, q) ↦ elim (Option-cases (table_get N t.fields k)) [
        | inl r ↦ rw (get_table, n, q, r) tt
        | inr ((exists, v), r) ↦ elim (Bool-cases (exists && not (is_nil v))) [
          | inl s ↦ rw (get_table, n, q, r, s) tt
          | inr s ↦ rw (get_table, n, q, r, s) (get_missing-AllReceive w aliased a k t exists v)
        ]
      ]
    ]
  ]

  get_round-AllReceive :
      (w : World D) (aliased : Bool) (vt k : Value D)
      → AllReceive aliased vt k (get_round N w aliased vt k)
  unfolding get_round
  get_round-AllReceive w aliased (table a) k = get_table-AllReceive w aliased a k
  get_round-AllReceive w aliased _ k = get_other-AllReceive w aliased _ k

  -- The round goes on with a metamethod.
  abbrev pub IsFollowed : World D → Bool → Value D → Value D → Type 0
  IsFollowed w aliased vt k =
      (w1 : World D) × (mf : Value D) × (get_round N w aliased vt k ≡ some (follows mf, w1))

  -- A call that ends a run of the loop is from its first round, or, by what holds of the later ones,
  -- gets the metamethod itself.
  call-origin :
      (i : ℕ) (w w' : World D) (aliased : Bool) (vt k f a k' : Value D)
      (o : Option (Round D × World D))
      → get_round N w aliased vt k ≡ o
      → AllReceive aliased vt k o
      → get_loop N (suc i) w aliased vt k ≡ some (calls_index f a k', w')
      → ((w1 : World D) (mf : Value D)
          → get_loop N i w1 true mf k ≡ some (calls_index f a k', w')
          → (f ≡ a) × (k ≡ k'))
      → (k ≡ k')
        × (((pointed aliased vt f ≡ a)
              × (get_round N w aliased vt k ≡ some (leaves (calls_index f a k'), w')))
            ⊎ (IsFollowed w aliased vt k × (f ≡ a)))
  unfolding get_loop AllReceive Receives
  call-origin i w w' aliased vt k f a k' none q p h later = absurd (ground (arith, q, h))
  call-origin i w w' aliased vt k f a k' (some (leaves o, w1)) q p h later =
      let run : get_loop N (suc i) w aliased vt k ≡ some (o, w1) = rw (get_loop, q) refl in
      let (e, e') = some-parts (sym run ∙ h) in
      let ends : get_round N w aliased vt k ≡ some (leaves (calls_index f a k'), w') =
        rw (← e, ← e') q in
      let sound : Receives aliased vt k (leaves (calls_index f a k')) =
        subst (λ o. Receives aliased vt k (leaves o)) e p in
      (sound.1, inl (sound.0, ends))
  call-origin i w w' aliased vt k f a k' (some (follows mf, w1)) q p h later =
      let run : get_loop N (suc i) w aliased vt k ≡ get_loop N i w1 true mf k =
        rw (get_loop, q) refl in
      let (e, e') = later w1 mf (sym run ∙ h) in (e', inr ((w1, mf, q), e))

  get_loop-handler :
      (i : ℕ) (w w' : World D) (vt k f a k' : Value D)
      → get_loop N i w true vt k ≡ some (calls_index f a k', w')
      → (f ≡ a) × (k ≡ k')
  unfolding get_loop pointed
  get_loop-handler zero w w' vt k f a k' h = ground (arith, h)
  get_loop-handler (suc i) w w' vt k f a k' h =
      let (e, cases) =
        call-origin i w w' true vt k f a k' (get_round N w true vt k) refl
          (get_round-AllReceive w true vt k) h
          (λ w1 mf h'. get_loop-handler i w1 w' mf k f a k' h') in
      elim cases [ inl c ↦ (c.0, e) | inr e' ↦ (e'.1, e) ]

  -- A call of an `__index` metamethod gets the key. Where the first round of the loop ends in the
  -- call, it gets the value that is indexed; where the first round goes on with a metamethod, the
  -- call gets the metamethod that is called itself in place of a value.
  pub vm_table_get-handler :
      (w w' : World D) (vt k f a k' : Value D)
      → vm_table_get N w vt k ≡ some (calls_index f a k', w')
      → (k ≡ k')
        × (((vt ≡ a) × (get_round N w false vt k ≡ some (leaves (calls_index f a k'), w')))
            ⊎ (IsFollowed w false vt k × (f ≡ a)))
  unfolding vm_table_get pointed
  vm_table_get-handler w w' vt k f a k' h =
      call-origin 99 w w' false vt k f a k' (get_round N w false vt k) refl
        (get_round-AllReceive w false vt k) h (λ w1 mf h'. get_loop-handler 99 w1 w' mf k f a k' h')
