-- ===== src/Metamethod/Chain.antt =====
-- `vm_table_get` of cpp/src/vm.cpp against the chain of `__index` tables that it is to follow.
use lulu.Prelude.{
  ℕ, suc, ◌+◌, ◌-◌, ◌<◌, ◌≡◌, refl, sym, ◌∙◌, ap, Bool, true, false, Bool-cases, inl, inr, ◌&&◌,
  some, get_elem?, arith,
}
use mathlib.Core.Option.{some-injective}
use lulu.Value.{Runtime, Value, nil, table, is_nil}
use lulu.Table.{table_get}
use lulu.Metamethod.{
  is_fast, bit_of, TableObject, World, mt_index, is_absent, raw_metamethod, mt_get_fast,
}
use lulu.Metamethod.Cache.{IsTruthful, mt_get_fast-raw}
use lulu.Metamethod.Access.{
  found, type_error, loop_in_get, leaves, follows, follow, get_missing, get_table, get_round,
  get_loop, vm_table_get, mt_max_loop, is_function,
}

module _ {D : Type 0} (N : Runtime D) (w : World D) (k : Value D) where
  -- The table at `a` lacks the key, and the `__index` of its metatable is the table at `b`.
  pub record Follows (a b : ℕ) : Type 0 where
    pub object : TableObject D
    pub meta : ℕ
    pub meta_object : TableObject D
    pub exists : Bool
    pub is_object : get_elem? w.tables a ≡ some object
    pub is_missing : table_get N object.fields k ≡ some (exists, nil)
    pub has_metatable : object.metatable ≡ some meta
    pub is_metatable : get_elem? w.tables meta ≡ some meta_object
    pub has_index : raw_metamethod N w meta_object mt_index ≡ some (table b)

  -- `b` is the table that is reached from `a` in so many steps.
  pub data Chain : ℕ → ℕ → ℕ → Type 0 where
    here : {a : ℕ} → Chain 0 a a
    there : {n a b c : ℕ} → Follows a b → Chain n b c → Chain (suc n) a c

  module _ (truthful : IsTruthful N w) (key : is_nil k ≡ false) where
    -- The flag of a metatable that has the metamethod is not set.
    index-IsPresent :
        (a : ℕ) (mt : TableObject D) (v : Value D)
        → get_elem? w.tables a ≡ some mt
        → raw_metamethod N w mt mt_index ≡ some v
        → is_nil v ≡ false
        → is_absent mt mt_index ≡ false
    unfolding IsTruthful is_nil
    index-IsPresent a mt v q r h = elim (Bool-cases (is_absent mt mt_index)) [
      | inl e ↦
          let is_none = some-injective _ _ (sym r ∙ truthful a mt mt_index q e) in
          absurd (ground (arith, h, ap is_nil is_none))
      | inr e ↦ e
    ]

    fast-index :
        (a b : ℕ) (s : Follows a b)
        → mt_get_fast N w s.object.metatable mt_index ≡ some (table b, w)
    unfolding is_nil is_fast bit_of
    fast-index a b s =
        let present =
          index-IsPresent s.meta s.meta_object (table b) s.is_metatable s.has_index refl in
        rw (s.has_metatable) (
          mt_get_fast-raw N w s.meta s.meta_object mt_index (table b) s.is_metatable present
            s.has_index refl)

    round-Follows :
        (a b : ℕ) (aliased : Bool)
        → Follows a b
        → get_round N w aliased (table a) k ≡ some (follows (table b), w)
    unfolding get_round get_table get_missing follow is_function is_nil
    round-Follows a b aliased s =
        let missing : s.exists && false ≡ false = ground arith in
        rw (get_table, key, s.is_object, s.is_missing, missing, get_missing, fast-index a b s) refl

    loop-Follows :
        (i a b : ℕ) (aliased : Bool)
        → Follows a b
        → get_loop N (suc i) w aliased (table a) k ≡ get_loop N i w true (table b) k
    unfolding get_loop
    loop-Follows i a b aliased s = rw (get_loop, round-Follows a b aliased s) refl

    loop-Chain :
        (n i a c : ℕ) (aliased : Bool)
        → Chain n a c
        → (aliased' : Bool) × (get_loop N (n + i) w aliased (table a) k
            ≡ get_loop N i w aliased' (table c) k)
    unfolding get_loop
    loop-Chain _ i _ _ aliased (here {a}) =
        let none_left : 0 + i ≡ i = omega arith in
        (aliased, ap (λ j. get_loop N j w aliased (table a) k) none_left)
    loop-Chain _ i _ _ aliased (there {n} {a} {b} {c} s h) =
        let (aliased', rest) = loop-Chain n i b c true h in
        let total : suc n + i ≡ suc (n + i) = omega arith in
        let first = ap (λ j. get_loop N j w aliased (table a) k) total in
        (aliased', first ∙ loop-Follows (n + i) a b aliased s ∙ rest)

    round-found :
        (a : ℕ) (aliased : Bool) (object : TableObject D) (v : Value D)
        → get_elem? w.tables a ≡ some object
        → table_get N object.fields k ≡ some (true, v)
        → is_nil v ≡ false
        → get_round N w aliased (table a) k ≡ some (leaves (found true v), w)
    unfolding get_round get_table
    round-found a aliased object v q r p = rw (get_table, key, q, r, p) refl

    loop-found :
        (i a : ℕ) (aliased : Bool) (object : TableObject D) (v : Value D)
        → get_elem? w.tables a ≡ some object
        → table_get N object.fields k ≡ some (true, v)
        → is_nil v ≡ false
        → get_loop N (suc i) w aliased (table a) k ≡ some (found true v, w)
    unfolding get_loop
    loop-found i a aliased object v q r p = rw (get_loop, round-found a aliased object v q r p) refl

    -- Where the flags are right, the key is not nil, and fewer than 100 steps along `__index` tables
    -- lead to a table that has a value other than nil for the key, `vm_table_get` finds that value and
    -- changes nothing.
    pub vm_table_get-Chain :
        (n a c : ℕ) (object : TableObject D) (v : Value D)
        → Chain n a c
        → n < mt_max_loop
        → get_elem? w.tables c ≡ some object
        → table_get N object.fields k ≡ some (true, v)
        → is_nil v ≡ false
        → vm_table_get N w (table a) k ≡ some (found true v, w)
    unfolding vm_table_get
    vm_table_get-Chain n a c object v h l q r p =
        let total : mt_max_loop ≡ n + suc (99 - n) = omega arith in
        let (aliased, e) = loop-Chain n (suc (99 - n)) a c false h in
        ap (λ j. get_loop N j w false (table a) k) total
        ∙ e
        ∙ loop-found (99 - n) c aliased object v q r p

    loop-over :
        (a : ℕ) (aliased : Bool)
        → get_loop N 0 w aliased (table a) k ≡ some (type_error loop_in_get (table a), w)
    unfolding get_loop
    loop-over a aliased = refl

    -- Where the flags are right, the key is not nil, and 100 steps along `__index` tables lead on, as
    -- in a cycle, `vm_table_get` stops with the error of a loop.
    pub vm_table_get-Chain_long :
        (a c : ℕ)
        → Chain mt_max_loop a c
        → vm_table_get N w (table a) k ≡ some (type_error loop_in_get (table c), w)
    unfolding vm_table_get
    vm_table_get-Chain_long a c h =
        let (aliased, e) = loop-Chain mt_max_loop 0 a c false h in e ∙ loop-over c aliased
