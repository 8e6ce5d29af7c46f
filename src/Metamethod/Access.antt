-- ===== src/Metamethod/Access.antt =====
-- `vm_table_get`, `vm_table_set` and `get_mt_unary` of cpp/src/vm.cpp, up to the call of a
-- metamethod, which is their last act.
-- The pointer `vt` of the loops is the caller's value in the first round, and the address of the
-- local variable with the metamethod in every later one: `aliased` tells the second.
use lulu.Prelude.{
  ℕ, zero, suc, Bool, true, false, ◌&&◌, not, Option, none, some, if◌then◌else◌, get_elem?,
}
use lulu.Value.{Runtime, Value, nil, table, function, userdata, is_nil}
use lulu.Table.{Table, table_get}
use lulu.Table.Resize.{Slot, array_slot, entry_slot, store}
use lulu.Table.Set.{table_set}
use lulu.Metamethod.{
  Metamethod, mt_index, mt_newindex, mt_len, TableObject, World, put_table, mt_get_fast,
  mt_get_method,
}

abbrev pub mt_max_loop : ℕ
mt_max_loop = 100

-- What the message of `debug_type_error` says of the value.
pub data Action : Type 0 where
  index : Action
  set_index_using : Action
  loop_in_get : Action
  set_index_of : Action

-- `found`: the result of `vm_table_get` and `*out`. `assigned`: `vm_table_set` has written.
-- `calls_index f a k`, `calls_newindex f a k v`: the call of `f` with the arguments after it.
-- `type_error`: the error of `debug_type_error`.
pub data Outcome (D : Type 0) : Type 0 where
  found : Bool → Value D → Outcome D
  assigned : Outcome D
  calls_index : Value D → Value D → Value D → Outcome D
  calls_newindex : Value D → Value D → Value D → Value D → Outcome D
  type_error : Action → Value D → Outcome D

-- The end of a round: the loop is left, or goes on with the metamethod as the value to index.
pub data Round (D : Type 0) : Type 0 where
  leaves : Outcome D → Round D
  follows : Value D → Round D

module _ {D : Type 0} where
  unfoldable pub is_function : Value D → Bool
  is_function (function f) = true
  is_function _ = false

  -- `*vt`, once the local variable is `mf`.
  unfoldable pub pointed : Bool → Value D → Value D → Value D
  pointed aliased vt mf = if aliased then mf else vt

  -- The rest of a round, with the metamethod and the outcome that its call is.
  unfoldable pub follow : Bool → Value D → Value D → (Value D → Value D → Outcome D) → Round D
  follow aliased vt mf call =
      let receiver = pointed aliased vt mf in
      if is_nil mf
      then leaves (type_error index receiver)
      else if is_function mf
      then leaves (call mf receiver)
      else follows mf

  -- `*slot`
  unfoldable pub slot_value : Table D → Slot → Option (Value D)
  slot_value t (array_slot i) = get_elem? t.array i
  slot_value t (entry_slot i) = elim (get_elem? t.entries i) [ none ↦ none | some e ↦ some e.value ]

  -- `*slot = v` for a slot of the table at an address.
  unfoldable pub assign : World D → ℕ → Slot → Value D → Option (Round D × World D)
  assign w a slot v = elim (get_elem? w.tables a) [
    | none ↦ none
    | some t ↦ some (leaves assigned, put_table w a (record t { fields = store t.fields slot v }))
  ]

module _ {D : Type 0} (N : Runtime D) where
  -- A round of `vm_table_get` for a value that is no table.
  unfoldable pub get_other : World D → Bool → Value D → Value D → Option (Round D × World D)
  get_other w aliased vt k = elim (mt_get_method N w vt mt_index) [
    | none ↦ none
    | some mf ↦ some (follow aliased vt mf (λ f a. calls_index f a k), w)
  ]

  -- A round for a table in which the key is not found.
  unfoldable pub get_missing :
      World D → Bool → ℕ → Value D → TableObject D → Bool → Value D → Option (Round D × World D)
  get_missing w aliased a k t key_exists v = elim (mt_get_fast N w t.metatable mt_index) [
    | none ↦ none
    | some (mf, w') ↦ some (
      (if is_nil mf
          then leaves (found key_exists v)
          else follow aliased (table a) mf (λ f a. calls_index f a k)),
      w',
    )
  ]

  unfoldable pub get_table : World D → Bool → ℕ → Value D → Option (Round D × World D)
  get_table w aliased a k = elim (is_nil k) [
    | true ↦ some (leaves (found false nil), w)
    | false ↦ elim (get_elem? w.tables a) [
      | none ↦ none
      | some t ↦ elim (table_get N t.fields k) [
        | none ↦ none
        | some (key_exists, v) ↦ elim (key_exists && not (is_nil v)) [
          | true ↦ some (leaves (found true v), w)
          | false ↦ get_missing w aliased a k t key_exists v
        ]
      ]
    ]
  ]

  unfoldable pub get_round : World D → Bool → Value D → Value D → Option (Round D × World D)
  get_round w aliased (table a) k = get_table w aliased a k
  get_round w aliased vt k = get_other w aliased vt k

  unfoldable pub get_loop : ℕ → World D → Bool → Value D → Value D → Option (Outcome D × World D)
  get_loop zero w aliased vt k = some (type_error loop_in_get vt, w)
  get_loop (suc i) w aliased vt k = elim (get_round w aliased vt k) [
    | none ↦ none
    | some (leaves o, w') ↦ some (o, w')
    | some (follows mf, w') ↦ get_loop i w' true mf k
  ]

  unfoldable pub vm_table_get : World D → Value D → Value D → Option (Outcome D × World D)
  vm_table_get w vt k = get_loop mt_max_loop w false vt k

  unfoldable pub set_other :
      World D → Bool → Value D → Value D → Value D → Option (Round D × World D)
  set_other w aliased tv k v = elim (mt_get_method N w tv mt_newindex) [
    | none ↦ none
    | some mf ↦ some (follow aliased tv mf (λ f a. calls_newindex f a k v), w)
  ]

  -- The value at the slot was nil, which may be an entry that was just made.
  unfoldable pub set_missing :
      World D → Bool → ℕ → Option ℕ → Slot → Value D → Value D → Option (Round D × World D)
  set_missing w aliased a metatable slot k v = elim (mt_get_fast N w metatable mt_newindex) [
    | none ↦ none
    | some (mf, w') ↦ elim (is_nil mf) [
      | true ↦ assign w' a slot v
      | false ↦ some (follow aliased (table a) mf (λ f a. calls_newindex f a k v), w')
    ]
  ]

  -- `fuel` is that of `table_set`.
  unfoldable pub set_table : ℕ → World D → Bool → ℕ → Value D → Value D → Option (Round D × World D)
  set_table fuel w aliased a k v = elim (is_nil k) [
    | true ↦ some (leaves (type_error set_index_using k), w)
    | false ↦ elim (get_elem? w.tables a) [
      | none ↦ none
      | some t ↦ elim (table_set N fuel t.fields k) [
        | none ↦ none
        | some (slot, fields) ↦
            let w' = put_table w a (record t { fields = fields }) in
            elim (slot_value fields slot) [
              | none ↦ none
              | some old ↦ elim (is_nil old) [
                | true ↦ set_missing w' aliased a t.metatable slot k v
                | false ↦ assign w' a slot v
              ]
            ]
      ]
    ]
  ]

  unfoldable pub set_round :
      ℕ → World D → Bool → Value D → Value D → Value D → Option (Round D × World D)
  set_round fuel w aliased (table a) k v = set_table fuel w aliased a k v
  set_round fuel w aliased tv k v = set_other w aliased tv k v

  unfoldable pub set_loop :
      ℕ → ℕ → World D → Bool → Value D → Value D → Value D → Option (Outcome D × World D)
  set_loop fuel zero w aliased tv k v = some (type_error set_index_of tv, w)
  set_loop fuel (suc i) w aliased tv k v = elim (set_round fuel w aliased tv k v) [
    | none ↦ none
    | some (leaves o, w') ↦ some (o, w')
    | some (follows mf, w') ↦ set_loop fuel i w' true mf k v
  ]

  unfoldable pub vm_table_set :
      ℕ → World D → Value D → Value D → Value D → Option (Outcome D × World D)
  vm_table_set fuel w tv k v = set_loop fuel mt_max_loop w false tv k v

  -- The length is asked for in place of `m` where the operand is neither a table nor userdata.
  unfoldable pub get_mt_unary : World D → Metamethod → Value D → Option (Value D × World D)
  get_mt_unary w m (table a) = elim (get_elem? w.tables a) [
    | none ↦ none
    | some t ↦ mt_get_fast N w t.metatable m
  ]
  get_mt_unary w m (userdata u) = mt_get_fast N w (w.userdata_metatable u) m
  get_mt_unary w m v = elim (mt_get_method N w v mt_len) [ none ↦ none | some mf ↦ some (mf, w) ]

  -- The metamethod that `vm_call_mt_binary` calls with `a` and `b`, if one of them has one.
  unfoldable pub vm_call_mt_binary :
      World D → Metamethod → Value D → Value D → Option (Option (Value D))
  vm_call_mt_binary w m a b = elim (mt_get_method N w a m) [
    | none ↦ none
    | some left ↦ elim (is_nil left) [
      | false ↦ some (some left)
      | true ↦ elim (mt_get_method N w b m) [
        | none ↦ none
        | some right ↦ some (if is_nil right then none else some right)
      ]
    ]
  ]
