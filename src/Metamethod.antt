-- ===== src/Metamethod.antt =====
-- cpp/src/metamethod.hpp, metamethod.cpp and the member `flags` of cpp/src/table.hpp: how a
-- metamethod of a value is found, and the flags in which a metatable remembers that it has none.
-- A table value is the index of its table object in `tables`. `none` is a run that a failed assertion
-- or a panic of the table stops, or that follows a pointer to nothing.
pub mod Access
pub mod Cache
pub mod Chain
pub mod Handlers
use lulu.Prelude.{
  ℕ, Bool, true, false, Option, none, some, List, if◌then◌else◌, get_elem?, set, leb,
}
use lulu.Value.{
  Runtime, Value, nil, boolean, lightuserdata, number, string, table, function, userdata, is_nil,
  value_type,
}
use lulu.Table.{Table}
use lulu.Table.Set.{table_get_string}

pub data Metamethod : Type 0 where
  mt_index : Metamethod
  mt_newindex : Metamethod
  mt_eq : Metamethod
  mt_len : Metamethod
  mt_gc : Metamethod
  mt_add : Metamethod
  mt_sub : Metamethod
  mt_mul : Metamethod
  mt_div : Metamethod
  mt_mod : Metamethod
  mt_pow : Metamethod
  mt_unm : Metamethod
  mt_lt : Metamethod
  mt_leq : Metamethod

-- The number of the enumerator.
unfoldable pub bit_of : Metamethod → ℕ
bit_of mt_index = 0
bit_of mt_newindex = 1
bit_of mt_eq = 2
bit_of mt_len = 3
bit_of mt_gc = 4
bit_of mt_add = 5
bit_of mt_sub = 6
bit_of mt_mul = 7
bit_of mt_div = 8
bit_of mt_mod = 9
bit_of mt_pow = 10
bit_of mt_unm = 11
bit_of mt_lt = 12
bit_of mt_leq = 13

-- The assertion of `mt_get_fast`.
unfoldable pub is_fast : Metamethod → Bool
is_fast m = leb (bit_of m) (bit_of mt_gc)

module _ (D : Type 0) where
  -- `fields` is what cpp/src/table.cpp works on. `flags` has the eight bits, the lowest first.
  pub record TableObject : Type 0 where
    pub fields : Table D
    pub metatable : Option ℕ
    pub flags : List Bool

  -- The table objects, the metatables of the userdata, and `mt_basic` and `mt_names` of
  -- `lulu_Global`: a metatable for a type of values, and the addresses of the names.
  pub record World : Type 0 where
    pub tables : List TableObject
    pub userdata_metatable : ℕ → Option ℕ
    pub mt_basic : ℕ → Option ℕ
    pub mt_names : Metamethod → ℕ

module _ {D : Type 0} where
  unfoldable pub put_table : World D → ℕ → TableObject D → World D
  put_table w a t = record w { tables = set w.tables a t }

  -- `flags & (1u << m)`, false for a bit beyond the eight.
  unfoldable pub is_absent : TableObject D → Metamethod → Bool
  is_absent mt m = elim (get_elem? mt.flags (bit_of m)) [ none ↦ false | some b ↦ b ]

  -- `flags |= (1u << m)`, which leaves the eight bits alone for a bit beyond them.
  unfoldable pub mark_absent : TableObject D → Metamethod → TableObject D
  mark_absent mt m = record mt { flags = set mt.flags (bit_of m) true }

  -- The metatable that `mt_get_method` looks into.
  unfoldable pub metatable_of : World D → Value D → Option (Option ℕ)
  metatable_of w (table a) = elim (get_elem? w.tables a) [ none ↦ none | some t ↦ some t.metatable ]
  metatable_of w (userdata u) = some (w.userdata_metatable u)
  metatable_of w v = some (w.mt_basic (value_type v))

module _ {D : Type 0} (N : Runtime D) where
  -- `table_get_string(mt, mt_names[m])`
  unfoldable pub raw_metamethod : World D → TableObject D → Metamethod → Option (Value D)
  raw_metamethod w mt m = elim (table_get_string N mt.fields (w.mt_names m)) [
    | none ↦ none
    | some (_, v) ↦ some v
  ]

  unfoldable pub mt_get_fast : World D → Option ℕ → Metamethod → Option (Value D × World D)
  mt_get_fast w none m = some (nil, w)
  mt_get_fast w (some a) m = elim (get_elem? w.tables a) [
    | none ↦ none
    | some mt ↦ elim (is_absent mt m) [
      | true ↦ some (nil, w)
      | false ↦ elim (raw_metamethod w mt m) [
        | none ↦ none
        | some mf ↦ elim (is_fast m) [
          | false ↦ none
          | true ↦ some (mf, (if is_nil mf then put_table w a (mark_absent mt m) else w))
        ]
      ]
    ]
  ]

  unfoldable pub mt_get_method : World D → Value D → Metamethod → Option (Value D)
  mt_get_method w v m = elim (metatable_of w v) [
    | none ↦ none
    | some none ↦ some nil
    | some (some a) ↦ elim (get_elem? w.tables a) [ none ↦ none | some mt ↦ raw_metamethod w mt m ]
  ]
