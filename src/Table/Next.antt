-- ===== src/Table/Next.antt =====
-- `#t` and the iteration of cpp/src/table.cpp.
use lulu.Prelude.{
  ℕ, zero, suc, ◌+◌, ◌-◌, ◌&&◌, Option, none, some, List, [], ◌∷◌, leb, ◌==◌, if◌then◌else◌, length,
  get_elem?, drop, bit_and,
}
use lulu.Prelude.Int.{pos, negsuc}
use lulu.Value.{Runtime, Value, is_nil, equals}
use lulu.Value.Hash.{hash_value}
use lulu.Table.{Entry, Table, array_index, table_hash_get, make_integer_key}

-- `find_next`: an index, the runtime error, an index outside the entries, the panic of the hash, or a
-- run that the fuel does not cover.
pub data NextIndex : Type 0 where
  next_index : ℕ → NextIndex
  invalid_key out_of_bounds no_hash out_of_fuel : NextIndex

-- `table_next`: the pair it writes, the end, or as for `NextIndex`.
pub data NextPair (D : Type 0) : Type 0 where
  pair : Value D → Value D → NextPair D
  finished : NextPair D
  no_pair : NextIndex → NextPair D

module _ {D : Type 0} where
  -- The first loop of `table_len`.
  unfoldable pub len_array : List (Value D) → ℕ
  len_array [] = 0
  len_array (v ∷ vs) = if is_nil v then 0 else suc (len_array vs)

  -- The first of the values that is not nil; `i` is the index of their head.
  unfoldable pub next_value : List (Value D) → ℕ → Option (ℕ × Value D)
  next_value [] i = none
  next_value (v ∷ vs) i = if is_nil v then next_value vs (i + 1) else some (i, v)

  unfoldable pub next_entry : List (Entry D) → Option (Entry D)
  next_entry [] = none
  next_entry (e ∷ es) = if is_nil e.key then next_entry es else some e

module _ {D : Type 0} (N : Runtime D) where
  -- The `for` loop of `table_len` on the hash part, with fuel.
  unfoldable pub len_hash : ℕ → Table D → ℕ → Option ℕ
  len_hash zero t i = none
  len_hash (suc fuel) t i =
      let more = len_hash fuel t (i + 1) in
      elim (table_hash_get N t (make_integer_key N (pos (i + 1)))) [
        | none ↦ none
        | some (_, v) ↦ if is_nil v then some i else more
      ]

  unfoldable pub table_len : ℕ → Table D → Option ℕ
  table_len fuel t =
      let i = len_array t.array in
      if (i == length t.array) && t.owned then len_hash fuel t i else some i

  -- The `for` loop of `find_next`, with fuel: it ends at the key or at a nil key only.
  unfoldable pub find_key : ℕ → Table D → Value D → ℕ → NextIndex
  find_key zero t k i = out_of_fuel
  find_key (suc fuel) t k i =
      let more = find_key fuel t k (bit_and (i + 1) (length t.entries - 1)) in
      elim (get_elem? t.entries i) [
        | none ↦ out_of_bounds
        | some e ↦
            if is_nil e.key
            then invalid_key
            else if equals N e.key k
            then next_index (i + 1 + length t.array)
            else more
      ]

  unfoldable pub find_next : ℕ → Table D → Value D → NextIndex
  find_next fuel t k =
      let hashed : NextIndex = elim (hash_value N k) [
        | none ↦ no_hash
        | some hash ↦ find_key fuel t k (bit_and hash (length t.entries - 1))
      ] in
      if is_nil k then next_index 0 else elim (array_index N k) [
        | negsuc n ↦ hashed
        | pos i ↦ if leb 1 i && leb i (length t.array) then next_index i else hashed
      ]

  -- The two loops of `table_next`, from an index on.
  unfoldable pub next_from : Table D → ℕ → NextPair D
  next_from t i = elim (next_value (drop i t.array) i) [
    | some (j, v) ↦ pair (make_integer_key N (pos (j + 1))) v
    | none ↦ elim (next_entry (drop (i - length t.array) t.entries)) [
      | none ↦ finished
      | some e ↦ pair e.key e.value
    ]
  ]

  unfoldable pub table_next : ℕ → Table D → Value D → NextPair D
  table_next fuel t k = elim (find_next fuel t k) [
    | next_index i ↦ next_from t i
    | invalid_key ↦ no_pair invalid_key
    | out_of_bounds ↦ no_pair out_of_bounds
    | no_hash ↦ no_pair no_hash
    | out_of_fuel ↦ no_pair out_of_fuel
  ]
