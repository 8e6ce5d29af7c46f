-- ===== src/Table/Set.antt =====
-- The writes of cpp/src/table.cpp that may rehash: `table_hash_set`, `table_rehash` and
-- `table_resize` call each other. Those called by `table_hash_set` take it as an argument, and its
-- own recursion is on fuel.
use lulu.Prelude.{
  ℕ, zero, suc, ◌+◌, ◌-◌, Bool, false, ◌&&◌, Option, none, some, List, [], ◌∷◌, ltb, if◌then◌else◌,
  length, get_elem?, set, take, drop, replicate,
}
use lulu.Prelude.Int.{ℤ, pos}
use lulu.Value.{Runtime, Value, string, is_nil}
use lulu.Table.{
  Entry, Table, present, free, nowhere, empty_entry, array_index, table_array_ptr, table_is_full,
  table_get_entry, table_hash_get, make_integer_key,
}
use lulu.Table.Resize.{
  Slot, array_slot, entry_slot, store, table_array_min_size, max_index_bits, count_index,
  table_hash_count_array, table_array_count, table_array_compute_size, table_array_resize,
  table_hash_resize,
}

abbrev pub Setter : Type 0 → Type 0
Setter D = Table D → Value D → Option (Slot × Table D)

module _ {D : Type 0} (N : Runtime D) where
  -- `*set(t, k) = v`
  unfoldable pub put : Setter D → Table D → Value D → Value D → Option (Table D)
  put setter t k v = elim (setter t k) [ none ↦ none | some (slot, t') ↦ some (store t' slot v) ]

  unfoldable pub table_set_by : Setter D → Setter D
  table_set_by hash_set t k = elim (table_array_ptr t (array_index N k)) [
    | none ↦ hash_set t k
    | some i ↦ some (array_slot i, t)
  ]

  unfoldable pub table_set_integer_by : Setter D → Table D → ℤ → Option (Slot × Table D)
  table_set_integer_by hash_set t i = elim (table_array_ptr t i) [
    | none ↦ hash_set t (make_integer_key N i)
    | some slot ↦ some (array_slot slot, t)
  ]

  -- `table_resize` moves the values behind the new end of the array part; `i` is the index of the
  -- first.
  unfoldable pub move_values : Setter D → List (Value D) → ℕ → Table D → Option (Table D)
  move_values hash_set [] i t = some t
  move_values hash_set (v ∷ vs) i t =
      if is_nil v
      then move_values hash_set vs (i + 1) t
      else elim (table_set_integer_by hash_set t (pos (i + 1))) [
        | none ↦ none
        | some (slot, t') ↦ move_values hash_set vs (i + 1) (store t' slot v)
      ]

  -- `table_resize` sets the old entries whose value is not nil.
  unfoldable pub move_entries : Setter D → List (Entry D) → Table D → Option (Table D)
  move_entries hash_set [] t = some t
  move_entries hash_set (e ∷ es) t =
      if is_nil e.value
      then move_entries hash_set es t
      else elim (put (table_set_by hash_set) t e.key e.value) [
        | none ↦ none
        | some t' ↦ move_entries hash_set es t'
      ]

  -- The branch of `table_resize` for an array part that shrinks.
  unfoldable pub shrink_array : Setter D → Table D → List (Value D) → ℕ → Option (Table D)
  shrink_array hash_set t old_array n_array =
      let shorter = record t { array = take n_array old_array } in
      elim (move_values hash_set (drop n_array old_array) n_array shorter) [
        | none ↦ none
        | some t' ↦ some (table_array_resize t' n_array)
      ]

  unfoldable pub table_resize : Setter D → Table D → ℕ → ℕ → Option (Table D)
  table_resize hash_set t n_hash n_array =
      let old = length t.array in
      let grown = if ltb old n_array then table_array_resize t n_array else t in
      let fresh = table_hash_resize grown n_hash in
      let shrinks = ltb n_array old && ltb table_array_min_size n_array in
      let moved = if shrinks then shrink_array hash_set fresh t.array n_array else some fresh in
      elim moved [ none ↦ none | some t' ↦ move_entries hash_set t.entries t' ]

  unfoldable pub table_rehash : Setter D → Table D → Value D → Option (Table D)
  table_rehash hash_set t k =
      let zeros = replicate (max_index_bits + 1) 0 in
      let (ranges, n_values) = table_array_count t zeros in
      let n_entries = if t.owned then length t.entries else 0 in
      let (n_hashed, ranges') = table_hash_count_array N t.entries ranges in
      let (n_key, ranges'') = count_index N k ranges' in
      let n_total = n_values + n_entries + 1 in
      elim (table_array_compute_size ranges'' (n_values + n_hashed + n_key)) [
        | none ↦ none
        | some (n_array, active) ↦ table_resize hash_set t (n_total - active) n_array
      ]

  -- The key is put into the entry; `count` tells the entries that are no longer empty.
  unfoldable pub occupy : Table D → Value D → ℕ → Option (Slot × Table D)
  occupy t k i = elim (get_elem? t.entries i) [
    | none ↦ none
    | some e ↦
        let count = if is_nil e.key && is_nil e.value then t.count + 1 else t.count in
        let entries = set t.entries i (record { key = k; value = e.value }) in
        some (entry_slot i, record t { entries = entries; count = count })
  ]

  unfoldable pub table_hash_set : ℕ → Setter D
  table_hash_set zero t k = none
  table_hash_set (suc fuel) t k =
      let hash_set : Setter D = λ t k. table_hash_set fuel t k in
      elim (if table_is_full t then some nowhere else table_get_entry N t k) [
        | none ↦ none
        | some (present i) ↦ occupy t k i
        | some (free i) ↦ occupy t k i
        | some nowhere ↦ elim (table_rehash hash_set t k) [
          | none ↦ none
          | some t' ↦ table_set_by hash_set t' k
        ]
      ]

  unfoldable pub table_set : ℕ → Setter D
  table_set fuel t k = table_set_by (λ t k. table_hash_set fuel t k) t k

  unfoldable pub table_set_integer : ℕ → Table D → ℤ → Option (Slot × Table D)
  table_set_integer fuel t i = table_set_integer_by (λ t k. table_hash_set fuel t k) t i

  unfoldable pub table_set_string : ℕ → Table D → ℕ → Option (Slot × Table D)
  table_set_string fuel t k = table_hash_set fuel t (string k)

  unfoldable pub table_get_string : Table D → ℕ → Option (Bool × Value D)
  table_get_string t k = table_hash_get N t (string k)

  unfoldable pub table_new : ℕ → ℕ → ℕ → Option (Table D)
  table_new fuel n_hash n_array =
      table_resize (λ t k. table_hash_set fuel t k)
        (record { array = []; entries = empty_entry ∷ []; owned = false; count = 0 }) n_hash n_array
