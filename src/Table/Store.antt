-- ===== src/Table/Store.antt =====
-- The hash part of cpp/src/table.cpp as a map: `table_hash_set` on a table that is not full.
use lulu.Prelude.{
  ◌⊎◌, ◌==◌, ℕ, ◌-◌, ◌≡◌, ◌≢◌, refl, sym, ◌∙◌, ap, true, false, Bool-cases, inl, inr, some,
  Option-cases, length, get_elem?, set, arith, length-set, bit_and, bit_or,
}
use lulu.Value.{Runtime, Value, is_nil, equals}
use lulu.Value.Equality.{IsPartialEquality, equals_sym, equals_trans}
use lulu.Value.Hash.{hash_value}
use lulu.Table.{Table, Place, returns, present, find_entry, table_get_entry}
use lulu.Table.Probe.{target, Agree, get_elem?-written}
use lulu.Table.Lookup.{has_key, find_entry-set_other, find_entry-set_self, find_entry-Agree}

module _ {D : Type 0} (N : Runtime D) where
  -- Every key that is stored, and every key equal to it, is found where it is stored.
  unfoldable pub IsPlaced : Table D → Type 0
  IsPlaced t =
      (k : Value D) (j : ℕ)
      → has_key N k (get_elem? t.entries j) ≡ true
      → table_get_entry N t k ≡ some (present j)

  -- Where the table has its own entries, a place is the search from the start that the hash gives.
  abbrev pub start : ℕ → ℕ → ℕ
  start n hash = bit_and hash (bit_or (n - 1) 1)

  pub search-place :
      (t : Table D) (k : Value D) (place : Place)
      → t.owned ≡ true
      → table_get_entry N t k ≡ some place
      → (hash : ℕ) × (hash_value N k ≡ some hash)
        × (find_entry N t.entries k (start (length t.entries) hash) (length t.entries) ≡ place)
  unfolding table_get_entry
  search-place t k place own h = elim (Option-cases (hash_value N k)) [
    | inl q ↦ ground (arith, q)
    | inr (hash, q) ↦ (hash, q, ground (arith, q))
  ]

  pub place-search :
      (t : Table D) (k : Value D) (place : Place) (hash : ℕ)
      → t.owned ≡ true
      → hash_value N k ≡ some hash
      → find_entry N t.entries k (start (length t.entries) hash) (length t.entries) ≡ place
      → table_get_entry N t k ≡ some place
  unfolding table_get_entry
  place-search t k place hash own q h = ground (arith, q, h)

  -- The table with the key and its value in entry `i`.
  abbrev pub stored : Table D → Value D → Value D → ℕ → ℕ → Table D
  stored t k v i count = record t {
    entries = set t.entries i (record { key = k; value = v });
    count = count;
  }

  -- Keys equal to `k` hash as `k`: so of all keys but the zeros, for 0.0 and -0.0 differ in a bit.
  unfoldable pub HashesAlike : Value D → Type 0
  HashesAlike k = (k' : Value D) → equals N k' k ≡ true → hash_value N k' ≡ hash_value N k

  module _ (law : IsPartialEquality N) (t : Table D) (k v : Value D) (place : Place) (i count : ℕ)
      (own : t.owned ≡ true) (key : is_nil k ≡ false)
      (proposed : table_get_entry N t k ≡ some place) (at_i : target (returns place) ≡ some i) where
    pub equal-Agree : (k' : Value D) → equals N k' k ≡ true → Agree N k k'
    unfolding Agree
    equal-Agree k' same v = elim (Bool-cases (equals N k v)) [
      | inl q ↦ rw q (equals_trans N law k' k v same q)
      | inr q ↦ elim (Bool-cases (equals N k' v)) [
        | inr q' ↦ rw (q, q') refl
        | inl q' ↦
            absurd (ground (arith, q, equals_trans N law k k' v (equals_sym N law k' k same) q'))
      ]
    ]

    pub stored_self :
        (k' : Value D)
        → equals N k' k ≡ true
        → hash_value N k' ≡ hash_value N k
        → table_get_entry N (stored t k v i count) k' ≡ some (present i)
    stored_self k' same alike =
        let (hash, q, h) = search-place t k place own proposed in
        place-search (stored t k v i count) k' (present i) hash own (alike ∙ q) (
          rw (length-set t.entries i (record { key = k; value = v })) (
            find_entry-set_self N t.entries k (start (length t.entries) hash) (length t.entries) k'
              (record { key = k; value = v }) place i (equal-Agree k' same) key same at_i h))

    pub stored-other :
        (k' : Value D) (j : ℕ)
        → equals N k' k ≡ false
        → i ≢ j
        → table_get_entry N t k' ≡ some (present j)
        → table_get_entry N (stored t k v i count) k' ≡ some (present j)
    stored-other k' j differ ne h =
        let (hash, q, h') = search-place t k' (present j) own h in
        place-search (stored t k v i count) k' (present j) hash own q (
          rw (length-set t.entries i (record { key = k; value = v })) (
            find_entry-set_other N t.entries k' (start (length t.entries) hash) (length t.entries) i
              (record { key = k; value = v }) j key differ ne h'))

    pub has_key-stored :
        (k' : Value D) (j : ℕ)
        → has_key N k' (get_elem? (stored t k v i count).entries j) ≡ true
        → ((i ≡ j) × (equals N k' k ≡ true))
          ⊎ ((i ≢ j) × (has_key N k' (get_elem? t.entries j) ≡ true))
    unfolding has_key
    has_key-stored k' j h = elim (Bool-cases (i == j)) [
      | inl e ↦ elim (Option-cases (get_elem? t.entries j)) [
        | inl q ↦
            ground (arith, e, q, get_elem?-written N t.entries i (record { key = k; value = v }) j)
        | inr (e', q) ↦
            ground (arith, e, q, get_elem?-written N t.entries i (record { key = k; value = v }) j)
      ]
      | inr d ↦ ground (arith, d, get_elem?-written N t.entries i (record { key = k; value = v }) j)
    ]

    pub proposed-present :
        (k' : Value D) (j : ℕ)
        → equals N k' k ≡ true
        → hash_value N k' ≡ hash_value N k
        → table_get_entry N t k' ≡ some (present j)
        → i ≡ j
    unfolding target
    proposed-present k' j same alike h =
        let (hash, q, h') = search-place t k' (present j) own h in
        let here : table_get_entry N t k ≡ some (present j) =
          place-search t k (present j) hash own (sym alike ∙ q) (
            sym (
              find_entry-Agree N t.entries k k' (start (length t.entries) hash) (length t.entries)
                (equal-Agree k' same))
            ∙ h') in
        ground (arith, here)

    pub stored-IsPlaced : IsPlaced t → HashesAlike k → IsPlaced (stored t k v i count)
    unfolding IsPlaced HashesAlike target
    stored-IsPlaced placed alike k' j h = elim (has_key-stored k' j h) [
      | inl (e, same) ↦ stored_self k' same (alike k' same) ∙ ap (λ n. some (present n)) e
      | inr (ne, h') ↦ elim (Bool-cases (equals N k' k)) [
        | inr differ ↦ stored-other k' j differ ne (placed k' j h')
        | inl same ↦ absurd (ne (proposed-present k' j same (alike k' same) (placed k' j h')))
      ]
    ]
