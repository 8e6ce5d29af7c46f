-- ===== src/Table/Frame.antt =====
-- The gets of cpp/src/table.cpp once a pair is in the entry that was proposed for its key.
use lulu.Prelude.{
  ◌==◌, ℕ, ◌≡◌, ◌≢◌, sym, ◌∙◌, ap, true, false, Bool-cases, inl, inr, some, Option-cases, get_elem?,
  arith, get_elem?-set_ne, get_elem?-set_self, lt_of_get_elem?,
}
use lulu.Value.{Runtime, Value, is_nil, equals}
use lulu.Value.Equality.{IsPartialEquality, equals_sym, equals_trans}
use lulu.Table.{
  Table, Place, returns, present, free, nowhere, empty_entry, table_get_entry, table_hash_get,
}
use lulu.Table.Probe.{target, get_elem?-written}
use lulu.Table.Lookup.{has_key, is_free}
use lulu.Table.Map.{
  IsHash, used, get-present, get-absent, get-none, entry-some, entry-none, present-has_key,
  proposed-kind, proposed-entry,
}
use lulu.Table.Store.{
  IsPlaced, HashesAlike, stored, stored_self, stored-other, has_key-stored, stored-IsPlaced,
}

module _ {D : Type 0} (N : Runtime D) where
  module _ (law : IsPartialEquality N) (t : Table D) (valid : IsHash N t) (k v : Value D)
      (place : Place) (i count : ℕ) (key : is_nil k ≡ false)
      (proposed : table_get_entry N t k ≡ some place) (at_i : target (returns place) ≡ some i)
      (counted : count ≡ used (stored N t k v i count).entries) where
    stored-no_tombstones :
        (j : ℕ)
        → is_free (get_elem? (stored N t k v i count).entries j) ≡ true
        → get_elem? (stored N t k v i count).entries j ≡ some empty_entry
    unfolding is_free
    stored-no_tombstones j h = elim (Bool-cases (i == j)) [
      | inl e ↦ elim (Option-cases (get_elem? t.entries j)) [
        | inl q ↦
            ground (arith, e, q, get_elem?-written N t.entries i (record { key = k; value = v }) j)
        | inr (e', q) ↦
            ground (arith, e, q, get_elem?-written N t.entries i (record { key = k; value = v }) j)
      ]
      | inr d ↦ ground (
        arith,
        d,
        valid.no_tombstones j,
        get_elem?-written N t.entries i (record { key = k; value = v }) j,
      )
    ]

    pub stored-IsHash : HashesAlike N k → IsHash N (stored N t k v i count)
    stored-IsHash alike = record {
      owned = valid.owned;
      placed =
          stored-IsPlaced N law t k v place i count valid.owned key proposed at_i valid.placed
            alike;
      counted = counted;
      no_tombstones = stored-no_tombstones;
    }

    pub stored-get :
        (k' : Value D)
        → HashesAlike N k
        → equals N k' k ≡ true
        → table_hash_get N (stored N t k v i count) k' ≡ some (true, v)
    unfolding HashesAlike
    stored-get k' alike same =
        let (e, q) = proposed-entry N t valid k place i proposed at_i in
        get-present N (stored N t k v i count) (stored-IsHash alike) k' i
          (record { key = k; value = v })
          (stored_self N law t k v place i count valid.owned key proposed at_i k' same
            (alike k' same))
          (get_elem?-set_self t.entries i (record { key = k; value = v })
            (lt_of_get_elem? t.entries i e q))

    not_there :
        (k' : Value D)
        → equals N k' k ≡ false
        → (j : ℕ) → table_get_entry N t k' ≡ some (present j)
        → i ≢ j
    unfolding has_key is_free
    not_there k' differ j h here =
        let there = present-has_key N t valid k' j h in
        let kind = proposed-kind N t valid k place i proposed at_i in
        elim (Option-cases (get_elem? t.entries j)) [
          | inl q ↦ ground (arith, q, there)
          | inr (e, q) ↦
              let q' : get_elem? t.entries i ≡ some e = rw here q in
              ground (
                arith,
                q,
                q',
                there,
                kind,
                differ,
                equals_sym N law k e.key,
                equals_trans N law k' e.key k,
              )
        ]

    not_present :
        (k' : Value D)
        → HashesAlike N k
        → equals N k' k ≡ false
        → (p' : Place) → ((j : ℕ) → table_get_entry N t k' ≢ some (present j))
        → table_get_entry N (stored N t k v i count) k' ≡ some p'
        → (j : ℕ) → p' ≢ present j
    unfolding IsPlaced
    not_present k' alike differ p' absent q' j e =
        elim (has_key-stored N law t k v place i count valid.owned key proposed at_i k' j (
          present-has_key N (stored N t k v i count) (stored-IsHash alike) k' j (q' ∙ ap some e))) [
            | inl (here, same) ↦ cc
            | inr (ne, there) ↦ absent j (valid.placed k' j there)
          ]

    other-present :
        (k' : Value D)
        → HashesAlike N k
        → equals N k' k ≡ false
        → (j : ℕ) → table_get_entry N t k' ≡ some (present j)
        → table_hash_get N (stored N t k v i count) k' ≡ table_hash_get N t k'
    unfolding has_key
    other-present k' alike differ j q = elim (Option-cases (get_elem? t.entries j)) [
      | inl r ↦ absurd (ground (arith, r, present-has_key N t valid k' j q))
      | inr (e, r) ↦
          let ne = not_there k' differ j q in
          get-present N (stored N t k v i count) (stored-IsHash alike) k' j e
            (stored-other N law t k v place i count valid.owned key proposed at_i k' j differ ne q)
            (get_elem?-set_ne t.entries (record { key = k; value = v }) ne ∙ r)
          ∙ sym (get-present N t valid k' j e q r)
    ]

    other-absent :
        (k' : Value D)
        → HashesAlike N k
        → equals N k' k ≡ false
        → (p : Place) → ((j : ℕ) → p ≢ present j)
        → table_get_entry N t k' ≡ some p
        → table_hash_get N (stored N t k v i count) k' ≡ table_hash_get N t k'
    other-absent k' alike differ p absent q =
        let (p', q') = entry-some N t (stored N t k v i count) k' p q in
        let gone : (j : ℕ) → table_get_entry N t k' ≢ some (present j) =
          λ j r. absent j (ground (arith, q, r)) in
        get-absent N (stored N t k v i count) (stored-IsHash alike) k' p' q'
          (not_present k' alike differ p' gone q')
        ∙ sym (get-absent N t valid k' p q absent)

    pub stored-get_other :
        (k' : Value D)
        → HashesAlike N k
        → equals N k' k ≡ false
        → table_hash_get N (stored N t k v i count) k' ≡ table_hash_get N t k'
    stored-get_other k' alike differ = elim (Option-cases (table_get_entry N t k')) [
      | inl q ↦
          get-none N (stored N t k v i count) k' (entry-none N t (stored N t k v i count) k' q)
          ∙ sym (get-none N t k' q)
      | inr (nowhere, q) ↦ other-absent k' alike differ nowhere (λ j e. cc) q
      | inr (free j, q) ↦ other-absent k' alike differ (free j) (λ j e. cc) q
      | inr (present j, q) ↦ other-present k' alike differ j q
    ]
