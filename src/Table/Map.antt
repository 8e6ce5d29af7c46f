-- ===== src/Table/Map.antt =====
-- Reads of the hash part of cpp/src/table.cpp, and the entry that a write occupies.
use lulu.Prelude.{
  ◌⊎◌, if◌then◌else◌, ℕ, zero, suc, ◌+◌, ◌<◌, ◌≡◌, ◌≢◌, refl, sym, ◌∙◌, ap, Bool, true, false, ◌&&◌,
  Bool-cases, inl, inr, none, some, Option-cases, List, [], ◌∷◌, length, get_elem?, set, arith,
  get_elem?-set_self, lt_of_get_elem?, set-set,
}
use mathlib.Core.Option.{some-injective}
use lulu.Value.{Runtime, Value, nil, is_nil}
use lulu.Value.Hash.{hash_value}
use lulu.Table.{
  Entry, Table, Place, returns, present, free, nowhere, empty_entry, table_get_entry,
  table_hash_get, table_is_full,
}
use lulu.Table.Resize.{entry_slot, store}
use lulu.Table.Set.{occupy, table_hash_set, put}
use lulu.Table.Probe.{target}
use lulu.Table.Lookup.{has_key, is_free, find_entry-has_key, find_entry-is_free}
use lulu.Table.Store.{IsPlaced, stored, start, search-place}

module _ {D : Type 0} where
  abbrev pub is_empty : Entry D → Bool
  is_empty e = is_nil e.key && is_nil e.value

  -- The entries that are not empty.
  unfoldable pub used : List (Entry D) → ℕ
  used [] = 0
  used (e ∷ es) = (if is_empty e then 0 else 1) + used es

  used-set :
      (es : List (Entry D)) (i : ℕ) (e e' : Entry D)
      → get_elem? es i ≡ some e
      → is_empty e' ≡ false
      → used (set es i e') ≡ (if is_empty e then used es + 1 else used es)
  unfolding used
  used-set [] i e e' q h = cc
  used-set (x ∷ es) zero e e' q h =
      ground (arith, h, some-injective _ _ q, ap is_empty (some-injective _ _ q))
  used-set (x ∷ es) (suc i) e e' q h = ground (arith, used-set es i e e' q h)

  pub used-room :
      (es : List (Entry D))
      → used es < length es
      → (j : ℕ) × (e : Entry D) × (get_elem? es j ≡ some e) × (is_empty e ≡ true)
  unfolding used
  used-room [] h = absurd (omega arith)
  used-room (x ∷ es) h = elim (Bool-cases (is_empty x)) [
    | inl q ↦ (zero, x, refl, q)
    | inr q ↦ let (j, e, r, r') = used-room es (ground (arith, q)) in (suc j, e, r, r')
  ]

module _ {D : Type 0} (N : Runtime D) where
  -- A hash part of the table's own in which keys are found where they are stored, with no tombstone:
  -- `set_tombstone` is not called.
  pub record IsHash (t : Table D) : Type 0 where
    pub owned : t.owned ≡ true
    pub placed : IsPlaced N t
    pub counted : t.count ≡ used t.entries
    pub no_tombstones :
        (j : ℕ) → is_free (get_elem? t.entries j) ≡ true → get_elem? t.entries j ≡ some empty_entry

  store-entry :
      (t : Table D) (i : ℕ) (e : Entry D) (v : Value D)
      → get_elem? t.entries i ≡ some e
      → store t (entry_slot i) v
        ≡ record t { entries = set t.entries i (record { key = e.key; value = v }) }
  unfolding store
  store-entry t i e v q = ground (arith, q)

  -- Whether there is a place depends on the hash of the key alone.
  pub entry-some :
      (t t' : Table D) (k : Value D) (p : Place)
      → table_get_entry N t k ≡ some p
      → (p' : Place) × (table_get_entry N t' k ≡ some p')
  unfolding table_get_entry
  entry-some t t' k p h = elim (Option-cases (table_get_entry N t' k)) [
    | inr r ↦ r
    | inl q ↦ elim (Option-cases (hash_value N k)) [
      | inl r ↦ absurd (ground (arith, r, h))
      | inr (hash, r) ↦ absurd (ground (arith, r, q))
    ]
  ]

  pub entry-none :
      (t t' : Table D) (k : Value D) → table_get_entry N t k ≡ none → table_get_entry N t' k ≡ none
  entry-none t t' k h = elim (Option-cases (table_get_entry N t' k)) [
    | inl q ↦ q
    | inr (p, q) ↦ let (p', q') = entry-some t' t k p q in cc
  ]

  pub get-none :
      (t : Table D) (k : Value D) → table_get_entry N t k ≡ none → table_hash_get N t k ≡ none
  unfolding table_hash_get
  get-none t k h = ground (arith, h)

  module _ (t : Table D) (valid : IsHash t) (k : Value D) where
    pub get-present :
        (j : ℕ) (e : Entry D)
        → table_get_entry N t k ≡ some (present j)
        → get_elem? t.entries j ≡ some e
        → table_hash_get N t k ≡ some (true, e.value)
    unfolding table_hash_get
    get-present j e h q = ground (arith, h, q)

    pub get-absent :
        (place : Place)
        → table_get_entry N t k ≡ some place
        → ((j : ℕ) → place ≢ present j)
        → table_hash_get N t k ≡ some (false, nil)
    unfolding table_hash_get
    get-absent nowhere h ne = ground (arith, h)
    get-absent (present j) h ne = absurd (ne j refl)
    get-absent (free j) h ne =
        let (hash, q, h') = search-place N t k (free j) valid.owned h in
        let empty = valid.no_tombstones j (
          find_entry-is_free N t.entries k (start N (length t.entries) hash) (length t.entries) j
            h') in
        ground (arith, h, empty)

    pub present-has_key :
        (j : ℕ)
        → table_get_entry N t k ≡ some (present j)
        → has_key N k (get_elem? t.entries j) ≡ true
    present-has_key j h =
        let (hash, q, h') = search-place N t k (present j) valid.owned h in
        find_entry-has_key N t.entries k (start N (length t.entries) hash) (length t.entries) j h'

    pub proposed-kind :
        (place : Place) (i : ℕ)
        → table_get_entry N t k ≡ some place
        → target (returns place) ≡ some i
        → (has_key N k (get_elem? t.entries i) ≡ true) ⊎ (is_free (get_elem? t.entries i) ≡ true)
    unfolding target
    proposed-kind nowhere i h at_i = cc
    proposed-kind (present j) i h at_i =
        let e : j ≡ i = ground (arith, at_i) in inl (rw (sym e) (present-has_key j h))
    proposed-kind (free j) i h at_i =
        let (hash, r, h') = search-place N t k (free j) valid.owned h in
        let e : j ≡ i = ground (arith, at_i) in
        inr (
          rw (sym e) (
            find_entry-is_free N t.entries k (start N (length t.entries) hash) (length t.entries) j
              h'))

    pub proposed-entry :
        (place : Place) (i : ℕ)
        → table_get_entry N t k ≡ some place
        → target (returns place) ≡ some i
        → (e : Entry D) × (get_elem? t.entries i ≡ some e)
    unfolding has_key is_free
    proposed-entry place i h at_i = elim (Option-cases (get_elem? t.entries i)) [
      | inr found ↦ found
      | inl q ↦ absurd (ground (arith, q, proposed-kind place i h at_i))
    ]

    occupied : ℕ → Entry D → Table D
    occupied i e = record t {
      entries = set t.entries i (record { key = k; value = e.value });
      count = if is_nil e.key && is_nil e.value then t.count + 1 else t.count;
    }

    occupy-some :
        (i : ℕ) (e : Entry D)
        → get_elem? t.entries i ≡ some e
        → occupy N t k i ≡ some (entry_slot i, occupied i e)
    unfolding occupy occupied
    occupy-some i e q = ground (arith, q)

    store-occupied :
        (v : Value D) (i : ℕ) (e : Entry D)
        → get_elem? t.entries i ≡ some e
        → store (occupied i e) (entry_slot i) v ≡ stored N t k v i (occupied i e).count
    unfolding store occupied
    store-occupied v i e q =
        let own : Entry D = record { key = k; value = e.value } in
        store-entry (occupied i e) i own v
          (get_elem?-set_self t.entries i own (lt_of_get_elem? t.entries i e q))
        ∙ ap (λ es. record t { entries = es; count = (occupied i e).count })
            (set-set t.entries i own (record { key = k; value = v }))

    used-occupied :
        (v : Value D) (i : ℕ) (e : Entry D)
        → is_nil k ≡ false
        → get_elem? t.entries i ≡ some e
        → (occupied i e).count ≡ used (stored N t k v i (occupied i e).count).entries
    unfolding occupied
    used-occupied v i e key q = ground (
      arith,
      valid.counted,
      used-set t.entries i e (record { key = k; value = v }) q (ground (arith, key)),
    )

    -- Where an entry is proposed for the key, the write succeeds, puts the pair there and counts it.
    pub put-stored :
        (v : Value D) (fuel : ℕ) (place : Place) (i : ℕ)
        → is_nil k ≡ false
        → table_is_full t ≡ false
        → table_get_entry N t k ≡ some place
        → target (returns place) ≡ some i
        → (count : ℕ) × (put N (table_hash_set N (suc fuel)) t k v ≡ some (stored N t k v i count))
          × (count ≡ used (stored N t k v i count).entries)
    unfolding target table_hash_set put
    put-stored v fuel nowhere i key room h at_i = cc
    put-stored v fuel (present j) i key room h at_i =
        let (e, q) = proposed-entry (present j) i h at_i in
        (
          (occupied i e).count,
          ground (arith, room, h, occupy-some i e q, store-occupied v i e q),
          used-occupied v i e key q,
        )
    put-stored v fuel (free j) i key room h at_i =
        let (e, q) = proposed-entry (free j) i h at_i in
        (
          (occupied i e).count,
          ground (arith, room, h, occupy-some i e q, store-occupied v i e q),
          used-occupied v i e key q,
        )
