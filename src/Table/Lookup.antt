-- ===== src/Table/Lookup.antt =====
-- What `find_entry` of cpp/src/table.cpp returns, over both of its passes.
use lulu.Prelude.{
  ◌⊎◌, ℕ, zero, suc, ◌+◌, ◌-◌, ◌≡◌, ◌≢◌, refl, ◌∙◌, ap, Bool, true, false, not, ◌&&◌, inl, inr,
  Option, none, some, Option-cases, List, get_elem?, set, arith,
}
use lulu.Value.{Runtime, Value, is_nil, equals}
use lulu.Table.{
  Entry, Place, present, free, nowhere, Pass, returns, passed, first_tomb, find_pass, find_entry,
}
use lulu.Table.Probe.{
  find_pass-tomb, is_passed, find_pass-set_other, find_pass-set_passed, target, target-tomb, Agree,
  find_pass-set_present, find_pass-set-target, find_pass-set_after,
}

module _ {D : Type 0} where
  unfoldable pub has_key : Runtime D → Value D → Option (Entry D) → Bool
  has_key N k none = false
  has_key N k (some e) = not (is_nil e.key) && equals N k e.key

  unfoldable pub is_free : Option (Entry D) → Bool
  is_free none = false
  is_free (some e) = is_nil e.key

pub Pass-cases :
    (p : Pass) → ((place : Place) × (p ≡ returns place)) ⊎ ((t : Option ℕ) × (p ≡ passed t))
Pass-cases (returns place) = inl (place, refl)
Pass-cases (passed t) = inr (t, refl)

is_passed-passed : (p : Pass) → is_passed p ≡ true → (t : Option ℕ) × (p ≡ passed t)
unfolding is_passed
is_passed-passed (returns place) h = cc
is_passed-passed (passed t) h = (t, refl)

module _ {D : Type 0} (N : Runtime D) (es : List (Entry D)) (k : Value D) (s n : ℕ) where
  first_pass :
      (place : Place)
      → find_pass N es k s (n - s) none ≡ returns place
      → find_entry N es k s n ≡ place
  unfolding find_entry
  first_pass place h = ground (arith, h)

  second_pass :
      (t : Option ℕ) (place : Place)
      → find_pass N es k s (n - s) none ≡ passed t
      → find_pass N es k 0 s t ≡ returns place
      → find_entry N es k s n ≡ place
  unfolding find_entry
  second_pass t place h h' = ground (arith, h, h')

  -- The two ways to a place that is not `nowhere`.
  entry_passes :
      (place : Place)
      → find_entry N es k s n ≡ place
      → place ≢ nowhere
      → (find_pass N es k s (n - s) none ≡ returns place)
        ⊎ ((t : Option ℕ) × (find_pass N es k s (n - s) none ≡ passed t)
            × (find_pass N es k 0 s t ≡ returns place))
  unfolding find_entry
  entry_passes place h ne = elim (Pass-cases (find_pass N es k s (n - s) none)) [
    | inl (p, q) ↦ inl (ground (arith, q))
    | inr (t, q) ↦ elim (Pass-cases (find_pass N es k 0 s t)) [
      | inl (p, q') ↦ inr (t, q, ground (arith, q, q'))
      | inr (t', q') ↦ absurd (ne (ground (arith, q, q')))
    ]
  ]

module _ {D : Type 0} (N : Runtime D) (es : List (Entry D)) (k : Value D) (s n : ℕ) where
  pub find_entry-set_other :
      (i : ℕ) (e : Entry D) (j : ℕ)
      → is_nil e.key ≡ false
      → equals N k e.key ≡ false
      → i ≢ j
      → find_entry N es k s n ≡ present j
      → find_entry N (set es i e) k s n ≡ present j
  unfolding is_passed
  find_entry-set_other i e j v d ne h = elim (entry_passes N es k s n (present j) h (λ q. cc)) [
    | inl q ↦
        first_pass N (set es i e) k s n (present j)
          (find_pass-set_other N es k i e s (n - s) none j v d ne q)
    | inr (t, q, q') ↦
        let (t', r) =
          is_passed-passed _ (find_pass-set_passed N es k i e s (n - s) none v d (rw q refl)) in
        second_pass N (set es i e) k s n t' (present j) r (
          find_pass-tomb N (set es i e) k 0 s t t' j
            (find_pass-set_other N es k i e 0 s t j v d ne q'))
  ]

  module _ (k' : Value D) (e : Entry D) (place : Place) (j : ℕ) (agree : Agree N k k')
      (stored : is_nil e.key ≡ false) (own : equals N k' e.key ≡ true)
      (at_j : target (returns place) ≡ some j) where
    -- The key is put into an entry that the second pass proposed.
    after_second :
        (t t' : Option ℕ)
        → find_pass N es k s (n - s) none ≡ passed t
        → find_pass N es k 0 s t ≡ returns place
        → find_pass N (set es j e) k' s (n - s) none ≡ passed t'
        → find_entry N (set es j e) k' s n ≡ present j
    unfolding target
    after_second none t' q q' r =
        second_pass N (set es j e) k' s n t' (present j) r
          (find_pass-set-target N es k k' e 0 s t' j agree stored own (rw q' at_j))
    after_second (some y) t' q q' r = elim (target-tomb N es k 0 s y j (rw q' at_j)) [
      | inl same ↦
          first_pass N (set es j e) k' s n (present j)
            (find_pass-set-target N es k k' e s (n - s) none j agree stored own (rw (q, same) refl))
      | inr found ↦
          second_pass N (set es j e) k' s n t' (present j) r
            (find_pass-set_present N es k k' e 0 s (some y) t' j agree stored own found)
    ]

    -- A key is found in the entry that was proposed for it, once it is put there.
    pub find_entry-set_self :
        find_entry N es k s n ≡ place → find_entry N (set es j e) k' s n ≡ present j
    unfolding is_passed target
    find_entry-set_self h = elim (entry_passes N es k s n place h (λ q. ground (arith, q))) [
      | inl q ↦
          first_pass N (set es j e) k' s n (present j)
            (find_pass-set-target N es k k' e s (n - s) none j agree stored own (rw q at_j))
      | inr (t, q, q') ↦
          elim (find_pass-set_after N es k k' e s (n - s) none none j agree stored own
            (rw q refl)) [
              | inr r ↦ first_pass N (set es j e) k' s n (present j) r
              | inl r ↦ let (t', r') = is_passed-passed _ r in after_second t t' q q' r'
            ]
    ]

module _ {D : Type 0} (N : Runtime D) where
  -- Keys that `==` does not tell apart have the same place.
  find_pass-Agree :
      (es : List (Entry D)) (k k' : Value D) (x c : ℕ) (t : Option ℕ)
      → Agree N k k'
      → find_pass N es k' x c t ≡ find_pass N es k x c t
  unfolding find_pass Agree
  find_pass-Agree es k k' x zero t a = refl
  find_pass-Agree es k k' x (suc c) t a = elim (Option-cases (get_elem? es x)) [
    | inl q ↦ ground (arith, q)
    | inr (e', q) ↦ ground (
      arith,
      q,
      a e'.key,
      find_pass-Agree es k k' (x + 1) c t a,
      find_pass-Agree es k k' (x + 1) c (some (first_tomb t x)) a,
    )
  ]

  pub find_entry-Agree :
      (es : List (Entry D)) (k k' : Value D) (s n : ℕ)
      → Agree N k k'
      → find_entry N es k' s n ≡ find_entry N es k s n
  unfolding find_entry
  find_entry-Agree es k k' s n a = elim (Pass-cases (find_pass N es k s (n - s) none)) [
    | inl (p, q) ↦ ground (arith, q, find_pass-Agree es k k' s (n - s) none a)
    | inr (t, q) ↦
        ground (arith, q, find_pass-Agree es k k' s (n - s) none a, find_pass-Agree es k k' 0 s t a)
  ]

  -- An entry that is found has the key.
  find_pass-has_key :
      (es : List (Entry D)) (k : Value D) (x c : ℕ) (t : Option ℕ) (j : ℕ)
      → find_pass N es k x c t ≡ returns (present j)
      → has_key N k (get_elem? es j) ≡ true
  unfolding find_pass has_key
  find_pass-has_key es k x zero t j h = cc
  find_pass-has_key es k x (suc c) t j h = elim (Option-cases (get_elem? es x)) [
    | inl q ↦ ground (arith, q)
    | inr (e', q) ↦ ground (
      arith,
      q,
      find_pass-has_key es k (x + 1) c t j,
      find_pass-has_key es k (x + 1) c (some (first_tomb t x)) j,
    )
  ]

  -- A free entry has no key.
  find_pass-is_free :
      (es : List (Entry D)) (k : Value D) (x c : ℕ) (t : Option ℕ) (j : ℕ)
      → (find_pass N es k x c t ≡ returns (free j)) ⊎ (find_pass N es k x c t ≡ passed (some j))
      → (t ≡ some j) ⊎ (is_free (get_elem? es j) ≡ true)
  unfolding find_pass is_free
  find_pass-is_free es k x zero t j (inl h) = cc
  find_pass-is_free es k x zero t j (inr h) = inl (ground (arith, h))
  find_pass-is_free es k x (suc c) none j h = elim (Option-cases (get_elem? es x)) [
    | inl q ↦ ground (arith, q)
    | inr (e', q) ↦ ground (
      arith,
      q,
      find_pass-is_free es k (x + 1) c none j,
      find_pass-is_free es k (x + 1) c (some x) j,
    )
  ]
  find_pass-is_free es k x (suc c) (some y) j h = elim (Option-cases (get_elem? es x)) [
    | inl q ↦ ground (arith, q)
    | inr (e', q) ↦ ground (arith, q, find_pass-is_free es k (x + 1) c (some y) j)
  ]

module _ {D : Type 0} (N : Runtime D) (es : List (Entry D)) (k : Value D) (s n j : ℕ) where
  pub find_entry-has_key : find_entry N es k s n ≡ present j → has_key N k (get_elem? es j) ≡ true
  find_entry-has_key h = elim (entry_passes N es k s n (present j) h (λ q. cc)) [
    | inl q ↦ find_pass-has_key N es k s (n - s) none j q
    | inr (t, q, q') ↦ find_pass-has_key N es k 0 s t j q'
  ]

  pub find_entry-is_free : find_entry N es k s n ≡ free j → is_free (get_elem? es j) ≡ true
  find_entry-is_free h = elim (entry_passes N es k s n (free j) h (λ q. cc)) [
    | inl q ↦ elim (find_pass-is_free N es k s (n - s) none j (inl q)) [ inl r ↦ cc | inr r ↦ r ]
    | inr (t, q, q') ↦ elim (find_pass-is_free N es k 0 s t j (inl q')) [
      | inr r ↦ r
      | inl r ↦ elim (find_pass-is_free N es k s (n - s) none j (inr (q ∙ ap passed r))) [
        | inl r ↦ cc
        | inr r ↦ r
      ]
    ]
  ]
