-- ===== src/Table/Probe.antt =====
-- What `find_entry` of cpp/src/table.cpp finds, before and after a key is put into an entry.
use lulu.Prelude.{
  [], ◌∷◌, ◌⊎◌, ◌==◌, if◌then◌else◌, ℕ, zero, suc, ◌+◌, ◌≡◌, ◌≢◌, refl, Bool, true, false, inl, inr,
  Option, none, some, Option-cases, List, get_elem?, set, arith,
}
use lulu.Value.{Runtime, Value, is_nil, equals}
use lulu.Table.{Entry, present, free, nowhere, Pass, returns, passed, first_tomb, find_pass}

unfoldable pub is_passed : Pass → Bool
is_passed (passed t) = true
is_passed (returns p) = false

-- The entry that a pass proposes for the key.
unfoldable pub target : Pass → Option ℕ
target (returns (present j)) = some j
target (returns (free j)) = some j
target (returns nowhere) = none
target (passed tomb) = tomb

module _ {D : Type 0} (N : Runtime D) where
  -- A pass that finds the key does so whatever tombstone was seen before.
  pub find_pass-tomb :
      (es : List (Entry D)) (k : Value D) (i c : ℕ) (t t' : Option ℕ) (j : ℕ)
      → find_pass N es k i c t ≡ returns (present j)
      → find_pass N es k i c t' ≡ returns (present j)
  unfolding find_pass
  find_pass-tomb es k i zero t t' j h = cc
  find_pass-tomb es k i (suc c) t t' j h = ground (
    arith,
    find_pass-tomb es k (i + 1) c t t' j,
    find_pass-tomb es k (i + 1) c (some (first_tomb t i)) (some (first_tomb t' i)) j,
  )

  -- A pass ends without a return whatever tombstone was seen before.
  pub find_pass-is_passed :
      (es : List (Entry D)) (k : Value D) (i c : ℕ) (t t' : Option ℕ)
      → is_passed (find_pass N es k i c t) ≡ is_passed (find_pass N es k i c t')
  unfolding find_pass is_passed
  find_pass-is_passed es k i zero t t' = refl
  find_pass-is_passed es k i (suc c) t t' = ground (
    arith,
    find_pass-is_passed es k (i + 1) c t t',
    find_pass-is_passed es k (i + 1) c (some (first_tomb t i)) (some (first_tomb t' i)),
  )

  -- An entry after a write.
  abbrev written : List (Entry D) → ℕ → Entry D → ℕ → Option (Entry D)
  written es i e x =
      if i == x then elim (get_elem? es x) [ none ↦ none | some _ ↦ some e ] else get_elem? es x

  pub get_elem?-written :
      (es : List (Entry D)) (i : ℕ) (e : Entry D) (x : ℕ)
      → get_elem? (set es i e) x ≡ written es i e x
  get_elem?-written [] i e x = ground arith
  get_elem?-written (e' ∷ es) zero e zero = refl
  get_elem?-written (e' ∷ es) zero e (suc x) = ground arith
  get_elem?-written (e' ∷ es) (suc i) e zero = ground arith
  get_elem?-written (e' ∷ es) (suc i) e (suc x) = ground (arith, get_elem?-written es i e x)

  -- A write of another key leaves a key findable.
  pub find_pass-set_other :
      (es : List (Entry D)) (k : Value D) (i : ℕ) (e : Entry D) (x c : ℕ) (t : Option ℕ) (j : ℕ)
      → is_nil e.key ≡ false
      → equals N k e.key ≡ false
      → i ≢ j
      → find_pass N es k x c t ≡ returns (present j)
      → find_pass N (set es i e) k x c t ≡ returns (present j)
  unfolding find_pass
  find_pass-set_other es k i e x zero t j n d ne h = cc
  find_pass-set_other es k i e x (suc c) t j n d ne h = ground (
    arith,
    get_elem?-written es i e x,
    find_pass-set_other es k i e (x + 1) c t j,
    find_pass-set_other es k i e (x + 1) c (some (first_tomb t x)) j,
    find_pass-tomb es k (x + 1) c (some (first_tomb t x)) t j,
  )

  pub find_pass-set_passed :
      (es : List (Entry D)) (k : Value D) (i : ℕ) (e : Entry D) (x c : ℕ) (t : Option ℕ)
      → is_nil e.key ≡ false
      → equals N k e.key ≡ false
      → is_passed (find_pass N es k x c t) ≡ true
      → is_passed (find_pass N (set es i e) k x c t) ≡ true
  unfolding find_pass is_passed
  find_pass-set_passed es k i e x zero t n d h = refl
  find_pass-set_passed es k i e x (suc c) t n d h = ground (
    arith,
    get_elem?-written es i e x,
    find_pass-set_passed es k i e (x + 1) c t,
    find_pass-set_passed es k i e (x + 1) c (some (first_tomb t x)),
    find_pass-is_passed es k (x + 1) c (some (first_tomb t x)) t,
  )

  pub target-tomb :
      (es : List (Entry D)) (k : Value D) (x c y j : ℕ)
      → target (find_pass N es k x c (some y)) ≡ some j
      → (j ≡ y) ⊎ (find_pass N es k x c (some y) ≡ returns (present j))
  unfolding find_pass target
  target-tomb es k x zero y j h = inl (ground arith)
  target-tomb es k x (suc c) y j h = ground (arith, target-tomb es k (x + 1) c y j)

  -- The keys that `==` takes for `k`.
  unfoldable pub Agree : Value D → Value D → Type 0
  Agree k k' = (v : Value D) → equals N k' v ≡ equals N k v

  -- A key that is put into the entry that it was found in is found there.
  pub find_pass-set_present :
      (es : List (Entry D)) (k k' : Value D) (e : Entry D) (x c : ℕ) (t t' : Option ℕ) (j : ℕ)
      → Agree k k'
      → is_nil e.key ≡ false
      → equals N k' e.key ≡ true
      → find_pass N es k x c t ≡ returns (present j)
      → find_pass N (set es j e) k' x c t' ≡ returns (present j)
  unfolding find_pass Agree
  find_pass-set_present es k k' e x zero t t' j a n d h = cc
  find_pass-set_present es k k' e x (suc c) t t' j a n d h = elim (Option-cases (get_elem? es x)) [
    | inl q ↦ ground (arith, q)
    | inr (e', q) ↦ ground (
      arith,
      get_elem?-written es j e x,
      a e'.key,
      find_pass-set_present es k k' e (x + 1) c t t' j a,
      find_pass-set_present es k k' e (x + 1) c (some (first_tomb t x)) (some (first_tomb t' x)) j
          a,
    )
  ]

  -- The same where the pass proposes an entry that is free for the key.
  pub find_pass-set-target :
      (es : List (Entry D)) (k k' : Value D) (e : Entry D) (x c : ℕ) (t' : Option ℕ) (j : ℕ)
      → Agree k k'
      → is_nil e.key ≡ false
      → equals N k' e.key ≡ true
      → target (find_pass N es k x c none) ≡ some j
      → find_pass N (set es j e) k' x c t' ≡ returns (present j)
  unfolding find_pass Agree target
  find_pass-set-target es k k' e x zero t' j a n d h = cc
  find_pass-set-target es k k' e x (suc c) t' j a n d h = elim (Option-cases (get_elem? es x)) [
    | inl q ↦ ground (arith, q)
    | inr (e', q) ↦ ground (
      arith,
      get_elem?-written es j e x,
      a e'.key,
      find_pass-set-target es k k' e (x + 1) c t' j a,
      target-tomb es k (x + 1) c x j,
      find_pass-set_present es k k' e (x + 1) c (some x) (some (first_tomb t' x)) j a,
    )
  ]

  -- A pass that did not find the key finds it at most where it was put.
  pub find_pass-set_after :
      (es : List (Entry D)) (k k' : Value D) (e : Entry D) (x c : ℕ) (t t' : Option ℕ) (j : ℕ)
      → Agree k k'
      → is_nil e.key ≡ false
      → equals N k' e.key ≡ true
      → is_passed (find_pass N es k x c t) ≡ true
      → (is_passed (find_pass N (set es j e) k' x c t') ≡ true)
        ⊎ (find_pass N (set es j e) k' x c t' ≡ returns (present j))
  unfolding find_pass Agree is_passed
  find_pass-set_after es k k' e x zero t t' j a n d h = inl refl
  find_pass-set_after es k k' e x (suc c) t t' j a n d h = elim (Option-cases (get_elem? es x)) [
    | inl q ↦ ground (arith, q, get_elem?-written es j e x)
    | inr (e', q) ↦ ground (
      arith,
      get_elem?-written es j e x,
      a e'.key,
      find_pass-set_after es k k' e (x + 1) c t t' j a,
      find_pass-set_after es k k' e (x + 1) c (some (first_tomb t x)) (some (first_tomb t' x)) j a,
    )
  ]
