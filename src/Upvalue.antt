-- ===== src/Upvalue.antt =====
-- cpp/src/function.cpp: the open upvalues of a thread, which closures share while the captured local
-- is on the stack. A `Value *` into the stack is the number of its slot, and an upvalue object is
-- known by a number that is never given twice.
pub mod Order
pub mod Sharing
use lulu.Prelude.{ℕ, ◌+◌, List, [], ◌∷◌, Option, none, some, ltb, ◌==◌, if◌then◌else◌}

-- An open upvalue: `value` points to a stack slot.
pub record Upvalue : Type 0 where
  pub object : ℕ
  pub slot : ℕ

module _ {ℓ} (V : Type ℓ) where
  -- `open_upvalues` in list order; `closed` has the values that closed upvalues own, latest first.
  pub record Thread : Type ℓ where
    pub stack : ℕ → V
    pub open_upvalues : List Upvalue
    pub closed : List (ℕ × V)
    pub next_object : ℕ

-- The `while` loop of `upvalue_find`: it stops at the first upvalue below the slot.
unfoldable pub find_open : List Upvalue → ℕ → Option ℕ
find_open [] local = none
find_open (up ∷ rest) local =
    let later = find_open rest local in
    if ltb up.slot local then none else if up.slot == local then some up.object else later

module _ {ℓ} {V : Type ℓ} where
  -- A new upvalue goes to the head of the list.
  unfoldable pub upvalue_find : Thread V → ℕ → ℕ × Thread V
  upvalue_find L local = elim (find_open L.open_upvalues local) [
    | some object ↦ (object, L)
    | none ↦ (
      L.next_object,
      record L {
        open_upvalues = record { object = L.next_object; slot = local } ∷ L.open_upvalues;
        next_object = L.next_object + 1;
      },
    )
  ]

  -- The `while` loop of `upvalue_close`, on the two lists.
  unfoldable pub close_from :
      (ℕ → V) → ℕ → List Upvalue → List (ℕ × V) → List Upvalue × List (ℕ × V)
  close_from stack level [] closed = ([], closed)
  close_from stack level (up ∷ rest) closed =
      let next = close_from stack level rest ((up.object, stack up.slot) ∷ closed) in
      if ltb up.slot level then (up ∷ rest, closed) else next

  unfoldable pub upvalue_close : Thread V → ℕ → Thread V
  upvalue_close L level =
      let (open_upvalues, closed) = close_from L.stack level L.open_upvalues L.closed in
      record L { open_upvalues = open_upvalues; closed = closed }
