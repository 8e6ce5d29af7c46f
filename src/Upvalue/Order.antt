-- ===== src/Upvalue/Order.antt =====
-- What `upvalue_find` and `upvalue_close` (cpp/src/function.cpp) do on an ordered list.
use lulu.Prelude.{
  ℕ, suc, ◌≤◌, ◌<◌, ◌≡◌, refl, sym, inl, inr, arith, ap, List, [], ◌∷◌, ◌++◌, Option, none, some,
  ltb, ◌==◌, if◌then◌else◌, tests, ◌∙◌, Bool-cases, map,
}
use mathlib.Core.List.{reverse, reverse_aux-eq, append_assoc}
use lulu.Upvalue.{Upvalue, Thread, find_open, close_from, upvalue_close}

-- Each upvalue is above all those behind it: `s` bounds the slots of the list from above.
abbrev pub IsBelow : ℕ → List Upvalue → Type 0
IsBelow s [] = Unit {0}
IsBelow s (up ∷ rest) = (up.slot < s) × IsBelow up.slot rest

abbrev pub IsOrdered : List Upvalue → Type 0
IsOrdered [] = Unit {0}
IsOrdered (up ∷ rest) = IsBelow up.slot rest

-- The upvalue of a slot, wherever it is in the list.
unfoldable pub object_of : List Upvalue → ℕ → Option ℕ
object_of [] local = none
object_of (up ∷ rest) local =
    let later = object_of rest local in if up.slot == local then some up.object else later

object_of-below :
    (us : List Upvalue) (s local : ℕ) → IsBelow s us → s ≤ local → object_of us local ≡ none
unfolding object_of
object_of-below [] s local b h = refl
object_of-below (up ∷ us) s local b h = ground (arith, object_of-below us up.slot local)

-- On an ordered list the early stop of the search misses nothing.
find_open-object_of :
    (us : List Upvalue) (s local : ℕ) → IsBelow s us → find_open us local ≡ object_of us local
unfolding find_open object_of
find_open-object_of [] s local b = refl
find_open-object_of (up ∷ us) s local b =
    ground (arith, find_open-object_of us up.slot local, object_of-below us up.slot local)

pub find_open-IsOrdered :
    (us : List Upvalue) (local : ℕ) → IsOrdered us → find_open us local ≡ object_of us local
find_open-IsOrdered [] local o = find_open-object_of [] 0 local tt
find_open-IsOrdered (up ∷ us) local o =
    find_open-object_of (up ∷ us) (suc up.slot) local (omega arith, o)

-- The upvalues that stay open when all from `level` up are closed, and those that are closed.
pub kept : ℕ → List Upvalue → List Upvalue
kept level [] = []
kept level (up ∷ us) = let rest = kept level us in if ltb up.slot level then up ∷ rest else rest

pub taken : ℕ → List Upvalue → List Upvalue
taken level [] = []
taken level (up ∷ us) = let rest = taken level us in if ltb up.slot level then rest else up ∷ rest

below-kept :
    (us : List Upvalue) (s level : ℕ)
    → IsBelow s us
    → s ≤ level
    → (kept level us ≡ us) × (taken level us ≡ [])
unfolding kept taken
below-kept [] s level b h = (refl, refl)
below-kept (up ∷ us) s level b h = ground (arith, below-kept us up.slot level)

module _ {ℓ} {V : Type ℓ} where
  pub capture : (ℕ → V) → Upvalue → ℕ × V
  capture stack up = (up.object, stack up.slot)

  close_from-lists :
      (stack : ℕ → V) (level : ℕ) (us : List Upvalue) (s : ℕ) (closed : List (ℕ × V))
      → IsBelow s us
      → close_from stack level us closed
        ≡ (kept level us, reverse (map (capture stack) (taken level us)) ++ closed)
  unfolding close_from kept taken capture
  close_from-lists stack level [] s closed b = refl
  close_from-lists stack level (up ∷ us) s closed b = elim (Bool-cases (ltb up.slot level)) [
    | inl low ↦ let (k, t) = below-kept us up.slot level b.1 (omega (tests)) in rw (low, k, t)
    | inr high ↦ rw high (
        close_from-lists stack level us up.slot ((up.object, stack up.slot) ∷ closed) b.1
        ∙ ap (λ (l : List (ℕ × V)). (kept level us, l))
            (sym (
              ap (λ l. l ++ closed)
                (reverse_aux-eq (map (capture stack) (taken level us)) (capture stack up ∷ []))
              ∙ append_assoc (reverse (map (capture stack) (taken level us)))
                  (capture stack up ∷ []) closed)))
  ]

  -- Closing an ordered list leaves the upvalues below the level open, moves each of the others to
  -- the closed ones with the value of its slot, and leaves the stack as it is.
  pub upvalue_close-lists :
      (L : Thread V) (level : ℕ)
      → IsOrdered L.open_upvalues
      → upvalue_close L level ≡ record L {
        open_upvalues = kept level L.open_upvalues;
        closed = reverse (map (capture L.stack) (taken level L.open_upvalues)) ++ L.closed;
      }
  unfolding upvalue_close
  upvalue_close-lists L level o =
      let e = close_list L.open_upvalues o in
      ap (λ (p : List Upvalue × List (ℕ × V)). record L { open_upvalues = p.0; closed = p.1 }) e
    where
      close_list :
          (us : List Upvalue)
          → IsOrdered us
          → close_from L.stack level us L.closed
            ≡ (kept level us, reverse (map (capture L.stack) (taken level us)) ++ L.closed)
      close_list [] o = close_from-lists L.stack level [] 0 L.closed tt
      close_list (up ∷ us) o =
          close_from-lists L.stack level (up ∷ us) (suc up.slot) L.closed (omega arith, o)
