-- ===== src/Upvalue/Sharing.antt =====
-- When the closures that capture a local share its upvalue (cpp/src/function.cpp).
use lulu.Prelude.{
  ℕ, ◌+◌, ◌<◌, ◌≡◌, ◌≢◌, refl, ◌⊎◌, inl, inr, arith, ap, List, [], ◌∷◌, none, some, ◌==◌,
  if◌then◌else◌, Option-cases, lt→ltb, ◌∙◌, sym,
}
use native.Mathlib.Decide.{ℕ_discrete}
use lulu.Upvalue.{Upvalue, Thread, find_open, upvalue_find, close_from, upvalue_close}
use lulu.Upvalue.Order.{IsBelow, IsOrdered, object_of, find_open-IsOrdered}

find_open-below : (us : List Upvalue) (local : ℕ) → IsBelow local us → find_open us local ≡ none
unfolding find_open
find_open-below [] local b = refl
find_open-below (up ∷ us) local b = rw (lt→ltb up.slot local b.0)

module _ {ℓ} {V : Type ℓ} where
  -- The slots that have an upvalue after `local` got `object`.
  abbrev pub Captures : Thread V → ℕ → ℕ × Thread V → Type 0
  Captures L local r =
      (j : ℕ)
      → object_of r.1.open_upvalues j
        ≡ (if local == j then some r.0 else object_of L.open_upvalues j)

  -- The thread with a new upvalue at the head of its list.
  abbrev pub fresh : Thread V → ℕ → Thread V
  fresh L local = record L {
    open_upvalues = record { object = L.next_object; slot = local } ∷ L.open_upvalues;
    next_object = L.next_object + 1;
  }

  find-none :
      (L : Thread V) (local : ℕ)
      → find_open L.open_upvalues local ≡ none
      → upvalue_find L local ≡ (L.next_object, fresh L local)
  unfolding upvalue_find
  find-none L local e = rw (e, upvalue_find)

  find-some :
      (L : Thread V) (local x : ℕ)
      → find_open L.open_upvalues local ≡ some x
      → upvalue_find L local ≡ (x, L)
  unfolding upvalue_find
  find-some L local x e = rw (e, upvalue_find)

  find-Captures :
      (L : Thread V) (local : ℕ)
      → IsOrdered L.open_upvalues
      → Captures L local (upvalue_find L local)
  unfolding object_of
  find-Captures L local o j =
      let e = find_open-IsOrdered L.open_upvalues local o in
      elim (Option-cases (find_open L.open_upvalues local)) [
        | inl absent ↦ rw (find-none L local absent) refl
        | inr (x, there) ↦ rw (find-some L local x there) (elim (ℕ_discrete local j) [
          | yes same ↦
              let t : object_of L.open_upvalues local ≡ some x = sym e ∙ there in ground arith
          | no other ↦ ground arith
        ])
      ]

  -- On an ordered list `upvalue_find` returns the upvalue of the slot and leaves the thread as it was
  -- where the slot has one. Where it has none, the result is the next new upvalue. In both cases the
  -- result is the upvalue of the slot from then on, and every other slot keeps its own.
  pub upvalue_find-Captures :
      (L : Thread V) (local : ℕ)
      → IsOrdered L.open_upvalues
      → Captures L local (upvalue_find L local)
        × ((x : ℕ) → object_of L.open_upvalues local ≡ some x → upvalue_find L local ≡ (x, L))
        × (object_of L.open_upvalues local ≡ none
            → upvalue_find L local ≡ (L.next_object, fresh L local))
  upvalue_find-Captures L local o =
      let e = find_open-IsOrdered L.open_upvalues local o in
      (
        find-Captures L local o,
        λ x there. find-some L local x (e ∙ there),
        λ absent. find-none L local (e ∙ absent),
      )

  -- A local above every captured one keeps the list ordered, and so does one that has an upvalue.
  pub upvalue_find-IsOrdered :
      (L : Thread V) (local : ℕ)
      → IsOrdered L.open_upvalues
      → IsBelow local L.open_upvalues ⊎ (object_of L.open_upvalues local ≢ none)
      → IsOrdered (upvalue_find L local).1.open_upvalues
  upvalue_find-IsOrdered L local o h =
      let e = find_open-IsOrdered L.open_upvalues local o in
      elim (Option-cases (find_open L.open_upvalues local)) [
        | inl absent ↦
            rw (find-none L local absent)
              (elim h [ inl low ↦ low | inr there ↦ absurd (there (sym e ∙ absent)) ])
        | inr (x, there) ↦ rw (find-some L local x there) o
      ]

  module _ (L : Thread V) (a b : ℕ) (apart : a < b) (top : IsBelow a L.open_upvalues) where
    raise : (us : List Upvalue) → IsBelow a us → IsBelow b us
    raise [] h = tt
    raise (up ∷ us) h = (omega arith, h.1)

    abbrev both : Thread V
    both = fresh (fresh L b) a

    -- The higher local, then the lower one.
    captured : upvalue_find (upvalue_find L b).1 a ≡ (L.next_object + 1, both)
    unfolding find_open
    captured =
        rw (find-none L b (find_open-below L.open_upvalues b (raise L.open_upvalues top)))
          (find-none (fresh L b) a (ground (arith, find_open-below L.open_upvalues a top)))

    -- Of two locals above all captured ones, the higher is captured first, then the lower, then the
    -- higher again: the two captures of the higher get different upvalues.
    pub upvalue_find-twice :
        (upvalue_find L b).0 ≢ (upvalue_find (upvalue_find (upvalue_find L b).1 a).1 b).0
    unfolding find_open
    upvalue_find-twice same =
        let again = find-none both b (rw (lt→ltb a b apart)) in
        let start = find-none L b (find_open-below L.open_upvalues b (raise L.open_upvalues top)) in
        let e : L.next_object ≡ L.next_object + 1 + 1 =
          (sym (ap (λ (r : ℕ × Thread V). r.0) start))
          ∙ same
          ∙ ap (λ (r : ℕ × Thread V). (upvalue_find r.1 b).0) captured
          ∙ ap (λ (r : ℕ × Thread V). r.0) again in
        omega arith

    -- After the higher and the lower are captured, closing from the higher closes nothing, though
    -- the higher has an open upvalue.
    pub upvalue_close-missed :
        let r = upvalue_find (upvalue_find L b).1 a in
        (upvalue_close r.1 b ≡ r.1) × (object_of r.1.open_upvalues b ≡ some L.next_object)
    unfolding upvalue_close close_from object_of
    upvalue_close-missed = rw captured (rw (lt→ltb a b apart), ground arith)
