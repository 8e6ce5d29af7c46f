-- ===== src/Gc.antt =====
-- cpp/src/gc.hpp, gc.cpp and the headers of private.hpp, object.hpp: the objects, their mark bits and
-- the collector. An address is a number, and a linked list of objects is the list of its addresses.
-- A failed `lulu_assert`, a `lulu_panicf` or a null pointer that is followed gives `none`.
pub mod Collect
pub mod Marking
pub mod Blacken
pub mod Closures
pub mod Objects
pub mod Bodies
pub mod Tracing
pub mod Reach
pub mod Sweep
pub mod Roots
pub mod Stale
pub mod Missed
pub mod Safety
use lulu.Prelude.{
  ℕ, ◌+◌, Bool, true, false, not, ◌&&◌, ◌||◌, Option, none, some, List, [], ◌∷◌, ◌++◌, map, ◌==◌,
  if◌then◌else◌,
}

-- `Object_Mark`, by its three bits
pub record Mark : Type 0 where
  pub white : Bool
  pub black : Bool
  pub fixed : Bool

unfoldable pub is_gray : Mark → Bool
is_gray m = not m.white && not m.black

unfoldable pub set_white : Mark → Mark
set_white m = record m { white = true; black = false }

unfoldable pub set_gray_from_white : Mark → Mark
set_gray_from_white m = record m { white = false }

unfoldable pub set_black : Mark → Mark
set_black m = record m { black = true }

-- What the collector reads of an object. A value or a pointer that may be null is `none` where it
-- leads to no object. An upvalue is open, its value on the stack, or closed over a value.
pub data Body : Type 0 where
  string : Body
  table : Option ℕ → List (Option ℕ) → List (Option ℕ × Option ℕ) → Body
  chunk : List ℕ → List ℕ → List (Option ℕ) → List ℕ → ℕ → Body
  closure_c : List (Option ℕ) → Body
  closure_lua : ℕ → List (Option ℕ) → Body
  userdata : Option ℕ → Body
  upvalue : Option (Option ℕ) → Body

pub record Object : Type 0 where
  pub mark : Mark
  pub body : Body

pub data State : Type 0 where
  paused marking tracing sweeping : State

-- The gray list runs from `gray_head`, its first address; `freed` are the objects given to
-- `object_free`.
pub record Global : Type 0 where
  pub heap : ℕ → Object
  pub gc_state : State
  pub gray : List ℕ
  pub gray_tail : Option ℕ
  pub objects : List ℕ
  pub intern : List (List ℕ)
  pub freed : List ℕ

infixl 5 ◌>>=◌
abbrev pub ◌>>=◌ {ℓ κ} : {A : Type ℓ} {B : Type κ} → Option A → (A → Option B) → Option B
some a >>= f = f a
none >>= f = none

abbrev pub mark_at : Global → ℕ → Mark
mark_at g a = (g.heap a).mark

abbrev pub body_at : Global → ℕ → Body
body_at g a = (g.heap a).body

unfoldable pub put_mark : Global → ℕ → Mark → Global
put_mark g a m = record g {
  heap = λ b. if b == a then record { mark = m; body = body_at g b } else g.heap b;
}

abbrev pub head : List ℕ → Option ℕ
head [] = none
head (a ∷ more) = some a

-- The node `t` is linked to the node `a`, which is linked to nothing.
unfoldable pub link_after : ℕ → ℕ → List ℕ → List ℕ
link_after t a [] = []
link_after t a (b ∷ bs) = let rest = link_after t a bs in if b == t then b ∷ a ∷ [] else b ∷ rest

-- the two switches of `gc_mark_object`, for an object with a `gc_list`
unfoldable pub link_gray : Global → ℕ → State → Option Global
link_gray g a marking = some (record g {
  gray = a ∷ g.gray;
  gray_tail = elim g.gray_tail [ none ↦ head g.gray | some t ↦ some t ];
})
link_gray g a tracing = do
  t ← g.gray_tail
  some (record g { gray = link_after t a g.gray; gray_tail = some a })
link_gray g a _ = none

unfoldable pub link_object : Global → ℕ → Body → Option Global
link_object g a string = some g
link_object g a (upvalue v) = none
link_object g a _ = link_gray g a g.gc_state

unfoldable pub gc_mark_object : Global → ℕ → Option Global
gc_mark_object g a = elim (mark_at g a).white [
  | true ↦ link_object (put_mark g a (set_gray_from_white (mark_at g a))) a (body_at g a)
  | false ↦ some g
]

-- a value, or a pointer behind a test for null
unfoldable pub gc_mark_value : Global → Option ℕ → Option Global
gc_mark_value g none = some g
gc_mark_value g (some a) = gc_mark_object g a

unfoldable pub gc_mark_array : Global → List (Option ℕ) → Option Global
gc_mark_array g [] = some g
gc_mark_array g (v ∷ vs) = do h ← gc_mark_value g v; gc_mark_array h vs

unfoldable pub mark_objects : Global → List ℕ → Option Global
mark_objects g [] = some g
mark_objects g (a ∷ more) = do h ← gc_mark_object g a; mark_objects h more

unfoldable pub mark_entries : Global → List (Option ℕ × Option ℕ) → Option Global
mark_entries g [] = some g
mark_entries g ((k, v) ∷ es) = do h ← gc_mark_value g k; i ← gc_mark_value h v; mark_entries i es

abbrev pub blacken : Global → ℕ → Global
blacken g a = put_mark g a (set_black (mark_at g a))

abbrev pub closed_value : Body → Option ℕ
closed_value (upvalue (some v)) = v
closed_value _ = none

unfoldable pub gc_blacken_upvalue : Global → Option ℕ → Option Global
gc_blacken_upvalue g none = some g
gc_blacken_upvalue g (some up) = elim (mark_at g up).black [
  | true ↦ some g
  | false ↦ do h ← gc_mark_value g (closed_value (body_at g up)); some (blacken h up)
]

-- `upvalue_close` on one upvalue: it owns its value now, and is linked to the other objects.
unfoldable pub close_upvalue : Global → ℕ → Option ℕ → Global
close_upvalue g up v = record g {
  heap = λ b. if b == up then record { mark = mark_at g b; body = upvalue (some v) } else g.heap b;
  objects = up ∷ g.objects;
}

unfoldable pub blacken_upvalues : Global → List (Option ℕ) → Option Global
blacken_upvalues g [] = some g
blacken_upvalues g (up ∷ ups) = do h ← gc_blacken_upvalue g up; blacken_upvalues h ups

unfoldable pub gc_blacken_chunk :
    Global → ℕ → List ℕ → List ℕ → List (Option ℕ) → List ℕ → ℕ → Option Global
gc_blacken_chunk g a locals upvalues constants children source = do
  h ← mark_objects (blacken g a) locals
  i ← mark_objects h upvalues
  j ← gc_mark_array i constants
  k ← mark_objects j children
  gc_mark_object k source

unfoldable pub gc_blacken_table :
    Global → ℕ → Option ℕ → List (Option ℕ) → List (Option ℕ × Option ℕ) → Option Global
gc_blacken_table g a metatable array entries = do
  h ← gc_mark_value (blacken g a) metatable
  i ← gc_mark_array h array
  mark_entries i entries

unfoldable pub gc_blacken_userdata : Global → ℕ → Option ℕ → Option Global
gc_blacken_userdata g a metatable = gc_mark_value (blacken g a) metatable

-- `gc_blacken_function` on its two kinds of closure
unfoldable pub blacken_closure_c : Global → ℕ → List (Option ℕ) → Option Global
blacken_closure_c g a upvalues = do h ← gc_mark_array g upvalues; some (blacken h a)

unfoldable pub blacken_closure_lua : Global → ℕ → ℕ → List (Option ℕ) → Option Global
blacken_closure_lua g a p upvalues = do
  h ← gc_mark_object g p
  i ← blacken_upvalues h upvalues
  some (blacken i a)

unfoldable pub blacken_body : Global → ℕ → Body → Option Global
blacken_body g a (table metatable array entries) = gc_blacken_table g a metatable array entries
blacken_body g a (closure_c upvalues) = blacken_closure_c g a upvalues
blacken_body g a (closure_lua p upvalues) = blacken_closure_lua g a p upvalues
blacken_body g a (chunk locals upvalues constants children source) =
    gc_blacken_chunk g a locals upvalues constants children source
blacken_body g a (userdata metatable) = gc_blacken_userdata g a metatable
blacken_body g a _ = none

-- `gc_blacken_object`, before the object is unlinked from the gray list
unfoldable pub gc_blacken_object : Global → ℕ → Option Global
gc_blacken_object g a = elim (is_gray (mark_at g a)) [
  | true ↦ blacken_body g a (body_at g a)
  | false ↦ none
]

abbrev pub tail : List ℕ → List ℕ
tail [] = []
tail (a ∷ more) = more
