-- ===== src/Tests/Upvalue.antt =====
-- Tests of the upvalues of a thread.
use lulu.Prelude.{none, some, ℕ, ◌+◌, ◌≡◌, ◌≢◌, refl, arith, [], ◌∷◌, ◌++◌, some, map}
use mathlib.Core.List.{reverse}
use lulu.Upvalue.{Thread, find_open, upvalue_find, upvalue_close}
use lulu.Upvalue.Order.{object_of, object_of, kept, taken, capture, upvalue_close-lists}
use lulu.Upvalue.Sharing.{
  fresh, Captures, upvalue_find-Captures, upvalue_find-twice, upvalue_close-missed,
}

abbrev thread : Thread ℕ
thread = record {
  stack = λ s. s + 100;
  open_upvalues = record { object = 1; slot = 5 } ∷ record { object = 0; slot = 2 } ∷ [];
  closed = [];
  next_object = 2;
}

reuses : (upvalue_find thread 2).0 ≡ 0
unfolding upvalue_find find_open
reuses = refl

upvalue_find-Captures_example :
    Captures thread 2 (upvalue_find thread 2)
    × ((x : ℕ) → object_of thread.open_upvalues 2 ≡ some x → upvalue_find thread 2 ≡ (x, thread))
    × (object_of thread.open_upvalues 2 ≡ none
        → upvalue_find thread 2 ≡ (thread.next_object, fresh thread 2))
upvalue_find-Captures_example = upvalue_find-Captures thread 2 (omega arith, tt)

upvalue_close-lists_example : upvalue_close thread 4 ≡ record thread {
  open_upvalues = kept 4 thread.open_upvalues;
  closed = reverse (map (capture thread.stack) (taken 4 thread.open_upvalues)) ++ thread.closed;
}
upvalue_close-lists_example = upvalue_close-lists thread 4 (omega arith, tt)

upvalue_find-twice_example :
    (upvalue_find thread 9).0 ≢ (upvalue_find (upvalue_find (upvalue_find thread 9).1 7).1 9).0
upvalue_find-twice_example =
    upvalue_find-twice thread 7 9 (omega arith) (omega arith, (omega arith, tt))

upvalue_close-missed_example :
    let r = upvalue_find (upvalue_find thread 9).1 7 in
    (upvalue_close r.1 9 ≡ r.1) × (object_of r.1.open_upvalues 9 ≡ some thread.next_object)
upvalue_close-missed_example =
    upvalue_close-missed thread 7 9 (omega arith) (omega arith, (omega arith, tt))
