-- ===== src/Tests/Gc.antt =====
-- Tests of the collector.
use lulu.Prelude.{
  ℕ, zero, suc, ◌≡◌, refl, true, false, Option, none, some, List, [], ◌∷◌, arith, ◌<◌,
}
use lulu.Gc.{
  Mark, Body, string, table, chunk, closure_lua, upvalue, Global, paused, marking, tracing, is_gray,
  set_white, set_gray_from_white, set_black, put_mark, link_after, link_gray, link_object,
  gc_mark_object, gc_mark_value, gc_mark_array, mark_objects, mark_entries, gc_blacken_upvalue,
  blacken_upvalues, gc_blacken_chunk, gc_blacken_table, gc_blacken_userdata, blacken_closure_c,
  blacken_closure_lua, blacken_body, gc_blacken_object, close_upvalue, closed_value,
}
use lulu.Gc.Collect.{
  done, Roots, trace_loop, end_trace, gc_trace_references, remove_strings, remove_lists,
  gc_remove_intern, sweep_list, gc_sweep, gc_mark_roots, gc_collect_garbage,
}
use lulu.Gc.Marking.{is_string, is_upvalue, has, IsMarking, Marks, seen_at, gc_mark_object-Marks}
use lulu.Gc.Blacken.{is_plain, references, Typed}
use lulu.Gc.Objects.{Blackened}
use lulu.Gc.Bodies.{gc_blacken_object-Blackened}
use lulu.Gc.Tracing.{IsHeap, IsTracing, IsTracing-IsMarking}
use lulu.Gc.Reach.{Finished, trace_loop-Finished, Reach, has_value}
use lulu.Gc.Roots.{paused-IsMarking, root_values, IsPaused, IsRooted}
use lulu.Gc.Safety.{IsFiled, gc_collect_garbage-Reach}
use lulu.Gc.Sweep.{Passes, Sweeps, is_kept, flatten, gc_remove_intern-Passes, gc_sweep-Passes}

-- The registry, the globals with a string and a closure, its code and its open upvalue, and a table
-- that nothing refers to.
abbrev body : ℕ → Body
body zero = table none [] []
body (suc zero) = table none (some 6 ∷ some 2 ∷ []) []
body (suc (suc zero)) = closure_lua 3 (some 4 ∷ [])
body (suc (suc (suc zero))) = chunk [] [] [] [] 6
body (suc (suc (suc (suc zero)))) = upvalue none
body (suc (suc (suc (suc (suc zero))))) = table none [] []
body _ = string

abbrev white : Mark
white = record { white = true; black = false; fixed = false }

abbrev heap : Global
heap = record {
  heap = λ a. record { mark = white; body = body a };
  gc_state = paused;
  gray = [];
  gray_tail = none;
  objects = 5 ∷ 3 ∷ 2 ∷ 1 ∷ 0 ∷ [];
  intern = (6 ∷ 7 ∷ []) ∷ [];
  freed = [];
}

abbrev roots : Roots
roots = record {
  stack = [];
  frames = [];
  open_upvalues = 4 ∷ [];
  mt_basic = [];
  registry = some 0;
  globals = some 1;
}

abbrev freed_by : Option Global → List ℕ
freed_by none = []
freed_by (some g) = g.freed

-- The table that nothing refers to and the string 7 are freed.
collected : freed_by (gc_collect_garbage 6 heap roots) ≡ 5 ∷ 7 ∷ []
unfolding is_gray set_white set_gray_from_white set_black put_mark link_after link_gray link_object
    gc_mark_object gc_mark_value gc_mark_array mark_objects mark_entries gc_blacken_upvalue
    blacken_upvalues gc_blacken_chunk gc_blacken_table gc_blacken_userdata blacken_closure_c
    blacken_closure_lua blacken_body gc_blacken_object trace_loop end_trace gc_trace_references
    remove_strings remove_lists gc_remove_intern sweep_list gc_sweep gc_mark_roots
    gc_collect_garbage
collected = refl

typed : (a : ℕ) → Typed body (body a)
unfolding references
typed zero = (refl, tt)
typed (suc zero) = (refl, (refl, (refl, tt)))
typed (suc (suc zero)) = (refl, (refl, tt))
typed (suc (suc (suc zero))) = (refl, tt)
typed (suc (suc (suc (suc zero)))) = (refl, tt)
typed (suc (suc (suc (suc (suc zero))))) = (refl, tt)
typed (suc (suc (suc (suc (suc (suc a)))))) = tt

plain : (a : ℕ) → is_plain body (closed_value (body a)) ≡ true
plain zero = refl
plain (suc zero) = refl
plain (suc (suc zero)) = refl
plain (suc (suc (suc zero))) = refl
plain (suc (suc (suc (suc zero)))) = refl
plain (suc (suc (suc (suc (suc zero))))) = refl
plain (suc (suc (suc (suc (suc (suc a)))))) = refl

below : (a : ℕ) → is_string (body a) ≡ false → a < 6
below zero n = omega arith
below (suc zero) n = omega arith
below (suc (suc zero)) n = omega arith
below (suc (suc (suc zero))) n = omega arith
below (suc (suc (suc (suc zero)))) n = omega arith
below (suc (suc (suc (suc (suc zero))))) n = omega arith
below (suc (suc (suc (suc (suc (suc a)))))) n = absurd (cc n)

no_strings : (a : ℕ) → has heap.objects a ≡ true → is_string (body a) ≡ false
no_strings zero k = refl
no_strings (suc zero) k = refl
no_strings (suc (suc zero)) k = refl
no_strings (suc (suc (suc zero))) k = refl
no_strings (suc (suc (suc (suc zero)))) k = refl
no_strings (suc (suc (suc (suc (suc zero))))) k = refl
no_strings (suc (suc (suc (suc (suc (suc a)))))) k = absurd (ground arith)

only_strings : (a : ℕ) → has (flatten heap.intern) a ≡ true → is_string (body a) ≡ true
only_strings zero k = absurd (ground arith)
only_strings (suc zero) k = absurd (ground arith)
only_strings (suc (suc zero)) k = absurd (ground arith)
only_strings (suc (suc (suc zero))) k = absurd (ground arith)
only_strings (suc (suc (suc (suc zero)))) k = absurd (ground arith)
only_strings (suc (suc (suc (suc (suc zero))))) k = absurd (ground arith)
only_strings (suc (suc (suc (suc (suc (suc a)))))) k = refl

body-IsHeap : IsHeap 6 body
body-IsHeap = record { typed = typed; plain = plain; below = below }

heap-IsPaused : IsPaused body heap
heap-IsPaused = record {
  fits = λ a. refl;
  white = λ a. refl;
  not_black = λ a. refl;
  gray = refl;
  gray_tail = refl;
}

roots-IsRooted : IsRooted body roots
roots-IsRooted = record {
  stack = tt;
  frames = tt;
  open_upvalues = (refl, tt);
  mt_basic = tt;
  registry_at = 0;
  globals_at = 1;
  registry = refl;
  globals = refl;
  differ = λ e. absurd (omega arith);
  registry_object = (refl, refl);
  globals_object = (refl, refl);
}

heap-IsFiled : IsFiled body heap
heap-IsFiled = record {
  objects = (refl, (refl, (refl, (refl, (refl, tt)))));
  strings = (refl, (refl, tt));
  no_strings = no_strings;
  only_strings = only_strings;
}

gc_collect_garbage-Reach_example :
    (h : Global) × (gc_collect_garbage 6 heap roots ≡ some h)
    × ((root a : ℕ)
        → has_value (root_values roots) root ≡ true
        → Reach body root a
        → has h.freed a ≡ has heap.freed a)
gc_collect_garbage-Reach_example =
    gc_collect_garbage-Reach 6 6 body heap roots body-IsHeap heap-IsPaused roots-IsRooted
      heap-IsFiled (omega arith)

-- The captured local on the stack holds the table 5.
abbrev stack_roots : Roots
stack_roots = record roots { stack = some 5 ∷ [] }

abbrev left_by : Option Global → Global
left_by none = heap
left_by (some g) = g

abbrev after : Global
after = left_by (gc_collect_garbage 6 heap stack_roots)

-- The local is closed over, and the stack no longer has it.
abbrev closed_roots : Roots
closed_roots = record roots { open_upvalues = [] }

abbrev after_second : Global
after_second = left_by (gc_collect_garbage 6 (close_upvalue after 4 (some 5)) closed_roots)

-- the mark phase, before anything is marked
abbrev marking_heap : Global
marking_heap = record heap { gc_state = marking }

marking_heap-IsMarking : IsMarking marking_heap
marking_heap-IsMarking = paused-IsMarking body heap heap-IsPaused

gc_mark_object-Marks_example :
    Marks marking_heap (λ h. seen_at h 2 ≡ true) (gc_mark_object marking_heap 2)
gc_mark_object-Marks_example = gc_mark_object-Marks marking_heap 2 marking_heap-IsMarking refl

-- the trace phase, with the registry and the globals on the gray list
abbrev gray_mark : Mark
gray_mark = record { white = false; black = false; fixed = false }

abbrev mark_of : ℕ → Mark
mark_of zero = gray_mark
mark_of (suc zero) = gray_mark
mark_of _ = white

abbrev tracing_heap : Global
tracing_heap = record heap {
  heap = λ a. record { mark = mark_of a; body = body a };
  gc_state = tracing;
  gray = 1 ∷ 0 ∷ [];
  gray_tail = some 0;
}

not_black : (a : ℕ) → (mark_of a).black ≡ false
not_black zero = refl
not_black (suc zero) = refl
not_black (suc (suc a)) = refl

gray_listed : (a : ℕ) → is_gray (mark_of a) ≡ true → has tracing_heap.gray a ≡ true
unfolding is_gray
gray_listed zero k = refl
gray_listed (suc zero) k = refl
gray_listed (suc (suc a)) k = absurd (cc k)

listed_gray :
    (a : ℕ)
    → has tracing_heap.gray a ≡ true
    → (is_gray (mark_of a) ≡ true) × ((is_string (body a) ≡ false) × (is_upvalue (body a) ≡ false))
unfolding is_gray
listed_gray zero k = (refl, (refl, refl))
listed_gray (suc zero) k = (refl, (refl, refl))
listed_gray (suc (suc a)) k = absurd (ground arith)

tracing_heap-IsTracing : IsTracing body tracing_heap
tracing_heap-IsTracing = record {
  fits = λ a. refl;
  state = refl;
  listed = λ a k n. gray_listed a k;
  grays = λ a k. (listed_gray a k).0;
  linked = λ a k. (listed_gray a k).1;
  distinct = (refl, (refl, tt));
  last = λ n. (λ e. absurd (ground arith), refl);
  strings = λ a s. not_black a;
  clean = λ a w u. not_black a;
  reached = λ a k. absurd (cc (k, not_black a));
}

trace_loop-Finished_example :
    (h : Global) × (trace_loop 6 tracing_heap ≡ done h) × Finished body tracing_heap h
trace_loop-Finished_example =
    trace_loop-Finished 6 body body-IsHeap 6 tracing_heap tracing_heap-IsTracing (omega arith)

gc_blacken_object-Blackened_example :
    Blackened body tracing_heap 1 (gc_blacken_object tracing_heap 1)
unfolding is_gray
gc_blacken_object-Blackened_example =
    gc_blacken_object-Blackened body tracing_heap 1 (λ a. refl)
      (IsTracing-IsMarking body tracing_heap tracing_heap-IsTracing (λ e. cc e)) plain (typed 1)
      refl refl refl

-- behind the trace phase: the string 6 is gray, the objects 0 and 1 are black, and 5 is white
abbrev traced_mark : ℕ → Mark
traced_mark zero = record { white = false; black = true; fixed = false }
traced_mark (suc zero) = record { white = false; black = true; fixed = false }
traced_mark (suc (suc (suc (suc (suc (suc zero)))))) = gray_mark
traced_mark _ = white

abbrev traced_heap : Global
traced_heap = record heap {
  heap = λ a. record { mark = traced_mark a; body = body a };
  objects = 5 ∷ 1 ∷ 0 ∷ [];
}

gc_remove_intern-Passes_example :
    Passes is_kept (flatten traced_heap.intern) traced_heap (gc_remove_intern traced_heap)
gc_remove_intern-Passes_example = gc_remove_intern-Passes traced_heap (refl, (refl, tt))

none_gray : (a : ℕ) → has traced_heap.objects a ≡ true → is_gray (traced_mark a) ≡ false
unfolding is_gray
none_gray zero k = refl
none_gray (suc zero) k = refl
none_gray (suc (suc zero)) k = refl
none_gray (suc (suc (suc zero))) k = refl
none_gray (suc (suc (suc (suc zero)))) k = refl
none_gray (suc (suc (suc (suc (suc zero))))) k = refl
none_gray (suc (suc (suc (suc (suc (suc a)))))) k = absurd (ground arith)

gc_sweep-Passes_example : (h : Global) × (gc_sweep traced_heap ≡ some h) × Sweeps traced_heap h
gc_sweep-Passes_example = gc_sweep-Passes traced_heap (refl, (refl, (refl, tt))) none_gray
