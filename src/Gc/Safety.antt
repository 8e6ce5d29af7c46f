-- ===== src/Gc/Safety.antt =====
-- A collection: what can be reached from the roots is not freed.
use lulu.Prelude.{
  ℕ, ◌≢◌, zero, suc, ◌≤◌, ◌≡◌, refl, sym, ap, ◌∙◌, inl, inr, true, false, none, some, [], arith,
  Bool-cases,
}
use mathlib.Core.Path.{subst}
use lulu.Gc.Stale.{Lacks}
use lulu.Gc.{tracing, paused, is_gray, Body, Global, ◌>>=◌, mark_at}
use lulu.Gc.Marking.{lists, has, is_string, seen_at, seen_value, Distinct, Marks}
use lulu.Gc.Blacken.{AllSeen, references}
use lulu.Gc.Bodies.{bind_assoc}
use lulu.Gc.Collect.{
  end_trace, gc_trace_references, gc_remove_intern, gc_sweep, Roots, gc_mark_roots,
  gc_collect_garbage,
}
use lulu.Gc.Tracing.{remaining, IsHeap, IsTracing}
use lulu.Gc.Reach.{
  trace_loop-Finished, Reach, Reach-seen, has_value, all_seen, seen_gray, object_black,
}
use lulu.Gc.Roots.{
  root_values, IsPaused, IsRooted, start_marking, gc_mark_roots-Marks, root_values-two, root_listed,
  start-IsTracing,
}
use lulu.Gc.Sweep.{flatten, is_kept, Passes, gc_remove_intern-Passes, Sweeps, gc_sweep-Passes}

remaining-le : (n : ℕ) (g : Global) → remaining n g ≤ n
remaining-le zero g = omega arith
remaining-le (suc n) g = ground (arith, remaining-le n g)

-- the lists of a heap: each object is in one place, strings in the string table
pub record IsFiled (bodies : ℕ → Body) (g : Global) : Type 0 where
  pub objects : Distinct g.objects
  pub strings : Distinct (flatten g.intern)
  pub no_strings : (a : ℕ) → has g.objects a ≡ true → is_string (bodies a) ≡ false
  pub only_strings : (a : ℕ) → has (flatten g.intern) a ≡ true → is_string (bodies a) ≡ true

-- `v` is an object that was not marked, and nothing but the upvalue `a` may refer to it.
pub record IsHeld (bodies : ℕ → Body) (a v : ℕ) (g : Global) : Type 0 where
  pub white : (mark_at g v).white ≡ true
  pub not_black : (mark_at g v).black ≡ false
  pub not_fixed : (mark_at g v).fixed ≡ false
  pub alone : (x : ℕ) → x ≢ a → Lacks v (references (bodies x))
  pub in_objects : has g.objects v ≡ true
  pub no_string : has (flatten g.intern) v ≡ false

-- the state behind the mark and trace phases
record Marked (bodies : ℕ → Body) (g : Global) (r : Roots) (i : Global) : Type 0 where
  same_lists : lists i ≡ lists g
  traced : IsTracing bodies i
  empty : i.gray ≡ []
  roots : (a : ℕ) → has_value (root_values r) a ≡ true → seen_at i a ≡ true

module _ (bound : ℕ) (bodies : ℕ → Body) (g : Global) (r : Roots) (w : IsHeap bound bodies)
    (p : IsPaused bodies g) (k : IsRooted bodies r) (fuel : ℕ) (enough : bound ≤ fuel) where
  mark_phases :
      (i : Global) × ((gc_mark_roots g r >>= (λ h. gc_trace_references fuel h))
        ≡ some (record i { gray_tail = none }))
      × Marked bodies g r i
  unfolding gc_trace_references end_trace
  mark_phases =
      let m : Marks (start_marking g) (λ h. AllSeen h (root_values r)) (gc_mark_roots g r) =
        gc_mark_roots-Marks bodies g r p w.plain k in
      let (x, y) = root_values-two m.result r m.holds in
      let in_x =
        root_listed bodies g m.result p m.grows m.marking k.registry_at
          (ap (seen_value m.result) (sym k.registry) ∙ x) k.registry_object in
      let in_y =
        root_listed bodies g m.result p m.grows m.marking k.globals_at
          (ap (seen_value m.result) (sym k.globals) ∙ y) k.globals_object in
      let t : IsTracing bodies (record m.result { gc_state = tracing }) =
        start-IsTracing bodies g m.result p m.grows m.marking k.registry_at k.globals_at in_x in_y
          k.differ in
      let (i, ends, f) =
        trace_loop-Finished bound bodies w fuel (record m.result { gc_state = tracing }) t
          (omega (arith, remaining-le bound (record m.result { gc_state = tracing }))) in
      (
        i,
        rw (m.returns, ends) refl,
        record {
          same_lists = f.same_lists ∙ m.grows.same_lists;
          traced = f.traced;
          empty = f.empty;
          roots = λ a v. f.seens a (all_seen bodies m.result (root_values r) a m.holds v);
        },
      )

settled_gray :
    (bodies : ℕ → Body) (g : Global) (a : ℕ)
    → IsTracing bodies g
    → g.gray ≡ []
    → is_string (bodies a) ≡ false
    → is_gray (mark_at g a) ≡ false
settled_gray bodies g a t e n = elim (Bool-cases (is_gray (mark_at g a))) [
  | inl k ↦ absurd (cc (t.listed a k n, ap (λ l. has l a) e))
  | inr n ↦ n
]

-- the strings are swept, then the objects
module _ (bodies : ℕ → Body) (g i : Global) (r : Roots) (m : Marked bodies g r i)
    (v : IsFiled bodies g) where
  abbrev settled : Global
  settled = record i { gray_tail = none }

  strings_at : i.intern ≡ g.intern
  strings_at = ap (λ l. l.1) m.same_lists

  objects_at : i.objects ≡ g.objects
  objects_at = ap (λ l. l.0) m.same_lists

  removed : Passes is_kept (flatten i.intern) settled (gc_remove_intern settled)
  removed =
      gc_remove_intern-Passes settled (subst (λ l. Distinct (flatten l)) (sym strings_at) v.strings)

  not_listed : (a : ℕ) → is_string (bodies a) ≡ false → has (flatten i.intern) a ≡ false
  not_listed a n = elim (Bool-cases (has (flatten i.intern) a)) [
    | inl k ↦ absurd (cc (v.only_strings a (ap (λ l. has (flatten l) a) (sym strings_at) ∙ k), n))
    | inr out ↦ out
  ]

  no_object :
      (a : ℕ) → is_string (bodies a) ≡ true → has (gc_remove_intern settled).objects a ≡ false
  no_object a str = elim (Bool-cases (has (gc_remove_intern settled).objects a)) [
    | inl k ↦
        absurd
          (cc (v.no_strings a (ap (λ l. has l a) (sym (removed.objects ∙ objects_at)) ∙ k), str))
    | inr out ↦ out
  ]

  -- an object that is not a string is not in the table of strings
  object_kept :
      (a : ℕ)
      → is_string (bodies a) ≡ false
      → (mark_at (gc_remove_intern settled) a ≡ mark_at i a)
        × (has (gc_remove_intern settled).freed a ≡ has i.freed a)
  object_kept a n =
      let out : has (flatten i.intern) a ≡ false = not_listed a n in
      (ground (arith, removed.marks a), ground (arith, removed.frees a))

  not_gray :
      (a : ℕ)
      → has (gc_remove_intern settled).objects a ≡ true
      → is_gray (mark_at (gc_remove_intern settled) a) ≡ false
  not_gray a k =
      let n : is_string (bodies a) ≡ false =
        v.no_strings a (ap (λ l. has l a) (sym (removed.objects ∙ objects_at)) ∙ k) in
      ap is_gray (object_kept a n).0 ∙ settled_gray bodies i a m.traced m.empty n

  swept :
      (h : Global) × (gc_sweep (gc_remove_intern settled) ≡ some h)
      × Sweeps (gc_remove_intern settled) h
  swept =
      gc_sweep-Passes (gc_remove_intern settled)
        (subst Distinct (sym (removed.objects ∙ objects_at)) v.objects) not_gray

  freed_at : (a : ℕ) → has i.freed a ≡ has g.freed a
  freed_at a = ap (λ l. has l.2 a) m.same_lists

  string_kept :
      (a : ℕ)
      → seen_at i a ≡ true
      → is_string (bodies a) ≡ true
      → has swept.0.freed a ≡ has g.freed a
  unfolding is_gray
  string_kept a s str =
      let gray : is_gray (mark_at i a) ≡ true =
        seen_gray (mark_at i a) s (m.traced.strings a str) in
      let out : has (gc_remove_intern settled).objects a ≡ false = no_object a str in
      ground (arith, removed.frees a, swept.2.frees a, freed_at a)

  object_stays :
      (a : ℕ)
      → seen_at i a ≡ true
      → is_string (bodies a) ≡ false
      → has swept.0.freed a ≡ has g.freed a
  object_stays a s obj =
      let black : (mark_at i a).black ≡ true = object_black bodies i a m.traced m.empty s obj in
      let (mark, freed) = object_kept a obj in
      ground (arith, ap (λ l. l.black) mark, swept.2.frees a, freed_at a)

  -- a reached string is kept in the table, and a reached object in its list
  seen_kept : (a : ℕ) → seen_at i a ≡ true → has swept.0.freed a ≡ has g.freed a
  seen_kept a s = elim (Bool-cases (is_string (bodies a))) [
    | inl str ↦ string_kept a s str
    | inr obj ↦ object_stays a s obj
  ]

-- At rest, with enough fuel, a collection ends without a failed assertion, and frees no object that
-- can be followed from a root: from the stack, a function that is running, an open upvalue, a
-- metatable of a basic type, the registry or the globals.
pub gc_collect_garbage-Reach :
    (bound fuel : ℕ) (bodies : ℕ → Body) (g : Global) (r : Roots)
    → IsHeap bound bodies
    → IsPaused bodies g
    → IsRooted bodies r
    → IsFiled bodies g
    → bound ≤ fuel
    → (h : Global) × (gc_collect_garbage fuel g r ≡ some h)
      × ((root a : ℕ)
          → has_value (root_values r) root ≡ true
          → Reach bodies root a
          → has h.freed a ≡ has g.freed a)
unfolding gc_collect_garbage
gc_collect_garbage-Reach bound fuel bodies g r w p k v enough =
    let (i, e, m) = mark_phases bound bodies g r w p k fuel enough in
    let (h, f, sweeps) = swept bodies g i r m v in
    (
      record h { gc_state = paused },
      sym (bind_assoc (gc_mark_roots g r) (λ h. gc_trace_references fuel h) _) ∙ rw (e, f) refl,
      λ root a at_root path.
          seen_kept bodies g i r m v a
            (Reach-seen bodies i root a m.traced m.empty (m.roots root at_root) path),
    )
