-- ===== src/Gc/Collect.antt =====
-- cpp/src/gc.cpp: the phases of a collection.
use lulu.Prelude.{ℕ, zero, suc, true, false, ◌||◌, Option, none, some, List, [], ◌∷◌, map}
use lulu.Gc.{
  is_gray, set_white, Global, paused, marking, tracing, sweeping, ◌>>=◌, mark_at, put_mark,
  gc_mark_value, gc_mark_array, mark_objects, blacken_upvalues, gc_blacken_object, tail,
}

-- A run of the loop of `gc_trace_references`, or too little fuel for it.
pub data Trace : Type 0 where
  done : Global → Trace
  failed out_of_fuel : Trace

unfoldable pub trace_loop : ℕ → Global → Trace
trace_loop zero g = elim g.gray [ [] ↦ done g | _ ∷ _ ↦ out_of_fuel ]
trace_loop (suc fuel) g = elim g.gray [
  | [] ↦ done g
  | a ∷ more ↦ elim (gc_blacken_object g a) [
    | none ↦ failed
    | some h ↦ trace_loop fuel (record h { gray = tail h.gray })
  ]
]

unfoldable pub end_trace : Trace → Option Global
end_trace (done g) = some (record g { gray_tail = none })
end_trace _ = none

unfoldable pub gc_trace_references : ℕ → Global → Option Global
gc_trace_references fuel g = end_trace (trace_loop fuel (record g { gc_state = tracing }))

abbrev pub free : Global → ℕ → Global
free g a = record g { freed = a ∷ g.freed }

-- one list of `gc_remove_intern`: the strings that stay in it
unfoldable pub remove_strings : Global → List ℕ → List ℕ × Global
remove_strings g [] = ([], g)
remove_strings g (a ∷ more) = elim (is_gray (mark_at g a) || (mark_at g a).fixed) [
  | true ↦
      let (kept, h) = remove_strings (put_mark g a (set_white (mark_at g a))) more in (a ∷ kept, h)
  | false ↦ remove_strings (free g a) more
]

unfoldable pub remove_lists : Global → List (List ℕ) → List (List ℕ) × Global
remove_lists g [] = ([], g)
remove_lists g (list ∷ lists) =
    let (kept, h) = remove_strings g list in
    let (others, i) = remove_lists h lists in (kept ∷ others, i)

unfoldable pub gc_remove_intern : Global → Global
gc_remove_intern g = let (lists, h) = remove_lists g g.intern in record h { intern = lists }

-- the objects that stay in the list
unfoldable pub sweep_list : Global → List ℕ → Option (List ℕ × Global)
sweep_list g [] = some ([], g)
sweep_list g (a ∷ more) = elim ((mark_at g a).black || (mark_at g a).fixed) [
  | true ↦ do
    (kept, h) ← sweep_list (put_mark g a (set_white (mark_at g a))) more
    some (a ∷ kept, h)
  | false ↦ elim (is_gray (mark_at g a)) [ true ↦ none | false ↦ sweep_list (free g a) more ]
]

unfoldable pub gc_sweep : Global → Option Global
gc_sweep g = do
  (kept, h) ← sweep_list (record g { gc_state = sweeping }) g.objects
  some (record h { objects = kept })

-- What `gc_mark_roots` starts from. `mt_basic` has the slots that its loop reads: those of the array
-- and, as the loop runs to the number of metamethods, the ones of `mt_names` behind it.
pub record Roots : Type 0 where
  pub stack : List (Option ℕ)
  pub frames : List ℕ
  pub open_upvalues : List ℕ
  pub mt_basic : List (Option ℕ)
  pub registry : Option ℕ
  pub globals : Option ℕ

unfoldable pub gc_mark_roots : Global → Roots → Option Global
gc_mark_roots g r = do
  h ← gc_mark_array (record g { gc_state = marking }) r.stack
  i ← mark_objects h r.frames
  j ← blacken_upvalues i (map some r.open_upvalues)
  k ← gc_mark_array j r.mt_basic
  l ← gc_mark_value k r.registry
  gc_mark_value l r.globals

unfoldable pub gc_collect_garbage : ℕ → Global → Roots → Option Global
gc_collect_garbage fuel g r = do
  h ← gc_mark_roots g r
  i ← gc_trace_references fuel h
  j ← gc_sweep (gc_remove_intern i)
  some (record j { gc_state = paused })
