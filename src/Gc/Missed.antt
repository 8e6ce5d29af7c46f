-- ===== src/Gc/Missed.antt =====
-- A collection frees an object that only a black upvalue holds.
use lulu.Prelude.{
  ℕ, ◌≡◌, refl, ap, ◌∙◌, ◌≢◌, inl, inr, true, false, ◌||◌, Option, none, some, List, [], ◌∷◌, ◌++◌,
  arith, Bool-cases, ◌==◌,
}
use mathlib.Core.Path.{subst}
use lulu.Gc.{paused, tracing, sweeping, Mark, is_gray, set_white, Global, ◌>>=◌, mark_at, put_mark}
use lulu.Gc.Marking.{has}
use lulu.Gc.Sweep.{flatten}
use lulu.Gc.Roots.{root_values}
use lulu.Gc.Stale.{
  Lacks, IsMissed, StaysMissed, state-IsMissed, trace_loop-StaysMissed, gc_mark_roots-StaysMissed,
}
use lulu.Gc.Collect.{
  Roots, gc_trace_references, gc_mark_roots, free, remove_strings, remove_lists, gc_remove_intern,
  sweep_list, gc_sweep, gc_collect_garbage,
}

has-append : (v : ℕ) (l k : List ℕ) → has (l ++ k) v ≡ false → (has l v ≡ false) × (has k v ≡ false)
has-append v [] k h = (refl, h)
has-append v (b ∷ l) k h =
    let (s, t) = has-append v l k (ground (arith, h)) in (ground (arith, h, s), t)

module _ (v : ℕ) where
  -- The two states have the same objects and the same mark at `v`.
  pub record Leaves (g h : Global) : Type 0 where
    pub mark : mark_at h v ≡ mark_at g v
    pub objects : h.objects ≡ g.objects

  Leaves-trans : {g h i : Global} → Leaves g h → Leaves h i → Leaves g i
  Leaves-trans p q = record { mark = q.mark ∙ p.mark; objects = q.objects ∙ p.objects }

  put_mark-at : (g : Global) (x : ℕ) (m : Mark) → v ≢ x → mark_at (put_mark g x m) v ≡ mark_at g v
  unfolding put_mark
  put_mark-at g x m n = let other : (v == x) ≡ false = ground (arith, n) in rw (mark_at, other) refl

  remove_strings-Leaves :
      (g : Global) (l : List ℕ) → has l v ≡ false → Leaves g (remove_strings g l).1
  unfolding remove_strings put_mark
  remove_strings-Leaves g [] h = record { mark = refl; objects = refl }
  remove_strings-Leaves g (b ∷ l) h =
      let apart : v ≢ b = λ e. absurd (ground (arith, e, h)) in
      elim (Bool-cases (is_gray (mark_at g b) || (mark_at g b).fixed)) [
        | inl q ↦
            let p = put_mark-at g b (set_white (mark_at g b)) apart in
            let r =
              remove_strings-Leaves (put_mark g b (set_white (mark_at g b))) l
                (ground (arith, h)) in
            rw (remove_strings, q) (record { mark = r.mark ∙ p; objects = r.objects })
        | inr q ↦
            let r = remove_strings-Leaves (free g b) l (ground (arith, h)) in
            rw (remove_strings, q) (record { mark = r.mark; objects = r.objects })
      ]

  remove_lists-Leaves :
      (g : Global) (ls : List (List ℕ))
      → has (flatten ls) v ≡ false
      → Leaves g (remove_lists g ls).1
  unfolding remove_lists
  remove_lists-Leaves g [] h = record { mark = refl; objects = refl }
  remove_lists-Leaves g (l ∷ ls) h =
      let (s, t) = has-append v l (flatten ls) h in
      Leaves-trans (remove_strings-Leaves g l s) (remove_lists-Leaves (remove_strings g l).1 ls t)

  gc_remove_intern-Leaves :
      (g : Global) → has (flatten g.intern) v ≡ false → Leaves g (gc_remove_intern g)
  unfolding gc_remove_intern
  gc_remove_intern-Leaves g h =
      let r = remove_lists-Leaves g g.intern h in record { mark = r.mark; objects = r.objects }

  -- Where the sweep ends, `v` is freed.
  unfoldable Frees : Option (List ℕ × Global) → Type 0
  Frees none = Unit
  Frees (some (kept, g)) = has g.freed v ≡ true

  -- One more object is kept.
  Frees-keep :
      (b : ℕ) (r : Option (List ℕ × Global)) → Frees r → Frees (r >>= (λ p. some (b ∷ p.0, p.1)))
  unfolding Frees
  Frees-keep b none f = tt
  Frees-keep b (some (kept, g)) f = f

  sweep_list-freed : (g : Global) (l : List ℕ) → has g.freed v ≡ true → Frees (sweep_list g l)
  unfolding sweep_list Frees put_mark
  sweep_list-freed g [] h = h
  sweep_list-freed g (b ∷ l) h = elim (Bool-cases ((mark_at g b).black || (mark_at g b).fixed)) [
    | inl q ↦
        rw (sweep_list, q)
          (Frees-keep b _ (sweep_list-freed (put_mark g b (set_white (mark_at g b))) l h))
    | inr q ↦ elim (Bool-cases (is_gray (mark_at g b))) [
      | inl r ↦ rw (sweep_list, q, r) tt
      | inr r ↦ rw (sweep_list, q, r) (sweep_list-freed (free g b) l (ground (arith, h)))
    ]
  ]

  sweep_list-white :
      (g : Global) (l : List ℕ)
      → (mark_at g v).black ≡ false
      → (mark_at g v).fixed ≡ false
      → has l v ≡ true
      → Frees (sweep_list g l)
  unfolding sweep_list Frees
  sweep_list-white g [] n f h = absurd (cc h)
  sweep_list-white g (b ∷ l) n f h =
      elim (Bool-cases ((mark_at g b).black || (mark_at g b).fixed)) [
        | inl q ↦
            let apart : v ≢ b = λ e. absurd (ground (arith, q, n, f, ap (λ y. mark_at g y) e)) in
            let p = put_mark-at g b (set_white (mark_at g b)) apart in
            rw (sweep_list, q)
              (Frees-keep b _ (
                sweep_list-white (put_mark g b (set_white (mark_at g b))) l
                  (ap (λ m. m.black) p ∙ n) (ap (λ m. m.fixed) p ∙ f) (ground (arith, h, apart))))
        | inr q ↦ elim (Bool-cases (is_gray (mark_at g b))) [
          | inl r ↦ rw (sweep_list, q, r) tt
          | inr r ↦
              rw (sweep_list, q, r)
                (elim (Bool-cases (b == v)) [
                  | inl e ↦ sweep_list-freed (free g b) l (ground (arith, e))
                  | inr e ↦ sweep_list-white (free g b) l n f (ground (arith, h, e))
                ])
        ]
      ]

  unfoldable FreesIn : Option Global → Type 0
  FreesIn none = Unit
  FreesIn (some g) = has g.freed v ≡ true

  -- the end of `gc_sweep` and that of `gc_collect_garbage`
  sweep-FreesIn :
      (r : Option (List ℕ × Global))
      → Frees r
      → FreesIn (
          r
          >>= (λ p. some (record p.1 { objects = p.0 }))
          >>= (λ j. some (record j { gc_state = paused })))
  unfolding Frees FreesIn
  sweep-FreesIn none f = tt
  sweep-FreesIn (some (kept, g)) f = f

module _ (a v : ℕ) where
  FreesIn-bind :
      (r : Option Global) (f : Global → Option Global)
      → StaysMissed a v r
      → ((g : Global) → IsMissed a v g → FreesIn v (f g))
      → FreesIn v (r >>= f)
  unfolding StaysMissed FreesIn
  FreesIn-bind none f p q = tt
  FreesIn-bind (some g) f p q = q g p

  end-FreesIn :
      (g : Global)
      → IsMissed a v g
      → FreesIn v (gc_sweep (gc_remove_intern g) >>= (λ j. some (record j { gc_state = paused })))
  unfolding gc_sweep FreesIn
  end-FreesIn g k =
      let l = gc_remove_intern-Leaves v g k.no_string in
      let i = gc_remove_intern g in
      let f : Frees v (sweep_list (record i { gc_state = sweeping }) i.objects) =
        sweep_list-white v (record i { gc_state = sweeping }) i.objects
          (ap (λ m. m.black) l.mark ∙ k.not_black) (ap (λ m. m.fixed) l.mark ∙ k.not_fixed)
          (ap (λ o. has o v) l.objects ∙ k.in_objects) in
      sweep-FreesIn v (sweep_list (record i { gc_state = sweeping }) i.objects) f

  gc_collect_garbage-FreesIn :
      (fuel : ℕ) (g : Global) (r : Roots)
      → Lacks v (root_values r)
      → IsMissed a v g
      → FreesIn v (gc_collect_garbage fuel g r)
  unfolding gc_collect_garbage gc_trace_references
  gc_collect_garbage-FreesIn fuel g r h k =
      FreesIn-bind (gc_mark_roots g r) _ (gc_mark_roots-StaysMissed a v g r h k) (λ i k.
        FreesIn-bind (gc_trace_references fuel i) _
          (trace_loop-StaysMissed a v fuel (record i { gc_state = tracing })
            (state-IsMissed a v i tracing k))
          (λ i k. end-FreesIn i k))

  -- A collection that ends frees `v`.
  pub gc_collect_garbage-freed :
      (fuel : ℕ) (g h : Global) (r : Roots)
      → Lacks v (root_values r)
      → IsMissed a v g
      → gc_collect_garbage fuel g r ≡ some h
      → has h.freed v ≡ true
  unfolding FreesIn
  gc_collect_garbage-freed fuel g h r l k e =
      subst (FreesIn v) e (gc_collect_garbage-FreesIn fuel g r l k)
