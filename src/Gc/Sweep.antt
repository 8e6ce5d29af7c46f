-- ===== src/Gc/Sweep.antt =====
-- `gc_remove_intern` and `gc_sweep`: which objects are freed, and whose marks change.
use lulu.Prelude.{
  ℕ, ◌≡◌, refl, sym, ap, ◌∙◌, inl, inr, Bool, true, false, not, ◌&&◌, ◌||◌, some, List, [], ◌∷◌,
  ◌++◌, arith, ◌==◌, if◌then◌else◌, Bool-cases,
}
use lulu.Gc.{Mark, is_gray, set_white, Global, sweeping, mark_at, body_at, put_mark}
use lulu.Gc.Marking.{has, Distinct}
use lulu.Gc.Collect.{free, remove_strings, remove_lists, gc_remove_intern, sweep_list, gc_sweep}

abbrev pub flatten : List (List ℕ) → List ℕ
flatten [] = []
flatten (list ∷ lists) = list ++ flatten lists

-- an object that is in a list once is kept there when it is gray or fixed
abbrev pub is_kept : Mark → Bool
is_kept m = is_gray m || m.fixed

-- what a pass over a list frees and marks, where it keeps the objects with a certain mark
pub record Passes (keep : Mark → Bool) (list : List ℕ) (g h : Global) : Type 0 where
  pub frees : (a : ℕ) → has h.freed a ≡ (has g.freed a || (has list a && not (keep (mark_at g a))))
  pub marks :
      (a : ℕ)
      → mark_at h a
        ≡ (if has list a && keep (mark_at g a) then set_white (mark_at g a) else mark_at g a)
  pub bodies : (a : ℕ) → body_at h a ≡ body_at g a
  pub objects : h.objects ≡ g.objects

module _ (keep : Mark → Bool) (b : ℕ) (bs : List ℕ) (g h : Global) (n : has bs b ≡ false) where
  keep_one :
      keep (mark_at g b) ≡ true
      → Passes keep bs (put_mark g b (set_white (mark_at g b))) h
      → Passes keep (b ∷ bs) g h
  unfolding put_mark
  keep_one q p = record {
    frees = λ a. elim (Bool-cases (b == a)) [
      | inl e ↦ ground (arith, p.frees a)
      | inr e ↦ ground (arith, p.frees a)
    ];
    marks = λ a. elim (Bool-cases (b == a)) [
      | inl e ↦ ground (arith, p.marks a)
      | inr e ↦ ground (arith, p.marks a)
    ];
    bodies = λ a. p.bodies a ∙ ground arith;
    objects = p.objects;
  }

  free_one : keep (mark_at g b) ≡ false → Passes keep bs (free g b) h → Passes keep (b ∷ bs) g h
  free_one q p = record {
    frees = λ a. elim (Bool-cases (b == a)) [
      | inl e ↦ ground (arith, p.frees a)
      | inr e ↦ ground (arith, p.frees a)
    ];
    marks = λ a. elim (Bool-cases (b == a)) [
      | inl e ↦ ground (arith, p.marks a)
      | inr e ↦ ground (arith, p.marks a)
    ];
    bodies = p.bodies;
    objects = p.objects;
  }

-- The pass over the lists of strings frees the strings that are neither gray nor fixed, and makes
-- the others white.
pub remove_strings-Passes :
    (list : List ℕ) (g : Global) → Distinct list → Passes is_kept list g (remove_strings g list).1
unfolding remove_strings
remove_strings-Passes [] g d = record {
  frees = λ a. ground arith;
  marks = λ a. refl;
  bodies = λ a. refl;
  objects = refl;
}
remove_strings-Passes (b ∷ bs) g (n, d) = elim (Bool-cases (is_kept (mark_at g b))) [
  | inl q ↦
      rw (q, remove_strings)
        (keep_one is_kept b bs g _ n q
          (remove_strings-Passes bs (put_mark g b (set_white (mark_at g b))) d))
  | inr q ↦
      rw (q, remove_strings) (free_one is_kept b bs g _ n q (remove_strings-Passes bs (free g b) d))
]

remove_strings-append :
    (xs ys : List ℕ) (g : Global)
    → (remove_strings g (xs ++ ys)).1 ≡ (remove_strings (remove_strings g xs).1 ys).1
unfolding remove_strings
remove_strings-append [] ys g = refl
remove_strings-append (x ∷ xs) ys g = elim (Bool-cases (is_kept (mark_at g x))) [
  | inl q ↦
      rw (q, remove_strings) (remove_strings-append xs ys (put_mark g x (set_white (mark_at g x))))
  | inr q ↦ rw (q, remove_strings) (remove_strings-append xs ys (free g x))
]

remove_lists-flatten :
    (lists : List (List ℕ)) (g : Global)
    → (remove_lists g lists).1 ≡ (remove_strings g (flatten lists)).1
unfolding remove_lists remove_strings
remove_lists-flatten [] g = refl
remove_lists-flatten (list ∷ lists) g =
    remove_lists-flatten lists (remove_strings g list).1
    ∙ sym (remove_strings-append list (flatten lists) g)

-- `gc_remove_intern` frees just the strings of the table that are neither gray nor fixed, and makes
-- those that stay white.
pub gc_remove_intern-Passes :
    (g : Global)
    → Distinct (flatten g.intern)
    → Passes is_kept (flatten g.intern) g (gc_remove_intern g)
unfolding gc_remove_intern
gc_remove_intern-Passes g d =
    let p = remove_strings-Passes (flatten g.intern) g d in
    let e = remove_lists-flatten g.intern g in
    record {
      frees = λ a. ap (λ h. has h.freed a) e ∙ p.frees a;
      marks = λ a. ap (λ h. mark_at h a) e ∙ p.marks a;
      bodies = λ a. ap (λ h. body_at h a) e ∙ p.bodies a;
      objects = ap (λ h. h.objects) e ∙ p.objects;
    }

-- an object that a sweep keeps
abbrev pub is_live : Mark → Bool
is_live m = m.black || m.fixed

swept_gray :
    (g : Global) (a b : ℕ)
    → is_gray (mark_at g a) ≡ false
    → is_gray (mark_at (put_mark g b (set_white (mark_at g b))) a) ≡ false
unfolding put_mark set_white is_gray
swept_gray g a b n = ground arith

sweep_list-Passes :
    (list : List ℕ) (g : Global)
    → Distinct list
    → ((a : ℕ) → has list a ≡ true → is_gray (mark_at g a) ≡ false)
    → (r : List ℕ × Global) × (sweep_list g list ≡ some r) × Passes is_live list g r.1
unfolding sweep_list
sweep_list-Passes [] g d n = (
  ([], g),
  refl,
  record { frees = λ a. ground arith; marks = λ a. refl; bodies = λ a. refl; objects = refl },
)
sweep_list-Passes (b ∷ bs) g (m, d) n = elim (Bool-cases (is_live (mark_at g b))) [
  | inl q ↦
      let (r, e, p) =
        sweep_list-Passes bs (put_mark g b (set_white (mark_at g b))) d
          (λ a k. swept_gray g a b (n a (ground arith))) in
      ((b ∷ r.0, r.1), rw (q, e, sweep_list) refl, keep_one is_live b bs g r.1 m q p)
  | inr q ↦
      let (r, e, p) = sweep_list-Passes bs (free g b) d (λ a k. n a (ground arith)) in
      (r, rw (q, n b (ground arith), sweep_list) e, free_one is_live b bs g r.1 m q p)
]

pub record Sweeps (g h : Global) : Type 0 where
  pub frees :
      (a : ℕ) → has h.freed a ≡ (has g.freed a || (has g.objects a && not (is_live (mark_at g a))))
  pub marks :
      (a : ℕ)
      → mark_at h a ≡ (
          if has g.objects a && is_live (mark_at g a) then set_white (mark_at g a) else mark_at g a)
  pub bodies : (a : ℕ) → body_at h a ≡ body_at g a

-- When no object of the list is gray, `gc_sweep` frees just the objects of the list that are neither
-- black nor fixed, and makes those that stay white.
pub gc_sweep-Passes :
    (g : Global)
    → Distinct g.objects
    → ((a : ℕ) → has g.objects a ≡ true → is_gray (mark_at g a) ≡ false)
    → (h : Global) × (gc_sweep g ≡ some h) × Sweeps g h
unfolding gc_sweep
gc_sweep-Passes g d n =
    let (r, e, p) = sweep_list-Passes g.objects (record g { gc_state = sweeping }) d n in
    (
      record r.1 { objects = r.0 },
      rw e refl,
      record { frees = p.frees; marks = p.marks; bodies = p.bodies },
    )
