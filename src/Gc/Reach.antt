-- ===== src/Gc/Reach.antt =====
-- When `gc_trace_references` is done, all that is reachable from a reached object is reached.
use lulu.Prelude.{
  ℕ, zero, suc, ◌≤◌, ◌≡◌, refl, sym, ap, ◌∙◌, ◌⊎◌, inl, inr, Bool, true, false, Option, none, some,
  List, [], ◌∷◌, arith, Bool-cases, ◌==◌, ◌||◌,
}
use lulu.Gc.{Mark, is_gray, Body, string, Global, mark_at, gc_blacken_object, tail}
use lulu.Gc.Marking.{lists, has, is_string, seen, seen_at}
use lulu.Gc.Blacken.{references, AllSeen}
use lulu.Gc.Objects.{Blackened}
use lulu.Gc.Bodies.{gc_blacken_object-Blackened}
use lulu.Gc.Collect.{done, trace_loop}
use lulu.Gc.Tracing.{
  remaining, remaining_strict, IsHeap, IsTracing, IsTracing-IsMarking, next-IsTracing,
}

abbrev pub list_cases : (l : List ℕ) → (l ≡ []) ⊎ ((a : ℕ) × (more : List ℕ) × (l ≡ a ∷ more))
list_cases [] = inl refl
list_cases (a ∷ more) = inr (a, more, refl)

pub gray_not_black : (m : Mark) → is_gray m ≡ true → m.black ≡ false
unfolding is_gray
gray_not_black m k = ground arith

pub seen_gray : (m : Mark) → seen m ≡ true → m.black ≡ false → is_gray m ≡ true
unfolding is_gray
seen_gray m s n = ground arith

same_address : {a b : ℕ} → (a == b) ≡ true → a ≡ b
same_address e = ground arith

remaining_same :
    (n : ℕ) (h : Global) → remaining n (record h { gray = tail h.gray }) ≡ remaining n h
remaining_same zero h = refl
remaining_same (suc n) h = ground (arith, remaining_same n h)

string-AllSeen : (g : Global) (b : Body) → is_string b ≡ true → AllSeen g (references b)
unfolding references
string-AllSeen g string s = tt
string-AllSeen g _ s = absurd (cc s)

abbrev pub has_value : List (Option ℕ) → ℕ → Bool
has_value [] b = false
has_value (none ∷ vs) b = has_value vs b
has_value (some a ∷ vs) b = a == b || has_value vs b

abbrev pub refers : (ℕ → Body) → ℕ → ℕ → Bool
refers bodies a b = has_value (references (bodies a)) b

-- a finished run of the loop
pub record Finished (bodies : ℕ → Body) (g h : Global) : Type 0 where
  pub traced : IsTracing bodies h
  pub empty : h.gray ≡ []
  pub seens : (b : ℕ) → seen_at g b ≡ true → seen_at h b ≡ true
  pub blacks : (b : ℕ) → (mark_at g b).black ≡ true → (mark_at h b).black ≡ true
  pub fixeds : (b : ℕ) → (mark_at h b).fixed ≡ (mark_at g b).fixed
  pub same_lists : lists h ≡ lists g

module _ (bound : ℕ) (bodies : ℕ → Body) (w : IsHeap bound bodies) where
  round-Blackened :
      (g : Global) (a : ℕ) (more : List ℕ)
      → IsTracing bodies g
      → g.gray ≡ a ∷ more
      → Blackened bodies g a (gc_blacken_object g a)
  round-Blackened g a more t e =
      let k : has g.gray a ≡ true = rw e (ground arith) in
      let (s, u) = t.linked a k in
      gc_blacken_object-Blackened bodies g a t.fits
        (IsTracing-IsMarking bodies g t (λ z. cc (sym e ∙ z))) w.plain (w.typed a) (t.grays a k) s u

  Finished-now : (g : Global) → IsTracing bodies g → g.gray ≡ [] → Finished bodies g g
  Finished-now g t e = record {
    traced = t;
    empty = e;
    seens = λ b s. s;
    fixeds = λ b. refl;
    blacks = λ b k. k;
    same_lists = refl;
  }

  round_strict :
      (g : Global) (a : ℕ) (more : List ℕ)
      → (t : IsTracing bodies g) → (e : g.gray ≡ a ∷ more)
      → suc (remaining bound (round-Blackened g a more t e).result) ≤ remaining bound g
  round_strict g a more t e =
      let k : has g.gray a ≡ true = rw e (ground arith) in
      let b : Blackened bodies g a (gc_blacken_object g a) = round-Blackened g a more t e in
      remaining_strict bound g b.result a b.blackens.blacks (w.below a (t.linked a k).0)
        (gray_not_black (mark_at g a) (t.grays a k)) b.blackens.black

  -- From a state of the tracing the loop ends with an empty gray list, without a failed assertion:
  -- it takes no more rounds than there are objects that are not black.
  pub trace_loop-Finished :
      (fuel : ℕ) (g : Global)
      → IsTracing bodies g
      → remaining bound g ≤ fuel
      → (h : Global) × (trace_loop fuel g ≡ done h) × Finished bodies g h
  unfolding trace_loop
  trace_loop-Finished zero g t n = elim (list_cases g.gray) [
    | inl e ↦ (g, simp (e, trace_loop), Finished-now g t e)
    | inr (a, more, e) ↦ absurd (omega (arith, round_strict g a more t e))
  ]
  trace_loop-Finished (suc fuel) g t n = elim (list_cases g.gray) [
    | inl e ↦ (g, simp (e, trace_loop), Finished-now g t e)
    | inr (a, more, e) ↦
        let b : Blackened bodies g a (gc_blacken_object g a) = round-Blackened g a more t e in
        let (others, e') = b.blackens.front a more t.state e in
        let (i, ends, f) =
          trace_loop-Finished fuel (record b.result { gray = tail b.result.gray })
            (next-IsTracing bodies g b.result t a others b.blackens e')
            (omega (arith, round_strict g a more t e, remaining_same bound b.result)) in
        (
          i,
          rw (e, b.returns, trace_loop) ends,
          record {
            traced = f.traced;
            empty = f.empty;
            seens = λ c s. f.seens c (b.blackens.seens c s);
            fixeds = λ c. f.fixeds c ∙ b.blackens.fixeds c;
            blacks = λ c k. f.blacks c (b.blackens.blacks c k);
            same_lists = f.same_lists ∙ b.blackens.same_lists;
          },
        )
  ]

-- what can be followed from an object
pub data Reach (bodies : ℕ → Body) (root : ℕ) : ℕ → Type 0 where
  here : Reach bodies root root
  step : {a b : ℕ} → Reach bodies root a → refers bodies a b ≡ true → Reach bodies root b

module _ (bodies : ℕ → Body) where
  pub all_seen :
      (g : Global) (vs : List (Option ℕ)) (b : ℕ)
      → AllSeen g vs
      → has_value vs b ≡ true
      → seen_at g b ≡ true
  all_seen g [] b s r = absurd (cc r)
  all_seen g (none ∷ vs) b (s, more) r = all_seen g vs b more r
  all_seen g (some a ∷ vs) b (s, more) r = elim (Bool-cases (a == b)) [
    | inl e ↦ rw (same_address e) at s
    | inr n ↦ all_seen g vs b more (ground arith)
  ]

  -- a reached object of a finished run refers to reached objects only
  Finished-reached :
      (g : Global) (a : ℕ)
      → IsTracing bodies g
      → g.gray ≡ []
      → seen_at g a ≡ true
      → AllSeen g (references (bodies a))
  Finished-reached g a t e s = elim (Bool-cases (mark_at g a).black) [
    | inl k ↦ t.reached a k
    | inr n ↦ elim (Bool-cases (is_string (bodies a))) [
      | inl str ↦ string-AllSeen g (bodies a) str
      | inr no_str ↦
          absurd (cc (t.listed a (seen_gray (mark_at g a) s n) no_str, ap (λ l. has l a) e))
    ]
  ]

  -- When the loop is done, an object that can be followed from a reached one is reached too.
  pub Reach-seen :
      (g : Global) (root a : ℕ)
      → IsTracing bodies g
      → g.gray ≡ []
      → seen_at g root ≡ true
      → Reach bodies root a
      → seen_at g a ≡ true
  Reach-seen g root a t e s here = s
  Reach-seen g root b t e s (step {a = a} p r) =
      all_seen g (references (bodies a)) b (Finished-reached g a t e (Reach-seen g root a t e s p))
        r

pub object_black :
    (bodies : ℕ → Body) (g : Global) (a : ℕ)
    → IsTracing bodies g
    → g.gray ≡ []
    → seen_at g a ≡ true
    → is_string (bodies a) ≡ false
    → (mark_at g a).black ≡ true
object_black bodies g a t e s n = elim (Bool-cases (mark_at g a).black) [
  | inl k ↦ k
  | inr k ↦ absurd (cc (t.listed a (seen_gray (mark_at g a) s k) n, ap (λ l. has l a) e))
]

-- From a state of the tracing `gc_trace_references` ends without a failed assertion, and then each
-- object that can be followed from one that was reached is reached: an object other than a string is
-- black, and a string is gray.
pub trace_loop-Reach :
    (bound : ℕ) (bodies : ℕ → Body) (g : Global) (root a : ℕ)
    → IsHeap bound bodies
    → IsTracing bodies g
    → seen_at g root ≡ true
    → Reach bodies root a
    → (h : Global) × (trace_loop (remaining bound g) g ≡ done h)
      × (is_string (bodies a) ≡ true → is_gray (mark_at h a) ≡ true)
      × (is_string (bodies a) ≡ false → (mark_at h a).black ≡ true)
trace_loop-Reach bound bodies g root a w t s r =
    let (h, ends, f) = trace_loop-Finished bound bodies w (remaining bound g) g t (omega arith) in
    let k : seen_at h a ≡ true = Reach-seen bodies h root a f.traced f.empty (f.seens root s) r in
    (
      h,
      ends,
      λ str. seen_gray (mark_at h a) k (f.traced.strings a str),
      λ other. object_black bodies h a f.traced f.empty k other,
    )
