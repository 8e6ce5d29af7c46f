-- ===== src/Gc/Stale.antt =====
-- A collection with an object that only a black upvalue holds: it is not marked.
use lulu.Prelude.{
  ℕ, zero, suc, ◌≡◌, refl, ap, ◌∙◌, ◌≢◌, inl, inr, true, false, Option, none, some, Option-cases,
  List, [], ◌∷◌, ◌++◌, map, arith, Bool-cases, ◌==◌,
}
use mathlib.Core.Path.{subst}
use lulu.Gc.{
  State, paused, marking, tracing, sweeping, Mark, is_gray, set_gray_from_white, set_black, Body,
  string, table, chunk, closure_c, closure_lua, userdata, upvalue, Global, ◌>>=◌, mark_at, body_at,
  put_mark, link_gray, link_object, gc_mark_object, gc_mark_value, gc_mark_array, mark_objects,
  mark_entries, blacken, closed_value, gc_blacken_upvalue, blacken_upvalues, gc_blacken_chunk,
  gc_blacken_table, gc_blacken_userdata, blacken_closure_c, blacken_closure_lua, blacken_body,
  gc_blacken_object, tail,
}
use lulu.Gc.Marking.{has}
use lulu.Gc.Blacken.{references, entry_values}
use lulu.Gc.Reach.{has_value, list_cases}
use lulu.Gc.Roots.{root_values}
use lulu.Gc.Collect.{Roots, trace_loop, end_trace, gc_mark_roots}
use lulu.Gc.Sweep.{flatten}

module _ (v : ℕ) where
  abbrev pub Lacks : List (Option ℕ) → Type 0
  Lacks vs = has_value vs v ≡ false

  Lacks-append : (vs ws : List (Option ℕ)) → Lacks (vs ++ ws) → Lacks vs × Lacks ws
  Lacks-append [] ws h = (refl, h)
  Lacks-append (none ∷ vs) ws h = Lacks-append vs ws h
  Lacks-append (some b ∷ vs) ws h =
      let (s, t) = Lacks-append vs ws (ground (arith, h)) in (ground (arith, h, s), t)

module _ (a v : ℕ) where
  -- `v` is not marked, `a` is black, and nothing but `a` refers to `v`.
  pub record IsMissed (g : Global) : Type 0 where
    pub white : (mark_at g v).white ≡ true
    pub not_black : (mark_at g v).black ≡ false
    pub not_fixed : (mark_at g v).fixed ≡ false
    pub black : (mark_at g a).black ≡ true
    pub alone : (x : ℕ) → x ≢ a → Lacks v (references (body_at g x))
    pub in_objects : has g.objects v ≡ true
    pub no_string : has (flatten g.intern) v ≡ false

  -- Where the run ends, it leaves such a state.
  unfoldable pub StaysMissed : Option Global → Type 0
  StaysMissed none = Unit
  StaysMissed (some g) = IsMissed g

  pub StaysMissed-bind :
      (r : Option Global) (f : Global → Option Global)
      → StaysMissed r
      → ((g : Global) → IsMissed g → StaysMissed (f g))
      → StaysMissed (r >>= f)
  unfolding StaysMissed
  StaysMissed-bind none f p q = tt
  StaysMissed-bind (some g) f p q = q g p

  put_mark-IsMissed :
      (g : Global) (x : ℕ) (m : Mark)
      → IsMissed g
      → x ≢ v
      → (x ≡ a → m.black ≡ true)
      → IsMissed (put_mark g x m)
  unfolding put_mark
  put_mark-IsMissed g x m k n b =
      let other : (v == x) ≡ false = ground (arith, n) in
      record {
        white = rw (mark_at, other) k.white;
        not_black = rw (mark_at, other) k.not_black;
        not_fixed = rw (mark_at, other) k.not_fixed;
        black = elim (Bool-cases (a == x)) [
          | inl q ↦ rw (mark_at, q) (b (ground (arith, q)))
          | inr q ↦ rw (mark_at, q) k.black
        ];
        alone = λ y apart. elim (Bool-cases (y == x)) [
          | inl q ↦ rw (body_at, q) (k.alone y apart)
          | inr q ↦ rw (body_at, q) (k.alone y apart)
        ];
        in_objects = k.in_objects;
        no_string = k.no_string;
      }

  gray-IsMissed :
      (g : Global) (gray : List ℕ) (gray_tail : Option ℕ)
      → IsMissed g
      → IsMissed (record g { gray = gray; gray_tail = gray_tail })
  gray-IsMissed g gray gray_tail k = record {
    white = k.white;
    not_black = k.not_black;
    not_fixed = k.not_fixed;
    black = k.black;
    alone = k.alone;
    in_objects = k.in_objects;
    no_string = k.no_string;
  }

  pub state-IsMissed :
      (g : Global) (state : State) → IsMissed g → IsMissed (record g { gc_state = state })
  state-IsMissed g state k = record {
    white = k.white;
    not_black = k.not_black;
    not_fixed = k.not_fixed;
    black = k.black;
    alone = k.alone;
    in_objects = k.in_objects;
    no_string = k.no_string;
  }

  link_gray-StaysMissed :
      (g : Global) (x : ℕ) (s : State) → IsMissed g → StaysMissed (link_gray g x s)
  unfolding link_gray StaysMissed
  link_gray-StaysMissed g x marking k = gray-IsMissed g _ _ k
  link_gray-StaysMissed g x tracing k = elim (Option-cases g.gray_tail) [
    | inl q ↦ rw (link_gray, q) tt
    | inr (t, q) ↦ rw (link_gray, q) (gray-IsMissed g _ _ k)
  ]
  link_gray-StaysMissed g x paused k = tt
  link_gray-StaysMissed g x sweeping k = tt

  link_object-StaysMissed :
      (g : Global) (x : ℕ) (b : Body) → IsMissed g → StaysMissed (link_object g x b)
  unfolding link_object StaysMissed
  link_object-StaysMissed g x string k = k
  link_object-StaysMissed g x (upvalue u) k = tt
  link_object-StaysMissed g x _ k = link_gray-StaysMissed g x g.gc_state k

  gc_mark_object-StaysMissed :
      (g : Global) (x : ℕ) → x ≢ v → IsMissed g → StaysMissed (gc_mark_object g x)
  unfolding gc_mark_object set_gray_from_white StaysMissed
  gc_mark_object-StaysMissed g x n k = elim (Bool-cases (mark_at g x).white) [
    | inr q ↦ rw (gc_mark_object, q) k
    | inl q ↦
        rw (gc_mark_object, q)
          (link_object-StaysMissed (put_mark g x (set_gray_from_white (mark_at g x))) x
            (body_at g x)
            (put_mark-IsMissed g x _ k n (λ e. ap (λ y. (mark_at g y).black) e ∙ k.black)))
  ]

  gc_mark_value-StaysMissed :
      (g : Global) (o : Option ℕ) → Lacks v (o ∷ []) → IsMissed g → StaysMissed (gc_mark_value g o)
  unfolding gc_mark_value StaysMissed
  gc_mark_value-StaysMissed g none h k = k
  gc_mark_value-StaysMissed g (some x) h k =
      gc_mark_object-StaysMissed g x (λ e. absurd (ground (arith, e, h))) k

  first : (o : Option ℕ) (vs : List (Option ℕ)) → Lacks v (o ∷ vs) → Lacks v (o ∷ []) × Lacks v vs
  first o vs h = Lacks-append v (o ∷ []) vs h

  some-apart : (x : ℕ) (vs : List (Option ℕ)) → Lacks v (some x ∷ vs) → x ≢ v
  some-apart x vs h e = absurd (ground (arith, e, h))

  gc_mark_array-StaysMissed :
      (g : Global) (vs : List (Option ℕ))
      → Lacks v vs
      → IsMissed g
      → StaysMissed (gc_mark_array g vs)
  unfolding gc_mark_array StaysMissed
  gc_mark_array-StaysMissed g [] h k = k
  gc_mark_array-StaysMissed g (o ∷ vs) h k =
      let (s, t) = first o vs h in
      StaysMissed-bind (gc_mark_value g o) _ (gc_mark_value-StaysMissed g o s k)
        (λ i l. gc_mark_array-StaysMissed i vs t l)

  mark_objects-StaysMissed :
      (g : Global) (xs : List ℕ)
      → Lacks v (map some xs)
      → IsMissed g
      → StaysMissed (mark_objects g xs)
  unfolding mark_objects StaysMissed
  mark_objects-StaysMissed g [] h k = k
  mark_objects-StaysMissed g (x ∷ xs) h k =
      let (s, t) = first (some x) (map some xs) h in
      StaysMissed-bind (gc_mark_object g x) _ (gc_mark_object-StaysMissed g x (some-apart x [] s) k)
        (λ i l. mark_objects-StaysMissed i xs t l)

  mark_entries-StaysMissed :
      (g : Global) (es : List (Option ℕ × Option ℕ))
      → Lacks v (entry_values es)
      → IsMissed g
      → StaysMissed (mark_entries g es)
  unfolding mark_entries StaysMissed
  mark_entries-StaysMissed g [] h k = k
  mark_entries-StaysMissed g ((o, w) ∷ es) h k =
      let (s, t) = first o (w ∷ entry_values es) h in
      let (s', t') = first w (entry_values es) t in
      StaysMissed-bind (gc_mark_value g o) _ (gc_mark_value-StaysMissed g o s k) (λ i l.
        StaysMissed-bind (gc_mark_value i w) _ (gc_mark_value-StaysMissed i w s' l)
          (λ j m. mark_entries-StaysMissed j es t' m))

  blacken-IsMissed : (g : Global) (x : ℕ) → x ≢ v → IsMissed g → IsMissed (blacken g x)
  unfolding set_black
  blacken-IsMissed g x n k = put_mark-IsMissed g x _ k n (λ e. refl)

  closed-Lacks : (b : Body) → Lacks v (references b) → Lacks v (closed_value b ∷ [])
  unfolding references
  closed-Lacks (upvalue u) h = h
  closed-Lacks _ h = refl

  gc_blacken_upvalue-StaysMissed :
      (g : Global) (o : Option ℕ)
      → Lacks v (o ∷ [])
      → IsMissed g
      → StaysMissed (gc_blacken_upvalue g o)
  unfolding gc_blacken_upvalue StaysMissed
  gc_blacken_upvalue-StaysMissed g none h k = k
  gc_blacken_upvalue-StaysMissed g (some u) h k = elim (Bool-cases (mark_at g u).black) [
    | inl q ↦ rw (gc_blacken_upvalue, q) k
    | inr q ↦
        let apart : u ≢ a = λ e. absurd (cc (q, ap (λ y. (mark_at g y).black) e, k.black)) in
        rw (gc_blacken_upvalue, q)
          (StaysMissed-bind (gc_mark_value g (closed_value (body_at g u))) _
            (gc_mark_value-StaysMissed g _ (closed-Lacks (body_at g u) (k.alone u apart)) k)
            (λ i l. blacken-IsMissed i u (some-apart u [] h) l))
  ]

  blacken_upvalues-StaysMissed :
      (g : Global) (us : List (Option ℕ))
      → Lacks v us
      → IsMissed g
      → StaysMissed (blacken_upvalues g us)
  unfolding blacken_upvalues StaysMissed
  blacken_upvalues-StaysMissed g [] h k = k
  blacken_upvalues-StaysMissed g (o ∷ us) h k =
      let (s, t) = first o us h in
      StaysMissed-bind (gc_blacken_upvalue g o) _ (gc_blacken_upvalue-StaysMissed g o s k)
        (λ i l. blacken_upvalues-StaysMissed i us t l)

  chunk-StaysMissed :
      (g : Global) (x : ℕ) (locals upvalues : List ℕ) (constants : List (Option ℕ))
      (children : List ℕ) (source : ℕ)
      → x ≢ v
      → Lacks v (references (chunk locals upvalues constants children source))
      → IsMissed g
      → StaysMissed (gc_blacken_chunk g x locals upvalues constants children source)
  unfolding gc_blacken_chunk references
  chunk-StaysMissed g x locals upvalues constants children source n h k =
      let (l, h') = Lacks-append v (map some locals) _ h in
      let (u, h'') = Lacks-append v (map some upvalues) _ h' in
      let (c, h''') = Lacks-append v constants _ h'' in
      let (d, s) = Lacks-append v (map some children) _ h''' in
      StaysMissed-bind (mark_objects (blacken g x) locals) _
        (mark_objects-StaysMissed (blacken g x) locals l (blacken-IsMissed g x n k))
        (λ i k.
          StaysMissed-bind (mark_objects i upvalues) _ (mark_objects-StaysMissed i upvalues u k)
            (λ i k.
              StaysMissed-bind (gc_mark_array i constants) _
                (gc_mark_array-StaysMissed i constants c k)
                (λ i k.
                  StaysMissed-bind (mark_objects i children) _
                    (mark_objects-StaysMissed i children d k)
                    (λ i k. gc_mark_object-StaysMissed i source (some-apart source [] s) k))))

  blacken_body-StaysMissed :
      (g : Global) (x : ℕ) (b : Body)
      → x ≢ v
      → Lacks v (references b)
      → IsMissed g
      → StaysMissed (blacken_body g x b)
  unfolding blacken_body gc_blacken_table gc_blacken_userdata blacken_closure_c blacken_closure_lua
      references StaysMissed
  blacken_body-StaysMissed g x (table metatable array entries) n h k =
      let (m, h') = first metatable _ h in
      let (l, e) = Lacks-append v array _ h' in
      StaysMissed-bind (gc_mark_value (blacken g x) metatable) _
        (gc_mark_value-StaysMissed (blacken g x) metatable m (blacken-IsMissed g x n k))
        (λ i k.
          StaysMissed-bind (gc_mark_array i array) _ (gc_mark_array-StaysMissed i array l k)
            (λ i k. mark_entries-StaysMissed i entries e k))
  blacken_body-StaysMissed g x (closure_c upvalues) n h k =
      StaysMissed-bind (gc_mark_array g upvalues) _ (gc_mark_array-StaysMissed g upvalues h k)
        (λ i k. blacken-IsMissed i x n k)
  blacken_body-StaysMissed g x (closure_lua p upvalues) n h k =
      let (s, u) = first (some p) upvalues h in
      StaysMissed-bind (gc_mark_object g p) _ (gc_mark_object-StaysMissed g p (some-apart p [] s) k)
        (λ i k.
          StaysMissed-bind (blacken_upvalues i upvalues) _
            (blacken_upvalues-StaysMissed i upvalues u k) (λ i k. blacken-IsMissed i x n k))
  blacken_body-StaysMissed g x (chunk locals upvalues constants children source) n h k =
      chunk-StaysMissed g x locals upvalues constants children source n h k
  blacken_body-StaysMissed g x (userdata metatable) n h k =
      gc_mark_value-StaysMissed (blacken g x) metatable h (blacken-IsMissed g x n k)
  blacken_body-StaysMissed g x _ n h k = tt

  -- A gray object is neither `a` nor `v`.
  gc_blacken_object-StaysMissed :
      (g : Global) (x : ℕ) → IsMissed g → StaysMissed (gc_blacken_object g x)
  unfolding gc_blacken_object StaysMissed is_gray
  gc_blacken_object-StaysMissed g x k = elim (Bool-cases (is_gray (mark_at g x))) [
    | inr q ↦ rw (gc_blacken_object, q) tt
    | inl q ↦
        let gray : ((mark_at g x).white ≡ false) × ((mark_at g x).black ≡ false) =
          ground (arith, q) in
        let not_v : x ≢ v = λ e. absurd (cc (gray.0, ap (λ y. (mark_at g y).white) e, k.white)) in
        let not_a : x ≢ a = λ e. absurd (cc (gray.1, ap (λ y. (mark_at g y).black) e, k.black)) in
        rw (gc_blacken_object, q)
          (blacken_body-StaysMissed g x (body_at g x) not_v (k.alone x not_a) k)
  ]

  pub trace_loop-StaysMissed :
      (fuel : ℕ) (g : Global) → IsMissed g → StaysMissed (end_trace (trace_loop fuel g))
  unfolding trace_loop end_trace StaysMissed
  trace_loop-StaysMissed zero g k = elim (list_cases g.gray) [
    | inl e ↦ rw (trace_loop, e) (gray-IsMissed g g.gray none k)
    | inr (x, more, e) ↦ rw (trace_loop, e) tt
  ]
  trace_loop-StaysMissed (suc fuel) g k = elim (list_cases g.gray) [
    | inl e ↦ rw (trace_loop, e) (gray-IsMissed g g.gray none k)
    | inr (x, more, e) ↦ elim (Option-cases (gc_blacken_object g x)) [
      | inl q ↦ rw (trace_loop, e, q) tt
      | inr (i, q) ↦
          let l : IsMissed i = subst StaysMissed q (gc_blacken_object-StaysMissed g x k) in
          rw (trace_loop, e, q)
            (trace_loop-StaysMissed fuel (record i { gray = tail i.gray })
              (gray-IsMissed i (tail i.gray) i.gray_tail l))
    ]
  ]

  pub gc_mark_roots-StaysMissed :
      (g : Global) (r : Roots)
      → Lacks v (root_values r)
      → IsMissed g
      → StaysMissed (gc_mark_roots g r)
  unfolding gc_mark_roots
  gc_mark_roots-StaysMissed g r h k =
      let (s, h) = Lacks-append v r.stack _ h in
      let (f, h) = Lacks-append v (map some r.frames) _ h in
      let (o, h) = Lacks-append v (map some r.open_upvalues) _ h in
      let (m, h) = Lacks-append v r.mt_basic _ h in
      let (e, w) = first r.registry _ h in
      let start = record g { gc_state = marking } in
      StaysMissed-bind (gc_mark_array start r.stack) _
        (gc_mark_array-StaysMissed start r.stack s (state-IsMissed g marking k))
        (λ i k.
          StaysMissed-bind (mark_objects i r.frames) _ (mark_objects-StaysMissed i r.frames f k)
            (λ i k.
              StaysMissed-bind (blacken_upvalues i (map some r.open_upvalues)) _
                (blacken_upvalues-StaysMissed i _ o k)
                (λ i k.
                  StaysMissed-bind (gc_mark_array i r.mt_basic) _
                    (gc_mark_array-StaysMissed i r.mt_basic m k)
                    (λ i k.
                      StaysMissed-bind (gc_mark_value i r.registry) _
                        (gc_mark_value-StaysMissed i r.registry e k)
                        (λ i k. gc_mark_value-StaysMissed i r.globals w k)))))
