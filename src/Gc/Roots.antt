-- ===== src/Gc/Roots.antt =====
-- `gc_mark_roots`: the roots are reached, and the tracing can start.
use lulu.Prelude.{
  ℕ, ◌≡◌, refl, sym, ap, ◌∙◌, ◌≢◌, inl, inr, true, false, not, Option, none, some, List, [], ◌∷◌,
  ◌++◌, map, arith, Bool-cases,
}
use lulu.Gc.{
  State, marking, tracing, Mark, is_gray, Body, Global, ◌>>=◌, mark_at, gc_mark_value, closed_value,
}
use lulu.Gc.Marking.{
  has, is_string, is_upvalue, seen_at, seen_value, IsLast, IsShape, IsMarking, Grows, Marks,
}
use lulu.Gc.Blacken.{
  references, AllSeen, AllSeen-Grows, AllSeen-append, Marks-bind, Marks-map, is_plain, AllPlain,
  AllUpvalues, Fits, Fits-Grows, gc_mark_value-Marks, gc_mark_array-Marks, mark_objects-Marks,
}
use lulu.Gc.Closures.{PlainUpvalues, blacken_upvalues-Marks}
use lulu.Gc.Objects.{upvalue-AllSeen}
use lulu.Gc.Collect.{Roots, gc_mark_roots}
use lulu.Gc.Tracing.{IsTracing, both_gray, AllSeen-mono}
use lulu.Gc.Reach.{seen_gray}

abbrev pub root_values : Roots → List (Option ℕ)
root_values r =
    r.stack
    ++ (map some r.frames
        ++ (map some r.open_upvalues ++ (r.mt_basic ++ r.registry ∷ r.globals ∷ [])))

-- a heap at rest: no object is marked, and the gray list is empty
pub record IsPaused (bodies : ℕ → Body) (g : Global) : Type 0 where
  pub fits : Fits bodies g
  pub white : (a : ℕ) → (mark_at g a).white ≡ true
  pub not_black : (a : ℕ) → (mark_at g a).black ≡ false
  pub gray : g.gray ≡ []
  pub gray_tail : g.gray_tail ≡ none

-- the roots are objects of the right kinds, and the registry and the globals are two of them
pub record IsRooted (bodies : ℕ → Body) (r : Roots) : Type 0 where
  pub stack : AllPlain bodies r.stack
  pub frames : AllPlain bodies (map some r.frames)
  pub open_upvalues : AllUpvalues bodies (map some r.open_upvalues)
  pub mt_basic : AllPlain bodies r.mt_basic
  pub registry_at : ℕ
  pub globals_at : ℕ
  pub registry : r.registry ≡ some registry_at
  pub globals : r.globals ≡ some globals_at
  pub differ : registry_at ≢ globals_at
  pub registry_object :
      (is_string (bodies registry_at) ≡ false) × (is_upvalue (bodies registry_at) ≡ false)
  pub globals_object :
      (is_string (bodies globals_at) ≡ false) × (is_upvalue (bodies globals_at) ≡ false)

abbrev pub start_marking : Global → Global
start_marking g = record g { gc_state = marking }

white_not_gray : (m : Mark) → m.white ≡ true → is_gray m ≡ false
unfolding is_gray
white_not_gray m w = ground arith

-- a list of roots is marked, then the others
next :
    (bodies : ℕ → Body) (g : Global) (vs ws : List (Option ℕ)) (r : Option Global)
    (f : Global → Option Global)
    → Fits bodies g
    → IsMarking g
    → (Fits bodies g → IsMarking g → Marks g (λ h. AllSeen h vs) r)
    → ((h : Global) → Fits bodies h → IsMarking h → Marks h (λ i. AllSeen i ws) (f h))
    → Marks g (λ h. AllSeen h (vs ++ ws)) (r >>= f)
next bodies g vs ws r f fits m now later = Marks-bind _ r f (now fits m) (λ h grows kept s.
    Marks-map (later h (Fits-Grows bodies fits grows) kept)
      (λ i grows' t. AllSeen-append i vs ws (AllSeen-Grows vs grows' s) t))

module _ (bodies : ℕ → Body) (g : Global) where
  pub paused-IsMarking : IsPaused bodies g → IsMarking (start_marking g)
  unfolding is_gray
  paused-IsMarking p = record {
    listed = λ a k n. absurd (cc (white_not_gray (mark_at g a) (p.white a), k));
    members = λ a k. absurd (cc (ap (λ l. has l a) p.gray, k));
    strings = λ a s. p.not_black a;
    shape = rw (p.gray, p.gray_tail) refl;
    distinct = rw p.gray tt;
    linked = λ a k. absurd (cc (ap (λ l. has l a) p.gray, k));
    clean = λ a w u. p.not_black a;
  }

  two_Marks :
      (h : Global) (v w : Option ℕ)
      → Fits bodies h
      → IsMarking h
      → is_plain bodies v ≡ true
      → is_plain bodies w ≡ true
      → Marks h (λ i. AllSeen i (v ∷ w ∷ [])) (gc_mark_value h v >>= (λ i. gc_mark_value i w))
  two_Marks h v w f m p q =
      next bodies h (v ∷ []) (w ∷ []) _ _ f m
        (λ f m. Marks-map (gc_mark_value-Marks bodies h v f m p) (λ i grows s. (s, tt)))
        (λ h f m. Marks-map (gc_mark_value-Marks bodies h w f m q) (λ i grows s. (s, tt)))

  -- Every root is reached.
  pub gc_mark_roots-Marks :
      (r : Roots)
      → IsPaused bodies g
      → PlainUpvalues bodies
      → IsRooted bodies r
      → Marks (start_marking g) (λ h. AllSeen h (root_values r)) (gc_mark_roots g r)
  unfolding gc_mark_roots
  gc_mark_roots-Marks r p plain k =
      next bodies (start_marking g) r.stack _ _ _ p.fits (paused-IsMarking p)
        (λ f m. gc_mark_array-Marks bodies (start_marking g) r.stack f m k.stack)
        (λ h f m.
          next bodies h (map some r.frames) _ _ _ f m
            (λ f m. mark_objects-Marks bodies h r.frames f m k.frames)
            (λ h f m.
              next bodies h (map some r.open_upvalues) _ _ _ f m
                (λ f m.
                  blacken_upvalues-Marks bodies h (map some r.open_upvalues) f m plain
                    k.open_upvalues)
                (λ h f m.
                  next bodies h r.mt_basic _ _ _ f m
                    (λ f m. gc_mark_array-Marks bodies h r.mt_basic f m k.mt_basic)
                    (λ h f m.
                      two_Marks h r.registry r.globals f m
                        (ap (is_plain bodies) k.registry ∙ ap not k.registry_object.1)
                        (ap (is_plain bodies) k.globals ∙ ap not k.globals_object.1)))))

two_members :
    (gray : List ℕ) (t : Option ℕ) (a b : ℕ)
    → has gray a ≡ true
    → has gray b ≡ true
    → a ≢ b
    → IsShape marking gray t
    → IsLast gray t
two_members [] t a b p q n s = absurd (cc p)
two_members (c ∷ []) t a b p q n s = absurd (n (ground arith))
two_members (c ∷ d ∷ more) t a b p q n s = s

marking-IsLast :
    (st : State) (gray : List ℕ) (t : Option ℕ) (a b : ℕ)
    → st ≡ marking
    → has gray a ≡ true
    → has gray b ≡ true
    → a ≢ b
    → IsShape st gray t
    → IsLast gray t
marking-IsLast marking gray t a b e p q n s = two_members gray t a b p q n s
marking-IsLast _ gray t a b e p q n s = absurd (cc e)

AllSeen-right : (g : Global) (vs ws : List (Option ℕ)) → AllSeen g (vs ++ ws) → AllSeen g ws
AllSeen-right g [] ws s = s
AllSeen-right g (v ∷ vs) ws (_, s) = AllSeen-right g vs ws s

pub root_values-two :
    (g : Global) (r : Roots)
    → AllSeen g (root_values r)
    → (seen_value g r.registry ≡ true) × (seen_value g r.globals ≡ true)
root_values-two g r s =
    let (a, (b, _)) = AllSeen-right g r.mt_basic _ (
      AllSeen-right g (map some r.open_upvalues) _
        (AllSeen-right g (map some r.frames) _ (AllSeen-right g r.stack _ s))) in
    (a, b)

module _ (bodies : ℕ → Body) (g h : Global) (p : IsPaused bodies g)
    (grows : Grows (start_marking g) h) (m : IsMarking h) where
  -- only upvalues are black before the tracing
  early_black :
      (a : ℕ)
      → (mark_at h a).black ≡ true
      → (is_upvalue (bodies a) ≡ true) × AllSeen h (references (bodies a))
  early_black a k = elim (grows.news a k) [
    | inl old ↦ absurd (cc (p.not_black a, old))
    | inr (u, s) ↦
        let u' : is_upvalue (bodies a) ≡ true = ap is_upvalue (sym (p.fits a)) ∙ u in
        (
          u',
          upvalue-AllSeen h (bodies a) u'
              (ap (λ b. seen_value h (closed_value b)) (sym (p.fits a)) ∙ s),
        )
  ]

  pub early-Fits : Fits bodies h
  early-Fits a = grows.bodies a ∙ p.fits a

  plain_not_black : (a : ℕ) → is_upvalue (bodies a) ≡ false → (mark_at h a).black ≡ false
  plain_not_black a u = elim (Bool-cases (mark_at h a).black) [
    | inl k ↦ absurd (cc ((early_black a k).0, u))
    | inr n ↦ n
  ]

  -- a reached object is on the gray list
  pub root_listed :
      (a : ℕ)
      → seen_at h a ≡ true
      → (is_string (bodies a) ≡ false) × (is_upvalue (bodies a) ≡ false)
      → has h.gray a ≡ true
  root_listed a s (n, u) =
      m.listed a (seen_gray (mark_at h a) s (plain_not_black a u)) (ap is_string (early-Fits a) ∙ n)

  pub start-IsTracing :
      (a b : ℕ)
      → has h.gray a ≡ true
      → has h.gray b ≡ true
      → a ≢ b
      → IsTracing bodies (record h { gc_state = tracing })
  start-IsTracing a b x y n = record {
    fits = early-Fits;
    state = refl;
    listed = λ c k s. m.listed c k (ap is_string (early-Fits c) ∙ s);
    grays = λ c k.
        both_gray (mark_at h c) (m.members c k)
          (plain_not_black c (ap is_upvalue (sym (early-Fits c)) ∙ (m.linked c k).1));
    linked = λ c k. (
      ap is_string (sym (early-Fits c)) ∙ (m.linked c k).0,
      ap is_upvalue (sym (early-Fits c)) ∙ (m.linked c k).1,
    );
    distinct = m.distinct;
    last = λ _. marking-IsLast h.gc_state h.gray h.gray_tail a b grows.state x y n m.shape;
    strings = λ c s. m.strings c (ap is_string (early-Fits c) ∙ s);
    clean = λ c w u. plain_not_black c u;
    reached = λ c k.
        AllSeen-mono h (record h { gc_state = tracing }) (references (bodies c)) (λ d s. s)
          (early_black c k).1;
  }
