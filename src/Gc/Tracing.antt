-- ===== src/Gc/Tracing.antt =====
-- `gc_trace_references` ends, and leaves no object that is still to be traversed.
use lulu.Prelude.{
  ℕ, zero, suc, ◌+◌, ◌≤◌, ◌<◌, ◌≡◌, refl, sym, ap, ◌∙◌, ◌≢◌, inl, inr, true, false, Option, none,
  some, List, [], ◌∷◌, arith, ◌==◌, if◌then◌else◌, Bool-cases,
}
use mathlib.Core.Path.{subst}
use lulu.Gc.{State, tracing, Mark, is_gray, Body, Global, mark_at, tail}
use lulu.Gc.Marking.{
  has, is_string, is_upvalue, seen_at, seen_value, IsLast, IsShape, IsMarking, Distinct,
}
use lulu.Gc.Blacken.{references, AllSeen, Typed, Fits}
use lulu.Gc.Closures.{PlainUpvalues}
use lulu.Gc.Objects.{Blackens}

-- the addresses below a bound that are not black
abbrev pub remaining : ℕ → Global → ℕ
remaining zero g = 0
remaining (suc n) g = (if (mark_at g n).black then 0 else 1) + remaining n g

remaining_mono :
    (n : ℕ) (g h : Global)
    → ((b : ℕ) → (mark_at g b).black ≡ true → (mark_at h b).black ≡ true)
    → remaining n h ≤ remaining n g
remaining_mono zero g h p = omega arith
remaining_mono (suc n) g h p = ground (arith, remaining_mono n g h p, p n)

pub remaining_strict :
    (n : ℕ) (g h : Global) (a : ℕ)
    → ((b : ℕ) → (mark_at g b).black ≡ true → (mark_at h b).black ≡ true)
    → a < n
    → (mark_at g a).black ≡ false
    → (mark_at h a).black ≡ true
    → suc (remaining n h) ≤ remaining n g
remaining_strict zero g h a p l q r = absurd (omega arith)
remaining_strict (suc n) g h a p l q r = elim (Bool-cases (a == n)) [
  | inl e ↦ ground (arith, remaining_mono n g h p)
  | inr e ↦ ground (arith, remaining_strict n g h a p (ground arith) q r, p n)
]

-- The objects of a heap: only upvalues of Lua closures are pointers to upvalues, and the objects
-- other than strings are at addresses below a bound.
pub record IsHeap (bound : ℕ) (bodies : ℕ → Body) : Type 0 where
  pub typed : (a : ℕ) → Typed bodies (bodies a)
  pub plain : PlainUpvalues bodies
  pub below : (a : ℕ) → is_string (bodies a) ≡ false → a < bound

-- between two rounds: all that a black object refers to is reached, and the gray list holds the
-- gray objects
pub record IsTracing (bodies : ℕ → Body) (g : Global) : Type 0 where
  pub fits : Fits bodies g
  pub state : g.gc_state ≡ tracing
  pub listed :
      (a : ℕ) → is_gray (mark_at g a) ≡ true → is_string (bodies a) ≡ false → has g.gray a ≡ true
  pub grays : (a : ℕ) → has g.gray a ≡ true → is_gray (mark_at g a) ≡ true
  pub linked :
      (a : ℕ)
      → has g.gray a ≡ true
      → (is_string (bodies a) ≡ false) × (is_upvalue (bodies a) ≡ false)
  pub distinct : Distinct g.gray
  pub last : g.gray ≢ [] → IsLast g.gray g.gray_tail
  pub strings : (a : ℕ) → is_string (bodies a) ≡ true → (mark_at g a).black ≡ false
  pub clean :
      (a : ℕ)
      → (mark_at g a).white ≡ true
      → is_upvalue (bodies a) ≡ false
      → (mark_at g a).black ≡ false
  pub reached : (a : ℕ) → (mark_at g a).black ≡ true → AllSeen g (references (bodies a))

pub gray_white : (m : Mark) → is_gray m ≡ true → m.white ≡ false
unfolding is_gray
gray_white m k = ground arith

module _ (bodies : ℕ → Body) (g : Global) (t : IsTracing bodies g) where
  pub IsTracing-IsMarking : g.gray ≢ [] → IsMarking g
  IsTracing-IsMarking more = record {
    listed = λ a k n. t.listed a k (ap is_string (sym (t.fits a)) ∙ n);
    members = λ a k. gray_white (mark_at g a) (t.grays a k);
    strings = λ a s. t.strings a (ap is_string (sym (t.fits a)) ∙ s);
    shape = rw t.state (t.last more);
    distinct = t.distinct;
    linked = λ a k.
        let (s, u) = t.linked a k in (ap is_string (t.fits a) ∙ s, ap is_upvalue (t.fits a) ∙ u);
    clean = λ a w u. t.clean a w (ap is_upvalue (sym (t.fits a)) ∙ u);
  }

pub gray_black : (m : Mark) → is_gray m ≡ true → ¬ (m.black ≡ true)
unfolding is_gray
gray_black m k b = ground arith

pub both_gray : (m : Mark) → m.white ≡ false → m.black ≡ false → is_gray m ≡ true
unfolding is_gray
both_gray m w b = ground arith

same_address : {a c : ℕ} → (a == c) ≡ true → c ≡ a
same_address e = ground arith

tracing-IsLast :
    (st : State) (gray : List ℕ) (t : Option ℕ) → st ≡ tracing → IsShape st gray t → IsLast gray t
tracing-IsLast tracing gray t e s = s
tracing-IsLast _ gray t e s = absurd (cc e)

seen_value_mono :
    (g h : Global) (v : Option ℕ)
    → ((b : ℕ) → seen_at g b ≡ true → seen_at h b ≡ true)
    → seen_value g v ≡ true
    → seen_value h v ≡ true
seen_value_mono g h none p s = refl
seen_value_mono g h (some b) p s = p b s

pub AllSeen-mono :
    (g h : Global) (vs : List (Option ℕ))
    → ((b : ℕ) → seen_at g b ≡ true → seen_at h b ≡ true)
    → AllSeen g vs
    → AllSeen h vs
AllSeen-mono g h [] p s = tt
AllSeen-mono g h (v ∷ vs) p (s, more) = (seen_value_mono g h v p s, AllSeen-mono g h vs p more)

IsLast-tail :
    (a : ℕ) (others : List ℕ) (t : Option ℕ) → others ≢ [] → IsLast (a ∷ others) t → IsLast others t
IsLast-tail a [] t n l = absurd (n refl)
IsLast-tail a (b ∷ more) t n l = l.1

module _ (bodies : ℕ → Body) (g h : Global) (t : IsTracing bodies g) (a : ℕ) (others : List ℕ)
    (b : Blackens bodies g a h) (e : h.gray ≡ a ∷ others) where
  -- behind the first node
  rest_gray : (c : ℕ) → has others c ≡ true → has h.gray c ≡ true
  rest_gray c k = rw e (ground arith)

  alone : Distinct (a ∷ others)
  alone = subst Distinct e b.marking.distinct

  twice : (c : ℕ) → has others c ≡ true → ¬ (c ≡ a)
  twice c k same = cc (ap (has others) same, k, alone.0)

  others_not_black : (c : ℕ) → has others c ≡ true → (mark_at h c).black ≡ false
  others_not_black c k = elim (Bool-cases (mark_at h c).black) [
    | inr n ↦ n
    | inl black ↦
        let (no_string, plain) = b.marking.linked c (rest_gray c k) in
        let plain' = ap is_upvalue (sym (b.fits c)) ∙ plain in
        elim (b.fresh c black) [
          | inl same ↦ absurd (twice c k same)
          | inr (inr up) ↦ absurd (cc (up, plain'))
          | inr (inl old) ↦ elim (b.added c (rest_gray c k)) [
            | inl before ↦ absurd (gray_black (mark_at g c) (t.grays c before) old)
            | inr white ↦ absurd (cc (t.clean c white plain', old))
          ]
        ]
  ]

  abbrev pub next_round : Global
  next_round = record h { gray = tail h.gray }

  next_gray : next_round.gray ≡ others
  next_gray = ap tail e

  next_listed :
      (c : ℕ) → is_gray (mark_at h c) ≡ true → is_string (bodies c) ≡ false → has others c ≡ true
  next_listed c k n =
      let k' : has h.gray c ≡ true = b.marking.listed c k (ap is_string (b.fits c) ∙ n) in
      elim (Bool-cases (a == c)) [
        | inl same ↦ absurd (gray_black (mark_at h c) k (rw (same_address same) b.black))
        | inr other ↦ ground (arith, ap (λ l. has l c) e)
      ]

  pub next-IsTracing : IsTracing bodies next_round
  next-IsTracing = record {
    fits = λ c. b.fits c;
    state = b.state ∙ t.state;
    listed = λ c k n. ap (λ l. has l c) next_gray ∙ next_listed c k n;
    grays = λ c k.
        let k' : has others c ≡ true = ap (λ l. has l c) (sym next_gray) ∙ k in
        both_gray (mark_at h c) (b.marking.members c (rest_gray c k')) (others_not_black c k');
    linked = λ c k.
        let k' : has others c ≡ true = ap (λ l. has l c) (sym next_gray) ∙ k in
        let (s, u) = b.marking.linked c (rest_gray c k') in
        (ap is_string (sym (b.fits c)) ∙ s, ap is_upvalue (sym (b.fits c)) ∙ u);
    distinct = subst Distinct (sym next_gray) alone.1;
    last = λ n.
        subst (λ l. IsLast l h.gray_tail) (sym next_gray)
          (IsLast-tail a others h.gray_tail (λ z. n (next_gray ∙ z))
            (subst (λ l. IsLast l h.gray_tail) e
              (tracing-IsLast h.gc_state h.gray h.gray_tail (b.state ∙ t.state) b.marking.shape)));
    strings = λ c s. b.marking.strings c (ap is_string (b.fits c) ∙ s);
    clean = λ c w u. b.marking.clean c w (ap is_upvalue (b.fits c) ∙ u);
    reached = λ c k. elim (b.news c k) [
      | inl old ↦ AllSeen-mono g next_round _ b.seens (t.reached c old)
      | inr s ↦ AllSeen-mono h next_round _ (λ d k. k) s
    ];
  }
