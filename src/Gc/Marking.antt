-- ===== src/Gc/Marking.antt =====
-- `gc_mark_object`: the gray list holds the gray objects, each once, and its tail is its last node.
use lulu.Prelude.{
  ℕ, ◌≡◌, refl, ap, ◌∙◌, ◌≢◌, ◌⊎◌, inl, inr, Bool, true, false, not, ◌||◌, Option, none, some, List,
  [], ◌∷◌, ◌++◌, arith, ◌==◌, Bool-cases,
}
use lulu.Gc.{
  Mark, is_gray, set_gray_from_white, Body, string, upvalue, Object, Global, State, paused, marking,
  tracing, sweeping, mark_at, body_at, put_mark, closed_value, link_after, link_gray, link_object,
  gc_mark_object,
}

abbrev pub has : List ℕ → ℕ → Bool
has [] a = false
has (b ∷ bs) a = b == a || has bs a

abbrev pub is_string : Body → Bool
is_string string = true
is_string _ = false

abbrev pub is_upvalue : Body → Bool
is_upvalue (upvalue v) = true
is_upvalue _ = false

abbrev pub Distinct : List ℕ → Type 0
Distinct [] = Unit
Distinct (a ∷ more) = (has more a ≡ false) × Distinct more

-- reached in this collection
abbrev pub seen : Mark → Bool
seen m = not m.white || m.black

abbrev pub IsLast : List ℕ → Option ℕ → Type 0
IsLast [] t = ⊥
IsLast (a ∷ []) t = t ≡ some a
IsLast (a ∷ b ∷ more) t = (t ≢ some a) × IsLast (b ∷ more) t

-- While roots are marked the tail is set only when a second node is linked.
abbrev pub IsShape : State → List ℕ → Option ℕ → Type 0
IsShape marking (a ∷ b ∷ more) t = IsLast (a ∷ b ∷ more) t
IsShape marking _ t = t ≡ none
IsShape tracing gray t = IsLast gray t
IsShape _ gray t = ⊥

pub record IsMarking (g : Global) : Type 0 where
  pub listed :
      (a : ℕ) → is_gray (mark_at g a) ≡ true → is_string (body_at g a) ≡ false → has g.gray a ≡ true
  pub members : (a : ℕ) → has g.gray a ≡ true → (mark_at g a).white ≡ false
  pub strings : (a : ℕ) → is_string (body_at g a) ≡ true → (mark_at g a).black ≡ false
  pub shape : IsShape g.gc_state g.gray g.gray_tail
  pub distinct : Distinct g.gray
  pub linked :
      (a : ℕ)
      → has g.gray a ≡ true
      → (is_string (body_at g a) ≡ false) × (is_upvalue (body_at g a) ≡ false)
  pub clean :
      (a : ℕ)
      → (mark_at g a).white ≡ true
      → is_upvalue (body_at g a) ≡ false
      → (mark_at g a).black ≡ false

has-IsLast : (gray : List ℕ) (t : ℕ) → IsLast gray (some t) → has gray t ≡ true
has-IsLast [] t h = absurd h
has-IsLast (a ∷ []) t h = ground arith
has-IsLast (a ∷ b ∷ more) t h = ground (arith, has-IsLast (b ∷ more) t h.1)

no-IsLast : (gray : List ℕ) → ¬ IsLast gray none
no-IsLast [] h = h
no-IsLast (a ∷ []) h = cc h
no-IsLast (a ∷ b ∷ more) h = no-IsLast (b ∷ more) h.1

-- A node that is linked behind the last one is the last one.
link_after-append :
    (gray : List ℕ) (t a : ℕ) → IsLast gray (some t) → link_after t a gray ≡ gray ++ a ∷ []
unfolding link_after
link_after-append [] t a h = absurd h
link_after-append (c ∷ []) t a h = ground arith
link_after-append (c ∷ d ∷ more) t a h = ground (arith, link_after-append (d ∷ more) t a h.1)

IsLast-append : (gray : List ℕ) (a : ℕ) → has gray a ≡ false → IsLast (gray ++ a ∷ []) (some a)
IsLast-append [] a n = refl
IsLast-append (c ∷ []) a n = (λ e. absurd (ground arith), refl)
IsLast-append (c ∷ d ∷ more) a n =
    (λ e. absurd (ground arith), IsLast-append (d ∷ more) a (ground arith))

has-append : (gray : List ℕ) (a b : ℕ) → has (gray ++ a ∷ []) b ≡ (has gray b || a == b)
has-append [] a b = ground arith
has-append (c ∷ more) a b = ground (arith, has-append more a b)

Distinct-append :
    (gray : List ℕ) (a : ℕ) → Distinct gray → has gray a ≡ false → Distinct (gray ++ a ∷ [])
Distinct-append [] a d n = (refl, tt)
Distinct-append (c ∷ more) a (e, d) n =
    (ground (arith, has-append more a c), Distinct-append more a d (ground arith))

abbrev pub seen_at : Global → ℕ → Bool
seen_at g a = seen (mark_at g a)

abbrev pub seen_value : Global → Option ℕ → Bool
seen_value g none = true
seen_value g (some a) = seen_at g a

-- what only a sweep changes
abbrev pub lists : Global → List ℕ × List (List ℕ) × List ℕ
lists g = (g.objects, g.intern, g.freed)

-- what marking changes and keeps
pub record Grows (g h : Global) : Type 0 where
  pub bodies : (a : ℕ) → body_at h a ≡ body_at g a
  pub blacks : (a : ℕ) → (mark_at g a).black ≡ true → (mark_at h a).black ≡ true
  pub whites : (a : ℕ) → (mark_at h a).white ≡ true → (mark_at g a).white ≡ true
  pub fixeds : (a : ℕ) → (mark_at h a).fixed ≡ (mark_at g a).fixed
  pub state : h.gc_state ≡ g.gc_state
  pub same_lists : lists h ≡ lists g
  pub listing : (a : ℕ) → has g.gray a ≡ true → has h.gray a ≡ true
  pub added : (a : ℕ) → has h.gray a ≡ true → (has g.gray a ≡ true) ⊎ ((mark_at g a).white ≡ true)
  -- while references are traced, new nodes come behind the first
  pub front :
      (a : ℕ) (more : List ℕ)
      → g.gc_state ≡ tracing
      → g.gray ≡ a ∷ more
      → (others : List ℕ) × (h.gray ≡ a ∷ others)
  -- only an upvalue becomes black, and its value is reached then
  pub news :
      (a : ℕ)
      → (mark_at h a).black ≡ true
      → ((mark_at g a).black ≡ true)
        ⊎ ((is_upvalue (body_at g a) ≡ true) × (seen_value h (closed_value (body_at g a)) ≡ true))

pub seen-Grows : {g h : Global} → Grows g h → (a : ℕ) → seen_at g a ≡ true → seen_at h a ≡ true
seen-Grows p a s = ground (arith, p.blacks a, p.whites a)

pub seen_value-Grows :
    {g h : Global} → Grows g h → (v : Option ℕ) → seen_value g v ≡ true → seen_value h v ≡ true
seen_value-Grows p none s = refl
seen_value-Grows p (some a) s = seen-Grows p a s

pub Grows-refl : (g : Global) → Grows g g
Grows-refl g = record {
  bodies = λ a. refl;
  blacks = λ a b. b;
  whites = λ a w. w;
  fixeds = λ a. refl;
  state = refl;
  same_lists = refl;
  listing = λ a l. l;
  added = λ a l. inl l;
  front = λ a more t e. (more, e);
  news = λ a b. inl b;
}

pub Grows-trans : {g h i : Global} → Grows g h → Grows h i → Grows g i
Grows-trans {g} {h} {i} p q = record {
  bodies = λ a. q.bodies a ∙ p.bodies a;
  blacks = λ a b. q.blacks a (p.blacks a b);
  whites = λ a w. p.whites a (q.whites a w);
  fixeds = λ a. q.fixeds a ∙ p.fixeds a;
  state = q.state ∙ p.state;
  same_lists = q.same_lists ∙ p.same_lists;
  listing = λ a l. q.listing a (p.listing a l);
  added = λ a l. elim (q.added a l) [ inl k ↦ p.added a k | inr w ↦ inr (p.whites a w) ];
  front = λ a more t e. let (others, e') = p.front a more t e in q.front a others (p.state ∙ t) e';
  news = λ a b. elim (q.news a b) [
    | inr (up, s) ↦ inr (rw (p.bodies a) at up, rw (p.bodies a) at s)
    | inl b' ↦ elim (p.news a b') [
      | inl b'' ↦ inl b''
      | inr (up, s) ↦ inr (up, seen_value-Grows q _ s)
    ]
  ];
}

-- the result of marking a white object with a link to the gray list
record Links (g : Global) (a : ℕ) (h : Global) : Type 0 where
  heap : h.heap ≡ g.heap
  state : h.gc_state ≡ g.gc_state
  same_lists : lists h ≡ lists g
  shape : IsShape h.gc_state h.gray h.gray_tail
  gray : (b : ℕ) → has h.gray b ≡ (has g.gray b || a == b)
  distinct : Distinct h.gray
  front :
      (c : ℕ) (more : List ℕ)
      → g.gc_state ≡ tracing
      → g.gray ≡ c ∷ more
      → (others : List ℕ) × (h.gray ≡ c ∷ others)

module _ (heap : ℕ → Object) (objects : List ℕ) (intern : List (List ℕ)) (freed : List ℕ) where
  abbrev global : State → List ℕ → Option ℕ → Global
  global st gray t = record {
    heap = heap;
    gc_state = st;
    gray = gray;
    gray_tail = t;
    objects = objects;
    intern = intern;
    freed = freed;
  }

  link_parts :
      (st : State) (gray : List ℕ) (t : Option ℕ) (a : ℕ)
      → IsShape st gray t
      → has gray a ≡ false
      → Distinct gray
      → (h : Global) × (link_gray (global st gray t) a st ≡ some h) × Links (global st gray t) a h
  unfolding link_gray
  link_parts marking [] t a s n d = (
    global marking (a ∷ []) none,
    rw s refl,
    record {
      heap = refl;
      state = refl;
      same_lists = refl;
      shape = refl;
      gray = λ b. ground arith;
      distinct = (n, d);
      front = λ c more t e. absurd (cc t);
    },
  )
  link_parts marking (c ∷ []) t a s n d = (
    global marking (a ∷ c ∷ []) (some c),
    rw s refl,
    record {
      heap = refl;
      state = refl;
      same_lists = refl;
      shape = (λ e. absurd (ground arith), refl);
      gray = λ b. ground arith;
      distinct = (n, d);
      front = λ c more t e. absurd (cc t);
    },
  )
  link_parts marking (c ∷ second ∷ more) none a s n d = absurd (no-IsLast (c ∷ second ∷ more) s)
  link_parts marking (c ∷ second ∷ more) (some t) a s n d = (
    global marking (a ∷ c ∷ second ∷ more) (some t),
    refl,
    record {
      heap = refl;
      state = refl;
      same_lists = refl;
      shape = (λ e. absurd (ground (arith, has-IsLast (c ∷ second ∷ more) t s)), s);
      gray = λ b. ground arith;
      distinct = (n, d);
      front = λ c more t e. absurd (cc t);
    },
  )
  link_parts tracing gray none a s n d = absurd (no-IsLast gray s)
  link_parts tracing gray (some t) a s n d = (
    global tracing (link_after t a gray) (some a),
    refl,
    record {
      heap = refl;
      state = refl;
      same_lists = refl;
      shape = rw (link_after-append gray t a s) (IsLast-append gray a n);
      gray = λ b. rw (link_after-append gray t a s) (has-append gray a b);
      distinct = rw (link_after-append gray t a s) (Distinct-append gray a d n);
      front =
          λ c more t' e. (more ++ a ∷ [], link_after-append gray t a s ∙ ap (λ l. l ++ a ∷ []) e);
    },
  )
  link_parts paused gray t a s n d = absurd s
  link_parts sweeping gray t a s n d = absurd s

link_gray-Links :
    (g : Global) (a : ℕ)
    → IsShape g.gc_state g.gray g.gray_tail
    → has g.gray a ≡ false
    → Distinct g.gray
    → (h : Global) × (link_gray g a g.gc_state ≡ some h) × Links g a h
link_gray-Links g a s n d =
    link_parts g.heap g.objects g.intern g.freed g.gc_state g.gray g.gray_tail a s n d

-- the state behind a white object that became gray and was linked
linked-IsMarking :
    (g h : Global) (a : ℕ)
    → IsMarking g
    → (mark_at g a).white ≡ true
    → is_string (body_at g a) ≡ false
    → is_upvalue (body_at g a) ≡ false
    → Links (put_mark g a (set_gray_from_white (mark_at g a))) a h
    → Grows g h × IsMarking h
unfolding put_mark set_gray_from_white is_gray
linked-IsMarking g h a m w n u l =
    let mark = λ (b : ℕ). ap (λ f. (f b).mark) l.heap in
    let body = λ (b : ℕ). ap (λ f. (f b).body) l.heap in
    (
      record {
        bodies = λ b. ground (arith, body b);
        blacks = λ b k. ground (arith, mark b);
        whites = λ b k. ground (arith, mark b);
        fixeds = λ b. ground (arith, mark b);
        state = l.state;
        same_lists = l.same_lists;
        listing = λ b k. ground (arith, l.gray b);
        added = λ b k. ground (arith, l.gray b);
        front = λ c more t e. l.front c more t e;
        news = λ b k. inl (ground (arith, mark b));
      },
      record {
        listed = λ b k n. ground (arith, mark b, body b, l.gray b, m.listed b);
        members = λ b k. ground (arith, mark b, l.gray b, m.members b);
        strings = λ b k. ground (arith, mark b, body b, m.strings b);
        shape = l.shape;
        distinct = l.distinct;
        linked = λ b k. ground (arith, body b, l.gray b, m.linked b);
        clean = λ b k v. ground (arith, mark b, body b, m.clean b);
      },
    )

-- a string becomes gray and is not linked
string-IsMarking :
    (g : Global) (a : ℕ)
    → IsMarking g
    → is_string (body_at g a) ≡ true
    → (let h = put_mark g a (set_gray_from_white (mark_at g a)) in Grows g h × IsMarking h)
unfolding put_mark set_gray_from_white is_gray
string-IsMarking g a m s = (
  record {
    bodies = λ b. ground arith;
    blacks = λ b k. ground arith;
    whites = λ b k. ground arith;
    fixeds = λ b. ground arith;
    state = refl;
    same_lists = refl;
    listing = λ b k. k;
    added = λ b k. inl k;
    front = λ c more t e. (more, e);
    news = λ b k. inl (ground arith);
  },
  record {
    listed = λ b k n. ground (arith, m.listed b);
    members = λ b k. ground (arith, m.members b);
    strings = λ b k. ground (arith, m.strings b);
    shape = m.shape;
    distinct = m.distinct;
    linked = λ b k. ground (arith, m.linked b);
    clean = λ b k v. ground (arith, m.clean b);
  },
)

seen-gray :
    (g : Global) (a : ℕ) → seen_at (put_mark g a (set_gray_from_white (mark_at g a))) a ≡ true
unfolding put_mark set_gray_from_white
seen-gray g a = ground arith

put-IsShape :
    (g : Global) (a : ℕ)
    → IsMarking g
    → (let h = put_mark g a (set_gray_from_white (mark_at g a)) in
        IsShape h.gc_state h.gray h.gray_tail)
unfolding put_mark
put-IsShape g a m = m.shape

put-Distinct :
    (g : Global) (a : ℕ)
    → IsMarking g
    → Distinct (put_mark g a (set_gray_from_white (mark_at g a))).gray
unfolding put_mark
put-Distinct g a m = m.distinct

unlisted :
    (g : Global) (a : ℕ)
    → IsMarking g
    → (mark_at g a).white ≡ true
    → has (put_mark g a (set_gray_from_white (mark_at g a))).gray a ≡ false
unfolding put_mark
unlisted g a m w = ground (arith, m.members a)

link_object_gray :
    (g : Global) (a : ℕ) (b : Body)
    → is_string b ≡ false
    → is_upvalue b ≡ false
    → link_object g a b ≡ link_gray g a g.gc_state
unfolding link_object
link_object_gray g a string s u = absurd (cc s)
link_object_gray g a (upvalue v) s u = absurd (cc u)
link_object_gray g a _ s u = refl

link_object_string :
    (g : Global) (a : ℕ) (b : Body) → is_string b ≡ true → link_object g a b ≡ some g
unfolding link_object
link_object_string g a string s = refl
link_object_string g a _ s = absurd (cc s)

-- the result of marking: the object is reached, and what holds of a state of the marking holds
pub record Marks (g : Global) (s : Global → Type 0) (r : Option Global) : Type 0 where
  pub result : Global
  pub returns : r ≡ some result
  pub grows : Grows g result
  pub marking : IsMarking result
  pub holds : s result

-- Where the roots are marked or the references are traced, and the gray list is well formed
-- (IsMarking), which in the trace phase means that its tail is set, an object that is not an upvalue is
-- marked without a failed assertion or a panic, and is reached then.
pub gc_mark_object-Marks :
    (g : Global) (a : ℕ)
    → IsMarking g
    → is_upvalue (body_at g a) ≡ false
    → Marks g (λ h. seen_at h a ≡ true) (gc_mark_object g a)
unfolding gc_mark_object
gc_mark_object-Marks g a m u = elim (Bool-cases (mark_at g a).white) [
  | inr w ↦ record {
    result = g;
    returns = rw (w, gc_mark_object) refl;
    grows = Grows-refl g;
    marking = m;
    holds = rw w refl;
  }
  | inl w ↦ elim (Bool-cases (is_string (body_at g a))) [
    | inl s ↦
        let (grows, kept) = string-IsMarking g a m s in
        record {
          result = put_mark g a (set_gray_from_white (mark_at g a));
          returns = rw (w, gc_mark_object) (link_object_string _ a (body_at g a) s);
          grows = grows;
          marking = kept;
          holds = seen-gray g a;
        }
    | inr n ↦
        let (h, e, l) =
          link_gray-Links (put_mark g a (set_gray_from_white (mark_at g a))) a (put-IsShape g a m)
            (unlisted g a m w) (put-Distinct g a m) in
        let (grows, kept) = linked-IsMarking g h a m w n u l in
        record {
          result = h;
          returns = rw (w, gc_mark_object) (link_object_gray _ a (body_at g a) n u ∙ e);
          grows = grows;
          marking = kept;
          holds = ap (λ f. seen (f a).mark) l.heap ∙ seen-gray g a;
        }
  ]
]
